-- ===== src/WaitQueue/Tests.antt =====
-- The circular queue of PIDs at a queue that goes round the end of its array.
use mass_os.Prelude.{◌+◌, ◌≡◌, refl, [], ◌∷◌, arith}
use mass_os.WaitQueue.{WaitQueue, queue_remove_pid}
use mass_os.WaitQueue.Refine.{contents, IsQueue}

abbrev wrapped : WaitQueue
wrapped = record { items = λ i. i + 1; head = 63; tail = 2; count = 3 }

wrapped-IsQueue : IsQueue wrapped
wrapped-IsQueue = omega arith

contents-wrapped : contents wrapped ≡ 64 ∷ 1 ∷ 2 ∷ []
contents-wrapped = refl

removed : contents (queue_remove_pid wrapped 1).1 ≡ 64 ∷ 2 ∷ []
unfolding queue_remove_pid
removed = refl
