-- ===== src/Semaphore/Tests.antt =====
-- Runs of Kernel/c/semaphore/semaphore.c on a sample state, and its theorems at it.
use mass_os.Prelude.{
  ◌==◌, Bool-cases, ℤ, pos, negsuc, neg_part, pos_part, find_from, ℕ, ◌-◌, ◌^◌, ◌<◌, ◌≡◌, refl, inl,
  inr, true, false, some, List, [], ◌∷◌, arith,
}
use mass_os.Fixtures.{live_pcb, sample}
use mass_os.Kernel.{ready, blocked, Kernel, set_pcb, set_sem}
use mass_os.Process.{process_get, process_block, process_unblock}
use mass_os.Process.Waking.{IsFound}
use mass_os.Semaphore.{
  empty_queue, find_sem, sem_init, sem_open, sem_wait, sem_post, sem_cleanup_for_process, sem_close,
}
use mass_os.Semaphore.Counting.{IsCounted, IsBelowMax, AreCounted}
use mass_os.Semaphore.Invariant.{sem_wait-AreCounted, sem_post-AreCounted}
use mass_os.Semaphore.Names.{sem_open_long_name}
use mass_os.Semaphore.Waking.{sem_post_wakes}
use mass_os.WaitQueue.{max_processes, WaitQueue}
use mass_os.WaitQueue.Refine.{contents, IsQueue}

abbrev mutex : List ℕ
mutex = b'm' ∷ []

-- Slot 4 of the table holds the semaphore, with a value and a queue.
abbrev with_sem : ℤ → WaitQueue → Kernel (Unit {0})
with_sem v q =
    set_sem sample 4
      (record { name = mutex; value = v; wait_queue = q; open_count = 2; lock = false })

abbrev one_unit : Kernel (Unit {0})
one_unit = with_sem (pos 1) empty_queue

abbrev no_unit : Kernel (Unit {0})
no_unit = with_sem (pos 0) empty_queue

-- The process with PID 3, in slot 2, waits.
abbrev one_waiter : Kernel (Unit {0})
one_waiter =
    set_pcb (with_sem (negsuc 0) (record { items = λ _. 3; head = 0; tail = 1; count = 1 })) 2
      (live_pcb 3 1 0 blocked)

opened : (sem_open sample (some mutex) 1).0 ≡ pos 1
unfolding sem_open find_from
opened = refl

init_slot : ((sem_init no_unit).sem_table 4).open_count ≡ 0
unfolding sem_init
init_slot = refl

waited-state : ((sem_wait no_unit (some mutex)).1.process_table 1).state ≡ blocked
unfolding sem_wait find_from process_block process_get
waited-state = refl

posted-state : ((sem_post one_waiter (some mutex)).1.process_table 2).state ≡ ready
unfolding sem_post find_from process_unblock process_get
posted-state = refl

closed-count : ((sem_close one_unit (some mutex)).1.sem_table 4).open_count ≡ 1
unfolding sem_close find_from
closed-count = refl

cleaned-value : ((sem_cleanup_for_process one_waiter 3).sem_table 4).value ≡ pos 0
unfolding sem_cleanup_for_process find_from process_get
cleaned-value = refl

-- A sample with one semaphore is counted if that one is.
with_sem-AreCounted :
    (v : ℤ) (q : WaitQueue) → IsQueue q → q.count ≡ neg_part v → AreCounted (with_sem v q).sem_table
with_sem-AreCounted v q valid e j = elim (Bool-cases (4 == j)) [
  | inl here ↦ rw here (inr (record { queue = valid; waiting = e }))
  | inr away ↦ rw away (inl refl)
]

with_sem-room :
    (v : ℤ) (q : WaitQueue) (i : ℕ)
    → q.count < max_processes
    → ((with_sem v q).sem_table i).wait_queue.count < max_processes
with_sem-room v q i h = ground arith

with_sem-IsBelowMax :
    (v : ℤ) (q : WaitQueue) (i : ℕ)
    → pos_part v < 2 ^ 63 - 1
    → IsBelowMax ((with_sem v q).sem_table i)
with_sem-IsBelowMax v q i h = elim (Bool-cases (4 == i)) [
  | inl here ↦ rw here h
  | inr away ↦ rw away (omega arith)
]

-- The value of a semaphore that was opened with 2 ^ 63 - 1 wraps around, with nobody waiting.
overflowed :
    ((sem_post (with_sem (pos (2 ^ 63 - 1)) empty_queue) (some mutex)).1.sem_table 4).value
    ≡ negsuc (2 ^ 63 - 1)
unfolding sem_post find_from
overflowed = refl

sem_wait-AreCounted_example : AreCounted (sem_wait no_unit (some mutex)).1.sem_table
sem_wait-AreCounted_example =
    sem_wait-AreCounted no_unit (some mutex)
      (with_sem-AreCounted (pos 0) empty_queue (omega arith) refl) (λ e. cc)
      (λ i. with_sem-room (pos 0) empty_queue i (omega arith))

sem_post-AreCounted_example : AreCounted (sem_post one_waiter (some mutex)).1.sem_table
sem_post-AreCounted_example =
    sem_post-AreCounted one_waiter (some mutex)
      (with_sem-AreCounted (negsuc 0) (record { items = λ _. 3; head = 0; tail = 1; count = 1 })
        (omega arith) refl)
      (λ i.
        with_sem-IsBelowMax (negsuc 0) (record { items = λ _. 3; head = 0; tail = 1; count = 1 }) i
          (omega arith))

abbrev long_name : List ℕ
long_name =
    1 ∷ 2 ∷ 3 ∷ 4 ∷ 5 ∷ 6 ∷ 7 ∷ 8 ∷ 1 ∷ 2 ∷ 3 ∷ 4 ∷ 5 ∷ 6 ∷ 7 ∷ 8 ∷ 1 ∷ 2 ∷ 3 ∷ 4 ∷ 5 ∷ 6 ∷ 7 ∷ 8
    ∷ 1 ∷ 2 ∷ 3 ∷ 4 ∷ 5 ∷ 6 ∷ 7 ∷ 8 ∷ []

-- The call that opens under a long name reports success.
opened_long : (sem_open sample (some long_name) 1).0 ≡ pos 1
unfolding sem_open find_from
opened_long = refl

sem_open_long_name_example :
    let k' = (sem_open sample (some long_name) 1).1 in
    (sem_wait k' (some long_name) ≡ (negsuc 0, k'))
    × (sem_post k' (some long_name) ≡ (negsuc 0, k'))
sem_open_long_name_example = sem_open_long_name sample long_name 1 (λ i. omega arith) (omega arith)

one_waiter-IsCounted : IsCounted (one_waiter.sem_table 4)
one_waiter-IsCounted = record { queue = omega arith; waiting = refl }

waiter-IsFound : IsFound one_waiter 2
unfolding process_get find_from
waiter-IsFound = refl

sem_post_wakes_example :
    let (r, k') = sem_post one_waiter (some mutex) in
    (r ≡ pos 0)
    × ((k'.sem_table 4).value ≡ pos 0)
    × (contents (k'.sem_table 4).wait_queue ≡ [])
    × ((k'.process_table 2).state ≡ ready)
    × ((k'.process_table 2).held_sems 4 ≡ true)
unfolding find_sem find_from
sem_post_wakes_example =
    sem_post_wakes one_waiter mutex 4 1 2 refl refl one_waiter-IsCounted waiter-IsFound
