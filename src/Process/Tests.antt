-- ===== src/Process/Tests.antt =====
-- Runs of Kernel/c/process/process.c on a sample state, and its theorems at it.
use mass_os.Prelude.{
  ℤ, pos, negsuc, length, find_from, ℕ, ◌+◌, ◌-◌, ◌≡◌, refl, false, none, some, [], ◌∷◌, arith,
}
use mass_os.Fd.{fd_get}
use mass_os.Fixtures.{sample_on, sample, no_memory}
use mass_os.Kernel.{blocked, zombie, Kernel, MemoryManager, kbd_waiter}
use mass_os.Process.{process_get, process_ps}
use mass_os.Process.Lifecycle.{
  process_init, process_exit, process_nice, process_pipe_setup, process_create, process_kill,
  process_kill_foreground, process_waitpid,
}
use mass_os.Process.Lifecycle.Waiting.{process_kill-reader}
use mass_os.Process.Priority.{process_nice-IsSorted}
use mass_os.Scheduler.Order.{IsSorted}

-- An allocator that gives out 8 KB steps, for processes to be created.
abbrev steps : MemoryManager ℕ
steps = record { mm_malloc_kernel = λ n h. (h, h + 8192); mm_free = λ a h. h }

abbrev roomy : Kernel ℕ
roomy = sample_on 8192

abbrev created : ℤ × Kernel ℕ
unfolding process_create find_from fd_get
created = process_create steps roomy (b's' ∷ b'h' ∷ []) (500, 600) (0, none) 1

created-pid : created.0 ≡ pos 5
unfolding process_create find_from fd_get
created-pid = refl

-- The new process is in slot 4, queued before the process of priority 1, with its entry in RIP.
created-queue : created.1.run_queue ≡ 3 ∷ 1 ∷ 4 ∷ 2 ∷ []
unfolding process_create find_from fd_get
created-queue = refl

created-frame : created.1.memory (8192 + 4096 - 40) ≡ 600
unfolding process_create find_from fd_get
created-frame = refl

no_room : (process_create no_memory sample [] (500, 600) (0, none) 1).0 ≡ negsuc 0
unfolding process_create find_from fd_get
no_room = refl

init-current : (process_init sample).current_process ≡ none
unfolding process_init
init-current = refl

-- Killing another process frees its slot and takes it off the queue.
killed-queue : (process_kill no_memory sample 3).run_queue ≡ 3 ∷ 1 ∷ []
unfolding process_kill process_get find_from
killed-queue = refl

killed-foreground : (process_kill_foreground no_memory sample).force_switch ≡ false
unfolding process_kill_foreground
killed-foreground = refl

exited-state : ((process_exit sample (pos 7)).process_table 1).state ≡ zombie
unfolding process_exit process_get find_from
exited-state = refl

waited-state : ((process_waitpid no_memory sample 3).1.process_table 1).state ≡ blocked
unfolding process_waitpid process_get find_from
waited-state = refl

redirected : ((process_pipe_setup sample 3 1 0).process_table 2).fd 0 ≡ some 1
unfolding process_pipe_setup process_get find_from
redirected = refl

listed : length (process_ps sample 10) ≡ 4
unfolding process_ps
listed = refl

process_nice-IsSorted_example :
    IsSorted (process_nice sample 3 9).process_table (process_nice sample 3 9).run_queue
unfolding process_get find_from
process_nice-IsSorted_example =
    process_nice-IsSorted sample 3 2 9 refl refl (omega arith) (omega arith)

-- Process 3 reads the keyboard and is killed.
abbrev reading : Kernel (Unit {0})
reading = record sample { kbd_waiting_process = some 2 }

process_kill-reader_example : kbd_waiter (process_kill no_memory reading 3) ≡ none
unfolding process_get find_from
process_kill-reader_example = process_kill-reader no_memory reading 3 2 refl refl
