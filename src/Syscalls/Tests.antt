-- ===== src/Syscalls/Tests.antt =====
-- Runs of the system calls on a sample state.
use mass_os.Prelude.{
  pos, negsuc, find_from, ℕ, ◌≡◌, refl, true, false, Option, none, some, List, [], ◌∷◌, arith,
}
use mass_os.Fd.{fd_get}
use mass_os.Fixtures.{closed_pipe, sample, no_memory, idle_keyboard, raw_machine}
use mass_os.Kernel.{ready, fd_terminal, Kernel, set_pipe}
use mass_os.Keyboard.{Machine, copy_registers_buffer}
use mass_os.Pipe.Opening.{opened_pipe}
use mass_os.Process.{process_get, process_unblock, process_ps}
use mass_os.Process.Lifecycle.{
  process_exit, process_nice, process_create, process_kill, process_waitpid,
}
use mass_os.Semaphore.{sem_open, sem_wait, sem_post, sem_close}
use mass_os.Syscalls.{
  sys_getpid, sys_block, sys_yield, sys_pipe, sys_dup2, sys_read, sys_write_color, sys_write,
}
use mass_os.Syscalls.Pipes.{sys_pipe-full, sys_pipe-delivers}
use mass_os.Terminal.Pipes.{IsDelivered}
use mass_os.Syscalls.{
  sys_unblock, sys_pipe_open, sys_close, sys_pipe_setup, sys_waitpid, sys_create_process, sys_exit,
  sys_ps, sys_kill, sys_nice, sys_sem_open, sys_sem_wait, sys_sem_post, sys_sem_close, sys_tty_mode,
  sys_registers, sys_ticks,
}

abbrev machine : Machine (Unit {0})
machine = raw_machine

own_pid : sys_getpid sample ≡ 2
unfolding sys_getpid
own_pid = refl

yielded : (sys_yield sample).force_switch ≡ true
unfolding sys_yield
yielded = refl

no_such_block : (sys_block sample 77).0 ≡ negsuc 0
unfolding sys_block process_get find_from
no_such_block = refl

still_ready : ((sys_unblock sample 3).process_table 2).state ≡ ready
unfolding sys_unblock process_unblock process_get find_from
still_ready = refl

no_array : (sys_pipe sample false).0 ≡ none
unfolding sys_pipe
no_array = refl

unnamed : (sys_pipe_open sample none true).0 ≡ none
unfolding sys_pipe_open
unnamed = refl

no_such_fd : (sys_dup2 sample 7 1).0 ≡ negsuc 0
unfolding sys_dup2 fd_get
no_such_fd = refl

bad_target : (sys_dup2 sample 0 2).0 ≡ negsuc 0
unfolding sys_dup2
bad_target = refl

closed : (sys_close sample 3).0 ≡ pos 0
unfolding sys_close
closed = refl

no_setup : (sys_pipe_setup sample 77 3 1).0 ≡ pos 0
unfolding sys_pipe_setup
no_setup = refl

no_child : (sys_waitpid no_memory sample 77).0 ≡ negsuc 0
unfolding sys_waitpid process_waitpid process_get find_from
no_child = refl

no_stack : (sys_create_process no_memory sample [] (500, 600) (0, none) 256).0 ≡ negsuc 0
unfolding sys_create_process process_create find_from fd_get
no_stack = refl

exited : ((sys_exit sample 5).process_table 1).retval ≡ pos 5
unfolding sys_exit process_exit process_get find_from
exited = refl

listed : sys_ps sample 3 ≡ process_ps sample 3
unfolding sys_ps
listed = refl

killed : (sys_kill no_memory sample 3).run_queue ≡ 3 ∷ 1 ∷ []
unfolding sys_kill process_kill process_get find_from
killed = refl

niced : ((sys_nice sample 3 260).process_table 2).priority ≡ 4
unfolding sys_nice process_nice process_get find_from
niced = refl

abbrev lock_name : Option (List ℕ)
lock_name = some (b'm' ∷ [])

opened : sys_sem_open sample lock_name 0 ≡ sem_open sample lock_name 0
unfolding sys_sem_open
opened = refl

waited : sys_sem_wait sample lock_name ≡ sem_wait sample lock_name
unfolding sys_sem_wait
waited = refl

posted : sys_sem_post sample lock_name ≡ sem_post sample lock_name
unfolding sys_sem_post
posted = refl

sem_closed : sys_sem_close sample lock_name ≡ sem_close sample lock_name
unfolding sys_sem_close
sem_closed = refl

no_bytes : (sys_read machine 9 true 0).0 ≡ 0
unfolding sys_read
no_bytes = refl

null_buffer : (sys_write machine 1 none).0 ≡ 0
unfolding sys_write sys_write_color
null_buffer = refl

previous_mode : (sys_tty_mode machine 1).0 ≡ pos 0
unfolding sys_tty_mode
previous_mode = refl

no_registers : sys_registers machine ≡ copy_registers_buffer idle_keyboard
unfolding sys_registers
no_registers = refl

at_start : sys_ticks sample ≡ 0
unfolding sys_ticks
at_start = refl

sys_pipe-delivers_example :
    let (fds, k) = sys_pipe sample true in
    (fds ≡ some (0, 1))
    × IsDelivered (record machine { kernel = k }) 0 1 7 10 (some 1) (1 ∷ 258 ∷ [])
unfolding find_from
sys_pipe-delivers_example =
    sys_pipe-delivers machine 0 0 1 7 10 (some 1) (1 ∷ 258 ∷ []) refl refl refl (omega arith)
      (omega arith) (omega arith)

-- No descriptor is free.
abbrev full : Kernel (Unit {0})
full = record sample { fd_table = λ _. record { type = fd_terminal; refcount = 1; pipe = none } }

sys_pipe-full_example : sys_pipe full true ≡ (none, set_pipe full 0 (opened_pipe closed_pipe))
unfolding find_from
sys_pipe-full_example = sys_pipe-full full 0 refl refl
