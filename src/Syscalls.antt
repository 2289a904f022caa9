-- ===== src/Syscalls.antt =====
-- Kernel/c/syscall/syscallDispatcher.c: the system calls on processes, semaphores, pipes,
-- descriptors and the terminal. Those that only call the memory manager, the clock, the speaker or
-- the video driver are not here.
pub mod Pipes
mod Tests
use mass_os.Prelude.{
  ltb, ◌==◌, if◌then◌else◌, ℤ, pos, negsuc, to_int, to_uint64, length, update, ℕ, ◌%◌, Bool, true,
  false, not, ◌&&◌, ◌||◌, Option, none, some, List, [],
}
use mass_os.Fd.{fd_get, fd_incref, fd_decref, fd_create_pipe}
use mass_os.Kernel.{ready, is_free, is_blocked, is_zombie, Pcb, Kernel, MemoryManager, set_pcb}
use mass_os.Keyboard.{white, Machine, tty_set_mode, copy_registers_buffer}
use mass_os.Pipe.{pipe_open}
use mass_os.Process.{ProcessInfo, process_get, process_block, process_unblock, process_ps}
use mass_os.Process.Lifecycle.{
  decref_if, process_exit, process_nice, process_pipe_setup, process_create, process_kill,
  process_waitpid,
}
use mass_os.Semaphore.{sem_open, sem_wait, sem_post, sem_close}
use mass_os.Terminal.{fd_read, fd_write}

abbrev pub minus_one : ℤ
minus_one = negsuc 0

-- `(uint64_t)(int)fd`
abbrev pub as_descriptor : ℕ → ℕ
as_descriptor fd = to_uint64 (to_int fd)

-- The test `cur->fd[new_fd] == (int)old_fd`.
abbrev holds_fd : Option ℕ → ℕ → Bool
holds_fd none fd = false
holds_fd (some d) fd = d == fd

-- The descriptor behind a number: the process's own below `own`, a global one from there on.
pub real_fd : Pcb → ℕ → ℕ → Option ℕ
real_fd cur own fd = if ltb fd own then cur.fd fd else some (as_descriptor fd)

module _ {H : Type 0} where
  pub sys_getpid : Kernel H → ℕ
  sys_getpid k = elim k.current_process [ none ↦ 0 | some c ↦ (k.process_table c).pid ]

  pub sys_block : Kernel H → ℕ → ℤ × Kernel H
  sys_block k pid = elim (process_get k pid) [
    | none ↦ (minus_one, k)
    | some p ↦
        let c = k.process_table p in
        if is_free c.state || is_zombie c.state
        then (minus_one, k)
        else if is_blocked c.state && not (c.waiting_for == 0)
        then (minus_one, k)
        else if is_blocked c.state
        then (pos 0, process_unblock k pid)
        else (pos 0, process_block k pid)
  ]

  sys_unblock : Kernel H → ℕ → Kernel H
  sys_unblock k pid = process_unblock k pid

  pub sys_yield : Kernel H → Kernel H
  sys_yield k = elim k.current_process [
    | none ↦ k
    | some c ↦ record (set_pcb k c (record (k.process_table c) { state = ready })) {
      force_switch = true;
    }
  ]

  -- The two descriptors, or `none` for -1.
  pub pipe_create_fds : Kernel H → Option ℕ → Option (ℕ × ℕ) × Kernel H
  pipe_create_fds k p =
      let (read_fd, k1) = fd_create_pipe k p false in
      elim read_fd [
        | none ↦ (none, k1)
        | some r ↦
            let (write_fd, k2) = fd_create_pipe k1 p true in
            elim write_fd [ none ↦ (none, fd_decref k2 r) | some w ↦ (some (r, w), k2) ]
      ]

  -- `fd_array` says whether the caller's array is not NULL.
  pub sys_pipe : Kernel H → Bool → Option (ℕ × ℕ) × Kernel H
  sys_pipe k fd_array =
      let (p, k1) = pipe_open k none in
      if not fd_array
      then (none, k)
      else elim p [ none ↦ (none, k1) | some i ↦ pipe_create_fds k1 (some i) ]

  sys_pipe_open : Kernel H → Option (List ℕ) → Bool → Option (ℕ × ℕ) × Kernel H
  unfolding pipe_create_fds
  sys_pipe_open k none fd_array = (none, k)
  sys_pipe_open k (some name) fd_array =
      let (p, k1) = pipe_open k (some name) in
      if not fd_array
      then (none, k)
      else elim p [ none ↦ (none, k1) | some i ↦ pipe_create_fds k1 (some i) ]

  pub sys_dup2 : Kernel H → ℕ → ℕ → ℤ × Kernel H
  sys_dup2 k old_fd new_fd = if ltb 1 new_fd then (minus_one, k) else elim (fd_get k old_fd) [
    | none ↦ (minus_one, k)
    | some d ↦ elim k.current_process [
      | none ↦ (minus_one, k)
      | some c ↦
          if holds_fd ((k.process_table c).fd new_fd) old_fd
          then (pos old_fd, k)
          else (let k1 = decref_if k ((k.process_table c).fd new_fd) in
              let pcb = k1.process_table c in
              let k2 = set_pcb k1 c (record pcb { fd = update pcb.fd new_fd (some old_fd) }) in
              (pos old_fd, fd_incref k2 old_fd))
    ]
  ]

  sys_close : Kernel H → ℕ → ℤ × Kernel H
  sys_close k fd = (pos 0, fd_decref k fd)

  -- For numbers below 2^31: a negative `target` passes the test `target > 1` of the source.
  sys_pipe_setup : Kernel H → ℕ → ℕ → ℕ → ℤ × Kernel H
  sys_pipe_setup k pid stdio_fd target = (pos 0, process_pipe_setup k pid stdio_fd target)

  sys_waitpid : MemoryManager H → Kernel H → ℕ → ℤ × Kernel H
  sys_waitpid mm k pid = process_waitpid mm k pid

  sys_create_process :
      MemoryManager H
      → Kernel H
      → List ℕ
      → ℕ × ℕ
      → ℕ × Option (List (Option (List ℕ)))
      → ℕ
      → ℤ × Kernel H
  sys_create_process mm k name entries args fg = process_create mm k name entries args (fg % 256)

  sys_exit : Kernel H → ℕ → Kernel H
  sys_exit k retval = process_exit k (to_int retval)

  sys_ps : Kernel H → ℕ → List ProcessInfo
  sys_ps k max_count = process_ps k max_count

  sys_kill : MemoryManager H → Kernel H → ℕ → Kernel H
  sys_kill mm k pid = process_kill mm k pid

  sys_nice : Kernel H → ℕ → ℕ → Kernel H
  sys_nice k pid new_priority = process_nice k pid (new_priority % 256)

  sys_sem_open : Kernel H → Option (List ℕ) → ℕ → ℤ × Kernel H
  sys_sem_open k name initial_value = sem_open k name initial_value

  sys_sem_wait : Kernel H → Option (List ℕ) → ℤ × Kernel H
  sys_sem_wait k name = sem_wait k name

  sys_sem_post : Kernel H → Option (List ℕ) → ℤ × Kernel H
  sys_sem_post k name = sem_post k name

  sys_sem_close : Kernel H → Option (List ℕ) → ℤ × Kernel H
  sys_sem_close k name = sem_close k name

  pub sys_read : Machine H → ℕ → Bool → ℕ → ℕ × List ℕ × Machine H
  unfolding real_fd
  sys_read m fd buf count = elim m.kernel.current_process [
    | none ↦ (0, [], m)
    | some c ↦
        if not buf || (count == 0)
        then (0, [], m)
        else elim (real_fd (m.kernel.process_table c) 1 fd) [
          | none ↦ (0, [], m)
          | some d ↦ fd_read m (fd_get m.kernel d) buf count (some c)
        ]
  ]

  -- `none` for a NULL buffer.
  pub sys_write_color : Machine H → ℕ → Option (List ℕ) → ℕ → ℕ × Machine H
  unfolding real_fd
  sys_write_color m fd none color = (0, m)
  sys_write_color m fd (some bytes) color = elim m.kernel.current_process [
    | none ↦ (0, m)
    | some c ↦
        if length bytes == 0 then (0, m) else elim (real_fd (m.kernel.process_table c) 2 fd) [
          | none ↦ (0, m)
          | some d ↦ fd_write m (fd_get m.kernel d) (some bytes) color
        ]
  ]

  pub sys_write : Machine H → ℕ → Option (List ℕ) → ℕ × Machine H
  unfolding sys_write_color
  sys_write m fd buff = sys_write_color m fd buff white

  -- The mode before the call is the result.
  sys_tty_mode : Machine H → ℕ → ℤ × Machine H
  sys_tty_mode m mode =
      (m.keyboard.tty_mode, record m { keyboard = tty_set_mode m.keyboard (to_int mode) })

  sys_registers : Machine H → Option (List ℕ)
  sys_registers m = copy_registers_buffer m.keyboard

  sys_ticks : Kernel H → ℕ
  sys_ticks k = k.ticks
