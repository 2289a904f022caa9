-- ===== src/Fd.antt =====
-- Kernel/c/pipe/fd.c: the table of descriptors with reference counts, over terminals and pipes.
-- `fd_read` and `fd_write`, which also reach the keyboard and the screen, are in Terminal.antt.
pub mod Background
pub mod Creating
mod Tests
use mass_os.Prelude.{
  ltb, leb, ◌==◌, if◌then◌else◌, find_from, ℕ, ◌+◌, ◌-◌, ◌*◌, Bool, true, false, not, ◌&&◌, Option,
  none, some,
}
use mass_os.Kernel.{FdType, fd_none, fd_terminal, fd_pipe_read, fd_pipe_write, Kernel, set_fd}
use mass_os.Pipe.{pipe_open_read, pipe_open_write, pipe_close_read, pipe_close_write}
use mass_os.WaitQueue.{max_processes}

-- MAX_FDS
abbrev pub max_fds : ℕ
max_fds = max_processes * 2 + 2

abbrev pub is_fd_free : FdType → Bool
is_fd_free fd_none = true
is_fd_free _ = false

abbrev pub is_terminal : FdType → Bool
is_terminal fd_terminal = true
is_terminal _ = false

module _ {H : Type 0} where
  pub fd_alloc : Kernel H → FdType → Option ℕ → Option ℕ × Kernel H
  fd_alloc k type pipe = elim (find_from (λ i. is_fd_free (k.fd_table i).type) max_fds 0) [
    | none ↦ (none, k)
    | some i ↦ (some i, set_fd k i (record { type = type; refcount = 0; pipe = pipe }))
  ]

  -- Descriptors 0 and 1 are the terminals.
  unfoldable pub fd_init : Kernel H → Kernel H
  fd_init k = record k {
    fd_table = λ i.
        if ltb i 2
        then record { type = fd_terminal; refcount = 0; pipe = none }
        else if ltb i max_fds
        then record { type = fd_none; refcount = 0; pipe = none }
        else k.fd_table i;
  }

  unfoldable pub fd_get : Kernel H → ℕ → Option ℕ
  fd_get k fd =
      if leb max_fds fd then none else if is_fd_free (k.fd_table fd).type then none else some fd

  -- What a new reference tells the pipe behind a descriptor.
  notify_open : FdType → Kernel H → Option ℕ → Kernel H
  notify_open fd_pipe_read k p = pipe_open_read k p
  notify_open fd_pipe_write k p = pipe_open_write k p
  notify_open _ k p = k

  notify_close : FdType → Kernel H → Option ℕ → Kernel H
  notify_close fd_pipe_read k p = pipe_close_read k p
  notify_close fd_pipe_write k p = pipe_close_write k p
  notify_close _ k p = k

  unfoldable pub fd_incref : Kernel H → ℕ → Kernel H
  unfolding notify_open
  fd_incref k fd = elim (fd_get k fd) [
    | none ↦ k
    | some i ↦
        let d = k.fd_table i in
        notify_open d.type (set_fd k i (record d { refcount = d.refcount + 1 })) d.pipe
  ]

  -- The slot is given back when nothing refers to it and it is no terminal.
  release_slot : Kernel H → ℕ → Kernel H
  release_slot k i =
      let d = k.fd_table i in
      if d.refcount == 0 && not (is_terminal d.type)
      then set_fd k i (record d { type = fd_none; pipe = none })
      else k

  unfoldable pub fd_decref : Kernel H → ℕ → Kernel H
  unfolding fd_get notify_close release_slot
  fd_decref k fd = elim (fd_get k fd) [
    | none ↦ k
    | some i ↦
        let d = k.fd_table i in
        if ltb 0 d.refcount
        then release_slot
            (notify_close d.type (set_fd k i (record d { refcount = d.refcount - 1 })) d.pipe) i
        else release_slot k i
  ]

  -- The result is the descriptor, `none` for -1.
  unfoldable pub fd_create_pipe : Kernel H → Option ℕ → Bool → Option ℕ × Kernel H
  fd_create_pipe k none write_end = (none, k)
  fd_create_pipe k (some p) write_end =
      let (found, k') = fd_alloc k (if write_end then fd_pipe_write else fd_pipe_read) (some p) in
      elim found [ none ↦ (none, k') | some fd ↦ (some fd, fd_incref k' fd) ]
