-- ===== src/Syscalls/Pipes.antt =====
-- `sys_pipe` of Kernel/c/syscall/syscallDispatcher.c with the pipes and descriptors behind it.
use mass_os.Prelude.{
  ◌==◌, if◌then◌else◌, ==_self, Bool-cases, length, update_self, find_from, find_from_sound, ℕ, ◌+◌,
  ◌≤◌, ◌<◌, ◌≡◌, refl, sym, ap, subst, ◌∙◌, fun_ext, inl, inr, Bool, true, false, Option, none,
  some, List, arith,
}
use mass_os.Fd.{max_fds, fd_decref, fd_create_pipe}
use mass_os.Fd.Creating.{
  entry_of, is_slot_unused, fd_create_pipe-full, end_slot, fd_create_pipe-read,
  fd_create_pipe-write,
}
use mass_os.Kernel.{PipeState, fd_pipe_read, fd_pipe_write, Kernel, set_pipe}
use mass_os.Keyboard.{Machine}
use mass_os.Pipe.{pipe_buffer_size, max_pipes, pipe_reset, is_pipe_free, pipe_open}
use mass_os.Pipe.Buffer.{IsBuffer}
use mass_os.Pipe.Opening.{opened_pipe, pipe_open-slot}
use mass_os.Syscalls.{pipe_create_fds, sys_pipe}
use mass_os.Terminal.Pipes.{IsDelivered, fd_read-fd_write}

-- A new pipe is an empty buffer.
opened-IsBuffer :
    (p : PipeState) → IsBuffer (record (opened_pipe p) { open_read = 1; open_write = 1 })
unfolding pipe_reset
opened-IsBuffer p = record { read_in = omega arith; fits = omega arith; write_at = refl }

module _ {H : Type 0} where
  -- The rest of `sys_pipe` after `pipe_open`, and of `pipe_create_fds` after each end.
  abbrev with_pipe : Option ℕ × Kernel H → Option (ℕ × ℕ) × Kernel H
  with_pipe (p, k) = elim p [ none ↦ (none, k) | some i ↦ pipe_create_fds k (some i) ]

  abbrev with_write_end : ℕ → Option ℕ × Kernel H → Option (ℕ × ℕ) × Kernel H
  with_write_end r (w, k) = elim w [ none ↦ (none, fd_decref k r) | some d ↦ (some (r, d), k) ]

  abbrev with_read_end : ℕ → Option ℕ × Kernel H → Option (ℕ × ℕ) × Kernel H
  with_read_end i (r, k) = elim r [
    | none ↦ (none, k)
    | some d ↦ with_write_end d (fd_create_pipe k (some i) true)
  ]

  sys_pipe-open : (k : Kernel H) → sys_pipe k true ≡ with_pipe (pipe_open k none)
  unfolding sys_pipe
  sys_pipe-open k = refl

  pipe_create_fds-open :
      (k : Kernel H) (i : ℕ)
      → pipe_create_fds k (some i) ≡ with_read_end i (fd_create_pipe k (some i) false)
  unfolding pipe_create_fds
  pipe_create_fds-open k i = refl

  -- With no descriptor left, `sys_pipe` fails, and the pipe that it took stays in use, with no end.
  pub sys_pipe-full :
      (k : Kernel H) (i : ℕ)
      → find_from (is_pipe_free k) max_pipes 0 ≡ some i
      → find_from (is_slot_unused k) max_fds 0 ≡ none
      → sys_pipe k true ≡ (none, set_pipe k i (opened_pipe (k.pipe_table i)))
  sys_pipe-full k i unused full =
      let k1 = set_pipe k i (opened_pipe (k.pipe_table i)) in
      sys_pipe-open k
      ∙ ap with_pipe (pipe_open-slot k i unused)
      ∙ pipe_create_fds-open k1 i
      ∙ ap (with_read_end i) (fd_create_pipe-full k1 i false full)

  -- The two ends of a new pipe, in the kernel state.
  abbrev pub pipe_opened : Kernel H → ℕ → Kernel H
  pipe_opened k i = set_pipe k i (opened_pipe (k.pipe_table i))

  abbrev pub read_end_made : Kernel H → ℕ → ℕ → Kernel H
  read_end_made k i r =
      set_pipe (end_slot fd_pipe_read i r k) i
        (record (k.pipe_table i) { open_read = (k.pipe_table i).open_read + 1 })

  abbrev pub write_end_made : Kernel H → ℕ → ℕ → Kernel H
  write_end_made k i w =
      set_pipe (end_slot fd_pipe_write i w k) i
        (record (k.pipe_table i) { open_write = (k.pipe_table i).open_write + 1 })

  -- The slots that are unused after the slot `r` was taken.
  abbrev pub unused_but : Kernel H → ℕ → ℕ → Bool
  unused_but k r j = if r == j then false else is_slot_unused k j

  unused_after : (k : Kernel H) (i r : ℕ) → is_slot_unused (read_end_made k i r) ≡ unused_but k r
  unused_after k i r = fun_ext (λ j. unused_at j)
    where
      unused_at : (j : ℕ) → is_slot_unused (read_end_made k i r) j ≡ unused_but k r j
      unused_at j = elim (Bool-cases (r == j)) [ inl e ↦ rw e refl | inr e ↦ rw e refl ]

  -- `sys_pipe` takes the first free pipe and the first two unused descriptors, its ends.
  sys_pipe-made :
      (k : Kernel H) (i r w : ℕ)
      → find_from (is_pipe_free k) max_pipes 0 ≡ some i
      → find_from (is_slot_unused k) max_fds 0 ≡ some r
      → find_from (unused_but k r) max_fds 0 ≡ some w
      → sys_pipe k true ≡ (some (r, w), write_end_made (read_end_made (pipe_opened k i) i r) i w)
  unfolding pipe_reset
  sys_pipe-made k i r w unused first second =
      let k1 = pipe_opened k i in
      let k2 = read_end_made k1 i r in
      let anonymous =
        ap (λ (p : PipeState). p.is_named)
          (update_self k.pipe_table i (opened_pipe (k.pipe_table i))) in
      let anonymous' =
        ap (λ (p : PipeState). p.is_named) (update_self k1.pipe_table i _) ∙ anonymous in
      sys_pipe-open k
      ∙ ap with_pipe (pipe_open-slot k i unused)
      ∙ pipe_create_fds-open k1 i
      ∙ ap (with_read_end i) (fd_create_pipe-read k1 i r first anonymous)
      ∙ ap (with_write_end r) (
          fd_create_pipe-write k2 i w
            (ap (λ test. find_from test max_fds 0) (unused_after k1 i r) ∙ second) anonymous')

  -- The pipe and the two descriptors afterwards.
  made-ends :
      (k : Kernel H) (i r w : ℕ)
      → find_from (unused_but k r) max_fds 0 ≡ some w
      → let made = write_end_made (read_end_made (pipe_opened k i) i r) i w in
        (made.fd_table w ≡ entry_of fd_pipe_write i)
        × (made.fd_table r ≡ entry_of fd_pipe_read i)
        × (made.pipe_table i
            ≡ record (opened_pipe (k.pipe_table i)) { open_read = 1; open_write = 1 })
  unfolding pipe_reset
  made-ends k i r w second =
      let apart : (w == r) ≡ false =
        ground (arith, find_from_sound (unused_but k r) max_fds 0 w second) in
      let self = ==_self i in
      let self_r = ==_self r in
      let self_w = ==_self w in (rw self_w refl, rw (apart, self_r) refl, rw self refl)

  -- A new pipe delivers: where `sys_pipe` finds a free pipe and two unused descriptors, it returns
  -- them; then a write of one or more bytes that fit the buffer, to the second descriptor, takes them
  -- all, and a read of the first one, with room for them, gives their low 8 bits in order.
  pub sys_pipe-delivers :
      (m : Machine H) (i r w color count : ℕ) (cur : Option ℕ) (bytes : List ℕ)
      → find_from (is_pipe_free m.kernel) max_pipes 0 ≡ some i
      → find_from (is_slot_unused m.kernel) max_fds 0 ≡ some r
      → find_from (unused_but m.kernel r) max_fds 0 ≡ some w
      → 0 < length bytes
      → length bytes ≤ pipe_buffer_size
      → length bytes ≤ count
      → let (fds, k) = sys_pipe m.kernel true in
        (fds ≡ some (r, w)) × IsDelivered (record m { kernel = k }) r w color count cur bytes
  unfolding pipe_reset
  sys_pipe-delivers m i r w color count cur bytes unused first second some_bytes fits room =
      let k = write_end_made (read_end_made (pipe_opened m.kernel i) i r) i w in
      let (writable, readable, fresh) = made-ends m.kernel i r w second in
      rw (sys_pipe-made m.kernel i r w unused first second) (
        refl,
        fd_read-fd_write (record m { kernel = k }) r w i color count cur bytes writable readable
            (subst IsBuffer (sym fresh) (opened-IsBuffer (m.kernel.pipe_table i)))
            (ap (λ (p : PipeState). p.count) fresh)
            (subst (λ (p : PipeState). 0 < p.open_read) (sym fresh) (omega arith))
            (ap (λ (p : PipeState). p.wait_readers.count) fresh) some_bytes fits room,
      )
