-- ===== src/Fd/Creating.antt =====
-- Descriptors of an anonymous pipe at `fd_create_pipe` of Kernel/c/pipe/fd.c.
use mass_os.Prelude.{
  if◌then◌else◌, Bool-cases, update_self, find_from, find_from_sound, ℕ, ◌+◌, ◌<◌, ◌≡◌, refl, ap,
  ◌∙◌, inl, inr, Bool, true, false, Option, none, some, arith,
}
use mass_os.Fd.{max_fds, is_fd_free, fd_alloc, fd_get, fd_incref, fd_create_pipe}
use mass_os.Kernel.{FdType, fd_pipe_read, fd_pipe_write, FdEntry, Kernel, set_pipe, set_fd}
use mass_os.Pipe.Opening.{pipe_open_read-anonymous, pipe_open_write-anonymous}
use mass_os.Fd.{notify_open}

abbrev pub entry_of : FdType → ℕ → FdEntry
entry_of type p = record { type = type; refcount = 1; pipe = some p }

abbrev pub end_type : Bool → FdType
end_type write_end = if write_end then fd_pipe_write else fd_pipe_read

module _ {H : Type 0} where
  abbrev pub is_slot_unused : Kernel H → ℕ → Bool
  is_slot_unused k i = is_fd_free (k.fd_table i).type

  fd_alloc-full :
      (k : Kernel H) (type : FdType) (p : Option ℕ)
      → find_from (is_slot_unused k) max_fds 0 ≡ none
      → fd_alloc k type p ≡ (none, k)
  unfolding fd_alloc
  fd_alloc-full k type p e = rw (e, fd_alloc) refl

  fd_alloc-slot :
      (k : Kernel H) (type : FdType) (p : Option ℕ) (d : ℕ)
      → find_from (is_slot_unused k) max_fds 0 ≡ some d
      → fd_alloc k type p ≡ (some d, set_fd k d (record { type = type; refcount = 0; pipe = p }))
  unfolding fd_alloc
  fd_alloc-slot k type p d e = rw (e, fd_alloc) refl

  -- What `fd_create_pipe` does after the allocation.
  abbrev with_reference : Option ℕ × Kernel H → Option ℕ × Kernel H
  with_reference (found, k) = elim found [ none ↦ (none, k) | some fd ↦ (some fd, fd_incref k fd) ]

  -- The table is full: the call fails and changes nothing.
  pub fd_create_pipe-full :
      (k : Kernel H) (p : ℕ) (write_end : Bool)
      → find_from (is_slot_unused k) max_fds 0 ≡ none
      → fd_create_pipe k (some p) write_end ≡ (none, k)
  unfolding fd_create_pipe
  fd_create_pipe-full k p write_end e =
      ap with_reference
        (fd_alloc-full k (if write_end then fd_pipe_write else fd_pipe_read) (some p) e)

  pub fd_get-slot :
      (k : Kernel H) (d : ℕ)
      → d < max_fds
      → is_fd_free (k.fd_table d).type ≡ false
      → fd_get k d ≡ some d
  unfolding fd_get
  fd_get-slot k d lt used = ground arith

  -- A reference to a descriptor in use.
  fd_incref-slot :
      (k : Kernel H) (d : ℕ)
      → d < max_fds
      → is_fd_free (k.fd_table d).type ≡ false
      → fd_incref k d
        ≡ notify_open
            (k.fd_table d).type
            (set_fd k d (record (k.fd_table d) { refcount = (k.fd_table d).refcount + 1 }))
            (k.fd_table d).pipe
  unfolding fd_incref
  fd_incref-slot k d lt used = rw (fd_get-slot k d lt used, fd_incref) refl

  -- The first free slot becomes an end of the anonymous pipe, with one reference.
  abbrev pub end_slot : FdType → ℕ → ℕ → Kernel H → Kernel H
  end_slot type p d k =
      let k1 = set_fd k d (record { type = type; refcount = 0; pipe = some p }) in
      set_fd k1 d (entry_of type p)

  fd_incref-fresh :
      (k : Kernel H) (type : FdType) (p d : ℕ)
      → d < max_fds
      → is_fd_free type ≡ false
      → fd_incref (set_fd k d (record { type = type; refcount = 0; pipe = some p })) d
        ≡ notify_open type (end_slot type p d k) (some p)
  fd_incref-fresh k type p d lt used =
      let e0 : FdEntry = record { type = type; refcount = 0; pipe = some p } in
      let k1 = set_fd k d e0 in
      let stored = update_self k.fd_table d e0 in
      fd_incref-slot k1 d lt (ap (λ (x : FdEntry). is_fd_free x.type) stored ∙ used)
      ∙ ap
          (λ (x : FdEntry).
            notify_open x.type (set_fd k1 d (record x { refcount = x.refcount + 1 })) x.pipe)
          stored

  fd_create_pipe-slot :
      (k : Kernel H) (p d : ℕ) (write_end : Bool)
      → find_from (is_slot_unused k) max_fds 0 ≡ some d
      → fd_create_pipe k (some p) write_end
        ≡ (some d, notify_open (end_type write_end) (end_slot (end_type write_end) p d k) (some p))
  unfolding fd_create_pipe
  fd_create_pipe-slot k p d write_end e =
      let lt = (find_from_sound (is_slot_unused k) max_fds 0 d e).2 in
      let used : is_fd_free (end_type write_end) ≡ false = elim (Bool-cases write_end) [
        | inl w ↦ rw w refl
        | inr r ↦ rw r refl
      ] in
      ap with_reference (fd_alloc-slot k (end_type write_end) (some p) d e)
      ∙ ap (λ k'. (some d, k')) (fd_incref-fresh k (end_type write_end) p d lt used)

  -- The read end of an anonymous pipe: one more reader.
  pub fd_create_pipe-read :
      (k : Kernel H) (p d : ℕ)
      → find_from (is_slot_unused k) max_fds 0 ≡ some d
      → (k.pipe_table p).is_named ≡ false
      → fd_create_pipe k (some p) false ≡ (
        some d,
        set_pipe
            (end_slot fd_pipe_read p d k)
            p
            (record (k.pipe_table p) { open_read = (k.pipe_table p).open_read + 1 }),
      )
  unfolding notify_open
  fd_create_pipe-read k p d e anonymous =
      fd_create_pipe-slot k p d false e
      ∙ ap (λ k'. (some d, k')) (pipe_open_read-anonymous (end_slot fd_pipe_read p d k) p anonymous)

  -- The write end of an anonymous pipe: one more writer.
  pub fd_create_pipe-write :
      (k : Kernel H) (p d : ℕ)
      → find_from (is_slot_unused k) max_fds 0 ≡ some d
      → (k.pipe_table p).is_named ≡ false
      → fd_create_pipe k (some p) true ≡ (
        some d,
        set_pipe
            (end_slot fd_pipe_write p d k)
            p
            (record (k.pipe_table p) { open_write = (k.pipe_table p).open_write + 1 }),
      )
  unfolding notify_open
  fd_create_pipe-write k p d e anonymous =
      fd_create_pipe-slot k p d true e
      ∙ ap (λ k'. (some d, k'))
          (pipe_open_write-anonymous (end_slot fd_pipe_write p d k) p anonymous)
