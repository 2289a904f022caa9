-- ===== src/Fd/Background.antt =====
-- What counting references in Kernel/c/pipe/fd.c leaves alone.
use mass_os.Prelude.{
  ltb, ◌==◌, Bool-cases, Option-cases, ℕ, ◌+◌, ◌-◌, ◌≡◌, refl, ◌∙◌, inl, inr, not, ◌&&◌, Option,
}
use mass_os.Fd.{is_terminal, fd_get, fd_incref, fd_decref}
use mass_os.Kernel.{FdType, fd_none, fd_terminal, fd_pipe_read, fd_pipe_write, Kernel, set_fd}
use mass_os.Pipe.Background.{
  see-pipe_close_read, see-pipe_close_write, see-pipe_open_read, see-pipe_open_write,
}
use mass_os.Process.Background.{IsBackground}
use mass_os.Fd.{notify_open, notify_close, release_slot}

module _ {H A : Type 0} {see : Kernel H → A} (kept : IsBackground see) where
  see-notify_close :
      (type : FdType) (k : Kernel H) (p : Option ℕ) → see (notify_close type k p) ≡ see k
  unfolding notify_close
  see-notify_close fd_pipe_read k p = see-pipe_close_read kept k p
  see-notify_close fd_pipe_write k p = see-pipe_close_write kept k p
  see-notify_close fd_none k p = refl
  see-notify_close fd_terminal k p = refl

  see-release_slot : (k : Kernel H) (i : ℕ) → see (release_slot k i) ≡ see k
  unfolding release_slot
  see-release_slot k i =
      let d = k.fd_table i in
      elim (Bool-cases (d.refcount == 0 && not (is_terminal d.type))) [
        | inl e ↦ rw e (kept.keep_fds k _)
        | inr e ↦ rw e refl
      ]

  pub see-fd_decref : (k : Kernel H) (fd : ℕ) → see (fd_decref k fd) ≡ see k
  unfolding fd_decref
  see-fd_decref k fd = elim (Option-cases (fd_get k fd)) [
    | inl e ↦ rw (e, fd_decref) refl
    | inr e ↦
        let d = k.fd_table e.0 in
        let k' = set_fd k e.0 (record d { refcount = d.refcount - 1 }) in
        elim (Bool-cases (ltb 0 d.refcount)) [
          | inl used ↦
              rw (e.1, fd_decref)
                (rw used (
                  see-release_slot (notify_close d.type k' d.pipe) e.0
                  ∙ see-notify_close d.type k' d.pipe
                  ∙ kept.keep_fds k _))
          | inr unused ↦ rw (e.1, fd_decref) (rw unused (see-release_slot k e.0))
        ]
  ]

  see-notify_open :
      (type : FdType) (k : Kernel H) (p : Option ℕ) → see (notify_open type k p) ≡ see k
  unfolding notify_open
  see-notify_open fd_pipe_read k p = see-pipe_open_read kept k p
  see-notify_open fd_pipe_write k p = see-pipe_open_write kept k p
  see-notify_open fd_none k p = refl
  see-notify_open fd_terminal k p = refl

  pub see-fd_incref : (k : Kernel H) (fd : ℕ) → see (fd_incref k fd) ≡ see k
  unfolding fd_incref
  see-fd_incref k fd = elim (Option-cases (fd_get k fd)) [
    | inl e ↦ rw (e, fd_incref) refl
    | inr e ↦
        let d = k.fd_table e.0 in
        let k' = set_fd k e.0 (record d { refcount = d.refcount + 1 }) in
        rw (e.1, fd_incref) (see-notify_open d.type k' d.pipe ∙ kept.keep_fds k _)
  ]
