-- ===== src/Process/Lifecycle/Background.antt =====
-- What the common parts of creation and death in Kernel/c/process/process.c leave alone.
use mass_os.Prelude.{
  leb, ◌==◌, Bool-cases, Option-cases, ℤ, length, ℕ, ◌≡◌, refl, ◌∙◌, inl, inr, ◌&&◌, Option, none,
  some, arith,
}
use mass_os.Fd.Background.{see-fd_decref}
use mass_os.Kernel.{is_blocked, Kernel, same_slot}
use mass_os.Pipe.{pipe_cleanup_for_process}
use mass_os.Pipe.Background.{see-pipe_cleanup}
use mass_os.Process.{process_get}
use mass_os.Process.Background.{IsBackground}
use mass_os.Process.Frame.{process_get_sound}
use mass_os.Process.Lifecycle.{decref_if, process_release_fds, wake_parent}
use mass_os.Scheduler.{index_of, scheduler_add, scheduler_remove}
use mass_os.Semaphore.{sem_cleanup_for_process}
use mass_os.Semaphore.Background.{see-sem_cleanup}
use mass_os.WaitQueue.{max_processes}

module _ {H A : Type 0} {see : Kernel H → A} (kept : IsBackground see) where
  see-decref_if : (k : Kernel H) (fd : Option ℕ) → see (decref_if k fd) ≡ see k
  see-decref_if k none = refl
  see-decref_if k (some fd) = see-fd_decref kept k fd

  pub see-release_fds : (k : Kernel H) (p : ℕ) → see (process_release_fds k p) ≡ see k
  unfolding process_release_fds
  see-release_fds k p =
      let k1 = decref_if k ((k.process_table p).fd 0) in
      kept.keep_pcb _ p _ (refl, refl, refl, refl)
      ∙ see-decref_if k1 ((k1.process_table p).fd 1)
      ∙ see-decref_if k ((k.process_table p).fd 0)

  pub see-wake_parent :
      (k : Kernel H) (q pid : ℕ) (retval : ℤ) → see (wake_parent k q pid retval) ≡ see k
  unfolding wake_parent
  see-wake_parent k q pid retval = elim (Option-cases (process_get k q)) [
    | inl e ↦ rw (e, wake_parent) refl
    | inr (r, found) ↦
        let c = k.process_table r in
        elim (Bool-cases (is_blocked c.state && (c.waiting_for == pid))) [
          | inl waits ↦
              let live = (process_get_sound k q r found).1 in
              rw (found, wake_parent)
                (rw waits (
                  kept.keep_pcb (record k { memory = _ }) r _ (refl, ground arith, refl, refl)
                  ∙ kept.keep_bytes k _))
          | inr other ↦ rw (found, wake_parent) (rw other refl)
        ]
  ]

  -- The clean-up of a dying process, but for the keyboard.
  pub see-cleanup :
      (k : Kernel H) (pid : ℕ)
      → see (pipe_cleanup_for_process (sem_cleanup_for_process k pid) pid) ≡ see k
  see-cleanup k pid =
      see-pipe_cleanup kept (sem_cleanup_for_process k pid) pid ∙ see-sem_cleanup kept k pid

  pub see-scheduler_remove : (k : Kernel H) (p : ℕ) → see (scheduler_remove k p) ≡ see k
  unfolding scheduler_remove
  see-scheduler_remove k p = elim (Option-cases (index_of p k.run_queue)) [
    | inl e ↦ rw (e, scheduler_remove) refl
    | inr e ↦ rw (e.1, scheduler_remove) (kept.keep_queue k _ _)
  ]

  pub see-scheduler_add : (k : Kernel H) (p : ℕ) → see (scheduler_add k p) ≡ see k
  unfolding scheduler_add
  see-scheduler_add k p = elim (Bool-cases (leb max_processes (length k.run_queue))) [
    | inl full ↦ rw full refl
    | inr room ↦ elim (Bool-cases (same_slot k.idle_pcb p)) [
      | inl idle ↦ rw (room, idle) refl
      | inr other ↦ rw (room, other) (kept.keep_queue k _ _)
    ]
  ]
