-- ===== src/Semaphore/Background.antt =====
-- What clean-up and release of Kernel/c/semaphore/semaphore.c leave alone.
use mass_os.Prelude.{
  ltb, ◌==◌, if◌then◌else◌, Bool-cases, Option-cases, increment, is_nonpositive, ℕ, zero, suc, ◌+◌,
  ◌-◌, ◌≡◌, refl, ◌∙◌, inl, inr, Bool, true, false, ◌&&◌, Option, none, some,
}
use mass_os.Kernel.{Sem, Kernel}
use mass_os.Process.{process_get}
use mass_os.Process.Background.{IsBackground}
use mass_os.Semaphore.{
  max_sems, sem_lock, set_held, set_opened, release_one, cleanup_sem, cleanup_sems,
  sem_cleanup_for_process,
}
use mass_os.WaitQueue.{queue_remove_pid}

module _ {H A : Type 0} {see : Kernel H → A} (kept : IsBackground see) where
  pub see-set_held :
      (k : Kernel H) (p : Option ℕ) (i : ℕ) (b : Bool) → see (set_held k p i b) ≡ see k
  unfolding set_held
  see-set_held k none i b = refl
  see-set_held k (some p) i b = kept.keep_pcb k p _ (refl, refl, refl, refl)

  see-set_opened :
      (k : Kernel H) (p : Option ℕ) (i : ℕ) (b : Bool) → see (set_opened k p i b) ≡ see k
  unfolding set_opened
  see-set_opened k none i b = refl
  see-set_opened k (some p) i b = kept.keep_pcb k p _ (refl, refl, refl, refl)

  see-release_one : (k : Kernel H) (i : ℕ) (s : Sem) → see (release_one k i s) ≡ see k
  unfolding release_one
  see-release_one k i s =
      elim (Bool-cases (is_nonpositive (increment s.value) && ltb 0 s.wait_queue.count)) [
        | inl e ↦ rw e (kept.keep_unblock _ _ ∙ kept.keep_sems _ _ ∙ see-set_held k _ i true)
        | inr e ↦ rw e (kept.keep_sems k _)
      ]

  see-cleanup_sem : (k : Kernel H) (pid p i : ℕ) → see (cleanup_sem k pid p i) ≡ see k
  unfolding cleanup_sem
  see-cleanup_sem k pid p i =
      let s0 = sem_lock (k.sem_table i) in
      let opened = (k.process_table p).opened_sems i in
      let k' = if opened then set_opened k (some p) i false else k in
      let locked = record s0 {
        wait_queue = (queue_remove_pid s0.wait_queue pid).1;
        open_count = if opened then s0.open_count - 1 else s0.open_count;
      } in
      let same : see k' ≡ see k = elim (Bool-cases opened) [
        | inl e ↦ rw e (see-set_opened k (some p) i false)
        | inr e ↦ rw e refl
      ] in
      elim (Bool-cases ((k.sem_table i).open_count == 0)) [
        | inl e ↦ rw e refl
        | inr e ↦ elim (Bool-cases (queue_remove_pid s0.wait_queue pid).0) [
          | inl e' ↦ rw (e, e') (kept.keep_sems _ _ ∙ see-set_held k' (some p) i false ∙ same)
          | inr e' ↦ elim (Bool-cases ((k.process_table p).held_sems i)) [
            | inl e'' ↦
                rw (e, e', e'')
                  (see-release_one (set_held k' (some p) i false) i locked
                    ∙ see-set_held k' (some p) i false
                    ∙ same)
            | inr e'' ↦ rw (e, e', e'') (kept.keep_sems k' _ ∙ same)
          ]
        ]
      ]

  see-cleanup_sems : (n i : ℕ) (k : Kernel H) (pid p : ℕ) → see (cleanup_sems n i k pid p) ≡ see k
  unfolding cleanup_sems
  see-cleanup_sems zero i k pid p = refl
  see-cleanup_sems (suc n) i k pid p =
      see-cleanup_sems n (i + 1) (cleanup_sem k pid p i) pid p ∙ see-cleanup_sem k pid p i

  pub see-sem_cleanup : (k : Kernel H) (pid : ℕ) → see (sem_cleanup_for_process k pid) ≡ see k
  unfolding sem_cleanup_for_process
  see-sem_cleanup k pid = elim (Option-cases (process_get k pid)) [
    | inl e ↦ rw (e, sem_cleanup_for_process) refl
    | inr e ↦
        rw (e.1, sem_cleanup_for_process)
          (kept.keep_pcb _ _ _ (refl, refl, refl, refl) ∙ see-cleanup_sems max_sems 0 k pid e.0)
  ]
