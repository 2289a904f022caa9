-- ===== src/Process/Lifecycle/Numbering.antt =====
-- Creation and death in Kernel/c/process/process.c, seen by the slots that are in use and their PIDs.
use mass_os.Prelude.{
  ◌==◌, if◌then◌else◌, Bool-cases, Option-cases, ℤ, negsuc, update, ℕ, ◌≡◌, refl, sym, ap, ◌∙◌, inl,
  inr, Bool, true, false, ◌||◌, Option, none, some,
}
use mass_os.Kernel.{
  blocked, zombie, is_free, is_zombie, Pcb, Kernel, MemoryManager, same_slot, set_pcb,
}
use mass_os.Process.{process_get}
use mass_os.Process.Background.{
  IsBackground, identity, next_pid-IsBackground, identity-set_pcb, identity-IsBackground,
}
use mass_os.Process.Frame.{process_get_sound}
use mass_os.Process.Lifecycle.{
  kbd_clear_waiting, process_release_fds, wake_parent, abandon, process_exit, destroy, process_kill,
  process_waitpid,
}
use mass_os.Process.Lifecycle.Background.{
  see-release_fds, see-wake_parent, see-cleanup, see-scheduler_remove,
}
use mass_os.Process.Lifecycle.Pids.{Fewer}
use mass_os.Scheduler.{scheduler_remove}

module _ {H A : Type 0} {see : Kernel H → A} (kept : IsBackground see)
    (no_reader : (k : Kernel H) (r : Option ℕ)
      → see (record k { kbd_waiting_process = r }) ≡ see k) where
  see-clear : (k : Kernel H) (p : ℕ) → see (kbd_clear_waiting k p) ≡ see k
  see-clear k p = elim (Bool-cases (same_slot k.kbd_waiting_process p)) [
    | inl e ↦ rw e (no_reader k none)
    | inr e ↦ rw e refl
  ]

  pub see-abandon : (k : Kernel H) (p pid : ℕ) → see (abandon k p pid) ≡ see k
  unfolding abandon
  see-abandon k p pid = see-clear _ p ∙ see-cleanup kept k pid

-- Two states in which the same slots are in use, with the same PIDs.
pub record Alike {H : Type 0} (k k' : Kernel H) : Type 0 where
  pub next : k'.next_pid ≡ k.next_pid
  pub slot : (j : ℕ) → identity j k' ≡ identity j k

module _ {H : Type 0} {k k' : Kernel H} (a : Alike k k') where
  pub Alike-Fewer : Fewer k k'
  Alike-Fewer = record { next = a.next; slots = λ j. inl (a.slot j) }

  live-Alike :
      (p : ℕ)
      → is_free (k.process_table p).state ≡ false
      → is_free (k'.process_table p).state ≡ false
  live-Alike p live = ap (λ r. r.1) (a.slot p) ∙ live

module _ {H : Type 0} where
  abandoned : {k0 k : Kernel H} (p pid : ℕ) → Alike k0 k → Alike k0 (abandon k p pid)
  abandoned {k0} {k} p pid a = record {
    next = see-abandon next_pid-IsBackground (λ s r. refl) k p pid ∙ a.next;
    slot = λ j. see-abandon (identity-IsBackground j) (λ s r. refl) k p pid ∙ a.slot j;
  }

  told :
      {k0 k : Kernel H} (q pid : ℕ) (retval : ℤ)
      → Alike k0 k
      → Alike k0 (wake_parent k q pid retval)
  told {k0} {k} q pid retval a = record {
    next = see-wake_parent next_pid-IsBackground k q pid retval ∙ a.next;
    slot = λ j. see-wake_parent (identity-IsBackground j) k q pid retval ∙ a.slot j;
  }

  -- The return value is stored.
  noted :
      (k : Kernel H) (p : ℕ) (retval : ℤ)
      → Alike k (set_pcb k p (record (k.process_table p) { retval = retval }))
  noted k p retval = record { next = refl; slot = λ j. identity-set_pcb j k p _ (refl, refl) }

  -- A live process changes its state, and is not free afterwards.
  marked :
      {k0 k : Kernel H} (p : ℕ) (c : Pcb)
      → Alike k0 k
      → is_free (k0.process_table p).state ≡ false
      → c.pid ≡ (k.process_table p).pid
      → is_free c.state ≡ false
      → Alike k0 (set_pcb k p c)
  marked {k0} {k} p c a live same in_use = record {
    next = a.next;
    slot = λ j. identity-set_pcb j k p c (same, in_use ∙ sym (live-Alike a p live)) ∙ a.slot j;
  }

  released : {k0 k : Kernel H} (p : ℕ) → Alike k0 k → Alike k0 (process_release_fds k p)
  released {k0} {k} p a = record {
    next = see-release_fds next_pid-IsBackground k p ∙ a.next;
    slot = λ j. see-release_fds (identity-IsBackground j) k p ∙ a.slot j;
  }

  unqueued : {k0 k : Kernel H} (p : ℕ) → Alike k0 k → Alike k0 (scheduler_remove k p)
  unqueued {k0} {k} p a = record {
    next = see-scheduler_remove next_pid-IsBackground k p ∙ a.next;
    slot = λ j. see-scheduler_remove (identity-IsBackground j) k p ∙ a.slot j;
  }

  -- A slot is given back.
  emptied :
      {k0 k : Kernel H} (p : ℕ) (c : Pcb) (h : H)
      → Alike k0 k
      → is_free c.state ≡ true
      → Fewer k0 (record k { process_table = update k.process_table p c; heap = h })
  emptied {k0} {k} p c h a gone = record {
    next = a.next;
    slots =
        λ j. elim (Bool-cases (p == j)) [ inl e ↦ inr (rw e gone) | inr e ↦ inl (rw e (a.slot j)) ];
  }

  switch_asked : {k0 k : Kernel H} → Alike k0 k → Alike k0 (record k { force_switch = true })
  switch_asked a = record { next = a.next; slot = a.slot }

  pub Alike-refl : (k : Kernel H) → Alike k k
  Alike-refl k = record { next = refl; slot = λ j. refl }

  if-Fewer :
      {k0 : Kernel H} (b : Bool) (x y : Kernel H)
      → Fewer k0 x
      → Fewer k0 y
      → Fewer k0 (if b then x else y)
  if-Fewer true x y f g = f
  if-Fewer false x y f g = g

  elim-Fewer :
      {k0 : Kernel H} (found : Option ℕ) (x : Kernel H) (f : ℕ → Kernel H)
      → Fewer k0 x
      → ((p : ℕ) → found ≡ some p → Fewer k0 (f p))
      → Fewer k0 (elim found [ none ↦ x | some p ↦ f p ])
  elim-Fewer none x f missing present = missing
  elim-Fewer (some p) x f missing present = present p refl

  -- The current process, if there is one, is in use.
  abbrev pub CurrentLives : Kernel H → Type 0
  CurrentLives k = (p : ℕ) → k.current_process ≡ some p → is_free (k.process_table p).state ≡ false

module _ {H : Type 0} (mm : MemoryManager H) where
  destroy-Fewer : {k0 : Kernel H} (k : Kernel H) (p : ℕ) → Alike k0 k → Fewer k0 (destroy mm k p)
  unfolding destroy
  destroy-Fewer k p a = emptied p _ _ (released p (unqueued p a)) refl

  pub process_kill-Fewer : (k : Kernel H) (pid : ℕ) → Fewer k (process_kill mm k pid)
  unfolding process_kill
  process_kill-Fewer k pid = elim (Option-cases (process_get k pid)) [
    | inl gone ↦ rw (gone, process_kill) (Alike-Fewer (Alike-refl k))
    | inr (p, found) ↦
        let c = k.process_table p in
        let live = (process_get_sound k pid p found).1 in
        let k1 = abandon (set_pcb k p (record c { retval = negsuc 0 })) p pid in
        let k2 = wake_parent k1 (k1.process_table p).parent_pid pid (negsuc 0) in
        let left =
          told (k1.process_table p).parent_pid pid (negsuc 0)
            (abandoned p pid (noted k p (negsuc 0))) in
        let dead = record (k2.process_table p) { state = zombie } in
        rw (found, process_kill)
          (if-Fewer (is_free c.state || is_zombie c.state) k _ (Alike-Fewer (Alike-refl k)) (
            if-Fewer (same_slot k2.current_process p) _ (destroy mm k2 p)
              (Alike-Fewer (switch_asked (released p (marked p dead left live refl refl))))
              (destroy-Fewer k2 p left)))
  ]

  pub process_waitpid-Fewer :
      (k : Kernel H) (pid : ℕ) → CurrentLives k → Fewer k (process_waitpid mm k pid).1
  unfolding process_waitpid
  process_waitpid-Fewer k pid lives = elim (Option-cases (process_get k pid)) [
    | inl gone ↦ rw (gone, process_waitpid) (Alike-Fewer (Alike-refl k))
    | inr (p, found) ↦ elim (Bool-cases (is_zombie (k.process_table p).state)) [
      | inl over ↦ rw (found, process_waitpid) (rw over (emptied p _ _ (Alike-refl k) refl))
      | inr runs ↦
          rw (found, process_waitpid)
            (rw runs (
              elim-Fewer k.current_process _ _ (Alike-Fewer (switch_asked (Alike-refl k))) (λ q cur.
                Alike-Fewer (
                  switch_asked (
                    marked q (record (k.process_table q) { state = blocked; waiting_for = pid })
                      (Alike-refl k) (lives q cur) refl refl)))))
    ]
  ]

module _ {H : Type 0} where
  pub process_exit-Fewer :
      (k : Kernel H) (retval : ℤ) → CurrentLives k → Fewer k (process_exit k retval)
  unfolding process_exit
  process_exit-Fewer k retval lives =
      elim-Fewer k.current_process k _ (Alike-Fewer (Alike-refl k)) (λ p cur.
        let pid = (k.process_table p).pid in
        let k1 = set_pcb k p (record (k.process_table p) { retval = retval }) in
        let k2 = process_release_fds (abandon k1 p pid) p in
        let k3 = wake_parent k2 (k2.process_table p).parent_pid pid retval in
        Alike-Fewer (
          switch_asked (
            marked p (record (k3.process_table p) { state = zombie })
              (told (k2.process_table p).parent_pid pid retval
                (released p (abandoned p pid (noted k p retval))))
              (lives p cur) refl refl)))
