-- ===== src/Process/Lifecycle/Waiting.antt =====
-- The process that waits for the keyboard, when processes die in Kernel/c/process/process.c.
use mass_os.Prelude.{
  if◌then◌else◌, Bool-cases, Option-cases, negsuc, ℕ, ◌≡◌, refl, sym, ap, ◌∙◌, inl, inr, true,
  false, Option, none, some, arith,
}
use mass_os.Kernel.{zombie, is_zombie, Kernel, MemoryManager, same_slot, set_pcb, kbd_waiter}
use mass_os.Pipe.{pipe_cleanup_for_process}
use mass_os.Process.{process_get}
use mass_os.Process.Background.{kbd_waiter-IsBackground}
use mass_os.Process.Frame.{process_get_sound}
use mass_os.Process.Lifecycle.{
  kbd_clear_waiting, wake_parent, abandon, destroy, process_kill, process_kill_foreground,
}
use mass_os.Process.Lifecycle.Background.{
  see-release_fds, see-wake_parent, see-cleanup, see-scheduler_remove,
}
use mass_os.Scheduler.{scheduler_remove}
use mass_os.Semaphore.{sem_cleanup_for_process}
use mass_os.Process.Lifecycle.{foreground_target}

-- The reader of the keyboard after the process in slot `p` died.
abbrev pub unless_dead : Option ℕ → ℕ → Option ℕ
unless_dead reader p = if same_slot reader p then none else reader

module _ {H : Type 0} where
  kbd_waiter-clear :
      (k : Kernel H) (p : ℕ) → kbd_waiter (kbd_clear_waiting k p) ≡ unless_dead (kbd_waiter k) p
  kbd_waiter-clear k p = elim (Bool-cases (same_slot k.kbd_waiting_process p)) [
    | inl e ↦ rw e refl
    | inr e ↦ rw e refl
  ]

  kbd_waiter-abandon :
      (k : Kernel H) (p pid : ℕ) → kbd_waiter (abandon k p pid) ≡ unless_dead (kbd_waiter k) p
  unfolding abandon
  kbd_waiter-abandon k p pid =
      kbd_waiter-clear (pipe_cleanup_for_process (sem_cleanup_for_process k pid) pid) p
      ∙ ap (λ r. unless_dead r p) (see-cleanup kbd_waiter-IsBackground k pid)

module _ {H : Type 0} (mm : MemoryManager H) where
  kbd_waiter-destroy : (k : Kernel H) (p : ℕ) → kbd_waiter (destroy mm k p) ≡ kbd_waiter k
  unfolding destroy
  kbd_waiter-destroy k p =
      see-release_fds kbd_waiter-IsBackground (scheduler_remove k p) p
      ∙ see-scheduler_remove kbd_waiter-IsBackground k p

  -- `process_kill` of a live process takes it off the keyboard if it was the reader, and leaves any
  -- other reader.
  pub process_kill-reader :
      (k : Kernel H) (pid p : ℕ)
      → process_get k pid ≡ some p
      → is_zombie (k.process_table p).state ≡ false
      → kbd_waiter (process_kill mm k pid) ≡ unless_dead (kbd_waiter k) p
  unfolding process_kill
  process_kill-reader k pid p found alive =
      let c = k.process_table p in
      let live = (process_get_sound k pid p found).1 in
      let k0 = set_pcb k p (record c { retval = negsuc 0 }) in
      let k1 = abandon k0 p pid in
      let parent = (k1.process_table p).parent_pid in
      let k2 = wake_parent k1 parent pid (negsuc 0) in
      let k3 = set_pcb k2 p (record (k2.process_table p) { state = zombie }) in
      let before =
        see-wake_parent kbd_waiter-IsBackground k1 parent pid (negsuc 0)
        ∙ kbd_waiter-abandon k0 p pid in
      rw (found, process_kill)
        (rw (live, alive)
          (elim (Bool-cases (same_slot k2.current_process p)) [
            | inl e ↦ rw e (see-release_fds kbd_waiter-IsBackground k3 p ∙ before)
            | inr e ↦ rw e (kbd_waiter-destroy k2 p ∙ before)
          ]))

  unless_dead_reader :
      (reader : Option ℕ) (p q : ℕ) → unless_dead reader p ≡ some q → reader ≡ some q
  unless_dead_reader none p q e = e
  unless_dead_reader (some r) p q e = ground arith

  process_kill-gone :
      (k : Kernel H) (pid : ℕ)
      → process_get k pid ≡ none
      → kbd_waiter (process_kill mm k pid) ≡ kbd_waiter k
  unfolding process_kill
  process_kill-gone k pid gone = rw (gone, process_kill) refl

  process_kill-dead :
      (k : Kernel H) (pid p : ℕ)
      → process_get k pid ≡ some p
      → is_zombie (k.process_table p).state ≡ true
      → kbd_waiter (process_kill mm k pid) ≡ kbd_waiter k
  unfolding process_kill
  process_kill-dead k pid p found dead =
      let live = (process_get_sound k pid p found).1 in
      rw (found, process_kill) (rw (live, dead) refl)

  process_kill-no_new_reader :
      (k : Kernel H) (pid q : ℕ)
      → kbd_waiter (process_kill mm k pid) ≡ some q
      → kbd_waiter k ≡ some q
  process_kill-no_new_reader k pid q e = elim (Option-cases (process_get k pid)) [
    | inl gone ↦ sym (process_kill-gone k pid gone) ∙ e
    | inr (p, found) ↦ elim (Bool-cases (is_zombie (k.process_table p).state)) [
      | inl dead ↦ sym (process_kill-dead k pid p found dead) ∙ e
      | inr alive ↦
          unless_dead_reader (kbd_waiter k) p q (sym (process_kill-reader k pid p found alive) ∙ e)
    ]
  ]

  -- Ctrl + C leaves no reader that was not there before.
  pub process_kill_foreground-reader :
      (k : Kernel H) (q : ℕ)
      → kbd_waiter (process_kill_foreground mm k) ≡ some q
      → kbd_waiter k ≡ some q
  unfolding process_kill_foreground
  process_kill_foreground-reader k q e = elim (Option-cases (foreground_target k)) [
    | inl gone ↦ rw (gone, process_kill_foreground) at e
    | inr found ↦
        process_kill-no_new_reader k found.0 q (rw (found.1, process_kill_foreground) at e)
  ]
