-- ===== src/Scheduler/NextReady.antt =====
-- The contract of `scheduler_next_ready` of Kernel/c/scheduler/scheduler.c.
use mass_os.Prelude.{
  ◌==◌, Bool-cases, Option-cases, length, get_or, All, ℕ, ◌<◌, ◌≡◌, refl, sym, ap, subst, ◌⊎◌, inl,
  inr, Bool, true, none, some, List, [], ◌∷◌, arith,
}
use mass_os.Kernel.{is_ready, Pcb, Kernel}
use mass_os.Scheduler.{
  effective_priority, highest_eff, pass, first_choice, second_choice, two_passes,
  scheduler_next_ready,
}
use mass_os.Scheduler.Choice.{
  IsAtMost, highest_eff_upper, highest_eff-Attained, IsNotReady, highest_eff-asleep,
  highest_eff-none, found_at, pass_sound, pass_misses_all, pass_inside,
}
use mass_os.Scheduler.Cursor.{IsInside}

-- What the choice of process `c` means for the state before and after it.
pub record Chosen {H : Type 0} (k : Kernel H) (c : ℕ) (k' : Kernel H) : Type 0 where
  pub in_queue : k'.queue_idx < length k.run_queue
  pub at_cursor : get_or k.run_queue k'.queue_idx 0 ≡ c
  pub was_ready : is_ready (k.process_table c).state ≡ true
  pub highest : All (IsAtMost k.process_table (effective_priority (k.process_table c))) k.run_queue
  pub only_cursor : k' ≡ record k { queue_idx = k'.queue_idx }

second_choice_ready :
    (table : ℕ → Pcb) (h p : ℕ)
    → second_choice table h p ≡ true
    → (is_ready (table p).state ≡ true) × (effective_priority (table p) ≡ h)
unfolding second_choice
second_choice_ready table h p e = ground arith

first_choice_ready :
    (table : ℕ → Pcb) (h p : ℕ)
    → first_choice table h p ≡ true
    → (is_ready (table p).state ≡ true) × (effective_priority (table p) ≡ h)
unfolding first_choice effective_priority
first_choice_ready table h p e = ground arith

second_choice_attained :
    (table : ℕ → Pcb) (h p : ℕ)
    → is_ready (table p).state ≡ true
    → effective_priority (table p) ≡ h
    → second_choice table h p ≡ true
unfolding second_choice
second_choice_attained table h p r e = ground arith

module _ {H : Type 0} where
  -- A pass that stops at a READY process of the highest effective priority.
  pass-Chosen :
      (k : Kernel H) (h : ℕ) (test : ℕ → Bool) (n idx : ℕ) {c : ℕ}
      → ((p : ℕ)
          → test p ≡ true
          → (is_ready (k.process_table p).state ≡ true)
            × (effective_priority (k.process_table p) ≡ h))
      → 0 < length k.run_queue
      → highest_eff k.process_table none k.run_queue ≡ some h
      → (pass test k.run_queue n idx).0 ≡ some c
      → Chosen k c (record k { queue_idx = (pass test k.run_queue n idx).1 })
  pass-Chosen k h test n idx {c} means pos_len top e =
      let (passed, inside, here) =
        pass_sound test k.run_queue n idx pos_len
          (ap (λ o. found_at o (pass test k.run_queue n idx).1) e) in
      let (r, eff) = means c passed in
      record {
        in_queue = inside;
        at_cursor = here;
        was_ready = r;
        highest =
            subst (λ t. All (IsAtMost k.process_table t) k.run_queue) (sym eff)
              (highest_eff_upper k.process_table none k.run_queue top).1;
        only_cursor = refl;
      }

  two_passes_choose :
      (k : Kernel H) (h : ℕ)
      → k.queue_idx < length k.run_queue
      → highest_eff k.process_table none k.run_queue ≡ some h
      → (c : ℕ) × ((two_passes k h).0 ≡ some c) × Chosen k c (two_passes k h).1
  unfolding two_passes
  two_passes_choose k h inside top =
      elim (Option-cases (pass (first_choice k.process_table h) k.run_queue size k.queue_idx).0) [
        | inr (c, found) ↦
            rw (found, two_passes)
              (
                c,
                refl,
                pass-Chosen k h (first_choice k.process_table h) size k.queue_idx
                    (first_choice_ready k.process_table h) (omega arith) top found,
              )
        | inl missed ↦
            elim (Option-cases (pass (second_choice k.process_table h) k.run_queue size idx).0) [
              | inr (c, found) ↦
                  rw (missed, two_passes)
                    (rw (found, two_passes)
                      (
                        c,
                        refl,
                        pass-Chosen k h (second_choice k.process_table h) size idx
                            (second_choice_ready k.process_table h) (omega arith) top found,
                      ))
              | inl lost ↦ absurd (never lost)
            ]
      ]
    where
      size : ℕ
      size = length k.run_queue

      idx : ℕ
      idx = (pass (first_choice k.process_table h) k.run_queue size k.queue_idx).1

      never : (pass (second_choice k.process_table h) k.run_queue size idx).0 ≡ none → ⊥
      never lost = elim (highest_eff-Attained k.process_table none k.run_queue top) [
        | inl e ↦ cc
        | inr (i, lt, r, eff) ↦
            let hit = second_choice_attained k.process_table h (get_or k.run_queue i 0) r eff in
            let miss =
              pass_misses_all (second_choice k.process_table h) k.run_queue idx i
                (ap
                  (λ o. found_at o (pass (second_choice k.process_table h) k.run_queue size idx).1)
                  lost)
                (pass_inside (first_choice k.process_table h) k.run_queue size k.queue_idx inside)
                lt in
            cc (hit, miss)
      ]

  -- With the cursor inside the queue: if no process of the queue is READY the idle process is
  -- returned and nothing changes; otherwise a READY process of the queue is returned, none READY has
  -- a higher effective priority, the cursor stands at it, and nothing but the cursor changes.
  pub scheduler_next_ready_lem :
      (k : Kernel H)
      → IsInside k.queue_idx k.run_queue
      → (All (IsNotReady k.process_table) k.run_queue × (scheduler_next_ready k ≡ (k.idle_pcb, k)))
        ⊎ ((c : ℕ) × ((scheduler_next_ready k).0 ≡ some c) × Chosen k c (scheduler_next_ready k).1)
  unfolding scheduler_next_ready
  scheduler_next_ready_lem k inside = elim (Bool-cases (length k.run_queue == 0)) [
    | inl empty ↦ inl (nobody k.run_queue empty, rw empty)
    | inr some_entry ↦ elim (Option-cases (highest_eff k.process_table none k.run_queue)) [
      | inl low ↦ inl (
        highest_eff-none k.process_table k.run_queue low,
        rw some_entry (rw (low, scheduler_next_ready) refl),
      )
      | inr (h, top) ↦ inr (
          rw some_entry (rw (top, scheduler_next_ready) (two_passes_choose k h (ground arith) top)))
    ]
  ]
    where
      nobody : (qs : List ℕ) → (length qs == 0) ≡ true → All (IsNotReady k.process_table) qs
      nobody [] e = tt
      nobody (q ∷ qs) e = absurd (ground arith)

  -- Wherever the cursor stands, idle is chosen if nobody is READY.
  pub scheduler_next_ready-idle :
      (k : Kernel H)
      → All (IsNotReady k.process_table) k.run_queue
      → scheduler_next_ready k ≡ (k.idle_pcb, k)
  unfolding scheduler_next_ready
  scheduler_next_ready-idle k h = elim (Bool-cases (length k.run_queue == 0)) [
    | inl empty ↦ rw empty
    | inr some_entry ↦
        rw some_entry
          (rw (highest_eff-asleep k.process_table k.run_queue h, scheduler_next_ready) refl)
  ]
