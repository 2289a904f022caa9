-- ===== src/Scheduler/Switch.antt =====
-- Which process is RUNNING across the context switches of Kernel/c/scheduler/scheduler.c.
use mass_os.Prelude.{
  ◌==◌, ==→eq, Bool-cases, Option-cases, some_eq, length, update, update_self, ℕ, ◌<◌, ◌≡◌, refl,
  sym, ap, subst, ◌∙◌, ◌↔◌, inl, inr, Bool, true, false, ◌||◌, Option, none, some, List, [], ◌∷◌,
  arith,
}
use mass_os.Kernel.{ProcessState, is_ready, is_running, Pcb, Kernel, MemoryManager, set_pcb}
use mass_os.Scheduler.{
  highest_eff, pass, first_choice, second_choice, age_one, age_all, charge, pause, scheduler_remove,
  two_passes, scheduler_next_ready, timer_handler, dispatch, stay, scheduler_start, reap, switch,
  scheduler_tick, scheduler_yield_impl,
}

abbrev pub NobodyRuns : (ℕ → Pcb) → Type 0
NobodyRuns table = (i : ℕ) → is_running (table i).state ≡ false

age_one-state :
    (cur : Option ℕ) (q : ℕ) (table : ℕ → Pcb) (i : ℕ)
    → (age_one cur q table i).state ≡ (table i).state
unfolding age_one
age_one-state cur q table i = elim (Bool-cases (q == i)) [
  | inl e ↦ rw (==→eq q i e) (ground arith)
  | inr e ↦ ground arith
]

pub age_all-state :
    (cur : Option ℕ) (qs : List ℕ) (table : ℕ → Pcb) (i : ℕ)
    → (age_all cur qs table i).state ≡ (table i).state
unfolding age_all
age_all-state cur [] table i = refl
age_all-state cur (q ∷ qs) table i =
    age_all-state cur qs (age_one cur q table) i ∙ age_one-state cur q table i

module _ {H : Type 0} where
  abbrev pub OnlyCurrentRuns : Kernel H → Type 0
  OnlyCurrentRuns k =
      (i : ℕ) → is_running (k.process_table i).state ≡ true → k.current_process ≡ some i

  -- The choice of the next process changes nothing but the cursor.
  pub scheduler_next_ready_frame :
      (k : Kernel H)
      → (scheduler_next_ready k).1 ≡ record k { queue_idx = (scheduler_next_ready k).1.queue_idx }
  unfolding scheduler_next_ready two_passes
  scheduler_next_ready_frame k = elim (Bool-cases (length k.run_queue == 0)) [
    | inl e ↦ rw e
    | inr n ↦ elim (Option-cases (highest_eff k.process_table none k.run_queue)) [
      | inl low ↦ rw n (rw (low, scheduler_next_ready) refl)
      | inr (h, top) ↦ rw n (rw (top, scheduler_next_ready) (two_passes_frame k h))
    ]
  ]
    where
      two_passes_frame :
          (k : Kernel H) (h : ℕ)
          → (two_passes k h).1 ≡ record k { queue_idx = (two_passes k h).1.queue_idx }
      two_passes_frame k h =
          elim (Option-cases
            (pass (first_choice k.process_table h) k.run_queue (length k.run_queue)
              k.queue_idx).0) [
                | inr (c, found) ↦ rw (found, two_passes) refl
                | inl missed ↦
                    elim (Option-cases
                      (pass (second_choice k.process_table h) k.run_queue (length k.run_queue)
                        (pass (first_choice k.process_table h) k.run_queue (length k.run_queue)
                          k.queue_idx).1).0) [
                            | inr (c, found) ↦ rw (missed, two_passes) (rw (found, two_passes) refl)
                            | inl lost ↦ rw (missed, two_passes) (rw (lost, two_passes) refl)
                          ]
              ]

  two_passes_table : (k : Kernel H) → (scheduler_next_ready k).1.process_table ≡ k.process_table
  two_passes_table k = ap (λ s. s.process_table) (scheduler_next_ready_frame k)

  -- The chosen process is the only one that runs.
  dispatch-OnlyCurrentRuns :
      (k : Kernel H) (n : ℕ) → NobodyRuns k.process_table → OnlyCurrentRuns (dispatch k n).1
  unfolding dispatch
  dispatch-OnlyCurrentRuns k n h i e = elim (Bool-cases (n == i)) [
    | inl same ↦ ap some (==→eq n i same)
    | inr other ↦ cc (rw other at e, h i)
  ]

  -- The first process that runs is the only one.
  pub scheduler_start-OnlyCurrentRuns :
      (k : Kernel H) → NobodyRuns k.process_table → OnlyCurrentRuns (scheduler_start k).1
  unfolding scheduler_start
  scheduler_start-OnlyCurrentRuns k h i e =
      let rests : is_running ((scheduler_next_ready k).1.process_table i).state ≡ false =
        ap (λ (t : ℕ → Pcb). is_running (t i).state) (two_passes_table k) ∙ h i in
      elim (Option-cases (scheduler_next_ready k).0) [
        | inl nobody ↦ cc (rw (nobody, scheduler_start) at e, rests)
        | inr (n, chosen) ↦
            rw (chosen, scheduler_start)
              (elim (Bool-cases (n == i)) [
                | inl same ↦ ap some (==→eq n i same)
                | inr other ↦ cc (rw other at (rw (chosen, scheduler_start) at e), rests)
              ])
      ]

  stay-OnlyCurrentRuns :
      (runnable : ProcessState → Bool) (k : Kernel H) (rsp : ℕ)
      → NobodyRuns k.process_table
      → OnlyCurrentRuns (stay runnable k rsp).1
  unfolding stay
  stay-OnlyCurrentRuns runnable k rsp h i e = ground (arith, h i)

  -- If only the current process runs and it is given a state that does not run, nobody runs.
  stopped-NobodyRuns :
      (k : Kernel H) (c : ℕ) (p : Pcb)
      → OnlyCurrentRuns k
      → k.current_process ≡ some c
      → is_running p.state ≡ false
      → NobodyRuns (update k.process_table c p)
  stopped-NobodyRuns k c p only cur stopped i =
      elim (Bool-cases (is_running (k.process_table i).state)) [
        | inl runs ↦
            let same : c ≡ i = some_eq (sym cur ∙ only i runs) in
            rw same
              (ap (λ (s : Pcb). is_running s.state) (update_self k.process_table i p) ∙ stopped)
        | inr rests ↦ ground arith
      ]

  idle-NobodyRuns :
      (k : Kernel H) → OnlyCurrentRuns k → k.current_process ≡ none → NobodyRuns k.process_table
  idle-NobodyRuns k only cur i = elim (Bool-cases (is_running (k.process_table i).state)) [
    | inl runs ↦ cc (only i runs)
    | inr rests ↦ rests
  ]

  aged-OnlyCurrentRuns :
      (k : Kernel H)
      → OnlyCurrentRuns k
      → OnlyCurrentRuns
          (record k { process_table = age_all k.current_process k.run_queue k.process_table })
  aged-OnlyCurrentRuns k only i e =
      only i
        (ap is_running (sym (age_all-state k.current_process k.run_queue k.process_table i)) ∙ e)

-- A tick takes the CPU away only when the quantum is used up.
pub charge_keeps :
    (c : Pcb) → ((charge c).0 ≡ true) ↔ ((is_running c.state ≡ true) × (1 < c.remaining_quanta))
unfolding charge
charge_keeps c = (ground arith, ground arith)

charge_stops : (c : Pcb) → (charge c).0 ≡ false → is_running (charge c).1.state ≡ false
unfolding charge
charge_stops c h = ground arith

charge_goes_on : (c : Pcb) → (charge c).0 ≡ true → (charge c).1.state ≡ c.state
unfolding charge
charge_goes_on c h = ground arith

pause_stops : (c : Pcb) → is_running (pause c).state ≡ false
unfolding pause
pause_stops c = ground arith

module _ {H : Type 0} (mm : MemoryManager H) where
  reap-NobodyRuns :
      (k : Kernel H) (c : Option ℕ)
      → NobodyRuns k.process_table
      → NobodyRuns (reap mm k c).process_table
  unfolding reap scheduler_remove
  reap-NobodyRuns k none h i = h i
  reap-NobodyRuns k (some c) h i = ground (arith, h i)

  switch-OnlyCurrentRuns :
      (runnable : ProcessState → Bool) (k : Kernel H) (rsp : ℕ)
      → NobodyRuns k.process_table
      → OnlyCurrentRuns (switch mm runnable k rsp).1
  unfolding switch
  switch-OnlyCurrentRuns runnable k rsp h = elim (Option-cases (scheduler_next_ready k).0) [
    | inl nobody ↦
        rw (nobody, switch) (stay-OnlyCurrentRuns runnable (scheduler_next_ready k).1 rsp after)
    | inr (n, next) ↦
        rw (next, switch)
          (dispatch-OnlyCurrentRuns
            (reap mm (scheduler_next_ready k).1 (scheduler_next_ready k).1.current_process) n
            (reap-NobodyRuns (scheduler_next_ready k).1 (scheduler_next_ready k).1.current_process
              after))
  ]
    where
      after : NobodyRuns (scheduler_next_ready k).1.process_table
      after = subst NobodyRuns (sym (two_passes_table k)) h

  kept-OnlyCurrentRuns :
      (k : Kernel H) (c : ℕ) (p : Pcb)
      → OnlyCurrentRuns k
      → k.current_process ≡ some c
      → OnlyCurrentRuns (set_pcb k c p)
  kept-OnlyCurrentRuns k c p only cur i e = elim (Bool-cases (c == i)) [
    | inl same ↦ cur ∙ ap some (==→eq c i same)
    | inr other ↦ only i (rw other at e)
  ]

  -- The state after the aging loop of a tick.
  abbrev aged : Kernel H → Kernel H
  unfolding timer_handler
  aged k = record (timer_handler k) {
    process_table = age_all k.current_process k.run_queue k.process_table;
  }

  abbrev is_runnable : ProcessState → Bool
  is_runnable s = is_ready s || is_running s

  -- A timer tick keeps it true that only the current process is RUNNING.
  pub scheduler_tick-OnlyCurrentRuns :
      (k : Kernel H) (rsp : ℕ) → OnlyCurrentRuns k → OnlyCurrentRuns (scheduler_tick mm k rsp).1
  unfolding scheduler_tick
  scheduler_tick-OnlyCurrentRuns k rsp only = elim (Option-cases k.current_process) [
    | inl idle ↦
        rw (idle, scheduler_tick)
          (switch-OnlyCurrentRuns is_runnable (aged k) rsp (idle-NobodyRuns (aged k) still idle))
    | inr (c, cur) ↦
        let p = record ((aged k).process_table c) { rsp = rsp } in
        rw (cur, scheduler_tick)
          (elim (Bool-cases (charge p).0) [
            | inl keeps ↦
                rw (keeps, scheduler_tick) (kept-OnlyCurrentRuns (aged k) c (charge p).1 still cur)
            | inr stops ↦
                rw (stops, scheduler_tick)
                  (switch-OnlyCurrentRuns is_runnable (set_pcb (aged k) c (charge p).1) rsp
                    (stopped-NobodyRuns (aged k) c (charge p).1 still cur (charge_stops p stops)))
          ])
  ]
    where
      still : OnlyCurrentRuns (aged k)
      still = aged-OnlyCurrentRuns k only

  -- A yield keeps it true that only the current process is RUNNING.
  pub scheduler_yield-OnlyCurrentRuns :
      (k : Kernel H) (rsp : ℕ)
      → OnlyCurrentRuns k
      → OnlyCurrentRuns (scheduler_yield_impl mm k rsp).1
  unfolding scheduler_yield_impl
  scheduler_yield-OnlyCurrentRuns k rsp only = elim (Option-cases k.current_process) [
    | inl idle ↦
        rw (idle, scheduler_yield_impl)
          (switch-OnlyCurrentRuns is_ready k rsp (idle-NobodyRuns k only idle))
    | inr (c, cur) ↦
        rw (cur, scheduler_yield_impl)
          (switch-OnlyCurrentRuns is_ready
            (set_pcb k c (pause (record (k.process_table c) { rsp = rsp }))) rsp
            (stopped-NobodyRuns k c (pause (record (k.process_table c) { rsp = rsp })) only cur
              (pause_stops (record (k.process_table c) { rsp = rsp }))))
  ]
