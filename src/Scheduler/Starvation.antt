-- ===== src/Scheduler/Starvation.antt =====
-- How far the aging bonus of Kernel/c/scheduler/scheduler.c reaches.
use mass_os.Prelude.{
  some_eq, length, get_or, All-get_or, ℕ, ◌+◌, ◌*◌, ◌≤◌, ◌<◌, ◌≡◌, sym, ap, ◌∙◌, ◌≢◌, inl, inr,
  true, false, some, arith,
}
use mass_os.Kernel.{is_ready, Pcb, Kernel}
use mass_os.Scheduler.{
  aging_interval, max_aging_bonus, aging_bonus, is_foreground, effective_priority,
  scheduler_next_ready,
}
use mass_os.Scheduler.Choice.{IsAtMost}
use mass_os.Scheduler.Cursor.{IsInside}
use mass_os.Scheduler.NextReady.{scheduler_next_ready_lem}

pub aging_bonus-le : (c : Pcb) → aging_bonus c ≤ max_aging_bonus
unfolding aging_bonus
aging_bonus-le c = ground arith

background_bound :
    (c : Pcb) → is_foreground c ≡ false → effective_priority c ≤ c.priority + max_aging_bonus
unfolding effective_priority
background_bound c h = ground (arith, aging_bonus-le c)

foreground_bound : (c : Pcb) → is_foreground c ≡ true → c.priority + 1 ≤ effective_priority c
unfolding effective_priority
foreground_bound c h = ground arith

aged_bound :
    (c : Pcb)
    → max_aging_bonus * aging_interval ≤ c.wait_ticks
    → c.priority + max_aging_bonus ≤ effective_priority c
unfolding effective_priority
aged_bound c h = ground arith

fresh_bound : (c : Pcb) → c.wait_ticks < aging_interval → effective_priority c ≤ c.priority + 1
unfolding effective_priority
fresh_bound c h = ground arith

module _ {H : Type 0} where
  -- A process is not chosen while a READY one in the queue has a higher effective priority.
  outranked :
      (k : Kernel H) (p i : ℕ)
      → IsInside k.queue_idx k.run_queue
      → i < length k.run_queue
      → is_ready (k.process_table (get_or k.run_queue i 0)).state ≡ true
      → effective_priority (k.process_table p)
        < effective_priority (k.process_table (get_or k.run_queue i 0))
      → k.idle_pcb ≢ some p
      → (scheduler_next_ready k).0 ≢ some p
  outranked k p i inside lt r less not_idle e = elim (scheduler_next_ready_lem k inside) [
    | inl (nobody, same) ↦ not_idle (ap (λ o. o.0) (sym same) ∙ e)
    | inr (c, next, chosen) ↦
        let here : c ≡ p = some_eq (sym next ∙ e) in
        let top =
          All-get_or (IsAtMost k.process_table (effective_priority (k.process_table c))) k.run_queue
            i 0 chosen.highest lt in
        let less' : effective_priority (k.process_table c)
            < effective_priority (k.process_table (get_or k.run_queue i 0)) =
          rw here less in
        elim top [ inl n ↦ cc (r, n) | inr le ↦ omega arith ]
  ]

  -- While some foreground process of priority 5 in the queue is READY, a background process of
  -- priority 1 other than idle is not chosen, however long it has waited.
  pub scheduler_next_ready_starves :
      (k : Kernel H) (p i : ℕ)
      → IsInside k.queue_idx k.run_queue
      → i < length k.run_queue
      → is_ready (k.process_table (get_or k.run_queue i 0)).state ≡ true
      → is_foreground (k.process_table (get_or k.run_queue i 0)) ≡ true
      → (k.process_table (get_or k.run_queue i 0)).priority ≡ 5
      → (k.process_table p).priority ≡ 1
      → is_foreground (k.process_table p) ≡ false
      → k.idle_pcb ≢ some p
      → (scheduler_next_ready k).0 ≢ some p
  scheduler_next_ready_starves k p i inside lt r f high low b not_idle =
      outranked k p i inside lt r
        (omega (
          arith,
          background_bound (k.process_table p) b,
          foreground_bound (k.process_table (get_or k.run_queue i 0)) f,
        ))
        not_idle

  -- While a process of the queue is READY and has waited 200 ticks, no process other than idle is
  -- chosen that has waited less than 50 ticks and stands less than 3 priorities above it.
  pub scheduler_next_ready_aged :
      (k : Kernel H) (p i : ℕ)
      → IsInside k.queue_idx k.run_queue
      → i < length k.run_queue
      → is_ready (k.process_table (get_or k.run_queue i 0)).state ≡ true
      → max_aging_bonus * aging_interval ≤ (k.process_table (get_or k.run_queue i 0)).wait_ticks
      → (k.process_table p).priority < (k.process_table (get_or k.run_queue i 0)).priority + 3
      → (k.process_table p).wait_ticks < aging_interval
      → k.idle_pcb ≢ some p
      → (scheduler_next_ready k).0 ≢ some p
  scheduler_next_ready_aged k p i inside lt r old prio new not_idle =
      outranked k p i inside lt r
        (omega (
          arith,
          fresh_bound (k.process_table p) new,
          aged_bound (k.process_table (get_or k.run_queue i 0)) old,
        ))
        not_idle
