-- ===== src/Process/Priority.antt =====
-- `process_nice` of Kernel/c/process/process.c: the new priority and the place in the run queue.
use mass_os.Prelude.{
  ◌==◌, All, occurrences, update, ℕ, ◌≤◌, min, max, ◌≡◌, sym, subst, false, some, List, [], ◌∷◌,
  arith,
}
use mass_os.Kernel.{is_zombie, Pcb, Kernel, set_pcb}
use mass_os.Process.{min_priority, max_priority, process_get}
use mass_os.Process.Frame.{process_get_sound}
use mass_os.Process.Lifecycle.{process_nice}
use mass_os.Scheduler.{scheduler_remove}
use mass_os.Scheduler.Order.{
  priority_of, IsSorted, scheduler_add-IsSorted, scheduler_remove-IsSorted, scheduler_remove_counts,
  process_table-scheduler_add, process_table-scheduler_remove, scheduler_remove-set_pcb,
}

-- A process that does not stand in a queue may change without disturbing the order.
IsSorted-update :
    (table : ℕ → Pcb) (p : ℕ) (c : Pcb) (qs : List ℕ)
    → occurrences p qs ≡ 0
    → IsSorted table qs
    → IsSorted (update table p c) qs
IsSorted-update table p c [] absent s = tt
IsSorted-update table p c (q ∷ qs) absent s = (
  still (update table p c) (same q (ground arith)) qs (ground arith) s.0,
  IsSorted-update table p c qs (ground arith) s.1,
)
  where
    same : (r : ℕ) → (r == p) ≡ false → priority_of (update table p c) r ≡ priority_of table r
    same r ne = ground arith

    still :
        (table' : ℕ → Pcb)
        → priority_of table' q ≡ priority_of table q
        → (rs : List ℕ) → occurrences p rs ≡ 0
        → All (λ r. priority_of table r ≤ priority_of table q) rs
        → All (λ r. priority_of (update table p c) r ≤ priority_of table' q) rs
    still table' e [] none_left a = tt
    still table' e (r ∷ rs) none_left a =
        (omega (arith, e, same r (ground arith), a.0), still table' e rs (ground arith) a.1)

module _ {H : Type 0} where
  -- `process_nice` on a process that is not ZOMBIE and stands at most once in a sorted run queue
  -- leaves the queue sorted by the new priorities.
  pub process_nice-IsSorted :
      (k : Kernel H) (pid p new_priority : ℕ)
      → process_get k pid ≡ some p
      → is_zombie (k.process_table p).state ≡ false
      → occurrences p k.run_queue ≤ 1
      → IsSorted k.process_table k.run_queue
      → IsSorted
          (process_nice k pid new_priority).process_table
          (process_nice k pid new_priority).run_queue
  unfolding process_nice
  process_nice-IsSorted k pid p prio found live once sorted =
      let alive = (process_get_sound k pid p found).1 in
      rw (found, process_nice)
        (rw (alive, live)
          (rw (process_table-scheduler_add removed p) (
            scheduler_add-IsSorted removed p (
              subst (λ t. IsSorted t removed.run_queue)
                (sym (process_table-scheduler_remove changed p))
                (IsSorted-update k.process_table p c removed.run_queue gone still_sorted)))))
    where
      clamped : ℕ
      clamped = min (max prio min_priority) max_priority

      c : Pcb
      c = record (k.process_table p) {
        priority = clamped;
        wait_ticks = 0;
        remaining_quanta = clamped;
      }

      changed : Kernel H
      changed = set_pcb k p c

      removed : Kernel H
      removed = scheduler_remove changed p

      gone : occurrences p removed.run_queue ≡ 0
      gone = ground (arith, scheduler_remove_counts changed p p)

      still_sorted : IsSorted k.process_table removed.run_queue
      still_sorted =
          subst (IsSorted k.process_table) (sym (scheduler_remove-set_pcb k p p c))
            (scheduler_remove-IsSorted k p sorted)
