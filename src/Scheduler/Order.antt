-- ===== src/Scheduler/Order.antt =====
-- The order of the run queue under `scheduler_add` and `scheduler_remove` of
-- Kernel/c/scheduler/scheduler.c.
use mass_os.Prelude.{
  ltb, leb, ◌==◌, if◌then◌else◌, ltb→lt, Bool-cases, Option-cases, length, All, All-map,
  occurrences, ℕ, zero, suc, ◌+◌, ◌-◌, ◌≤◌, ◌<◌, ◌≡◌, refl, ap, inl, inr, false, none, some, List,
  [], ◌∷◌, ◌++◌, arith,
}
use mass_os.Kernel.{Pcb, Kernel, same_slot, set_pcb}
use mass_os.Scheduler.{insert_pos, insert_at, index_of, remove_at, scheduler_add, scheduler_remove}
use mass_os.WaitQueue.{max_processes}

abbrev pub priority_of : (ℕ → Pcb) → ℕ → ℕ
priority_of table p = (table p).priority

abbrev pub IsSorted : (ℕ → Pcb) → List ℕ → Type 0
IsSorted table [] = Unit
IsSorted table (q ∷ qs) =
    All (λ r. priority_of table r ≤ priority_of table q) qs × IsSorted table qs

All-insert_at : (P : ℕ → Type 0) (i p : ℕ) (qs : List ℕ) → P p → All P qs → All P (insert_at i p qs)
unfolding insert_at
All-insert_at P zero p qs h a = (h, a)
All-insert_at P (suc i) p [] h a = (h, tt)
All-insert_at P (suc i) p (q ∷ qs) h a = (a.0, All-insert_at P i p qs h a.1)

All-remove_at : (P : ℕ → Type 0) (i : ℕ) (qs : List ℕ) → All P qs → All P (remove_at i qs)
unfolding remove_at
All-remove_at P zero [] a = tt
All-remove_at P (suc i) [] a = tt
All-remove_at P zero (q ∷ qs) a = a.1
All-remove_at P (suc i) (q ∷ qs) a = (a.0, All-remove_at P i qs a.1)

IsSorted-insert :
    (table : ℕ → Pcb) (p : ℕ) (qs : List ℕ)
    → IsSorted table qs
    → IsSorted table (insert_at (insert_pos table (priority_of table p) qs) p qs)
unfolding insert_pos insert_at
IsSorted-insert table p [] s = (tt, tt)
IsSorted-insert table p (q ∷ qs) s =
    elim (Bool-cases (ltb (priority_of table q) (priority_of table p))) [
      | inl lower ↦ rw lower (
        (
          ground arith,
          All-map (λ r. priority_of table r ≤ priority_of table q)
              (λ r. priority_of table r ≤ priority_of table p) qs
              (λ r h. omega (arith, ltb→lt (priority_of table q) (priority_of table p) lower)) s.0,
        ),
        s,
      )
      | inr not_lower ↦ rw not_lower (
        All-insert_at (λ r. priority_of table r ≤ priority_of table q)
            (insert_pos table (priority_of table p) qs) p qs (ground arith) s.0,
        IsSorted-insert table p qs s.1,
      )
    ]

IsSorted-remove_at :
    (table : ℕ → Pcb) (i : ℕ) (qs : List ℕ) → IsSorted table qs → IsSorted table (remove_at i qs)
unfolding remove_at
IsSorted-remove_at table zero [] s = tt
IsSorted-remove_at table (suc i) [] s = tt
IsSorted-remove_at table zero (q ∷ qs) s = s.1
IsSorted-remove_at table (suc i) (q ∷ qs) s = (
  All-remove_at (λ r. priority_of table r ≤ priority_of table q) i qs s.0,
  IsSorted-remove_at table i qs s.1,
)

-- Where a process is inserted: behind all of its priority or more, before all of less.
pub record Placement (table : ℕ → Pcb) (p : ℕ) (qs : List ℕ) : Type 0 where
  pub before : List ℕ
  pub after : List ℕ
  pub split : qs ≡ before ++ after
  pub inserted : insert_at (insert_pos table (priority_of table p) qs) p qs ≡ before ++ (p ∷ after)
  pub not_lower : All (λ r. priority_of table p ≤ priority_of table r) before
  pub lower : All (λ r. priority_of table r < priority_of table p) after

insert-Placement :
    (table : ℕ → Pcb) (p : ℕ) (qs : List ℕ) → IsSorted table qs → Placement table p qs
unfolding insert_pos insert_at
insert-Placement table p [] s = record {
  before = [];
  after = [];
  split = refl;
  inserted = refl;
  not_lower = tt;
  lower = tt;
}
insert-Placement table p (q ∷ qs) s =
    elim (Bool-cases (ltb (priority_of table q) (priority_of table p))) [
      | inl e ↦ record {
        before = [];
        after = q ∷ qs;
        split = refl;
        inserted = rw e;
        not_lower = tt;
        lower = (
          ltb→lt (priority_of table q) (priority_of table p) e,
          All-map (λ r. priority_of table r ≤ priority_of table q)
              (λ r. priority_of table r < priority_of table p) qs
              (λ r h. omega (arith, ltb→lt (priority_of table q) (priority_of table p) e)) s.0,
        );
      }
      | inr e ↦
          let r = insert-Placement table p qs s.1 in
          record {
            before = q ∷ r.before;
            after = r.after;
            split = ap (◌∷◌ q) r.split;
            inserted = rw e (ap (◌∷◌ q) r.inserted);
            not_lower = (ground arith, r.not_lower);
            lower = r.lower;
          }
    ]

occurrences-insert_at :
    (r i p : ℕ) (qs : List ℕ)
    → occurrences r (insert_at i p qs) ≡ (if p == r then 1 else 0) + occurrences r qs
unfolding insert_at
occurrences-insert_at r zero p qs = refl
occurrences-insert_at r (suc i) p [] = refl
occurrences-insert_at r (suc i) p (q ∷ qs) = omega (arith, occurrences-insert_at r i p qs)

occurrences-remove_at :
    (p : ℕ) (qs : List ℕ) (r i : ℕ)
    → index_of p qs ≡ some i
    → occurrences r (remove_at i qs) + (if p == r then 1 else 0) ≡ occurrences r qs
unfolding index_of remove_at
occurrences-remove_at p [] r i e = cc
occurrences-remove_at p (q ∷ qs) r zero e = ground arith
occurrences-remove_at p (q ∷ qs) r (suc i) e = ground (arith, occurrences-remove_at p qs r i)

occurrences_absent : (p : ℕ) (qs : List ℕ) → index_of p qs ≡ none → occurrences p qs ≡ 0
unfolding index_of
occurrences_absent p [] e = refl
occurrences_absent p (q ∷ qs) e = ground (arith, occurrences_absent p qs)

module _ {H : Type 0} where
  -- Adding keeps the queue sorted, whatever process is added.
  pub scheduler_add-IsSorted :
      (k : Kernel H) (p : ℕ)
      → IsSorted k.process_table k.run_queue
      → IsSorted k.process_table (scheduler_add k p).run_queue
  unfolding scheduler_add
  scheduler_add-IsSorted k p s = elim (Bool-cases (leb max_processes (length k.run_queue))) [
    | inl full ↦ rw full s
    | inr room ↦ elim (Bool-cases (same_slot k.idle_pcb p)) [
      | inl idle ↦ rw (room, idle) s
      | inr other ↦ rw (room, other) (IsSorted-insert k.process_table p k.run_queue s)
    ]
  ]

  -- Removing keeps the queue sorted.
  pub scheduler_remove-IsSorted :
      (k : Kernel H) (p : ℕ)
      → IsSorted k.process_table k.run_queue
      → IsSorted k.process_table (scheduler_remove k p).run_queue
  unfolding scheduler_remove
  scheduler_remove-IsSorted k p s = elim (Option-cases (index_of p k.run_queue)) [
    | inl absent ↦ rw (absent, scheduler_remove) s
    | inr (i, found) ↦
        rw (found, scheduler_remove) (IsSorted-remove_at k.process_table i k.run_queue s)
  ]

  -- In a sorted queue with room, a process other than idle is put behind every process of at least
  -- its priority and before every process of less, and the others keep their order.
  pub scheduler_add-Placement :
      (k : Kernel H) (p : ℕ)
      → IsSorted k.process_table k.run_queue
      → length k.run_queue < max_processes
      → same_slot k.idle_pcb p ≡ false
      → (r : Placement k.process_table p k.run_queue) × ((scheduler_add k p).run_queue
          ≡ r.before ++ (p ∷ r.after))
  unfolding scheduler_add
  scheduler_add-Placement k p s room other =
      let r = insert-Placement k.process_table p k.run_queue s in
      let fits : leb max_processes (length k.run_queue) ≡ false = ground arith in
      (r, rw (fits, other) r.inserted)

  -- Removing takes one entry of the process off the queue, if there is one, and no other entry.
  pub scheduler_remove_counts :
      (k : Kernel H) (p r : ℕ)
      → occurrences r (scheduler_remove k p).run_queue
        ≡ occurrences r k.run_queue - (if p == r then 1 else 0)
  unfolding scheduler_remove
  scheduler_remove_counts k p r = elim (Option-cases (index_of p k.run_queue)) [
    | inl absent ↦
        rw (absent, scheduler_remove) (ground (arith, occurrences_absent p k.run_queue absent))
    | inr (i, found) ↦
        rw (found, scheduler_remove) (omega (arith, occurrences-remove_at p k.run_queue r i found))
  ]

  pub process_table-scheduler_add :
      (k : Kernel H) (p : ℕ) → (scheduler_add k p).process_table ≡ k.process_table
  unfolding scheduler_add
  process_table-scheduler_add k p = elim (Bool-cases (leb max_processes (length k.run_queue))) [
    | inl full ↦ rw full refl
    | inr room ↦ elim (Bool-cases (same_slot k.idle_pcb p)) [
      | inl idle ↦ rw (room, idle) refl
      | inr other ↦ rw (room, other) refl
    ]
  ]

  pub process_table-scheduler_remove :
      (k : Kernel H) (p : ℕ) → (scheduler_remove k p).process_table ≡ k.process_table
  unfolding scheduler_remove
  process_table-scheduler_remove k p = elim (Option-cases (index_of p k.run_queue)) [
    | inl absent ↦ rw (absent, scheduler_remove) refl
    | inr (i, found) ↦ rw (found, scheduler_remove) refl
  ]

  -- What is removed does not depend on the processes.
  pub scheduler_remove-set_pcb :
      (k : Kernel H) (p q : ℕ) (c : Pcb)
      → (scheduler_remove (set_pcb k q c) p).run_queue ≡ (scheduler_remove k p).run_queue
  unfolding scheduler_remove
  scheduler_remove-set_pcb k p q c = elim (Option-cases (index_of p k.run_queue)) [
    | inl absent ↦ rw (absent, scheduler_remove) refl
    | inr (i, found) ↦ rw (found, scheduler_remove) refl
  ]
