-- ===== src/Scheduler/Cursor.antt =====
-- `queue_idx` of Kernel/c/scheduler/scheduler.c, the place of the last choice, under
-- `scheduler_add` and `scheduler_remove`.
use mass_os.Prelude.{
  ltb, leb, if◌then◌else◌, Option-cases, length, get_or, ℕ, zero, suc, ◌+◌, ◌-◌, ◌≤◌, ◌<◌, max, ◌≡◌,
  refl, sym, ap, ◌∙◌, ◌≢◌, inl, inr, some, List, [], ◌∷◌, arith, add-one,
}
use mass_os.Kernel.{Pcb, Kernel}
use mass_os.Scheduler.{insert_pos, insert_at, index_of, remove_at, scheduler_add, scheduler_remove}

-- The cursor points into the queue, or at 0 where the queue is empty.
abbrev pub IsInside : ℕ → List ℕ → Type 0
IsInside idx qs = idx < max 1 (length qs)

length-insert_at : (i p : ℕ) (qs : List ℕ) → length (insert_at i p qs) ≡ length qs + 1
unfolding insert_at
length-insert_at zero p qs = omega arith
length-insert_at (suc i) p [] = omega arith
length-insert_at (suc i) p (q ∷ qs) = omega (arith, length-insert_at i p qs)

length-remove_at : (i : ℕ) (qs : List ℕ) → i < length qs → length (remove_at i qs) + 1 ≡ length qs
unfolding remove_at
length-remove_at i [] h = elim h [ ]
length-remove_at zero (q ∷ qs) h = omega arith
length-remove_at (suc i) (q ∷ qs) h = omega (arith, length-remove_at i qs (omega arith))

insert_pos-le : (table : ℕ → Pcb) (prio : ℕ) (qs : List ℕ) → insert_pos table prio qs ≤ length qs
unfolding insert_pos
insert_pos-le table prio [] = omega arith
insert_pos-le table prio (q ∷ qs) = ground (arith, insert_pos-le table prio qs)

index_of_sound :
    (p : ℕ) (qs : List ℕ) (i : ℕ) → index_of p qs ≡ some i → (i < length qs) × (get_or qs i 0 ≡ p)
unfolding index_of
index_of_sound p [] i e = cc
index_of_sound p (q ∷ qs) zero e = ground arith
index_of_sound p (q ∷ qs) (suc i) e = ground (arith, index_of_sound p qs i)

-- The entry at `j` after an insertion at `i`.
get_or-insert_at :
    (i p : ℕ) (qs : List ℕ) (j : ℕ)
    → j < length qs
    → get_or (insert_at i p qs) (if leb i j then suc j else j) 0 ≡ get_or qs j 0
unfolding insert_at
get_or-insert_at i p [] j h = elim h [ ]
get_or-insert_at zero p (q ∷ qs) j h = ground arith
get_or-insert_at (suc i) p (q ∷ qs) zero h = ground arith
get_or-insert_at (suc i) p (q ∷ qs) (suc j) h = ground (arith, get_or-insert_at i p qs j)

-- The entry at `j`, another than `i`, after a removal at `i`.
get_or-remove_at :
    (i : ℕ) (qs : List ℕ) (j : ℕ)
    → i ≢ j
    → get_or (remove_at i qs) (if ltb i j then j - 1 else j) 0 ≡ get_or qs j 0
unfolding remove_at
get_or-remove_at i [] j ne = ground arith
get_or-remove_at zero (q ∷ qs) zero ne = absurd (ne refl)
get_or-remove_at zero (q ∷ qs) (suc j) ne = ground arith
get_or-remove_at (suc i) (q ∷ qs) zero ne = ground arith
get_or-remove_at (suc i) (q ∷ qs) (suc j) ne = ground (arith, get_or-remove_at i qs j)

module _ {H : Type 0} where
  -- After `scheduler_add` the cursor is inside the queue.
  pub scheduler_add-IsInside :
      (k : Kernel H) (p : ℕ)
      → IsInside k.queue_idx k.run_queue
      → IsInside (scheduler_add k p).queue_idx (scheduler_add k p).run_queue
  unfolding scheduler_add
  scheduler_add-IsInside k p h = ground (
    arith,
    length-insert_at (insert_pos k.process_table (k.process_table p).priority k.run_queue) p
        k.run_queue,
  )

  -- Adding a process leaves the cursor at the process that it points at.
  pub scheduler_add_cursor :
      (k : Kernel H) (p : ℕ)
      → k.queue_idx < length k.run_queue
      → get_or (scheduler_add k p).run_queue (scheduler_add k p).queue_idx 0
        ≡ get_or k.run_queue k.queue_idx 0
  unfolding scheduler_add
  scheduler_add_cursor k p h =
      let at = insert_pos k.process_table (k.process_table p).priority k.run_queue in
      ground (
        arith,
        length-insert_at at p k.run_queue,
        add-one k.queue_idx,
        get_or-insert_at at p k.run_queue k.queue_idx,
      )

  -- After `scheduler_remove` the cursor is inside the queue.
  pub scheduler_remove-IsInside :
      (k : Kernel H) (p : ℕ)
      → IsInside k.queue_idx k.run_queue
      → IsInside (scheduler_remove k p).queue_idx (scheduler_remove k p).run_queue
  unfolding scheduler_remove
  scheduler_remove-IsInside k p h = elim (Option-cases (index_of p k.run_queue)) [
    | inl absent ↦ rw (absent, scheduler_remove) h
    | inr (i, found) ↦
        rw (found, scheduler_remove)
          (ground (arith, index_of_sound p k.run_queue i found, length-remove_at i k.run_queue))
  ]

  -- Removing a process leaves the cursor at the process that it points at, if that is another.
  pub scheduler_remove_cursor :
      (k : Kernel H) (p : ℕ)
      → k.queue_idx < length k.run_queue
      → get_or k.run_queue k.queue_idx 0 ≢ p
      → get_or (scheduler_remove k p).run_queue (scheduler_remove k p).queue_idx 0
        ≡ get_or k.run_queue k.queue_idx 0
  unfolding scheduler_remove
  scheduler_remove_cursor k p h ne = elim (Option-cases (index_of p k.run_queue)) [
    | inl absent ↦ rw (absent, scheduler_remove) refl
    | inr (i, found) ↦
        let sound = index_of_sound p k.run_queue i found in
        let apart : i ≢ k.queue_idx =
          λ e. ne (ap (λ j. get_or k.run_queue j 0) (sym e) ∙ sound.1) in
        rw (found, scheduler_remove)
          (ground (
            arith,
            length-remove_at i k.run_queue,
            get_or-remove_at i k.run_queue k.queue_idx apart,
          ))
  ]
