-- ===== src/Semaphore/Names.antt =====
-- Finding a semaphore of Kernel/c/semaphore/semaphore.c by its name. `sem_str_copy` keeps at most
-- 31 characters and `sem_str_eq` compares whole names.
use mass_os.Prelude.{
  ltb, ◌==◌, &&_parts, Bool-cases, Option-cases, pos, negsuc, length, length-take, take_all,
  text_eq, text_eq-length, text_eq_self, update_self, find_from, find_from_sound, ℕ, ◌+◌, ◌-◌, ◌≤◌,
  ◌<◌, ◌≡◌, refl, ◌≢◌, inl, inr, true, none, some, List, arith,
}
use mass_os.Kernel.{Sem, Kernel, set_sem}
use mass_os.Semaphore.{
  max_sems, sem_name_len, fresh_sem, has_name, find_sem, is_slot_free, sem_open, sem_wait, sem_post,
}
use mass_os.Semaphore.Counting.{set_opened_sems}
use mass_os.Semaphore.Invariant.{find_sem_sound, find_sem-none}

-- Every stored name fits its array.
abbrev pub NamesFit : (ℕ → Sem) → Type 0
NamesFit table = (i : ℕ) → length (table i).name < sem_name_len

module _ {H : Type 0} where
  -- The table after `sem_open` with result 1: one slot is open under the name.
  pub sem_open_slot :
      (k : Kernel H) (name : List ℕ) (v : ℕ)
      → length name < sem_name_len
      → (sem_open k (some name) v).0 ≡ pos 1
      → (i : ℕ) × (i < max_sems) × (has_name (sem_open k (some name) v).1 name i ≡ true)
  unfolding sem_open
  sem_open_slot k name v short e = elim (Option-cases (find_sem k name)) [
    | inr (i, found) ↦
        let s = record (k.sem_table i) { open_count = (k.sem_table i).open_count + 1 } in
        let (named, low, high) = found_name i found in
        (
          i,
          high,
          rw (found, sem_open)
              (rw (set_opened_sems (set_sem k i s) k.current_process i true)
                (rw (update_self k.sem_table i s) (ground (arith, named)))),
        )
    | inl unknown ↦ elim (Option-cases (find_from (is_slot_free k) max_sems 0)) [
      | inl full ↦ cc (rw (full, sem_open) at (rw (unknown, sem_open) at e))
      | inr (i, slot) ↦
          let s = fresh_sem name v (k.sem_table i) in
          (
            i,
            (find_from_sound (is_slot_free k) max_sems 0 i slot).2,
            rw (unknown, sem_open)
                (rw (slot, sem_open)
                  (rw (set_opened_sems (set_sem k i s) k.current_process i true) (
                    rw (update_self k.sem_table i s)
                      (rw (take_all (sem_name_len - 1) name (omega arith)) (text_eq_self name))))),
          )
    ]
  ]
    where
      found_name :
          (i : ℕ)
          → find_sem k name ≡ some i
          → (has_name k name i ≡ true) × (0 ≤ i) × (i < 0 + max_sems)
      found_name i found = find_sem_sound k name i found

  -- A name of at most 31 characters under which `sem_open` succeeded is found again.
  pub sem_open-find_sem :
      (k : Kernel H) (name : List ℕ) (v : ℕ)
      → length name < sem_name_len
      → (sem_open k (some name) v).0 ≡ pos 1
      → find_sem (sem_open k (some name) v).1 name ≢ none
  sem_open-find_sem k name v short e lost =
      let (i, lt, named) = sem_open_slot k name v short e in
      cc (named, find_sem-none (sem_open k (some name) v).1 name i lost lt)

  -- No semaphore is found under a name of 32 characters or more.
  find_sem_long :
      (k : Kernel H) (name : List ℕ)
      → NamesFit k.sem_table
      → sem_name_len ≤ length name
      → find_sem k name ≡ none
  find_sem_long k name fit long = elim (Option-cases (find_sem k name)) [
    | inl e ↦ e
    | inr (i, found) ↦
        let named = (find_sem_sound k name i found).0 in
        let same =
          text_eq-length (k.sem_table i).name name
            (&&_parts (ltb 0 (k.sem_table i).open_count) (text_eq (k.sem_table i).name name)
              named).1 in
        absurd (omega (arith, same, fit i))
  ]

  NamesFit-sem_open :
      (k : Kernel H) (name : List ℕ) (v : ℕ)
      → NamesFit k.sem_table
      → find_sem k name ≡ none
      → NamesFit (sem_open k (some name) v).1.sem_table
  unfolding sem_open
  NamesFit-sem_open k name v fit unknown =
      elim (Option-cases (find_from (is_slot_free k) max_sems 0)) [
        | inl full ↦ rw (unknown, sem_open) (rw (full, sem_open) fit)
        | inr (i, slot) ↦
            let s = fresh_sem name v (k.sem_table i) in
            rw (unknown, sem_open)
              (rw (slot, sem_open)
                (rw (set_opened_sems (set_sem k i s) k.current_process i true) (λ j.
                  elim (Bool-cases (i == j)) [
                    | inl here ↦ rw here (omega (arith, length-take (sem_name_len - 1) name))
                    | inr away ↦ rw away (fit j)
                  ])))
      ]

  -- After `sem_open` under a name of 32 characters or more, also where it reports success, waiting
  -- and posting under that name fail with -1 and change nothing.
  pub sem_open_long_name :
      (k : Kernel H) (name : List ℕ) (v : ℕ)
      → NamesFit k.sem_table
      → sem_name_len ≤ length name
      → let k' = (sem_open k (some name) v).1 in
        (sem_wait k' (some name) ≡ (negsuc 0, k')) × (sem_post k' (some name) ≡ (negsuc 0, k'))
  unfolding sem_wait sem_post
  sem_open_long_name k name v fit long =
      let lost =
        find_sem_long (sem_open k (some name) v).1 name
          (NamesFit-sem_open k name v fit (find_sem_long k name fit long)) long in
      (rw (lost, sem_wait) refl, rw (lost, sem_post) refl)
