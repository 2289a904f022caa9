-- ===== src/Semaphore/Invariant.antt =====
-- The count of waiters under `sem_open`, `sem_wait`, `sem_post` and `sem_close` of
-- Kernel/c/semaphore/semaphore.c.
use mass_os.Prelude.{
  ◌==◌, if◌then◌else◌, Bool-cases, Option-cases, update, find_from, find_from_sound, find_from-none,
  ℕ, ◌+◌, ◌^◌, ◌≤◌, ◌<◌, ◌≡◌, refl, sym, ap, subst, ◌∙◌, ◌≢◌, ◌⊎◌, inl, inr, true, false, Option,
  none, some, List, arith,
}
use mass_os.Kernel.{Sem, Kernel, set_sem}
use mass_os.Semaphore.{
  max_sems, sem_lock, fresh_sem, has_name, find_sem, set_held, set_opened, is_slot_free, sem_open,
  wait_on, sem_wait, release_one, sem_post, sem_close,
}
use mass_os.Semaphore.Counting.{
  IsCounted, IsBelowMax, AreCounted, after_wait, after_post, current_pid, set_held_sems,
  set_opened_sems, wait_on_sems, release_one_sems, after_wait-IsCounted, after_post-IsCounted,
  after_close, after_close-IsCounted, fresh_sem-IsCounted,
}
use mass_os.WaitQueue.{max_processes}

pub AreCounted-update :
    (table table' : ℕ → Sem) (i : ℕ) (s : Sem)
    → AreCounted table
    → ((s.open_count ≡ 0) ⊎ IsCounted s)
    → ((j : ℕ) → table' j ≡ update table i s j)
    → AreCounted table'
AreCounted-update table table' i s h new same j = elim (Bool-cases (i == j)) [
  | inl here ↦
      subst (λ (t : Sem). (t.open_count ≡ 0) ⊎ IsCounted t)
        (sym (same j ∙ ap (λ b. if b then s else table j) here)) new
  | inr away ↦
      subst (λ (t : Sem). (t.open_count ≡ 0) ⊎ IsCounted t)
        (sym (same j ∙ ap (λ b. if b then s else table j) away)) (h j)
]

pub find_sem_sound :
    {H : Type 0} (k : Kernel H) (name : List ℕ) (i : ℕ)
    → find_sem k name ≡ some i
    → (has_name k name i ≡ true) × (0 ≤ i) × (i < 0 + max_sems)
unfolding find_sem
find_sem_sound k name i e = find_from_sound (has_name k name) max_sems 0 i e

pub find_sem-none :
    {H : Type 0} (k : Kernel H) (name : List ℕ) (i : ℕ)
    → find_sem k name ≡ none
    → i < max_sems
    → has_name k name i ≡ false
unfolding find_sem
find_sem-none k name i e lt = find_from-none (has_name k name) max_sems 0 i e (omega arith) lt

find_sem-open :
    {H : Type 0} (k : Kernel H) (name : List ℕ) (i : ℕ)
    → find_sem k name ≡ some i
    → 0 < (k.sem_table i).open_count
unfolding find_sem
find_sem-open k name i e = ground (arith, find_from_sound (has_name k name) max_sems 0 i)

pub open-IsCounted : (s : Sem) → 0 < s.open_count → ((s.open_count ≡ 0) ⊎ IsCounted s) → IsCounted s
open-IsCounted s h (inl closed) = absurd (omega arith)
open-IsCounted s h (inr c) = c

module _ {H : Type 0} where
  -- With a current process, and room in every queue of waiters, `sem_wait` keeps every open
  -- semaphore counted.
  pub sem_wait-AreCounted :
      (k : Kernel H) (name : Option (List ℕ))
      → AreCounted k.sem_table
      → current_pid k ≢ none
      → ((i : ℕ) → (k.sem_table i).wait_queue.count < max_processes)
      → AreCounted (sem_wait k name).1.sem_table
  unfolding sem_wait
  sem_wait-AreCounted k none h cur room = h
  sem_wait-AreCounted k (some name) h cur room = elim (Option-cases (find_sem k name)) [
    | inl unknown ↦ rw (unknown, sem_wait) h
    | inr (i, found) ↦
        rw (found, sem_wait)
          (AreCounted-update k.sem_table (wait_on k i).1.sem_table i
            (after_wait (k.sem_table i) (current_pid k)) h
            (inr (
              after_wait-IsCounted (k.sem_table i) (current_pid k) cur (room i)
                (open-IsCounted (k.sem_table i) (find_sem-open k name i found) (h i))))
            (wait_on_sems k i))
  ]

  -- With every value below 2 ^ 63 - 1, `sem_post` keeps every open semaphore counted.
  pub sem_post-AreCounted :
      (k : Kernel H) (name : Option (List ℕ))
      → AreCounted k.sem_table
      → ((i : ℕ) → IsBelowMax (k.sem_table i))
      → AreCounted (sem_post k name).1.sem_table
  unfolding sem_post sem_lock
  sem_post-AreCounted k none h below = h
  sem_post-AreCounted k (some name) h below = elim (Option-cases (find_sem k name)) [
    | inl unknown ↦ rw (unknown, sem_post) h
    | inr (i, found) ↦
        let s = record (k.sem_table i) { lock = true } in
        let before = set_held k k.current_process i false in
        let counted = open-IsCounted (k.sem_table i) (find_sem-open k name i found) (h i) in
        rw (found, sem_post)
          (AreCounted-update k.sem_table (release_one before i s).sem_table i (after_post s) h
            (inr (
              after_post-IsCounted s (record { queue = counted.queue; waiting = counted.waiting })
                (below i)))
            (λ j.
              release_one_sems before i j s
              ∙ ap (λ t. update t i (after_post s) j) (set_held_sems k k.current_process i false)))
  ]

  -- `sem_close` keeps every open semaphore counted.
  pub sem_close-AreCounted :
      (k : Kernel H) (name : Option (List ℕ))
      → AreCounted k.sem_table
      → AreCounted (sem_close k name).1.sem_table
  unfolding sem_close set_opened set_held
  sem_close-AreCounted k none h = h
  sem_close-AreCounted k (some name) h = elim (Option-cases (find_sem k name)) [
    | inl unknown ↦ rw (unknown, sem_close) h
    | inr (i, found) ↦
        let k1 = set_held k k.current_process i false in
        let same : (set_opened k1 k.current_process i false).sem_table ≡ k.sem_table =
          set_opened_sems k1 k.current_process i false
          ∙ set_held_sems k k.current_process i false in
        rw (found, sem_close)
          (rw same (
            AreCounted-update k.sem_table (update k.sem_table i (after_close (k.sem_table i))) i
              (after_close (k.sem_table i)) h
              (after_close-IsCounted (k.sem_table i)
                (open-IsCounted (k.sem_table i) (find_sem-open k name i found) (h i)))
              (λ j. refl)))
  ]

  -- `sem_open` keeps every open semaphore counted, if the initial value is not negative as an
  -- `int64_t`.
  pub sem_open-AreCounted :
      (k : Kernel H) (name : Option (List ℕ)) (initial_value : ℕ)
      → AreCounted k.sem_table
      → initial_value < 2 ^ 63
      → AreCounted (sem_open k name initial_value).1.sem_table
  unfolding sem_open
  sem_open-AreCounted k none v h small = h
  sem_open-AreCounted k (some name) v h small = elim (Option-cases (find_sem k name)) [
    | inr (i, found) ↦
        let s = record (k.sem_table i) { open_count = (k.sem_table i).open_count + 1 } in
        let counted = open-IsCounted (k.sem_table i) (find_sem-open k name i found) (h i) in
        rw (found, sem_open)
          (rw (set_opened_sems (set_sem k i s) k.current_process i true) (
            AreCounted-update k.sem_table (update k.sem_table i s) i s h
              (inr (record { queue = counted.queue; waiting = counted.waiting })) (λ j. refl)))
    | inl unknown ↦ elim (Option-cases (find_from (is_slot_free k) max_sems 0)) [
      | inl full ↦ rw (unknown, sem_open) (rw (full, sem_open) h)
      | inr (i, slot) ↦
          let s = fresh_sem name v (k.sem_table i) in
          rw (unknown, sem_open)
            (rw (slot, sem_open)
              (rw (set_opened_sems (set_sem k i s) k.current_process i true) (
                AreCounted-update k.sem_table (update k.sem_table i s) i s h
                  (inr (fresh_sem-IsCounted name v (k.sem_table i) small)) (λ j. refl))))
    ]
  ]
