-- ===== src/Process/Lifecycle/Pids.antt =====
-- PIDs in Kernel/c/process/process.c: no two processes have the same.
use mass_os.Prelude.{
  ◌==◌, ==→eq, Bool-cases, ℕ, ◌+◌, ◌≤◌, ◌≡◌, sym, ap, ◌∙◌, ◌≢◌, ◌⊎◌, inl, inr, true, false, arith,
}
use mass_os.Kernel.{is_free, Kernel}
use mass_os.Process.Background.{identity}

-- The processes in use have different PIDs, from 1 up to the last one given out.
pub record IsNumbered {H : Type 0} (k : Kernel H) : Type 0 where
  pub counted :
      (i : ℕ)
      → is_free (k.process_table i).state ≡ false
      → (1 ≤ (k.process_table i).pid) × ((k.process_table i).pid ≤ k.next_pid)
  pub distinct :
      (i j : ℕ)
      → is_free (k.process_table i).state ≡ false
      → is_free (k.process_table j).state ≡ false
      → (k.process_table i).pid ≡ (k.process_table j).pid
      → i ≡ j

-- No slot is taken that was free, and those in use keep their PID.
pub record Fewer {H : Type 0} (k k' : Kernel H) : Type 0 where
  pub next : k'.next_pid ≡ k.next_pid
  pub slots : (j : ℕ) → (identity j k' ≡ identity j k) ⊎ (is_free (k'.process_table j).state ≡ true)

-- One slot is taken, and gets the next PID.
pub record OneMore {H : Type 0} (slot : ℕ) (k k' : Kernel H) : Type 0 where
  pub after : k'.next_pid ≡ k.next_pid + 1
  pub taken : identity slot k' ≡ (k.next_pid + 1, false)
  pub others : (j : ℕ) → j ≢ slot → identity j k' ≡ identity j k

module _ {H : Type 0} {k k' : Kernel H} (n : IsNumbered k) where
  kept_slot :
      Fewer k k'
      → (j : ℕ) → is_free (k'.process_table j).state ≡ false
      → ((k'.process_table j).pid ≡ (k.process_table j).pid)
        × (is_free (k.process_table j).state ≡ false)
  kept_slot f j live = elim (f.slots j) [
    | inl e ↦ (ap (λ r. r.0) e, sym (ap (λ r. r.1) e) ∙ live)
    | inr gone ↦ cc
  ]

  pub Fewer-IsNumbered : Fewer k k' → IsNumbered k'
  Fewer-IsNumbered f = record {
    counted = λ i live.
        let (same, live') = kept_slot f i live in
        let (low, high) = n.counted i live' in
        (omega (arith, same, low), omega (arith, same, high, f.next));
    distinct = λ i j live live' e.
        let (same, before) = kept_slot f i live in
        let (same', before') = kept_slot f j live' in
        n.distinct i j before before' (sym same ∙ e ∙ same');
  }

  -- A slot in use afterwards is the new one or was in use before.
  slot_cases :
      (slot : ℕ)
      → OneMore slot k k'
      → (j : ℕ) → is_free (k'.process_table j).state ≡ false
      → ((j ≡ slot) × ((k'.process_table j).pid ≡ k.next_pid + 1))
        ⊎ (((k'.process_table j).pid ≡ (k.process_table j).pid)
            × (is_free (k.process_table j).state ≡ false))
  slot_cases slot o j live = elim (Bool-cases (j == slot)) [
    | inl e ↦
        let same = ==→eq j slot e in
        inl (same, ap (λ i. (k'.process_table i).pid) same ∙ ap (λ r. r.0) o.taken)
    | inr e ↦
        let other = o.others j (ground arith) in
        inr (ap (λ r. r.0) other, sym (ap (λ r. r.1) other) ∙ live)
  ]

  pub OneMore-IsNumbered : (slot : ℕ) → OneMore slot k k' → IsNumbered k'
  OneMore-IsNumbered slot o = record {
    counted = λ i live. elim (slot_cases slot o i live) [
      | inl (same, new) ↦ (omega (arith, new), omega (arith, new, o.after))
      | inr (old, before) ↦
          let (low, high) = n.counted i before in
          (omega (arith, old, low), omega (arith, old, high, o.after))
    ];
    distinct = λ i j live live' e. elim (slot_cases slot o i live) [
      | inl (same, new) ↦ elim (slot_cases slot o j live') [
        | inl (same', new') ↦ same ∙ sym same'
        | inr (old', before') ↦ absurd (omega (arith, new, old', e, (n.counted j before').1))
      ]
      | inr (old, before) ↦ elim (slot_cases slot o j live') [
        | inl (same', new') ↦ absurd (omega (arith, new', old, e, (n.counted i before).1))
        | inr (old', before') ↦ n.distinct i j before before' (sym old ∙ e ∙ old')
      ]
    ];
  }
