-- ===== src/Scheduler/Choice.antt =====
-- What `scheduler_next_ready` of Kernel/c/scheduler/scheduler.c chooses: the scan for the highest
-- effective priority, and the two passes round the queue.
use mass_os.Prelude.{
  ltb, &&_parts, Bool-cases, some_eq, length, get_or, All, ℕ, zero, suc, ◌+◌, ◌-◌, ◌%◌, ◌≤◌, ◌<◌,
  ◌≡◌, refl, ap, subst, ◌∙◌, ◌≢◌, ◌⊎◌, inl, inr, Bool, true, false, ◌&&◌, Option, none, some, List,
  [], ◌∷◌, arith, mod-lt, mod-eq_of_lt, mod-add-mod, mod-eq-sub-mod, dec_lt,
}
use mass_os.Kernel.{is_ready, Pcb}
use mass_os.Scheduler.{effective_priority, above, highest_eff, pass}

-- A process that is not READY, or whose effective priority is at most `h`.
abbrev pub IsAtMost : (ℕ → Pcb) → ℕ → ℕ → Type 0
IsAtMost table h q = (is_ready (table q).state ≡ false) ⊎ (effective_priority (table q) ≤ h)

-- `-1`, the initial value of `highest_eff`, lies below every number.
abbrev pub NotAbove : Option ℕ → ℕ → Type 0
NotAbove none h = Unit
NotAbove (some a) h = a ≤ h

pub highest_eff_upper :
    (table : ℕ → Pcb) (acc : Option ℕ) (qs : List ℕ) {h : ℕ}
    → highest_eff table acc qs ≡ some h
    → NotAbove acc h × All (IsAtMost table h) qs
unfolding highest_eff
highest_eff_upper table none [] e = (tt, tt)
highest_eff_upper table (some a) [] e = (ground arith, tt)
highest_eff_upper table none (q ∷ qs) e = elim (Bool-cases (is_ready (table q).state)) [
  | inl r ↦
      let (low, rest) =
        highest_eff_upper table (some (effective_priority (table q))) qs (rw r at e) in
      (tt, (inr low, rest))
  | inr n ↦ let (low, rest) = highest_eff_upper table none qs (rw n at e) in (tt, (inl n, rest))
]
highest_eff_upper table (some a) (q ∷ qs) e =
    elim (Bool-cases (is_ready (table q).state && ltb a (effective_priority (table q)))) [
      | inl r ↦
          let (low, rest) =
            highest_eff_upper table (some (effective_priority (table q))) qs (rw r at e) in
          (ground arith, (inr low, rest))
      | inr n ↦
          let (low, rest) = highest_eff_upper table (some a) qs (rw n at e) in
          (low, (ground arith, rest))
    ]

-- A READY entry of the queue with the given effective priority.
abbrev pub Attained : (ℕ → Pcb) → List ℕ → ℕ → Type 0
Attained table qs h =
    (i : ℕ) × (i < length qs)
    × (is_ready (table (get_or qs i 0)).state ≡ true)
    × (effective_priority (table (get_or qs i 0)) ≡ h)

pub highest_eff-Attained :
    (table : ℕ → Pcb) (acc : Option ℕ) (qs : List ℕ) {h : ℕ}
    → highest_eff table acc qs ≡ some h
    → (acc ≡ some h) ⊎ Attained table qs h
unfolding highest_eff
highest_eff-Attained table acc [] e = inl e
highest_eff-Attained table acc (q ∷ qs) e =
    elim (Bool-cases (is_ready (table q).state && above (effective_priority (table q)) acc)) [
      | inl r ↦
          elim (highest_eff-Attained table (some (effective_priority (table q))) qs (rw r at e)) [
            | inl here ↦ inr (
              0,
              omega arith,
              (&&_parts (is_ready (table q).state) (above (effective_priority (table q)) acc) r).0,
              some_eq here,
            )
            | inr (i, lt, ready', eff) ↦ inr (suc i, omega arith, ready', eff)
          ]
      | inr n ↦ elim (highest_eff-Attained table acc qs (rw n at e)) [
        | inl here ↦ inl here
        | inr (i, lt, ready', eff) ↦ inr (suc i, omega arith, ready', eff)
      ]
    ]

highest_eff-some : (table : ℕ → Pcb) (a : ℕ) (qs : List ℕ) → highest_eff table (some a) qs ≢ none
unfolding highest_eff
highest_eff-some table a [] e = cc
highest_eff-some table a (q ∷ qs) e =
    elim (Bool-cases (is_ready (table q).state && ltb a (effective_priority (table q)))) [
      | inl r ↦ highest_eff-some table (effective_priority (table q)) qs (rw r at e)
      | inr n ↦ highest_eff-some table a qs (rw n at e)
    ]

abbrev pub IsNotReady : (ℕ → Pcb) → ℕ → Type 0
IsNotReady table q = is_ready (table q).state ≡ false

pub highest_eff-asleep :
    (table : ℕ → Pcb) (qs : List ℕ) → All (IsNotReady table) qs → highest_eff table none qs ≡ none
unfolding highest_eff
highest_eff-asleep table [] h = refl
highest_eff-asleep table (q ∷ qs) h = rw (h.0, highest_eff) (highest_eff-asleep table qs h.1)

pub highest_eff-none :
    (table : ℕ → Pcb) (qs : List ℕ) → highest_eff table none qs ≡ none → All (IsNotReady table) qs
unfolding highest_eff
highest_eff-none table [] e = tt
highest_eff-none table (q ∷ qs) e = elim (Bool-cases (is_ready (table q).state)) [
  | inl r ↦ absurd (highest_eff-some table (effective_priority (table q)) qs (rw r at e))
  | inr n ↦ (n, highest_eff-none table qs (rw n at e))
]

abbrev pub found_at : Option ℕ → ℕ → Option ℕ × ℕ
found_at c j = (c, j)

pub found_at_parts : (a c i j : ℕ) → found_at (some a) i ≡ found_at (some c) j → (a ≡ c) × (i ≡ j)
found_at_parts a c i j e = (some_eq (ap (λ r. r.0) e), ap (λ r. r.1) e)

found_at_ne : (a i j : ℕ) → found_at (some a) i ≡ found_at none j → ⊥
found_at_ne a i j e = cc (ap (λ r. r.0) e)

module _ (test : ℕ → Bool) (qs : List ℕ) where
  -- What a pass returns passes the test and stands at the new cursor.
  pub pass_sound :
      (n idx : ℕ) {c j : ℕ}
      → 0 < length qs
      → pass test qs n idx ≡ (some c, j)
      → (test c ≡ true) × (j < length qs) × (get_or qs j 0 ≡ c)
  unfolding pass
  pass_sound zero idx h e = cc
  pass_sound (suc n) idx {c} {j} h e =
      elim (Bool-cases (test (get_or qs ((idx + 1) % length qs) 0))) [
        | inl ok ↦
            let (here, place) =
              found_at_parts (get_or qs ((idx + 1) % length qs) 0) c ((idx + 1) % length qs) j
                (rw ok at e) in
            (rw here at ok, subst (λ t. t < length qs) place (mod-lt (idx + 1) h), rw place at here)
        | inr bad ↦ pass_sound n ((idx + 1) % length qs) h (rw bad at e)
      ]

  -- A pass that finds nothing has tested the entries that it went past.
  pass_misses :
      (n idx m : ℕ) {j : ℕ}
      → pass test qs n idx ≡ found_at none j
      → m < n
      → test (get_or qs ((idx + suc m) % length qs) 0) ≡ false
  unfolding pass
  pass_misses zero idx m e h = absurd (omega arith)
  pass_misses (suc n) idx m {j} e h =
      elim (Bool-cases (test (get_or qs ((idx + 1) % length qs) 0))) [
        | inl ok ↦ absurd (
            found_at_ne (get_or qs ((idx + 1) % length qs) 0) ((idx + 1) % length qs) j
              (rw ok at e))
        | inr bad ↦ past m bad (λ t. pass_misses n ((idx + 1) % length qs) t (rw bad at e)) h
      ]
    where
      past :
          (t : ℕ)
          → test (get_or qs ((idx + 1) % length qs) 0) ≡ false
          → ((u : ℕ)
              → u < n
              → test (get_or qs (((idx + 1) % length qs + suc u) % length qs) 0) ≡ false)
          → t < suc n
          → test (get_or qs ((idx + suc t) % length qs) 0) ≡ false
      past zero bad rest lt = bad
      past (suc u) bad rest lt =
          subst (λ i. test (get_or qs i 0) ≡ false)
            (mod-add-mod (idx + 1) (length qs) (suc u) ∙ ap (λ i. i % length qs) (omega arith))
            (rest u (omega arith))

  -- A pass of as many steps as the queue has entries has tested every entry.
  pub pass_misses_all :
      (idx i : ℕ) {j : ℕ}
      → pass test qs (length qs) idx ≡ found_at none j
      → idx < length qs
      → i < length qs
      → test (get_or qs i 0) ≡ false
  pass_misses_all idx i e lt h = elim (dec_lt idx i) [
    | yes later ↦
        subst (λ t. test (get_or qs t 0) ≡ false)
          (ap (λ t. t % length qs) (omega arith) ∙ mod-eq_of_lt h)
          (pass_misses (length qs) idx (i - idx - 1) e (omega arith))
    | no sooner ↦
        subst (λ t. test (get_or qs t 0) ≡ false)
          (mod-eq-sub-mod {n = idx + suc (i + length qs - idx - 1)} {m = length qs} (omega arith)
            ∙ ap (λ t. t % length qs) (omega arith)
            ∙ mod-eq_of_lt h)
          (pass_misses (length qs) idx (i + length qs - idx - 1) e (omega arith))
  ]

  -- The cursor stays in the queue.
  pub pass_inside : (n idx : ℕ) → idx < length qs → (pass test qs n idx).1 < length qs
  unfolding pass
  pass_inside zero idx h = h
  pass_inside (suc n) idx h = elim (Bool-cases (test (get_or qs ((idx + 1) % length qs) 0))) [
    | inl ok ↦ rw ok (mod-lt (idx + 1) (omega arith))
    | inr bad ↦ rw bad (pass_inside n ((idx + 1) % length qs) (mod-lt (idx + 1) (omega arith)))
  ]
