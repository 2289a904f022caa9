-- ===== src/Digits/Swapping.antt =====
-- The loop of `uintToBase` that reverses the digits in place.
use mass_os.Prelude.{
  ltb, leb, if◌then◌else◌, ltb→lt, Bool-cases, length, get_or, update, slice, slice_ext, slice_snoc,
  ℕ, zero, suc, ◌+◌, ◌-◌, ◌≤◌, ◌<◌, ◌≡◌, refl, sym, ap₂, ◌∙◌, inl, inr, ◌&&◌, List, [], ◌∷◌, ◌++◌,
  reverse, arith,
}
use mass_os.Digits.{max_digits, do_digits, swap_ends, uint_to_base}
use mathlib.Core.List.{reverse-cons}

mirror_step :
    (p1 p2 : ℕ) (buff : ℕ → ℕ) (i : ℕ)
    → p1 < p2
    → (if leb (p1 + 1) i && leb i (p2 - 1)
        then update (update buff p1 (buff p2)) p2 (buff p1) (p1 + 1 + (p2 - 1) - i)
        else update (update buff p1 (buff p2)) p2 (buff p1) i)
      ≡ (if leb p1 i && leb i p2 then buff (p1 + p2 - i) else buff i)
mirror_step p1 p2 buff i lt = grind arith

-- Enough rounds mirror the part between the two ends and leave the rest.
swap_ends_lem :
    (n p1 p2 : ℕ) (buff : ℕ → ℕ) (i : ℕ)
    → p2 ≤ p1 + n
    → swap_ends n p1 p2 buff i ≡ (if leb p1 i && leb i p2 then buff (p1 + p2 - i) else buff i)
unfolding swap_ends
swap_ends_lem zero p1 p2 buff i le = ground arith
swap_ends_lem (suc n) p1 p2 buff i le = elim (Bool-cases (ltb p1 p2)) [
  | inl lt ↦ rw lt (
      swap_ends_lem n (p1 + 1) (p2 - 1) (update (update buff p1 (buff p2)) p2 (buff p1)) i
        (omega (arith, le, ltb→lt p1 p2 lt))
      ∙ mirror_step p1 p2 buff i (ltb→lt p1 p2 lt))
  | inr ge ↦ rw ge (ground arith)
]

inside :
    (i end : ℕ) (buff : ℕ → ℕ)
    → i ≤ end
    → (if leb 0 i && leb i end then buff (0 + end - i) else buff i) ≡ buff (end - i)
inside i end buff le = ground arith

last_entries :
    (d : ℕ) (ds : List ℕ) (i : ℕ)
    → i < length ds
    → get_or (d ∷ ds) (length (d ∷ ds) - 1 - i) 0 ≡ get_or ds (length ds - 1 - i) 0
last_entries d ds i lt =
    let e : length (d ∷ ds) - 1 - i ≡ suc (length ds - 1 - i) = omega (arith, lt) in rw e refl

first_entry : (d : ℕ) (ds : List ℕ) → get_or (d ∷ ds) (length (d ∷ ds) - 1 - (0 + length ds)) 0 ≡ d
first_entry d ds = let e : length (d ∷ ds) - 1 - (0 + length ds) ≡ 0 = omega arith in rw e refl

-- The entries from the last to the first.
slice-reverse :
    (ds : List ℕ) → slice (λ i. get_or ds (length ds - 1 - i) 0) 0 (length ds) ≡ reverse ds
slice-reverse [] = refl
slice-reverse (d ∷ ds) =
    slice_snoc (λ i. get_or (d ∷ ds) (length (d ∷ ds) - 1 - i) 0) 0 (length ds)
    ∙ ap₂ (λ xs x. xs ++ x ∷ [])
        (slice_ext _ (λ i. get_or ds (length ds - 1 - i) 0) 0 (length ds)
            (λ i low high. last_entries d ds i (omega (arith, high)))
          ∙ slice-reverse ds)
        (first_entry d ds)
    ∙ sym (reverse-cons d ds)

mirrored :
    (ds : List ℕ) (i : ℕ)
    → i < length ds
    → swap_ends (length ds) 0 (length ds - 1) (λ j. get_or ds j 0) i
      ≡ get_or ds (length ds - 1 - i) 0
mirrored ds i lt =
    swap_ends_lem (length ds) 0 (length ds - 1) (λ j. get_or ds j 0) i (omega arith)
    ∙ inside i (length ds - 1) (λ j. get_or ds j 0) (omega (arith, lt))

-- `uintToBase` leaves the digits in reverse.
pub uint_to_base-reverse :
    (value base : ℕ) → uint_to_base value base ≡ reverse (do_digits max_digits value base)
unfolding uint_to_base
uint_to_base-reverse value base =
    let digits = do_digits max_digits value base in
    slice_ext _ _ 0 (length digits) (λ i low high. mirrored digits i (omega (arith, high)))
    ∙ slice-reverse digits
