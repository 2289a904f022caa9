-- ===== src/Digits/Reading.antt =====
-- Reading back the numbers that `num_to_str` and `intToHexa` print.
use mass_os.Prelude.{
  ltb, ◌==◌, if◌then◌else◌, ==→eq, Bool-cases, pos, to_int64, All, All-append, ℕ, zero, suc, ◌+◌,
  ◌-◌, ◌*◌, ◌/◌, ◌%◌, ◌^◌, ◌≤◌, ◌<◌, ◌≡◌, refl, sym, ap, subst, ◌∙◌, inl, inr, false, some, List,
  [], ◌∷◌, ◌++◌, reverse, arith,
}
use mass_os.Digits.{
  max_digits, digit_char, rev_digits, used_base, num_to_str, satoi_loop, or_zero, satoi,
}
use native.Mathlib.Nat.{div-add-mod, div-lt_iff_lt-mul, mul-le-mul_left}
use mathlib.Core.List.{reverse-cons}

-- The value of a digit of a base up to 16.
abbrev pub digit_value : ℕ → ℕ
digit_value c = if ltb c b'A' then c - b'0' else c - b'A' + 10

digit_value-digit_char : (d : ℕ) → digit_value (digit_char d) ≡ d
unfolding digit_char
digit_value-digit_char d = ground arith

-- The number that a text denotes in the base, read from the left after a prefix of value `acc`.
abbrev pub read_text : ℕ → ℕ → List ℕ → ℕ
read_text base acc [] = acc
read_text base acc (c ∷ cs) = read_text base (acc * base + digit_value c) cs

abbrev read_rev : ℕ → List ℕ → ℕ
read_rev base [] = 0
read_rev base (c ∷ cs) = read_rev base cs * base + digit_value c

pub read_text-append :
    (base acc : ℕ) (cs ds : List ℕ)
    → read_text base acc (cs ++ ds) ≡ read_text base (read_text base acc cs) ds
read_text-append base acc [] ds = refl
read_text-append base acc (c ∷ cs) ds = read_text-append base (acc * base + digit_value c) cs ds

read_text-reverse : (base : ℕ) (cs : List ℕ) → read_text base 0 (reverse cs) ≡ read_rev base cs
read_text-reverse base [] = refl
read_text-reverse base (c ∷ cs) =
    ap (read_text base 0) (reverse-cons c cs)
    ∙ read_text-append base 0 (reverse cs) (c ∷ [])
    ∙ ap (λ r. r * base + digit_value c) (read_text-reverse base cs)

quotient_below : (value base n : ℕ) → 2 ≤ base → value < 2 ^ suc n → value / base < 2 ^ n
quotient_below value base n two lt =
    (div-lt_iff_lt-mul (omega arith)).1 (omega (arith, mul-le-mul_left (2 ^ n) two))

rev_digits_lem :
    (n value base : ℕ) → 2 ≤ base → value < 2 ^ n → read_rev base (rev_digits n value base) ≡ value
unfolding rev_digits
rev_digits_lem zero value base two lt = omega arith
rev_digits_lem (suc n) value base two lt = elim (Bool-cases (value == 0)) [
  | inl e ↦ rw e (sym (==→eq value 0 e))
  | inr e ↦
      rw
        (
          e,
          digit_value-digit_char (value % base),
          rev_digits_lem n (value / base) base two (quotient_below value base n two lt),
        )
        (grind (arith, div-add-mod value base))
]

abbrev IsDecimal : ℕ → Type 0
IsDecimal c = (b'0' ≤ c) × (c ≤ b'9')

rev_digits-IsDecimal : (n value : ℕ) → All IsDecimal (rev_digits n value 10)
unfolding rev_digits
rev_digits-IsDecimal zero value = tt
rev_digits-IsDecimal (suc n) value = elim (Bool-cases (value == 0)) [
  | inl e ↦ rw e tt
  | inr e ↦ rw e (ground arith, rev_digits-IsDecimal n (value / 10))
]

All-reverse : (cs : List ℕ) → All IsDecimal cs → All IsDecimal (reverse cs)
All-reverse [] h = tt
All-reverse (c ∷ cs) h =
    subst (All IsDecimal) (sym (reverse-cons c cs))
      (All-append IsDecimal (reverse cs) (c ∷ []) (All-reverse cs h.1) (h.0, tt))

le-read_text : (acc : ℕ) (cs : List ℕ) → acc ≤ read_text 10 acc cs
le-read_text acc [] = omega arith
le-read_text acc (c ∷ cs) = omega (arith, le-read_text (acc * 10 + digit_value c) cs)

-- Without overflow the loop of `satoi` reads the number that decimal digits denote.
satoi_loop_lem :
    (res : ℕ) (cs : List ℕ)
    → All IsDecimal cs
    → read_text 10 res cs < 2 ^ 64
    → satoi_loop res cs ≡ some (read_text 10 res cs)
unfolding satoi_loop
satoi_loop_lem res [] h lt = refl
satoi_loop_lem res (c ∷ cs) h lt =
    let small = le-read_text (res * 10 + digit_value c) cs in
    ground (arith, satoi_loop_lem (res * 10 + digit_value c) cs h.1, small)

num_to_str-IsDecimal : (value : ℕ) → All IsDecimal (num_to_str value 10)
unfolding num_to_str
num_to_str-IsDecimal value = elim (Bool-cases (value == 0)) [
  | inl e ↦ rw e ((omega arith, omega arith), tt)
  | inr e ↦
      rw e (All-reverse (rev_digits max_digits value 10) (rev_digits-IsDecimal max_digits value))
]

-- `num_to_str` in a base from 2 to 16 writes digits that denote the number, for every `uint64_t`.
pub num_to_str_denotes :
    (value base : ℕ)
    → 2 ≤ base
    → base ≤ 16
    → value < 2 ^ 64
    → read_text base 0 (num_to_str value base) ≡ value
unfolding num_to_str
num_to_str_denotes value base two high lt = elim (Bool-cases (value == 0)) [
  | inl e ↦ rw e (omega (arith, ==→eq value 0 e))
  | inr e ↦
      let same : used_base base ≡ base = ground arith in
      rw (e, same)
        (read_text-reverse base (rev_digits max_digits value base)
          ∙ rev_digits_lem max_digits value base two lt)
]

satoi_unsigned :
    (cs : List ℕ) → All IsDecimal cs → satoi (some cs) ≡ to_int64 (or_zero (satoi_loop 0 cs))
unfolding satoi
satoi_unsigned [] h = refl
satoi_unsigned (c ∷ cs) h = let no_sign : (c == b'-') ≡ false = ground arith in rw no_sign refl

-- `satoi` reads back each number below 2^63 that `num_to_str` printed in base 10.
pub satoi-num_to_str : (value : ℕ) → value < 2 ^ 63 → satoi (some (num_to_str value 10)) ≡ pos value
satoi-num_to_str value lt =
    let text = num_to_str value 10 in
    let reads = num_to_str_denotes value 10 (omega arith) (omega arith) (omega (arith, lt)) in
    let loop = satoi_loop_lem 0 text (num_to_str-IsDecimal value) (omega (arith, reads, lt)) in
    satoi_unsigned text (num_to_str-IsDecimal value)
    ∙ ap (λ r. to_int64 (or_zero r)) (loop ∙ ap some reads)
    ∙ ground arith
