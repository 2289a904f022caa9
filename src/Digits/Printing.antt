-- ===== src/Digits/Printing.antt =====
-- `num_to_str` of userland and `uintToBase` of the kernel, and the padded form of `intToHexa`.
use mass_os.Prelude.{
  ◌==◌, ==→eq, Bool-cases, length, length-append, ℕ, zero, suc, ◌+◌, ◌*◌, ◌/◌, ◌%◌, ◌^◌, ◌≤◌, ◌<◌,
  ◌≡◌, refl, sym, ap, ◌∙◌, inl, inr, true, false, List, [], ◌∷◌, reverse, arith,
}
use mass_os.Digits.{
  max_digits, digit_char, rev_digits, used_base, num_to_str, do_digits, uint_to_base, zeros_pad,
  replicate, int_to_hexa,
}
use mass_os.Digits.Reading.{read_text, read_text-append, num_to_str_denotes}
use mass_os.Digits.Swapping.{uint_to_base-reverse}
use native.Mathlib.Nat.{zero-mod, zero-div}
use mathlib.Core.List.{reverse-cons}

do_digits-zero : (n base : ℕ) → do_digits (suc n) 0 base ≡ b'0' ∷ []
unfolding do_digits digit_char
do_digits-zero n base = rw (zero-mod base, zero-div base) refl

rev_digits-none : (n value base : ℕ) → (value == 0) ≡ true → rev_digits n value base ≡ []
unfolding rev_digits
rev_digits-none zero value base e = refl
rev_digits-none (suc n) value base e = rw e refl

-- Both loops write the same digits of a positive number.
do_digits-rev_digits :
    (n value base : ℕ) → (value == 0) ≡ false → do_digits n value base ≡ rev_digits n value base
unfolding do_digits rev_digits
do_digits-rev_digits zero value base e = refl
do_digits-rev_digits (suc n) value base e = elim (Bool-cases (value / base == 0)) [
  | inl e' ↦
      rw (e, e')
        (ap (λ ds. digit_char (value % base) ∷ ds) (sym (rev_digits-none n (value / base) base e')))
  | inr e' ↦ rw (e, e', do_digits-rev_digits n (value / base) base e') refl
]

-- The kernel's `uintToBase` and the userland's `num_to_str` write the same text in each base from 2
-- to 16.
pub uint_to_base-num_to_str :
    (value base : ℕ) → 2 ≤ base → base ≤ 16 → uint_to_base value base ≡ num_to_str value base
unfolding num_to_str
uint_to_base-num_to_str value base two high = elim (Bool-cases (value == 0)) [
  | inl e ↦
      let digits = do_digits-zero 63 base in
      rw e (
        uint_to_base-reverse value base
        ∙ ap (λ v. reverse (do_digits max_digits v base)) (==→eq value 0 e)
        ∙ ap reverse digits)
  | inr e ↦
      let same : used_base base ≡ base = ground arith in
      rw (e, same)
        (uint_to_base-reverse value base
          ∙ ap reverse (do_digits-rev_digits max_digits value base e))
]

length-reverse : (cs : List ℕ) → length (reverse cs) ≡ length cs
length-reverse [] = refl
length-reverse (c ∷ cs) =
    ap length (reverse-cons c cs)
    ∙ length-append (reverse cs) (c ∷ [])
    ∙ omega (arith, length-reverse cs)

-- The padding and the digits make up the width.
zeros_pad-rev_digits :
    (n m value : ℕ)
    → n ≤ m
    → value < 16 ^ n
    → zeros_pad n value + length (rev_digits m value 16) ≡ n
unfolding zeros_pad rev_digits
zeros_pad-rev_digits zero zero value le lt = refl
zeros_pad-rev_digits zero (suc m) value le lt =
    let e : (value == 0) ≡ true = ground arith in rw e refl
zeros_pad-rev_digits (suc n) zero value le lt = absurd (omega (arith, le))
zeros_pad-rev_digits (suc n) (suc m) value le lt = elim (Bool-cases (value == 0)) [
  | inl e ↦ rw e (omega arith)
  | inr e ↦
      rw e (
        omega
          (arith, zeros_pad-rev_digits n m (value / 16) (omega (arith, le)) (omega (arith, lt))))
]

read_text-zeros : (base n : ℕ) → read_text base 0 (replicate n b'0') ≡ 0
read_text-zeros base zero = refl
read_text-zeros base (suc n) =
    let e : 0 * base + 0 ≡ 0 = grind arith in
    ap (λ acc. read_text base acc (replicate n b'0')) e ∙ read_text-zeros base n

length-replicate : (n c : ℕ) → length (replicate n c) ≡ n
length-replicate zero c = refl
length-replicate (suc n) c = omega (arith, length-replicate n c)

length-num_to_str :
    (value : ℕ)
    → (value == 0) ≡ false
    → length (num_to_str value 16) ≡ length (rev_digits max_digits value 16)
unfolding num_to_str
length-num_to_str value e = rw e (length-reverse (rev_digits max_digits value 16))

-- `intToHexa` writes 16 digits that denote the number in base 16, for every `uint64_t`.
pub int_to_hexa_lem :
    (value : ℕ)
    → value < 2 ^ 64
    → (length (int_to_hexa value) ≡ 16) × (read_text 16 0 (int_to_hexa value) ≡ value)
unfolding int_to_hexa
int_to_hexa_lem value lt =
    let pad = zeros_pad 16 value in
    let width = zeros_pad-rev_digits 16 max_digits value (omega arith) (omega (arith, lt)) in
    elim (Bool-cases (value == 0)) [
      | inl e ↦
          let none_left = ap length (rev_digits-none max_digits value 16 e) in
          rw e (
            length-append (replicate pad b'0') []
                ∙ omega (arith, width, none_left, length-replicate pad b'0'),
            read_text-append 16 0 (replicate pad b'0') []
                ∙ read_text-zeros 16 pad
                ∙ sym (==→eq value 0 e),
          )
      | inr e ↦
          let text = num_to_str value 16 in
          let digits = uint_to_base-num_to_str value 16 (omega arith) (omega arith) in
          rw (e, digits)
            (
              length-append (replicate pad b'0') text
                  ∙ omega (arith, width, length-num_to_str value e, length-replicate pad b'0'),
              read_text-append 16 0 (replicate pad b'0') text
                  ∙ ap (λ acc. read_text 16 acc text) (read_text-zeros 16 pad)
                  ∙ num_to_str_denotes value 16 (omega arith) (omega arith) lt,
            )
    ]
