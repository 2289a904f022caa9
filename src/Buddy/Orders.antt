-- ===== src/Buddy/Orders.antt =====
-- The order of a request and the address of a buddy, in
-- Kernel/c/memoryManager/memoryManagerBuddy.c.
use mass_os.Prelude.{
  ltb, Option-cases, find_from, find_from_sound, find_from_first, find_from-none, ℕ, zero, suc, ◌+◌,
  ◌-◌, ◌/◌, ◌%◌, ◌^◌, ◌≤◌, ◌<◌, ◌≡◌, refl, sym, ap, ◌∙◌, ◌≢◌, ◌⊎◌, inl, inr, Bool, not, none, some,
  arith, dec_lt,
}
use mass_os.Buddy.{min_order, max_order, orders, Heap, order_from, size_to_order, flip, get_buddy}
use native.Mathlib.Nat.{add-div_right, div-eq_of_lt}

-- The request fits a block of the order, and no block of a smaller one.
abbrev pub LeastOrder : ℕ → ℕ → Type 0
LeastOrder size order =
    (size ≤ 2 ^ order)
    × (min_order ≤ order)
    × (order ≤ max_order)
    × ((m : ℕ) → min_order ≤ m → m < order → 2 ^ m < size)

abbrev fits : ℕ → ℕ → Bool
fits size order = not (ltb (2 ^ order) size)

order_from-finds : (n order size : ℕ) → order_from n order size ≡ find_from (fits size) n order
unfolding order_from find_from
order_from-finds zero order size = refl
order_from-finds (suc n) order size = ground (arith, order_from-finds n (order + 1) size)

order_from_least :
    (order size : ℕ) → order_from orders min_order size ≡ some order → LeastOrder size order
order_from_least order size e =
    let found = sym (order_from-finds orders min_order size) ∙ e in
    let sound = find_from_sound (fits size) orders min_order order found in
    (
      ground (arith, sound),
      sound.1,
      omega (arith, sound),
      λ m low high.
          ground (arith, find_from_first (fits size) orders min_order order m found low high),
    )

-- `size_to_order` gives the least order from 4 to 23 whose blocks hold the request, or -1 when the
-- request is above the largest block.
pub size_to_order_lem :
    (size : ℕ)
    → ((size_to_order size ≡ none) × (2 ^ max_order < size))
      ⊎ ((order : ℕ) × (size_to_order size ≡ some order) × LeastOrder size order)
unfolding size_to_order
size_to_order_lem size = elim (Option-cases (order_from orders min_order size)) [
  | inl e ↦ inl (
    e,
    ground (
      arith,
      find_from-none (fits size) orders min_order max_order
          (sym (order_from-finds orders min_order size) ∙ e),
    ),
  )
  | inr e ↦ inr (e.0, e.1, order_from_least e.0 size e.1)
]

pub two_pow_positive : (n : ℕ) → 0 < 2 ^ n
two_pow_positive zero = omega arith
two_pow_positive (suc n) = omega (arith, two_pow_positive n)

pub mod_two-cases : (n : ℕ) → (n % 2 ≡ 0) ⊎ (n % 2 ≡ 1)
mod_two-cases n = omega arith

pub flip_even : (x order : ℕ) → x / 2 ^ order % 2 ≡ 0 → flip x order ≡ x + 2 ^ order
unfolding flip
flip_even x order e = ground arith

pub flip_odd : (x order : ℕ) → x / 2 ^ order % 2 ≡ 1 → flip x order ≡ x - 2 ^ order
unfolding flip
flip_odd x order e = ground arith

next_quotient : (x order : ℕ) → (x + 2 ^ order) / 2 ^ order ≡ x / 2 ^ order + 1
next_quotient x order = add-div_right x (two_pow_positive order)

pub at_least_one : (x order : ℕ) → x / 2 ^ order % 2 ≡ 1 → 2 ^ order ≤ x
at_least_one x order e = elim (dec_lt x (2 ^ order)) [
  | yes lt ↦ absurd (omega (arith, e, div-eq_of_lt lt))
  | no ge ↦ omega arith
]

flip-flip : (x order : ℕ) → flip (flip x order) order ≡ x
flip-flip x order = elim (mod_two-cases (x / 2 ^ order)) [
  | inl e ↦
      grind (arith, flip_even x order e, flip_odd (x + 2 ^ order) order, next_quotient x order)
  | inr e ↦
      let low = at_least_one x order e in
      let back : x - 2 ^ order + 2 ^ order ≡ x = omega arith in
      let step = next_quotient (x - 2 ^ order) order in
      let step' = ap (λ y. y / 2 ^ order) (sym back) ∙ step in
      rw (flip_odd x order e) (flip_even (x - 2 ^ order) order (omega arith) ∙ back)
]

flip_ne : (x order : ℕ) → flip x order ≢ x
flip_ne x order h = elim (mod_two-cases (x / 2 ^ order)) [
  | inl e ↦ omega (arith, h, flip_even x order e, two_pow_positive order)
  | inr e ↦ omega (arith, h, flip_odd x order e, at_least_one x order e, two_pow_positive order)
]

-- The buddy of the buddy is the block, and the two are different, for a block inside the heap that
-- has a buddy there.
pub get_buddy_inverse :
    (h : Heap) (b order buddy : ℕ)
    → h.heap_base ≤ b
    → b + 2 ^ order ≤ h.heap_base + h.heap_total
    → get_buddy h b order ≡ some buddy
    → (get_buddy h buddy order ≡ some b) × (buddy ≢ b)
unfolding get_buddy
get_buddy_inverse h b order buddy low high e =
    ground (arith, flip-flip (b - h.heap_base) order, flip_ne (b - h.heap_base) order)
