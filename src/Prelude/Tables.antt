-- ===== src/Prelude/Tables.antt =====
-- Fixed tables as functions of the index: a write at one index, and the first index in a range
-- that passes a test (`for (i = 0; i < MAX; i++) if (test) return i;`).
use Prim.Native.Nat.{ℕ, zero, suc, ◌+◌, ◌-◌, ◌≤◌, ◌<◌, min}
use mathlib.Core.Path.{◌≡◌, refl, ap, ap₂, ◌∙◌}
use mathlib.Core.List.{List, [], ◌∷◌, ◌++◌}
use mathlib.Core.Logic.{◌≢◌}
use mathlib.Core.Bool.{Bool, true, false}
use mathlib.Core.Option.{Option, none, some}
use native.Mathlib.Omega.{arith}
use mass_os.Prelude.Lists.{length, take, drop}
use mass_os.Prelude.Tests.{◌==◌, if◌then◌else◌}

module _ {ℓ} {A : Type ℓ} where
  abbrev pub update : (ℕ → A) → ℕ → A → ℕ → A
  update f i a j = if i == j then a else f j

  pub update_self : (f : ℕ → A) (i : ℕ) (a : A) → update f i a i ≡ a
  update_self f i a = ground arith

  pub update-ne : (f : ℕ → A) (i j : ℕ) (a : A) → i ≢ j → update f i a j ≡ f j
  update-ne f i j a h = ground arith

unfoldable pub find_from : (ℕ → Bool) → ℕ → ℕ → Option ℕ
find_from test zero i = none
find_from test (suc n) i = if test i then some i else find_from test n (i + 1)

pub find_from_sound :
    (test : ℕ → Bool) (n i j : ℕ)
    → find_from test n i ≡ some j
    → (test j ≡ true) × (i ≤ j) × (j < i + n)
unfolding find_from
find_from_sound test zero i j h = cc
find_from_sound test (suc n) i j h = ground (arith, find_from_sound test n (i + 1) j)

pub find_from_first :
    (test : ℕ → Bool) (n i j m : ℕ) → find_from test n i ≡ some j → i ≤ m → m < j → test m ≡ false
unfolding find_from
find_from_first test zero i j m h p q = cc
find_from_first test (suc n) i j m h p q =
    ground (arith, find_from_first test n (i + 1) j m, find_from_sound test n (i + 1) j)

pub find_from-none :
    (test : ℕ → Bool) (n i m : ℕ) → find_from test n i ≡ none → i ≤ m → m < i + n → test m ≡ false
unfolding find_from
find_from-none test zero i m h p q = absurd (omega arith)
find_from-none test (suc n) i m h p q = ground (arith, find_from-none test n (i + 1) m)

module _ {ℓ} {A : Type ℓ} where
  -- `n` entries from index `start` on.
  abbrev pub slice : (ℕ → A) → ℕ → ℕ → List A
  slice f start zero = []
  slice f start (suc n) = f start ∷ slice f (start + 1) n

  pub length-slice : (f : ℕ → A) (start n : ℕ) → length (slice f start n) ≡ n
  length-slice f start zero = refl
  length-slice f start (suc n) = ap suc (length-slice f (start + 1) n)

  pub slice_ext :
      (f g : ℕ → A) (start n : ℕ)
      → ((i : ℕ) → start ≤ i → i < start + n → f i ≡ g i)
      → slice f start n ≡ slice g start n
  slice_ext f g start zero e = refl
  slice_ext f g start (suc n) e =
      ap₂ (λ x xs. x ∷ xs) (e start (omega arith) (omega arith))
        (slice_ext f g (start + 1) n (λ i low high. e i (omega (arith, low)) (omega (arith, high))))

  pub slice_snoc :
      (f : ℕ → A) (start n : ℕ) → slice f start (suc n) ≡ slice f start n ++ (f (start + n) ∷ [])
  slice_snoc f start zero = ap (λ i. f i ∷ []) (omega arith)
  slice_snoc f start (suc n) =
      ap (λ xs. f start ∷ xs)
        (slice_snoc f (start + 1) n ∙ ap (λ i. slice f (start + 1) n ++ (f i ∷ [])) (omega arith))

  pub slice-update :
      (f : ℕ → A) (start n i : ℕ) (a : A)
      → start + n ≤ i
      → slice (update f i a) start n ≡ slice f start n
  slice-update f start n i a le =
      slice_ext (update f i a) f start n (λ j low high. update-ne f i j a (omega (arith, high, le)))

  pub slice_shift :
      (f : ℕ → A) (start n by : ℕ) → slice (λ i. f (i + by)) start n ≡ slice f (start + by) n
  slice_shift f start zero by = refl
  slice_shift f start (suc n) by =
      ap (λ xs. f (start + by) ∷ xs)
        (slice_shift f (start + 1) n by ∙ ap (λ i. slice f i n) (omega arith))

  pub slice-append :
      (f : ℕ → A) (start m n : ℕ) → slice f start m ++ slice f (start + m) n ≡ slice f start (m + n)
  slice-append f start zero n = ap₂ (λ i k. slice f i k) (omega arith) (omega arith)
  slice-append f start (suc m) n =
      let next : start + suc m ≡ start + 1 + m = omega arith in
      let total : suc (m + n) ≡ suc m + n = omega arith in
      ap (λ xs. f start ∷ xs)
        (ap (λ i. slice f (start + 1) m ++ slice f i n) next ∙ slice-append f (start + 1) m n)
      ∙ ap (slice f start) total

  pub take-slice : (f : ℕ → A) (start m n : ℕ) → take n (slice f start m) ≡ slice f start (min m n)
  take-slice f start zero zero = refl
  take-slice f start zero (suc n) =
      let none_left : 0 ≡ min 0 (suc n) = omega arith in ap (slice f start) none_left
  take-slice f start (suc m) zero =
      let none_left : 0 ≡ min (suc m) 0 = omega arith in ap (slice f start) none_left
  take-slice f start (suc m) (suc n) =
      let both : suc (min m n) ≡ min (suc m) (suc n) = omega arith in
      ap (λ xs. f start ∷ xs) (take-slice f (start + 1) m n) ∙ ap (slice f start) both

  pub drop-slice :
      (f : ℕ → A) (start m n : ℕ) → drop n (slice f start m) ≡ slice f (start + n) (m - n)
  drop-slice f start zero zero = refl
  drop-slice f start zero (suc n) =
      let none_left : 0 ≡ 0 - suc n = omega arith in ap (slice f (start + suc n)) none_left
  drop-slice f start (suc m) zero =
      let same : start ≡ start + 0 = omega arith in
      let all : suc m ≡ suc m - 0 = omega arith in ap₂ (slice f) same all
  drop-slice f start (suc m) (suc n) =
      let next : start + 1 + n ≡ start + suc n = omega arith in
      let left : m - n ≡ suc m - suc n = omega arith in
      drop-slice f (start + 1) m n ∙ ap₂ (slice f) next left
