-- ===== src/Buddy/Split.antt =====
-- The splitting loop of `malloc_impl` in Kernel/c/memoryManager/memoryManagerBuddy.c.
use mass_os.Prelude.{
  update_self, update-ne, ℕ, zero, suc, ◌+◌, ◌^◌, ◌≤◌, ◌<◌, ◌≡◌, refl, ap, ◌∙◌, ◌≢◌, ◌⊎◌, inr, true,
  false, ◌∷◌, arith, ℕ_discrete,
}
use mass_os.Buddy.{min_order, BlockHdr, Heap, order_idx, set_header, add_free, split}
use mass_os.Buddy.Orders.{two_pow_positive}

-- The state after one round at the order `found`.
abbrev pub split_one : ℕ → ℕ → Heap → Heap
split_one found b h =
    let h' = add_free h found (b + 2 ^ found) in
    set_header h' b (record (h'.headers b) { order = found })

pub two_pow_lt : (j k : ℕ) → j < k → 2 ^ j < 2 ^ k
two_pow_lt j zero lt = absurd (omega arith)
two_pow_lt j (suc k) lt = elim (ℕ_discrete j k) [
  | yes same ↦ rw same (omega (arith, two_pow_positive k))
  | no ne ↦ omega (arith, two_pow_lt j k (omega (arith, lt, ne)))
]

split_one-header :
    (found b a : ℕ) (h : Heap)
    → b ≢ a
    → b + 2 ^ found ≢ a
    → (split_one found b h).headers a ≡ h.headers a
split_one-header found b a h ne ne' =
    update-ne (add_free h found (b + 2 ^ found)).headers b a _ ne
    ∙ update-ne h.headers (b + 2 ^ found) a _ ne'

-- Lists of other orders stay.
pub split-lists_other :
    (n order b i : ℕ) (h : Heap)
    → min_order ≤ order
    → (i < order_idx order) ⊎ (order_idx (order + n) ≤ i)
    → (split order n b h).free_lists i ≡ h.free_lists i
unfolding split
split-lists_other zero order b i h low out = refl
split-lists_other (suc n) order b i h low out =
    split-lists_other n order b i (split_one (order + n) b h) low (omega (arith, out, low))
    ∙ update-ne h.free_lists (order_idx (order + n)) i _ (omega (arith, out, low))

-- Each list in between gains the buddy of its order at the front.
pub split-lists :
    (n order b j : ℕ) (h : Heap)
    → min_order ≤ order
    → order ≤ j
    → j < order + n
    → (split order n b h).free_lists (order_idx j) ≡ (b + 2 ^ j) ∷ h.free_lists (order_idx j)
unfolding split
split-lists zero order b j h low le lt = absurd (omega arith)
split-lists (suc n) order b j h low le lt = elim (ℕ_discrete j (order + n)) [
  | yes same ↦
      split-lists_other n order b (order_idx j) (split_one (order + n) b h) low
        (inr (omega (arith, same)))
      ∙ rw same (
          update_self h.free_lists (order_idx (order + n))
            ((b + 2 ^ (order + n)) ∷ h.free_lists (order_idx (order + n))))
  | no ne ↦
      split-lists n order b j (split_one (order + n) b h) low le (omega (arith, lt, ne))
      ∙ ap (λ cs. (b + 2 ^ j) ∷ cs)
          (update-ne h.free_lists (order_idx (order + n)) (order_idx j) _
            (omega (arith, low, le, ne)))
]

-- Headers of other addresses stay.
pub split-headers_other :
    (n order b a : ℕ) (h : Heap)
    → b ≢ a
    → ((j : ℕ) → order ≤ j → j < order + n → b + 2 ^ j ≢ a)
    → (split order n b h).headers a ≡ h.headers a
unfolding split
split-headers_other zero order b a h ne nes = refl
split-headers_other (suc n) order b a h ne nes =
    split-headers_other n order b a (split_one (order + n) b h) ne
      (λ j le lt. nes j le (omega (arith, lt)))
    ∙ split_one-header (order + n) b a h ne (nes (order + n) (omega arith) (omega arith))

-- The buddies are free blocks of their orders.
pub split-headers :
    (n order b j : ℕ) (h : Heap)
    → order ≤ j
    → j < order + n
    → (split order n b h).headers (b + 2 ^ j)
      ≡ record { order = j; is_free = true; is_kernel = false }
unfolding split
split-headers zero order b j h le lt = absurd (omega arith)
split-headers (suc n) order b j h le lt = elim (ℕ_discrete j (order + n)) [
  | yes same ↦
      let a = b + 2 ^ (order + n) in
      let g = split_one (order + n) b h in
      let ne : b ≢ a = omega (arith, two_pow_positive (order + n)) in
      rw same (
        split-headers_other n order b a g ne
          (λ k le' lt'. omega (arith, two_pow_lt k (order + n) lt'))
        ∙ update-ne (add_free h (order + n) a).headers b a _ ne
        ∙ update_self h.headers a _)
  | no ne ↦ split-headers n order b j (split_one (order + n) b h) le (omega (arith, lt, ne))
]

-- The block itself ends at the order of the request.
pub split-order :
    (n order b : ℕ) (h : Heap)
    → (h.headers b).order ≡ order + n
    → ((split order n b h).headers b).order ≡ order
unfolding split
split-order zero order b h e = omega (arith, e)
split-order (suc n) order b h e = split-order n order b (split_one (order + n) b h) (
    ap (λ (hdr : BlockHdr). hdr.order)
      (update_self (add_free h (order + n) (b + 2 ^ (order + n))).headers b _))

pub split-heap_base : (n order b : ℕ) (h : Heap) → (split order n b h).heap_base ≡ h.heap_base
unfolding split
split-heap_base zero order b h = refl
split-heap_base (suc n) order b h = split-heap_base n order b (split_one (order + n) b h)

pub split-heap_total : (n order b : ℕ) (h : Heap) → (split order n b h).heap_total ≡ h.heap_total
unfolding split
split-heap_total zero order b h = refl
split-heap_total (suc n) order b h = split-heap_total n order b (split_one (order + n) b h)

pub split-alloc_count : (n order b : ℕ) (h : Heap) → (split order n b h).alloc_count ≡ h.alloc_count
unfolding split
split-alloc_count zero order b h = refl
split-alloc_count (suc n) order b h = split-alloc_count n order b (split_one (order + n) b h)
