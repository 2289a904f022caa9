-- ===== src/Buddy/Restore.antt =====
-- What the merging loop of `mm_free` does to a heap whose block was split before, in
-- Kernel/c/memoryManager/memoryManagerBuddy.c.
use mass_os.Prelude.{
  ◌==◌, Option-cases, update, update_self, update-ne, ℕ, zero, suc, ◌+◌, ◌-◌, ◌/◌, ◌%◌, ◌^◌, ◌≤◌,
  ◌<◌, ◌≡◌, refl, sym, ap, subst, ◌∙◌, ◌≢◌, ◌⊎◌, inl, inr, true, not, ◌||◌, some, List, ◌∷◌, arith,
  dec_lt, ℕ_discrete,
}
use mass_os.Buddy.{
  min_order, max_order, BlockHdr, Heap, order_idx, get_buddy, push_block, split, coalesce,
}
use mass_os.Buddy.Merge.{
  merged, FreeAbove, coalesce-merged, merged-headers, merged-lists_other, merged-lists,
  merged-heap_base, merged-heap_total,
}
use mass_os.Buddy.Orders.{two_pow_positive, mod_two-cases, flip_even, flip_odd, at_least_one}
use mass_os.Buddy.Split.{
  two_pow_lt, split-lists_other, split-lists, split-headers_other, split-headers,
}

-- A free block of the order: it lies in the heap, its offset is aligned to its size, its header has
-- its order, and its buddy is not a free block of the same order.
pub record FreeBlock (h : Heap) (order b : ℕ) : Type 0 where
  pub above_base : h.heap_base ≤ b
  pub below_end : b + 2 ^ order ≤ h.heap_base + h.heap_total
  pub aligned : (j : ℕ) → j < order → (b - h.heap_base) / 2 ^ j % 2 ≡ 0
  pub has_order : (h.headers b).order ≡ order
  pub unmerged :
      (c : ℕ)
      → get_buddy h b order ≡ some c
      → (not (h.headers c).is_free || not ((h.headers c).order == order)) ≡ true

two_pow_double : (j k : ℕ) → j < k → 2 ^ j + 2 ^ j ≤ 2 ^ k
two_pow_double j zero lt = absurd (omega arith)
two_pow_double j (suc k) lt = elim (ℕ_discrete j k) [
  | yes same ↦ rw same (omega arith)
  | no ne ↦ omega (arith, two_pow_double j k (omega (arith, lt, ne)))
]

get_buddy_same :
    (g h : Heap) (b order : ℕ)
    → g.heap_base ≡ h.heap_base
    → g.heap_total ≡ h.heap_total
    → get_buddy g b order ≡ get_buddy h b order
unfolding get_buddy
get_buddy_same g h b order e e' = rw (e, e') refl

-- The buddy of an aligned block at a smaller order is behind it.
get_buddy_above :
    (h : Heap) (order b j : ℕ)
    → FreeBlock h order b
    → j < order
    → get_buddy h b j ≡ some (b + 2 ^ j)
unfolding get_buddy
get_buddy_above h order b j f lt = ground (
  arith,
  flip_even (b - h.heap_base) j (f.aligned j lt),
  two_pow_double j order lt,
  f.above_base,
  f.below_end,
)

get_buddy_apart :
    (h : Heap) (b order c : ℕ)
    → h.heap_base ≤ b
    → get_buddy h b order ≡ some c
    → (c ≡ b + 2 ^ order) ⊎ (c + 2 ^ order ≡ b)
unfolding get_buddy
get_buddy_apart h b order c low e = elim (mod_two-cases ((b - h.heap_base) / 2 ^ order)) [
  | inl even ↦ inl (ground (arith, flip_even (b - h.heap_base) order even))
  | inr odd ↦ inr (
      ground
        (arith, flip_odd (b - h.heap_base) order odd, at_least_one (b - h.heap_base) order odd))
]

coalesce_stop :
    (r b order : ℕ) (h : Heap)
    → ((c : ℕ)
        → get_buddy h b order ≡ some c
        → (not (h.headers c).is_free || not ((h.headers c).order == order)) ≡ true)
    → coalesce r b order h ≡ (b, order, h)
unfolding coalesce
coalesce_stop zero b order h stop = refl
coalesce_stop (suc r) b order h stop = elim (Option-cases (get_buddy h b order)) [
  | inl e ↦ rw (e, coalesce) refl
  | inr e ↦ rw (e.1, coalesce) (rw (stop e.0 e.1) refl)
]

-- The heap without the first block of the list of that order.
abbrev pub taken : Heap → ℕ → List ℕ → Heap
taken h order rest = record h { free_lists = update h.free_lists (order_idx order) rest }

-- `g` has the lists of the heap after the split, and its headers but for the block's own.
abbrev pub AfterSplit : Heap → Heap → ℕ → ℕ → ℕ → List ℕ → Type 0
AfterSplit g h n order b rest =
    let s = split order n b (taken h (order + n) rest) in
    (g.heap_base ≡ h.heap_base)
    × (g.heap_total ≡ h.heap_total)
    × ((i : ℕ) → g.free_lists i ≡ s.free_lists i)
    × ((a : ℕ) → b ≢ a → g.headers a ≡ s.headers a)

module _ (n order b : ℕ) (g h : Heap) (rest : List ℕ) (low : min_order ≤ order)
    (fb : FreeBlock h (order + n) b) (after : AfterSplit g h n order b rest) where
  after-FreeAbove : FreeAbove g b order (order + n)
  after-FreeAbove j le lt =
      let ne : b ≢ b + 2 ^ j = omega (arith, two_pow_positive j) in
      let hdr =
        after.3 (b + 2 ^ j) ne ∙ split-headers n order b j (taken h (order + n) rest) le lt in
      (
        get_buddy_same g h b j after.0 after.1 ∙ get_buddy_above h (order + n) b j fb lt,
        ap (λ (x : BlockHdr). x.is_free) hdr,
        ap (λ (x : BlockHdr). x.order) hdr,
      )

  buddy_header :
      (c : ℕ) → get_buddy h b (order + n) ≡ some c → (merged n b order g).headers c ≡ h.headers c
  buddy_header c e =
      let apart = get_buddy_apart h b (order + n) c fb.above_base e in
      let p = two_pow_positive (order + n) in
      let ne : b ≢ c = grind (arith, apart, p) in
      merged-headers n b order c g ne
      ∙ after.3 c ne
      ∙ split-headers_other n order b c (taken h (order + n) rest) ne
          (λ j le lt. grind (arith, apart, p, two_pow_lt j (order + n) lt))

  -- The loop merges up to the order that was split, and stops there.
  pub after-coalesce :
      order + n ≤ max_order
      → coalesce (max_order - order) b order g ≡ (b, order + n, merged n b order g)
  after-coalesce high =
      coalesce-merged n (max_order - (order + n)) (max_order - order) b order (order + n) g
        (omega (arith, high)) refl after-FreeAbove
      ∙ coalesce_stop (max_order - (order + n)) b (order + n) (merged n b order g) (λ c e.
        let e' =
          sym (
            get_buddy_same (merged n b order g) h b (order + n)
              (merged-heap_base n b order g ∙ after.0) (merged-heap_total n b order g ∙ after.1))
          ∙ e in
        rw (buddy_header c e') (fb.unmerged c e'))

  outside_list :
      (i : ℕ)
      → (i < order_idx order) ⊎ (order_idx (order + n) ≤ i)
      → (merged n b order g).free_lists i ≡ (taken h (order + n) rest).free_lists i
  outside_list i out =
      merged-lists_other n b order i g low out
      ∙ after.2 i
      ∙ split-lists_other n order b i (taken h (order + n) rest) low out

  between_list :
      (j : ℕ)
      → order ≤ j
      → j < order + n
      → (merged n b order g).free_lists (order_idx j) ≡ h.free_lists (order_idx j)
  between_list j le lt = merged-lists n b order j g (h.free_lists (order_idx j)) low le lt (
      after.2 (order_idx j)
      ∙ split-lists n order b j (taken h (order + n) rest) low le lt
      ∙ ap (λ cs. (b + 2 ^ j) ∷ cs)
          (update-ne h.free_lists (order_idx (order + n)) (order_idx j) rest
            (omega (arith, low, le, lt))))

  pub restored_list :
      h.free_lists (order_idx (order + n)) ≡ b ∷ rest
      → (i : ℕ) → (push_block (merged n b order g) (order + n) b).free_lists i ≡ h.free_lists i
  restored_list first i = elim (ℕ_discrete (order_idx (order + n)) i) [
    | yes same ↦
        subst (λ k. (push_block (merged n b order g) (order + n) b).free_lists k ≡ h.free_lists k)
          same
          (update_self (merged n b order g).free_lists (order_idx (order + n)) _
            ∙ ap (λ cs. b ∷ cs)
                (outside_list (order_idx (order + n)) (inr (omega arith))
                  ∙ update_self h.free_lists (order_idx (order + n)) rest)
            ∙ sym first)
    | no ne ↦
        update-ne (merged n b order g).free_lists (order_idx (order + n)) i _ ne
        ∙ elim (dec_lt i (order_idx order)) [
          | yes lt ↦
              outside_list i (inl lt) ∙ update-ne h.free_lists (order_idx (order + n)) i rest ne
          | no ge ↦ elim (dec_lt i (order_idx (order + n))) [
            | yes lt ↦
                let back : order_idx (i + min_order) ≡ i = omega arith in
                subst (λ k. (merged n b order g).free_lists k ≡ h.free_lists k) back
                  (between_list (i + min_order) (omega (arith, ge)) (omega (arith, lt)))
            | no ge' ↦
                outside_list i (inr (omega (arith, ge')))
                ∙ update-ne h.free_lists (order_idx (order + n)) i rest ne
          ]
        ]
  ]
