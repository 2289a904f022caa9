-- ===== src/Buddy/Merge.antt =====
-- The merging loop of `mm_free` in Kernel/c/memoryManager/memoryManagerBuddy.c, along the buddies
-- above a block.
use mass_os.Prelude.{
  ltb, ==_self, update_self, update-ne, ℕ, zero, suc, ◌+◌, ◌^◌, ◌≤◌, ◌<◌, ◌≡◌, refl, sym, ap, subst,
  ◌∙◌, ◌≢◌, ◌⊎◌, inl, true, false, some, List, ◌∷◌, arith, ℕ_discrete,
}
use mass_os.Buddy.{
  min_order, Heap, order_idx, get_buddy, set_header, without, list_remove, coalesce,
}
use mass_os.Buddy.Orders.{two_pow_positive}

-- One merge with the buddy above the block.
abbrev pub merge_one : ℕ → ℕ → Heap → Heap
merge_one b order h =
    let removed = list_remove h order (b + 2 ^ order) in
    set_header removed b (record (removed.headers b) { order = order + 1 })

pub merged : ℕ → ℕ → ℕ → Heap → Heap
merged zero b order h = h
merged (suc n) b order h = merged n b (order + 1) (merge_one b order h)

-- The buddies of the block, from one order up to below the other, lie above it and are free.
abbrev pub FreeAbove : Heap → ℕ → ℕ → ℕ → Type 0
FreeAbove h b order top =
    (j : ℕ)
    → order ≤ j
    → j < top
    → (get_buddy h b j ≡ some (b + 2 ^ j))
      × ((h.headers (b + 2 ^ j)).is_free ≡ true)
      × ((h.headers (b + 2 ^ j)).order ≡ j)

not_below : (b k : ℕ) → ltb (b + k) b ≡ false
not_below b k = ground arith

coalesce_step :
    (r b order : ℕ) (h : Heap)
    → get_buddy h b order ≡ some (b + 2 ^ order)
    → (h.headers (b + 2 ^ order)).is_free ≡ true
    → (h.headers (b + 2 ^ order)).order ≡ order
    → coalesce (suc r) b order h ≡ coalesce r b (order + 1) (merge_one b order h)
unfolding coalesce
coalesce_step r b order h e free same =
    rw (e, coalesce) (rw (not_below b (2 ^ order), free, same, ==_self order) refl)

FreeAbove-merge_one :
    (h : Heap) (b order top : ℕ)
    → FreeAbove h b order top
    → FreeAbove (merge_one b order h) b (order + 1) top
unfolding get_buddy list_remove
FreeAbove-merge_one h b order top f j low high =
    let (e, free, same) = f j (omega (arith, low)) high in
    let other : b ≢ b + 2 ^ j = omega (arith, two_pow_positive j) in
    rw (update-ne h.headers b (b + 2 ^ j) _ other) (e, free, same)

-- The loop merges with all of them.
pub coalesce-merged :
    (n m r b order top : ℕ) (h : Heap)
    → r ≡ n + m
    → top ≡ order + n
    → FreeAbove h b order top
    → coalesce r b order h ≡ coalesce m b top (merged n b order h)
unfolding merged
coalesce-merged zero m r b order top h e e' f =
    let rounds : r ≡ m = omega (arith, e) in
    let reached : top ≡ order = omega (arith, e') in rw (rounds, reached) refl
coalesce-merged (suc n) m zero b order top h e e' f = absurd (omega (arith, e))
coalesce-merged (suc n) m (suc r) b order top h e e' f =
    let (g, free, same) = f order (omega arith) (omega (arith, e')) in
    coalesce_step r b order h g free same
    ∙ coalesce-merged n m r b (order + 1) top (merge_one b order h) (omega (arith, e))
        (omega (arith, e')) (FreeAbove-merge_one h b order top f)

-- Headers elsewhere stay.
pub merged-headers :
    (n b order a : ℕ) (h : Heap) → b ≢ a → (merged n b order h).headers a ≡ h.headers a
unfolding merged list_remove
merged-headers zero b order a h ne = refl
merged-headers (suc n) b order a h ne =
    merged-headers n b (order + 1) a (merge_one b order h) ne ∙ update-ne h.headers b a _ ne

-- The lists of other orders stay.
pub merged-lists_other :
    (n b order i : ℕ) (h : Heap)
    → min_order ≤ order
    → (i < order_idx order) ⊎ (order_idx (order + n) ≤ i)
    → (merged n b order h).free_lists i ≡ h.free_lists i
unfolding merged list_remove
merged-lists_other zero b order i h low out = refl
merged-lists_other (suc n) b order i h low out =
    merged-lists_other n b (order + 1) i (merge_one b order h) (omega (arith, low))
      (omega (arith, out, low))
    ∙ update-ne h.free_lists (order_idx order) i _ (omega (arith, out, low))

without_first : (c : ℕ) (cs : List ℕ) → without c (c ∷ cs) ≡ cs
unfolding without
without_first c cs = rw (==_self c) refl

merge_one-list :
    (b order : ℕ) (h : Heap) (cs : List ℕ)
    → h.free_lists (order_idx order) ≡ (b + 2 ^ order) ∷ cs
    → (merge_one b order h).free_lists (order_idx order) ≡ cs
unfolding list_remove
merge_one-list b order h cs e =
    update_self h.free_lists (order_idx order) _
    ∙ ap (without (b + 2 ^ order)) e
    ∙ without_first (b + 2 ^ order) cs

-- A list that starts with the buddy loses it.
pub merged-lists :
    (n b order j : ℕ) (h : Heap) (cs : List ℕ)
    → min_order ≤ order
    → order ≤ j
    → j < order + n
    → h.free_lists (order_idx j) ≡ (b + 2 ^ j) ∷ cs
    → (merged n b order h).free_lists (order_idx j) ≡ cs
unfolding merged list_remove
merged-lists zero b order j h cs low le lt e = absurd (omega arith)
merged-lists (suc n) b order j h cs low le lt e = elim (ℕ_discrete order j) [
  | yes same ↦
      let after =
        λ (i : ℕ). (merged n b (order + 1) (merge_one b order h)).free_lists (order_idx i) in
      ap after (sym same)
      ∙ merged-lists_other n b (order + 1) (order_idx order) (merge_one b order h)
          (omega (arith, low)) (inl (omega (arith, low)))
      ∙ merge_one-list b order h cs
          (subst (λ i. h.free_lists (order_idx i) ≡ (b + 2 ^ i) ∷ cs) (sym same) e)
  | no ne ↦
      merged-lists n b (order + 1) j (merge_one b order h) cs (omega (arith, low))
        (omega (arith, le, ne)) (omega (arith, lt))
        (update-ne h.free_lists (order_idx order) (order_idx j) _ (omega (arith, low, le, ne)) ∙ e)
]

pub merged-heap_base : (n b order : ℕ) (h : Heap) → (merged n b order h).heap_base ≡ h.heap_base
unfolding merged list_remove
merged-heap_base zero b order h = refl
merged-heap_base (suc n) b order h = merged-heap_base n b (order + 1) (merge_one b order h)

pub merged-heap_total : (n b order : ℕ) (h : Heap) → (merged n b order h).heap_total ≡ h.heap_total
unfolding merged list_remove
merged-heap_total zero b order h = refl
merged-heap_total (suc n) b order h = merged-heap_total n b (order + 1) (merge_one b order h)

pub merged-alloc_count :
    (n b order : ℕ) (h : Heap) → (merged n b order h).alloc_count ≡ h.alloc_count
unfolding merged list_remove
merged-alloc_count zero b order h = refl
merged-alloc_count (suc n) b order h = merged-alloc_count n b (order + 1) (merge_one b order h)
