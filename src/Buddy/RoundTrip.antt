-- ===== src/Buddy/RoundTrip.antt =====
-- An allocation followed by the release of its block, in
-- Kernel/c/memoryManager/memoryManagerBuddy.c.
use mass_os.Prelude.{
  ◌==◌, if◌then◌else◌, Bool-cases, Option-cases, update_self, update-ne, find_from, find_from_sound,
  ℕ, ◌+◌, ◌-◌, ◌%◌, ◌^◌, ◌≤◌, ◌<◌, ◌≡◌, refl, sym, ap, subst, ◌∙◌, ◌≢◌, ◌⊎◌, inl, inr, Bool, true,
  false, ◌||◌, List, [], ◌∷◌, arith,
}
use mass_os.Buddy.{
  min_order, max_order, header, BlockHdr, Heap, order_idx, push_block, set_header, split, has_block,
  give, malloc_impl, coalesce, mm_free,
}
use mass_os.Buddy.Merge.{merged-alloc_count}
use mass_os.Buddy.Orders.{size_to_order_lem}
use mass_os.Buddy.Restore.{FreeBlock, taken, AfterSplit, after-coalesce, restored_list}
use mass_os.Buddy.Split.{split-order, split-heap_base, split-heap_total, split-alloc_count}

-- `mm_free` of the block at `b`.
abbrev freed : ℕ → Heap → Heap
freed b h =
    let hdr = h.headers b in
    record (set_header h b (record hdr { is_free = true })) {
      alloc_count = if hdr.is_kernel then h.alloc_count else (h.alloc_count + 2 ^ 64 - 1) % 2 ^ 64;
    }

abbrev release : ℕ × ℕ × Heap → Heap
release (b, order, h) = push_block h order b

mm_free_at :
    (b order : ℕ) (h : Heap)
    → (h.headers b).order ≡ order
    → mm_free (b + header) h ≡ release (coalesce (max_order - order) b order (freed b h))
unfolding mm_free
mm_free_at b order h e =
    let back : b + header - header ≡ b = omega arith in
    let positive : (b + header == 0) ≡ false = ground arith in rw (positive, back, e) refl

-- The heap after the block was given out.
abbrev given : Bool → ℕ → ℕ → ℕ → List ℕ → Heap → Heap
given kernel n order b rest h =
    let s = split order n b (taken h (order + n) rest) in
    let marked = set_header s b (record (s.headers b) { is_free = false; is_kernel = kernel }) in
    if kernel then marked else record marked { alloc_count = (marked.alloc_count + 1) % 2 ^ 64 }

give-given :
    (kernel : Bool) (n order b : ℕ) (rest : List ℕ) (h : Heap)
    → give order (order + n) kernel b rest h ≡ (b + header, given kernel n order b rest h)
unfolding give
give-given kernel n order b rest h =
    let rounds : order + n - order ≡ n = omega arith in rw rounds refl

given-order :
    (kernel : Bool) (n order b : ℕ) (rest : List ℕ) (h : Heap)
    → (h.headers b).order ≡ order + n
    → ((given kernel n order b rest h).headers b).order ≡ order
given-order true n order b rest h e =
    let s = split order n b (taken h (order + n) rest) in
    ap (λ (x : BlockHdr). x.order) (update_self s.headers b _)
    ∙ split-order n order b (taken h (order + n) rest) e
given-order false n order b rest h e =
    let s = split order n b (taken h (order + n) rest) in
    ap (λ (x : BlockHdr). x.order) (update_self s.headers b _)
    ∙ split-order n order b (taken h (order + n) rest) e

freed-AfterSplit :
    (kernel : Bool) (n order b : ℕ) (rest : List ℕ) (h : Heap)
    → AfterSplit (freed b (given kernel n order b rest h)) h n order b rest
freed-AfterSplit true n order b rest h =
    let s = split order n b (taken h (order + n) rest) in
    (
      split-heap_base n order b (taken h (order + n) rest),
      split-heap_total n order b (taken h (order + n) rest),
      λ i. refl,
      λ a ne.
          update-ne (given true n order b rest h).headers b a _ ne ∙ update-ne s.headers b a _ ne,
    )
freed-AfterSplit false n order b rest h =
    let s = split order n b (taken h (order + n) rest) in
    (
      split-heap_base n order b (taken h (order + n) rest),
      split-heap_total n order b (taken h (order + n) rest),
      λ i. refl,
      λ a ne.
          update-ne (given false n order b rest h).headers b a _ ne ∙ update-ne s.headers b a _ ne,
    )

freed-alloc_count :
    (kernel : Bool) (n order b : ℕ) (rest : List ℕ) (h : Heap)
    → h.alloc_count < 2 ^ 64
    → (freed b (given kernel n order b rest h)).alloc_count ≡ h.alloc_count
freed-alloc_count true n order b rest h lt =
    let s = split order n b (taken h (order + n) rest) in
    rw
      (ap (λ (x : BlockHdr). x.is_kernel)
        (update_self s.headers b (record (s.headers b) { is_free = false; is_kernel = true })))
      (split-alloc_count n order b (taken h (order + n) rest))
freed-alloc_count false n order b rest h lt =
    let s = split order n b (taken h (order + n) rest) in
    rw
      (ap (λ (x : BlockHdr). x.is_kernel)
        (update_self s.headers b (record (s.headers b) { is_free = false; is_kernel = false })))
      (omega (arith, split-alloc_count n order b (taken h (order + n) rest), lt))

-- What a successful call found: a first block of some order that is large enough.
abbrev Served : ℕ → Bool → Heap → Type 0
Served size kernel h =
    (order : ℕ) × (found : ℕ) × (b : ℕ) × (rest : List ℕ) × (min_order ≤ order)
    × (order ≤ found)
    × (found ≤ max_order)
    × (h.free_lists (order_idx found) ≡ b ∷ rest)
    × (malloc_impl size kernel h ≡ give order found kernel b rest h)

List-cases : (cs : List ℕ) → (cs ≡ []) ⊎ ((c : ℕ) × (rest : List ℕ) × (cs ≡ c ∷ rest))
List-cases [] = inl refl
List-cases (c ∷ cs) = inr (c, cs, refl)

malloc_impl-Served :
    (size : ℕ) (kernel : Bool) (h : Heap) → (malloc_impl size kernel h).0 ≢ 0 → Served size kernel h
unfolding malloc_impl
malloc_impl-Served size kernel h ne = elim (Bool-cases (size == 0 || (h.heap_base == 0))) [
  | inl e ↦ absurd (ne (rw e refl))
  | inr e ↦ elim (size_to_order_lem ((size + header) % 2 ^ 64)) [
    | inl none_fits ↦ absurd (ne (rw (e, none_fits.0) refl))
    | inr (order, is_order, least) ↦
        elim (Option-cases (find_from (has_block h) (max_order + 1 - order) order)) [
          | inl e' ↦ absurd (ne (rw (e, is_order, e') refl))
          | inr (found, e') ↦ elim (List-cases (h.free_lists (order_idx found))) [
            | inl e'' ↦ absurd (ne (rw (e, is_order, e', e'') refl))
            | inr (b, rest, first) ↦
                let bounds = find_from_sound (has_block h) (max_order + 1 - order) order found e' in
                (
                  order,
                  found,
                  b,
                  rest,
                  least.1,
                  bounds.1,
                  omega (arith, bounds, least),
                  first,
                  rw (e, is_order, e', first) refl,
                )
          ]
        ]
  ]
]

-- The heap `h'` has the free lists of `h`, and counts as many allocations.
abbrev pub Restores : Heap → Heap → Type 0
Restores h' h = (h'.alloc_count ≡ h.alloc_count) × ((i : ℕ) → h'.free_lists i ≡ h.free_lists i)

Restores-given :
    (kernel : Bool) (n order b : ℕ) (rest : List ℕ) (h : Heap)
    → min_order ≤ order
    → order + n ≤ max_order
    → FreeBlock h (order + n) b
    → h.free_lists (order_idx (order + n)) ≡ b ∷ rest
    → h.alloc_count < 2 ^ 64
    → Restores (mm_free (b + header) (given kernel n order b rest h)) h
Restores-given kernel n order b rest h low high fb first lt =
    let h' = given kernel n order b rest h in
    let g = freed b h' in
    let after = freed-AfterSplit kernel n order b rest h in
    let e =
      mm_free_at b order h' (given-order kernel n order b rest h fb.has_order)
      ∙ ap release (after-coalesce n order b g h rest low fb after high) in
    subst (λ x. Restores x h) (sym e)
      (
        merged-alloc_count n b order g ∙ freed-alloc_count kernel n order b rest h lt,
        restored_list n order b g h rest low fb after first,
      )

-- The first block of each free list is a maximal free block of the list's order.
abbrev pub FirstBlocks : Heap → Type 0
FirstBlocks h =
    (order b : ℕ) (rest : List ℕ)
    → min_order ≤ order
    → order ≤ max_order
    → h.free_lists (order_idx order) ≡ b ∷ rest
    → FreeBlock h order b

-- If the first block of each free list is a free block of its order whose buddy is not such a block,
-- then `mm_free` of what an allocation returned, unless it is NULL, merges all the buddies of the
-- split again: each free list and the count of allocations are those before the allocation.
pub mm_free-malloc_impl :
    (size : ℕ) (kernel : Bool) (h : Heap)
    → FirstBlocks h
    → h.alloc_count < 2 ^ 64
    → (malloc_impl size kernel h).0 ≢ 0
    → Restores (mm_free (malloc_impl size kernel h).0 (malloc_impl size kernel h).1) h
mm_free-malloc_impl size kernel h firsts lt ne =
    let (order, found, b, rest, low, le, high, first, e) = malloc_impl-Served size kernel h ne in
    let n = found - order in
    let split_up : order + n ≡ found = omega (arith, le) in
    let first' = subst (λ k. h.free_lists (order_idx k) ≡ b ∷ rest) (sym split_up) first in
    let fb =
      subst (λ k. FreeBlock h k b) (sym split_up)
        (firsts found b rest (omega (arith, low, le)) high first) in
    let e' =
      e
      ∙ ap (λ k. give order k kernel b rest h) (sym split_up)
      ∙ give-given kernel n order b rest h in
    subst (λ (r : ℕ × Heap). Restores (mm_free r.0 r.1) h) (sym e')
      (Restores-given kernel n order b rest h low (omega (arith, high, split_up)) fb first' lt)
