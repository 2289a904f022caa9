-- ===== src/FirstFit/Allocation.antt =====
-- What `malloc_impl` of Kernel/c/memoryManager/memoryManagerFF.c returns on each outcome.
use mass_os.Prelude.{
  leb, ◌==◌, Bool-cases, All, ℕ, ◌+◌, ◌%◌, ◌^◌, ◌≤◌, ◌<◌, ◌≡◌, refl, ap, subst, ◌⊎◌, inl, inr, Bool,
  true, false, ◌&&◌, List, [], ◌∷◌, ◌++◌, arith,
}
use mass_os.FirstFit.{header, MemBlock, align, take_block, first_fit, malloc_impl}
use mass_os.FirstFit.Tiling.{Tiles}

-- The test of the search fails on the block.
abbrev pub CannotHold : ℕ → MemBlock → Type 0
CannotHold size b = (b.is_free && leb size b.size) ≡ false

-- The outcome of a successful search: the block found, what stands round it, pointer and heap.
pub record FirstBlock (size : ℕ) (kernel : Bool) (heap : List MemBlock) (out : ℕ × List MemBlock)
    : Type 0 where
  pub before : List MemBlock
  pub block : MemBlock
  pub after : List MemBlock
  pub split : heap ≡ before ++ (block ∷ after)
  pub earlier : All (CannotHold size) before
  pub is_free : block.is_free ≡ true
  pub holds : size ≤ block.size
  pub pointer : out.0 ≡ block.address + header
  pub heap_after : out.1 ≡ before ++ (take_block block size kernel ++ after)

-- The search fails only if no block can hold the request; otherwise it takes the first that can.
pub first_fit_outcome :
    (heap : List MemBlock) (size : ℕ) (kernel : Bool)
    → ((first_fit heap size kernel ≡ (0, heap)) × All (CannotHold size) heap)
      ⊎ FirstBlock size kernel heap (first_fit heap size kernel)
unfolding first_fit
first_fit_outcome [] size kernel = inl (refl, tt)
first_fit_outcome (b ∷ bs) size kernel = elim (Bool-cases (b.is_free && leb size b.size)) [
  | inl e ↦ inr (record {
    before = [];
    block = b;
    after = bs;
    split = refl;
    earlier = tt;
    is_free = ground arith;
    holds = ground arith;
    pointer = rw e;
    heap_after = rw e;
  })
  | inr e ↦ elim (first_fit_outcome bs size kernel) [
    | inl (same, none_fits) ↦ inl (rw (e, same), (e, none_fits))
    | inr f ↦ inr (record {
      before = b ∷ f.before;
      block = f.block;
      after = f.after;
      split = ap (◌∷◌ b) f.split;
      earlier = (e, f.earlier);
      is_free = f.is_free;
      holds = f.holds;
      pointer = rw e f.pointer;
      heap_after = rw e (ap (◌∷◌ b) f.heap_after);
    })
  ]
]

-- A block of a tiled heap lies between its ends.
pub block_inside :
    (before : List MemBlock) (b : MemBlock) (after : List MemBlock) (start end : ℕ)
    → Tiles start (before ++ (b ∷ after)) end
    → (start ≤ b.address) × (b.address + header + b.size ≤ end)
block_inside [] b after start end t =
    (omega arith, rest_inside after (b.address + header + b.size) t.1)
  where
    rest_inside : (bs : List MemBlock) (from : ℕ) → Tiles from bs end → from ≤ end
    rest_inside [] from u = omega arith
    rest_inside (c ∷ bs) from u = omega (arith, rest_inside bs (c.address + header + c.size) u.1)
block_inside (c ∷ before) b after start end t =
    omega (arith, block_inside before b after (c.address + header + c.size) end t.1)

-- Rounding up to a multiple of 8, below the 64-bit limit.
pub align_bounds :
    (size : ℕ)
    → size + 7 < 2 ^ 64
    → (size ≤ align size) × (align size < size + 8) × (align size % 8 ≡ 0)
unfolding align
align_bounds size h = omega arith

-- Above it the sum wraps to nothing.
pub align_wraps : (size : ℕ) → size < 2 ^ 64 → 2 ^ 64 ≤ size + 7 → align size ≡ 0
unfolding align
align_wraps size h k = omega arith

-- An allocation of a positive size below 2^64 - 7 in a tiled heap returns either NULL, with the
-- heap unchanged and no free block of that size rounded up to a multiple of 8, or a pointer to
-- `size` bytes inside the heap, in the first free block that is large enough.
pub malloc_impl_lem :
    (size : ℕ) (kernel : Bool) (heap : List MemBlock) (start end : ℕ)
    → Tiles start heap end
    → 0 < size
    → size + 7 < 2 ^ 64
    → ((malloc_impl size kernel heap ≡ (0, heap)) × All (CannotHold (align size)) heap)
      ⊎ (FirstBlock (align size) kernel heap (malloc_impl size kernel heap)
          × (start < (malloc_impl size kernel heap).0)
          × ((malloc_impl size kernel heap).0 + size ≤ end))
unfolding malloc_impl
malloc_impl_lem size kernel heap start end t p q =
    let nonzero : (size == 0) ≡ false = ground arith in
    rw nonzero (elim (first_fit_outcome heap (align size) kernel) [
      | inl failed ↦ inl failed
      | inr f ↦
          let inside =
            block_inside f.before f.block f.after start end
              (subst (λ l. Tiles start l end) f.split t) in
          inr (
            f,
            omega (arith, f.pointer, inside.0),
            omega (arith, f.pointer, f.holds, inside.1, align_bounds size q),
          )
    ])
