-- ===== src/FirstFit/RoundTrip.antt =====
-- `mm_free` after `malloc_impl` of Kernel/c/memoryManager/memoryManagerFF.c.
use mass_os.Prelude.{
  leb, ◌==◌, leb→le, Bool-cases, ℕ, ◌+◌, ◌-◌, ◌≤◌, ◌≡◌, refl, ap, subst, ◌∙◌, inl, inr, Bool, true,
  false, ◌&&◌, some, List, [], ◌∷◌, ◌++◌, arith,
}
use mass_os.FirstFit.{
  header, min_split, MemBlock, take_block, first_fit, absorb, join, free_after, free_block, mm_free,
}
use mass_os.FirstFit.Allocation.{FirstBlock, block_inside}
use mass_os.FirstFit.Coalescing.{Coalesced, Coalesced-drop, Coalesced-swap_head}
use mass_os.FirstFit.Tiling.{Tiles}

absorb_blocked :
    (b : MemBlock) (bs : List MemBlock)
    → b.is_free ≡ true
    → Coalesced (b ∷ bs)
    → absorb b bs ≡ b ∷ bs
unfolding absorb
absorb_blocked b [] f h = refl
absorb_blocked b (c ∷ bs) f h = ground (arith, h.0)

-- An allocated block and what follows it, with the block found again by forward coalescing.
record Taken (b : MemBlock) (kernel : Bool) (after heap : List MemBlock) : Type 0 where
  first : MemBlock
  rest : List MemBlock
  shape : heap ≡ first ∷ rest
  address : first.address ≡ b.address
  whole : absorb (record first { is_free = true }) rest ≡ record b { is_kernel = kernel } ∷ after

take_block-Taken :
    (b : MemBlock) (size : ℕ) (kernel : Bool) (after : List MemBlock)
    → b.is_free ≡ true
    → size ≤ b.size
    → Coalesced (b ∷ after)
    → Taken b kernel after (take_block b size kernel ++ after)
unfolding take_block absorb
take_block-Taken b size kernel after f le h = elim (Bool-cases (leb (size + min_split) b.size)) [
  | inl big ↦
      let same : record b {
        size = size + (header + (b.size - size - header));
        is_free = true;
        is_kernel = kernel;
      }
          ≡ record b { is_kernel = kernel } =
        ground (arith, leb→le (size + min_split) b.size big) in
      record {
        first = record b { size = size; is_free = false; is_kernel = kernel };
        rest =
            record {
              address = b.address + header + size;
              size = b.size - size - header;
              is_free = true;
              is_kernel = false;
            }
            ∷ after;
        shape = rw big;
        address = refl;
        whole =
            ap (λ x. absorb x after) same
            ∙ absorb_blocked (record b { is_kernel = kernel }) after f
                (Coalesced-swap_head b (record b { is_kernel = kernel }) after refl h);
      }
  | inr small ↦
      let same : record b { is_free = true; is_kernel = kernel } ≡ record b { is_kernel = kernel } =
        ground arith in
      record {
        first = record b { is_free = false; is_kernel = kernel };
        rest = after;
        shape = rw small;
        address = refl;
        whole =
            ap (λ x. absorb x after) same
            ∙ absorb_blocked (record b { is_kernel = kernel }) after f
                (Coalesced-swap_head b (record b { is_kernel = kernel }) after refl h);
      }
]

free_after-Taken :
    (prev b : MemBlock) (kernel : Bool) (after heap : List MemBlock)
    → Taken b kernel after heap
    → (prev.is_free && b.is_free) ≡ false
    → b.is_free ≡ true
    → free_after prev heap b.address ≡ some (prev ∷ record b { is_kernel = kernel } ∷ after)
unfolding free_after join
free_after-Taken prev b kernel after heap k p f =
    let found : (k.first.address == b.address) ≡ true = ground (arith, k.address) in
    let kept : prev.is_free ≡ false = ground arith in
    rw k.shape (rw found (rw k.whole (rw kept refl)))

-- The search for the block walks past the blocks before it.
free_after-past :
    (prev : MemBlock) (before : List MemBlock) (b : MemBlock) (kernel : Bool)
    (after heap : List MemBlock) (start end : ℕ)
    → Tiles start (prev ∷ before ++ (b ∷ after)) end
    → Coalesced (prev ∷ before ++ (b ∷ after))
    → b.is_free ≡ true
    → Taken b kernel after heap
    → free_after prev (before ++ heap) b.address
      ≡ some (prev ∷ before ++ (record b { is_kernel = kernel } ∷ after))
unfolding free_after
free_after-past prev [] b kernel after heap start end t h f k =
    free_after-Taken prev b kernel after heap k h.0 f
free_after-past prev (c ∷ before) b kernel after heap start end t h f k =
    let below = block_inside before b after (c.address + header + c.size) end t.1.1 in
    let away : (c.address == b.address) ≡ false = ground (arith, below.0) in
    rw (
      away,
      free_after-past c before b kernel after heap (prev.address + header + prev.size) end t.1 h.1 f
          k,
    )

free_block-past :
    (before : List MemBlock) (b : MemBlock) (kernel : Bool) (after heap : List MemBlock)
    (start end : ℕ)
    → Tiles start (before ++ (b ∷ after)) end
    → Coalesced (before ++ (b ∷ after))
    → b.is_free ≡ true
    → Taken b kernel after heap
    → free_block (before ++ heap) b.address
      ≡ some (before ++ (record b { is_kernel = kernel } ∷ after))
unfolding free_block
free_block-past [] b kernel after heap start end t h f k =
    let found : (k.first.address == b.address) ≡ true = ground (arith, k.address) in
    rw k.shape (rw found (rw k.whole refl))
free_block-past (c ∷ before) b kernel after heap start end t h f k =
    let below = block_inside before b after (c.address + header + c.size) end t.1 in
    let away : (c.address == b.address) ≡ false = ground (arith, below.0) in
    rw away (free_after-past c before b kernel after heap start end t h f k)

-- In a tiled heap without free neighbours, freeing the block of a successful allocation gives back
-- the heap as it was, but for the kernel flag of the now free block.
pub free_block-first_fit :
    (heap : List MemBlock) (size : ℕ) (kernel : Bool) (start end : ℕ)
    → Tiles start heap end
    → Coalesced heap
    → (f : FirstBlock size kernel heap (first_fit heap size kernel))
    → mm_free (first_fit heap size kernel).0 (first_fit heap size kernel).1
      ≡ some (f.before ++ (record f.block { is_kernel = kernel } ∷ f.after))
unfolding mm_free
free_block-first_fit heap size kernel start end t h f =
    let nonzero : (f.block.address + header == 0) ≡ false = ground arith in
    let back : f.block.address + header - header ≡ f.block.address = omega arith in
    let out =
      free_block-past f.before f.block kernel f.after (take_block f.block size kernel ++ f.after)
        start end (subst (λ l. Tiles start l end) f.split t) (subst Coalesced f.split h) f.is_free
        (take_block-Taken f.block size kernel f.after f.is_free f.holds
          (Coalesced-drop f.before (f.block ∷ f.after) (subst Coalesced f.split h))) in
    rw (f.pointer, f.heap_after, nonzero, back) out
