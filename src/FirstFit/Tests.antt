-- ===== src/FirstFit/Tests.antt =====
-- Runs of Kernel/c/memoryManager/memoryManagerFF.c on a small heap, and its theorems at it.
use mass_os.Prelude.{
  All, ◌+◌, ◌-◌, ◌^◌, ◌≤◌, ◌<◌, ◌≡◌, refl, ◌⊎◌, true, false, some, List, [], ◌∷◌, arith,
}
use mass_os.FirstFit.{
  MemBlock, mm_init, align, first_fit, malloc_impl, mm_malloc, mm_malloc_kernel, free_block,
  mm_free, mm_status,
}
use mass_os.FirstFit.Allocation.{CannotHold, FirstBlock, malloc_impl_lem}
use mass_os.FirstFit.Coalescing.{Coalesced, Coalesced-free_block}
use mass_os.FirstFit.RoundTrip.{free_block-first_fit}
use mass_os.FirstFit.Tiling.{Tiles}

abbrev blank : List MemBlock
blank = record { address = 4096; size = 1000; is_free = true; is_kernel = false } ∷ []

abbrev two_blocks : List MemBlock
two_blocks =
    record { address = 4096; size = 104; is_free = false; is_kernel = true }
    ∷ record { address = 4224; size = 872; is_free = true; is_kernel = false }
    ∷ []

init-blank : mm_init 4096 1024 [] ≡ blank
unfolding mm_init
init-blank = refl

malloc-blank : mm_malloc_kernel 100 blank ≡ (4120, two_blocks)
unfolding mm_malloc_kernel
malloc-blank = refl

malloc-user : (mm_malloc 100 two_blocks).0 ≡ 4248
unfolding mm_malloc
malloc-user = refl

malloc-too_large : mm_malloc 900 two_blocks ≡ (0, two_blocks)
unfolding mm_malloc
malloc-too_large = refl

status-two_blocks :
    mm_status two_blocks
    ≡ record { total = 1024; free = 896; used = 0; used_kernel = 128; alloc_count = 0 }
unfolding mm_status
status-two_blocks = refl

-- A size within 7 of 2^64 is rounded to nothing, and the allocation succeeds with no room.
malloc-wraps : (mm_malloc (2 ^ 64 - 1) blank).0 ≡ 4120
unfolding mm_malloc
malloc-wraps = refl

two_blocks-Tiles : Tiles 4096 two_blocks 5120
two_blocks-Tiles = omega arith

malloc_impl_lem_example :
    ((malloc_impl 100 false two_blocks ≡ (0, two_blocks)) × All (CannotHold (align 100)) two_blocks)
    ⊎ (FirstBlock (align 100) false two_blocks (malloc_impl 100 false two_blocks)
        × (4096 < (malloc_impl 100 false two_blocks).0)
        × ((malloc_impl 100 false two_blocks).0 + 100 ≤ 5120))
malloc_impl_lem_example =
    malloc_impl_lem 100 false two_blocks 4096 5120 two_blocks-Tiles (omega arith) (omega arith)

Coalesced-free_block_example : Coalesced blank
unfolding free_block
Coalesced-free_block_example =
    Coalesced-free_block
      (record { address = 4096; size = 104; is_free = false; is_kernel = false }
        ∷ record { address = 4224; size = 872; is_free = true; is_kernel = false }
        ∷ [])
      4096 {heap' = blank} (refl, tt) refl

abbrev found_block : FirstBlock 104 false two_blocks (first_fit two_blocks 104 false)
unfolding first_fit
found_block = record {
  before = record { address = 4096; size = 104; is_free = false; is_kernel = true } ∷ [];
  block = record { address = 4224; size = 872; is_free = true; is_kernel = false };
  after = [];
  split = refl;
  earlier = (refl, tt);
  is_free = refl;
  holds = omega arith;
  pointer = refl;
  heap_after = refl;
}

free_block-first_fit_example :
    mm_free (first_fit two_blocks 104 false).0 (first_fit two_blocks 104 false).1 ≡ some two_blocks
unfolding first_fit
free_block-first_fit_example =
    free_block-first_fit two_blocks 104 false 4096 5120 two_blocks-Tiles (refl, tt) found_block
