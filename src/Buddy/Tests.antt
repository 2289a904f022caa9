-- ===== src/Buddy/Tests.antt =====
-- Runs of Kernel/c/memoryManager/memoryManagerBuddy.c on a small heap, and its theorems at it.
use mass_os.Prelude.{
  ◌==◌, if◌then◌else◌, find_from, ℕ, ◌-◌, ◌^◌, ◌≡◌, refl, sym, subst, true, false, [], ◌∷◌, arith,
  ℕ_discrete,
}
use mass_os.Buddy.{
  Heap, order_idx, size_to_order, flip, get_buddy, mm_init, give, malloc_impl, mm_malloc,
  mm_malloc_kernel, mm_free, walk, mm_status,
}
use mass_os.Buddy.Restore.{FreeBlock}
use mass_os.Buddy.RoundTrip.{Restores, FirstBlocks, mm_free-malloc_impl}
use mass_os.Buddy.Status.{tiled_end, tiled_block, counted, mm_status-counted}
use mass_os.Memory.{empty_status}
use native.Mathlib.Nat.{zero-div}

abbrev blank : Heap
blank = record {
  heap_base = 0;
  heap_total = 0;
  alloc_count = 0;
  free_lists = λ i. [];
  headers = λ a. record { order = 4; is_free = false; is_kernel = false };
}

-- 128 bytes and 16 bytes
abbrev started : Heap
unfolding mm_init
started = mm_init 4096 144 blank

started-large : started.free_lists 3 ≡ 4096 ∷ []
unfolding mm_init
started-large = refl

started-small : started.free_lists 0 ≡ 4224 ∷ []
unfolding mm_init
started-small = refl

malloc-ptr : (mm_malloc 24 started).0 ≡ 4104
unfolding size_to_order give find_from mm_init mm_malloc
malloc-ptr = refl

malloc-split : (mm_malloc_kernel 24 started).1.free_lists 2 ≡ 4160 ∷ []
unfolding size_to_order give find_from mm_init mm_malloc_kernel
malloc-split = refl

free-merged : (mm_free 4104 (mm_malloc 24 started).1).free_lists 3 ≡ 4096 ∷ []
unfolding size_to_order give find_from mm_init mm_malloc mm_free get_buddy
free-merged = refl

status-used :
    mm_status (mm_malloc 24 started).1 empty_status
    ≡ record { total = 144; free = 112; used = 32; used_kernel = 0; alloc_count = 1 }
unfolding size_to_order give find_from mm_init mm_malloc mm_status
status-used = refl

-- 2^64 - 1 wraps to 7 with the header.
malloc-wraps : (mm_malloc (2 ^ 64 - 1) started).0 ≡ 4232
unfolding size_to_order give find_from mm_init mm_malloc
malloc-wraps = refl

-- 128 bytes, free.
abbrev whole : Heap
whole = record {
  heap_base = 4096;
  heap_total = 128;
  alloc_count = 0;
  free_lists = λ i. if i == 3 then 4096 ∷ [] else [];
  headers = λ a. record { order = 7; is_free = true; is_kernel = false };
}

-- The heap as the kernel starts it: 8 MB at 0x600000.
abbrev booted : Heap
unfolding mm_init
booted = mm_init 6291456 8388608 blank

booted_block : FreeBlock booted 23 6291456
unfolding mm_init get_buddy flip
booted_block = record {
  above_base = omega arith;
  below_end = omega arith;
  aligned = λ j lt. omega (arith, zero-div (2 ^ j));
  has_order = refl;
  unmerged = λ c e. cc;
}

booted-FirstBlocks : FirstBlocks booted
unfolding mm_init
booted-FirstBlocks order b rest low high e = elim (ℕ_discrete order 23) [
  | yes same ↦
      let e' = subst (λ k. booted.free_lists (order_idx k) ≡ b ∷ rest) same e in
      let is_first : 6291456 ≡ b = cc in
      subst (λ k. FreeBlock booted k b) (sym same)
        (subst (λ c. FreeBlock booted 23 c) is_first booted_block)
  | no ne ↦ absurd (ground (arith, e, low, ne))
]

mm_free-malloc_impl_example :
    Restores (mm_free (malloc_impl 24 true booted).0 (malloc_impl 24 true booted).1) booted
unfolding mm_init malloc_impl size_to_order give find_from
mm_free-malloc_impl_example =
    mm_free-malloc_impl 24 true booted booted-FirstBlocks (omega arith) (omega arith)

abbrev upper : ℕ
upper = 4128

mm_status-counted_example :
    ((walk 128 0 whole empty_status).0 ≡ 128)
    × ((mm_status whole empty_status).total ≡ 128)
    × (counted (mm_status whole empty_status) ≡ (mm_status whole empty_status).total)
mm_status-counted_example =
    mm_status-counted whole empty_status (omega arith) (tiled_block 0 (omega arith) tiled_end)
