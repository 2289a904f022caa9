-- ===== src/FirstFit.antt =====
-- Kernel/c/memoryManager/memoryManagerFF.c: the first-fit allocator. The linked list of headers is
-- the list of blocks from `heap_start` on; each block carries the address of its header, and
-- `block->next` is the block that follows in the list. A pointer given out is 24 bytes past it.
pub mod Tiling
pub mod Allocation
pub mod Coalescing
pub mod RoundTrip
mod Tests
use mass_os.Prelude.{
  leb, ◌==◌, if◌then◌else◌, ℕ, ◌+◌, ◌-◌, ◌*◌, ◌/◌, ◌%◌, ◌^◌, Bool, true, false, ◌&&◌, Option, none,
  some, List, [], ◌∷◌, ◌++◌,
}
use mass_os.Memory.{MemStatus, empty_status}

-- sizeof(MemBlock)
abbrev pub header : ℕ
header = 24

abbrev pub min_split : ℕ
min_split = header + 8

pub record MemBlock : Type 0 where
  pub address : ℕ
  pub size : ℕ
  pub is_free : Bool
  pub is_kernel : Bool

pub mm_init : ℕ → ℕ → List MemBlock → List MemBlock
mm_init start size heap =
    if leb size header
    then heap
    else record { address = start; size = size - header; is_free = true; is_kernel = false } ∷ []

-- `(size + 7) & ~7` on 64 bits
pub align : ℕ → ℕ
align size = (size + 7) % 2 ^ 64 / 8 * 8

-- The block that is given out, and what the split leaves behind it.
pub take_block : MemBlock → ℕ → Bool → List MemBlock
take_block b size kernel =
    if leb (size + min_split) b.size
    then record b { size = size; is_free = false; is_kernel = kernel }
      ∷ record {
        address = b.address + header + size;
        size = b.size - size - header;
        is_free = true;
        is_kernel = false;
      }
      ∷ []
    else record b { is_free = false; is_kernel = kernel } ∷ []

-- The loop of `malloc_impl`: the pointer, 0 for NULL, and the list after it.
pub first_fit : List MemBlock → ℕ → Bool → ℕ × List MemBlock
unfolding take_block
first_fit [] size kernel = (0, [])
first_fit (b ∷ bs) size kernel =
    let (ptr, rest) = first_fit bs size kernel in
    if b.is_free && leb size b.size
    then (b.address + header, take_block b size kernel ++ bs)
    else (ptr, b ∷ rest)

pub malloc_impl : ℕ → Bool → List MemBlock → ℕ × List MemBlock
unfolding align first_fit
malloc_impl size kernel heap = if size == 0 then (0, heap) else first_fit heap (align size) kernel

pub mm_malloc : ℕ → List MemBlock → ℕ × List MemBlock
unfolding malloc_impl
mm_malloc size heap = malloc_impl size false heap

pub mm_malloc_kernel : ℕ → List MemBlock → ℕ × List MemBlock
unfolding malloc_impl
mm_malloc_kernel size heap = malloc_impl size true heap

-- Forward coalescing: the blocks after `b`, with the free ones at the front absorbed.
pub absorb : MemBlock → List MemBlock → List MemBlock
absorb b [] = b ∷ []
absorb b (n ∷ bs) =
    let merged = absorb (record b { size = b.size + (header + n.size) }) bs in
    if n.is_free then merged else b ∷ n ∷ bs

-- Backward coalescing of the block at the head of the second list into its predecessor.
pub join : MemBlock → List MemBlock → List MemBlock
join prev [] = prev ∷ []
join prev (b ∷ bs) =
    if prev.is_free
    then record prev { size = prev.size + (header + b.size) } ∷ bs
    else prev ∷ b ∷ bs

-- `none` for a pointer to no block of the list, which the source does not detect.
pub free_after : MemBlock → List MemBlock → ℕ → Option (List MemBlock)
unfolding absorb join
free_after prev [] block = none
free_after prev (b ∷ bs) block =
    let later = free_after b bs block in
    if b.address == block
    then some (join prev (absorb (record b { is_free = true }) bs))
    else elim later [ none ↦ none | some rest ↦ some (prev ∷ rest) ]

-- The first block has no predecessor.
pub free_block : List MemBlock → ℕ → Option (List MemBlock)
unfolding absorb free_after
free_block [] block = none
free_block (b ∷ bs) block =
    if b.address == block
    then some (absorb (record b { is_free = true }) bs)
    else free_after b bs block

pub mm_free : ℕ → List MemBlock → Option (List MemBlock)
unfolding free_block
mm_free ptr heap = if ptr == 0 then some heap else free_block heap (ptr - header)

-- One block's share of the totals.
pub add_block : MemStatus → MemBlock → MemStatus
add_block s b =
    let bsz = b.size + header in
    if b.is_free
    then record s { total = s.total + bsz; free = s.free + bsz }
    else if b.is_kernel
    then record s { total = s.total + bsz; used_kernel = s.used_kernel + bsz }
    else record s { total = s.total + bsz; used = s.used + bsz; alloc_count = s.alloc_count + 1 }

pub status_from : MemStatus → List MemBlock → MemStatus
unfolding add_block
status_from s [] = s
status_from s (b ∷ bs) = status_from (add_block s b) bs

pub mm_status : List MemBlock → MemStatus
unfolding status_from
mm_status heap = status_from empty_status heap
