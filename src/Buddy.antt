-- ===== src/Buddy.antt =====
-- Kernel/c/memoryManager/memoryManagerBuddy.c: the buddy allocator. A block is its address, the
-- headers are a function of the address, and a free list is the list of its blocks.
mod Tests
pub mod Orders
pub mod Status
pub mod Split
pub mod Merge
pub mod Restore
pub mod RoundTrip
use mass_os.Prelude.{
  ltb, leb, ◌==◌, if◌then◌else◌, length, update, find_from, ℕ, zero, suc, ◌+◌, ◌-◌, ◌/◌, ◌%◌, ◌^◌,
  Bool, true, false, not, ◌&&◌, ◌||◌, Option, none, some, List, [], ◌∷◌,
}
use mass_os.Memory.{MemStatus, empty_status}

-- MIN_ORDER, MAX_ORDER, ORDERS and sizeof(BlockHdr)
abbrev pub min_order : ℕ
min_order = 4

abbrev pub max_order : ℕ
max_order = 23

abbrev pub orders : ℕ
orders = max_order - min_order + 1

abbrev pub header : ℕ
header = 8

pub record BlockHdr : Type 0 where
  pub order : ℕ
  pub is_free : Bool
  pub is_kernel : Bool

-- The static variables, and the headers in the heap.
pub record Heap : Type 0 where
  pub heap_base : ℕ
  pub heap_total : ℕ
  pub alloc_count : ℕ
  pub free_lists : ℕ → List ℕ
  pub headers : ℕ → BlockHdr

abbrev pub order_idx : ℕ → ℕ
order_idx order = order - min_order

-- The loop of `size_to_order`, `n` orders from `order` on.
pub order_from : ℕ → ℕ → ℕ → Option ℕ
order_from zero order size = none
order_from (suc n) order size =
    let rest = order_from n (order + 1) size in if ltb (2 ^ order) size then rest else some order

-- `none` for -1
pub size_to_order : ℕ → Option ℕ
unfolding order_from
size_to_order size = order_from orders min_order size

-- `offset ^ (1 << order)`
pub flip : ℕ → ℕ → ℕ
flip offset order = if offset / 2 ^ order % 2 == 0 then offset + 2 ^ order else offset - 2 ^ order

pub get_buddy : Heap → ℕ → ℕ → Option ℕ
unfolding flip
get_buddy h block order =
    let buddy_off = flip (block - h.heap_base) order in
    if ltb h.heap_total (buddy_off + 2 ^ order) then none else some (h.heap_base + buddy_off)

-- The block goes to the front of the list of its order.
abbrev pub push_block : Heap → ℕ → ℕ → Heap
push_block h order block = record h {
  free_lists = update h.free_lists (order_idx order) (block ∷ h.free_lists (order_idx order));
}

abbrev pub set_header : Heap → ℕ → BlockHdr → Heap
set_header h block hdr = record h { headers = update h.headers block hdr }

-- A new free block of that order.
abbrev pub add_free : Heap → ℕ → ℕ → Heap
add_free h order block =
    push_block (set_header h block (record { order = order; is_free = true; is_kernel = false }))
      order block

pub without : ℕ → List ℕ → List ℕ
without target [] = []
without target (c ∷ cs) = let rest = without target cs in if c == target then cs else c ∷ rest

pub list_remove : Heap → ℕ → ℕ → Heap
unfolding without
list_remove h order target = record h {
  free_lists =
      update h.free_lists (order_idx order) (without target (h.free_lists (order_idx order)));
}

-- One order of the loop of `mm_init`: the offset and the heap after it.
pub carve : ℕ → ℕ → ℕ → ℕ × Heap → ℕ × Heap
carve start size order (offset, h) =
    if ltb offset size && leb (offset + 2 ^ order) size
    then (offset + 2 ^ order, add_free h order (start + offset))
    else (offset, h)

-- The orders from `min_order + n - 1` down to `min_order`.
pub carve_down : ℕ → ℕ → ℕ → ℕ × Heap → ℕ × Heap
unfolding carve
carve_down zero start size s = s
carve_down (suc n) start size s = carve_down n start size (carve start size (min_order + n) s)

pub mm_init : ℕ → ℕ → Heap → Heap
unfolding carve_down
mm_init start size h =
    let empty = record h {
      heap_base = start;
      heap_total = size;
      alloc_count = 0;
      free_lists = λ i. if ltb i orders then [] else h.free_lists i;
    } in
    (carve_down orders start size (0, empty)).1

-- The loop `while(found > order)` of `malloc_impl`, for `found = order + n`.
pub split : ℕ → ℕ → ℕ → Heap → Heap
split order zero block h = h
split order (suc n) block h =
    let found = order + n in
    let h' = add_free h found (block + 2 ^ found) in
    split order n block (set_header h' block (record (h'.headers block) { order = found }))

abbrev pub has_block : Heap → ℕ → Bool
has_block h order = not (length (h.free_lists (order_idx order)) == 0)

-- The block `block` of order `found` is given out at `order`.
pub give : ℕ → ℕ → Bool → ℕ → List ℕ → Heap → ℕ × Heap
unfolding split
give order found kernel block rest h =
    let taken = record h { free_lists = update h.free_lists (order_idx found) rest } in
    let h' = split order (found - order) block taken in
    let marked =
      set_header h' block (record (h'.headers block) { is_free = false; is_kernel = kernel }) in
    (
      block + header,
      if kernel then marked else record marked { alloc_count = (marked.alloc_count + 1) % 2 ^ 64 },
    )

-- The result is 0 for NULL. A list on which `has_block` holds has a first block.
pub malloc_impl : ℕ → Bool → Heap → ℕ × Heap
malloc_impl size kernel h =
    if size == 0 || (h.heap_base == 0)
    then (0, h)
    else elim (size_to_order ((size + header) % 2 ^ 64)) [
      | none ↦ (0, h)
      | some order ↦ elim (find_from (has_block h) (max_order + 1 - order) order) [
        | none ↦ (0, h)
        | some found ↦ elim (h.free_lists (order_idx found)) [
          | [] ↦ (0, h)
          | block ∷ rest ↦ give order found kernel block rest h
        ]
      ]
    ]

pub mm_malloc : ℕ → Heap → ℕ × Heap
unfolding malloc_impl
mm_malloc size h = malloc_impl size false h

pub mm_malloc_kernel : ℕ → Heap → ℕ × Heap
unfolding malloc_impl
mm_malloc_kernel size h = malloc_impl size true h

-- The loop of `mm_free`, at most `n` rounds: the merged block, its order, and the heap.
pub coalesce : ℕ → ℕ → ℕ → Heap → ℕ × ℕ × Heap
unfolding list_remove
coalesce zero block order h = (block, order, h)
coalesce (suc n) block order h = elim (get_buddy h block order) [
  | none ↦ (block, order, h)
  | some buddy ↦
      let merged = if ltb buddy block then buddy else block in
      let removed = list_remove h order buddy in
      let up = set_header removed merged (record (removed.headers merged) { order = order + 1 }) in
      let rest = coalesce n merged (order + 1) up in
      if not (h.headers buddy).is_free || not ((h.headers buddy).order == order)
      then (block, order, h)
      else rest
]

pub mm_free : ℕ → Heap → Heap
unfolding coalesce
mm_free ptr h =
    if ptr == 0
    then h
    else (let block = ptr - header in
        let hdr = h.headers block in
        let count =
          if hdr.is_kernel then h.alloc_count else (h.alloc_count + 2 ^ 64 - 1) % 2 ^ 64 in
        let freed = record (set_header h block (record hdr { is_free = true })) {
          alloc_count = count;
        } in
        let (merged, order, h') = coalesce (max_order - hdr.order) block hdr.order freed in
        push_block h' order merged)

-- One block's share of the totals.
pub add_block : BlockHdr → MemStatus → MemStatus
add_block hdr s =
    let bsz = 2 ^ hdr.order in
    if hdr.is_free
    then record s { free = s.free + bsz }
    else if hdr.is_kernel
    then record s { used_kernel = s.used_kernel + bsz }
    else record s { used = s.used + bsz }

-- The walk of `mm_status` from the offset, with at most `n` blocks: the offset where it stops and
-- the totals.
pub walk : ℕ → ℕ → Heap → MemStatus → ℕ × MemStatus
unfolding add_block
walk zero offset h s = (offset, s)
walk (suc n) offset h s =
    let hdr = h.headers (h.heap_base + offset) in
    let rest = walk n (offset + 2 ^ hdr.order) h (add_block hdr s) in
    if ltb offset h.heap_total then rest else (offset, s)

-- A block has at least one byte, so `heap_total` rounds are enough.
pub mm_status : Heap → MemStatus → MemStatus
unfolding walk
mm_status h status =
    if h.heap_base == 0
    then status
    else (let (offset, s) = walk h.heap_total 0 h empty_status in
        record s { total = h.heap_total; alloc_count = h.alloc_count })
