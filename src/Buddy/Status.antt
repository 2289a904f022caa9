-- ===== src/Buddy/Status.antt =====
-- The walk over the headers in `mm_status` of Kernel/c/memoryManager/memoryManagerBuddy.c.
use mass_os.Prelude.{lt→ltb, ℕ, zero, suc, ◌+◌, ◌^◌, ◌≤◌, ◌<◌, ◌≡◌, refl, ◌≢◌, arith}
use mass_os.Buddy.{BlockHdr, Heap, add_block, walk, mm_status}
use mass_os.Buddy.Orders.{two_pow_positive}
use mass_os.Memory.{MemStatus, empty_status}

-- From the offset on, the headers lead from block to block exactly to the end of the heap.
pub data Tiled (h : Heap) : ℕ → Type 0 where
  tiled_end : Tiled h h.heap_total
  tiled_block :
      (offset : ℕ)
      → offset < h.heap_total
      → Tiled h (offset + 2 ^ (h.headers (h.heap_base + offset)).order)
      → Tiled h offset

abbrev pub counted : MemStatus → ℕ
counted s = s.free + s.used + s.used_kernel

counted-add_block :
    (hdr : BlockHdr) (s : MemStatus) → counted (add_block hdr s) ≡ counted s + 2 ^ hdr.order
unfolding add_block
counted-add_block hdr s = ground arith

-- Enough rounds lead from the offset to the end.
walk-counted :
    (h : Heap) (offset : ℕ) (t : Tiled h offset) (n : ℕ) (s : MemStatus)
    → h.heap_total ≤ offset + n
    → ((walk n offset h s).0 ≡ h.heap_total)
      × (counted (walk n offset h s).1 + offset ≡ counted s + h.heap_total)
unfolding walk
walk-counted h offset tiled_end zero s le = (refl, refl)
walk-counted h offset tiled_end (suc n) s le = ground arith
walk-counted h _ (tiled_block offset lt t) zero s le = absurd (omega (arith, lt))
walk-counted h _ (tiled_block offset lt t) (suc n) s le =
    let hdr = h.headers (h.heap_base + offset) in
    let rest =
      walk-counted h (offset + 2 ^ hdr.order) t n (add_block hdr s)
        (omega (arith, two_pow_positive hdr.order)) in
    rw (lt→ltb offset h.heap_total lt) (rest.0, omega (arith, rest.1, counted-add_block hdr s))

-- While the headers lead exactly to the end of the heap, the walk of `mm_status` ends there, and
-- the free bytes, the bytes in use and those of the kernel add up to the total, which is the heap's
-- size.
pub mm_status-counted :
    (h : Heap) (status : MemStatus)
    → h.heap_base ≢ 0
    → Tiled h 0
    → ((walk h.heap_total 0 h empty_status).0 ≡ h.heap_total)
      × ((mm_status h status).total ≡ h.heap_total)
      × (counted (mm_status h status) ≡ (mm_status h status).total)
unfolding mm_status
mm_status-counted h status ne t = ground (arith, walk-counted h 0 t h.heap_total empty_status)
