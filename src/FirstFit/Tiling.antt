-- ===== src/FirstFit/Tiling.antt =====
-- How the blocks of the heap of Kernel/c/memoryManager/memoryManagerFF.c lie in memory, under
-- allocation and release, and the totals of `mm_status` over them.
use mass_os.Prelude.{
  leb, ◌==◌, leb→le, &&_parts, Bool-cases, Option-cases, some_eq, ℕ, ◌+◌, ◌≤◌, ◌≡◌, refl, subst,
  inl, inr, Bool, true, ◌&&◌, some, List, [], ◌∷◌, ◌++◌, arith,
}
use mass_os.FirstFit.{
  header, min_split, MemBlock, take_block, first_fit, absorb, join, free_after, free_block,
  add_block, status_from, mm_status,
}
use mass_os.Memory.{MemStatus, empty_status}

-- The blocks lie one behind the other from the first address to the second.
abbrev pub Tiles : ℕ → List MemBlock → ℕ → Type 0
Tiles start [] end = start ≡ end
Tiles start (b ∷ bs) end = (b.address ≡ start) × Tiles (b.address + header + b.size) bs end

Tiles-take_block :
    (b : MemBlock) (size : ℕ) (kernel : Bool) (bs : List MemBlock) (start end : ℕ)
    → Tiles start (b ∷ bs) end
    → size ≤ b.size
    → Tiles start (take_block b size kernel ++ bs) end
unfolding take_block
Tiles-take_block b size kernel bs start end t le =
    elim (Bool-cases (leb (size + min_split) b.size)) [
      | inl e ↦ rw e (
        t.0,
        (refl, subst (λ p. Tiles p bs end) (omega (arith, leb→le (size + min_split) b.size e)) t.1),
      )
      | inr e ↦ rw e t
    ]

-- An allocation keeps the tiling.
pub Tiles-first_fit :
    (heap : List MemBlock) (size : ℕ) (kernel : Bool) (start end : ℕ)
    → Tiles start heap end
    → Tiles start (first_fit heap size kernel).1 end
unfolding first_fit
Tiles-first_fit [] size kernel start end t = t
Tiles-first_fit (b ∷ bs) size kernel start end t =
    elim (Bool-cases (b.is_free && leb size b.size)) [
      | inl e ↦ rw e (
          Tiles-take_block b size kernel bs start end t
            (leb→le size b.size (&&_parts b.is_free (leb size b.size) e).1))
      | inr e ↦ rw e (t.0, Tiles-first_fit bs size kernel (b.address + header + b.size) end t.1)
    ]

Tiles-absorb :
    (b : MemBlock) (bs : List MemBlock) (start end : ℕ)
    → Tiles start (b ∷ bs) end
    → Tiles start (absorb b bs) end
unfolding absorb
Tiles-absorb b [] start end t = t
Tiles-absorb b (n ∷ bs) start end t = elim (Bool-cases n.is_free) [
  | inl e ↦ rw e (
      Tiles-absorb (record b { size = b.size + (header + n.size) }) bs start end
        (t.0, subst (λ p. Tiles p bs end) (omega arith) t.1.1))
  | inr e ↦ rw e t
]

Tiles-join :
    (prev : MemBlock) (bs : List MemBlock) (start end : ℕ)
    → Tiles start (prev ∷ bs) end
    → Tiles start (join prev bs) end
unfolding join
Tiles-join prev [] start end t = t
Tiles-join prev (b ∷ bs) start end t = elim (Bool-cases prev.is_free) [
  | inl e ↦ rw e (t.0, subst (λ p. Tiles p bs end) (omega arith) t.1.1)
  | inr e ↦ rw e t
]

Tiles-free_after :
    (prev : MemBlock) (heap : List MemBlock) (block start end : ℕ) {heap' : List MemBlock}
    → Tiles start (prev ∷ heap) end
    → free_after prev heap block ≡ some heap'
    → Tiles start heap' end
unfolding free_after
Tiles-free_after prev [] block start end t e = cc
Tiles-free_after prev (b ∷ bs) block start end {heap'} t e =
    elim (Bool-cases (b.address == block)) [
      | inl here ↦
          subst (λ l. Tiles start l end) (some_eq (rw here at e))
            (Tiles-join prev (absorb (record b { is_free = true }) bs) start end (
              t.0,
              Tiles-absorb (record b { is_free = true }) bs (prev.address + header + prev.size) end
                  t.1,
            ))
      | inr away ↦ elim (Option-cases (free_after b bs block)) [
        | inl lost ↦ cc (rw (away, lost, free_after) at e)
        | inr (rest, found) ↦
            subst (λ l. Tiles start l end) (some_eq (rw (away, found) at e))
              (t.0, Tiles-free_after b bs block (prev.address + header + prev.size) end t.1 found)
      ]
    ]

-- Releasing a block keeps the tiling.
pub Tiles-free_block :
    (heap : List MemBlock) (block start end : ℕ) {heap' : List MemBlock}
    → Tiles start heap end
    → free_block heap block ≡ some heap'
    → Tiles start heap' end
unfolding free_block
Tiles-free_block [] block start end t e = cc
Tiles-free_block (b ∷ bs) block start end t e = elim (Bool-cases (b.address == block)) [
  | inl here ↦
      subst (λ l. Tiles start l end) (some_eq (rw here at e))
        (Tiles-absorb (record b { is_free = true }) bs start end t)
  | inr away ↦ Tiles-free_after b bs block start end t (rw away at e)
]

-- The totals over the rest of the list, from any totals so far.
status_from_adds :
    (s : MemStatus) (heap : List MemBlock) (start end : ℕ)
    → Tiles start heap end
    → ((status_from s heap).total + start ≡ s.total + end)
      × ((status_from s heap).total + (s.free + s.used + s.used_kernel)
          ≡ s.total
            + ((status_from s heap).free
                + (status_from s heap).used
                + (status_from s heap).used_kernel))
unfolding status_from add_block
status_from_adds s [] start end t = omega arith
status_from_adds s (b ∷ bs) start end t =
    ground (arith, status_from_adds (add_block s b) bs (b.address + header + b.size) end t.1)

-- In a heap that its blocks tile, the total of `mm_status` is the size of the heap, and it is the
-- sum of the free bytes, the user's and the kernel's.
pub mm_status_totals :
    (heap : List MemBlock) (start end : ℕ)
    → Tiles start heap end
    → ((mm_status heap).total + start ≡ end)
      × ((mm_status heap).total
          ≡ (mm_status heap).free + (mm_status heap).used + (mm_status heap).used_kernel)
unfolding mm_status
mm_status_totals heap start end t = omega (arith, status_from_adds empty_status heap start end t)
