-- ===== src/FirstFit/Coalescing.antt =====
-- Neighbouring free blocks in the heap of Kernel/c/memoryManager/memoryManagerFF.c, under
-- allocation and release.
use mass_os.Prelude.{
  leb, ◌==◌, if◌then◌else◌, &&_parts, Bool-cases, Option-cases, some_eq, ℕ, ◌+◌, ◌-◌, ◌≡◌, refl,
  sym, ap, subst, ◌∙◌, inl, inr, Bool, true, false, ◌&&◌, some, List, [], ◌∷◌, ◌++◌, arith,
}
use mass_os.FirstFit.{
  header, min_split, MemBlock, take_block, first_fit, absorb, join, free_after, free_block,
}

-- No two neighbours are both free.
abbrev pub Coalesced : List MemBlock → Type 0
Coalesced [] = Unit
Coalesced (b ∷ []) = Unit
Coalesced (b ∷ c ∷ bs) = ((b.is_free && c.is_free) ≡ false) × Coalesced (c ∷ bs)

Coalesced-tail : (b : MemBlock) (bs : List MemBlock) → Coalesced (b ∷ bs) → Coalesced bs
Coalesced-tail b [] h = tt
Coalesced-tail b (c ∷ bs) h = h.1

pub Coalesced-drop : (before heap : List MemBlock) → Coalesced (before ++ heap) → Coalesced heap
Coalesced-drop [] heap h = h
Coalesced-drop (b ∷ before) heap h =
    Coalesced-drop before heap (Coalesced-tail b (before ++ heap) h)

-- A coalesced list with a first block that is as free as the given one.
record Headed (b : MemBlock) (heap : List MemBlock) : Type 0 where
  first : MemBlock
  rest : List MemBlock
  shape : heap ≡ first ∷ rest
  same : first.is_free ≡ b.is_free
  coalesced : Coalesced (first ∷ rest)

absorb-Headed :
    (b : MemBlock) (bs : List MemBlock) → b.is_free ≡ true → Coalesced bs → Headed b (absorb b bs)
unfolding absorb
absorb-Headed b [] f h = record { first = b; rest = []; shape = refl; same = refl; coalesced = tt }
absorb-Headed b (n ∷ bs) f h = elim (Bool-cases n.is_free) [
  | inl e ↦
      let r =
        absorb-Headed (record b { size = b.size + (header + n.size) }) bs f
          (Coalesced-tail n bs h) in
      record {
        first = r.first;
        rest = r.rest;
        shape =
            ap
              (λ f.
                if f
                then absorb (record b { size = b.size + (header + n.size) }) bs
                else b ∷ n ∷ bs)
              e
            ∙ r.shape;
        same = r.same;
        coalesced = r.coalesced;
      }
  | inr e ↦ record {
    first = b;
    rest = n ∷ bs;
    shape = rw e;
    same = refl;
    coalesced = (ground arith, h);
  }
]

pub Coalesced-swap_head :
    (b c : MemBlock) (bs : List MemBlock)
    → b.is_free ≡ c.is_free
    → Coalesced (b ∷ bs)
    → Coalesced (c ∷ bs)
Coalesced-swap_head b c [] e h = tt
Coalesced-swap_head b c (d ∷ bs) e h = (ground (arith, h.0), h.1)

join-Headed :
    (prev b : MemBlock) (bs : List MemBlock)
    → b.is_free ≡ true
    → Coalesced (b ∷ bs)
    → Headed prev (join prev (b ∷ bs))
unfolding join
join-Headed prev b bs f h = elim (Bool-cases prev.is_free) [
  | inl e ↦ record {
    first = record prev { size = prev.size + (header + b.size) };
    rest = bs;
    shape = rw e;
    same = refl;
    coalesced =
        Coalesced-swap_head b (record prev { size = prev.size + (header + b.size) }) bs (f ∙ sym e)
          h;
  }
  | inr e ↦ record {
    first = prev;
    rest = b ∷ bs;
    shape = rw e;
    same = refl;
    coalesced = (ground arith, h);
  }
]

free_after-Headed :
    (prev : MemBlock) (heap : List MemBlock) (block : ℕ) {heap' : List MemBlock}
    → Coalesced (prev ∷ heap)
    → free_after prev heap block ≡ some heap'
    → Headed prev heap'
unfolding free_after
free_after-Headed prev [] block h e = cc
free_after-Headed prev (b ∷ bs) block {heap'} h e = elim (Bool-cases (b.address == block)) [
  | inl here ↦
      let r = absorb-Headed (record b { is_free = true }) bs refl (Coalesced-tail b bs h.1) in
      subst (Headed prev) (some_eq (rw here at e))
        (rw r.shape (join-Headed prev r.first r.rest r.same r.coalesced))
  | inr away ↦ elim (Option-cases (free_after b bs block)) [
    | inl lost ↦ cc (rw (away, lost, free_after) at e)
    | inr (l, found) ↦
        let r = free_after-Headed b bs block h.1 found in
        record {
          first = prev;
          rest = r.first ∷ r.rest;
          shape = sym (some_eq (rw (away, found) at e)) ∙ ap (◌∷◌ prev) r.shape;
          same = refl;
          coalesced = (ground (arith, h.0, r.same), r.coalesced);
        }
  ]
]

-- Freeing a block of a heap with no two free neighbours leaves such a heap.
pub Coalesced-free_block :
    (heap : List MemBlock) (block : ℕ) {heap' : List MemBlock}
    → Coalesced heap
    → free_block heap block ≡ some heap'
    → Coalesced heap'
unfolding free_block
Coalesced-free_block [] block h e = cc
Coalesced-free_block (b ∷ bs) block h e = elim (Bool-cases (b.address == block)) [
  | inl here ↦
      let r = absorb-Headed (record b { is_free = true }) bs refl (Coalesced-tail b bs h) in
      subst Coalesced (sym r.shape ∙ some_eq (rw here at e)) r.coalesced
  | inr away ↦
      let r = free_after-Headed b bs block h (rw away at e) in
      subst Coalesced (sym r.shape) r.coalesced
]

take_block-Coalesced :
    (b : MemBlock) (size : ℕ) (kernel : Bool) (bs : List MemBlock)
    → b.is_free ≡ true
    → Coalesced (b ∷ bs)
    → Coalesced (take_block b size kernel ++ bs)
unfolding take_block
take_block-Coalesced b size kernel [] f h = elim (Bool-cases (leb (size + min_split) b.size)) [
  | inl e ↦ rw e (refl, tt)
  | inr e ↦ rw e tt
]
take_block-Coalesced b size kernel (c ∷ bs) f h =
    elim (Bool-cases (leb (size + min_split) b.size)) [
      | inl e ↦ rw e (refl, (ground (arith, h.0), h.1))
      | inr e ↦ rw e (refl, h.1)
    ]

-- The search leaves the first block as it is, or makes it an allocated one.
first_fit-first :
    (c : MemBlock) (bs : List MemBlock) (size : ℕ) (kernel : Bool)
    → (d : MemBlock) × (ds : List MemBlock) × ((first_fit (c ∷ bs) size kernel).1 ≡ d ∷ ds)
      × ((d.is_free && c.is_free) ≡ d.is_free)
unfolding first_fit take_block
first_fit-first c bs size kernel = elim (Bool-cases (c.is_free && leb size c.size)) [
  | inl e ↦ elim (Bool-cases (leb (size + min_split) c.size)) [
    | inl big ↦ (
      record c { size = size; is_free = false; is_kernel = kernel },
      record {
        address = c.address + header + size;
        size = c.size - size - header;
        is_free = true;
        is_kernel = false;
      }
          ∷ bs,
      rw (e, big) refl,
      refl,
    )
    | inr small ↦ (record c { is_free = false; is_kernel = kernel }, bs, rw (e, small) refl, refl)
  ]
  | inr e ↦ (c, (first_fit bs size kernel).1, rw e, ground arith)
]

-- Allocating in a heap with no two free neighbours leaves such a heap.
pub Coalesced-first_fit :
    (heap : List MemBlock) (size : ℕ) (kernel : Bool)
    → Coalesced heap
    → Coalesced (first_fit heap size kernel).1
unfolding first_fit
Coalesced-first_fit [] size kernel h = tt
Coalesced-first_fit (b ∷ []) size kernel h = elim (Bool-cases (b.is_free && leb size b.size)) [
  | inl e ↦
      rw e (take_block-Coalesced b size kernel [] (&&_parts b.is_free (leb size b.size) e).0 h)
  | inr e ↦ rw e tt
]
Coalesced-first_fit (b ∷ c ∷ bs) size kernel h = elim (Bool-cases (b.is_free && leb size b.size)) [
  | inl e ↦
      rw e
        (take_block-Coalesced b size kernel (c ∷ bs) (&&_parts b.is_free (leb size b.size) e).0 h)
  | inr e ↦
      let (d, ds, shape, kept) = first_fit-first c bs size kernel in
      let rest : Coalesced (d ∷ ds) =
        subst Coalesced shape (Coalesced-first_fit (c ∷ bs) size kernel h.1) in
      rw e (subst (λ l. Coalesced (b ∷ l)) (sym shape) (ground (arith, h.0), rest))
]

absorb_blocked :
    (b : MemBlock) (bs : List MemBlock)
    → b.is_free ≡ true
    → Coalesced (b ∷ bs)
    → absorb b bs ≡ b ∷ bs
unfolding absorb
absorb_blocked b [] f h = refl
absorb_blocked b (c ∷ bs) f h = ground (arith, h.0)
