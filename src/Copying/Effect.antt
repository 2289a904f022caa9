-- ===== src/Copying/Effect.antt =====
-- What `memset` and `memcpy` of Kernel/c/lib/lib.c leave in memory.
use mass_os.Prelude.{
  ltb, leb, ◌==◌, if◌then◌else◌, Bool-cases, update, update_self, update-ne, slice, slice_ext,
  slice_shift, ℕ, zero, suc, ◌+◌, ◌*◌, ◌/◌, ◌%◌, ◌≤◌, ◌<◌, ◌≡◌, refl, sym, ap, ◌∙◌, ◌⊎◌, inl, inr,
  ◌&&◌, arith, dec_lt,
}
use mass_os.Copying.{memset_loop, memset, copy_word, copy_words, copy_bytes, memcpy}

abbrev pub Disjoint : ℕ → ℕ → ℕ → ℕ → Type 0
Disjoint a n b m = (a + n ≤ b) ⊎ (b + m ≤ a)

-- Outside the destination nothing changes; at its `k`-th byte stands the source's.
copy_bytes-outside :
    (n i d s : ℕ) (memory : ℕ → ℕ) (j : ℕ)
    → Disjoint (d + i) n j 1
    → copy_bytes n i d s memory j ≡ memory j
unfolding copy_bytes
copy_bytes-outside zero i d s memory j away = refl
copy_bytes-outside (suc n) i d s memory j away =
    copy_bytes-outside n (i + 1) d s (update memory (d + i) (memory (s + i))) j (ground arith)
    ∙ update-ne memory (d + i) j (memory (s + i)) (ground arith)

copy_bytes-inside :
    (n i d s len : ℕ) (memory : ℕ → ℕ) (k : ℕ)
    → Disjoint d len s len
    → i + n ≡ len
    → i ≤ k
    → k < len
    → copy_bytes n i d s memory (d + k) ≡ memory (s + k)
unfolding copy_bytes
copy_bytes-inside zero i d s len memory k apart e low high = absurd (omega arith)
copy_bytes-inside (suc n) i d s len memory k apart e low high =
    let next = update memory (d + i) (memory (s + i)) in
    elim (dec_lt i k) [
      | yes later ↦
          copy_bytes-inside n (i + 1) d s len next k apart (omega arith) (omega arith) high
          ∙ update-ne memory (d + i) (s + k) (memory (s + i)) (ground arith)
      | no here ↦
          let same : k ≡ i = omega arith in
          copy_bytes-outside n (i + 1) d s next (d + k) (ground arith)
          ∙ ap (λ x. next (d + x)) same
          ∙ update_self memory (d + i) (memory (s + i))
          ∙ ap (λ x. memory (s + x)) (sym same)
    ]

copy_words-outside :
    (n i d s : ℕ) (memory : ℕ → ℕ) (j : ℕ)
    → Disjoint (d + 4 * i) (4 * n) j 1
    → copy_words n i d s memory j ≡ memory j
unfolding copy_words
copy_words-outside zero i d s memory j away = refl
copy_words-outside (suc n) i d s memory j away =
    copy_words-outside n (i + 1) d s (copy_word memory (d + 4 * i) (s + 4 * i)) j (ground arith)
    ∙ ground arith

copy_words-inside :
    (n i d s len : ℕ) (memory : ℕ → ℕ) (k : ℕ)
    → Disjoint d (4 * len) s (4 * len)
    → i + n ≡ len
    → 4 * i ≤ k
    → k < 4 * len
    → copy_words n i d s memory (d + k) ≡ memory (s + k)
unfolding copy_words
copy_words-inside zero i d s len memory k apart e low high = absurd (omega arith)
copy_words-inside (suc n) i d s len memory k apart e low high =
    let next = copy_word memory (d + 4 * i) (s + 4 * i) in
    elim (dec_lt k (4 * (i + 1))) [
      | no later ↦
          copy_words-inside n (i + 1) d s len next k apart (omega arith) (omega arith) high
          ∙ ground arith
      | yes here ↦ copy_words-outside n (i + 1) d s next (d + k) (ground arith) ∙ ground arith
    ]

-- `memcpy` puts the bytes of the source at the destination, where the two do not overlap, whether it
-- copies words or bytes, and changes nothing outside the destination.
pub memcpy_lem :
    (memory : ℕ → ℕ) (d s len k : ℕ)
    → Disjoint d len s len
    → (k < len → memcpy memory d s len (d + k) ≡ memory (s + k))
      × (Disjoint d len k 1 → memcpy memory d s len k ≡ memory k)
unfolding memcpy
memcpy_lem memory d s len k apart =
    elim (Bool-cases (d % 4 == 0 && (s % 4 == 0) && (len % 4 == 0))) [
      | inl aligned ↦ rw aligned (
        λ lt.
            copy_words-inside (len / 4) 0 d s (len / 4) memory k (ground arith) (omega arith)
              (omega arith) (ground arith),
        λ away. copy_words-outside (len / 4) 0 d s memory k (ground arith),
      )
      | inr other ↦ rw other (
        λ lt. copy_bytes-inside len 0 d s len memory k apart (omega arith) (omega arith) lt,
        λ away. copy_bytes-outside len 0 d s memory k (ground arith),
      )
    ]

pub memcpy-outside :
    (memory : ℕ → ℕ) (d s len k : ℕ)
    → Disjoint d len s len
    → Disjoint d len k 1
    → memcpy memory d s len k ≡ memory k
memcpy-outside memory d s len k apart away = (memcpy_lem memory d s len k apart).1 away

slice_from_front : (f : ℕ → ℕ) (a n : ℕ) → slice f a n ≡ slice (λ i. f (a + i)) 0 n
slice_from_front f a n =
    let same : a ≡ 0 + a = omega arith in
    ap (λ x. slice f x n) same
    ∙ sym (slice_shift f 0 n a)
    ∙ slice_ext (λ i. f (i + a)) (λ i. f (a + i)) 0 n (λ i low high. ap f (omega arith))

pub slice-memcpy :
    (memory : ℕ → ℕ) (d s len : ℕ)
    → Disjoint d len s len
    → slice (memcpy memory d s len) d len ≡ slice memory s len
slice-memcpy memory d s len apart =
    slice_from_front (memcpy memory d s len) d len
    ∙ slice_ext (λ i. memcpy memory d s len (d + i)) (λ i. memory (s + i)) 0 len
        (λ i low high. (memcpy_lem memory d s len i apart).0 (omega (arith, high)))
    ∙ sym (slice_from_front memory s len)

pub slice-memcpy-outside :
    (memory : ℕ → ℕ) (d s len a n : ℕ)
    → Disjoint d len s len
    → Disjoint d len a n
    → slice (memcpy memory d s len) a n ≡ slice memory a n
slice-memcpy-outside memory d s len a n apart away =
    slice_ext (memcpy memory d s len) memory a n
      (λ i low high. memcpy-outside memory d s len i apart (ground (arith, low, high)))

memset_loop_lem :
    (n d c : ℕ) (memory : ℕ → ℕ) (j : ℕ)
    → memset_loop n d c memory j ≡ (if leb d j && ltb j (d + n) then c else memory j)
unfolding memset_loop
memset_loop_lem zero d c memory j = ground arith
memset_loop_lem (suc n) d c memory j =
    memset_loop_lem n d c (update memory (d + n) c) j ∙ ground arith

-- `memset` fills its bytes with the low 8 bits of the value.
pub memset_lem :
    (memory : ℕ → ℕ) (d c len j : ℕ)
    → memset memory d c len j ≡ (if leb d j && ltb j (d + len) then c % 256 else memory j)
unfolding memset
memset_lem memory d c len j = memset_loop_lem len d (c % 256) memory j
