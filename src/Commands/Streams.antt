-- ===== src/Commands/Streams.antt =====
-- `cat` and `filter` of Userland/c/commands as functions of the text that arrives, however it is cut
-- into reads.
use mass_os.Prelude.{
  ltb, if◌then◌else◌, Bool-cases, Option-cases, length, get_or, filter_by, update, update_self,
  update-ne, slice, slice_ext, slice_snoc, slice-update, slice_shift, ℕ, zero, suc, ◌+◌, ◌≤◌, ◌≡◌,
  refl, sym, ap, ap₂, ◌∙◌, inl, inr, true, not, Option, none, some, List, [], ◌∷◌, ◌++◌,
  append_assoc, append-nil, arith, add-one,
}
use mass_os.Commands.{is_vowel, compact, filter_chunk, push_write, filter, cat}

-- The text up to the end of file, `none` where there is none.
abbrev pub received : List (Option (List ℕ)) → Option (List ℕ)
received [] = none
received (none ∷ reads) = received reads
received (some [] ∷ reads) = some []
received (some (c ∷ cs) ∷ reads) = elim (received reads) [
  | none ↦ none
  | some text ↦ some ((c ∷ cs) ++ text)
]

abbrev pub joined : List (List ℕ) → List ℕ
joined [] = []
joined (xs ∷ xss) = xs ++ joined xss

-- The text that was written.
abbrev pub output : Option (List (List ℕ)) → Option (List ℕ)
output none = none
output (some writes) = some (joined writes)

abbrev pub prepended : List ℕ → Option (List ℕ) → Option (List ℕ)
prepended xs none = none
prepended xs (some text) = some (xs ++ text)

output-push_write :
    (xs : List ℕ) (writes : Option (List (List ℕ)))
    → output (push_write xs writes) ≡ prepended xs (output writes)
output-push_write xs none = refl
output-push_write xs (some writes) = refl

pub received-prepended :
    (c : ℕ) (cs : List ℕ) (reads : List (Option (List ℕ)))
    → received (some (c ∷ cs) ∷ reads) ≡ prepended (c ∷ cs) (received reads)
received-prepended c cs reads = elim (Option-cases (received reads)) [
  | inl e ↦ rw e refl
  | inr e ↦ rw e.1 refl
]

-- `cat` writes the text that it reads.
pub cat_lem : (reads : List (Option (List ℕ))) → output (cat reads) ≡ received reads
unfolding cat
cat_lem [] = refl
cat_lem (none ∷ reads) = cat_lem reads
cat_lem (some [] ∷ reads) = refl
cat_lem (some (c ∷ cs) ∷ reads) =
    output-push_write (c ∷ cs) (cat reads)
    ∙ ap (prepended (c ∷ cs)) (cat_lem reads)
    ∙ sym (received-prepended c cs reads)

abbrev pub consonants : List ℕ → List ℕ
consonants text = filter_by (λ c. not (is_vowel c)) text

consonants-append : (xs ys : List ℕ) → consonants (xs ++ ys) ≡ consonants xs ++ consonants ys
consonants-append [] ys = refl
consonants-append (x ∷ xs) ys = elim (Bool-cases (is_vowel x)) [
  | inl e ↦ rw e (consonants-append xs ys)
  | inr e ↦ rw e (ap (◌∷◌ x) (consonants-append xs ys))
]

-- The loop in the buffer: what is at its front grows by the bytes that are kept.
compact_lem :
    (n i out_len : ℕ) (buf : ℕ → ℕ)
    → out_len ≤ i
    → let (len, written) = compact n i out_len buf in
      slice written 0 len ≡ slice buf 0 out_len ++ consonants (slice buf i n)
unfolding compact
compact_lem zero i out_len buf le = sym (append-nil (slice buf 0 out_len))
compact_lem (suc n) i out_len buf le = elim (Bool-cases (is_vowel (buf i))) [
  | inl e ↦ rw (e, compact) (compact_lem n (i + 1) out_len buf (omega arith))
  | inr e ↦
      let buf' = update buf out_len (buf i) in
      let front : slice buf' 0 (out_len + 1) ≡ slice buf 0 out_len ++ (buf i ∷ []) =
        ap (slice buf' 0) (add-one out_len)
        ∙ slice_snoc buf' 0 out_len
        ∙ ap₂ (λ l x. l ++ (x ∷ [])) (slice-update buf 0 out_len out_len (buf i) (omega arith))
            (ap buf' (omega arith) ∙ update_self buf out_len (buf i)) in
      let behind : slice buf' (i + 1) n ≡ slice buf (i + 1) n =
        slice_ext buf' buf (i + 1) n
          (λ j low high. update-ne buf out_len j (buf i) (ground arith)) in
      rw (e, compact)
        (compact_lem n (i + 1) (out_len + 1) buf' (omega arith)
          ∙ ap₂ (λ l r. l ++ consonants r) front behind
          ∙ append_assoc (slice buf 0 out_len) (buf i ∷ []) (consonants (slice buf (i + 1) n)))
]

next_entry : (b : ℕ) (bs : List ℕ) (i : ℕ) → get_or (b ∷ bs) (i + 1) 0 ≡ get_or bs i 0
next_entry b bs i = ap (λ j. get_or (b ∷ bs) j 0) (add-one i)

slice-get_or : (bytes : List ℕ) → slice (λ i. get_or bytes i 0) 0 (length bytes) ≡ bytes
slice-get_or [] = refl
slice-get_or (b ∷ bs) = ap (◌∷◌ b) (
    sym (slice_shift (λ i. get_or (b ∷ bs) i 0) 0 (length bs) 1)
    ∙ slice_ext _ (λ i. get_or bs i 0) 0 (length bs) (λ i low high. next_entry b bs i)
    ∙ slice-get_or bs)

filter_chunk_lem : (bytes : List ℕ) → filter_chunk bytes ≡ consonants bytes
unfolding filter_chunk
filter_chunk_lem bytes =
    compact_lem (length bytes) 0 0 (λ i. get_or bytes i 0) (omega arith)
    ∙ ap consonants (slice-get_or bytes)

prepended-nil : (text : Option (List ℕ)) → prepended [] text ≡ text
prepended-nil none = refl
prepended-nil (some text) = refl

output-filter :
    (kept : List ℕ) (rest : Option (List (List ℕ)))
    → output (if ltb 0 (length kept) then push_write kept rest else rest)
      ≡ prepended kept (output rest)
output-filter [] rest = sym (prepended-nil (output rest))
output-filter (c ∷ cs) rest =
    let some_bytes : ltb 0 (suc (length cs)) ≡ true = ground arith in
    rw some_bytes (output-push_write (c ∷ cs) rest)

abbrev pub filtered : Option (List ℕ) → Option (List ℕ)
filtered none = none
filtered (some text) = some (consonants text)

filtered-prepended :
    (xs : List ℕ) (text : Option (List ℕ))
    → prepended (consonants xs) (filtered text) ≡ filtered (prepended xs text)
filtered-prepended xs none = refl
filtered-prepended xs (some text) = ap some (sym (consonants-append xs text))

-- `filter` writes the text that it reads up to the end of file, without its vowels, however the text
-- is cut into reads.
pub filter_lem :
    (reads : List (Option (List ℕ))) → output (filter reads) ≡ filtered (received reads)
unfolding filter
filter_lem [] = refl
filter_lem (none ∷ reads) = filter_lem reads
filter_lem (some [] ∷ reads) = refl
filter_lem (some (c ∷ cs) ∷ reads) =
    output-filter (filter_chunk (c ∷ cs)) (filter reads)
    ∙ ap₂ prepended (filter_chunk_lem (c ∷ cs)) (filter_lem reads)
    ∙ filtered-prepended (c ∷ cs) (received reads)
    ∙ ap filtered (sym (received-prepended c cs reads))
