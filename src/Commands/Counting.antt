-- ===== src/Commands/Counting.antt =====
-- The counts of `wc` of Userland/c/commands/wc.c against lines, words and bytes of the text.
use mass_os.Prelude.{
  ◌==◌, if◌then◌else◌, Bool-cases, Option-cases, length, occurrences, ℕ, ◌+◌, ◌%◌, ◌^◌, ◌<◌, ◌≡◌,
  refl, sym, ap, ap₂, ◌∙◌, inl, inr, Bool, not, Option, none, some, List, [], ◌∷◌, ◌++◌, arith,
}
use mass_os.Commands.{
  is_space, WcState, count_byte, count_bytes, wc_from, nothing_counted, report, wc,
}
use mass_os.Commands.Streams.{received, prepended, received-prepended}
use mass_os.Words.{words, word_starts, length-words}

count_bytes-append :
    (xs ys : List ℕ) (s : WcState) → count_bytes (xs ++ ys) s ≡ count_bytes ys (count_bytes xs s)
unfolding count_bytes
count_bytes-append [] ys s = refl
count_bytes-append (x ∷ xs) ys s = count_bytes-append xs ys (count_byte s x)

abbrev counted : WcState → Option (List ℕ) → Option WcState
counted s none = none
counted s (some text) = some (count_bytes text s)

counted-prepended :
    (xs : List ℕ) (s : WcState) (text : Option (List ℕ))
    → counted (count_bytes xs s) text ≡ counted s (prepended xs text)
counted-prepended xs s none = refl
counted-prepended xs s (some text) = ap some (sym (count_bytes-append xs text s))

-- The loop over the reads counts the whole text.
wc_from_lem :
    (reads : List (Option (List ℕ))) (s : WcState) → wc_from reads s ≡ counted s (received reads)
unfolding wc_from count_bytes
wc_from_lem [] s = refl
wc_from_lem (none ∷ reads) s = wc_from_lem reads s
wc_from_lem (some [] ∷ reads) s = refl
wc_from_lem (some (c ∷ cs) ∷ reads) s =
    wc_from_lem reads (count_bytes (c ∷ cs) s)
    ∙ counted-prepended (c ∷ cs) s (received reads)
    ∙ ap (counted s) (sym (received-prepended c cs reads))

record InRange (s : WcState) : Type 0 where
  lines_in : s.lines < 2 ^ 64
  words_in : s.words_seen < 2 ^ 64
  bytes_in : s.bytes < 2 ^ 64

in_range : (s : WcState) (c : ℕ) → InRange s → InRange (count_byte s c)
unfolding count_byte
in_range s c v = record {
  lines_in = ground (arith, v.lines_in);
  words_in = ground (arith, v.words_in);
  bytes_in = ground (arith, v.bytes_in);
}

lines-count_byte :
    (s : WcState) (c : ℕ)
    → InRange s
    → (count_byte s c).lines ≡ (s.lines + (if c == 10 then 1 else 0)) % 2 ^ 64
unfolding count_byte
lines-count_byte s c v = ground (arith, v.lines_in)

words_seen-count_byte :
    (s : WcState) (c : ℕ)
    → InRange s
    → (count_byte s c).words_seen
      ≡ (s.words_seen + (if is_space c then 0 else if s.in_word then 0 else 1)) % 2 ^ 64
unfolding count_byte
words_seen-count_byte s c v = ground (arith, v.words_in)

bytes-count_byte : (s : WcState) (c : ℕ) → (count_byte s c).bytes ≡ (s.bytes + 1) % 2 ^ 64
unfolding count_byte
bytes-count_byte s c = ground arith

in_word-count_byte : (s : WcState) (c : ℕ) → (count_byte s c).in_word ≡ not (is_space c)
unfolding count_byte
in_word-count_byte s c = ground arith

added_mod : (a b c : ℕ) → ((a + b) % 2 ^ 64 + c) % 2 ^ 64 ≡ (a + (b + c)) % 2 ^ 64
added_mod a b c = omega arith

lines-count_bytes :
    (text : List ℕ) (s : WcState)
    → InRange s
    → (count_bytes text s).lines ≡ (s.lines + occurrences 10 text) % 2 ^ 64
unfolding count_bytes
lines-count_bytes [] s v = omega (arith, v.lines_in)
lines-count_bytes (c ∷ cs) s v =
    lines-count_bytes cs (count_byte s c) (in_range s c v)
    ∙ ap (λ n. (n + occurrences 10 cs) % 2 ^ 64) (lines-count_byte s c v)
    ∙ added_mod s.lines (if c == 10 then 1 else 0) (occurrences 10 cs)

bytes-count_bytes :
    (text : List ℕ) (s : WcState)
    → InRange s
    → (count_bytes text s).bytes ≡ (s.bytes + length text) % 2 ^ 64
unfolding count_bytes
bytes-count_bytes [] s v = omega (arith, v.bytes_in)
bytes-count_bytes (c ∷ cs) s v =
    bytes-count_bytes cs (count_byte s c) (in_range s c v)
    ∙ ap (λ n. (n + length cs) % 2 ^ 64) (bytes-count_byte s c)
    ∙ omega arith

word_starts-next :
    (inside : Bool) (c : ℕ) (cs : List ℕ)
    → word_starts is_space inside (c ∷ cs)
      ≡ (if is_space c then 0 else if inside then 0 else 1)
        + word_starts is_space (not (is_space c)) cs
word_starts-next inside c cs = elim (Bool-cases (is_space c)) [
  | inl e ↦ rw e (omega arith)
  | inr e ↦ rw e refl
]

words_seen-count_bytes :
    (text : List ℕ) (s : WcState)
    → InRange s
    → (count_bytes text s).words_seen
      ≡ (s.words_seen + word_starts is_space s.in_word text) % 2 ^ 64
unfolding count_bytes
words_seen-count_bytes [] s v = omega (arith, v.words_in)
words_seen-count_bytes (c ∷ cs) s v =
    words_seen-count_bytes cs (count_byte s c) (in_range s c v)
    ∙ ap₂ (λ n b. (n + word_starts is_space b cs) % 2 ^ 64) (words_seen-count_byte s c v)
        (in_word-count_byte s c)
    ∙ added_mod s.words_seen (if is_space c then 0 else if s.in_word then 0 else 1)
        (word_starts is_space (not (is_space c)) cs)
    ∙ ap (λ n. (s.words_seen + n) % 2 ^ 64) (sym (word_starts-next s.in_word c cs))

-- The report on a text: newlines, runs of other bytes than white space, bytes.
abbrev pub summary : Option (List ℕ) → Option (List ℕ)
summary none = none
summary (some text) = some (
    report (occurrences 10 text % 2 ^ 64) (length (words is_space text) % 2 ^ 64)
      (length text % 2 ^ 64))

abbrev reported : Option WcState → Option (List ℕ)
reported none = none
reported (some s) = some (report s.lines s.words_seen s.bytes)

wc-reported : (reads : List (Option (List ℕ))) → wc reads ≡ reported (wc_from reads nothing_counted)
unfolding wc
wc-reported reads = elim (Option-cases (wc_from reads nothing_counted)) [
  | inl e ↦ rw (e, wc) refl
  | inr e ↦ rw (e.1, wc) refl
]

summary-counted : (text : Option (List ℕ)) → reported (counted nothing_counted text) ≡ summary text
summary-counted none = refl
summary-counted (some text) =
    let v : InRange nothing_counted = record {
      lines_in = omega arith;
      words_in = omega arith;
      bytes_in = omega arith;
    } in
    let counts = count_bytes text nothing_counted in
    let lines : counts.lines ≡ occurrences 10 text % 2 ^ 64 =
      lines-count_bytes text nothing_counted v ∙ omega arith in
    let seen : counts.words_seen ≡ length (words is_space text) % 2 ^ 64 =
      words_seen-count_bytes text nothing_counted v
      ∙ ap (λ n. n % 2 ^ 64) (omega arith ∙ sym (length-words is_space text)) in
    let bytes : counts.bytes ≡ length text % 2 ^ 64 =
      bytes-count_bytes text nothing_counted v ∙ omega arith in
    ap (λ l. some (report l counts.words_seen counts.bytes)) lines
    ∙ ap₂ (λ w b. some (report (occurrences 10 text % 2 ^ 64) w b)) seen bytes

-- `wc` reports the lines, words and bytes, modulo 2^64, of the text that it reads up to the end of
-- file, however the text is cut into reads and however often a read blocks.
pub wc_lem : (reads : List (Option (List ℕ))) → wc reads ≡ summary (received reads)
wc_lem reads =
    wc-reported reads
    ∙ ap reported (wc_from_lem reads nothing_counted)
    ∙ summary-counted (received reads)
