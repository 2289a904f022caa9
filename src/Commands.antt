-- ===== src/Commands.antt =====
-- `cat`, `filter` and `wc` of Userland/c/commands. What their calls of `sys_read` return is an
-- argument, in order: `none` for -1, after which they try again, and else the bytes read. The result
-- is `none` while there has been no end of file.
pub mod Streams
pub mod Counting
mod Tests
use mass_os.Prelude.{
  ltb, ◌==◌, if◌then◌else◌, length, get_or, member, update, slice, ℕ, zero, suc, ◌+◌, ◌%◌, ◌^◌,
  Bool, true, false, not, ◌||◌, Option, none, some, List, [], ◌∷◌, ◌++◌,
}
use mass_os.Digits.{num_to_str}
use mass_os.Text.{codes}

abbrev modulus : ℕ
modulus = 2 ^ 64

pub is_space : ℕ → Bool
is_space c = c == 32 || (c == 9) || (c == 10) || (c == 13) || (c == 12) || (c == 11)

-- The counters of `wc`.
pub record WcState : Type 0 where
  pub lines : ℕ
  pub words_seen : ℕ
  pub bytes : ℕ
  pub in_word : Bool

-- The body of the `for` loop, for the byte `c`.
pub count_byte : WcState → ℕ → WcState
count_byte s c =
    let s1 = record s { bytes = (s.bytes + 1) % modulus } in
    let s2 = if c == 10 then record s1 { lines = (s1.lines + 1) % modulus } else s1 in
    if is_space c
    then record s2 { in_word = false }
    else if not s2.in_word
    then record s2 { in_word = true; words_seen = (s2.words_seen + 1) % modulus }
    else s2

pub count_bytes : List ℕ → WcState → WcState
unfolding count_byte
count_bytes [] s = s
count_bytes (c ∷ cs) s = count_bytes cs (count_byte s c)

-- The `while` loop.
pub wc_from : List (Option (List ℕ)) → WcState → Option WcState
wc_from [] s = none
wc_from (none ∷ reads) s = wc_from reads s
wc_from (some [] ∷ reads) s = some s
wc_from (some (c ∷ cs) ∷ reads) s = wc_from reads (count_bytes (c ∷ cs) s)

abbrev pub nothing_counted : WcState
nothing_counted = record { lines = 0; words_seen = 0; bytes = 0; in_word = false }

-- What is printed.
abbrev pub report : ℕ → ℕ → ℕ → List ℕ
report lines words_seen bytes =
    10 ∷ codes "Lineas: "
    ++ num_to_str lines 10
    ++ 10 ∷ codes "Palabras: "
    ++ num_to_str words_seen 10
    ++ 10 ∷ codes "Bytes: "
    ++ num_to_str bytes 10
    ++ 10 ∷ []

-- The text that is printed at the end of file.
pub wc : List (Option (List ℕ)) → Option (List ℕ)
unfolding wc_from
wc reads = elim (wc_from reads nothing_counted) [
  | none ↦ none
  | some s ↦ some (report s.lines s.words_seen s.bytes)
]

pub is_vowel : ℕ → Bool
is_vowel c = member c (codes "aeiouAEIOU")

-- The `for` loop of `filter`, with `n` bytes left from `i` on, in the same buffer.
pub compact : ℕ → ℕ → ℕ → (ℕ → ℕ) → ℕ × (ℕ → ℕ)
compact zero i out_len buf = (out_len, buf)
compact (suc n) i out_len buf =
    let keep = not (is_vowel (buf i)) in
    compact n (i + 1) (if keep then out_len + 1 else out_len)
      (if keep then update buf out_len (buf i) else buf)

-- The bytes of a read that are written.
pub filter_chunk : List ℕ → List ℕ
unfolding compact
filter_chunk bytes =
    let (out_len, buf) = compact (length bytes) 0 0 (λ i. get_or bytes i 0) in slice buf 0 out_len

abbrev pub push_write : List ℕ → Option (List (List ℕ)) → Option (List (List ℕ))
push_write bytes none = none
push_write bytes (some writes) = some (bytes ∷ writes)

-- The writes to the standard output, in order.
pub filter : List (Option (List ℕ)) → Option (List (List ℕ))
unfolding filter_chunk
filter [] = none
filter (none ∷ reads) = filter reads
filter (some [] ∷ reads) = some []
filter (some (c ∷ cs) ∷ reads) =
    let rest = filter reads in
    let kept = filter_chunk (c ∷ cs) in if ltb 0 (length kept) then push_write kept rest else rest

pub cat : List (Option (List ℕ)) → Option (List (List ℕ))
cat [] = none
cat (none ∷ reads) = cat reads
cat (some [] ∷ reads) = some []
cat (some (c ∷ cs) ∷ reads) = push_write (c ∷ cs) (cat reads)
