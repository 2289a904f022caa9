-- ===== src/Commands/Tests.antt =====
-- Runs of the commands, and their theorems at the reads of one text.
-- `ab`, a read that blocks, ` a` and a newline, the end of file.
use mass_os.Prelude.{ℕ, ◌≡◌, refl, Option, none, some, List, [], ◌∷◌, ◌++◌}
use mass_os.Commands.{
  is_space, count_bytes, wc_from, report, wc, is_vowel, compact, filter_chunk, filter, cat,
}
use mass_os.Commands.Counting.{summary, wc_lem}
use mass_os.Text.{codes}

abbrev reads : List (Option (List ℕ))
reads = some (codes "ab") ∷ none ∷ some (32 ∷ 97 ∷ 10 ∷ []) ∷ some [] ∷ []

printed_counts : wc reads ≡ some (report 1 2 5)
unfolding wc wc_from count_bytes is_space
printed_counts = refl

kept : filter reads ≡ some ((b'b' ∷ []) ∷ (32 ∷ 10 ∷ []) ∷ [])
unfolding filter filter_chunk compact is_vowel
kept = refl

copied : cat reads ≡ some (codes "ab" ∷ (32 ∷ 97 ∷ 10 ∷ []) ∷ [])
unfolding cat
copied = refl

wc_lem_example : wc reads ≡ summary (some (codes "ab" ++ 32 ∷ 97 ∷ 10 ∷ []))
wc_lem_example = wc_lem reads
