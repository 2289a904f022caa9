-- ===== src/Words.antt =====
-- The words of a text, for the parts of userland that take texts apart.
use mass_os.Prelude.{
  if◌then◌else◌, Bool-cases, length, ℕ, ◌+◌, ◌≡◌, refl, ap, ◌∙◌, inl, inr, Bool, true, false, List,
  [], ◌∷◌, ◌++◌, arith,
}

abbrev pub close_word : List ℕ → List (List ℕ) → List (List ℕ)
close_word [] ws = ws
close_word (c ∷ cs) ws = (c ∷ cs) ∷ ws

-- The words of a text after the word `cur` began.
abbrev pub words_from : (ℕ → Bool) → List ℕ → List ℕ → List (List ℕ)
words_from sep cur [] = close_word cur []
words_from sep cur (c ∷ cs) =
    if sep c then close_word cur (words_from sep [] cs) else words_from sep (cur ++ (c ∷ [])) cs

-- The longest runs without a separator, in order.
abbrev pub words : (ℕ → Bool) → List ℕ → List (List ℕ)
words sep text = words_from sep [] text

-- How many words begin in a text, `inside` saying whether the byte before it belongs to one.
abbrev pub word_starts : (ℕ → Bool) → Bool → List ℕ → ℕ
word_starts sep inside [] = 0
word_starts sep inside (c ∷ cs) =
    if sep c then word_starts sep false cs else (if inside then 0 else 1) + word_starts sep true cs

abbrev is_begun : List ℕ → Bool
is_begun [] = false
is_begun (c ∷ cs) = true

length-close_word :
    (cur : List ℕ) (ws : List (List ℕ))
    → length (close_word cur ws) ≡ (if is_begun cur then 1 else 0) + length ws
length-close_word [] ws = omega arith
length-close_word (c ∷ cs) ws = omega arith

is_begun-append : (cur : List ℕ) (c : ℕ) → is_begun (cur ++ (c ∷ [])) ≡ true
is_begun-append [] c = refl
is_begun-append (d ∷ ds) c = refl

length-words_from :
    (sep : ℕ → Bool) (cur text : List ℕ)
    → length (words_from sep cur text)
      ≡ (if is_begun cur then 1 else 0) + word_starts sep (is_begun cur) text
length-words_from sep cur [] = length-close_word cur []
length-words_from sep cur (c ∷ cs) = elim (Bool-cases (sep c)) [
  | inl e ↦ rw e (
      length-close_word cur (words_from sep [] cs)
      ∙ ap (λ n. (if is_begun cur then 1 else 0) + n) (length-words_from sep [] cs ∙ omega arith))
  | inr e ↦
      let next = length-words_from sep (cur ++ (c ∷ [])) cs in
      let begun = is_begun-append cur c in
      rw e (next ∙ ap (λ b. (if b then 1 else 0) + word_starts sep b cs) begun ∙ ground arith)
]

pub length-words :
    (sep : ℕ → Bool) (text : List ℕ) → length (words sep text) ≡ word_starts sep false text
length-words sep text = length-words_from sep [] text ∙ omega arith
