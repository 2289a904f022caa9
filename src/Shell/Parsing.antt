-- ===== src/Shell/Parsing.antt =====
-- The comparison of texts and the arguments of a command in Userland/c/shell/userlib.c.
use mass_os.Prelude.{
  ◌==◌, ==→eq, Bool-cases, pos, take, All, ℕ, zero, suc, ◌<◌, ◌≡◌, refl, sym, ap, ap₂, ◌∙◌, ◌≢◌,
  ◌↔◌, inl, inr, Bool, true, false, List, [], ◌∷◌, ◌++◌, append_assoc, append-nil, arith,
}
use mass_os.Shell.{byte_difference, strcmp, skip_spaces, cut_word, parse_args}
use mass_os.Words.{close_word, words_from, words}

is_zero-byte_difference : (a b : ℕ) → (a == b) ≡ false → byte_difference a b ≢ pos 0
is_zero-byte_difference a b e h = ground arith

-- `strcmp` gives 0 just for equal texts, of bytes that are not 0.
pub strcmp_lem :
    (a b : List ℕ) → All (λ c. 0 < c) a → All (λ c. 0 < c) b → (strcmp a b ≡ pos 0) ↔ (a ≡ b)
unfolding strcmp
strcmp_lem [] [] ha hb = (λ e. refl, λ e. refl)
strcmp_lem [] (b ∷ bs) ha hb = (λ e. ground (arith, hb.0), λ e. cc)
strcmp_lem (a ∷ as') [] ha hb = (λ e. ground (arith, ha.0), λ e. cc)
strcmp_lem (a ∷ as') (b ∷ bs) ha hb = elim (Bool-cases (a == b)) [
  | inl e ↦
      let (f, g) = strcmp_lem as' bs ha.1 hb.1 in
      rw (e, strcmp) (λ h. ap₂ (λ x xs. x ∷ xs) (==→eq a b e) (f h), λ h. g cc)
  | inr e ↦
      rw (e, strcmp)
        (
          λ h. absurd (is_zero-byte_difference a b e h),
          λ h. let same : a ≡ b = cc in ground (arith, e, same),
        )
]

abbrev pub is_blank : ℕ → Bool
is_blank c = c == 32

words_from-blank :
    (cur : List ℕ) (c : ℕ) (cs : List ℕ)
    → (c == 32) ≡ true
    → words_from is_blank cur (c ∷ cs) ≡ close_word cur (words is_blank cs)
words_from-blank cur c cs e = rw e refl

words_from-letter :
    (cur : List ℕ) (c : ℕ) (cs : List ℕ)
    → (c == 32) ≡ false
    → words_from is_blank cur (c ∷ cs) ≡ words_from is_blank (cur ++ (c ∷ [])) cs
words_from-letter cur c cs e = rw e refl

cut_word-blank : (c : ℕ) (cs : List ℕ) → (c == 32) ≡ true → cut_word (c ∷ cs) ≡ ([], cs)
cut_word-blank c cs e = rw e refl

cut_word-letter :
    (c : ℕ) (cs : List ℕ)
    → (c == 32) ≡ false
    → cut_word (c ∷ cs) ≡ (c ∷ (cut_word cs).0, (cut_word cs).1)
cut_word-letter c cs e = rw e refl

abbrev closed_word : List ℕ → List ℕ × List ℕ → List (List ℕ)
closed_word cur (word, rest) = close_word (cur ++ word) (words is_blank rest)

words_from-cut_word :
    (cur text : List ℕ) → words_from is_blank cur text ≡ closed_word cur (cut_word text)
words_from-cut_word cur [] = ap (λ w. close_word w []) (sym (append-nil cur))
words_from-cut_word cur (c ∷ cs) = elim (Bool-cases (c == 32)) [
  | inl e ↦
      words_from-blank cur c cs e
      ∙ ap (λ w. close_word w (words is_blank cs)) (sym (append-nil cur))
      ∙ sym (ap (closed_word cur) (cut_word-blank c cs e))
  | inr e ↦
      words_from-letter cur c cs e
      ∙ words_from-cut_word (cur ++ (c ∷ [])) cs
      ∙ ap (λ w. close_word w (words is_blank (cut_word cs).1))
          (append_assoc cur (c ∷ []) (cut_word cs).0)
      ∙ sym (ap (closed_word cur) (cut_word-letter c cs e))
]

skip_spaces-letter : (c : ℕ) (cs : List ℕ) → (c == 32) ≡ false → skip_spaces (c ∷ cs) ≡ c ∷ cs
skip_spaces-letter c cs e = rw e refl

words-skip_spaces : (text : List ℕ) → words is_blank (skip_spaces text) ≡ words is_blank text
words-skip_spaces [] = refl
words-skip_spaces (c ∷ cs) = elim (Bool-cases (c == 32)) [
  | inl e ↦ rw e (words-skip_spaces cs)
  | inr e ↦ ap (words is_blank) (skip_spaces-letter c cs e)
]

-- What is left starts with no space.
skip_spaces_lem :
    (text : List ℕ) (c : ℕ) (cs : List ℕ) → skip_spaces text ≡ c ∷ cs → (c == 32) ≡ false
skip_spaces_lem [] c cs h = cc
skip_spaces_lem (d ∷ ds) c cs h = elim (Bool-cases (d == 32)) [
  | inl e ↦ skip_spaces_lem ds c cs (rw e at h)
  | inr e ↦
      let same : d ∷ ds ≡ c ∷ cs = sym (skip_spaces-letter d ds e) ∙ h in
      let head : d ≡ c = cc in ap (λ x. x == 32) (sym head) ∙ e
]

abbrev next_args : ℕ → List ℕ → List (List ℕ)
next_args n [] = []
next_args n (c ∷ cs) = let (word, rest) = cut_word (c ∷ cs) in word ∷ parse_args n rest

parse_args-next : (n : ℕ) (src : List ℕ) → parse_args (suc n) src ≡ next_args n (skip_spaces src)
unfolding parse_args
parse_args-next n src =
    elim (skip_spaces src)
      as (λ s.
        elim s [
          | [] ↦ []
          | ◌∷◌ c cs ↦ let (word, rest) = cut_word (c ∷ cs) in word ∷ parse_args n rest
        ]
        ≡ next_args n s) [ [] ↦ refl | ◌∷◌ c cs ↦ refl ]

next_args-words :
    (n : ℕ) (s : List ℕ)
    → ((src : List ℕ) → parse_args n src ≡ take n (words is_blank src))
    → ((c : ℕ) (cs : List ℕ) → s ≡ c ∷ cs → (c == 32) ≡ false)
    → next_args n s ≡ take (suc n) (words is_blank s)
next_args-words n [] ih h = refl
next_args-words n (c ∷ cs) ih h =
    let cut = cut_word-letter c cs (h c cs refl) in
    ap (λ (p : List ℕ × List ℕ). p.0 ∷ parse_args n p.1) cut
    ∙ ap (λ ws. (c ∷ (cut_word cs).0) ∷ ws) (ih (cut_word cs).1)
    ∙ sym (ap (take (suc n)) (words_from-cut_word [] (c ∷ cs) ∙ ap (closed_word []) cut))

-- `parse_args` gives the words of the text between its spaces, the first `max_argv` of them.
pub parse_args_lem :
    (max_argv : ℕ) (src : List ℕ) → parse_args max_argv src ≡ take max_argv (words is_blank src)
unfolding parse_args
parse_args_lem zero src = refl
parse_args_lem (suc n) src =
    parse_args-next n src
    ∙ next_args-words n (skip_spaces src) (parse_args_lem n) (skip_spaces_lem src)
    ∙ ap (take (suc n)) (words-skip_spaces src)
