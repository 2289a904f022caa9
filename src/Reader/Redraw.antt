-- ===== src/Reader/Redraw.antt =====
-- `redrawFont` of Userland/c/shell/userlib.c.
use mass_os.Prelude.{
  ltb, leb, ◌==◌, ==→eq, Bool-cases, length, ℕ, ◌-◌, ◌≡◌, refl, sym, ap, ◌∙◌, inl, inr, true, not,
  ◌||◌, List, [], ◌∷◌, ◌++◌, append_assoc, append-nil, arith,
}
use mass_os.Reader.{
  redraw_buff, ScreenCall, write_to, clear_all, larger_font, smaller_font, Screen, emit,
  redraw_loop, redraw_entries, redraw_font,
}
use mass_os.Reader.{write_to, clear_all, larger_font, smaller_font}

abbrev tagged : ℕ → List ℕ → List (ℕ × ℕ)
tagged fd [] = []
tagged fd (c ∷ cs) = (c, fd) ∷ tagged fd cs

-- The characters written since the screen was cleared, with their descriptors, after `before`.
abbrev pub shown : List (ℕ × ℕ) → List ScreenCall → List (ℕ × ℕ)
shown before [] = before
shown before (write_to fd cs ∷ rest) = shown (before ++ tagged fd cs) rest
shown before (clear_all ∷ rest) = shown [] rest
shown before (larger_font ∷ rest) = shown before rest
shown before (smaller_font ∷ rest) = shown before rest

shown-append :
    (before : List (ℕ × ℕ)) (xs ys : List ScreenCall)
    → shown before (xs ++ ys) ≡ shown (shown before xs) ys
shown-append before [] ys = refl
shown-append before (write_to fd cs ∷ rest) ys = shown-append (before ++ tagged fd cs) rest ys
shown-append before (clear_all ∷ rest) ys = shown-append [] rest ys
shown-append before (larger_font ∷ rest) ys = shown-append before rest ys
shown-append before (smaller_font ∷ rest) ys = shown-append before rest ys

tagged-append : (fd : ℕ) (xs ys : List ℕ) → tagged fd (xs ++ ys) ≡ tagged fd xs ++ tagged fd ys
tagged-append fd [] ys = refl
tagged-append fd (x ∷ xs) ys = ap (λ l. (x, fd) ∷ l) (tagged-append fd xs ys)

abbrev shown_by : Screen → List (ℕ × ℕ)
shown_by s = shown [] s.calls

shown_by-emit :
    (s : Screen) (fd : ℕ) (cs : List ℕ)
    → shown_by (emit s (write_to fd cs)) ≡ shown_by s ++ tagged fd cs
shown_by-emit s fd cs = shown-append [] s.calls (write_to fd cs ∷ [])

-- What is not written yet and the rest of the entries follow what is shown.
redraw_loop_lem :
    (es : List (ℕ × ℕ)) (current : ℕ) (buffer : List ℕ) (s : Screen)
    → shown_by (redraw_loop es current buffer s) ≡ shown_by s ++ (tagged current buffer ++ es)
unfolding redraw_loop
redraw_loop_lem [] current [] s = sym (append-nil (shown_by s))
redraw_loop_lem [] current (c ∷ cs) s =
    let wrote : ltb 0 (length (c ∷ cs)) ≡ true = ground arith in
    rw wrote (
      shown_by-emit s current (c ∷ cs)
      ∙ ap (λ l. shown_by s ++ l) (sym (append-nil (tagged current (c ∷ cs)))))
redraw_loop_lem ((c, fd) ∷ es) current [] s = elim (Bool-cases (fd == current)) [
  | inl e ↦
      rw (e, redraw_loop)
        (redraw_loop_lem es current (c ∷ []) s
          ∙ ap (λ f. shown_by s ++ ((c, f) ∷ es)) (sym (==→eq fd current e)))
  | inr e ↦ rw (e, redraw_loop) (redraw_loop_lem es fd (c ∷ []) s)
]
redraw_loop_lem ((c, fd) ∷ es) current (b ∷ bs) s =
    let buffer = b ∷ bs in
    let waits : ltb 0 (length buffer) ≡ true = ground arith in
    elim (Bool-cases (not (fd == current) || leb (redraw_buff - 1) (length buffer))) [
      | inl flush ↦
          rw (flush, waits, redraw_loop)
            (redraw_loop_lem es fd (c ∷ []) (emit s (write_to current buffer))
              ∙ ap (λ l. l ++ ((c, fd) ∷ es)) (shown_by-emit s current buffer)
              ∙ append_assoc (shown_by s) (tagged current buffer) ((c, fd) ∷ es))
      | inr keeps ↦
          let same : fd ≡ current = ground arith in
          rw (keeps, redraw_loop)
            (redraw_loop_lem es current (buffer ++ (c ∷ [])) s
              ∙ ap (λ l. shown_by s ++ (l ++ es)) (tagged-append current buffer (c ∷ []))
              ∙ ap (λ l. shown_by s ++ l)
                  (append_assoc (tagged current buffer) ((c, current) ∷ []) es)
              ∙ ap (λ f. shown_by s ++ (tagged current buffer ++ ((c, f) ∷ es))) (sym same))
    ]

redraw_entries_lem :
    (es : List (ℕ × ℕ)) (s : Screen) → shown_by (redraw_entries es s) ≡ shown_by s ++ es
unfolding redraw_entries
redraw_entries_lem [] s = sym (append-nil (shown_by s))
redraw_entries_lem ((c, fd) ∷ es) s = redraw_loop_lem ((c, fd) ∷ es) fd [] s

-- Drawing again clears the screen and writes exactly the characters of the redraw buffer, in order
-- and each to its descriptor, however the runs of one descriptor are cut into calls.
pub redraw_font_lem : (s : Screen) → shown [] (redraw_font s).calls ≡ s.entries
unfolding redraw_font
redraw_font_lem s =
    redraw_entries_lem s.entries (emit s clear_all)
    ∙ ap (λ l. l ++ s.entries) (shown-append [] s.calls (clear_all ∷ []))
