-- ===== src/Terminal/Line.antt =====
-- The line that is edited in cooked mode by Kernel/c/drivers/keyboardDriver.c and delivered by
-- `fd_read` of Kernel/c/pipe/fd.c.
use mass_os.Prelude.{
  ltb, ◌==◌, if◌then◌else◌, Bool-cases, length, update, update_self, slice, length-slice,
  slice_snoc, slice-update, ℕ, zero, suc, ◌+◌, ◌-◌, ◌≡◌, refl, sym, ap, ap₂, ◌∙◌, ◌≢◌, inl, inr,
  true, false, List, [], ◌∷◌, ◌++◌, arith, add-one,
}
use mass_os.Kernel.{Kernel}
use mass_os.Keyboard.{line_length, Keyboard, Machine, line_append, edits_line, type_char}

-- The line so far.
abbrev pub line_text : Keyboard → List ℕ
line_text kb = slice kb.tty_line 0 kb.tty_line_len

abbrev pub drop_last : List ℕ → List ℕ
drop_last [] = []
drop_last (c ∷ []) = []
drop_last (c ∷ d ∷ cs) = c ∷ drop_last (d ∷ cs)

-- A backspace takes the last character away, any other is put at the end while there is room.
abbrev pub edited : List ℕ → ℕ → List ℕ
edited text c =
    if c == 8
    then drop_last text
    else if ltb (length text) (line_length - 1)
    then text ++ (c ∷ [])
    else text

abbrev pub edited_all : List ℕ → List ℕ → List ℕ
edited_all text [] = text
edited_all text (c ∷ cs) = edited_all (edited text c) cs

pub drop_last-snoc : (cs : List ℕ) (c : ℕ) → drop_last (cs ++ (c ∷ [])) ≡ cs
drop_last-snoc [] c = refl
drop_last-snoc (d ∷ []) c = refl
drop_last-snoc (d ∷ e ∷ cs) c = ap (λ l. d ∷ l) (drop_last-snoc (e ∷ cs) c)

line_text-append : (kb : Keyboard) (c : ℕ) → line_text (line_append kb c) ≡ line_text kb ++ (c ∷ [])
line_text-append kb c =
    ap (slice (update kb.tty_line kb.tty_line_len c) 0) (add-one kb.tty_line_len)
    ∙ slice_snoc (update kb.tty_line kb.tty_line_len c) 0 kb.tty_line_len
    ∙ ap₂ (λ l x. l ++ (x ∷ []))
        (slice-update kb.tty_line 0 kb.tty_line_len kb.tty_line_len c (omega arith))
        (ap (update kb.tty_line kb.tty_line_len c) (omega arith)
          ∙ update_self kb.tty_line kb.tty_line_len c)

pub line_text-backspace : (line : ℕ → ℕ) (n : ℕ) → slice line 0 (n - 1) ≡ drop_last (slice line 0 n)
line_text-backspace line zero = refl
line_text-backspace line (suc n) =
    ap (slice line 0) (omega arith)
    ∙ sym (ap drop_last (slice_snoc line 0 n) ∙ drop_last-snoc (slice line 0 n) (line (0 + n)))

module _ {H : Type 0} where
  -- While a process waits for a line, a character that is no newline edits it, and nothing else of
  -- the kernel or of the mode changes.
  pub type_char-edited :
      (m : Machine H) (c : ℕ)
      → edits_line m ≡ true
      → c ≢ 10
      → (line_text (type_char m c).keyboard ≡ edited (line_text m.keyboard) c)
        × ((type_char m c).kernel ≡ m.kernel)
        × ((type_char m c).keyboard.tty_mode ≡ m.keyboard.tty_mode)
        × ((type_char m c).keyboard.tty_eof ≡ m.keyboard.tty_eof)
        × ((type_char m c).keyboard.tty_line_ready ≡ m.keyboard.tty_line_ready)
  unfolding type_char
  type_char-edited m c e ne =
      let kb = m.keyboard in
      let no_newline : (c == 10) ≡ false = ground arith in
      let size = length-slice kb.tty_line 0 kb.tty_line_len in
      elim (Bool-cases (c == 8)) [
        | inl back ↦ elim (Bool-cases (ltb 0 kb.tty_line_len)) [
          | inl some_left ↦
              rw (e, no_newline, back, some_left)
                (line_text-backspace kb.tty_line kb.tty_line_len, refl, refl, refl, refl)
          | inr empty ↦
              let none_left : kb.tty_line_len ≡ 0 = ground arith in
              rw (e, no_newline, back, empty) (rw none_left refl, refl, refl, refl, refl)
        ]
        | inr other ↦ elim (Bool-cases (ltb kb.tty_line_len (line_length - 1))) [
          | inl room ↦
              rw (e, no_newline, other, size, room) (line_text-append kb c, refl, refl, refl, refl)
          | inr full ↦ rw (e, no_newline, other, size, full) (refl, refl, refl, refl, refl)
        ]
      ]

  pub type_all : Machine H → List ℕ → Machine H
  type_all m [] = m
  type_all m (c ∷ cs) = type_all (type_char m c) cs
