-- ===== src/Reader/Lines.antt =====
-- The line that `shellReadLine` of Userland/c/shell/shell.c reads.
use mass_os.Prelude.{
  ltb, ◌==◌, if◌then◌else◌, ltb→lt, ==→eq, Bool-cases, Option-cases, length, All, update,
  update_self, slice, length-slice, slice_snoc, slice-update, ℕ, ◌+◌, ◌<◌, ◌≡◌, refl, sym, ap, ap₂,
  ◌∙◌, ◌≢◌, inl, inr, true, false, ◌||◌, Option, none, some, List, [], ◌∷◌, ◌++◌, arith, add-one,
}
use mass_os.Reader.{Screen, show_cursor, typed, Event, blink, read_events, shell_read_line}
use mass_os.Terminal.Line.{drop_last, line_text-backspace}

-- A backspace takes the last character away, `+` and `-` change the font, any other character is put
-- at the end while there is room for it and for the final zero.
abbrev pub line_edited : ℕ → List ℕ → ℕ → List ℕ
line_edited max_length text c =
    if c == 8
    then drop_last text
    else if c == b'+' || (c == b'-')
    then text
    else if ltb (length text + 1) max_length
    then text ++ (c ∷ [])
    else text

abbrev pub line_of : ℕ → List ℕ → List Event → List ℕ
line_of max_length text [] = text
line_of max_length text (e ∷ es) = elim e.read [
  | none ↦ line_of max_length text es
  | some c ↦ line_of max_length (line_edited max_length text c) es
]

-- The line is not over.
abbrev pub Unfinished : Event → Type 0
Unfinished e = e.read ≢ some 10

-- The buffer holds the line, with its final zero, inside its length.
abbrev pub Reads : Option ((ℕ → ℕ) × Screen) → ℕ → List ℕ → Type 0
Reads none max_length line = false ≡ true
Reads (some (buffer, s)) max_length line =
    (slice buffer 0 (length line) ≡ line) × (buffer (length line) ≡ 0) × (length line < max_length)

abbrev Holds : ℕ → (ℕ → ℕ) × ℕ × Screen → List ℕ → Type 0
Holds max_length (buffer, idx, s) text = (slice buffer 0 idx ≡ text) × (idx < max_length)

typed-Holds :
    (max_length c : ℕ) (buffer : ℕ → ℕ) (idx : ℕ) (s : Screen) (text : List ℕ)
    → Holds max_length (buffer, idx, s) text
    → Holds max_length (typed max_length c (buffer, idx, s)) (line_edited max_length text c)
unfolding typed
typed-Holds max_length c buffer idx s text (held, fits) =
    let size : length text ≡ idx = ap length (sym held) ∙ length-slice buffer 0 idx in
    elim (Bool-cases (c == 8)) [
      | inl back ↦ elim (Bool-cases (ltb 0 idx)) [
        | inl some_left ↦
            rw (back, some_left)
              (line_text-backspace buffer idx ∙ ap drop_last held, omega (arith, fits))
        | inr empty ↦
            let none_left : idx ≡ 0 = ground arith in
            let no_text : text ≡ [] = sym held ∙ ap (slice buffer 0) none_left in
            rw (back, empty) (held ∙ no_text ∙ ap drop_last (sym no_text), fits)
      ]
      | inr other ↦ elim (Bool-cases (c == b'+')) [
        | inl plus ↦ rw (other, plus) (held, fits)
        | inr no_plus ↦ elim (Bool-cases (c == b'-')) [
          | inl minus ↦ rw (other, no_plus, minus) (held, fits)
          | inr no_minus ↦ elim (Bool-cases (ltb (idx + 1) max_length)) [
            | inl room ↦
                let room' : ltb (length text + 1) max_length ≡ true = rw size room in
                rw (other, no_plus, no_minus, room, room')
                  (slice-put buffer idx c ∙ ap (λ l. l ++ (c ∷ [])) held, ltb→lt _ _ room)
            | inr full ↦
                let full' : ltb (length text + 1) max_length ≡ false = rw size full in
                rw (other, no_plus, no_minus, full, full') (held, fits)
          ]
        ]
      ]
    ]
  where
    slice-put :
        (buffer : ℕ → ℕ) (idx c : ℕ)
        → slice (update buffer idx c) 0 (idx + 1) ≡ slice buffer 0 idx ++ (c ∷ [])
    slice-put buffer idx c =
        ap (slice (update buffer idx c) 0) (add-one idx)
        ∙ slice_snoc (update buffer idx c) 0 idx
        ∙ ap₂ (λ l x. l ++ (x ∷ [])) (slice-update buffer 0 idx idx c (omega arith))
            (ap (update buffer idx c) (omega arith) ∙ update_self buffer idx c)

finished-Reads :
    (max_length : ℕ) (buffer : ℕ → ℕ) (idx : ℕ) (s : Screen) (text : List ℕ)
    → Holds max_length (buffer, idx, s) text
    → Reads (some (update buffer idx 0, s)) max_length text
finished-Reads max_length buffer idx s text (held, fits) =
    let size : length text ≡ idx = ap length (sym held) ∙ length-slice buffer 0 idx in
    (
      ap (slice (update buffer idx 0) 0) size
          ∙ slice-update buffer 0 idx idx 0 (omega arith)
          ∙ held,
      ap (update buffer idx 0) size ∙ update_self buffer idx 0,
      omega (arith, size, fits),
    )

abbrev newline_at : ℕ → Event
newline_at t = record { read = some 10; now = t }

read_events_lem :
    (before after : List Event) (t max_length last_blink : ℕ) (state : (ℕ → ℕ) × ℕ × Screen)
    (text : List ℕ)
    → All Unfinished before
    → Holds max_length state text
    → Reads
        (read_events (before ++ (newline_at t ∷ after)) max_length last_blink state)
        max_length
        (line_of max_length text before)
unfolding read_events
read_events_lem [] after t max_length last_blink (buffer, idx, s) text going held =
    finished-Reads max_length buffer idx s text held
read_events_lem (e ∷ es) after t max_length last_blink (buffer, idx, s) text going held =
    elim (Option-cases e.read) [
      | inl nothing ↦
          let (last, s') = blink last_blink e.now s in
          rw (nothing, read_events)
            (read_events_lem es after t max_length last (buffer, idx, s') text going.1 held)
      | inr (c, given) ↦
          let no_newline : (c == 10) ≡ false = elim (Bool-cases (c == 10)) [
            | inl over ↦ absurd (going.0 (given ∙ ap some (==→eq c 10 over)))
            | inr goes_on ↦ goes_on
          ] in
          rw (given, read_events)
            (rw no_newline (
              read_events_lem es after t max_length e.now (typed max_length c (buffer, idx, s))
                (line_edited max_length text c) going.1
                (typed-Holds max_length c buffer idx s text held)))
    ]

-- Whatever is typed before the newline, and however long nothing is typed in between, the call returns,
-- and its buffer holds the edited line with a final zero, inside the length given.
pub shell_read_line_lem :
    (before after : List Event) (now t max_length : ℕ) (buffer : ℕ → ℕ) (s : Screen)
    → All Unfinished before
    → 0 < max_length
    → Reads
        (shell_read_line now (before ++ (newline_at t ∷ after)) buffer max_length s)
        max_length
        (line_of max_length [] before)
unfolding shell_read_line
shell_read_line_lem before after now t max_length buffer s going some_room =
    read_events_lem before after t max_length now (buffer, 0, show_cursor s) [] going
      (refl, some_room)
