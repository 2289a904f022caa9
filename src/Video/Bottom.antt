-- ===== src/Video/Bottom.antt =====
-- Kernel/c/drivers/videoDriver.c at the bottom of a screen whose height is no multiple of a line's.
use mass_os.Prelude.{
  ltb, ◌==◌, ltb→lt, Bool-cases, ℕ, ◌+◌, ◌-◌, ◌*◌, ◌≤◌, ◌<◌, ◌≡◌, refl, ap, inl, inr, true, false,
  ◌||◌, arith,
}
use mass_os.Video.{
  font_width, font_height, Mode, Video, valid_position, new_line, update_cursor, move_right,
  draw_char, video_put_char,
}
use mass_os.Video.Cursor.{IsOnScreen, new_line-IsOnScreen, placed}

abbrev line_height : Video → ℕ
line_height v = v.default_text_size * font_height

-- At the bottom a new line scrolls.
new_line-bottom :
    (v : Video)
    → IsOnScreen v
    → v.mode.height ≤ v.current_y + line_height v
    → ((new_line v).current_x ≡ 0)
      × ((new_line v).current_y ≡ v.mode.height - line_height v)
      × ((new_line v).mode ≡ v.mode)
      × ((new_line v).default_text_size ≡ v.default_text_size)
unfolding new_line
new_line-bottom v i low =
    let e : ltb (v.current_y + v.default_text_size * font_height) v.mode.height ≡ false =
      ground arith in
    rw e (refl, omega (arith, i.small, i.high, i.sized, i.sized'), refl, refl)

update_cursor-fits :
    (v : Video)
    → valid_position v.mode
        (v.current_x + font_width * v.default_text_size - 1)
        (v.current_y + font_height * v.default_text_size - 1)
      ≡ true
    → update_cursor v ≡ v
unfolding update_cursor
update_cursor-fits v e = rw e refl

update_cursor-leaves :
    (v : Video)
    → valid_position v.mode
        (v.current_x + font_width * v.default_text_size - 1)
        (v.current_y + font_height * v.default_text_size - 1)
      ≡ false
    → update_cursor v ≡ new_line v
unfolding update_cursor
update_cursor-leaves v e = rw e refl

fits_bottom :
    (v : Video)
    → IsOnScreen v
    → v.current_x ≡ 0
    → v.current_y ≡ v.mode.height - line_height v
    → valid_position v.mode
        (v.current_x + font_width * v.default_text_size - 1)
        (v.current_y + font_height * v.default_text_size - 1)
      ≡ true
fits_bottom v i left low = ground (arith, i.wide, i.high, i.sized, i.sized')

-- A cell that reaches below the screen: the cursor goes to the start of the last line.
update_move-short :
    (v : Video)
    → IsOnScreen v
    → v.current_x ≡ 0
    → v.mode.height < v.current_y + line_height v
    → let v' = update_cursor (move_right v) in
      (v'.current_x ≡ 0) × (v'.current_y ≡ v.mode.height - line_height v)
unfolding move_right
update_move-short v i left low =
    elim (Bool-cases (ltb (v.current_x + font_width * v.default_text_size) v.mode.width)) [
      | inl e ↦
          let v1 : Video = record v {
            current_x = v.current_x + font_width * v.default_text_size;
          } in
          let i1 = placed v _ v.memory i (ltb→lt _ _ e) in
          let (x, y, _, _) = new_line-bottom v1 i1 (omega (arith, low)) in
          rw (e, update_cursor-leaves v1 (ground (arith, low))) (x, y)
      | inr e ↦
          let (x, y, mode, size) = new_line-bottom v i (omega (arith, low)) in
          let i' = new_line-IsOnScreen v i in
          let height = ap (λ (m : Mode). m.height) mode in
          let fits = fits_bottom (new_line v) i' x (omega (arith, y, height, size)) in
          rw (e, update_cursor-fits (new_line v) fits) (x, y)
    ]

new_line-above :
    (v : Video)
    → v.current_y + line_height v < v.mode.height
    → ((new_line v).current_x ≡ 0)
      × ((new_line v).current_y ≡ v.current_y + line_height v)
      × ((new_line v).mode ≡ v.mode)
      × ((new_line v).default_text_size ≡ v.default_text_size)
unfolding new_line
new_line-above v room =
    let e : ltb (v.current_y + v.default_text_size * font_height) v.mode.height ≡ true =
      ground arith in
    rw e (refl, refl, refl, refl)

abbrev drawn_over : (ℕ → ℕ → ℕ) → ℕ → ℕ → Video → Video
drawn_over font c color v = record v {
  memory = draw_char font v.mode (v.current_x, v.current_y) c color v.default_text_size v.memory;
}

video_put_char-drawn :
    (font : ℕ → ℕ → ℕ) (c color : ℕ) (v : Video)
    → 32 ≤ c
    → video_put_char font c color v ≡ update_cursor (move_right (drawn_over font c color v))
unfolding video_put_char
video_put_char-drawn font c color v printable =
    let no_line : (c == 10 || (c == 13)) ≡ false = ground arith in
    let no_back : (c == 8) ≡ false = ground arith in rw (no_line, no_back) refl

-- A line that starts with less than its height left on the screen: the first character that is drawn
-- on it reaches below the screen and is followed by another new line.
pub new_line-short :
    (font : ℕ → ℕ → ℕ) (c color : ℕ) (v : Video)
    → IsOnScreen v
    → v.current_y + line_height v < v.mode.height
    → v.mode.height < v.current_y + 2 * line_height v
    → 32 ≤ c
    → let line = new_line v in
      let drawn = video_put_char font c color line in
      (line.current_y ≡ v.current_y + line_height v)
      × (drawn.current_x ≡ 0)
      × (drawn.current_y < line.current_y)
new_line-short font c color v i room below printable =
    let line = new_line v in
    let (left, top, mode, size) = new_line-above v room in
    let height = ap (λ (m : Mode). m.height) mode in
    let w = drawn_over font c color line in
    let w_on =
      placed line line.current_x w.memory (new_line-IsOnScreen v i)
        (new_line-IsOnScreen v i).x_in in
    let (x, y) = update_move-short w w_on left (omega (arith, top, height, size, below)) in
    rw (video_put_char-drawn font c color line printable)
      (top, x, omega (arith, y, top, height, size, below))
