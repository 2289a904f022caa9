-- ===== src/Video/Frame.antt =====
-- The text calls of Kernel/c/drivers/videoDriver.c write only the framebuffer.
use mass_os.Prelude.{
  ltb, leb, ◌==◌, if◌then◌else◌, Bool-cases, ℕ, zero, suc, ◌+◌, ◌-◌, ◌*◌, ◌%◌, ◌^◌, min, ◌≡◌, refl,
  sym, subst, ◌∙◌, inl, inr, Bool, true, false, ◌||◌, arith,
}
use mass_os.Video.{
  font_width, font_height, bg_color, Mode, Video, valid_position, put_pixel, fill_rectangle,
  new_line, update_cursor, move_right, is_set, draw_row, draw_square, draw_bits, draw_lines,
  draw_char, video_put_char,
}
use mass_os.Video.Cursor.{IsOnScreen, placed, move_right-IsOnScreen}
use mass_os.Video.Pixels.{IsMode, Elsewhere, put_pixel-outside}
use mass_os.Video.Rows.{fill_rectangle-outside, Elsewhere-Off, scroll-outside}

module _ {m : Mode} (valid : IsMode m) {j : ℕ} (away : Elsewhere m j) where
  fill_rectangle-frame :
      (x0 y0 x1 y1 color : ℕ) (memory : ℕ → ℕ)
      → fill_rectangle m (x0, y0) (x1, y1) color memory j ≡ memory j
  fill_rectangle-frame x0 y0 x1 y1 color memory =
      fill_rectangle-outside m x0 y0 x1 y1 color memory j valid
        (Elsewhere-Off m y0 (min y1 m.height) j (omega arith) away)

  draw_row-frame : (n color x y : ℕ) (memory : ℕ → ℕ) → draw_row n m color x y memory j ≡ memory j
  unfolding draw_row
  draw_row-frame zero color x y memory = refl
  draw_row-frame (suc n) color x y memory =
      draw_row-frame n color (x + 1) y (put_pixel m color x y memory)
      ∙ put_pixel-outside m color x y memory j valid away

  draw_square-frame :
      (n size color x y : ℕ) (memory : ℕ → ℕ) → draw_square n size m color x y memory j ≡ memory j
  unfolding draw_square
  draw_square-frame zero size color x y memory = refl
  draw_square-frame (suc n) size color x y memory =
      draw_square-frame n size color x (y + 1) (draw_row size m color x y memory)
      ∙ draw_row-frame size color x y memory

  either_frame : (b : Bool) (f g : ℕ → ℕ) (a : ℕ) → f j ≡ a → g j ≡ a → (if b then f else g) j ≡ a
  either_frame true f g a p q = p
  either_frame false f g a p q = q

  draw_bits-frame :
      (n i line color x y size : ℕ) (memory : ℕ → ℕ)
      → draw_bits n i line m color x y size memory j ≡ memory j
  unfolding draw_bits
  draw_bits-frame zero i line color x y size memory = refl
  draw_bits-frame (suc n) i line color x y size memory =
      let square = draw_square size size m color (x + i * size) y memory in
      draw_bits-frame n (i + 1) line color x y size (if is_set line i then square else memory)
      ∙ either_frame (is_set line i) square memory (memory j)
          (draw_square-frame size size color (x + i * size) y memory) refl

  draw_lines-frame :
      (n i : ℕ) (glyph : ℕ → ℕ) (color x y size : ℕ) (memory : ℕ → ℕ)
      → draw_lines n i glyph m color x y size memory j ≡ memory j
  unfolding draw_lines
  draw_lines-frame zero i glyph color x y size memory = refl
  draw_lines-frame (suc n) i glyph color x y size memory =
      draw_lines-frame n (i + 1) glyph color x y size
        (draw_bits font_width 0 (glyph i) m color x (y + i * size) size memory)
      ∙ draw_bits-frame font_width 0 (glyph i) color x (y + i * size) size memory

  draw_char-frame :
      (font : ℕ → ℕ → ℕ) (x y c color size : ℕ) (memory : ℕ → ℕ)
      → draw_char font m (x, y) c color size memory j ≡ memory j
  unfolding draw_char
  draw_char-frame font x y c color size memory = elim (Bool-cases (leb 128 c)) [
    | inl e ↦ rw e refl
    | inr e ↦
        rw e (draw_lines-frame font_height 0 (font c) color (x % 2 ^ 32) (y % 2 ^ 32) size memory)
  ]

-- The operations that can end in a new line.
abbrev Quiet : Video → Video → ℕ → Type 0
Quiet v v' j = v'.memory j ≡ v.memory j

module _ (v : Video) (valid : IsMode v.mode) (i : IsOnScreen v) {j : ℕ}
    (away : Elsewhere v.mode j) where
  new_line-frame : Quiet v (new_line v) j
  unfolding new_line
  new_line-frame =
      elim (Bool-cases (ltb (v.current_y + v.default_text_size * font_height) v.mode.height)) [
        | inl e ↦
            let y = v.current_y + v.default_text_size * font_height in
            rw e (
              fill_rectangle-frame valid away 0 y v.mode.width
                (y + v.default_text_size * font_height) bg_color v.memory)
        | inr e ↦ rw e (
            scroll-outside v.mode v.default_text_size v.memory j valid (omega (arith, i.sized))
              (omega (arith, i.sized', i.high)) i.small away)
      ]

  update_cursor-frame : Quiet v (update_cursor v) j
  unfolding update_cursor
  update_cursor-frame =
      elim (Bool-cases (
        valid_position v.mode (v.current_x + font_width * v.default_text_size - 1)
          (v.current_y + font_height * v.default_text_size - 1))) [
            | inl e ↦ rw e refl
            | inr e ↦ rw e new_line-frame
          ]

  move_right-frame : Quiet v (move_right v) j
  unfolding move_right
  move_right-frame =
      elim (Bool-cases (ltb (v.current_x + font_width * v.default_text_size) v.mode.width)) [
        | inl e ↦ rw e refl
        | inr e ↦ rw e new_line-frame
      ]

new_line-mode : (v : Video) → (new_line v).mode ≡ v.mode
unfolding new_line
new_line-mode v =
    elim (Bool-cases (ltb (v.current_y + v.default_text_size * font_height) v.mode.height)) [
      | inl e ↦ rw e refl
      | inr e ↦ rw e refl
    ]

move_right-mode : (v : Video) → (move_right v).mode ≡ v.mode
unfolding move_right
move_right-mode v =
    elim (Bool-cases (ltb (v.current_x + font_width * v.default_text_size) v.mode.width)) [
      | inl e ↦ rw e refl
      | inr e ↦ rw e (new_line-mode v)
    ]

-- `videoPutChar` writes no byte outside the framebuffer, whatever the character, the colour, the font
-- and the cursor on the screen, in a mode whose rows fit the pitch.
pub video_put_char-frame :
    (font : ℕ → ℕ → ℕ) (c color : ℕ) (v : Video) (j : ℕ)
    → IsMode v.mode
    → IsOnScreen v
    → Elsewhere v.mode j
    → (video_put_char font c color v).memory j ≡ v.memory j
unfolding video_put_char
video_put_char-frame font c color v j valid i away = elim (Bool-cases (c == 10 || (c == 13))) [
  | inl e ↦ rw e (new_line-frame v valid i away)
  | inr e ↦ elim (Bool-cases (c == 8)) [
    | inl back ↦ elim (Bool-cases (leb (font_width * v.default_text_size) v.current_x)) [
      | inl room ↦
          let step_x = font_width * v.default_text_size in
          let x = v.current_x - step_x in
          let y = v.current_y in
          let y' = y + font_height * v.default_text_size in
          let blanked = fill_rectangle v.mode (x, y) (x + step_x, y') bg_color v.memory in
          let v' : Video = record v { current_x = x; memory = blanked } in
          rw (e, back, room)
            (update_cursor-frame v' valid (placed v x blanked i (omega (arith, i.x_in))) away
              ∙ fill_rectangle-frame valid away x y (x + step_x) y' bg_color v.memory)
      | inr edge ↦ rw (e, back, edge) refl
    ]
    | inr other ↦
        let drawn : Video = record v {
          memory =
              draw_char font v.mode (v.current_x, v.current_y) c color v.default_text_size v.memory;
        } in
        let i' = placed v v.current_x drawn.memory i i.x_in in
        let same = sym (move_right-mode drawn) in
        rw (e, other)
          (update_cursor-frame (move_right drawn) (subst IsMode same valid)
              (move_right-IsOnScreen drawn i') (subst (λ m. Elsewhere m j) same away)
            ∙ move_right-frame drawn valid i' away
            ∙ draw_char-frame valid away font v.current_x v.current_y c color v.default_text_size
                v.memory)
  ]
]
