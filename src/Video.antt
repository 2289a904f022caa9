-- ===== src/Video.antt =====
-- Kernel/c/drivers/videoDriver.c: pixels and text in the framebuffer. Memory is a function of the
-- address; what the driver reads of the mode block is `Mode`, and the bitmaps of
-- Kernel/include/font.h are an argument, row `i` of character `c` being `font c i`.
pub mod Pixels
pub mod Rows
pub mod Cursor
pub mod Frame
pub mod Bottom
mod Tests
use mass_os.Prelude.{
  ltb, leb, ◌==◌, if◌then◌else◌, update, ℕ, zero, suc, ◌+◌, ◌-◌, ◌*◌, ◌/◌, ◌%◌, ◌^◌, min, Bool, not,
  ◌&&◌, ◌||◌, List, [], ◌∷◌,
}
use mass_os.Copying.{memcpy}

abbrev pub font_width : ℕ
font_width = 8

abbrev pub font_height : ℕ
font_height = 16

abbrev pub max_font_size : ℕ
max_font_size = 5

abbrev pub bg_color : ℕ
bg_color = 0x000000

-- The fields of `vbe_mode_info` in use.
pub record Mode : Type 0 where
  pub width : ℕ
  pub height : ℕ
  pub pitch : ℕ
  pub bpp : ℕ
  pub framebuffer : ℕ

-- The static variables of the driver, with the memory that it writes.
pub record Video : Type 0 where
  pub mode : Mode
  pub memory : ℕ → ℕ
  pub current_x : ℕ
  pub current_y : ℕ
  pub default_text_size : ℕ

abbrev pub valid_position : Mode → ℕ → ℕ → Bool
valid_position m x y = ltb x m.width && ltb y m.height

abbrev pub bytes_per_pixel : Mode → ℕ
bytes_per_pixel m = (m.bpp + 7) / 8

-- The loop that stores a colour from byte `i` on.
pub put_color : ℕ → ℕ → ℕ → ℕ → (ℕ → ℕ) → ℕ → ℕ
put_color zero i at color memory = memory
put_color (suc n) i at color memory =
    put_color n (i + 1) at color (update memory (at + i) (color / 2 ^ (8 * i) % 256))

pub put_pixel : Mode → ℕ → ℕ → ℕ → (ℕ → ℕ) → ℕ → ℕ
unfolding put_color
put_pixel m hex_color x y memory =
    if not (valid_position m x y)
    then memory
    else put_color (bytes_per_pixel m) 0 (m.framebuffer + (y * m.pitch + x * bytes_per_pixel m))
        hex_color memory

-- The loops of `v_fillRectangle`: `n` pixels of a row from `off` on, and `n` rows from `y` on.
pub fill_pixels : ℕ → Mode → ℕ → ℕ → (ℕ → ℕ) → ℕ → ℕ
unfolding put_color
fill_pixels zero m off color memory = memory
fill_pixels (suc n) m off color memory =
    fill_pixels n m (off + bytes_per_pixel m) color
      (put_color (bytes_per_pixel m) 0 (m.framebuffer + off) color memory)

pub fill_rows : ℕ → Mode → ℕ → ℕ → ℕ → ℕ → (ℕ → ℕ) → ℕ → ℕ
unfolding fill_pixels
fill_rows zero m y x0 x1 color memory = memory
fill_rows (suc n) m y x0 x1 color memory =
    fill_rows n m (y + 1) x0 x1 color
      (fill_pixels (x1 - x0) m (y * m.pitch + x0 * bytes_per_pixel m) color memory)

pub fill_rectangle : Mode → ℕ × ℕ → ℕ × ℕ → ℕ → (ℕ → ℕ) → ℕ → ℕ
unfolding fill_rows
fill_rectangle m (x0, y0) (x1, y1) color memory =
    if leb x1 x0 || leb y1 y0
    then memory
    else if not (valid_position m x0 y0)
    then memory
    else fill_rows (min y1 m.height - y0) m y0 x0 (min x1 m.width) color memory

-- The loop of `scroll`, `n` rows from `src_y` on.
pub scroll_rows : ℕ → Mode → ℕ → ℕ → (ℕ → ℕ) → ℕ → ℕ
unfolding memcpy
scroll_rows zero m line_height src_y memory = memory
scroll_rows (suc n) m line_height src_y memory = scroll_rows n m line_height (src_y + 1) (
    memcpy memory (m.framebuffer + (src_y - line_height) * m.pitch)
      (m.framebuffer + src_y * m.pitch) m.pitch)

-- The subtraction is in 64 bits.
pub scroll : Mode → ℕ → (ℕ → ℕ) → ℕ → ℕ
scroll m default_text_size memory =
    let line_height = default_text_size * font_height in
    let last_line_start = (m.height + 2 ^ 64 - line_height) % 2 ^ 64 in
    fill_rectangle m (0, last_line_start) (m.width, m.height) bg_color
      (scroll_rows (m.height - line_height) m line_height line_height memory)

pub new_line : Video → Video
new_line v =
    let m = v.mode in
    let step_y = v.default_text_size * font_height in
    let y = v.current_y + step_y in
    if ltb y m.height
    then record v {
      current_x = 0;
      current_y = y;
      memory = fill_rectangle m (0, y) (m.width, y + step_y) bg_color v.memory;
    }
    else record v {
      current_x = 0;
      current_y = (m.height + 2 ^ 64 - step_y) % 2 ^ 64;
      memory = scroll m v.default_text_size v.memory;
    }

-- The cursor's cell must end on the screen.
pub update_cursor : Video → Video
update_cursor v =
    if not (
      valid_position v.mode (v.current_x + font_width * v.default_text_size - 1)
        (v.current_y + font_height * v.default_text_size - 1))
    then new_line v
    else v

pub move_right : Video → Video
move_right v =
    let step_x = font_width * v.default_text_size in
    if ltb (v.current_x + step_x) v.mode.width
    then record v { current_x = v.current_x + step_x }
    else new_line v

-- `(line << j) & 0x80`
abbrev pub is_set : ℕ → ℕ → Bool
is_set line j = line * 2 ^ j / 128 % 2 == 1

-- The loops of `drawChar`: a row of `n` pixels, `n` such rows, `n` bits of a line, `n` lines.
pub draw_row : ℕ → Mode → ℕ → ℕ → ℕ → (ℕ → ℕ) → ℕ → ℕ
unfolding put_pixel
draw_row zero m color x y memory = memory
draw_row (suc n) m color x y memory = draw_row n m color (x + 1) y (put_pixel m color x y memory)

pub draw_square : ℕ → ℕ → Mode → ℕ → ℕ → ℕ → (ℕ → ℕ) → ℕ → ℕ
unfolding draw_row
draw_square zero size m color x y memory = memory
draw_square (suc n) size m color x y memory =
    draw_square n size m color x (y + 1) (draw_row size m color x y memory)

pub draw_bits : ℕ → ℕ → ℕ → Mode → ℕ → ℕ → ℕ → ℕ → (ℕ → ℕ) → ℕ → ℕ
unfolding draw_square
draw_bits zero j line m color x y size memory = memory
draw_bits (suc n) j line m color x y size memory =
    draw_bits n (j + 1) line m color x y size
      (if is_set line j then draw_square size size m color (x + j * size) y memory else memory)

pub draw_lines : ℕ → ℕ → (ℕ → ℕ) → Mode → ℕ → ℕ → ℕ → ℕ → (ℕ → ℕ) → ℕ → ℕ
unfolding draw_bits
draw_lines zero i glyph m color x y size memory = memory
draw_lines (suc n) i glyph m color x y size memory =
    draw_lines n (i + 1) glyph m color x y size
      (draw_bits font_width 0 (glyph i) m color x (y + i * size) size memory)

pub draw_char : (ℕ → ℕ → ℕ) → Mode → ℕ × ℕ → ℕ → ℕ → ℕ → (ℕ → ℕ) → ℕ → ℕ
unfolding draw_lines
draw_char font m (x, y) c color size memory =
    if leb 128 c
    then memory
    else draw_lines font_height 0 (font c) m color (x % 2 ^ 32) (y % 2 ^ 32) size memory

pub video_put_char : (ℕ → ℕ → ℕ) → ℕ → ℕ → Video → Video
video_put_char font c color v =
    let m = v.mode in
    let step_x = font_width * v.default_text_size in
    let step_y = font_height * v.default_text_size in
    let x = v.current_x - step_x in
    if c == 10 || (c == 13)
    then new_line v
    else if c == 8
    then (if leb step_x v.current_x
        then update_cursor (record v {
          current_x = x;
          memory =
              fill_rectangle m (x, v.current_y) (x + step_x, v.current_y + step_y) bg_color
                v.memory;
        })
        else v)
    else update_cursor (
        move_right (record v {
          memory = draw_char font m (v.current_x, v.current_y) c color v.default_text_size v.memory;
        }))

pub video_print : (ℕ → ℕ → ℕ) → List ℕ → ℕ → Video → Video
unfolding video_put_char
video_print font [] color v = v
video_print font (c ∷ cs) color v = video_print font cs color (video_put_char font c color v)

pub increase_font_size : Video → Video
increase_font_size v = update_cursor (
    if ltb v.default_text_size max_font_size
    then record v { default_text_size = v.default_text_size + 1 }
    else v)

pub decrease_font_size : Video → Video
decrease_font_size v = update_cursor (
    if ltb 1 v.default_text_size
    then record v { default_text_size = v.default_text_size - 1 }
    else v)

-- `drawFilledRect` over the whole screen.
pub clear_screen : Video → ℕ → Video
clear_screen v color = record v {
  memory = fill_rectangle v.mode (0, 0) (v.mode.width, v.mode.height) color v.memory;
  current_x = 0;
  current_y = 0;
}

-- The corner is added up in 64 bits.
pub fill_rect : Mode → ℕ × ℕ → ℕ × ℕ → ℕ → (ℕ → ℕ) → ℕ → ℕ
fill_rect m (x, y) (w, h) color memory =
    if w == 0 || (h == 0)
    then memory
    else fill_rectangle m (x, y) ((x + w) % 2 ^ 64, (y + h) % 2 ^ 64) color memory
