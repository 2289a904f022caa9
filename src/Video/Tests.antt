-- ===== src/Video/Tests.antt =====
-- Runs of the video driver on a small screen, and the properties of the cursor and the framebuffer
-- there.
-- A screen of one column of the largest letters, higher than one of them and lower than two.
use mass_os.Prelude.{◌==◌, if◌then◌else◌, ℕ, ◌+◌, ◌*◌, ◌<◌, ◌≡◌, refl, inl, [], ◌∷◌, arith}
use mass_os.Video.{
  font_height, Mode, Video, put_color, put_pixel, fill_pixels, fill_rows, fill_rectangle, scroll,
  new_line, update_cursor, move_right, draw_row, draw_square, draw_bits, draw_lines, draw_char,
  video_put_char, video_print, increase_font_size, decrease_font_size, fill_rect,
}
use mass_os.Video.Bottom.{new_line-short}
use mass_os.Video.Cursor.{IsOnScreen, put_text, text_call, text_call-IsOnScreen}
use mass_os.Video.Frame.{video_put_char-frame}
use mass_os.Video.Pixels.{IsMode}
use mass_os.Video.Rows.{row, scroll_lem}

abbrev narrow : Mode
narrow = record { width = 40; height = 96; pitch = 160; bpp = 32; framebuffer = 1000 }

abbrev blank : ℕ → ℕ
blank i = 0

abbrev narrow_video : Video
narrow_video = record {
  mode = narrow;
  memory = blank;
  current_x = 0;
  current_y = 0;
  default_text_size = 5;
}

-- Each letter is a dot in its upper left corner.
abbrev dot_font : ℕ → ℕ → ℕ
dot_font c i = if i == 0 then 0x80 else 0

abbrev tiny : Mode
tiny = record { width = 4; height = 3; pitch = 8; bpp = 16; framebuffer = 100 }

pixel : put_pixel tiny 0x1234 1 2 blank 119 ≡ 0x12
unfolding put_pixel put_color
pixel = refl

pixel_right_of_screen : put_pixel tiny 0x1234 4 0 blank 108 ≡ 0
unfolding put_pixel put_color
pixel_right_of_screen = refl

rectangle_cut : fill_rect tiny (3, 1) (9, 1) 0x0101 blank 115 ≡ 1
unfolding fill_rect fill_rectangle fill_rows fill_pixels put_color
rectangle_cut = refl

rectangle_below : fill_rect tiny (3, 1) (9, 1) 0x0101 blank 116 ≡ 0
unfolding fill_rect fill_rectangle fill_rows fill_pixels put_color
rectangle_below = refl

drawn_dot : draw_char dot_font tiny (1, 1) 65 0x0505 1 blank 110 ≡ 5
unfolding draw_char draw_lines draw_bits draw_square draw_row put_pixel put_color
drawn_dot = refl

abbrev small_video : Video
small_video = record narrow_video { default_text_size = 1 }

printed : (video_print dot_font (65 ∷ 66 ∷ 10 ∷ 67 ∷ []) 1 small_video).current_x ≡ 8
unfolding video_print video_put_char move_right update_cursor new_line
printed = refl

shrunk : (decrease_font_size small_video).default_text_size ≡ 1
unfolding decrease_font_size update_cursor
shrunk = refl

grown : (increase_font_size small_video).default_text_size ≡ 2
unfolding increase_font_size update_cursor
grown = refl

narrow-IsOnScreen : IsOnScreen narrow_video
narrow-IsOnScreen = record {
  wide = omega arith;
  high = omega arith;
  small = omega arith;
  sized = omega arith;
  sized' = omega arith;
  x_in = omega arith;
  y_in = omega arith;
}

narrow-IsMode : IsMode narrow
narrow-IsMode = record { row_fits = omega arith }

text_call-IsOnScreen_example : IsOnScreen (text_call dot_font (put_text 65 1) narrow_video)
text_call-IsOnScreen_example =
    text_call-IsOnScreen dot_font (put_text 65 1) narrow_video narrow-IsOnScreen

video_put_char-frame_example : (video_put_char dot_font 65 1 narrow_video).memory 999 ≡ 0
video_put_char-frame_example =
    video_put_char-frame dot_font 65 1 narrow_video 999 narrow-IsMode narrow-IsOnScreen
      (inl (omega arith))

scroll_lem_example :
    scroll narrow 5 (λ i. i) (row narrow 3 + 7) ≡ row narrow (3 + 5 * font_height) + 7
scroll_lem_example =
    scroll_lem narrow 5 (λ i. i) 3 7 narrow-IsMode (omega arith) (omega arith) (omega arith)
      (omega arith)

new_line-short_example :
    ((new_line narrow_video).current_y ≡ 80)
    × ((video_put_char dot_font 65 1 (new_line narrow_video)).current_x ≡ 0)
    × ((video_put_char dot_font 65 1 (new_line narrow_video)).current_y
        < (new_line narrow_video).current_y)
new_line-short_example =
    new_line-short dot_font 65 1 narrow_video narrow-IsOnScreen (omega arith) (omega arith)
      (omega arith)
