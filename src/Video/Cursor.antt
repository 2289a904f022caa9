-- ===== src/Video/Cursor.antt =====
-- Text of Kernel/c/drivers/videoDriver.c: where the cursor stands, and what a character writes.
use mass_os.Prelude.{
  ltb, leb, ◌==◌, ltb→lt, Bool-cases, ℕ, ◌+◌, ◌-◌, ◌*◌, ◌^◌, ◌≤◌, ◌<◌, inl, inr, ◌||◌, arith,
}
use mass_os.Video.{
  font_width, font_height, max_font_size, Video, valid_position, new_line, update_cursor,
  move_right, video_put_char, increase_font_size, decrease_font_size, clear_screen,
}

-- The screen has room for the largest font, and the cursor is on it.
pub record IsOnScreen (v : Video) : Type 0 where
  pub wide : font_width * max_font_size ≤ v.mode.width
  pub high : font_height * max_font_size ≤ v.mode.height
  pub small : v.mode.height < 2 ^ 64
  pub sized : 1 ≤ v.default_text_size
  pub sized' : v.default_text_size ≤ max_font_size
  pub x_in : v.current_x < v.mode.width
  pub y_in : v.current_y < v.mode.height

pub new_line-IsOnScreen : (v : Video) → IsOnScreen v → IsOnScreen (new_line v)
unfolding new_line
new_line-IsOnScreen v i =
    elim (Bool-cases (ltb (v.current_y + v.default_text_size * font_height) v.mode.height)) [
      | inl e ↦ rw e (record {
        wide = i.wide;
        high = i.high;
        small = i.small;
        sized = i.sized;
        sized' = i.sized';
        x_in = omega (arith, i.wide);
        y_in = ltb→lt _ _ e;
      })
      | inr e ↦ rw e (record {
        wide = i.wide;
        high = i.high;
        small = i.small;
        sized = i.sized;
        sized' = i.sized';
        x_in = omega (arith, i.wide);
        y_in = omega (arith, i.high, i.small, i.sized, i.sized');
      })
    ]

pub update_cursor-IsOnScreen : (v : Video) → IsOnScreen v → IsOnScreen (update_cursor v)
unfolding update_cursor
update_cursor-IsOnScreen v i =
    elim (Bool-cases (
      valid_position v.mode (v.current_x + font_width * v.default_text_size - 1)
        (v.current_y + font_height * v.default_text_size - 1))) [
          | inl e ↦ rw e i
          | inr e ↦ rw e (new_line-IsOnScreen v i)
        ]

pub placed :
    (v : Video) (x : ℕ) (memory : ℕ → ℕ)
    → IsOnScreen v
    → x < v.mode.width
    → IsOnScreen (record v { current_x = x; memory = memory })
placed v x memory i lt = record {
  wide = i.wide;
  high = i.high;
  small = i.small;
  sized = i.sized;
  sized' = i.sized';
  x_in = lt;
  y_in = i.y_in;
}

pub move_right-IsOnScreen : (v : Video) → IsOnScreen v → IsOnScreen (move_right v)
unfolding move_right
move_right-IsOnScreen v i =
    elim (Bool-cases (ltb (v.current_x + font_width * v.default_text_size) v.mode.width)) [
      | inl e ↦ rw e (placed v _ v.memory i (ltb→lt _ _ e))
      | inr e ↦ rw e (new_line-IsOnScreen v i)
    ]

-- Each character leaves the cursor on the screen.
pub video_put_char-IsOnScreen :
    (font : ℕ → ℕ → ℕ) (c color : ℕ) (v : Video)
    → IsOnScreen v
    → IsOnScreen (video_put_char font c color v)
unfolding video_put_char
video_put_char-IsOnScreen font c color v i = elim (Bool-cases (c == 10 || (c == 13))) [
  | inl e ↦ rw e (new_line-IsOnScreen v i)
  | inr e ↦ elim (Bool-cases (c == 8)) [
    | inl back ↦ elim (Bool-cases (leb (font_width * v.default_text_size) v.current_x)) [
      | inl room ↦
          rw (e, back, room) (update_cursor-IsOnScreen _ (placed v _ _ i (omega (arith, i.x_in))))
      | inr edge ↦ rw (e, back, edge) i
    ]
    | inr other ↦
        rw (e, other)
          (update_cursor-IsOnScreen _ (move_right-IsOnScreen _ (placed v v.current_x _ i i.x_in)))
  ]
]

pub resized :
    (v : Video) (size : ℕ)
    → IsOnScreen v
    → 1 ≤ size
    → size ≤ max_font_size
    → IsOnScreen (record v { default_text_size = size })
resized v size i low high = record {
  wide = i.wide;
  high = i.high;
  small = i.small;
  sized = low;
  sized' = high;
  x_in = i.x_in;
  y_in = i.y_in;
}

increase_font_size-IsOnScreen : (v : Video) → IsOnScreen v → IsOnScreen (increase_font_size v)
unfolding increase_font_size
increase_font_size-IsOnScreen v i = elim (Bool-cases (ltb v.default_text_size max_font_size)) [
  | inl e ↦
      rw e (update_cursor-IsOnScreen _ (resized v _ i (omega arith) (ground (arith, i.sized'))))
  | inr e ↦ rw e (update_cursor-IsOnScreen v i)
]

decrease_font_size-IsOnScreen : (v : Video) → IsOnScreen v → IsOnScreen (decrease_font_size v)
unfolding decrease_font_size
decrease_font_size-IsOnScreen v i = elim (Bool-cases (ltb 1 v.default_text_size)) [
  | inl e ↦
      rw e (update_cursor-IsOnScreen _ (resized v _ i (ground arith) (omega (arith, i.sized'))))
  | inr e ↦ rw e (update_cursor-IsOnScreen v i)
]

clear_screen-IsOnScreen : (v : Video) (color : ℕ) → IsOnScreen v → IsOnScreen (clear_screen v color)
unfolding clear_screen
clear_screen-IsOnScreen v color i = record {
  wide = i.wide;
  high = i.high;
  small = i.small;
  sized = i.sized;
  sized' = i.sized';
  x_in = omega (arith, i.wide);
  y_in = omega (arith, i.high);
}

-- What a process or the keyboard can do to the text on the screen.
pub data TextCall : Type 0 where
  put_text : ℕ → ℕ → TextCall
  grow_font : TextCall
  shrink_font : TextCall
  clear_text : ℕ → TextCall

abbrev pub text_call : (ℕ → ℕ → ℕ) → TextCall → Video → Video
text_call font (put_text c color) v = video_put_char font c color v
text_call font grow_font v = increase_font_size v
text_call font shrink_font v = decrease_font_size v
text_call font (clear_text color) v = clear_screen v color

-- On a screen with room for the largest font, the cursor stays on the screen under every character,
-- change of the font's size, and clearing.
pub text_call-IsOnScreen :
    (font : ℕ → ℕ → ℕ) (call : TextCall) (v : Video)
    → IsOnScreen v
    → IsOnScreen (text_call font call v)
text_call-IsOnScreen font (put_text c color) v i = video_put_char-IsOnScreen font c color v i
text_call-IsOnScreen font grow_font v i = increase_font_size-IsOnScreen v i
text_call-IsOnScreen font shrink_font v i = decrease_font_size-IsOnScreen v i
text_call-IsOnScreen font (clear_text color) v i = clear_screen-IsOnScreen v color i
