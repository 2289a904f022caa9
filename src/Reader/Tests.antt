-- ===== src/Reader/Tests.antt =====
-- Runs of the line reader and the redraw buffer.
use mass_os.Prelude.{ℕ, ◌≡◌, refl, true, false, none, some, List, [], ◌∷◌, ◌++◌, arith}
use mass_os.Reader.{write_to, clear_all, Screen, redraw_font, Event, blink, shell_read_line}
use mass_os.Reader.Lines.{line_of, Reads, shell_read_line_lem}
use mass_os.Reader.Redraw.{shown, redraw_font_lem}
use mass_os.Reader.{write_to, clear_all}

abbrev blank_screen : Screen
blank_screen = record { entries = []; cursor_visible = false; calls = [] }

abbrev no_text : ℕ → ℕ
no_text i = 0

abbrev key_at : ℕ → ℕ → Event
key_at c t = record { read = some c; now = t }

abbrev pause_at : ℕ → Event
pause_at t = record { read = none; now = t }

-- `a`, `b`, a pause in which the cursor blinks, a backspace, `c`.
abbrev keys_abc : List Event
keys_abc = key_at b'a' 1 ∷ key_at b'b' 2 ∷ pause_at 12 ∷ key_at 8 13 ∷ key_at b'c' 14 ∷ []

read_ac : line_of 100 [] keys_abc ≡ b'a' ∷ b'c' ∷ []
read_ac = refl

blinked :
    blink 2 12 blank_screen
    ≡ (12, record blank_screen { cursor_visible = true; calls = write_to 1 (b'_' ∷ []) ∷ [] })
unfolding blink
blinked = refl

abbrev two_outputs : Screen
two_outputs = record {
  entries = (b'a', 1) ∷ (b'b', 1) ∷ (b'c', 2) ∷ [];
  cursor_visible = false;
  calls = [];
}

drawn_again :
    (redraw_font two_outputs).calls
    ≡ clear_all ∷ write_to 1 (b'a' ∷ b'b' ∷ []) ∷ write_to 2 (b'c' ∷ []) ∷ []
unfolding redraw_font
drawn_again = refl

redraw_font_lem_example : shown [] (redraw_font two_outputs).calls ≡ two_outputs.entries
redraw_font_lem_example = redraw_font_lem two_outputs

shell_read_line_lem_example :
    Reads
      (shell_read_line 0 (keys_abc ++ (key_at 10 20 ∷ [])) no_text 100 blank_screen)
      100
      (b'a' ∷ b'c' ∷ [])
shell_read_line_lem_example =
    shell_read_line_lem keys_abc [] 0 20 100 no_text blank_screen
      (
        (λ e. ground arith),
        (
          (λ e. ground arith),
          ((λ e. ground arith), ((λ e. ground arith), ((λ e. ground arith), tt))),
        ),
      )
      (omega arith)
