-- ===== src/Reader.antt =====
-- Userland/c/shell/shell.c, the reading of a line with a blinking cursor, and the redraw buffer of
-- Userland/c/shell/userlib.c. What `sys_read` and `sys_ticks` answer is a list of events, and the
-- calls that reach the screen are listed.
pub mod Redraw
pub mod Lines
mod Tests
use mass_os.Prelude.{
  ltb, leb, ◌==◌, if◌then◌else◌, length, drop, update, ℕ, ◌+◌, ◌-◌, ◌%◌, ◌^◌, Bool, true, false,
  not, ◌&&◌, ◌||◌, Option, none, some, List, [], ◌∷◌, ◌++◌,
}

abbrev pub redraw_buff : ℕ
redraw_buff = 4096

abbrev pub stdout : ℕ
stdout = 1

-- A call that changes the screen.
pub data ScreenCall : Type 0 where
  write_to : ℕ → List ℕ → ScreenCall
  clear_all : ScreenCall
  larger_font : ScreenCall
  smaller_font : ScreenCall

-- The static variables: the entries of the redraw buffer, characters with their descriptors, and
-- whether the cursor shows; and the calls so far.
pub record Screen : Type 0 where
  pub entries : List (ℕ × ℕ)
  pub cursor_visible : Bool
  pub calls : List ScreenCall

abbrev pub emit : Screen → ScreenCall → Screen
emit s call = record s { calls = s.calls ++ (call ∷ []) }

pub redraw_append_char : ℕ → ℕ → Screen → Screen
redraw_append_char c fd s =
    let kept = if leb redraw_buff (length s.entries) then drop 1 s.entries else s.entries in
    record s { entries = kept ++ ((c, fd) ∷ []) }

-- `buffer` holds what is not written yet, for the descriptor `current`.
pub redraw_loop : List (ℕ × ℕ) → ℕ → List ℕ → Screen → Screen
redraw_loop [] current buffer s =
    if ltb 0 (length buffer) then emit s (write_to current buffer) else s
redraw_loop ((c, fd) ∷ es) current buffer s =
    let flush = not (fd == current) || leb (redraw_buff - 1) (length buffer) in
    redraw_loop es (if flush then fd else current)
      ((if flush && ltb 0 (length buffer) then [] else buffer) ++ (c ∷ []))
      (if flush && ltb 0 (length buffer) then emit s (write_to current buffer) else s)

-- The loop starts with the descriptor of the first entry.
pub redraw_entries : List (ℕ × ℕ) → Screen → Screen
unfolding redraw_loop
redraw_entries [] s = s
redraw_entries ((c, fd) ∷ es) s = redraw_loop ((c, fd) ∷ es) fd [] s

pub redraw_font : Screen → Screen
unfolding redraw_entries
redraw_font s = redraw_entries s.entries (emit s clear_all)

pub show_cursor : Screen → Screen
show_cursor s =
    if not s.cursor_visible
    then record s { calls = s.calls ++ (write_to stdout (b'_' ∷ []) ∷ []); cursor_visible = true }
    else s

pub hide_cursor : Screen → Screen
hide_cursor s =
    if s.cursor_visible
    then record s { calls = s.calls ++ (write_to stdout (8 ∷ []) ∷ []); cursor_visible = false }
    else s

pub shell_putchar : ℕ → ℕ → Screen → Screen
unfolding redraw_append_char
shell_putchar c fd s = emit (redraw_append_char c fd s) (write_to fd (c ∷ []))

-- A character is echoed, or the font changes and all is drawn again, with the cursor put away.
abbrev pub echoed : ℕ → Screen → Screen
echoed c s = show_cursor (shell_putchar c stdout (hide_cursor s))

abbrev pub refonted : ScreenCall → Screen → Screen
refonted call s = show_cursor (redraw_font (emit (hide_cursor s) call))

-- What a character that is no newline does to the buffer, `idx` and the screen. `idx` is a plain number:
-- the only caller's buffer has 100 bytes, and the 32 bits of the code never wrap.
pub typed : ℕ → ℕ → (ℕ → ℕ) × ℕ × Screen → (ℕ → ℕ) × ℕ × Screen
unfolding show_cursor hide_cursor shell_putchar redraw_font
typed max_length c (buffer, idx, s) =
    if c == 8
    then (if ltb 0 idx then (buffer, idx - 1, echoed 8 s) else (buffer, idx, s))
    else if c == b'+'
    then (buffer, idx, refonted larger_font s)
    else if c == b'-'
    then (buffer, idx, refonted smaller_font s)
    else if ltb (idx + 1) max_length
    then (update buffer idx c, idx + 1, echoed c s)
    else (buffer, idx, s)

-- A round of the loop: the character that `sys_read` gave, if any, and what `sys_ticks` said.
pub record Event : Type 0 where
  pub read : Option ℕ
  pub now : ℕ

abbrev pub blink_interval : ℕ
blink_interval = 9

-- Nothing was read: the cursor blinks when it is due.
pub blink : ℕ → ℕ → Screen → ℕ × Screen
unfolding show_cursor hide_cursor
blink last_blink now s =
    if leb blink_interval ((now + 2 ^ 64 - last_blink) % 2 ^ 64)
    then (now, if s.cursor_visible then hide_cursor s else show_cursor s)
    else (last_blink, s)

-- The loop, `none` when the events end before the line does.
pub read_events : List Event → ℕ → ℕ → (ℕ → ℕ) × ℕ × Screen → Option ((ℕ → ℕ) × Screen)
unfolding typed blink
read_events [] max_length last_blink state = none
read_events (e ∷ es) max_length last_blink (buffer, idx, s) = elim e.read [
  | none ↦
      let (last, s') = blink last_blink e.now s in read_events es max_length last (buffer, idx, s')
  | some c ↦
      let rest = read_events es max_length e.now (typed max_length c (buffer, idx, s)) in
      if c == 10 then some (update buffer idx 0, s) else rest
]

pub shell_read_line : ℕ → List Event → (ℕ → ℕ) → ℕ → Screen → Option ((ℕ → ℕ) × Screen)
unfolding read_events show_cursor
shell_read_line now events buffer max_length s =
    read_events events max_length now (buffer, 0, show_cursor s)
