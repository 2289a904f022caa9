-- ===== src/Terminal.antt =====
-- `fd_read` and `fd_write` of Kernel/c/pipe/fd.c: the terminal in cooked and raw mode, and pipes.
-- `buf` says whether the caller's buffer is not NULL, and the bytes that are stored in it are part of
-- the result.
pub mod Line
pub mod Bounds
pub mod Pipes
mod Tests
use mass_os.Prelude.{
  ltb, ◌==◌, if◌then◌else◌, length, slice, ℕ, ◌+◌, ◌-◌, ◌%◌, min, Bool, true, false, not, ◌&&◌,
  ◌||◌, Option, none, some, List, [], ◌∷◌, ◌++◌,
}
use mass_os.Kernel.{blocked, FdType, fd_terminal, fd_pipe_read, fd_pipe_write, Kernel, set_pcb}
use mass_os.Keyboard.{Keyboard, Machine, is_cooked, read_key_buff, kbd_set_waiting}
use mass_os.Pipe.{would_block, pipe_read, pipe_write}

-- A line is delivered: all of it, or its first `count` bytes, and the rest moves to the front.
pub read_line : Keyboard → ℕ → List ℕ × Keyboard
read_line kb count =
    let to_copy = min kb.tty_line_len count in
    (
      slice kb.tty_line 0 to_copy,
      if to_copy == kb.tty_line_len
          then record kb { tty_line_len = 0; tty_line_ready = false; tty_eof = false }
          else record kb {
            tty_line = λ i.
                if ltb i (kb.tty_line_len - to_copy)
                then kb.tty_line (i + to_copy)
                else kb.tty_line i;
            tty_line_len = kb.tty_line_len - to_copy;
          },
    )

abbrev pub starts_with_eof : List ℕ → Bool
starts_with_eof [] = false
starts_with_eof (c ∷ cs) = c == 4

-- `videoPutChar` of each byte.
pub put_chars : List ℕ → ℕ → List (ℕ × ℕ)
put_chars [] color = []
put_chars (b ∷ bs) color = (b % 256, color) ∷ put_chars bs color

module _ {H : Type 0} where
  -- The process waits for the keyboard.
  pub block_on_keyboard : Kernel H → ℕ → Kernel H
  unfolding kbd_set_waiting
  block_on_keyboard k p =
      let k' = kbd_set_waiting k p in
      record (set_pcb k' p (record (k'.process_table p) { state = blocked })) {
        force_switch = true;
      }

  pub read_cooked : Machine H → ℕ → ℕ → ℕ × List ℕ × Machine H
  unfolding block_on_keyboard
  read_cooked m count p =
      let kb = m.keyboard in
      if kb.tty_eof && (kb.tty_line_len == 0)
      then (0, [], record m { keyboard = record kb { tty_eof = false } })
      else if kb.tty_line_ready || kb.tty_eof
      then (let (bytes, kb') = read_line kb count in
          (min kb.tty_line_len count, bytes, record m { keyboard = kb' }))
      else (would_block, [], record m { kernel = block_on_keyboard m.kernel p })

  pub read_raw : Machine H → ℕ → ℕ → ℕ × List ℕ × Machine H
  unfolding block_on_keyboard
  read_raw m count p =
      let (bytes, kb) = read_key_buff m.keyboard count in
      let m' = record m { keyboard = kb } in
      if starts_with_eof bytes
      then (0, bytes, m')
      else if length bytes == 0
      then (would_block, bytes, record m' { kernel = block_on_keyboard m'.kernel p })
      else (length bytes, bytes, m')

  pub read_terminal : Machine H → ℕ → Option ℕ → ℕ × List ℕ × Machine H
  unfolding read_cooked read_raw
  read_terminal m count none = (0, [], m)
  read_terminal m count (some p) =
      if (m.kernel.process_table p).foreground == 0
      then (0, [], m)
      else if is_cooked m.keyboard.tty_mode
      then read_cooked m count p
      else read_raw m count p

  pub read_pipe : Machine H → Option ℕ → ℕ → ℕ × List ℕ × Machine H
  read_pipe m p count =
      let (n, bytes, k) = pipe_read m.kernel p count in (n, bytes, record m { kernel = k })

  pub read_as : FdType → Machine H → Option ℕ → ℕ → Option ℕ → ℕ × List ℕ × Machine H
  unfolding read_terminal read_pipe
  read_as fd_terminal m pipe count cur = read_terminal m count cur
  read_as fd_pipe_read m pipe count cur = read_pipe m pipe count
  read_as _ m pipe count cur = (0, [], m)

  pub fd_read : Machine H → Option ℕ → Bool → ℕ → Option ℕ → ℕ × List ℕ × Machine H
  unfolding read_as
  fd_read m none buf count cur = (0, [], m)
  fd_read m (some d) buf count cur =
      let entry = m.kernel.fd_table d in
      if not buf || (count == 0) then (0, [], m) else read_as entry.type m entry.pipe count cur

  pub write_as : FdType → Machine H → Option ℕ → List ℕ → ℕ → ℕ × Machine H
  unfolding put_chars
  write_as fd_terminal m pipe bytes color =
      (length bytes, record m { screen = m.screen ++ put_chars bytes color })
  write_as fd_pipe_write m pipe bytes color =
      let (n, k) = pipe_write m.kernel pipe bytes in (n, record m { kernel = k })
  write_as _ m pipe bytes color = (0, m)

  -- The `count` bytes at `buf`, `none` for NULL.
  pub fd_write : Machine H → Option ℕ → Option (List ℕ) → ℕ → ℕ × Machine H
  unfolding write_as
  fd_write m none buf color = (0, m)
  fd_write m (some d) none color = (0, m)
  fd_write m (some d) (some bytes) color =
      let entry = m.kernel.fd_table d in
      if length bytes == 0 then (0, m) else write_as entry.type m entry.pipe bytes color
