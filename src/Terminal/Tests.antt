-- ===== src/Terminal/Tests.antt =====
-- Runs of reading from the terminal, and the theorems on it at inputs.
-- Process 1 waits for a line.
use mass_os.Prelude.{◌==◌, if◌then◌else◌, pos, ℕ, ◌≡◌, refl, true, none, some, List, [], ◌∷◌, arith}
use mass_os.Fd.Creating.{entry_of}
use mass_os.Fixtures.{closed_pipe, sample, no_memory, idle_keyboard, raw_machine}
use mass_os.Kernel.{fd_none, fd_terminal, fd_pipe_read, fd_pipe_write, FdEntry}
use mass_os.Keyboard.{Machine, read_key_buff, handle_pressed_key}
use mass_os.Pipe.{would_block}
use mass_os.Terminal.{read_line, put_chars, read_cooked, read_raw, read_terminal, fd_write}
use mass_os.Terminal.Bounds.{IsTerminal, handle_pressed_key-IsTerminal}
use mass_os.Terminal.Pipes.{IsDelivered, fd_read-fd_write}

abbrev reading : Machine (Unit {0})
reading = record raw_machine {
  kernel = record sample { kbd_waiting_process = some 1 };
  keyboard = record idle_keyboard { tty_mode = pos 1 };
}

-- `ax`, a backspace, `b`
abbrev keystrokes : List ℕ
keystrokes = b'a' ∷ b'x' ∷ 8 ∷ b'b' ∷ []

reading-IsTerminal : IsTerminal reading
reading-IsTerminal = record {
  ring = record { start_in = omega arith; fits = omega arith; end_at = refl };
  line_fits = omega arith;
  open_fits = λ e. omega arith;
  reader_waits = λ p e. refl;
}

handle_pressed_key-IsTerminal_example :
    IsTerminal (handle_pressed_key no_memory (λ _. 0) 0x1E reading)
handle_pressed_key-IsTerminal_example =
    handle_pressed_key-IsTerminal no_memory (λ _. 0) 0x1E reading reading-IsTerminal

-- A read of the terminal by the foreground process with nothing typed blocks it.
blocks_raw : (read_terminal raw_machine 5 (some 3)).0 ≡ would_block
unfolding read_terminal read_raw read_key_buff
blocks_raw = refl

not_foreground : (read_terminal raw_machine 5 (some 1)).0 ≡ 0
unfolding read_terminal
not_foreground = refl

-- Descriptor 0 is the terminal, 3 and 4 are the ends of pipe 0.
abbrev ends : ℕ → FdEntry
ends d =
    if d == 0
    then record { type = fd_terminal; refcount = 1; pipe = none }
    else if d == 3
    then entry_of fd_pipe_read 0
    else if d == 4
    then entry_of fd_pipe_write 0
    else record { type = fd_none; refcount = 0; pipe = none }

abbrev piped : Machine (Unit {0})
piped = record raw_machine {
  kernel = record sample {
    fd_table = ends;
    pipe_table = λ _. record closed_pipe { open_read = 1; open_write = 1; in_use = true };
  };
}

printed : (fd_write piped (some 0) (some (104 ∷ 321 ∷ [])) 7).1.screen ≡ (104, 7) ∷ (65, 7) ∷ []
unfolding fd_write put_chars
printed = refl

wrong_end : (fd_write piped (some 3) (some (104 ∷ [])) 7).0 ≡ 0
unfolding fd_write
wrong_end = refl

eof_line :
    (read_cooked (record reading { keyboard = record idle_keyboard { tty_eof = true } }) 5 1).0 ≡ 0
unfolding read_cooked read_line
eof_line = refl

fd_read-fd_write_example : IsDelivered piped 3 4 7 10 (some 1) (1 ∷ 258 ∷ [])
fd_read-fd_write_example =
    fd_read-fd_write piped 3 4 0 7 10 (some 1) (1 ∷ 258 ∷ []) refl refl
      (record { read_in = omega arith; fits = omega arith; write_at = refl }) refl (omega arith)
      refl (omega arith) (omega arith) (omega arith)
