-- ===== src/Keyboard.antt =====
-- Kernel/c/drivers/keyboardDriver.c: the ring of typed characters, the line that is edited in cooked
-- mode, the scan codes, and the snapshot of the registers. The scan code that the controller gave is
-- an argument, and so are the registers that the interrupt routine saved.
pub mod Keys
mod Tests
use mass_os.Prelude.{
  ltb, ◌==◌, if◌then◌else◌, ℤ, pos, negsuc, get_or, update, ℕ, zero, suc, ◌+◌, ◌-◌, ◌%◌, Bool, true,
  false, not, ◌&&◌, ◌||◌, Option, none, some, List, [], ◌∷◌, ◌++◌,
}
use mass_os.Digits.{int_to_hexa}
use mass_os.Kernel.{ready, Kernel, MemoryManager, set_pcb}
use mass_os.Process.Lifecycle.{process_kill_foreground}
use mass_os.Text.{codes}

-- BUFF_LENGTH
abbrev pub buff_length : ℕ
buff_length = 256

-- sizeof(tty_line)
abbrev pub line_length : ℕ
line_length = 256

abbrev pub registers_buffer_size : ℕ
registers_buffer_size = 1024

abbrev pub white : ℕ
white = 0xFFFFFF

-- The static variables of the driver; `registers_buff` is the text before its NUL.
pub record Keyboard : Type 0 where
  pub buff : ℕ → ℕ
  pub buff_size : ℕ
  pub start_index : ℕ
  pub end_index : ℕ
  pub shift : Bool
  pub caps : Bool
  pub ctrl : Bool
  pub registers_buff : List ℕ
  pub bool_registers : Bool
  pub tty_mode : ℤ
  pub tty_line : ℕ → ℕ
  pub tty_line_len : ℕ
  pub tty_line_ready : Bool
  pub tty_eof : Bool

-- The kernel with its terminal. `screen` is what was passed to `videoPutChar`, in order: each
-- character with its colour.
pub record Machine (H : Type 0) : Type 0 where
  pub kernel : Kernel H
  pub keyboard : Keyboard
  pub screen : List (ℕ × ℕ)

-- `tty_mode == TTY_COOKED`
abbrev pub is_cooked : ℤ → Bool
is_cooked (pos n) = n == 1
is_cooked (negsuc n) = false

unfoldable pub tty_set_mode : Keyboard → ℤ → Keyboard
tty_set_mode kb mode = record kb {
  tty_mode = mode;
  tty_line_len = 0;
  tty_line_ready = false;
  tty_eof = false;
}

unfoldable pub write_buff : Keyboard → ℕ → Keyboard
write_buff kb c =
    let written = record kb {
      buff = update kb.buff kb.end_index c;
      end_index = (kb.end_index + 1) % buff_length;
    } in
    if ltb kb.buff_size buff_length
    then record written { buff_size = kb.buff_size + 1 }
    else record written { start_index = (kb.start_index + 1) % buff_length }

clear_buff : Keyboard → Keyboard
clear_buff kb = record kb { buff_size = 0; start_index = 0; end_index = 0 }

-- 255 for an empty buffer.
unfoldable pub get_from_buffer : Keyboard → ℕ × Keyboard
get_from_buffer kb = if kb.buff_size == 0 then (255, kb) else (
  kb.buff kb.start_index,
  record kb { buff_size = kb.buff_size - 1; start_index = (kb.start_index + 1) % buff_length },
)

-- The loop of `readKeyBuff` from `i` on. Each round takes a character, so `buff_size` rounds are
-- enough.
unfoldable pub read_keys : ℕ → ℕ → ℕ → Keyboard → List ℕ × Keyboard
unfolding get_from_buffer
read_keys zero i count kb = ([], kb)
read_keys (suc n) i count kb =
    let (c, kb') = get_from_buffer kb in
    let (cs, kb'') = read_keys n (i + 1) count kb' in
    if ltb i count && ltb i kb.buff_size then (c ∷ cs, kb'') else ([], kb)

-- The bytes that are stored in the caller's buffer; the result of the C function is their number.
unfoldable pub read_key_buff : Keyboard → ℕ → List ℕ × Keyboard
unfolding read_keys
read_key_buff kb count = read_keys kb.buff_size 0 count kb

-- `kbd_min` and `kbd_mayus`; the rest of the 128 entries is 0.
abbrev kbd_min : List ℕ
kbd_min =
    0 ∷ 27 ∷ codes "1234567890-="
    ++ 8 ∷ 9 ∷ codes "qwertyuiop[]"
    ++ 10 ∷ 0 ∷ codes "asdfghjkl;'`"
    ++ 0 ∷ codes "\\zxcvbnm,./"
    ++ 0 ∷ 42 ∷ 0 ∷ 32 ∷ []

abbrev kbd_mayus : List ℕ
kbd_mayus =
    0 ∷ 27 ∷ codes "!@#$%^&*()_+"
    ++ 8 ∷ 9 ∷ codes "QWERTYUIOP{}"
    ++ 10 ∷ 0 ∷ codes "ASDFGHJKL:\"~"
    ++ 0 ∷ codes "|ZXCVBNM<>?"
    ++ 0 ∷ 42 ∷ 0 ∷ 32 ∷ []

-- `kbd_manager[(shift + caps) % 2][scancode]`
pub key_char : Bool → Bool → ℕ → ℕ
key_char shift caps scancode =
    let flags = (if shift then 1 else 0) + (if caps then 1 else 0) in
    if flags % 2 == 0 then get_or kbd_min scancode 0 else get_or kbd_mayus scancode 0

register_names : List (List ℕ)
register_names =
    codes "RAX: 0x"
    ∷ codes "RBX: 0x"
    ∷ codes "RCX: 0x"
    ∷ codes "RDX: 0x"
    ∷ codes "RBP: 0x"
    ∷ codes "RDI: 0x"
    ∷ codes "RSI: 0x"
    ∷ codes "R8: 0x"
    ∷ codes "R9: 0x"
    ∷ codes "R10: 0x"
    ∷ codes "R11: 0x"
    ∷ codes "R12: 0x"
    ∷ codes "R13: 0x"
    ∷ codes "R14: 0x"
    ∷ codes "R15: 0x"
    ∷ codes "RIP: 0x"
    ∷ codes "CS: 0x"
    ∷ codes "RFLAGS: 0x"
    ∷ codes "RSP: 0x"
    ∷ codes "SS: 0x"
    ∷ []

-- The loop of `storeSnapshot` over the names, from register `i` on.
pub snapshot_from : (ℕ → ℕ) → ℕ → List (List ℕ) → List ℕ
snapshot_from regs i [] = []
snapshot_from regs i (name ∷ names) =
    name ++ (int_to_hexa (regs i) ++ (10 ∷ snapshot_from regs (i + 1) names))

unfoldable pub store_snapshot : (ℕ → ℕ) → Keyboard → Keyboard
unfolding snapshot_from register_names
store_snapshot regs kb = record kb { registers_buff = snapshot_from regs 0 register_names }

-- The text that is copied, `none` where there is no snapshot and the result is 0.
pub copy_registers_buffer : Keyboard → Option (List ℕ)
copy_registers_buffer kb = if kb.bool_registers then some kb.registers_buff else none

-- `tty_line[tty_line_len++] = c`
abbrev pub line_append : Keyboard → ℕ → Keyboard
line_append kb c = record kb {
  tty_line = update kb.tty_line kb.tty_line_len c;
  tty_line_len = kb.tty_line_len + 1;
}

module _ {H : Type 0} where
  unfoldable pub kbd_set_waiting : Kernel H → ℕ → Kernel H
  kbd_set_waiting k p = record k { kbd_waiting_process = some p }

  -- The process that waits for input becomes READY.
  unfoldable pub wake_reader : Kernel H → Kernel H
  wake_reader k = elim k.kbd_waiting_process [
    | none ↦ k
    | some p ↦ record (set_pcb k p (record (k.process_table p) { state = ready })) {
      kbd_waiting_process = none;
    }
  ]

  abbrev pub has_reader : Kernel H → Bool
  has_reader k = elim k.kbd_waiting_process [ none ↦ false | some p ↦ true ]

  abbrev pub edits_line : Machine H → Bool
  edits_line m = is_cooked m.keyboard.tty_mode && has_reader m.kernel

  abbrev pub echo_char : Machine H → ℕ → Machine H
  echo_char m c = record m { screen = m.screen ++ ((c, white) ∷ []) }

  -- The character `c` was typed.
  unfoldable pub type_char : Machine H → ℕ → Machine H
  unfolding write_buff wake_reader
  type_char m c =
      let kb = m.keyboard in
      if edits_line m
      then (if c == 10
          then record (echo_char m c) {
            keyboard = record (line_append kb c) { tty_line_ready = true };
            kernel = wake_reader m.kernel;
          }
          else if c == 8
          then (if ltb 0 kb.tty_line_len
              then record (echo_char m 8) {
                keyboard = record kb { tty_line_len = kb.tty_line_len - 1 };
              }
              else m)
          else if ltb kb.tty_line_len (line_length - 1)
          then record (echo_char m c) { keyboard = line_append kb c }
          else m)
      else record m { keyboard = write_buff kb c; kernel = wake_reader m.kernel }

  -- Ctrl + D
  unfoldable pub type_eof : Machine H → Machine H
  unfolding write_buff wake_reader
  type_eof m =
      let kb = m.keyboard in
      if edits_line m
      then record m {
        keyboard =
            if ltb 0 kb.tty_line_len
            then record kb { tty_line_ready = true }
            else record kb { tty_eof = true };
        kernel = wake_reader m.kernel;
      }
      else record m { keyboard = write_buff kb 4; kernel = wake_reader m.kernel }

abbrev is_shift_make : ℕ → Bool
is_shift_make s = s == 0x2A || (s == 0x36)

abbrev is_shift_break : ℕ → Bool
is_shift_break s = s == 0xAA || (s == 0xB6)

abbrev is_ignored : ℕ → Bool
is_ignored s = s == 0x4B || (s == 0x4D) || (s == 0x48) || (s == 0x50) || (s == 0) || ltb 0x80 s

module _ {H : Type 0} (mm : MemoryManager H) where
  unfoldable pub handle_pressed_key : (ℕ → ℕ) → ℕ → Machine H → Machine H
  handle_pressed_key regs scancode m =
      let kb = m.keyboard in
      if is_shift_make scancode
      then record m { keyboard = record kb { shift = true } }
      else if is_shift_break scancode
      then record m { keyboard = record kb { shift = false } }
      else if scancode == 0x1D
      then record m { keyboard = record kb { ctrl = true } }
      else if scancode == 0x9D
      then record m { keyboard = record kb { ctrl = false } }
      else if scancode == 0x3B
      then record m { keyboard = record (store_snapshot regs kb) { bool_registers = true } }
      else if is_ignored scancode
      then m
      else if kb.ctrl && (scancode == 0x2E)
      then record m { kernel = process_kill_foreground mm m.kernel }
      else if kb.ctrl && (scancode == 0x20)
      then type_eof m
      else if scancode == 0x3A
      then record m { keyboard = record kb { caps = not kb.caps } }
      else if ltb scancode 0x80
      then type_char m (key_char kb.shift kb.caps scancode)
      else m
