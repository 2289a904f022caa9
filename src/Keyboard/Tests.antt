-- ===== src/Keyboard/Tests.antt =====
-- Runs of the keyboard driver.
use mass_os.Prelude.{
  pos, length, take, drop, ◌+◌, ◌%◌, ◌≡◌, refl, true, false, none, [], ◌∷◌, arith,
}
use mass_os.Digits.{zeros_pad, int_to_hexa}
use mass_os.Fixtures.{no_memory, idle_keyboard, raw_machine}
use mass_os.Keyboard.{
  Keyboard, Machine, tty_set_mode, read_key_buff, key_char, store_snapshot, copy_registers_buffer,
  type_char, handle_pressed_key,
}
use mass_os.Keyboard.Keys.{keys, IsKeyBuffer, read_key_buff_lem}
use mass_os.Keyboard.{clear_buff}

-- Shift and `a`, then `a`.
abbrev typed : Machine (Unit {0})
unfolding handle_pressed_key type_char
typed =
    handle_pressed_key no_memory (λ _. 0) 0x1E
      (handle_pressed_key no_memory (λ _. 0) 0xAA
        (handle_pressed_key no_memory (λ _. 0) 0x1E
          (handle_pressed_key no_memory (λ _. 0) 0x2A raw_machine)))

upper_lower : (read_key_buff typed.keyboard 2).0 ≡ b'A' ∷ []
unfolding handle_pressed_key type_char read_key_buff key_char
upper_lower = refl

cleared : (clear_buff typed.keyboard).buff_size ≡ 0
unfolding clear_buff
cleared = refl

f1 : length (handle_pressed_key no_memory (λ _. 0) 0x3B raw_machine).keyboard.registers_buff ≡ 479
unfolding handle_pressed_key store_snapshot int_to_hexa zeros_pad
f1 = refl

no_snapshot : copy_registers_buffer idle_keyboard ≡ none
unfolding copy_registers_buffer
no_snapshot = refl

last_key : key_char false false 0x39 ≡ 32
unfolding key_char
last_key = refl

shifted_slash : key_char true false 0x35 ≡ b'?'
unfolding key_char
shifted_slash = refl

raw_mode : (tty_set_mode (record typed.keyboard { tty_line_len = 3 }) (pos 0)).tty_line_len ≡ 0
unfolding tty_set_mode
raw_mode = refl

-- Three characters across the end of the ring.
abbrev three_keys : Keyboard
three_keys = record idle_keyboard {
  buff = λ i. i % 256 + 1;
  buff_size = 3;
  start_index = 254;
  end_index = 1;
}

three_keys-IsKeyBuffer : IsKeyBuffer three_keys
three_keys-IsKeyBuffer = record { start_in = omega arith; fits = omega arith; end_at = refl }

read_key_buff_lem_example :
    ((read_key_buff three_keys 10).0 ≡ take 2 (keys three_keys))
    × (keys (read_key_buff three_keys 10).1 ≡ drop 2 (keys three_keys))
    × IsKeyBuffer (read_key_buff three_keys 10).1
read_key_buff_lem_example = read_key_buff_lem three_keys 10 three_keys-IsKeyBuffer
