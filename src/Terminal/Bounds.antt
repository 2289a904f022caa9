-- ===== src/Terminal/Bounds.antt =====
-- The indices of the terminal's buffers stay inside them, under each scan code of
-- Kernel/c/drivers/keyboardDriver.c.
use mass_os.Prelude.{
  ltb, ◌==◌, if◌then◌else◌, ltb→lt, Bool-cases, Option-cases, ℕ, ◌-◌, ◌≤◌, ◌<◌, ◌≡◌, refl, sym, ap,
  subst, ◌∙◌, inl, inr, Bool, true, false, not, none, some, List, arith,
}
use mass_os.Kernel.{Kernel, MemoryManager, kbd_waiter}
use mass_os.Keyboard.{
  buff_length, line_length, Keyboard, Machine, write_buff, key_char, store_snapshot, wake_reader,
  edits_line, type_char, type_eof, handle_pressed_key,
}
use mass_os.Keyboard.Keys.{IsKeyBuffer, write_buff-IsKeyBuffer}
use mass_os.Process.Lifecycle.{process_kill_foreground}
use mass_os.Process.Lifecycle.Waiting.{process_kill_foreground-reader}

-- The ring is well formed; the line leaves room for a newline while it is open; and nobody waits
-- for a line that is ready.
pub record IsTerminal {H : Type 0} (m : Machine H) : Type 0 where
  pub ring : IsKeyBuffer m.keyboard
  pub line_fits : m.keyboard.tty_line_len ≤ line_length
  pub open_fits : m.keyboard.tty_line_ready ≡ false → m.keyboard.tty_line_len < line_length
  pub reader_waits : (p : ℕ) → kbd_waiter m.kernel ≡ some p → m.keyboard.tty_line_ready ≡ false

line-write_buff :
    (kb : Keyboard) (c : ℕ)
    → ◌≡◌ {A = ℕ × Bool}
        ((write_buff kb c).tty_line_len, (write_buff kb c).tty_line_ready)
        (kb.tty_line_len, kb.tty_line_ready)
unfolding write_buff
line-write_buff kb c = elim (Bool-cases (ltb kb.buff_size buff_length)) [
  | inl e ↦ rw e refl
  | inr e ↦ rw e refl
]

tty_line_len-write_buff : (kb : Keyboard) (c : ℕ) → (write_buff kb c).tty_line_len ≡ kb.tty_line_len
tty_line_len-write_buff kb c = ap (λ (l : ℕ × Bool). l.0) (line-write_buff kb c)

module _ {H : Type 0} where
  wake_reader-none : (k : Kernel H) → kbd_waiter (wake_reader k) ≡ none
  unfolding wake_reader
  wake_reader-none k = elim (Option-cases (kbd_waiter k)) [
    | inl e ↦ rw (e, wake_reader) e
    | inr e ↦ rw (e.1, wake_reader) refl
  ]

  reader_of_edits : (m : Machine H) → edits_line m ≡ true → (p : ℕ) × (kbd_waiter m.kernel ≡ some p)
  reader_of_edits m e = elim (Option-cases (kbd_waiter m.kernel)) [
    | inl none_waits ↦ absurd (ground (arith, e, none_waits))
    | inr found ↦ found
  ]

  -- A character goes into the ring and wakes the reader, if any.
  abbrev buffered : Machine H → ℕ → Machine H
  buffered m c = record m { keyboard = write_buff m.keyboard c; kernel = wake_reader m.kernel }

  no_reader : (k : Kernel H) (b : Bool) (p : ℕ) → kbd_waiter (wake_reader k) ≡ some p → b ≡ false
  no_reader k b p e = absurd (ground (arith, e, wake_reader-none k))

  buffered-IsTerminal : (m : Machine H) (c : ℕ) → IsTerminal m → IsTerminal (buffered m c)
  buffered-IsTerminal m c v = record {
    ring = write_buff-IsKeyBuffer m.keyboard c v.ring;
    line_fits =
        subst (λ n. n ≤ line_length) (sym (tty_line_len-write_buff m.keyboard c)) v.line_fits;
    open_fits =
        subst (λ (kb : ℕ × Bool). kb.1 ≡ false → kb.0 < line_length)
          (sym (line-write_buff m.keyboard c)) v.open_fits;
    reader_waits = λ p e. no_reader m.kernel _ p e;
  }

  type_char-IsTerminal : (m : Machine H) (c : ℕ) → IsTerminal m → IsTerminal (type_char m c)
  unfolding type_char
  type_char-IsTerminal m c v = elim (Bool-cases (edits_line m)) [
    | inl e ↦
        let (p, waits) = reader_of_edits m e in
        let pending = v.reader_waits p waits in
        let room = v.open_fits pending in
        elim (Bool-cases (c == 10)) [
          | inl newline ↦
              rw (e, newline)
                (record {
                  ring = record {
                    start_in = v.ring.start_in;
                    fits = v.ring.fits;
                    end_at = v.ring.end_at;
                  };
                  line_fits = omega (arith, room);
                  open_fits = λ h. cc;
                  reader_waits = λ q h. no_reader m.kernel true q h;
                })
          | inr other ↦ elim (Bool-cases (c == 8)) [
            | inl back ↦ elim (Bool-cases (ltb 0 m.keyboard.tty_line_len)) [
              | inl some_left ↦
                  rw (e, other, back, some_left)
                    (record {
                      ring = record {
                        start_in = v.ring.start_in;
                        fits = v.ring.fits;
                        end_at = v.ring.end_at;
                      };
                      line_fits = omega (arith, room);
                      open_fits = λ h. omega (arith, room);
                      reader_waits = λ q h. pending;
                    })
              | inr empty ↦ rw (e, other, back, empty) v
            ]
            | inr plain ↦ elim (Bool-cases (ltb m.keyboard.tty_line_len (line_length - 1))) [
              | inl fits ↦
                  let small = ltb→lt m.keyboard.tty_line_len (line_length - 1) fits in
                  rw (e, other, plain, fits)
                    (record {
                      ring = record {
                        start_in = v.ring.start_in;
                        fits = v.ring.fits;
                        end_at = v.ring.end_at;
                      };
                      line_fits = omega (arith, small);
                      open_fits = λ h. omega (arith, small);
                      reader_waits = λ q h. pending;
                    })
              | inr full ↦ rw (e, other, plain, full) v
            ]
          ]
        ]
    | inr e ↦ rw e (buffered-IsTerminal m c v)
  ]

  type_eof-IsTerminal : (m : Machine H) → IsTerminal m → IsTerminal (type_eof m)
  unfolding type_eof
  type_eof-IsTerminal m v = elim (Bool-cases (edits_line m)) [
    | inl e ↦
        let (p, waits) = reader_of_edits m e in
        let pending = v.reader_waits p waits in
        let room = v.open_fits pending in
        elim (Bool-cases (ltb 0 m.keyboard.tty_line_len)) [
          | inl some_left ↦
              rw (e, some_left)
                (record {
                  ring = record {
                    start_in = v.ring.start_in;
                    fits = v.ring.fits;
                    end_at = v.ring.end_at;
                  };
                  line_fits = v.line_fits;
                  open_fits = λ h. room;
                  reader_waits = λ q h. no_reader m.kernel true q h;
                })
          | inr empty ↦
              rw (e, empty)
                (record {
                  ring = record {
                    start_in = v.ring.start_in;
                    fits = v.ring.fits;
                    end_at = v.ring.end_at;
                  };
                  line_fits = v.line_fits;
                  open_fits = λ h. room;
                  reader_waits = λ q h. pending;
                })
        ]
    | inr e ↦ rw e (buffered-IsTerminal m 4 v)
  ]

  -- A snapshot, a modifier key or a change of the waiting process to none keeps the rest.
  abbrev SameLine : Machine H → Machine H → Type 0
  SameLine m m' =
      IsKeyBuffer m'.keyboard
      × (m'.keyboard.tty_line_len ≡ m.keyboard.tty_line_len)
      × (m'.keyboard.tty_line_ready ≡ m.keyboard.tty_line_ready)
      × ((p : ℕ) → kbd_waiter m'.kernel ≡ some p → kbd_waiter m.kernel ≡ some p)

  SameLine-IsTerminal : (m m' : Machine H) → SameLine m m' → IsTerminal m → IsTerminal m'
  SameLine-IsTerminal m m' (ring, len, is_ready', reader) v = record {
    ring = ring;
    line_fits = omega (arith, len, v.line_fits);
    open_fits = λ h. omega (arith, len, v.open_fits (sym is_ready' ∙ h));
    reader_waits = λ p h. is_ready' ∙ v.reader_waits p (reader p h);
  }

  if-IsTerminal :
      (b : Bool) (m m' : Machine H)
      → IsTerminal m
      → IsTerminal m'
      → IsTerminal (if b then m else m')
  if-IsTerminal true m m' v v' = v
  if-IsTerminal false m m' v v' = v'

  -- Modifier keys and the snapshot leave the buffers alone.
  flags-IsTerminal :
      (m : Machine H) (shift caps ctrl bool_registers : Bool) (registers_buff : List ℕ)
      → IsTerminal m
      → IsTerminal (record m {
        keyboard = record m.keyboard {
          shift = shift;
          caps = caps;
          ctrl = ctrl;
          bool_registers = bool_registers;
          registers_buff = registers_buff;
        };
      })
  flags-IsTerminal m shift caps ctrl bool_registers registers_buff v =
      SameLine-IsTerminal m _
        (
          record { start_in = v.ring.start_in; fits = v.ring.fits; end_at = v.ring.end_at },
          refl,
          refl,
          λ p h. h,
        )
        v

module _ {H : Type 0} (mm : MemoryManager H) where
  kill-IsTerminal :
      (m : Machine H)
      → IsTerminal m
      → IsTerminal (record m { kernel = process_kill_foreground mm m.kernel })
  kill-IsTerminal m v =
      SameLine-IsTerminal m (record m { kernel = process_kill_foreground mm m.kernel })
        (v.ring, refl, refl, λ p h. process_kill_foreground-reader mm m.kernel p h) v

  snapshot-IsTerminal :
      (regs : ℕ → ℕ) (m : Machine H)
      → IsTerminal m
      → IsTerminal (record m {
        keyboard = record (store_snapshot regs m.keyboard) { bool_registers = true };
      })
  unfolding store_snapshot
  snapshot-IsTerminal regs m v =
      flags-IsTerminal m m.keyboard.shift m.keyboard.caps m.keyboard.ctrl true
        (store_snapshot regs m.keyboard).registers_buff v

  -- Every scan code keeps the ring of characters, the length of the line and the reader within
  -- bounds: the line never has more than its 256 bytes.
  pub handle_pressed_key-IsTerminal :
      (regs : ℕ → ℕ) (scancode : ℕ) (m : Machine H)
      → IsTerminal m
      → IsTerminal (handle_pressed_key mm regs scancode m)
  unfolding handle_pressed_key
  handle_pressed_key-IsTerminal regs scancode m v =
      let kb = m.keyboard in
      if-IsTerminal _ _ _
        (flags-IsTerminal m true kb.caps kb.ctrl kb.bool_registers kb.registers_buff v)
        (if-IsTerminal _ _ _
          (flags-IsTerminal m false kb.caps kb.ctrl kb.bool_registers kb.registers_buff v)
          (if-IsTerminal _ _ _
            (flags-IsTerminal m kb.shift kb.caps true kb.bool_registers kb.registers_buff v)
            (if-IsTerminal _ _ _
              (flags-IsTerminal m kb.shift kb.caps false kb.bool_registers kb.registers_buff v)
              (if-IsTerminal _ _ _ (snapshot-IsTerminal regs m v) (
                if-IsTerminal _ _ _ v (
                  if-IsTerminal _ _ _ (kill-IsTerminal m v) (
                    if-IsTerminal _ _ _ (type_eof-IsTerminal m v) (
                      if-IsTerminal _ _ _
                        (flags-IsTerminal m kb.shift (not kb.caps) kb.ctrl kb.bool_registers
                          kb.registers_buff v)
                        (if-IsTerminal _ _ _
                          (type_char-IsTerminal m (key_char kb.shift kb.caps scancode) v) v)))))))))
