-- ===== src/Keyboard/Keys.antt =====
-- The ring of typed characters of Kernel/c/drivers/keyboardDriver.c as a queue.
use mass_os.Prelude.{
  ltb, ◌==◌, if◌then◌else◌, ltb→lt, Bool-cases, take, drop, update, ℕ, zero, suc, ◌+◌, ◌-◌, ◌/◌,
  ◌%◌, ◌≤◌, ◌<◌, min, ◌≡◌, refl, sym, ap, ◌∙◌, inl, inr, true, false, ◌&&◌, List, [], ◌∷◌, ◌++◌,
  arith,
}
use mass_os.Keyboard.{buff_length, Keyboard, write_buff, get_from_buffer, read_keys, read_key_buff}
use mass_os.Ring.{window, window-push, window-first}

-- The characters that were typed and not yet read, oldest first.
abbrev pub keys : Keyboard → List ℕ
keys kb = window buff_length kb.buff kb.start_index kb.buff_size

pub record IsKeyBuffer (kb : Keyboard) : Type 0 where
  pub start_in : kb.start_index < buff_length
  pub fits : kb.buff_size ≤ buff_length
  pub end_at : kb.end_index ≡ (kb.start_index + kb.buff_size) % buff_length

pub write_buff-IsKeyBuffer :
    (kb : Keyboard) (c : ℕ) → IsKeyBuffer kb → IsKeyBuffer (write_buff kb c)
unfolding write_buff
write_buff-IsKeyBuffer kb c v = ground arith

rest_of_full :
    (kb : Keyboard)
    → kb.buff_size ≡ 256
    → drop 1 (keys kb) ≡ window buff_length kb.buff ((kb.start_index + 1) % buff_length) 255
rest_of_full kb size =
    ap (λ n. drop 1 (window buff_length kb.buff kb.start_index n)) size
    ∙ ap (drop 1) (window-first buff_length kb.buff kb.start_index 256 (omega arith))

-- A typed character is put last, and a full ring loses its oldest one.
pub keys-write_buff :
    (kb : Keyboard) (c : ℕ)
    → IsKeyBuffer kb
    → keys (write_buff kb c)
      ≡ (if ltb kb.buff_size buff_length then keys kb else drop 1 (keys kb)) ++ (c ∷ [])
unfolding write_buff
keys-write_buff kb c v = elim (Bool-cases (ltb kb.buff_size buff_length)) [
  | inl room ↦ rw room (
      rw v.end_at (
        window-push buff_length kb.buff c kb.start_index kb.buff_size v.start_in
          (ltb→lt kb.buff_size buff_length room)))
  | inr full ↦
      let size : kb.buff_size ≡ 256 = ground arith in
      let h = (kb.start_index + 1) % buff_length in
      let at_start : kb.end_index ≡ (h + 255) % buff_length = omega (arith, v.end_at, v.start_in) in
      rw full (
        ap (window buff_length (update kb.buff kb.end_index c) h) size
        ∙ ap (λ w. window buff_length (update kb.buff w c) h 256) at_start
        ∙ window-push buff_length kb.buff c h 255 (omega arith) (omega arith)
        ∙ ap (λ l. l ++ (c ∷ [])) (sym (rest_of_full kb size)))
]

get_from_buffer-IsKeyBuffer : (kb : Keyboard) → IsKeyBuffer kb → IsKeyBuffer (get_from_buffer kb).1
unfolding get_from_buffer
get_from_buffer-IsKeyBuffer kb v = ground arith

keys-get_from_buffer :
    (kb : Keyboard)
    → 0 < kb.buff_size
    → keys kb ≡ (get_from_buffer kb).0 ∷ keys (get_from_buffer kb).1
unfolding get_from_buffer
keys-get_from_buffer kb lt =
    let e : (kb.buff_size == 0) ≡ false = ground arith in
    rw e (window-first buff_length kb.buff kb.start_index kb.buff_size lt)

-- How many characters the loop takes from `i` on: it stops when `i` reaches `count` or the number
-- of characters that are left.
abbrev pub taken_keys : ℕ → ℕ → ℕ → ℕ
taken_keys i count size = min (count - i) ((size + 1 - i) / 2)

no_more_keys :
    (i count size : ℕ) → (ltb i count && ltb i size) ≡ false → taken_keys i count size ≡ 0
no_more_keys i count size e = ground arith

one_more_key :
    (i count size : ℕ)
    → (ltb i count && ltb i size) ≡ true
    → (0 < size) × (taken_keys i count size ≡ suc (taken_keys (i + 1) count (size - 1)))
one_more_key i count size e = ground arith

buff_size-get_from_buffer : (kb : Keyboard) → (get_from_buffer kb).1.buff_size ≡ kb.buff_size - 1
unfolding get_from_buffer
buff_size-get_from_buffer kb = ground arith

read_keys_lem :
    (n i count : ℕ) (kb : Keyboard)
    → IsKeyBuffer kb
    → kb.buff_size ≤ n
    → ((read_keys n i count kb).0 ≡ take (taken_keys i count kb.buff_size) (keys kb))
      × (keys (read_keys n i count kb).1 ≡ drop (taken_keys i count kb.buff_size) (keys kb))
      × IsKeyBuffer (read_keys n i count kb).1
unfolding read_keys
read_keys_lem zero i count kb v le =
    let none_taken : taken_keys i count kb.buff_size ≡ 0 = omega (arith, le) in
    rw none_taken (refl, refl, v)
read_keys_lem (suc n) i count kb v le = elim (Bool-cases (ltb i count && ltb i kb.buff_size)) [
  | inl e ↦
      let next = (get_from_buffer kb).1 in
      let more = one_more_key i count kb.buff_size e in
      let size = buff_size-get_from_buffer kb in
      let first = keys-get_from_buffer kb (omega (arith, more)) in
      let (got, left, valid) =
        read_keys_lem n (i + 1) count next (get_from_buffer-IsKeyBuffer kb v)
          (omega (arith, size, le)) in
      let taken = more.1 ∙ ap (λ m. suc (taken_keys (i + 1) count m)) (sym size) in
      rw (e, first, taken) (ap (◌∷◌ (get_from_buffer kb).0) got, left, valid)
  | inr e ↦
      let none_taken : taken_keys i count kb.buff_size ≡ 0 = no_more_keys i count kb.buff_size e in
      rw (e, none_taken) (refl, refl, v)
]

-- `readKeyBuff` takes the oldest characters in order, at most `count` of them and at most half of
-- those that are there, rounded up; the rest stays in the ring.
pub read_key_buff_lem :
    (kb : Keyboard) (count : ℕ)
    → IsKeyBuffer kb
    → let n = min count ((kb.buff_size + 1) / 2) in
      ((read_key_buff kb count).0 ≡ take n (keys kb))
      × (keys (read_key_buff kb count).1 ≡ drop n (keys kb))
      × IsKeyBuffer (read_key_buff kb count).1
unfolding read_key_buff
read_key_buff_lem kb count v =
    let all : taken_keys 0 count kb.buff_size ≡ min count ((kb.buff_size + 1) / 2) = omega arith in
    rw (← all) (read_keys_lem kb.buff_size 0 count kb v (omega arith))
