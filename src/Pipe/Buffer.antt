-- ===== src/Pipe/Buffer.antt =====
-- The circular buffer of a pipe of Kernel/c/pipe/pipe.c as a queue of bytes.
use mass_os.Prelude.{
  length, take, drop, update, ℕ, zero, suc, ◌+◌, ◌-◌, ◌%◌, ◌≤◌, ◌<◌, ◌≡◌, refl, sym, ap, ◌∙◌, List,
  [], ◌∷◌, ◌++◌, append_assoc, append-nil, arith,
}
use mass_os.Kernel.{PipeState}
use mass_os.Pipe.{pipe_buffer_size, read_bytes, write_bytes}
use mass_os.Ring.{window, window-push, window-first}

-- The bytes in the pipe, oldest first.
abbrev pub bytes_of : PipeState → List ℕ
bytes_of p = window pipe_buffer_size p.buffer p.read_idx p.count

pub record IsBuffer (p : PipeState) : Type 0 where
  pub read_in : p.read_idx < pipe_buffer_size
  pub fits : p.count ≤ pipe_buffer_size
  pub write_at : p.write_idx ≡ (p.read_idx + p.count) % pipe_buffer_size

-- `(uint8_t)c` on each byte.
abbrev pub low_bytes : List ℕ → List ℕ
low_bytes [] = []
low_bytes (b ∷ bs) = (b % 256) ∷ low_bytes bs

abbrev read_one : PipeState → PipeState
read_one p = record p { read_idx = (p.read_idx + 1) % pipe_buffer_size; count = p.count - 1 }

read_one-IsBuffer : (p : PipeState) → IsBuffer p → 0 < p.count → IsBuffer (read_one p)
read_one-IsBuffer p v h = record {
  read_in = omega arith;
  fits = omega (arith, v.fits);
  write_at = omega (arith, v.read_in, v.write_at);
}

-- Reading takes the oldest bytes, in order.
pub read_bytes_refines :
    (n : ℕ) (p : PipeState)
    → IsBuffer p
    → n ≤ p.count
    → ((read_bytes n p).0 ≡ take n (bytes_of p))
      × (bytes_of (read_bytes n p).1 ≡ drop n (bytes_of p))
      × IsBuffer (read_bytes n p).1
unfolding read_bytes
read_bytes_refines zero p v h = (refl, refl, v)
read_bytes_refines (suc n) p v h =
    let first = window-first pipe_buffer_size p.buffer p.read_idx p.count (omega arith) in
    let (got, left, valid) =
      read_bytes_refines n (read_one p) (read_one-IsBuffer p v (omega arith)) (omega arith) in
    (rw first (ap (◌∷◌ (p.buffer p.read_idx)) got), rw first left, valid)

abbrev write_one : ℕ → PipeState → PipeState
write_one b p = record p {
  buffer = update p.buffer p.write_idx (b % 256);
  write_idx = (p.write_idx + 1) % pipe_buffer_size;
  count = p.count + 1;
}

write_one-IsBuffer :
    (b : ℕ) (p : PipeState) → IsBuffer p → p.count < pipe_buffer_size → IsBuffer (write_one b p)
write_one-IsBuffer b p v h = record {
  read_in = v.read_in;
  fits = omega arith;
  write_at = omega (arith, v.read_in, v.write_at);
}

-- Writing appends the bytes, in order.
pub write_bytes_refines :
    (bs : List ℕ) (p : PipeState)
    → IsBuffer p
    → p.count + length bs ≤ pipe_buffer_size
    → (bytes_of (write_bytes bs p) ≡ bytes_of p ++ low_bytes bs)
      × IsBuffer (write_bytes bs p)
      × ((write_bytes bs p).count ≡ p.count + length bs)
unfolding write_bytes
write_bytes_refines [] p v h = (sym (append-nil (bytes_of p)), v, omega arith)
write_bytes_refines (b ∷ bs) p v h =
    let (appended, valid, count) =
      write_bytes_refines bs (write_one b p) (write_one-IsBuffer b p v (omega arith))
        (omega arith) in
    let pushed =
      window-push pipe_buffer_size p.buffer (b % 256) p.read_idx p.count v.read_in (omega arith) in
    (
      appended
          ∙ ap (λ l. l ++ low_bytes bs)
              (ap
                  (λ w.
                    window pipe_buffer_size (update p.buffer w (b % 256)) p.read_idx (p.count + 1))
                  v.write_at
                ∙ pushed)
          ∙ append_assoc (bytes_of p) ((b % 256) ∷ []) (low_bytes bs),
      valid,
      omega (arith, count),
    )
