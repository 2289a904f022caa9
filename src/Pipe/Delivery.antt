-- ===== src/Pipe/Delivery.antt =====
-- A write that fits and the read after it, on a pipe of Kernel/c/pipe/pipe.c where nobody waits.
use mass_os.Prelude.{
  ltb, leb, ◌==◌, length, take_all, ℕ, ◌+◌, ◌-◌, ◌≤◌, ◌<◌, min, ◌≡◌, refl, false, some, List, [],
  ◌∷◌, arith,
}
use mass_os.Kernel.{PipeState, Kernel, set_pipe}
use mass_os.Pipe.{pipe_buffer_size, read_bytes, write_bytes, pipe_read, pipe_write}

write_bytes_frame :
    (bs : List ℕ) (p : PipeState) → (write_bytes bs p).wait_readers.count ≡ p.wait_readers.count
unfolding write_bytes
write_bytes_frame [] p = refl
write_bytes_frame (b ∷ bs) p = write_bytes_frame bs _

module _ {H : Type 0} where
  -- The bytes that are written go into the buffer, and nothing else happens.
  pub pipe_write-quiet :
      (k : Kernel H) (i : ℕ) (buf : List ℕ)
      → 0 < length buf
      → (k.pipe_table i).count + length buf ≤ pipe_buffer_size
      → 0 < (k.pipe_table i).open_read
      → (k.pipe_table i).wait_readers.count ≡ 0
      → pipe_write k (some i) buf ≡ (length buf, set_pipe k i (write_bytes buf (k.pipe_table i)))
  unfolding pipe_write
  pipe_write-quiet k i buf some_bytes fits reader nobody =
      let p = k.pipe_table i in
      let written = write_bytes_frame buf p in
      let n : min (length buf) (pipe_buffer_size - p.count) ≡ length buf = omega (arith, fits) in
      let nonempty : (length buf == 0) ≡ false = ground arith in
      let some_reader : (p.open_read == 0) ≡ false = ground arith in
      let room : leb pipe_buffer_size p.count ≡ false = ground arith in
      let all = take_all (length buf) buf (omega arith) in
      let quiet : ltb 0 (write_bytes buf p).wait_readers.count ≡ false =
        ground (arith, written, nobody) in
      rw (nonempty, some_reader, room, n, all) (rw quiet refl)

  -- The bytes that are read.
  pub pipe_read-bytes :
      (k : Kernel H) (i count : ℕ)
      → 0 < count
      → 0 < (k.pipe_table i).count
      → let n = min count (k.pipe_table i).count in
        ((pipe_read k (some i) count).0 ≡ n)
        × ((pipe_read k (some i) count).1 ≡ (read_bytes n (k.pipe_table i)).0)
  unfolding pipe_read
  pipe_read-bytes k i count asked some_bytes =
      let asked' : (count == 0) ≡ false = ground arith in
      let some_bytes' : ((k.pipe_table i).count == 0) ≡ false = ground arith in
      rw (asked', some_bytes') (refl, refl)
