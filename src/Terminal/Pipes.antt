-- ===== src/Terminal/Pipes.antt =====
-- `fd_read` and `fd_write` of Kernel/c/pipe/fd.c on the ends of a pipe.
use mass_os.Prelude.{
  ◌==◌, length, take, take_all, update_self, ℕ, suc, ◌≤◌, ◌<◌, min, ◌≡◌, refl, ap, ap₂, ◌∙◌, true,
  false, Option, some, List, [], ◌∷◌, ◌++◌, arith,
}
use mass_os.Fd.Creating.{entry_of}
use mass_os.Kernel.{PipeState, fd_pipe_read, fd_pipe_write, FdEntry, Kernel, set_pipe}
use mass_os.Keyboard.{Machine}
use mass_os.Pipe.{pipe_buffer_size, read_bytes, write_bytes, pipe_read, pipe_write}
use mass_os.Pipe.Buffer.{bytes_of, IsBuffer, low_bytes, read_bytes_refines, write_bytes_refines}
use mass_os.Pipe.Delivery.{pipe_write-quiet, pipe_read-bytes}
use mass_os.Ring.{window}
use mass_os.Terminal.{read_pipe, read_as, fd_read, write_as, fd_write}
use mass_os.WaitQueue.Refine.{contents}

length-low_bytes : (bytes : List ℕ) → length (low_bytes bytes) ≡ length bytes
length-low_bytes [] = refl
length-low_bytes (b ∷ bs) = ap suc (length-low_bytes bs)

module _ {H : Type 0} where
  -- A write to descriptor `w` takes all the bytes, and a read of `r` after it gives them.
  pub IsDelivered : Machine H → ℕ → ℕ → ℕ → ℕ → Option ℕ → List ℕ → Type 0
  IsDelivered m r w color count cur bytes =
      let (n, m') = fd_write m (some w) (some bytes) color in
      let (n', got, m'') = fd_read m' (some r) true count cur in
      (n ≡ length bytes) × (n' ≡ length bytes) × (got ≡ low_bytes bytes)

  abbrev in_kernel : Machine H → ℕ × Kernel H → ℕ × Machine H
  in_kernel m (n, k) = (n, record m { kernel = k })

  pub fd_write-pipe :
      (m : Machine H) (d p color : ℕ) (bytes : List ℕ)
      → m.kernel.fd_table d ≡ entry_of fd_pipe_write p
      → 0 < length bytes
      → fd_write m (some d) (some bytes) color ≡ (
        (pipe_write m.kernel (some p) bytes).0,
        record m { kernel = (pipe_write m.kernel (some p) bytes).1 },
      )
  unfolding fd_write
  fd_write-pipe m d p color bytes e some_bytes =
      let nonempty : (length bytes == 0) ≡ false = ground arith in
      rw nonempty (ap (λ (x : FdEntry). write_as x.type m x.pipe bytes color) e)

  pub fd_read-pipe :
      (m : Machine H) (d p count : ℕ) (cur : Option ℕ)
      → m.kernel.fd_table d ≡ entry_of fd_pipe_read p
      → 0 < count
      → fd_read m (some d) true count cur ≡ read_pipe m (some p) count
  unfolding fd_read
  fd_read-pipe m d p count cur e asked =
      let nonzero : (count == 0) ≡ false = ground arith in
      rw nonzero (ap (λ (x : FdEntry). read_as x.type m x.pipe count cur) e)

  pub read_pipe-bytes :
      (m : Machine H) (p : Option ℕ) (count : ℕ)
      → ((read_pipe m p count).0 ≡ (pipe_read m.kernel p count).0)
        × ((read_pipe m p count).1 ≡ (pipe_read m.kernel p count).1)
  unfolding read_pipe
  read_pipe-bytes m p count = (refl, refl)

  -- The machine after the bytes went into the pipe.
  abbrev after_write : Machine H → ℕ → List ℕ → Machine H
  after_write m p bytes = record m {
    kernel = set_pipe m.kernel p (write_bytes bytes (m.kernel.pipe_table p));
  }

  fd_write-quiet :
      (m : Machine H) (w p color : ℕ) (bytes : List ℕ)
      → m.kernel.fd_table w ≡ entry_of fd_pipe_write p
      → (m.kernel.pipe_table p).count ≡ 0
      → 0 < (m.kernel.pipe_table p).open_read
      → (m.kernel.pipe_table p).wait_readers.count ≡ 0
      → 0 < length bytes
      → length bytes ≤ pipe_buffer_size
      → fd_write m (some w) (some bytes) color ≡ (length bytes, after_write m p bytes)
  fd_write-quiet m w p color bytes e none_there reader nobody some_bytes fits =
      fd_write-pipe m w p color bytes e some_bytes
      ∙ ap (in_kernel m) (
          pipe_write-quiet m.kernel p bytes some_bytes (omega (arith, none_there, fits)) reader
            nobody)

  fd_read-written :
      (m : Machine H) (r p count : ℕ) (cur : Option ℕ) (bytes : List ℕ)
      → m.kernel.fd_table r ≡ entry_of fd_pipe_read p
      → IsBuffer (m.kernel.pipe_table p)
      → (m.kernel.pipe_table p).count ≡ 0
      → 0 < length bytes
      → length bytes ≤ pipe_buffer_size
      → length bytes ≤ count
      → let (n, got, m') = fd_read (after_write m p bytes) (some r) true count cur in
        (n ≡ length bytes) × (got ≡ low_bytes bytes)
  fd_read-written m r p count cur bytes e valid none_there some_bytes fits room =
      let state = m.kernel.pipe_table p in
      let m1 = after_write m p bytes in
      let filled = write_bytes bytes state in
      let stored : m1.kernel.pipe_table p ≡ filled = update_self m.kernel.pipe_table p filled in
      let (contents, valid', total) =
        write_bytes_refines bytes state valid (omega (arith, none_there, fits)) in
      let total' : filled.count ≡ length bytes = omega (arith, total, none_there) in
      let there : (m1.kernel.pipe_table p).count ≡ length bytes =
        ap (λ (x : PipeState). x.count) stored ∙ total' in
      let all : min count (m1.kernel.pipe_table p).count ≡ length bytes =
        omega (arith, there, room) in
      let asked : 0 < count = omega (arith, room, some_bytes) in
      let reading = fd_read-pipe m1 r p count cur e asked in
      let piped = read_pipe-bytes m1 (some p) count in
      let read = pipe_read-bytes m1.kernel p count asked (omega (arith, there, some_bytes)) in
      let oldest = read_bytes_refines (length bytes) filled valid' (omega (arith, total')) in
      let empty : bytes_of state ≡ [] = rw (none_there, window) refl in
      (
        ap (λ x. x.0) reading ∙ piped.0 ∙ read.0 ∙ all,
        ap (λ x. x.1) reading
            ∙ piped.1
            ∙ read.1
            ∙ ap₂ (λ n s. (read_bytes n s).0) all stored
            ∙ oldest.0
            ∙ ap (take (length bytes)) (contents ∙ ap (λ l. l ++ low_bytes bytes) empty)
            ∙ take_all (length bytes) (low_bytes bytes) (omega (arith, length-low_bytes bytes)),
      )

  -- Whoever reads the read end of an empty pipe after a write to the write end gets the bytes in
  -- order: for bytes that fit the buffer and the reader's `count`, with no reader waiting.
  pub fd_read-fd_write :
      (m : Machine H) (r w p color count : ℕ) (cur : Option ℕ) (bytes : List ℕ)
      → m.kernel.fd_table w ≡ entry_of fd_pipe_write p
      → m.kernel.fd_table r ≡ entry_of fd_pipe_read p
      → IsBuffer (m.kernel.pipe_table p)
      → (m.kernel.pipe_table p).count ≡ 0
      → 0 < (m.kernel.pipe_table p).open_read
      → (m.kernel.pipe_table p).wait_readers.count ≡ 0
      → 0 < length bytes
      → length bytes ≤ pipe_buffer_size
      → length bytes ≤ count
      → IsDelivered m r w color count cur bytes
  unfolding IsDelivered
  fd_read-fd_write m r w p color count cur bytes writable readable valid none_there reader nobody
        some_bytes fits room =
      let written =
        fd_write-quiet m w p color bytes writable none_there reader nobody some_bytes fits in
      let read =
        fd_read-written m r p count cur bytes readable valid none_there some_bytes fits room in
      rw written (refl, read.0, read.1)
