-- ===== src/Pipe/Transfer.antt =====
-- `pipe_read` and `pipe_write` of Kernel/c/pipe/pipe.c on the bytes in the pipe.
use mass_os.Prelude.{
  ltb, leb, ◌==◌, if◌then◌else◌, Bool-cases, Option-cases, length, take, drop, length-take,
  update_self, ℕ, ◌-◌, ◌≤◌, ◌<◌, min, ◌≡◌, refl, sym, ap, subst, ◌∙◌, ◌↔◌, ◌⊎◌, inl, inr, Bool,
  true, false, not, ◌&&◌, some, List, ◌++◌, append-nil, arith,
}
use mass_os.Kernel.{PipeState, Kernel, set_pipe}
use mass_os.Keyboard.{has_reader}
use mass_os.Mvar.Protocol.{unread}
use mass_os.Pipe.{
  pipe_buffer_size, would_block, read_bytes, write_bytes, pipe_wake_reader, pipe_wake_writer,
  block_reader, block_writer, pipe_read, pipe_write,
}
use mass_os.Pipe.Buffer.{bytes_of, IsBuffer, low_bytes, read_bytes_refines, write_bytes_refines}
use mass_os.Process.Frame.{pipe_table-process_block, pipe_table-process_unblock}
use mass_os.WaitQueue.{WaitQueue}

-- How many bytes a result stands for.
abbrev pub moved : ℕ → ℕ
moved r = if r == would_block then 0 else r

-- The pipe holds the given bytes.
pub record Holds (bytes : List ℕ) (p : PipeState) : Type 0 where
  pub buffer : IsBuffer p
  pub content : bytes_of p ≡ bytes

Holds-readers :
    (bytes : List ℕ) (p : PipeState) (q : WaitQueue)
    → Holds bytes p
    → Holds bytes (record p { wait_readers = q })
Holds-readers bytes p q h = record {
  buffer = record {
    read_in = h.buffer.read_in;
    fits = h.buffer.fits;
    write_at = h.buffer.write_at;
  };
  content = h.content;
}

Holds-writers :
    (bytes : List ℕ) (p : PipeState) (q : WaitQueue)
    → Holds bytes p
    → Holds bytes (record p { wait_writers = q })
Holds-writers bytes p q h = record {
  buffer = record {
    read_in = h.buffer.read_in;
    fits = h.buffer.fits;
    write_at = h.buffer.write_at;
  };
  content = h.content;
}

moved_small : (n : ℕ) → n ≤ pipe_buffer_size → moved n ≡ n
moved_small n h = ground arith

module _ {H : Type 0} where
  -- Waking and queueing change no more of a pipe than its two queues of processes.
  pub pipe_wake_reader_pipe :
      (k : Kernel H) (i : ℕ)
      → (pipe_wake_reader k i).pipe_table i ≡ record (k.pipe_table i) {
        wait_readers = ((pipe_wake_reader k i).pipe_table i).wait_readers;
      }
  unfolding pipe_wake_reader
  pipe_wake_reader_pipe k i = elim (Bool-cases (ltb 0 (k.pipe_table i).wait_readers.count)) [
    | inl waiting ↦ rw waiting (rw pipe_table-process_unblock (ground arith))
    | inr nobody ↦ rw nobody refl
  ]

  pub pipe_wake_writer_pipe :
      (k : Kernel H) (i : ℕ)
      → (pipe_wake_writer k i).pipe_table i ≡ record (k.pipe_table i) {
        wait_writers = ((pipe_wake_writer k i).pipe_table i).wait_writers;
      }
  unfolding pipe_wake_writer
  pipe_wake_writer_pipe k i = elim (Bool-cases (ltb 0 (k.pipe_table i).wait_writers.count)) [
    | inl waiting ↦ rw waiting (rw pipe_table-process_unblock (ground arith))
    | inr nobody ↦ rw nobody refl
  ]

  block_reader_pipe :
      (k : Kernel H) (i : ℕ)
      → (block_reader k i).pipe_table i
        ≡ record (k.pipe_table i) { wait_readers = ((block_reader k i).pipe_table i).wait_readers }
  unfolding block_reader
  block_reader_pipe k i = elim (Option-cases k.current_process) [
    | inl nobody ↦ rw (nobody, block_reader) refl
    | inr (c, cur) ↦ rw (cur, block_reader) (rw pipe_table-process_block (ground arith))
  ]

  block_writer_pipe :
      (k : Kernel H) (i : ℕ)
      → (block_writer k i).pipe_table i
        ≡ record (k.pipe_table i) { wait_writers = ((block_writer k i).pipe_table i).wait_writers }
  unfolding block_writer
  block_writer_pipe k i = elim (Option-cases k.current_process) [
    | inl nobody ↦ rw (nobody, block_writer) refl
    | inr (c, cur) ↦ rw (cur, block_writer) (rw pipe_table-process_block (ground arith))
  ]

  wake_reader-Holds :
      (k : Kernel H) (i : ℕ) (bytes : List ℕ) (b : Bool)
      → Holds bytes (k.pipe_table i)
      → Holds bytes ((if b then pipe_wake_reader k i else k).pipe_table i)
  wake_reader-Holds k i bytes true h =
      subst (Holds bytes) (sym (pipe_wake_reader_pipe k i))
        (Holds-readers bytes (k.pipe_table i) _ h)
  wake_reader-Holds k i bytes false h = h

  wake_writer-Holds :
      (k : Kernel H) (i : ℕ) (bytes : List ℕ) (b : Bool)
      → Holds bytes (k.pipe_table i)
      → Holds bytes ((if b then pipe_wake_writer k i else k).pipe_table i)
  wake_writer-Holds k i bytes true h =
      subst (Holds bytes) (sym (pipe_wake_writer_pipe k i))
        (Holds-writers bytes (k.pipe_table i) _ h)
  wake_writer-Holds k i bytes false h = h

  -- On every branch of `pipe_read` the bytes returned are the oldest ones of the pipe, as many as
  -- the result says (none if it blocks), and the pipe holds the rest.
  pub pipe_read_refines :
      (k : Kernel H) (i count : ℕ) (bytes : List ℕ)
      → Holds bytes (k.pipe_table i)
      → ((pipe_read k (some i) count).1 ≡ take (moved (pipe_read k (some i) count).0) bytes)
        × Holds
            (drop (moved (pipe_read k (some i) count).0) bytes)
            ((pipe_read k (some i) count).2.pipe_table i)
  unfolding pipe_read
  pipe_read_refines k i count bytes h = elim (Bool-cases (count == 0)) [
    | inl zero_count ↦ rw zero_count (refl, h)
    | inr asked ↦ elim (Bool-cases ((k.pipe_table i).count == 0)) [
      | inl empty ↦
          elim (Bool-cases (
            if (k.pipe_table i).is_named
            then (k.pipe_table i).eof
            else (k.pipe_table i).open_write == 0)) [
              | inl ended ↦ rw (asked, empty, ended) (refl, h)
              | inr pending ↦
                  rw (asked, empty, pending)
                    (
                      refl,
                      subst (Holds bytes) (sym (block_reader_pipe k i))
                          (Holds-readers bytes (k.pipe_table i) _ h),
                    )
            ]
      | inr some_bytes ↦ rw (asked, some_bytes) (rw (moved_small n small) (data_read, data_left))
    ]
  ]
    where
      n : ℕ
      n = min count (k.pipe_table i).count

      small : n ≤ pipe_buffer_size
      small = omega (arith, h.buffer.fits)

      data_read : (read_bytes n (k.pipe_table i)).0 ≡ take n bytes
      data_read =
          (read_bytes_refines n (k.pipe_table i) h.buffer (omega arith)).0 ∙ ap (take n) h.content

      after : PipeState
      after = (read_bytes n (k.pipe_table i)).1

      stored : Holds (drop n bytes) ((set_pipe k i after).pipe_table i)
      stored =
          let r = read_bytes_refines n (k.pipe_table i) h.buffer (omega arith) in
          subst (Holds (drop n bytes)) (sym (update_self k.pipe_table i after))
            (record { buffer = r.2; content = r.1 ∙ ap (drop n) h.content })

      data_left : Holds (drop n bytes) (
          (if ltb 0 after.wait_writers.count && ltb after.count pipe_buffer_size
              then pipe_wake_writer (set_pipe k i after) i
              else set_pipe k i after).pipe_table
            i)
      data_left =
          wake_writer-Holds (set_pipe k i after) i (drop n bytes)
            (ltb 0 after.wait_writers.count && ltb after.count pipe_buffer_size) stored

  -- On every branch of `pipe_write` the pipe holds what it held and behind it the first bytes of
  -- the caller, each cut to 8 bits, as many as the result says (none if it blocks).
  pub pipe_write_refines :
      (k : Kernel H) (i : ℕ) (buf bytes : List ℕ)
      → Holds bytes (k.pipe_table i)
      → Holds
          (bytes ++ low_bytes (take (moved (pipe_write k (some i) buf).0) buf))
          ((pipe_write k (some i) buf).1.pipe_table i)
  unfolding pipe_write
  pipe_write_refines k i buf bytes h = elim (Bool-cases (length buf == 0)) [
    | inl nothing ↦ rw nothing (rw append-nil h)
    | inr something ↦ elim (Bool-cases ((k.pipe_table i).open_read == 0)) [
      | inl unread ↦ elim (Bool-cases ((k.pipe_table i).is_named && not (k.pipe_table i).eof)) [
        | inl waits ↦ rw (something, unread, waits) (rw append-nil blocked_still)
        | inr gives_up ↦ rw (something, unread, gives_up) (rw append-nil h)
      ]
      | inr has_reader ↦ elim (Bool-cases (leb pipe_buffer_size (k.pipe_table i).count)) [
        | inl full ↦ rw (something, has_reader, full) (rw append-nil blocked_still)
        | inr room ↦ rw (something, has_reader, room) (rw (moved_small n small) data_written)
      ]
    ]
  ]
    where
      n : ℕ
      n = min (length buf) (pipe_buffer_size - (k.pipe_table i).count)

      small : n ≤ pipe_buffer_size
      small = omega arith

      blocked_still : Holds bytes ((block_writer k i).pipe_table i)
      blocked_still =
          subst (Holds bytes) (sym (block_writer_pipe k i))
            (Holds-writers bytes (k.pipe_table i) _ h)

      after : PipeState
      after = write_bytes (take n buf) (k.pipe_table i)

      stored : Holds (bytes ++ low_bytes (take n buf)) ((set_pipe k i after).pipe_table i)
      stored =
          let r =
            write_bytes_refines (take n buf) (k.pipe_table i) h.buffer
              (omega (arith, length-take n buf, h.buffer.fits)) in
          subst (Holds (bytes ++ low_bytes (take n buf))) (sym (update_self k.pipe_table i after))
            (record {
              buffer = r.1;
              content = r.0 ∙ ap (λ l. l ++ low_bytes (take n buf)) h.content;
            })

      data_written : Holds (bytes ++ low_bytes (take n buf)) (
          (if ltb 0 after.wait_readers.count && ltb 0 after.count
              then pipe_wake_reader (set_pipe k i after) i
              else set_pipe k i after).pipe_table
            i)
      data_written =
          wake_reader-Holds (set_pipe k i after) i (bytes ++ low_bytes (take n buf))
            (ltb 0 after.wait_readers.count && ltb 0 after.count) stored

  -- `pipe_read` blocks exactly if bytes are asked for, there are none, and more may come: the pipe
  -- is named and not at its end, or anonymous and open for writing. A blocked read reads nothing.
  pub pipe_read_blocks :
      (k : Kernel H) (i count : ℕ)
      → (k.pipe_table i).count ≤ pipe_buffer_size
      → ((pipe_read k (some i) count).0 ≡ would_block) ↔ (
          (0 < count)
          × ((k.pipe_table i).count ≡ 0)
          × ((if (k.pipe_table i).is_named
                then (k.pipe_table i).eof
                else (k.pipe_table i).open_write == 0)
              ≡ false))
  unfolding pipe_read
  pipe_read_blocks k i count fits = (ground arith, ground arith)

  -- `pipe_write` blocks exactly if bytes are given and either nobody reads a named pipe that is not
  -- at its end, or somebody reads and the buffer is full.
  pub pipe_write_blocks :
      (k : Kernel H) (i : ℕ) (buf : List ℕ)
      → (k.pipe_table i).count ≤ pipe_buffer_size
      → ((pipe_write k (some i) buf).0 ≡ would_block) ↔ (
          (0 < length buf)
          × ((((k.pipe_table i).open_read ≡ 0)
                × ((k.pipe_table i).is_named ≡ true)
                × ((k.pipe_table i).eof ≡ false))
              ⊎ ((0 < (k.pipe_table i).open_read) × ((k.pipe_table i).count ≡ pipe_buffer_size))))
  unfolding pipe_write
  pipe_write_blocks k i buf fits = (ground arith, ground arith)
