-- ===== src/Pipe/Tests.antt =====
-- Runs of Kernel/c/pipe/pipe.c on a sample state, and its theorems at it.
use mass_os.Prelude.{
  take, drop, find_from, ◌%◌, ◌≡◌, refl, inl, true, false, none, some, [], ◌∷◌, ◌++◌, arith,
}
use mass_os.Fixtures.{live_pcb, closed_pipe, sample}
use mass_os.Kernel.{ready, blocked, PipeState, Kernel, set_pcb, set_pipe}
use mass_os.Pipe.{
  would_block, pipe_init, pipe_cleanup_for_process, pipe_open, pipe_open_read, pipe_open_write,
  pipe_close_read, pipe_close_write, pipe_read, pipe_write,
}
use mass_os.Pipe.Buffer.{low_bytes}
use mass_os.Pipe.Closing.{pipe_close_write_ends}
use mass_os.Pipe.Transfer.{moved, Holds, pipe_read_refines, pipe_write_refines}
use mass_os.Process.{process_get}
use mass_os.Process.Waking.{IsFound}

-- Pipe 0 holds two bytes across the end of its buffer, open on both sides.
abbrev wrapped_pipe : PipeState
wrapped_pipe = record closed_pipe {
  buffer = λ i. i % 256;
  read_idx = 4095;
  write_idx = 1;
  count = 2;
  open_read = 1;
  open_write = 1;
  in_use = true;
}

abbrev with_pipe : PipeState → Kernel (Unit {0})
with_pipe p = set_pipe sample 0 p

read-wrapped : (pipe_read (with_pipe wrapped_pipe) (some 0) 5).1 ≡ 255 ∷ 0 ∷ []
unfolding pipe_read
read-wrapped = refl

write-wrapped : (pipe_write (with_pipe wrapped_pipe) (some 0) (7 ∷ 300 ∷ [])).0 ≡ 2
unfolding pipe_write
write-wrapped = refl

-- A reader of an empty pipe that is open for writing blocks.
read-empty : (pipe_read (with_pipe (record wrapped_pipe { count = 0 })) (some 0) 5).0 ≡ would_block
unfolding pipe_read
read-empty = refl

-- Once the last writer has closed it, the read returns 0.
read-closed :
    (pipe_read
      (pipe_close_write (with_pipe (record wrapped_pipe { count = 0 })) (some 0))
      (some 0)
      5).0
    ≡ 0
unfolding pipe_read pipe_close_write
read-closed = refl

open-anonymous : (pipe_open sample none).0 ≡ some 0
unfolding pipe_open find_from
open-anonymous = refl

opened_ends :
    let k = pipe_open_write (pipe_open_read (with_pipe wrapped_pipe) (some 0)) (some 0) in
    ((k.pipe_table 0).open_read ≡ 2) × ((k.pipe_table 0).open_write ≡ 2)
unfolding pipe_open_read pipe_open_write
opened_ends = (refl, refl)

closed_ends :
    ((pipe_close_read (pipe_close_write (with_pipe wrapped_pipe) (some 0)) (some 0)).pipe_table
      0).in_use
    ≡ false
unfolding pipe_close_read pipe_close_write
closed_ends = refl

init_pipe : ((pipe_init (with_pipe wrapped_pipe)).pipe_table 0).count ≡ 0
unfolding pipe_init
init_pipe = refl

cleaned-readers :
    ((pipe_cleanup_for_process
        (with_pipe (record wrapped_pipe {
          wait_readers = record { items = λ _. 3; head = 0; tail = 1; count = 1 };
        }))
        3).pipe_table
      0).wait_readers.count
    ≡ 0
unfolding pipe_cleanup_for_process
cleaned-readers = refl

wrapped-Holds : Holds (255 ∷ 0 ∷ []) wrapped_pipe
wrapped-Holds = record { buffer = omega arith; content = refl }

pipe_read_refines_example :
    let r = pipe_read (with_pipe wrapped_pipe) (some 0) 1 in
    (r.1 ≡ take (moved r.0) (255 ∷ 0 ∷ []))
    × Holds (drop (moved r.0) (255 ∷ 0 ∷ [])) (r.2.pipe_table 0)
pipe_read_refines_example =
    pipe_read_refines (with_pipe wrapped_pipe) 0 1 (255 ∷ 0 ∷ []) wrapped-Holds

pipe_write_refines_example :
    let r = pipe_write (with_pipe wrapped_pipe) (some 0) (7 ∷ 300 ∷ []) in
    Holds ((255 ∷ 0 ∷ []) ++ low_bytes (take (moved r.0) (7 ∷ 300 ∷ []))) (r.1.pipe_table 0)
pipe_write_refines_example =
    pipe_write_refines (with_pipe wrapped_pipe) 0 (7 ∷ 300 ∷ []) (255 ∷ 0 ∷ []) wrapped-Holds

-- The process with PID 3, in slot 2, waits to read from the pipe, which is empty.
abbrev with_reader : Kernel (Unit {0})
with_reader =
    set_pcb
      (with_pipe (record wrapped_pipe {
        count = 0;
        wait_readers = record { items = λ _. 3; head = 0; tail = 1; count = 1 };
      }))
      2 (live_pcb 3 1 0 blocked)

reader-IsFound : IsFound with_reader 2
unfolding process_get find_from
reader-IsFound = refl

-- The last writer closes the pipe, and the reader is READY.
pipe_close_write_ends_example :
    let k' = pipe_close_write with_reader (some 0) in
    ((k'.process_table 2).state ≡ ready)
    × ((k'.pipe_table 0).wait_readers.count ≡ 0)
    × ((pipe_read k' (some 0) 5).0 ≡ 0)
pipe_close_write_ends_example =
    pipe_close_write_ends with_reader 0 5 2 (omega arith) (inl refl) refl (omega arith)
      reader-IsFound
