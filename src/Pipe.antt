-- ===== src/Pipe.antt =====
-- Kernel/c/pipe/pipe.c: anonymous and named pipes over a circular buffer of 4096 bytes, with
-- queues of blocked readers and writers. A pipe is its index in `pipe_table`; `none` is NULL.
pub mod Buffer
pub mod Transfer
pub mod Waking
pub mod Closing
pub mod Opening
pub mod Delivery
pub mod Background
mod Tests
use mass_os.Prelude.{
  ltb, leb, ◌==◌, if◌then◌else◌, length, take, bounded_copy, text_eq, update, find_from, ℕ, zero,
  suc, ◌+◌, ◌-◌, ◌%◌, ◌^◌, min, Bool, true, false, not, ◌&&◌, Option, none, some, List, [], ◌∷◌,
}
use mass_os.Kernel.{PipeState, Kernel, set_pipe}
use mass_os.Process.{process_block, process_unblock}
use mass_os.Semaphore.{empty_queue, reset_queue}
use mass_os.WaitQueue.{max_processes, WaitQueue, queue_pop, queue_remove_pid}

abbrev pub pipe_buffer_size : ℕ
pipe_buffer_size = 4096

abbrev pub max_pipes : ℕ
max_pipes = 32

abbrev pub pipe_name_len : ℕ
pipe_name_len = 32

-- `(uint64_t)-1`: the call blocked the process.
abbrev pub would_block : ℕ
would_block = 2 ^ 64 - 1

-- The scan of `queue_push` of pipe.c for a PID that is queued already.
is_queued : (ℕ → ℕ) → ℕ → ℕ → ℕ → Bool
is_queued items pid zero idx = false
is_queued items pid (suc n) idx =
    if items idx == pid then true else is_queued items pid n ((idx + 1) % max_processes)

queue_push_once : WaitQueue → ℕ → WaitQueue
unfolding is_queued
queue_push_once q pid =
    if leb max_processes q.count
    then q
    else if is_queued q.items pid q.count ((q.tail + max_processes - q.count) % max_processes)
    then q
    else record q {
      items = update q.items q.tail pid;
      tail = (q.tail + 1) % max_processes;
      count = q.count + 1;
    }

unfoldable pub pipe_reset : PipeState → PipeState
pipe_reset p = record p {
  read_idx = 0;
  write_idx = 0;
  count = 0;
  open_read = 0;
  open_write = 0;
  wait_readers = reset_queue p.wait_readers;
  wait_writers = reset_queue p.wait_writers;
  is_named = false;
  eof = false;
  opens = 0;
  name = [];
}

pub pipe_maybe_free : PipeState → PipeState
unfolding pipe_reset
pipe_maybe_free p =
    if p.open_read == 0 && p.open_write == 0 then record (pipe_reset p) { in_use = false } else p

-- The copy loop of `pipe_read`: `n` bytes out of the buffer.
pub read_bytes : ℕ → PipeState → List ℕ × PipeState
read_bytes zero p = ([], p)
read_bytes (suc n) p =
    let (bytes, p') =
      read_bytes n
        (record p { read_idx = (p.read_idx + 1) % pipe_buffer_size; count = p.count - 1 }) in
    (p.buffer p.read_idx ∷ bytes, p')

-- The copy loop of `pipe_write`, over the bytes that it takes.
pub write_bytes : List ℕ → PipeState → PipeState
write_bytes [] p = p
write_bytes (b ∷ bs) p = write_bytes bs (record p {
  buffer = update p.buffer p.write_idx (b % 256);
  write_idx = (p.write_idx + 1) % pipe_buffer_size;
  count = p.count + 1;
})

-- One round of the loop of `pipe_cleanup_for_process`.
cleanup_pipe : ℕ → PipeState → PipeState
unfolding queue_remove_pid
cleanup_pipe pid p =
    if p.in_use
    then record p {
      wait_readers = (queue_remove_pid p.wait_readers pid).1;
      wait_writers = (queue_remove_pid p.wait_writers pid).1;
    }
    else p

module _ {H : Type 0} where
  pub pipe_wake_reader : Kernel H → ℕ → Kernel H
  pipe_wake_reader k i =
      let p = k.pipe_table i in
      if ltb 0 p.wait_readers.count
      then (let (pid, rest) = queue_pop p.wait_readers in
          process_unblock (set_pipe k i (record p { wait_readers = rest })) pid)
      else k

  pub pipe_wake_writer : Kernel H → ℕ → Kernel H
  pipe_wake_writer k i =
      let p = k.pipe_table i in
      if ltb 0 p.wait_writers.count
      then (let (pid, rest) = queue_pop p.wait_writers in
          process_unblock (set_pipe k i (record p { wait_writers = rest })) pid)
      else k

  -- `while (count > 0) wake`: each round takes one process off, so there are `count` rounds.
  pub wake_readers : ℕ → Kernel H → ℕ → Kernel H
  unfolding pipe_wake_reader
  wake_readers zero k i = k
  wake_readers (suc n) k i = wake_readers n (pipe_wake_reader k i) i

  pub wake_writers : ℕ → Kernel H → ℕ → Kernel H
  unfolding pipe_wake_writer
  wake_writers zero k i = k
  wake_writers (suc n) k i = wake_writers n (pipe_wake_writer k i) i

  pub pipe_wake_all_readers : Kernel H → ℕ → Kernel H
  unfolding wake_readers
  pipe_wake_all_readers k i = wake_readers (k.pipe_table i).wait_readers.count k i

  pub pipe_wake_all_writers : Kernel H → ℕ → Kernel H
  unfolding wake_writers
  pipe_wake_all_writers k i = wake_writers (k.pipe_table i).wait_writers.count k i

  -- `memset(pipe_table, 0, …)`
  unfoldable pub pipe_init : Kernel H → Kernel H
  pipe_init k = record k {
    pipe_table = λ i.
        if ltb i max_pipes
        then record {
          buffer = λ _. 0;
          read_idx = 0;
          write_idx = 0;
          count = 0;
          open_read = 0;
          open_write = 0;
          wait_readers = empty_queue;
          wait_writers = empty_queue;
          in_use = false;
          is_named = false;
          eof = false;
          opens = 0;
          name = [];
        }
        else k.pipe_table i;
  }

  unfoldable pub pipe_cleanup_for_process : Kernel H → ℕ → Kernel H
  unfolding cleanup_pipe
  pipe_cleanup_for_process k pid = record k {
    pipe_table = λ i. if ltb i max_pipes then cleanup_pipe pid (k.pipe_table i) else k.pipe_table i;
  }

  abbrev pub is_pipe_free : Kernel H → ℕ → Bool
  is_pipe_free k i = not (k.pipe_table i).in_use

  pipe_alloc : Kernel H → Option ℕ × Kernel H
  unfolding pipe_reset
  pipe_alloc k = elim (find_from (is_pipe_free k) max_pipes 0) [
    | none ↦ (none, k)
    | some i ↦ (some i, set_pipe k i (record (pipe_reset (k.pipe_table i)) { in_use = true }))
  ]

  abbrev pub is_pipe_named : Kernel H → List ℕ → ℕ → Bool
  is_pipe_named k name i = let p = k.pipe_table i in p.in_use && p.is_named && text_eq name p.name

  -- `none` for an anonymous pipe.
  unfoldable pub pipe_open : Kernel H → Option (List ℕ) → Option ℕ × Kernel H
  unfolding pipe_alloc
  pipe_open k none = pipe_alloc k
  pipe_open k (some name) = elim (find_from (is_pipe_named k name) max_pipes 0) [
    | some i ↦ let p = k.pipe_table i in (some i, set_pipe k i (record p { opens = p.opens + 1 }))
    | none ↦
        let (found, k') = pipe_alloc k in
        elim found [
          | none ↦ (none, k')
          | some i ↦ (
            some i,
            set_pipe k' i (record (k'.pipe_table i) {
              name = bounded_copy pipe_name_len name;
              is_named = true;
              opens = 1;
            }),
          )
        ]
  ]

  pub pipe_open_read : Kernel H → Option ℕ → Kernel H
  unfolding pipe_wake_all_writers
  pipe_open_read k none = k
  pipe_open_read k (some i) =
      let p = record (k.pipe_table i) { open_read = (k.pipe_table i).open_read + 1 } in
      let k' = set_pipe k i p in
      if p.is_named && ltb 0 p.wait_writers.count && ltb 0 p.open_read
      then pipe_wake_all_writers k' i
      else k'

  unfoldable pub pipe_open_write : Kernel H → Option ℕ → Kernel H
  unfolding pipe_wake_all_readers
  pipe_open_write k none = k
  pipe_open_write k (some i) =
      let p = record (k.pipe_table i) { open_write = (k.pipe_table i).open_write + 1 } in
      if p.is_named
      then (let k' = set_pipe k i (record p { eof = false }) in
          if ltb 0 p.wait_readers.count then pipe_wake_all_readers k' i else k')
      else set_pipe k i p

  pub pipe_close_read : Kernel H → Option ℕ → Kernel H
  unfolding pipe_wake_all_writers pipe_maybe_free
  pipe_close_read k none = k
  pipe_close_read k (some i) =
      let p = record (k.pipe_table i) { open_read = (k.pipe_table i).open_read - 1 } in
      let k1 = set_pipe k i p in
      let k2 = if p.open_read == 0 then pipe_wake_all_writers k1 i else k1 in
      set_pipe k2 i (pipe_maybe_free (k2.pipe_table i))

  unfoldable pub pipe_close_write : Kernel H → Option ℕ → Kernel H
  unfolding pipe_wake_all_readers pipe_maybe_free
  pipe_close_write k none = k
  pipe_close_write k (some i) =
      let p = record (k.pipe_table i) { open_write = (k.pipe_table i).open_write - 1 } in
      let k1 = set_pipe k i p in
      let k2 =
        if p.open_write == 0
        then pipe_wake_all_readers
            (set_pipe k i (record p { eof = if p.is_named && leb 2 p.opens then true else p.eof }))
            i
        else k1 in
      set_pipe k2 i (pipe_maybe_free (k2.pipe_table i))

  -- The current process queues as a reader or a writer and blocks.
  pub block_reader : Kernel H → ℕ → Kernel H
  unfolding queue_push_once
  block_reader k i = elim k.current_process [
    | none ↦ k
    | some c ↦
        let pid = (k.process_table c).pid in
        let p = k.pipe_table i in
        process_block
          (set_pipe k i (record p { wait_readers = queue_push_once p.wait_readers pid })) pid
  ]

  pub block_writer : Kernel H → ℕ → Kernel H
  unfolding queue_push_once
  block_writer k i = elim k.current_process [
    | none ↦ k
    | some c ↦
        let pid = (k.process_table c).pid in
        let p = k.pipe_table i in
        process_block
          (set_pipe k i (record p { wait_writers = queue_push_once p.wait_writers pid })) pid
  ]

  -- Returns the call's result, the bytes stored in `buf`, and the new state.
  pub pipe_read : Kernel H → Option ℕ → ℕ → ℕ × List ℕ × Kernel H
  unfolding block_reader read_bytes pipe_wake_writer
  pipe_read k none count = (0, [], k)
  pipe_read k (some i) count =
      let p = k.pipe_table i in
      if count == 0
      then (0, [], k)
      else if p.count == 0
      then (if (if p.is_named then p.eof else p.open_write == 0)
          then (0, [], k)
          else (would_block, [], block_reader k i))
      else (let n = min count p.count in
          let (bytes, p') = read_bytes n p in
          let k' = set_pipe k i p' in
          (
            n,
            bytes,
            if ltb 0 p'.wait_writers.count && ltb p'.count pipe_buffer_size
                then pipe_wake_writer k' i
                else k',
          ))

  pub pipe_write : Kernel H → Option ℕ → List ℕ → ℕ × Kernel H
  unfolding block_writer write_bytes pipe_wake_reader
  pipe_write k none buf = (0, k)
  pipe_write k (some i) buf =
      let p = k.pipe_table i in
      if length buf == 0
      then (0, k)
      else if p.open_read == 0
      then (if p.is_named && not p.eof then (would_block, block_writer k i) else (0, k))
      else if leb pipe_buffer_size p.count
      then (would_block, block_writer k i)
      else (let n = min (length buf) (pipe_buffer_size - p.count) in
          let p' = write_bytes (take n buf) p in
          let k' = set_pipe k i p' in
          (n, if ltb 0 p'.wait_readers.count && ltb 0 p'.count then pipe_wake_reader k' i else k'))
