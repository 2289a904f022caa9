-- ===== src/Pipe/Closing.antt =====
-- Closing the writing end of a pipe of Kernel/c/pipe/pipe.c: the waiting readers and the end of
-- the data.
use mass_os.Prelude.{
  ltb, leb, ◌==◌, if◌then◌else◌, Bool-cases, member, update_self, ℕ, zero, suc, ◌-◌, ◌≤◌, ◌≡◌, refl,
  sym, ap, subst, ◌∙◌, ◌⊎◌, inl, inr, true, false, ◌&&◌, some, arith,
}
use mass_os.Kernel.{ready, is_blocked, PipeState, Kernel, set_pipe}
use mass_os.Pipe.{
  pipe_maybe_free, pipe_wake_reader, wake_readers, pipe_wake_all_readers, pipe_close_write,
  pipe_read,
}
use mass_os.Pipe.Transfer.{pipe_wake_reader_pipe}
use mass_os.Pipe.Waking.{wake_readers-woken_by}
use mass_os.Process.{process_get}
use mass_os.Process.Frame.{pipe_table-process_unblock}
use mass_os.Process.Waking.{woken_by, IsFound}
use mass_os.WaitQueue.{WaitQueue}
use mass_os.WaitQueue.Refine.{contents, IsQueue, count-queue_pop}

module _ {H : Type 0} where
  count-pipe_wake_reader :
      (k : Kernel H) (i : ℕ)
      → ((pipe_wake_reader k i).pipe_table i).wait_readers.count
        ≡ (k.pipe_table i).wait_readers.count - 1
  unfolding pipe_wake_reader
  count-pipe_wake_reader k i = elim (Bool-cases (ltb 0 (k.pipe_table i).wait_readers.count)) [
    | inl waiting ↦ rw waiting (
        rw pipe_table-process_unblock
          (ground (arith, count-queue_pop (k.pipe_table i).wait_readers)))
    | inr nobody ↦ rw nobody (ground arith)
  ]

  -- As many rounds as there are waiting readers leave none.
  wake_readers_all :
      (n : ℕ) (k : Kernel H) (i : ℕ)
      → (k.pipe_table i).wait_readers.count ≡ n
      → (q : WaitQueue) × ((wake_readers n k i).pipe_table i
          ≡ record (k.pipe_table i) { wait_readers = q })
        × (q.count ≡ 0)
  unfolding wake_readers
  wake_readers_all zero k i e = ((k.pipe_table i).wait_readers, refl, e)
  wake_readers_all (suc n) k i e =
      let (q, same, none_left) =
        wake_readers_all n (pipe_wake_reader k i) i (omega (arith, count-pipe_wake_reader k i)) in
      (
        q,
        same ∙ ap (λ (p : PipeState). record p { wait_readers = q }) (pipe_wake_reader_pipe k i),
        none_left,
      )

  pipe_wake_all_readers_pipe :
      (k : Kernel H) (i : ℕ)
      → (q : WaitQueue) × ((pipe_wake_all_readers k i).pipe_table i
          ≡ record (k.pipe_table i) { wait_readers = q })
        × (q.count ≡ 0)
  unfolding pipe_wake_all_readers
  pipe_wake_all_readers_pipe k i = wake_readers_all (k.pipe_table i).wait_readers.count k i refl

-- A pipe at its end: nothing in it and nothing to come, and nobody waits to read.
record IsEnded (p : PipeState) : Type 0 where
  empty : p.count ≡ 0
  over : (if p.is_named then p.eof else p.open_write == 0) ≡ true
  unwatched : p.wait_readers.count ≡ 0

maybe_free-IsEnded : (p : PipeState) → IsEnded p → IsEnded (pipe_maybe_free p)
unfolding pipe_maybe_free
maybe_free-IsEnded p h = ground (arith, h.empty, h.over, h.unwatched)

module _ {H : Type 0} where
  read_ended :
      (k : Kernel H) (i count : ℕ) → IsEnded (k.pipe_table i) → (pipe_read k (some i) count).0 ≡ 0
  unfolding pipe_read
  read_ended k i count h = elim (Bool-cases (count == 0)) [
    | inl nothing ↦ rw nothing refl
    | inr something ↦
        let none_there : ((k.pipe_table i).count == 0) ≡ true = ground (arith, h.empty) in
        rw (something, none_there, h.over) refl
  ]

  -- When the last writer closes an empty pipe that is anonymous, or named and opened by both sides:
  -- the process of each slot `q` is READY if it was BLOCKED and its PID waited to read, and keeps its
  -- state otherwise; no reader stays queued; and a read right after the close returns 0. The slot is
  -- one that its PID leads to.
  pub pipe_close_write_ends :
      (k : Kernel H) (i count q : ℕ)
      → (k.pipe_table i).open_write ≤ 1
      → (((k.pipe_table i).is_named ≡ false) ⊎ (2 ≤ (k.pipe_table i).opens))
      → (k.pipe_table i).count ≡ 0
      → IsQueue (k.pipe_table i).wait_readers
      → IsFound k q
      → let k' = pipe_close_write k (some i) in
        let c = k.process_table q in
        ((k'.process_table q).state ≡ (
          if member c.pid (contents (k.pipe_table i).wait_readers) && is_blocked c.state
          then ready
          else c.state))
        × ((k'.pipe_table i).wait_readers.count ≡ 0)
        × ((pipe_read k' (some i) count).0 ≡ 0)
  unfolding pipe_close_write pipe_wake_all_readers process_get
  pipe_close_write_ends k i count q last both empty valid found =
      rw last_one (woken_state, done.unwatched, read_ended closed i count done)
    where
      last_one : ((k.pipe_table i).open_write - 1 == 0) ≡ true
      last_one = ground arith

      at_end : PipeState
      at_end = record (k.pipe_table i) {
        open_write = (k.pipe_table i).open_write - 1;
        eof =
            if (k.pipe_table i).is_named && leb 2 (k.pipe_table i).opens
            then true
            else (k.pipe_table i).eof;
      }

      woken : Kernel H
      woken = pipe_wake_all_readers (set_pipe k i at_end) i

      closed : Kernel H
      closed = set_pipe woken i (pipe_maybe_free (woken.pipe_table i))

      woken-IsEnded : IsEnded (woken.pipe_table i)
      woken-IsEnded =
          let (q, same, none_left) = pipe_wake_all_readers_pipe (set_pipe k i at_end) i in
          subst IsEnded
            (sym (
              same
              ∙ ap (λ (p : PipeState). record p { wait_readers = q })
                  (update_self k.pipe_table i at_end)))
            (record { empty = empty; over = ground arith; unwatched = none_left })

      done : IsEnded (closed.pipe_table i)
      done =
          subst IsEnded
            (sym (update_self woken.pipe_table i (pipe_maybe_free (woken.pipe_table i))))
            (maybe_free-IsEnded (woken.pipe_table i) woken-IsEnded)

      same_queue : ((set_pipe k i at_end).pipe_table i).wait_readers ≡ (k.pipe_table i).wait_readers
      same_queue = ap (λ (p : PipeState). p.wait_readers) (update_self k.pipe_table i at_end)

      woken_state :
          (woken.process_table q).state
          ≡ woken_by (contents (k.pipe_table i).wait_readers) (k.process_table q)
      woken_state =
          wake_readers-woken_by _ (set_pipe k i at_end) i q (subst IsQueue (sym same_queue) valid)
            refl found
          ∙ ap (λ w. woken_by (contents w) (k.process_table q)) same_queue
