-- ===== src/Pipe/Waking.antt =====
-- Which processes the closing side of Kernel/c/pipe/pipe.c wakes.
use mass_os.Prelude.{
  ltb, update_self, ℕ, zero, suc, ◌<◌, ◌≡◌, refl, sym, ap, subst, ◌∙◌, Bool, true, [], ◌∷◌, arith,
}
use mass_os.Kernel.{PipeState, Kernel, set_pipe}
use mass_os.Pipe.{pipe_wake_reader, wake_readers}
use mass_os.Pipe.Background.{see-pipe_wake_reader}
use mass_os.Process.{process_get, process_unblock}
use mass_os.Process.Background.{identity, identity-IsBackground}
use mass_os.Process.Frame.{pipe_table-process_unblock}
use mass_os.Process.Waking.{woken_by, IsFound, IsFound-alike, unblocked_state, woken_by-cons}
use mass_os.WaitQueue.{WaitQueue, queue_pop}
use mass_os.WaitQueue.Refine.{contents, IsQueue, queue_pop_refines, count-queue_pop}

module _ {H : Type 0} where
  -- What one round does when somebody waits.
  pipe_wake_reader-waiting :
      (k : Kernel H) (i : ℕ)
      → 0 < (k.pipe_table i).wait_readers.count
      → pipe_wake_reader k i
        ≡ process_unblock
            (set_pipe k i (record (k.pipe_table i) {
              wait_readers = (queue_pop (k.pipe_table i).wait_readers).1;
            }))
            (queue_pop (k.pipe_table i).wait_readers).0
  unfolding pipe_wake_reader
  pipe_wake_reader-waiting k i waiting =
      let e : ltb 0 (k.pipe_table i).wait_readers.count ≡ true = ground arith in rw e refl

  -- As many rounds as processes wait wake each of them, and nobody else.
  pub wake_readers-woken_by :
      (n : ℕ) (k : Kernel H) (i q : ℕ)
      → IsQueue (k.pipe_table i).wait_readers
      → (k.pipe_table i).wait_readers.count ≡ n
      → IsFound k q
      → ((wake_readers n k i).process_table q).state
        ≡ woken_by (contents (k.pipe_table i).wait_readers) (k.process_table q)
  unfolding wake_readers process_get
  wake_readers-woken_by zero k i q valid e found =
      let none_queued : contents (k.pipe_table i).wait_readers ≡ [] = rw e refl in
      rw none_queued refl
  wake_readers-woken_by (suc n) k i q valid e found =
      let readers = (k.pipe_table i).wait_readers in
      let pid = (queue_pop readers).0 in
      let rest = (queue_pop readers).1 in
      let waiting : 0 < readers.count = omega (arith, e) in
      let (split, valid') = queue_pop_refines readers valid waiting in
      let popped = set_pipe k i (record (k.pipe_table i) { wait_readers = rest }) in
      let k1 = pipe_wake_reader k i in
      let k1_is : k1 ≡ process_unblock popped pid = pipe_wake_reader-waiting k i waiting in
      let queue : (k1.pipe_table i).wait_readers ≡ rest =
        ap (λ (s : Kernel H). (s.pipe_table i).wait_readers) k1_is
        ∙ ap (λ (t : ℕ → PipeState). (t i).wait_readers) (pipe_table-process_unblock popped pid)
        ∙ ap (λ (p : PipeState). p.wait_readers) (update_self k.pipe_table i _) in
      let alike : (j : ℕ) → identity j k1 ≡ identity j k =
        λ j. see-pipe_wake_reader (identity-IsBackground j) k i in
      let state : (k1.process_table q).state ≡ woken_by (pid ∷ []) (k.process_table q) =
        ap (λ (s : Kernel H). (s.process_table q).state) k1_is
        ∙ unblocked_state popped pid q found in
      wake_readers-woken_by n k1 i q (subst IsQueue (sym queue) valid')
        (ap (λ (w : WaitQueue). w.count) queue ∙ omega (arith, e, count-queue_pop readers))
        (IsFound-alike k k1 q alike found)
      ∙ ap (λ w. woken_by (contents w) (k1.process_table q)) queue
      ∙ woken_by-cons pid (contents rest) (k.process_table q) (k1.process_table q)
          (ap (λ (r : ℕ × Bool). r.0) (alike q)) state
      ∙ ap (λ l. woken_by l (k.process_table q)) (sym split)
