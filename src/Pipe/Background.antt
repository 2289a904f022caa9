-- ===== src/Pipe/Background.antt =====
-- What wake-ups, opening and closing of Kernel/c/pipe/pipe.c leave alone.
use mass_os.Prelude.{
  ltb, leb, ◌==◌, if◌then◌else◌, Bool-cases, ℕ, zero, suc, ◌+◌, ◌-◌, ◌≡◌, refl, ◌∙◌, inl, inr, Bool,
  true, false, ◌&&◌, Option, none, some,
}
use mass_os.Kernel.{PipeState, Kernel, set_pipe}
use mass_os.Pipe.{
  pipe_wake_reader, pipe_wake_writer, wake_readers, wake_writers, pipe_wake_all_readers,
  pipe_wake_all_writers, pipe_cleanup_for_process, pipe_open_read, pipe_open_write, pipe_close_read,
  pipe_close_write,
}
use mass_os.Process.Background.{IsBackground}

module _ {H A : Type 0} {see : Kernel H → A} (kept : IsBackground see) where
  pub see-pipe_wake_reader : (k : Kernel H) (i : ℕ) → see (pipe_wake_reader k i) ≡ see k
  unfolding pipe_wake_reader
  see-pipe_wake_reader k i = elim (Bool-cases (ltb 0 (k.pipe_table i).wait_readers.count)) [
    | inl e ↦ rw e (kept.keep_unblock _ _ ∙ kept.keep_pipes k _)
    | inr e ↦ rw e refl
  ]

  see-pipe_wake_writer : (k : Kernel H) (i : ℕ) → see (pipe_wake_writer k i) ≡ see k
  unfolding pipe_wake_writer
  see-pipe_wake_writer k i = elim (Bool-cases (ltb 0 (k.pipe_table i).wait_writers.count)) [
    | inl e ↦ rw e (kept.keep_unblock _ _ ∙ kept.keep_pipes k _)
    | inr e ↦ rw e refl
  ]

  see-wake_readers : (n : ℕ) (k : Kernel H) (i : ℕ) → see (wake_readers n k i) ≡ see k
  unfolding wake_readers
  see-wake_readers zero k i = refl
  see-wake_readers (suc n) k i =
      see-wake_readers n (pipe_wake_reader k i) i ∙ see-pipe_wake_reader k i

  see-wake_writers : (n : ℕ) (k : Kernel H) (i : ℕ) → see (wake_writers n k i) ≡ see k
  unfolding wake_writers
  see-wake_writers zero k i = refl
  see-wake_writers (suc n) k i =
      see-wake_writers n (pipe_wake_writer k i) i ∙ see-pipe_wake_writer k i

  pub see-wake_all_readers : (k : Kernel H) (i : ℕ) → see (pipe_wake_all_readers k i) ≡ see k
  unfolding pipe_wake_all_readers
  see-wake_all_readers k i = see-wake_readers (k.pipe_table i).wait_readers.count k i

  pub see-wake_all_writers : (k : Kernel H) (i : ℕ) → see (pipe_wake_all_writers k i) ≡ see k
  unfolding pipe_wake_all_writers
  see-wake_all_writers k i = see-wake_writers (k.pipe_table i).wait_writers.count k i

  pub see-pipe_cleanup : (k : Kernel H) (pid : ℕ) → see (pipe_cleanup_for_process k pid) ≡ see k
  unfolding pipe_cleanup_for_process
  see-pipe_cleanup k pid = kept.keep_pipes k _

  see-set_pipe : (k : Kernel H) (i : ℕ) (p : PipeState) → see (set_pipe k i p) ≡ see k
  see-set_pipe k i p = kept.keep_pipes k _

  pub see-pipe_close_read : (k : Kernel H) (i : Option ℕ) → see (pipe_close_read k i) ≡ see k
  unfolding pipe_close_read
  see-pipe_close_read k none = refl
  see-pipe_close_read k (some i) =
      let p = record (k.pipe_table i) { open_read = (k.pipe_table i).open_read - 1 } in
      elim (Bool-cases ((k.pipe_table i).open_read - 1 == 0)) [
        | inl e ↦
            rw e (see-set_pipe _ i _ ∙ see-wake_all_writers (set_pipe k i p) i ∙ see-set_pipe k i p)
        | inr e ↦ rw e (see-set_pipe _ i _ ∙ see-set_pipe k i p)
      ]

  pub see-pipe_close_write : (k : Kernel H) (i : Option ℕ) → see (pipe_close_write k i) ≡ see k
  unfolding pipe_close_write
  see-pipe_close_write k none = refl
  see-pipe_close_write k (some i) =
      let p = record (k.pipe_table i) {
        open_write = (k.pipe_table i).open_write - 1;
        eof =
            if (k.pipe_table i).is_named && leb 2 (k.pipe_table i).opens
            then true
            else (k.pipe_table i).eof;
      } in
      elim (Bool-cases ((k.pipe_table i).open_write - 1 == 0)) [
        | inl e ↦
            rw e (see-set_pipe _ i _ ∙ see-wake_all_readers (set_pipe k i p) i ∙ see-set_pipe k i p)
        | inr e ↦ rw e (see-set_pipe _ i _ ∙ see-set_pipe k i _)
      ]

  pub see-pipe_open_read : (k : Kernel H) (i : Option ℕ) → see (pipe_open_read k i) ≡ see k
  unfolding pipe_open_read
  see-pipe_open_read k none = refl
  see-pipe_open_read k (some i) =
      let p = record (k.pipe_table i) { open_read = (k.pipe_table i).open_read + 1 } in
      elim (Bool-cases (p.is_named && ltb 0 p.wait_writers.count && ltb 0 p.open_read)) [
        | inl e ↦ rw e (see-wake_all_writers (set_pipe k i p) i ∙ see-set_pipe k i p)
        | inr e ↦ rw e (see-set_pipe k i p)
      ]

  see_either :
      (b : Bool) (x y k : Kernel H)
      → see x ≡ see k
      → see y ≡ see k
      → see (if b then x else y) ≡ see k
  see_either true x y k then_same else_same = then_same
  see_either false x y k then_same else_same = else_same

  pub see-pipe_open_write : (k : Kernel H) (i : Option ℕ) → see (pipe_open_write k i) ≡ see k
  unfolding pipe_open_write
  see-pipe_open_write k none = refl
  see-pipe_open_write k (some i) =
      let p = record (k.pipe_table i) { open_write = (k.pipe_table i).open_write + 1 } in
      let k' = set_pipe k i (record p { eof = false }) in
      let set = see-set_pipe k i (record p { eof = false }) in
      see_either p.is_named (if ltb 0 p.wait_readers.count then pipe_wake_all_readers k' i else k')
        (set_pipe k i p) k
        (see_either (ltb 0 p.wait_readers.count) (pipe_wake_all_readers k' i) k' k
          (see-wake_all_readers k' i ∙ set) set)
        (see-set_pipe k i p)
