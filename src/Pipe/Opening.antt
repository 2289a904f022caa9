-- ===== src/Pipe/Opening.antt =====
-- Anonymous pipes at `pipe_open` of Kernel/c/pipe/pipe.c.
use mass_os.Prelude.{find_from, ℕ, ◌+◌, ◌≡◌, refl, true, false, none, some}
use mass_os.Kernel.{PipeState, Kernel, set_pipe}
use mass_os.Pipe.{max_pipes, pipe_reset, is_pipe_free, pipe_open, pipe_open_read, pipe_open_write}
use mass_os.Pipe.{pipe_alloc}

-- A pipe that was just opened: empty, in use, with no ends.
abbrev pub opened_pipe : PipeState → PipeState
opened_pipe p = record (pipe_reset p) { in_use = true }

module _ {H : Type 0} where
  -- The first free slot is taken.
  pub pipe_open-slot :
      (k : Kernel H) (i : ℕ)
      → find_from (is_pipe_free k) max_pipes 0 ≡ some i
      → pipe_open k none ≡ (some i, set_pipe k i (opened_pipe (k.pipe_table i)))
  unfolding pipe_open pipe_alloc
  pipe_open-slot k i e = rw (e, pipe_open, pipe_alloc) refl

  pub pipe_open_read-anonymous :
      (k : Kernel H) (i : ℕ)
      → (k.pipe_table i).is_named ≡ false
      → pipe_open_read k (some i)
        ≡ set_pipe k i (record (k.pipe_table i) { open_read = (k.pipe_table i).open_read + 1 })
  unfolding pipe_open_read
  pipe_open_read-anonymous k i anonymous = rw anonymous refl

  pub pipe_open_write-anonymous :
      (k : Kernel H) (i : ℕ)
      → (k.pipe_table i).is_named ≡ false
      → pipe_open_write k (some i)
        ≡ set_pipe k i (record (k.pipe_table i) { open_write = (k.pipe_table i).open_write + 1 })
  unfolding pipe_open_write
  pipe_open_write-anonymous k i anonymous = rw anonymous refl
