-- ===== src/Process/Lifecycle/Idle.antt =====
-- `process_kill` of Kernel/c/process/process.c on the process that stands by when nothing is ready.
use mass_os.Prelude.{ℕ}
use mass_os.Kernel.{Kernel, MemoryManager}
use mass_os.Scheduler.{free_if}

module _ {H : Type 0} (mm : MemoryManager H) where
  -- The heap after a process gave back these blocks.
  abbrev pub given_back : H → ℕ × ℕ → H
  given_back h blocks = free_if mm blocks.1 (free_if mm blocks.0 h)
