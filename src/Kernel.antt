-- ===== src/Kernel.antt =====
-- The state of the kernel: the process table of Kernel/include/process.h, the run queue of
-- Kernel/c/scheduler/scheduler.c, and the tables of semaphores, pipes and descriptors. A pointer
-- into a table is its index, and NULL is `none`. The allocator's state is the parameter `Heap`.
use mass_os.Prelude.{◌==◌, ℤ, update, ℕ, Bool, true, false, Option, none, some, List}
use mass_os.WaitQueue.{WaitQueue}

pub data ProcessState : Type 0 where
  free ready running blocked zombie : ProcessState

abbrev pub is_free : ProcessState → Bool
is_free free = true
is_free _ = false

abbrev pub is_ready : ProcessState → Bool
is_ready ready = true
is_ready _ = false

abbrev pub is_running : ProcessState → Bool
is_running running = true
is_running _ = false

abbrev pub is_blocked : ProcessState → Bool
is_blocked blocked = true
is_blocked _ = false

abbrev pub is_zombie : ProcessState → Bool
is_zombie zombie = true
is_zombie _ = false

-- `int fd[2]`: a negative descriptor is `none`. The bitmaps `held_sems` and `opened_sems` are
-- functions of the bit. Addresses are numbers, 0 for NULL; `args` is what the block at `argv` holds.
pub record Pcb : Type 0 where
  pub pid : ℕ
  pub name : List ℕ
  pub entry : ℕ
  pub priority : ℕ
  pub remaining_quanta : ℕ
  pub wait_ticks : ℕ
  pub state : ProcessState
  pub rsp : ℕ
  pub stack_base : ℕ
  pub foreground : ℕ
  pub fd : ℕ → Option ℕ
  pub parent_pid : ℕ
  pub waiting_for : ℕ
  pub argc : ℕ
  pub argv : ℕ
  pub args : List (Option (List ℕ))
  pub retval : ℤ
  pub held_sems : ℕ → Bool
  pub opened_sems : ℕ → Bool

pub record Sem : Type 0 where
  pub name : List ℕ
  pub value : ℤ
  pub wait_queue : WaitQueue
  pub open_count : ℕ
  pub lock : Bool

pub record PipeState : Type 0 where
  pub buffer : ℕ → ℕ
  pub read_idx : ℕ
  pub write_idx : ℕ
  pub count : ℕ
  pub open_read : ℕ
  pub open_write : ℕ
  pub wait_readers : WaitQueue
  pub wait_writers : WaitQueue
  pub in_use : Bool
  pub is_named : Bool
  pub eof : Bool
  pub opens : ℕ
  pub name : List ℕ

pub data FdType : Type 0 where
  fd_none fd_terminal fd_pipe_read fd_pipe_write : FdType

-- `data` of a descriptor is its pipe.
pub record FdEntry : Type 0 where
  pub type : FdType
  pub refcount : ℕ
  pub pipe : Option ℕ

-- `memory` holds the quadwords of the process stacks, by address.
pub record Kernel (Heap : Type 0) : Type 0 where
  pub process_table : ℕ → Pcb
  pub next_pid : ℕ
  pub current_process : Option ℕ
  pub run_queue : List ℕ
  pub queue_idx : ℕ
  pub idle_pcb : Option ℕ
  pub force_switch : Bool
  pub ticks : ℕ
  pub sem_table : ℕ → Sem
  pub pipe_table : ℕ → PipeState
  pub fd_table : ℕ → FdEntry
  pub kbd_waiting_process : Option ℕ
  pub memory : ℕ → ℕ
  pub heap : Heap

-- What the kernel uses of a memory manager (Kernel/include/memoryManager.h).
pub record MemoryManager (Heap : Type 0) : Type 0 where
  pub mm_malloc_kernel : ℕ → Heap → ℕ × Heap
  pub mm_free : ℕ → Heap → Heap

abbrev pub same_slot : Option ℕ → ℕ → Bool
same_slot none p = false
same_slot (some q) p = q == p

module _ {H : Type 0} where
  abbrev pub set_pcb : Kernel H → ℕ → Pcb → Kernel H
  set_pcb k p c = record k { process_table = update k.process_table p c }

  abbrev pub set_sem : Kernel H → ℕ → Sem → Kernel H
  set_sem k i s = record k { sem_table = update k.sem_table i s }

  abbrev pub set_pipe : Kernel H → ℕ → PipeState → Kernel H
  set_pipe k i p = record k { pipe_table = update k.pipe_table i p }

  abbrev pub set_fd : Kernel H → ℕ → FdEntry → Kernel H
  set_fd k i d = record k { fd_table = update k.fd_table i d }

  -- The process that waits for the keyboard.
  abbrev pub kbd_waiter : Kernel H → Option ℕ
  kbd_waiter k = k.kbd_waiting_process
