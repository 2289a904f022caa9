-- ===== src/Boot.antt =====
-- The start of the kernel: Kernel/c/kernel/kernel.c. The addresses that the linker gives and the
-- initial state that `mm_init` gives the memory manager are arguments.
pub mod Image
pub mod Starting
mod Tests
use mass_os.Prelude.{
  ◌==◌, if◌then◌else◌, ℤ, pos, to_uint64, ℕ, ◌+◌, ◌-◌, ◌*◌, false, none, some, [], ◌∷◌,
}
use mass_os.Copying.{memset}
use mass_os.Fd.{fd_init}
use mass_os.Kernel.{fd_none, Kernel, MemoryManager, set_pcb}
use mass_os.Modules.{load_modules}
use mass_os.Pipe.{pipe_init}
use mass_os.Process.{min_priority, process_get}
use mass_os.Process.Lifecycle.{zero_pcb, process_init, process_create}
use mass_os.Scheduler.{scheduler_init, scheduler_set_idle, scheduler_remove}
use mass_os.Semaphore.{empty_queue, sem_init}

abbrev heap_start : ℕ
heap_start = 0x600000

abbrev heap_size : ℕ
heap_size = 8 * 1024 * 1024

abbrev page_size : ℕ
page_size = 0x1000

abbrev pub sample_code_module_address : ℕ
sample_code_module_address = 0x400000

abbrev pub sample_data_module_address : ℕ
sample_data_module_address = 0x500000

-- The symbols of the linker, and the entry points of processes.
pub record Linked : Type 0 where
  pub bss : ℕ
  pub end_of_kernel_binary : ℕ
  pub end_of_kernel : ℕ
  pub idle_entry : ℕ
  pub trampoline : ℕ

-- The array has two entries.
abbrev pub module_addresses : ℕ → ℕ
module_addresses i = if i == 0 then sample_code_module_address else sample_data_module_address

pub clear_bss : (ℕ → ℕ) → ℕ → ℕ → ℕ → ℕ
unfolding memset
clear_bss memory bss_address bss_size = memset memory bss_address 0 bss_size

pub get_stack_base : Linked → ℕ
get_stack_base l = l.end_of_kernel + page_size * 8 - 8

-- The bytes of memory after the first two steps of `initializeKernelBinary`.
pub load_image : Linked → (ℕ → ℕ) → ℕ → ℕ
unfolding load_modules clear_bss
load_image l memory =
    clear_bss (load_modules memory l.end_of_kernel_binary module_addresses) l.bss
      (l.end_of_kernel - l.bss)

module _ {H : Type 0} where
  -- The static variables after `clearBSS`. The stacks lie in the memory that is found.
  abbrev pub zeroed : (ℕ → ℕ) → H → Kernel H
  zeroed memory heap = record {
    process_table = λ _. zero_pcb;
    next_pid = 0;
    current_process = none;
    run_queue = [];
    queue_idx = 0;
    idle_pcb = none;
    force_switch = false;
    ticks = 0;
    sem_table = λ _. record {
      name = [];
      value = pos 0;
      wait_queue = empty_queue;
      open_count = 0;
      lock = false;
    };
    pipe_table = λ _. record {
      buffer = λ _. 0;
      read_idx = 0;
      write_idx = 0;
      count = 0;
      open_read = 0;
      open_write = 0;
      wait_readers = empty_queue;
      wait_writers = empty_queue;
      in_use = false;
      is_named = false;
      eof = false;
      opens = 0;
      name = [];
    };
    fd_table = λ _. record { type = fd_none; refcount = 0; pipe = none };
    kbd_waiting_process = none;
    memory = memory;
    heap = heap;
  }

  pub init_tables : (ℕ → ℕ → H) → Kernel H → Kernel H
  unfolding process_init fd_init pipe_init scheduler_init sem_init
  init_tables mm_init k = sem_init (
      scheduler_init
        (pipe_init (fd_init (process_init (record k { heap = mm_init heap_start heap_size })))))

  -- The idle process, if it was created, leaves the run queue.
  pub register_idle : ℤ × Kernel H → Kernel H
  unfolding process_get scheduler_set_idle scheduler_remove
  register_idle (idle_pid, k) = elim (process_get k (to_uint64 idle_pid)) [
    | none ↦ k
    | some idle ↦
        let c = k.process_table idle in
        let k1 = set_pcb k idle (record c { priority = min_priority; remaining_quanta = 1 }) in
        scheduler_remove (scheduler_set_idle k1 (some idle)) idle
  ]

module _ {H : Type 0} (mm : MemoryManager H) where
  -- The processes that are created at the start.
  pub start_idle : Linked → Kernel H → Kernel H
  unfolding process_create register_idle
  start_idle l k = register_idle (
      process_create mm k (b'i' ∷ b'd' ∷ b'l' ∷ b'e' ∷ []) (l.idle_entry, l.trampoline) (0, none) 0)

  pub start_shell : Linked → Kernel H → Kernel H
  unfolding process_create
  start_shell l k =
      (process_create mm k (b's' ∷ b'h' ∷ b'e' ∷ b'l' ∷ b'l' ∷ [])
        (sample_code_module_address, l.trampoline) (0, none) 1).1

  -- The call's result, the stack base, and the state when it returns, of the bytes of memory, its
  -- quadwords, and what the variables of the memory manager hold.
  pub initialize_kernel_binary :
      (ℕ → ℕ → H) → Linked → (ℕ → ℕ) × (ℕ → ℕ) × H → ℕ × (ℕ → ℕ) × Kernel H
  unfolding load_image init_tables start_idle start_shell get_stack_base
  initialize_kernel_binary mm_init l (memory, quads, heap) = (
    get_stack_base l,
    load_image l memory,
    start_shell l (start_idle l (init_tables mm_init (zeroed quads heap))),
  )
