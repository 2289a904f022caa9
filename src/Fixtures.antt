-- ===== src/Fixtures.antt =====
-- A small kernel state on which the tests of the components run: idle in slot 0, and processes of
-- priority 3, 1 and 5 in slots 1, 2 and 3, of which the first runs.
use mass_os.Prelude.{◌==◌, if◌then◌else◌, pos, ℕ, ◌*◌, false, none, some, [], ◌∷◌}
use mass_os.Kernel.{
  ProcessState, ready, running, Pcb, Sem, PipeState, fd_none, Kernel, MemoryManager,
}
use mass_os.Keyboard.{Keyboard, Machine}
use mass_os.Process.Lifecycle.{zero_pcb}
use mass_os.Semaphore.{empty_queue}

abbrev pub live_pcb : ℕ → ℕ → ℕ → ProcessState → Pcb
live_pcb pid priority foreground state = record zero_pcb {
  pid = pid;
  priority = priority;
  foreground = foreground;
  state = state;
  remaining_quanta = priority;
  rsp = 1000 * pid;
}

abbrev pub sample_table : ℕ → Pcb
sample_table i =
    if i == 0
    then live_pcb 1 1 0 ready
    else if i == 1
    then live_pcb 2 3 0 running
    else if i == 2
    then live_pcb 3 1 0 ready
    else if i == 3
    then live_pcb 4 5 1 ready
    else zero_pcb

abbrev pub closed_sem : Sem
closed_sem = record {
  name = [];
  value = pos 0;
  wait_queue = empty_queue;
  open_count = 0;
  lock = false;
}

abbrev pub closed_pipe : PipeState
closed_pipe = record {
  buffer = λ _. 0;
  read_idx = 0;
  write_idx = 0;
  count = 0;
  open_read = 0;
  open_write = 0;
  wait_readers = empty_queue;
  wait_writers = empty_queue;
  in_use = false;
  is_named = false;
  eof = false;
  opens = 0;
  name = [];
}

abbrev pub sample_on : {H : Type 0} → H → Kernel H
sample_on heap = record {
  process_table = sample_table;
  next_pid = 4;
  current_process = some 1;
  run_queue = 3 ∷ 1 ∷ 2 ∷ [];
  queue_idx = 1;
  idle_pcb = some 0;
  force_switch = false;
  ticks = 0;
  sem_table = λ _. closed_sem;
  pipe_table = λ _. closed_pipe;
  fd_table = λ _. record { type = fd_none; refcount = 0; pipe = none };
  kbd_waiting_process = none;
  memory = λ _. 0;
  heap = heap;
}

abbrev pub sample : Kernel (Unit {0})
sample = sample_on tt

-- A memory manager that never has memory.
abbrev pub no_memory : MemoryManager (Unit {0})
no_memory = record { mm_malloc_kernel = λ n h. (0, h); mm_free = λ a h. h }

-- Nothing typed, in raw mode.
abbrev pub idle_keyboard : Keyboard
idle_keyboard = record {
  buff = λ _. 0;
  buff_size = 0;
  start_index = 0;
  end_index = 0;
  shift = false;
  caps = false;
  ctrl = false;
  registers_buff = [];
  bool_registers = false;
  tty_mode = pos 0;
  tty_line = λ _. 0;
  tty_line_len = 0;
  tty_line_ready = false;
  tty_eof = false;
}

abbrev pub raw_machine : Machine (Unit {0})
raw_machine = record { kernel = sample; keyboard = idle_keyboard; screen = [] }
