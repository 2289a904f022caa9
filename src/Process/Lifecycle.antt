-- ===== src/Process/Lifecycle.antt =====
-- Kernel/c/process/process.c: creation, exit, kill, priority change, waiting for a child, and the
-- redirection of a child's descriptors.
pub mod Creation
pub mod Idle
pub mod Pids
pub mod Distinct
pub mod Numbering
pub mod Background
pub mod Waiting
mod Tests
use mass_os.Prelude.{
  ltb, ◌==◌, if◌then◌else◌, ℤ, pos, negsuc, to_int, to_uint64, length, take, bounded_copy, update,
  find_from, ℕ, zero, suc, ◌+◌, ◌-◌, ◌*◌, ◌/◌, ◌%◌, ◌^◌, min, max, true, false, not, ◌&&◌, ◌||◌,
  Option, none, some, List, [], ◌∷◌,
}
use mass_os.Fd.{fd_incref, fd_decref}
use mass_os.Kernel.{
  free, ready, blocked, zombie, is_free, is_blocked, is_zombie, Pcb, Kernel, MemoryManager,
  same_slot, set_pcb,
}
use mass_os.Pipe.{pipe_cleanup_for_process}
use mass_os.Process.{
  min_priority, max_priority, default_priority, stack_size, max_name_len, process_get,
}
use mass_os.Scheduler.{scheduler_add, scheduler_remove, free_if}
use mass_os.Semaphore.{sem_cleanup_for_process}
use mass_os.WaitQueue.{max_processes}

-- The zeroed entry that `process_init` leaves in the table.
abbrev pub zero_pcb : Pcb
zero_pcb = record {
  pid = 0;
  name = [];
  entry = 0;
  priority = 0;
  remaining_quanta = 0;
  wait_ticks = 0;
  state = free;
  rsp = 0;
  stack_base = 0;
  foreground = 0;
  fd = λ _. some 0;
  parent_pid = 0;
  waiting_for = 0;
  argc = 0;
  argv = 0;
  args = [];
  retval = pos 0;
  held_sems = λ _. false;
  opened_sems = λ _. false;
}

-- `*(--sp) = v` for each value in turn.
push_quads : List ℕ → (ℕ → ℕ) × ℕ → (ℕ → ℕ) × ℕ
push_quads [] (memory, sp) = (memory, sp)
push_quads (v ∷ vs) (memory, sp) = push_quads vs (update memory (sp - 8) v, sp - 8)

-- SS, RSP, RFLAGS, CS, RIP, then RAX to R15 in the order of `pushState`.
build_initial_stack : (ℕ → ℕ) → ℕ → ℕ → ℕ → ℕ → (ℕ → ℕ) × ℕ
unfolding push_quads
build_initial_stack memory stack_top entry argc argv =
    push_quads
      (0 ∷ stack_top ∷ 0x202 ∷ 0x08 ∷ entry ∷ 0 ∷ 0 ∷ 0 ∷ 0 ∷ 0 ∷ argc ∷ argv ∷ 0 ∷ 0 ∷ 0 ∷ 0 ∷ 0
        ∷ 0 ∷ 0 ∷ 0 ∷ [])
      (memory, stack_top)

-- The bytes of the block for `argv`: the array of pointers and the texts.
argv_bytes : List (Option (List ℕ)) → ℕ
argv_bytes [] = 0
argv_bytes (none ∷ as') = argv_bytes as'
argv_bytes (some a ∷ as') = length a + 1 + argv_bytes as'

-- The state of the search of `process_kill_foreground`: how many foreground processes, and the
-- highest PID of one.
pub record Foreground : Type 0 where
  pub fg_count : ℕ
  pub target_pid : ℕ
  pub target_idx : Option ℕ

stored_name : List ℕ → List ℕ
stored_name [] = b'?' ∷ []
stored_name (c ∷ cs) = c ∷ cs

module _ {H : Type 0} where
  unfoldable pub process_init : Kernel H → Kernel H
  process_init k = record k {
    process_table = λ i. if ltb i max_processes then zero_pcb else k.process_table i;
    next_pid = 0;
    current_process = none;
  }

  abbrev pub kbd_clear_waiting : Kernel H → ℕ → Kernel H
  kbd_clear_waiting k p =
      if same_slot k.kbd_waiting_process p then record k { kbd_waiting_process = none } else k

  abbrev pub decref_if : Kernel H → Option ℕ → Kernel H
  decref_if k none = k
  decref_if k (some fd) = fd_decref k fd

  pub process_release_fds : Kernel H → ℕ → Kernel H
  unfolding fd_decref
  process_release_fds k p =
      let k1 = decref_if k ((k.process_table p).fd 0) in
      let k2 = decref_if k1 ((k1.process_table p).fd 1) in
      let c = k2.process_table p in
      set_pcb k2 p (record c { fd = update (update c.fd 0 none) 1 none })

  find_foreground : Kernel H → ℕ → ℕ → Foreground → Foreground
  find_foreground k zero i f = f
  find_foreground k (suc n) i f =
      let c = k.process_table i in
      find_foreground k n (i + 1) (
        if not (is_free c.state) && not (c.foreground == 0)
        then (if ltb f.target_pid c.pid
            then record { fg_count = f.fg_count + 1; target_pid = c.pid; target_idx = some i }
            else record f { fg_count = f.fg_count + 1 })
        else f)

  -- The PID that Ctrl+C kills, if any.
  foreground_target : Kernel H → Option ℕ
  unfolding find_foreground
  foreground_target k =
      let f =
        find_foreground k max_processes 0
          (record { fg_count = 0; target_pid = 0; target_idx = none }) in
      elim f.target_idx [
        | none ↦ none
        | some i ↦ if ltb 1 f.fg_count then some f.target_pid else none
      ]

  -- A parent that waits for the process gets its return value in the saved RAX and is READY.
  pub wake_parent : Kernel H → ℕ → ℕ → ℤ → Kernel H
  wake_parent k parent_pid pid retval = elim (process_get k parent_pid) [
    | none ↦ k
    | some q ↦
        let c = k.process_table q in
        if is_blocked c.state && (c.waiting_for == pid)
        then record k {
          memory = update k.memory (c.rsp + 14 * 8) (to_uint64 retval);
          process_table =
              update k.process_table q
                (record c { waiting_for = 0; state = ready; wait_ticks = 0 });
        }
        else k
  ]

  -- What `process_exit` and `process_kill` give back before the state changes.
  pub abandon : Kernel H → ℕ → ℕ → Kernel H
  unfolding sem_cleanup_for_process pipe_cleanup_for_process
  abandon k p pid =
      kbd_clear_waiting (pipe_cleanup_for_process (sem_cleanup_for_process k pid) pid) p

  unfoldable pub process_exit : Kernel H → ℤ → Kernel H
  unfolding abandon process_release_fds wake_parent
  process_exit k retval = elim k.current_process [
    | none ↦ k
    | some p ↦
        let pid = (k.process_table p).pid in
        let k1 = set_pcb k p (record (k.process_table p) { retval = retval }) in
        let k2 = process_release_fds (abandon k1 p pid) p in
        let k3 = wake_parent k2 (k2.process_table p).parent_pid pid retval in
        record k3 {
          process_table =
              update k3.process_table p (record (k3.process_table p) { state = zombie });
          force_switch = true;
        }
  ]

  unfoldable pub process_nice : Kernel H → ℕ → ℕ → Kernel H
  unfolding scheduler_remove scheduler_add
  process_nice k pid new_priority = elim (process_get k pid) [
    | none ↦ k
    | some p ↦
        let prio = min (max new_priority min_priority) max_priority in
        let c = k.process_table p in
        let k' =
          set_pcb k p (record c { priority = prio; wait_ticks = 0; remaining_quanta = prio }) in
        if is_free c.state || is_zombie c.state then k' else scheduler_add (scheduler_remove k' p) p
  ]

  unfoldable pub process_pipe_setup : Kernel H → ℕ → ℕ → ℕ → Kernel H
  unfolding fd_decref fd_incref
  process_pipe_setup k pid stdio_fd target = elim (process_get k pid) [
    | none ↦ k
    | some p ↦
        if ltb 1 target
        then k
        else (let k1 = decref_if k ((k.process_table p).fd target) in
            let c = k1.process_table p in
            fd_incref (set_pcb k1 p (record c { fd = update c.fd target (some stdio_fd) }))
              stdio_fd)
  ]

module _ {H : Type 0} (mm : MemoryManager H) where
  -- The block for the copy of `argv`: `none` if the allocation fails, address 0 if there is none.
  copy_argv : H → Option (List (Option (List ℕ))) → ℕ → Option (ℕ × H)
  unfolding argv_bytes
  copy_argv h none argc = some (0, h)
  copy_argv h (some args) argc =
      if argc == 0
      then some (0, h)
      else (let (a, h') = mm.mm_malloc_kernel (8 * (argc + 1) + argv_bytes (take argc args)) h in
          if a == 0 then none else some (a, h'))

  abbrev pub kept_args : Option (List (Option (List ℕ))) → ℕ → List (Option (List ℕ))
  kept_args none argc = []
  kept_args (some args) argc = take argc args

  -- The part of `process_create` after the allocations: the frame, the PCB, the run queue.
  unfoldable pub fill_pcb :
      Kernel H → ℕ → ℕ × ℕ → List ℕ → ℕ × ℕ → ℕ × Option (List (Option (List ℕ))) → ℕ → ℤ × Kernel H
  unfolding build_initial_stack fd_incref stored_name scheduler_add
  fill_pcb k slot (stack, argv_copy) name (entry, trampoline) (argc, argv) fg =
      let (memory, rsp) =
        build_initial_stack k.memory (stack + stack_size) trampoline argc argv_copy in
      let pid = (k.next_pid + 1) % 2 ^ 64 in
      let pcb = record (k.process_table slot) {
        pid = pid;
        name = stored_name (bounded_copy max_name_len name);
        entry = entry;
        priority = default_priority;
        remaining_quanta = default_priority;
        wait_ticks = 0;
        state = if (fg / 2) % 2 == 1 then blocked else ready;
        rsp = rsp;
        stack_base = stack;
        foreground = fg;
        fd = λ _. some 0;
        parent_pid = elim k.current_process [ none ↦ 0 | some c ↦ (k.process_table c).pid ];
        waiting_for = 0;
        argc = argc;
        argv = argv_copy;
        args = kept_args argv argc;
        retval = pos 0;
        held_sems = λ _. false;
        opened_sems = λ _. false;
      } in
      let pcb' = record pcb { fd = update pcb.fd 1 (some 1) } in
      let k1 = record k {
        memory = memory;
        next_pid = pid;
        process_table = update k.process_table slot pcb';
      } in
      (to_int pid, scheduler_add (fd_incref (fd_incref k1 0) 1) slot)

  -- The part of `process_create` for a free slot, from the answer of the allocator for the stack on.
  pub create_in :
      Kernel H → ℕ → ℕ × H → List ℕ → ℕ × ℕ → ℕ × Option (List (Option (List ℕ))) → ℕ → ℤ × Kernel H
  unfolding copy_argv fill_pcb
  create_in k slot (stack, h1) name entries (argc, argv) fg =
      let c = record (k.process_table slot) { stack_base = stack } in
      let k1 = set_pcb (record k { heap = h1 }) slot c in
      if stack == 0 then (negsuc 0, k1) else elim (copy_argv h1 argv argc) [
        | none ↦ (negsuc 0, record k1 { heap = mm.mm_free stack h1 })
        | some (a, h2) ↦
            fill_pcb (record k1 { heap = h2 }) slot (stack, a) name entries (argc, argv) fg
      ]

  unfoldable pub process_create :
      Kernel H → List ℕ → ℕ × ℕ → ℕ × Option (List (Option (List ℕ))) → ℕ → ℤ × Kernel H
  unfolding create_in
  process_create k name entries args fg =
      elim (find_from (λ i. is_free (k.process_table i).state) max_processes 0) [
        | none ↦ (negsuc 0, k)
        | some slot ↦ create_in k slot (mm.mm_malloc_kernel stack_size k.heap) name entries args fg
      ]

  -- Killing another process gives its memory, queue entry and slot back at once.
  pub destroy : Kernel H → ℕ → Kernel H
  unfolding scheduler_remove process_release_fds
  destroy k0 p =
      let k = process_release_fds (scheduler_remove k0 p) p in
      let c = k.process_table p in
      record k {
        heap = free_if mm c.argv (free_if mm c.stack_base k.heap);
        process_table =
            update k.process_table p (record c { stack_base = 0; argv = 0; state = free; pid = 0 });
      }

  unfoldable pub process_kill : Kernel H → ℕ → Kernel H
  unfolding abandon process_release_fds wake_parent destroy
  process_kill k pid = elim (process_get k pid) [
    | none ↦ k
    | some p ↦
        let c = k.process_table p in
        if is_free c.state || is_zombie c.state
        then k
        else (let k1 = abandon (set_pcb k p (record c { retval = negsuc 0 })) p pid in
            let k2 = wake_parent k1 (k1.process_table p).parent_pid pid (negsuc 0) in
            if same_slot k2.current_process p
            then record (process_release_fds
                (set_pcb k2 p (record (k2.process_table p) { state = zombie })) p) {
                  force_switch = true;
                }
            else destroy k2 p)
  ]

  unfoldable pub process_kill_foreground : Kernel H → Kernel H
  unfolding foreground_target process_kill
  process_kill_foreground k = elim (foreground_target k) [
    | none ↦ k
    | some pid ↦ process_kill k pid
  ]

  unfoldable pub process_waitpid : Kernel H → ℕ → ℤ × Kernel H
  process_waitpid k pid = elim (process_get k pid) [
    | none ↦ (negsuc 0, k)
    | some p ↦
        let c = k.process_table p in
        if is_zombie c.state
        then (
          c.retval,
          record k {
            heap = free_if mm c.argv (free_if mm c.stack_base k.heap);
            process_table =
                update k.process_table p
                  (record c { stack_base = 0; argv = 0; rsp = 0; state = free; pid = 0 });
          },
        )
        else (
          pos 0,
          elim k.current_process [
            | none ↦ record k { force_switch = true }
            | some q ↦ record k {
              process_table =
                  update k.process_table q
                    (record (k.process_table q) { state = blocked; waiting_for = pid });
              force_switch = true;
            }
          ],
        )
  ]
