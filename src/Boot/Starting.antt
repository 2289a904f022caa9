-- ===== src/Boot/Starting.antt =====
-- The first processes of Kernel/c/kernel/kernel.c, and what runs when `main` starts the scheduler.
use mass_os.Prelude.{
  ℤ, find_from, ℕ, ◌<◌, ◌≡◌, refl, sym, ap, subst, ◌∙◌, none, some, List, [], ◌∷◌,
}
use mass_os.Boot.{
  sample_code_module_address, Linked, zeroed, init_tables, register_idle, start_idle, start_shell,
  initialize_kernel_binary,
}
use mass_os.Fd.{fd_get, fd_incref}
use mass_os.Kernel.{is_free, Kernel, MemoryManager, set_pcb}
use mass_os.Process.{min_priority, stack_size, process_get}
use mass_os.Process.Lifecycle.{fill_pcb}
use mass_os.Process.Lifecycle.Creation.{process_create-fill_pcb, process_create-no_stack}
use mass_os.Scheduler.{scheduler_add, scheduler_remove, scheduler_start}
use mass_os.WaitQueue.{max_processes}
use mass_os.Boot.{heap_start, heap_size}

-- An answer of the allocator to the request for a stack.
abbrev pub Gives : {H : Type 0} → MemoryManager H → H → ℕ → H → Type 0
Gives mm h stack h' = mm.mm_malloc_kernel stack_size h ≡ (stack, h')

-- Idle is in slot 0 and outside the run queue, nobody runs, and `scheduler_start` makes the process in
-- slot `p` the current one.
pub record Started {H : Type 0} (k : Kernel H) (queue_of : List ℕ) (p : ℕ) : Type 0 where
  pub queue : k.run_queue ≡ queue_of
  pub idle : k.idle_pcb ≡ some 0
  pub idle_pid : (k.process_table 0).pid ≡ 1
  pub idle_priority : (k.process_table 0).priority ≡ min_priority
  pub idle_quantum : (k.process_table 0).remaining_quanta ≡ 1
  pub none_yet : k.current_process ≡ none
  pub first : (scheduler_start k).1.current_process ≡ some p

module _ {H : Type 0} (mm : MemoryManager H) where
  abbrev with_stack_base : Kernel H → ℕ → ℕ → H → Kernel H
  with_stack_base k slot stack h =
      record (set_pcb k slot (record (k.process_table slot) { stack_base = stack })) { heap = h }

  abbrev idle_made : Linked → Kernel H → ℕ → H → ℤ × Kernel H
  idle_made l k stack h =
      fill_pcb mm (with_stack_base k 0 stack h) 0 (stack, 0) (b'i' ∷ b'd' ∷ b'l' ∷ b'e' ∷ [])
        (l.idle_entry, l.trampoline) (0, none) 0

  abbrev shell_made : Linked → Kernel H → ℕ → H → Kernel H
  shell_made l k stack h =
      (fill_pcb mm (with_stack_base k 1 stack h) 1 (stack, 0)
        (b's' ∷ b'h' ∷ b'e' ∷ b'l' ∷ b'l' ∷ []) (sample_code_module_address, l.trampoline) (0, none)
        1).1

  abbrev pub boot : (ℕ → ℕ → H) → Linked → (ℕ → ℕ) × (ℕ → ℕ) × H → Kernel H
  boot mm_init l found = (initialize_kernel_binary mm mm_init l found).2

  module _ (mm_init : ℕ → ℕ → H) (l : Linked) (quads : ℕ → ℕ) (heap : H) where
    abbrev tables : Kernel H
    tables = init_tables mm_init (zeroed quads heap)

    module _ {stack : ℕ} {h : H} (e : Gives mm (mm_init heap_start heap_size) stack h)
        (nz : 0 < stack) where
      abbrev idle_started : Kernel H
      idle_started = register_idle (idle_made l tables stack h)

      start_idle_lem : start_idle mm l tables ≡ idle_started
      unfolding start_idle init_tables find_from
      start_idle_lem = ap register_idle (
          process_create-fill_pcb mm tables (b'i' ∷ b'd' ∷ b'l' ∷ b'e' ∷ [])
            (l.idle_entry, l.trampoline) 0 0 stack h refl e nz)

      heap-idle_started : idle_started.heap ≡ h
      unfolding init_tables find_from register_idle fill_pcb process_get scheduler_add
          scheduler_remove fd_incref fd_get
      heap-idle_started = refl

      first_free-idle_started :
          find_from (λ i. is_free (idle_started.process_table i).state) max_processes 0 ≡ some 1
      unfolding init_tables find_from register_idle fill_pcb process_get scheduler_add
          scheduler_remove fd_incref fd_get
      first_free-idle_started = refl

      module _ (memory : ℕ → ℕ) (stack' : ℕ) (h' : H) (e' : Gives mm h stack' h') where
        abbrev both_started : Kernel H
        both_started = shell_made l idle_started stack' h'

        asked : Gives mm idle_started.heap stack' h'
        asked = ap (mm.mm_malloc_kernel stack_size) heap-idle_started ∙ e'

        boot_idle :
            stack' ≡ 0
            → boot mm_init l (memory, quads, heap) ≡ with_stack_base idle_started 1 stack' h'
        unfolding initialize_kernel_binary start_shell
        boot_idle none_left =
            ap (start_shell mm l) start_idle_lem
            ∙ ap (λ r. r.1)
                (process_create-no_stack mm idle_started (b's' ∷ b'h' ∷ b'e' ∷ b'l' ∷ b'l' ∷ [])
                  (sample_code_module_address, l.trampoline) 1 1 stack' h' first_free-idle_started
                  asked none_left)

        idle_started-Started : Started (with_stack_base idle_started 1 stack' h') [] 0
        unfolding init_tables find_from register_idle fill_pcb process_get scheduler_add
            scheduler_remove fd_incref fd_get scheduler_start
        idle_started-Started = record {
          queue = refl;
          idle = refl;
          idle_pid = refl;
          idle_priority = refl;
          idle_quantum = refl;
          none_yet = refl;
          first = refl;
        }

  -- When the allocator has a stack for idle and none for the shell, idle is registered and runs.
  pub boot-no_shell :
      (mm_init : ℕ → ℕ → H) (l : Linked) (memory quads : ℕ → ℕ) (heap : H) (stack : ℕ) (h h' : H)
      → Gives mm (mm_init heap_start heap_size) stack h
      → 0 < stack
      → Gives mm h 0 h'
      → Started (boot mm_init l (memory, quads, heap)) [] 0
  boot-no_shell mm_init l memory quads heap stack h h' e nz e' =
      subst (λ (k : Kernel H). Started k [] 0)
        (sym (boot_idle mm_init l quads heap e nz memory 0 h' e' refl))
        (idle_started-Started mm_init l quads heap e nz memory 0 h' e')
