-- ===== src/Process/Lifecycle/Creation.antt =====
-- `process_create` of Kernel/c/process/process.c for a process without arguments.
use mass_os.Prelude.{
  ◌==◌, negsuc, find_from, ℕ, ◌<◌, ◌≡◌, refl, ap, ◌∙◌, true, false, none, some, List, arith,
}
use mass_os.Kernel.{is_free, Kernel, MemoryManager, set_pcb}
use mass_os.Process.{stack_size}
use mass_os.Process.Lifecycle.{fill_pcb, create_in, process_create}
use mass_os.WaitQueue.{max_processes}
use mass_os.Process.Lifecycle.{copy_argv}

module _ {H : Type 0} (mm : MemoryManager H) where
  create_in-fill_pcb :
      (k : Kernel H) (name : List ℕ) (entries : ℕ × ℕ) (fg slot stack : ℕ) (h : H)
      → 0 < stack
      → create_in mm k slot (stack, h) name entries (0, none) fg
        ≡ fill_pcb mm
            (record (set_pcb k slot (record (k.process_table slot) { stack_base = stack })) {
              heap = h;
            })
            slot
            (stack, 0)
            name
            entries
            (0, none)
            fg
  unfolding create_in copy_argv
  create_in-fill_pcb k name entries fg slot stack h some_stack =
      let e : (stack == 0) ≡ false = ground arith in rw e refl

  -- A process without arguments, whose stack is allocated, fills the first free slot.
  pub process_create-fill_pcb :
      (k : Kernel H) (name : List ℕ) (entries : ℕ × ℕ) (fg slot stack : ℕ) (h : H)
      → find_from (λ i. is_free (k.process_table i).state) max_processes 0 ≡ some slot
      → mm.mm_malloc_kernel stack_size k.heap ≡ (stack, h)
      → 0 < stack
      → process_create mm k name entries (0, none) fg
        ≡ fill_pcb mm
            (record (set_pcb k slot (record (k.process_table slot) { stack_base = stack })) {
              heap = h;
            })
            slot
            (stack, 0)
            name
            entries
            (0, none)
            fg
  unfolding process_create
  process_create-fill_pcb k name entries fg slot stack h found given some_stack =
      rw (found, process_create)
        (ap (λ r. create_in mm k slot r name entries (0, none) fg) given
          ∙ create_in-fill_pcb k name entries fg slot stack h some_stack)

  -- Without a stack the slot stays free.
  pub process_create-no_stack :
      (k : Kernel H) (name : List ℕ) (entries : ℕ × ℕ) (fg slot stack : ℕ) (h : H)
      → find_from (λ i. is_free (k.process_table i).state) max_processes 0 ≡ some slot
      → mm.mm_malloc_kernel stack_size k.heap ≡ (stack, h)
      → stack ≡ 0
      → process_create mm k name entries (0, none) fg ≡ (
        negsuc 0,
        record (set_pcb k slot (record (k.process_table slot) { stack_base = stack })) { heap = h },
      )
  unfolding process_create create_in
  process_create-no_stack k name entries fg slot stack h found given no_stack =
      let e : (stack == 0) ≡ true = ground arith in
      rw (found, process_create)
        (ap (λ r. create_in mm k slot r name entries (0, none) fg) given ∙ rw e refl)
