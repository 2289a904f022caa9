-- ===== src/Process/Lifecycle/Tests.antt =====
-- PIDs and the idle process of Kernel/c/process/process.c on the sample state.
use mass_os.Prelude.{some_eq, ℕ, ◌+◌, ◌<◌, ◌≡◌, refl, subst, false, List, [], ◌∷◌, arith}
use mass_os.Fixtures.{live_pcb, sample_on, sample, no_memory}
use mass_os.Kernel.{ready, is_free, Kernel, MemoryManager, set_pcb}
use mass_os.Process.Lifecycle.Distinct.{kill_call, life_call, life_call-IsNumbered}
use mass_os.Process.Lifecycle.Numbering.{CurrentLives}
use mass_os.Process.Lifecycle.Pids.{IsNumbered}

-- Slots 0 to 3 have PIDs 1 to 4.
in_use_sample :
    (i : ℕ)
    → is_free (sample.process_table i).state ≡ false
    → (i < 4) × ((sample.process_table i).pid ≡ i + 1)
in_use_sample i live = ground arith

sample-IsNumbered : IsNumbered sample
sample-IsNumbered = record {
  counted = λ i live.
      let (low, pid) = in_use_sample i live in (omega (arith, pid), omega (arith, low, pid));
  distinct =
      λ i j live live' e. omega (arith, (in_use_sample i live).1, (in_use_sample j live').1, e);
}

sample-CurrentLives : CurrentLives sample
sample-CurrentLives p cur =
    subst (λ i. is_free (sample.process_table i).state ≡ false) (some_eq cur) refl

life_call-IsNumbered_example : IsNumbered (life_call no_memory (kill_call 3) sample)
life_call-IsNumbered_example =
    life_call-IsNumbered no_memory (kill_call 3) sample sample-IsNumbered sample-CurrentLives
      (omega arith)

-- An allocator that lists what it is given back.
abbrev listing : MemoryManager (List ℕ)
listing = record { mm_malloc_kernel = λ n h. (0, h); mm_free = λ a h. a ∷ h }

-- Only the current process is queued, and the idle process has a stack at 8192.
abbrev nobody_ready : Kernel (List ℕ)
nobody_ready =
    record (set_pcb (sample_on []) 0 (record (live_pcb 1 1 0 ready) { stack_base = 8192 })) {
      run_queue = 1 ∷ [];
      queue_idx = 0;
    }
