-- ===== src/Scheduler/Tests.antt =====
-- Runs of Kernel/c/scheduler/scheduler.c on a sample state, and its theorems at it.
use mass_os.Prelude.{some_eq, All, ℕ, zero, suc, ◌≡◌, refl, ◌≢◌, ◌⊎◌, some, [], ◌∷◌, ◌++◌, arith}
use mass_os.Fixtures.{live_pcb, sample, no_memory}
use mass_os.Kernel.{ready, Kernel, set_pcb}
use mass_os.Scheduler.{
  scheduler_init, scheduler_set_idle, scheduler_add, scheduler_remove, scheduler_next_ready,
  scheduler_start, scheduler_tick, scheduler_yield_impl,
}
use mass_os.Scheduler.Choice.{IsNotReady}
use mass_os.Scheduler.NextReady.{Chosen, scheduler_next_ready_lem}
use mass_os.Scheduler.Order.{
  IsSorted, Placement, scheduler_remove-IsSorted, scheduler_add-Placement,
}
use mass_os.Scheduler.Starvation.{scheduler_next_ready_starves}
use mass_os.Scheduler.Switch.{OnlyCurrentRuns, scheduler_tick-OnlyCurrentRuns}

-- The foreground process of priority 5 is next.
next_ready-sample : (scheduler_next_ready sample).0 ≡ some 3
unfolding scheduler_next_ready
next_ready-sample = refl

tick-sample : (scheduler_tick no_memory sample 77).0 ≡ 77
unfolding scheduler_tick
tick-sample = refl

-- A yield hands the CPU to slot 3, whose saved stack pointer is returned.
yield-sample : (scheduler_yield_impl no_memory sample 77).0 ≡ 4000
unfolding scheduler_yield_impl
yield-sample = refl

start-sample : (scheduler_start sample).0 ≡ some 4000
unfolding scheduler_start
start-sample = refl

init-sample : (scheduler_init (scheduler_set_idle sample (some 2))).run_queue ≡ []
unfolding scheduler_init scheduler_set_idle
init-sample = refl

-- Slot 5 (priority 0) goes last, slot 2 again (priority 1) behind its equal.
add-sample : (scheduler_add (scheduler_add sample 5) 2).run_queue ≡ 3 ∷ 1 ∷ 2 ∷ 2 ∷ 5 ∷ []
unfolding scheduler_add
add-sample = refl

remove-sample : (scheduler_remove sample 1).run_queue ≡ 3 ∷ 2 ∷ []
unfolding scheduler_remove
remove-sample = refl

sample-IsSorted : IsSorted sample.process_table sample.run_queue
sample-IsSorted = omega arith

scheduler_next_ready_lem_example :
    (All (IsNotReady sample.process_table) sample.run_queue
      × (scheduler_next_ready sample ≡ (sample.idle_pcb, sample)))
    ⊎ ((c : ℕ) × ((scheduler_next_ready sample).0 ≡ some c)
        × Chosen sample c (scheduler_next_ready sample).1)
scheduler_next_ready_lem_example = scheduler_next_ready_lem sample (omega arith)

scheduler_add-Placement_example :
    (r : Placement sample.process_table 5 sample.run_queue) × ((scheduler_add sample 5).run_queue
      ≡ r.before ++ (5 ∷ r.after))
scheduler_add-Placement_example =
    scheduler_add-Placement sample 5 sample-IsSorted (omega arith) refl

scheduler_remove-IsSorted_example :
    IsSorted sample.process_table (scheduler_remove sample 1).run_queue
scheduler_remove-IsSorted_example = scheduler_remove-IsSorted sample 1 sample-IsSorted

sample-OnlyCurrentRuns : OnlyCurrentRuns sample
sample-OnlyCurrentRuns zero e = cc
sample-OnlyCurrentRuns (suc zero) e = refl
sample-OnlyCurrentRuns (suc (suc zero)) e = cc
sample-OnlyCurrentRuns (suc (suc (suc zero))) e = cc
sample-OnlyCurrentRuns (suc (suc (suc (suc i)))) e = ground arith

scheduler_tick-OnlyCurrentRuns_example : OnlyCurrentRuns (scheduler_tick no_memory sample 77).1
scheduler_tick-OnlyCurrentRuns_example =
    scheduler_tick-OnlyCurrentRuns no_memory sample 77 sample-OnlyCurrentRuns

-- Slot 3 has priority 5 in the foreground, slot 2 priority 1 in the background.
scheduler_next_ready_starves_example : (scheduler_next_ready sample).0 ≢ some 2
scheduler_next_ready_starves_example =
    scheduler_next_ready_starves sample 2 0 (omega arith) (omega arith) refl refl refl refl refl
      (λ e. omega (arith, some_eq e))

-- With slot 2 waiting for 250 ticks, slot 1 of priority 3 is not chosen.
abbrev waiting : Kernel (Unit {0})
waiting = set_pcb sample 2 (record (live_pcb 3 1 0 ready) { wait_ticks = 250 })
