-- ===== src/Scheduler.antt =====
-- Kernel/c/scheduler/scheduler.c: the run queue ordered by priority, the choice of the next
-- process with aging, and the two context switches (timer tick and voluntary yield). The first
-- `queue_size` entries of the array `run_queue` are the list `run_queue`.
pub mod Order
pub mod Cursor
pub mod Choice
pub mod NextReady
pub mod Switch
pub mod Starvation
mod Tests
use mass_os.Prelude.{
  ltb, leb, ◌==◌, if◌then◌else◌, length, get_or, update, ℕ, zero, suc, ◌+◌, ◌-◌, ◌/◌, ◌%◌, ◌^◌,
  Bool, true, false, not, ◌&&◌, ◌||◌, Option, none, some, List, [], ◌∷◌,
}
use mass_os.Kernel.{
  ProcessState, free, ready, running, is_ready, is_running, is_zombie, Pcb, Kernel, MemoryManager,
  same_slot, set_pcb,
}
use mass_os.WaitQueue.{max_processes}

abbrev pub aging_interval : ℕ
aging_interval = 50

abbrev pub max_aging_bonus : ℕ
max_aging_bonus = 4

pub aging_bonus : Pcb → ℕ
aging_bonus c =
    let b = c.wait_ticks / aging_interval in if ltb max_aging_bonus b then max_aging_bonus else b

-- `p->foreground` as a truth value
abbrev pub is_foreground : Pcb → Bool
is_foreground c = not (c.foreground == 0)

-- `priority + (foreground ? 1 : 0) + aging_bonus`
pub effective_priority : Pcb → ℕ
unfolding aging_bonus
effective_priority c = c.priority + (if is_foreground c then 1 else 0) + aging_bonus c

-- `eff > highest_eff`, where `none` stands for the initial -1.
abbrev pub above : ℕ → Option ℕ → Bool
above e none = true
above e (some h) = ltb h e

-- The index before which `scheduler_add` inserts: the first entry of lower priority.
pub insert_pos : (ℕ → Pcb) → ℕ → List ℕ → ℕ
insert_pos table prio [] = 0
insert_pos table prio (q ∷ qs) =
    if ltb (table q).priority prio then 0 else suc (insert_pos table prio qs)

-- The shift to the right and the write at `insert_pos`.
pub insert_at : ℕ → ℕ → List ℕ → List ℕ
insert_at zero p qs = p ∷ qs
insert_at (suc i) p [] = p ∷ []
insert_at (suc i) p (q ∷ qs) = q ∷ insert_at i p qs

-- The first index of a pointer in the run queue.
pub index_of : ℕ → List ℕ → Option ℕ
index_of p [] = none
index_of p (q ∷ qs) =
    if q == p then some 0 else (elim (index_of p qs) [ none ↦ none | some i ↦ some (suc i) ])

-- The shift to the left from index `i`.
pub remove_at : ℕ → List ℕ → List ℕ
remove_at i [] = []
remove_at zero (q ∷ qs) = qs
remove_at (suc i) (q ∷ qs) = q ∷ remove_at i qs

-- The first loop of `scheduler_next_ready`.
pub highest_eff : (ℕ → Pcb) → Option ℕ → List ℕ → Option ℕ
unfolding effective_priority
highest_eff table acc [] = acc
highest_eff table acc (q ∷ qs) =
    let e = effective_priority (table q) in
    highest_eff table (if is_ready (table q).state && above e acc then some e else acc) qs

-- One pass of `scheduler_next_ready`: at most `n` steps of `queue_idx` round the queue, up to the
-- first entry that passes the test. Returns the entry and the new `queue_idx`.
pub pass : (ℕ → Bool) → List ℕ → ℕ → ℕ → Option ℕ × ℕ
pass test queue zero idx = (none, idx)
pass test queue (suc n) idx =
    let idx' = (idx + 1) % length queue in
    let c = get_or queue idx' 0 in
    let rest = pass test queue n idx' in if test c then (some c, idx') else rest

-- The tests of the two passes.
pub first_choice : (ℕ → Pcb) → ℕ → ℕ → Bool
unfolding aging_bonus
first_choice table highest p =
    let c = table p in
    is_ready c.state && is_foreground c && (c.priority + 1 + aging_bonus c == highest)

pub second_choice : (ℕ → Pcb) → ℕ → ℕ → Bool
unfolding effective_priority
second_choice table highest p =
    is_ready (table p).state && (effective_priority (table p) == highest)

-- The index adjustment of `scheduler_remove`, at the new size.
abbrev pub idx_after_remove : ℕ → ℕ → ℕ → ℕ
idx_after_remove size i idx =
    if leb size idx && ltb 0 size then size - 1 else if ltb i idx then idx - 1 else idx

-- `wait_ticks` is a `uint32_t`.
abbrev pub waited : Pcb → Pcb
waited c = record c { wait_ticks = (c.wait_ticks + 1) % 2 ^ 32 }

-- One round of the aging loop of `scheduler_tick`.
pub age_one : Option ℕ → ℕ → (ℕ → Pcb) → ℕ → Pcb
age_one cur q table =
    if not (same_slot cur q) && is_ready (table q).state
    then update table q (waited (table q))
    else table

pub age_all : Option ℕ → List ℕ → (ℕ → Pcb) → ℕ → Pcb
unfolding age_one
age_all cur [] table = table
age_all cur (q ∷ qs) table = age_all cur qs (age_one cur q table)

-- What a tick does to the running process: `true` if it keeps the CPU.
pub charge : Pcb → Bool × Pcb
charge c =
    if is_running c.state
    then (let left = c.remaining_quanta - 1 in
        if ltb 0 left
        then (true, record c { remaining_quanta = left })
        else (false, record c { remaining_quanta = c.priority; state = ready }))
    else (false, c)

-- What a yield does to the process that gives up the CPU.
pub pause : Pcb → Pcb
pause c = record c {
  state = if is_running c.state then ready else c.state;
  remaining_quanta = c.priority;
}

module _ {H : Type 0} where
  unfoldable pub scheduler_init : Kernel H → Kernel H
  scheduler_init k = record k { run_queue = []; queue_idx = 0 }

  unfoldable pub scheduler_set_idle : Kernel H → Option ℕ → Kernel H
  scheduler_set_idle k p = record k { idle_pcb = p }

  unfoldable pub scheduler_add : Kernel H → ℕ → Kernel H
  unfolding insert_pos insert_at
  scheduler_add k p =
      if leb max_processes (length k.run_queue)
      then k
      else if same_slot k.idle_pcb p
      then k
      else (let at = insert_pos k.process_table (k.process_table p).priority k.run_queue in
          let queue = insert_at at p k.run_queue in
          record k {
            run_queue = queue;
            queue_idx =
                if leb at k.queue_idx && ltb 1 (length queue) then k.queue_idx + 1 else k.queue_idx;
          })

  unfoldable pub scheduler_remove : Kernel H → ℕ → Kernel H
  unfolding index_of remove_at
  scheduler_remove k p = elim (index_of p k.run_queue) [
    | none ↦ k
    | some i ↦
        let queue = remove_at i k.run_queue in
        record k { run_queue = queue; queue_idx = idx_after_remove (length queue) i k.queue_idx }
  ]

  -- The two passes, for the highest effective priority of a READY entry.
  pub two_passes : Kernel H → ℕ → Option ℕ × Kernel H
  unfolding pass first_choice second_choice
  two_passes k highest =
      let size = length k.run_queue in
      let (first, idx) = pass (first_choice k.process_table highest) k.run_queue size k.queue_idx in
      elim first [
        | some c ↦ (some c, record k { queue_idx = idx })
        | none ↦
            let (second, idx') =
              pass (second_choice k.process_table highest) k.run_queue size idx in
            elim second [
              | some c ↦ (some c, record k { queue_idx = idx' })
              | none ↦ (k.idle_pcb, record k { queue_idx = idx' })
            ]
      ]

  pub scheduler_next_ready : Kernel H → Option ℕ × Kernel H
  unfolding two_passes highest_eff
  scheduler_next_ready k =
      if length k.run_queue == 0
      then (k.idle_pcb, k)
      else elim (highest_eff k.process_table none k.run_queue) [
        | none ↦ (k.idle_pcb, k)
        | some h ↦ two_passes k h
      ]

  pub timer_handler : Kernel H → Kernel H
  timer_handler k = record k { ticks = (k.ticks + 1) % 2 ^ 64 }

  -- The chosen process runs; the result is its saved stack pointer.
  pub dispatch : Kernel H → ℕ → ℕ × Kernel H
  dispatch k n =
      let c = k.process_table n in
      (
        c.rsp,
        record k {
          process_table = update k.process_table n (record c { wait_ticks = 0; state = running });
          current_process = some n;
        },
      )

  -- Nobody is ready: the current process goes on if its state passes the test.
  pub stay : (ProcessState → Bool) → Kernel H → ℕ → ℕ × Kernel H
  stay runnable k current_rsp = elim k.current_process [
    | none ↦ (current_rsp, k)
    | some c ↦
        if runnable (k.process_table c).state
        then (current_rsp, set_pcb k c (record (k.process_table c) { state = running }))
        else (current_rsp, k)
  ]

  unfoldable pub scheduler_start : Kernel H → Option ℕ × Kernel H
  unfolding scheduler_next_ready
  scheduler_start k =
      let (next, k') = scheduler_next_ready k in
      elim next [
        | none ↦ (none, k')
        | some n ↦
            let c = k'.process_table n in
            (
              some c.rsp,
              record k' {
                process_table = update k'.process_table n (record c { state = running });
                current_process = some n;
              },
            )
      ]

module _ {H : Type 0} (mm : MemoryManager H) where
  abbrev pub free_if : ℕ → H → H
  free_if a h = if a == 0 then h else mm.mm_free a h

  -- The reaping of a ZOMBIE after the next process was chosen.
  pub reap : Kernel H → Option ℕ → Kernel H
  unfolding scheduler_remove
  reap k none = k
  reap k (some c) =
      if is_zombie (k.process_table c).state
      then (let k' = scheduler_remove k c in
          let p = k'.process_table c in
          record k' {
            heap = free_if p.argv (free_if p.stack_base k'.heap);
            process_table =
                update k'.process_table c
                  (record p { stack_base = 0; argv = 0; rsp = 0; state = free; pid = 0 });
          })
      else k

  -- The common end of `scheduler_tick` and `scheduler_yield_impl`.
  pub switch : (ProcessState → Bool) → Kernel H → ℕ → ℕ × Kernel H
  unfolding scheduler_next_ready reap dispatch stay
  switch runnable k current_rsp =
      let (next, k') = scheduler_next_ready k in
      elim next [
        | none ↦ stay runnable k' current_rsp
        | some n ↦ dispatch (reap k' k'.current_process) n
      ]

  pub scheduler_tick : Kernel H → ℕ → ℕ × Kernel H
  unfolding timer_handler age_all charge switch
  scheduler_tick k0 current_rsp =
      let k1 = timer_handler k0 in
      let k = record k1 {
        process_table = age_all k1.current_process k1.run_queue k1.process_table;
      } in
      let runnable = λ (s : ProcessState). is_ready s || is_running s in
      elim k.current_process [
        | none ↦ switch runnable k current_rsp
        | some c ↦
            let (keeps, c') = charge (record (k.process_table c) { rsp = current_rsp }) in
            if keeps
            then (current_rsp, set_pcb k c c')
            else switch runnable (set_pcb k c c') current_rsp
      ]

  pub scheduler_yield_impl : Kernel H → ℕ → ℕ × Kernel H
  unfolding pause switch
  scheduler_yield_impl k current_rsp = elim k.current_process [
    | none ↦ switch is_ready k current_rsp
    | some c ↦
        switch is_ready (set_pcb k c (pause (record (k.process_table c) { rsp = current_rsp })))
          current_rsp
  ]
