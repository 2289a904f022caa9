-- ===== src/Semaphore.antt =====
-- Kernel/c/semaphore/semaphore.c: named counting semaphores. The critical sections are bracketed
-- by `sem_lock` and `sem_unlock`, which write the lock word; system calls run with interrupts off
-- on one core. A spin on a taken lock is not modelled.
pub mod Counting
pub mod Invariant
pub mod Cleanup
pub mod Names
pub mod Waking
pub mod Background
mod Tests
use mass_os.Prelude.{
  ltb, ◌==◌, if◌then◌else◌, ℤ, pos, negsuc, increment, decrement, is_negative, is_nonpositive,
  to_int64, bounded_copy, text_eq, update, find_from, ℕ, zero, suc, ◌+◌, ◌-◌, Bool, true, false,
  ◌&&◌, Option, none, some, List, [],
}
use mass_os.Kernel.{Sem, Kernel, set_pcb, set_sem}
use mass_os.Process.{process_get, process_block, process_unblock}
use mass_os.WaitQueue.{WaitQueue, queue_push, queue_pop, queue_remove_pid}

abbrev pub max_sems : ℕ
max_sems = 32

abbrev pub sem_name_len : ℕ
sem_name_len = 32

abbrev pub empty_queue : WaitQueue
empty_queue = record { items = λ _. 0; head = 0; tail = 0; count = 0 }

-- `wait_head = wait_tail = wait_count = 0`: the slots keep what they hold.
abbrev pub reset_queue : WaitQueue → WaitQueue
reset_queue q = record q { head = 0; tail = 0; count = 0 }

-- The lock word of a semaphore is written on both sides of a critical section.
pub sem_lock : Sem → Sem
sem_lock s = record s { lock = true }

pub sem_unlock : Sem → Sem
sem_unlock s = record s { lock = false }

-- A new semaphore in a slot; the queue's array is left as it is.
abbrev pub fresh_sem : List ℕ → ℕ → Sem → Sem
fresh_sem name initial_value s = record {
  name = bounded_copy sem_name_len name;
  value = to_int64 initial_value;
  wait_queue = reset_queue s.wait_queue;
  open_count = 1;
  lock = false;
}

module _ {H : Type 0} where
  abbrev pub has_name : Kernel H → List ℕ → ℕ → Bool
  has_name k name i = ltb 0 (k.sem_table i).open_count && text_eq (k.sem_table i).name name

  pub find_sem : Kernel H → List ℕ → Option ℕ
  find_sem k name = find_from (has_name k name) max_sems 0

  unfoldable pub sem_init : Kernel H → Kernel H
  sem_init k = record k {
    sem_table = λ i.
        if ltb i max_sems
        then record {
          name = [];
          value = pos 0;
          wait_queue = empty_queue;
          open_count = 0;
          lock = false;
        }
        else k.sem_table i;
  }

  -- `held_sems |= 1u << i` and `held_sems &= ~(1u << i)` of a process, and so for `opened_sems`.
  pub set_held : Kernel H → Option ℕ → ℕ → Bool → Kernel H
  set_held k none i b = k
  set_held k (some c) i b =
      let p = k.process_table c in set_pcb k c (record p { held_sems = update p.held_sems i b })

  pub set_opened : Kernel H → Option ℕ → ℕ → Bool → Kernel H
  set_opened k none i b = k
  set_opened k (some c) i b =
      let p = k.process_table c in set_pcb k c (record p { opened_sems = update p.opened_sems i b })

  abbrev pub is_slot_free : Kernel H → ℕ → Bool
  is_slot_free k i = (k.sem_table i).open_count == 0

  pub sem_open : Kernel H → Option (List ℕ) → ℕ → ℤ × Kernel H
  unfolding find_sem set_opened
  sem_open k none initial_value = (pos 0, k)
  sem_open k (some name) initial_value = elim (find_sem k name) [
    | some i ↦
        let s = k.sem_table i in
        let k' = set_sem k i (record s { open_count = s.open_count + 1 }) in
        (pos 1, set_opened k' k'.current_process i true)
    | none ↦ elim (find_from (is_slot_free k) max_sems 0) [
      | none ↦ (pos 0, k)
      | some i ↦
          let k' = set_sem k i (fresh_sem name initial_value (k.sem_table i)) in
          (pos 1, set_opened k' k'.current_process i true)
    ]
  ]

  -- The critical section of `sem_wait` on semaphore `i`, and the blocking after it.
  pub wait_on : Kernel H → ℕ → ℤ × Kernel H
  unfolding sem_lock sem_unlock set_held queue_push
  wait_on k i =
      let s0 = sem_lock (k.sem_table i) in
      let s = record s0 { value = decrement s0.value } in
      if is_negative s.value
      then elim k.current_process [
        | none ↦ (negsuc 0, set_sem k i (sem_unlock s))
        | some c ↦
            let pid = (k.process_table c).pid in
            let queued = record s { wait_queue = queue_push s.wait_queue pid } in
            (pos 0, process_block (set_sem k i (sem_unlock queued)) pid)
      ]
      else (pos 0, set_sem (set_held k k.current_process i true) i (sem_unlock s))

  pub sem_wait : Kernel H → Option (List ℕ) → ℤ × Kernel H
  unfolding find_sem wait_on
  sem_wait k none = (negsuc 0, k)
  sem_wait k (some name) = elim (find_sem k name) [ none ↦ (negsuc 0, k) | some i ↦ wait_on k i ]

  -- `value++` on the locked semaphore `s0` of slot `i`, and the hand-over to the first waiter;
  -- shared by `sem_post` and the clean-up of a dying process.
  pub release_one : Kernel H → ℕ → Sem → Kernel H
  unfolding sem_unlock set_held queue_pop
  release_one k i s0 =
      let s = record s0 { value = increment s0.value } in
      if is_nonpositive s.value && ltb 0 s.wait_queue.count
      then (let (pid, rest) = queue_pop s.wait_queue in
          let k' = set_held k (process_get k pid) i true in
          process_unblock (set_sem k' i (sem_unlock (record s { wait_queue = rest }))) pid)
      else set_sem k i (sem_unlock s)

  pub sem_post : Kernel H → Option (List ℕ) → ℤ × Kernel H
  unfolding find_sem sem_lock set_held release_one
  sem_post k none = (negsuc 0, k)
  sem_post k (some name) = elim (find_sem k name) [
    | none ↦ (negsuc 0, k)
    | some i ↦
        (pos 0, release_one (set_held k k.current_process i false) i (sem_lock (k.sem_table i)))
  ]

  -- One round of the loop of `sem_cleanup_for_process`, for the process in slot `p`.
  pub cleanup_sem : Kernel H → ℕ → ℕ → ℕ → Kernel H
  unfolding sem_lock sem_unlock set_held set_opened release_one queue_remove_pid
  cleanup_sem k0 pid p i =
      if (k0.sem_table i).open_count == 0
      then k0
      else (let s0 = sem_lock (k0.sem_table i) in
          let (was_queued, rest) = queue_remove_pid s0.wait_queue pid in
          let opened = (k0.process_table p).opened_sems i in
          let held = (k0.process_table p).held_sems i in
          let count = if opened then s0.open_count - 1 else s0.open_count in
          let s = record s0 { wait_queue = rest; open_count = count } in
          let k = if opened then set_opened k0 (some p) i false else k0 in
          if was_queued
          then set_sem (set_held k (some p) i false) i
              (sem_unlock (record s { value = increment s.value }))
          else if held
          then release_one (set_held k (some p) i false) i s
          else set_sem k i (sem_unlock s))

  pub cleanup_sems : ℕ → ℕ → Kernel H → ℕ → ℕ → Kernel H
  unfolding cleanup_sem
  cleanup_sems zero i k pid p = k
  cleanup_sems (suc n) i k pid p = cleanup_sems n (i + 1) (cleanup_sem k pid p i) pid p

  unfoldable pub sem_cleanup_for_process : Kernel H → ℕ → Kernel H
  unfolding cleanup_sems
  sem_cleanup_for_process k pid = elim (process_get k pid) [
    | none ↦ k
    | some p ↦
        let k' = cleanup_sems max_sems 0 k pid p in
        set_pcb k' p
          (record (k'.process_table p) { held_sems = λ _. false; opened_sems = λ _. false })
  ]

  pub sem_close : Kernel H → Option (List ℕ) → ℤ × Kernel H
  unfolding find_sem set_held set_opened
  sem_close k none = (negsuc 0, k)
  sem_close k (some name) = elim (find_sem k name) [
    | none ↦ (negsuc 0, k)
    | some i ↦
        let k' = set_opened (set_held k k.current_process i false) k.current_process i false in
        let s = k'.sem_table i in
        let count = s.open_count - 1 in
        (
          pos 0,
          set_sem k' i (
              if count == 0
              then record s { open_count = 0; name = []; wait_queue = reset_queue s.wait_queue }
              else record s { open_count = count }),
        )
  ]
