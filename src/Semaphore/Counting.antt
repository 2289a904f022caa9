-- ===== src/Semaphore/Counting.antt =====
-- The value of a semaphore of Kernel/c/semaphore/semaphore.c and the number of its waiters.
use mass_os.Prelude.{
  ltb, ◌==◌, if◌then◌else◌, Bool-cases, Option-cases, neg_part, pos_part, increment, decrement,
  is_negative, is_nonpositive, occurrences, update, ℕ, ◌-◌, ◌^◌, ◌≤◌, ◌<◌, ◌≡◌, refl, ◌≢◌, ◌⊎◌, inl,
  inr, Bool, false, ◌&&◌, Option, none, some, List, [], arith,
}
use mass_os.Kernel.{Sem, Kernel}
use mass_os.Process.Frame.{sem_table-process_block, sem_table-process_unblock}
use mass_os.Semaphore.{
  reset_queue, sem_lock, sem_unlock, fresh_sem, set_held, set_opened, wait_on, release_one,
}
use mass_os.WaitQueue.{max_processes, queue_push, queue_pop, queue_remove_pid}
use mass_os.WaitQueue.Refine.{
  contents, IsQueue, queue_push-IsQueue, queue_pop_refines, queue_remove_pid_refines,
  count-queue_push, count-queue_pop, count-queue_remove_pid,
}

pub record IsCounted (s : Sem) : Type 0 where
  pub queue : IsQueue s.wait_queue
  pub waiting : s.wait_queue.count ≡ neg_part s.value

-- `value++` does not overflow.
abbrev pub IsBelowMax : Sem → Type 0
IsBelowMax s = pos_part s.value < 2 ^ 63 - 1

-- Every open semaphore is counted; a closed slot may hold anything.
abbrev pub AreCounted : (ℕ → Sem) → Type 0
AreCounted table = (i : ℕ) → ((table i).open_count ≡ 0) ⊎ IsCounted (table i)

-- What `sem_wait` does to the semaphore, for the PID of the current process, if there is one.
abbrev pub after_wait : Sem → Option ℕ → Sem
after_wait s none = record s { value = decrement s.value; lock = false }
after_wait s (some pid) =
    if is_negative (decrement s.value)
    then record s {
      value = decrement s.value;
      wait_queue = queue_push s.wait_queue pid;
      lock = false;
    }
    else record s { value = decrement s.value; lock = false }

abbrev pub after_post : Sem → Sem
after_post s =
    if is_nonpositive (increment s.value) && ltb 0 s.wait_queue.count
    then record s {
      value = increment s.value;
      wait_queue = (queue_pop s.wait_queue).1;
      lock = false;
    }
    else record s { value = increment s.value; lock = false }

module _ {H : Type 0} where
  abbrev pub current_pid : Kernel H → Option ℕ
  current_pid k = elim k.current_process [ none ↦ none | some c ↦ some (k.process_table c).pid ]

  pub set_held_sems :
      (k : Kernel H) (c : Option ℕ) (i : ℕ) (b : Bool) → (set_held k c i b).sem_table ≡ k.sem_table
  unfolding set_held
  set_held_sems k none i b = refl
  set_held_sems k (some c) i b = refl

  pub set_opened_sems :
      (k : Kernel H) (c : Option ℕ) (i : ℕ) (b : Bool)
      → (set_opened k c i b).sem_table ≡ k.sem_table
  unfolding set_opened
  set_opened_sems k none i b = refl
  set_opened_sems k (some c) i b = refl

  pub wait_on_sems :
      (k : Kernel H) (i j : ℕ)
      → (wait_on k i).1.sem_table j
        ≡ update k.sem_table i (after_wait (k.sem_table i) (current_pid k)) j
  unfolding wait_on sem_lock sem_unlock
  wait_on_sems k i j = elim (Bool-cases (is_negative (decrement (k.sem_table i).value))) [
    | inl neg ↦ elim (Option-cases k.current_process) [
      | inl nobody ↦ rw (neg, nobody, wait_on) (ground arith)
      | inr (c, cur) ↦ rw (neg, cur, wait_on) (rw sem_table-process_block (ground arith))
    ]
    | inr enough ↦ rw (enough, wait_on) (rw set_held_sems (ground arith))
  ]

  pub release_one_sems :
      (k : Kernel H) (i j : ℕ) (s : Sem)
      → (release_one k i s).sem_table j ≡ update k.sem_table i (after_post s) j
  unfolding release_one sem_unlock
  release_one_sems k i j s =
      elim (Bool-cases (is_nonpositive (increment s.value) && ltb 0 s.wait_queue.count)) [
        | inl waiting ↦
            rw (waiting, release_one)
              (rw sem_table-process_unblock (rw set_held_sems (ground arith)))
        | inr alone ↦ rw (alone, release_one) (ground arith)
      ]

pub after_wait-IsCounted :
    (s : Sem) (pid : Option ℕ)
    → pid ≢ none
    → s.wait_queue.count < max_processes
    → IsCounted s
    → IsCounted (after_wait s pid)
after_wait-IsCounted s none some_pid room h = absurd (some_pid refl)
after_wait-IsCounted s (some pid) some_pid room h =
    elim (Bool-cases (is_negative (decrement s.value))) [
      | inl neg ↦ rw neg (record {
        queue = queue_push-IsQueue pid h.queue;
        waiting = ground (arith, h.waiting, count-queue_push s.wait_queue pid room);
      })
      | inr enough ↦ rw enough (record { queue = h.queue; waiting = ground (arith, h.waiting) })
    ]

pub after_post-IsCounted : (s : Sem) → IsCounted s → IsBelowMax s → IsCounted (after_post s)
after_post-IsCounted s h below =
    elim (Bool-cases (is_nonpositive (increment s.value) && ltb 0 s.wait_queue.count)) [
      | inl waiting ↦ rw waiting (record {
        queue = (queue_pop_refines s.wait_queue h.queue (ground arith)).1;
        waiting = ground (arith, h.waiting, count-queue_pop s.wait_queue);
      })
      | inr alone ↦ rw alone (record { queue = h.queue; waiting = ground (arith, h.waiting) })
    ]

-- What the clean-up of a dying process does to an open semaphore.
abbrev pub after_cleanup : Sem → ℕ → Bool → Bool → Sem
after_cleanup s pid opened held =
    let removed = queue_remove_pid s.wait_queue pid in
    let count = if opened then s.open_count - 1 else s.open_count in
    let s' = record s { wait_queue = removed.1; open_count = count } in
    if removed.0
    then record s' { value = increment s.value; lock = false }
    else if held
    then after_post s'
    else record s' { lock = false }

pub after_cleanup-IsCounted :
    (s : Sem) (pid : ℕ) (opened held : Bool)
    → occurrences pid (contents s.wait_queue) ≤ 1
    → IsCounted s
    → IsBelowMax s
    → IsCounted (after_cleanup s pid opened held)
after_cleanup-IsCounted s pid opened held once h below =
    let (found, kept, valid) = queue_remove_pid_refines s.wait_queue pid h.queue in
    let count = count-queue_remove_pid s.wait_queue pid h.queue once in
    elim (Bool-cases (queue_remove_pid s.wait_queue pid).0) [
      | inl was_queued ↦
          rw was_queued (record { queue = valid; waiting = ground (arith, h.waiting) })
      | inr not_queued ↦ elim (Bool-cases held) [
        | inl holds ↦
            rw (not_queued, holds)
              (after_post-IsCounted
                (record s {
                  wait_queue = (queue_remove_pid s.wait_queue pid).1;
                  open_count = if opened then s.open_count - 1 else s.open_count;
                })
                (record { queue = valid; waiting = ground (arith, h.waiting) }) below)
        | inr free_handed ↦
            rw (not_queued, free_handed)
              (record { queue = valid; waiting = ground (arith, h.waiting) })
      ]
    ]

-- What `sem_close` does to an open semaphore.
abbrev pub after_close : Sem → Sem
after_close s =
    if s.open_count - 1 == 0
    then record s { open_count = 0; name = []; wait_queue = reset_queue s.wait_queue }
    else record s { open_count = s.open_count - 1 }

pub after_close-IsCounted :
    (s : Sem) → IsCounted s → ((after_close s).open_count ≡ 0) ⊎ IsCounted (after_close s)
after_close-IsCounted s h = elim (Bool-cases (s.open_count - 1 == 0)) [
  | inl last ↦ inl (rw last refl)
  | inr more ↦ inr (rw more (record { queue = h.queue; waiting = h.waiting }))
]

pub fresh_sem-IsCounted :
    (name : List ℕ) (v : ℕ) (s : Sem) → v < 2 ^ 63 → IsCounted (fresh_sem name v s)
fresh_sem-IsCounted name v s h = record {
  queue = record { head_in = omega arith; fits = omega arith; tail_at = omega arith };
  waiting = ground arith;
}
