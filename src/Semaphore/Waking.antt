-- ===== src/Semaphore/Waking.antt =====
-- What `sem_post` of Kernel/c/semaphore/semaphore.c does to the processes.
use mass_os.Prelude.{
  ltb, ◌==◌, if◌then◌else◌, ==→eq, Bool-cases, Option-cases, ℤ, pos, negsuc, neg_part, increment,
  is_nonpositive, take, drop, member, ℕ, zero, suc, ◌<◌, ◌≡◌, refl, sym, ap, ◌∙◌, inl, inr, Bool,
  true, false, ◌&&◌, Option, none, some, List, [], ◌∷◌, arith, dec_lt,
}
use mass_os.Kernel.{Kernel, set_sem}
use mass_os.Process.{process_get, process_unblock}
use mass_os.Process.Background.{identity, identity-IsBackground}
use mass_os.Process.Frame.{sem_table-process_unblock, process_get_sound}
use mass_os.Process.Waking.{woken_by, IsFound, IsFound-alike, unblocked_state}
use mass_os.Semaphore.{sem_lock, sem_unlock, find_sem, set_held, release_one, sem_post}
use mass_os.Semaphore.Background.{see-set_held}
use mass_os.Semaphore.Counting.{IsCounted}
use mass_os.WaitQueue.{WaitQueue, queue_pop}
use mass_os.WaitQueue.Refine.{contents, queue_pop_refines}

module _ {H : Type 0} where
  state-set_held :
      (k : Kernel H) (c : Option ℕ) (i : ℕ) (b : Bool) (j : ℕ)
      → ((set_held k c i b).process_table j).state ≡ (k.process_table j).state
  unfolding set_held
  state-set_held k none i b j = refl
  state-set_held k (some c) i b j = ground arith

  held-process_unblock :
      (k : Kernel H) (pid q : ℕ)
      → ((process_unblock k pid).process_table q).held_sems ≡ (k.process_table q).held_sems
  unfolding process_unblock
  held-process_unblock k pid q = elim (Option-cases (process_get k pid)) [
    | inl gone ↦ rw (gone, process_unblock) refl
    | inr (p, found) ↦ rw (found, process_unblock) (ground arith)
  ]

  -- The bit of the slot `q` when the process of a PID is given the semaphore.
  handed_bit :
      (k : Kernel H) (pid i q : ℕ)
      → IsFound k q
      → ((set_held k (process_get k pid) i true).process_table q).held_sems i ≡ (
          if member (k.process_table q).pid (pid ∷ [])
          then true
          else (k.process_table q).held_sems i)
  unfolding set_held
  handed_bit k pid i q found = elim (Bool-cases (pid == (k.process_table q).pid)) [
    | inl here ↦
        let same = ==→eq pid (k.process_table q).pid here in
        let looked : process_get k pid ≡ some q = ap (process_get k) same ∙ found in
        rw (here, looked, set_held) (ground arith)
    | inr away ↦ elim (Option-cases (process_get k pid)) [
      | inl gone ↦ rw (away, gone, set_held) refl
      | inr (p, looked) ↦
          let holder = (process_get_sound k pid p looked).0 in
          let other : (p == q) ≡ false = elim (Bool-cases (p == q)) [
            | inl e ↦
                let same = sym holder ∙ ap (λ j. (k.process_table j).pid) (==→eq p q e) in
                ground (arith, same)
            | inr e ↦ e
          ] in
          rw (away, looked, set_held) (ground (arith, other))
    ]
  ]

-- A semaphore with waiters is not above zero after one more unit.
nonpositive-increment : (v : ℤ) → 0 < neg_part v → is_nonpositive (increment v) ≡ true
nonpositive-increment (pos n) h = absurd (omega (arith, h))
nonpositive-increment (negsuc zero) h = refl
nonpositive-increment (negsuc (suc n)) h = refl

module _ {H : Type 0} where
  -- `sem_post` to a counted semaphore: the value goes up by one in 64 bits, and the first waiter, if any,
  -- leaves the queue. The process in the slot `q`, which its PID leads to, is READY if it is that waiter
  -- and was BLOCKED, and keeps its state otherwise; the waiter holds the semaphore, the current process
  -- does not unless it is the waiter, and any other process holds it if it did before.
  pub sem_post_wakes :
      (k : Kernel H) (name : List ℕ) (i c q : ℕ)
      → find_sem k name ≡ some i
      → k.current_process ≡ some c
      → IsCounted (k.sem_table i)
      → IsFound k q
      → let (r, k') = sem_post k (some name) in
        let queue = contents (k.sem_table i).wait_queue in
        let p = k.process_table q in
        let p' = k'.process_table q in
        (r ≡ pos 0)
        × ((k'.sem_table i).value ≡ increment (k.sem_table i).value)
        × (contents (k'.sem_table i).wait_queue ≡ drop 1 queue)
        × (p'.state ≡ woken_by (take 1 queue) p)
        × (p'.held_sems i ≡ (
            if member p.pid (take 1 queue) then true else if c == q then false else p.held_sems i))
  unfolding sem_post release_one sem_lock sem_unlock set_held
  sem_post_wakes k name i c q found cur counted slot = elim (dec_lt 0 queue.count) [
    | yes waiting ↦
        let test : (is_nonpositive (increment (k.sem_table i).value) && ltb 0 queue.count) ≡ true =
          ground (
            arith,
            nonpositive-increment (k.sem_table i).value (omega (arith, counted.waiting, waiting)),
          ) in
        let (split, valid) = queue_pop_refines queue counted.queue waiting in
        rw (found, sem_post)
          (rw (test, release_one)
            (
              refl,
              rw (sem_table-process_unblock handed pid) (ground arith),
              rw (sem_table-process_unblock handed pid) (rw split (ground arith)),
              unblocked_state handed pid q handed_slot
                  ∙ same_process
                  ∙ ap (λ l. woken_by (take 1 l) (k.process_table q)) (sym split),
              ap (λ b. b i) (held-process_unblock handed pid q)
                  ∙ handed_bit cleared pid i q cleared_slot
                  ∙ bits
                  ∙ ap
                      (λ l.
                        if member (k.process_table q).pid (take 1 l)
                        then true
                        else if c == q
                        then false
                        else (k.process_table q).held_sems i)
                      (sym split),
            ))
    | no nobody ↦
        let test : (is_nonpositive (increment (k.sem_table i).value) && ltb 0 queue.count) ≡ false =
          ground arith in
        let none_queued : queue.count ≡ 0 = omega (arith, nobody) in
        rw (found, sem_post)
          (rw (test, release_one)
            (rw cur
              (rw none_queued (refl, ground arith, ground arith, ground arith, ground arith))))
  ]
    where
      queue : WaitQueue
      queue = (k.sem_table i).wait_queue

      pid : ℕ
      pid = (queue_pop queue).0

      cleared : Kernel H
      cleared = set_held k k.current_process i false

      handed : Kernel H
      handed =
          set_sem (set_held cleared (process_get cleared pid) i true) i (record (k.sem_table i) {
            value = increment (k.sem_table i).value;
            wait_queue = (queue_pop queue).1;
            lock = false;
          })

      alike : (j : ℕ) → identity j cleared ≡ identity j k
      alike j = see-set_held (identity-IsBackground j) k k.current_process i false

      alike' : (j : ℕ) → identity j handed ≡ identity j k
      alike' j =
          see-set_held (identity-IsBackground j) cleared (process_get cleared pid) i true ∙ alike j

      cleared_slot : IsFound cleared q
      cleared_slot = IsFound-alike k cleared q alike slot

      handed_slot : IsFound handed q
      handed_slot = IsFound-alike k handed q alike' slot

      same_pid : (cleared.process_table q).pid ≡ (k.process_table q).pid
      same_pid = ap (λ (r : ℕ × Bool). r.0) (alike q)

      same_process :
          woken_by (pid ∷ []) (handed.process_table q) ≡ woken_by (pid ∷ []) (k.process_table q)
      same_process =
          let who : (handed.process_table q).pid ≡ (k.process_table q).pid =
            ap (λ (r : ℕ × Bool). r.0) (alike' q) in
          let state : (handed.process_table q).state ≡ (k.process_table q).state =
            state-set_held cleared (process_get cleared pid) i true q
            ∙ state-set_held k k.current_process i false q in
          rw (who, state) refl

      bits :
          (if member (cleared.process_table q).pid (pid ∷ [])
            then true
            else (cleared.process_table q).held_sems i)
          ≡ (if member (k.process_table q).pid (pid ∷ [])
              then true
              else if c == q
              then false
              else (k.process_table q).held_sems i)
      bits = rw same_pid (rw (cur, set_held) (ground arith))
