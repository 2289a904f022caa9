-- ===== src/Process/Background.antt =====
-- What the bookkeeping of semaphores, pipes, descriptors and the run queue does not touch. A view of
-- the kernel that the small steps leave alone is left alone by every clean-up and wake-up.
use mass_os.Prelude.{Option-cases, ℕ, ◌≡◌, refl, ap, ap₂, inl, inr, Bool, List, arith}
use mass_os.Kernel.{is_free, Pcb, Sem, PipeState, FdEntry, Kernel, set_pcb, kbd_waiter}
use mass_os.Process.{process_get, process_unblock}
use mass_os.Process.Frame.{process_unblock_frame}

-- The same PID, in use or not as before, and the same blocks of memory.
abbrev pub SameIdentity : Pcb → Pcb → Type 0
SameIdentity c c' =
    (c'.pid ≡ c.pid)
    × (is_free c'.state ≡ is_free c.state)
    × (c'.stack_base ≡ c.stack_base)
    × (c'.argv ≡ c.argv)

pub record IsBackground {H A : Type 0} (see : Kernel H → A) : Type 0 where
  pub keep_unblock : (k : Kernel H) (pid : ℕ) → see (process_unblock k pid) ≡ see k
  pub keep_sems : (k : Kernel H) (t : ℕ → Sem) → see (record k { sem_table = t }) ≡ see k
  pub keep_pipes : (k : Kernel H) (t : ℕ → PipeState) → see (record k { pipe_table = t }) ≡ see k
  pub keep_fds : (k : Kernel H) (t : ℕ → FdEntry) → see (record k { fd_table = t }) ≡ see k
  pub keep_bytes : (k : Kernel H) (m : ℕ → ℕ) → see (record k { memory = m }) ≡ see k
  pub keep_queue :
      (k : Kernel H) (q : List ℕ) (i : ℕ) → see (record k { run_queue = q; queue_idx = i }) ≡ see k
  pub keep_pcb :
      (k : Kernel H) (p : ℕ) (c : Pcb)
      → SameIdentity (k.process_table p) c
      → see (set_pcb k p c) ≡ see k

-- The blocks of memory of a slot: its stack and its copy of `argv`.
abbrev pub blocks_of : {H : Type 0} → ℕ → Kernel H → ℕ × ℕ
blocks_of j k = ((k.process_table j).stack_base, (k.process_table j).argv)

-- What a slot of the process table stands for.
abbrev pub identity : {H : Type 0} → ℕ → Kernel H → ℕ × Bool
identity j k = ((k.process_table j).pid, is_free (k.process_table j).state)

module _ {H : Type 0} where
  pub kbd_waiter-IsBackground : IsBackground {H = H} kbd_waiter
  kbd_waiter-IsBackground = record {
    keep_unblock = λ k pid. ap kbd_waiter (process_unblock_frame k pid);
    keep_sems = λ k t. refl;
    keep_pipes = λ k t. refl;
    keep_fds = λ k t. refl;
    keep_bytes = λ k m. refl;
    keep_queue = λ k q i. refl;
    keep_pcb = λ k p c same. refl;
  }

  pub next_pid-IsBackground : IsBackground {H = H} (λ k. k.next_pid)
  next_pid-IsBackground = record {
    keep_unblock = λ k pid. ap (λ s. s.next_pid) (process_unblock_frame k pid);
    keep_sems = λ k t. refl;
    keep_pipes = λ k t. refl;
    keep_fds = λ k t. refl;
    keep_bytes = λ k m. refl;
    keep_queue = λ k q i. refl;
    keep_pcb = λ k p c same. refl;
  }

  identity-process_unblock :
      (j : ℕ) (k : Kernel H) (pid : ℕ) → identity j (process_unblock k pid) ≡ identity j k
  unfolding process_unblock
  identity-process_unblock j k pid = elim (Option-cases (process_get k pid)) [
    | inl gone ↦ rw (gone, process_unblock) refl
    | inr (p, found) ↦
        ap₂ (λ a b. (a, b)) (rw (found, process_unblock) (ground arith))
          (rw (found, process_unblock) (ground arith))
  ]

  pub identity-set_pcb :
      (j : ℕ) (k : Kernel H) (p : ℕ) (c : Pcb)
      → (c.pid ≡ (k.process_table p).pid) × (is_free c.state ≡ is_free (k.process_table p).state)
      → identity j (set_pcb k p c) ≡ identity j k
  identity-set_pcb j k p c same =
      ap₂ (λ a b. (a, b)) (ground (arith, same.0)) (ground (arith, same.1))

  pub identity-IsBackground : (j : ℕ) → IsBackground {H = H} (identity j)
  identity-IsBackground j = record {
    keep_unblock = identity-process_unblock j;
    keep_sems = λ k t. refl;
    keep_pipes = λ k t. refl;
    keep_fds = λ k t. refl;
    keep_bytes = λ k m. refl;
    keep_queue = λ k q i. refl;
    keep_pcb = λ k p c same. identity-set_pcb j k p c (same.0, same.1);
  }

  blocks_of-process_unblock :
      (j : ℕ) (k : Kernel H) (pid : ℕ) → blocks_of j (process_unblock k pid) ≡ blocks_of j k
  unfolding process_unblock
  blocks_of-process_unblock j k pid = elim (Option-cases (process_get k pid)) [
    | inl gone ↦ rw (gone, process_unblock) refl
    | inr (p, found) ↦
        ap₂ (λ a b. (a, b)) (rw (found, process_unblock) (ground arith))
          (rw (found, process_unblock) (ground arith))
  ]

  pub blocks_of-IsBackground : (j : ℕ) → IsBackground {H = H} (blocks_of j)
  blocks_of-IsBackground j = record {
    keep_unblock = blocks_of-process_unblock j;
    keep_sems = λ k t. refl;
    keep_pipes = λ k t. refl;
    keep_fds = λ k t. refl;
    keep_bytes = λ k m. refl;
    keep_queue = λ k q i. refl;
    keep_pcb = λ k p c same. ap₂ (λ a b. (a, b)) (ground (arith, same.2)) (ground (arith, same.3));
  }

  pub heap-IsBackground : IsBackground {H = H} (λ k. k.heap)
  heap-IsBackground = record {
    keep_unblock = λ k pid. ap (λ s. s.heap) (process_unblock_frame k pid);
    keep_sems = λ k t. refl;
    keep_pipes = λ k t. refl;
    keep_fds = λ k t. refl;
    keep_bytes = λ k m. refl;
    keep_queue = λ k q i. refl;
    keep_pcb = λ k p c same. refl;
  }
