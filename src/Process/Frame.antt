-- ===== src/Process/Frame.antt =====
-- What blocking and unblocking of Kernel/c/process/process.c change, and what they leave alone.
use mass_os.Prelude.{
  ◌==◌, if◌then◌else◌, Option-cases, find_from_sound, find_from-none, ℕ, ◌<◌, ◌≡◌, refl, ap, ◌≢◌,
  inl, inr, true, false, not, ◌&&◌, ◌||◌, none, some, arith,
}
use mass_os.Kernel.{ready, blocked, is_free, is_blocked, is_zombie, Kernel, same_slot, kbd_waiter}
use mass_os.Process.{holds_pid, process_get, process_block, outranks_current, process_unblock}
use mass_os.WaitQueue.{max_processes}

module _ {H : Type 0} where
  -- Only the process table and the request to switch change.
  pub process_block_frame :
      (k : Kernel H) (pid : ℕ)
      → process_block k pid ≡ record k {
        process_table = (process_block k pid).process_table;
        force_switch = (process_block k pid).force_switch;
      }
  unfolding process_block
  process_block_frame k pid = elim (Option-cases (process_get k pid)) [
    | inl gone ↦ rw (gone, process_block) refl
    | inr (p, found) ↦ rw (found, process_block) (ground arith)
  ]

  pub process_unblock_frame :
      (k : Kernel H) (pid : ℕ)
      → process_unblock k pid ≡ record k {
        process_table = (process_unblock k pid).process_table;
        force_switch = (process_unblock k pid).force_switch;
      }
  unfolding process_unblock
  process_unblock_frame k pid = elim (Option-cases (process_get k pid)) [
    | inl gone ↦ rw (gone, process_unblock) refl
    | inr (p, found) ↦ rw (found, process_unblock) (ground arith)
  ]

  pub sem_table-process_block :
      (k : Kernel H) (pid : ℕ) → (process_block k pid).sem_table ≡ k.sem_table
  sem_table-process_block k pid = ap (λ s. s.sem_table) (process_block_frame k pid)

  pub sem_table-process_unblock :
      (k : Kernel H) (pid : ℕ) → (process_unblock k pid).sem_table ≡ k.sem_table
  sem_table-process_unblock k pid = ap (λ s. s.sem_table) (process_unblock_frame k pid)

  pub pipe_table-process_block :
      (k : Kernel H) (pid : ℕ) → (process_block k pid).pipe_table ≡ k.pipe_table
  pipe_table-process_block k pid = ap (λ s. s.pipe_table) (process_block_frame k pid)

  pub pipe_table-process_unblock :
      (k : Kernel H) (pid : ℕ) → (process_unblock k pid).pipe_table ≡ k.pipe_table
  pipe_table-process_unblock k pid = ap (λ s. s.pipe_table) (process_unblock_frame k pid)

  -- A PID that is found belongs to a live slot of the table, the first one with it.
  pub process_get_sound :
      (k : Kernel H) (pid p : ℕ)
      → process_get k pid ≡ some p
      → ((k.process_table p).pid ≡ pid)
        × (is_free (k.process_table p).state ≡ false)
        × (p < max_processes)
        × (pid ≢ 0)
  unfolding process_get
  process_get_sound k pid p e = ground (arith, find_from_sound (holds_pid k pid) max_processes 0 p)

  -- A PID that is not found belongs to no live slot.
  pub process_get_complete :
      (k : Kernel H) (pid p : ℕ)
      → process_get k pid ≡ none
      → p < max_processes
      → pid ≢ 0
      → (k.process_table p).pid ≡ pid
      → is_free (k.process_table p).state ≡ true
  unfolding process_get
  process_get_complete k pid p e lt nz same =
      ground (arith, find_from-none (holds_pid k pid) max_processes 0 p)

  -- Blocking a live process that is neither ZOMBIE nor BLOCKED makes it BLOCKED, and asks for a
  -- switch if it is the current one; every other process stays as it is.
  pub process_block_lem :
      (k : Kernel H) (pid p j : ℕ)
      → process_get k pid ≡ some p
      → is_zombie (k.process_table p).state ≡ false
      → (((process_block k pid).process_table p).state ≡ blocked)
        × ((process_block k pid).process_table j ≡ (
            if p == j then record (k.process_table j) { state = blocked } else k.process_table j))
        × ((process_block k pid).force_switch ≡ (
            k.force_switch
            || (not (is_blocked (k.process_table p).state) && same_slot k.current_process p)))
  unfolding process_block
  process_block_lem k pid p j found live =
      rw (found, process_block) (ground (arith, (process_get_sound k pid p found).1))

  -- Unblocking a BLOCKED process makes it READY with no time waited, and asks for a switch if it
  -- outranks the current process; any other process stays as it is.
  pub process_unblock_lem :
      (k : Kernel H) (pid p j : ℕ)
      → process_get k pid ≡ some p
      → (k.process_table p).state ≡ blocked
      → ((process_unblock k pid).process_table j ≡ (
          if p == j
          then record (k.process_table j) { state = ready; wait_ticks = 0 }
          else k.process_table j))
        × ((process_unblock k pid).force_switch ≡ (k.force_switch || outranks_current k p))
  unfolding process_unblock
  process_unblock_lem k pid p j found b = rw (found, process_unblock) (rw b (ground arith))

module _ {H : Type 0} where
  pub kbd_waiter-process_unblock :
      (k : Kernel H) (pid : ℕ) → kbd_waiter (process_unblock k pid) ≡ kbd_waiter k
  kbd_waiter-process_unblock k pid = ap kbd_waiter (process_unblock_frame k pid)
