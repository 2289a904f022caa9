-- ===== src/Process.antt =====
-- The process table of Kernel/c/process/process.c: lookup by PID, blocking and unblocking,
-- and the listing for `ps`. Creation and death are in Process/Lifecycle.antt.
pub mod Lifecycle
pub mod Frame
pub mod Background
pub mod Waking
pub mod Priority
mod Tests
use mass_os.Prelude.{
  ltb, ◌==◌, if◌then◌else◌, bounded_copy, find_from, ℕ, zero, suc, ◌+◌, ◌-◌, max, Bool, true, false,
  not, ◌&&◌, ◌||◌, Option, none, some, List, [], ◌∷◌,
}
use mass_os.Kernel.{
  ProcessState, ready, blocked, is_free, is_blocked, is_zombie, Pcb, Kernel, same_slot, set_pcb,
}
use mass_os.WaitQueue.{max_processes}

abbrev pub min_priority : ℕ
min_priority = 1

abbrev pub max_priority : ℕ
max_priority = 5

abbrev pub default_priority : ℕ
default_priority = 3

abbrev pub stack_size : ℕ
stack_size = 4096

abbrev pub max_name_len : ℕ
max_name_len = 32

-- `ProcessInfo`, the view of a process that userland gets.
pub record ProcessInfo : Type 0 where
  pub pid : ℕ
  pub name : List ℕ
  pub priority : ℕ
  pub state : ProcessState
  pub foreground : ℕ
  pub rsp : ℕ

abbrev pub info_of : Pcb → ProcessInfo
info_of c = record {
  pid = c.pid;
  name = bounded_copy max_name_len c.name;
  priority = c.priority;
  state = c.state;
  foreground = c.foreground;
  rsp = c.rsp;
}

module _ {H : Type 0} where
  abbrev pub holds_pid : Kernel H → ℕ → ℕ → Bool
  holds_pid k pid i = (k.process_table i).pid == pid && not (is_free (k.process_table i).state)

  unfoldable pub process_get : Kernel H → ℕ → Option ℕ
  process_get k pid = if pid == 0 then none else find_from (holds_pid k pid) max_processes 0

  unfoldable pub process_block : Kernel H → ℕ → Kernel H
  process_block k pid = elim (process_get k pid) [
    | none ↦ k
    | some p ↦
        let c = k.process_table p in
        if is_free c.state || is_zombie c.state || is_blocked c.state
        then k
        else (let k' = set_pcb k p (record c { state = blocked }) in
            if same_slot k.current_process p then record k' { force_switch = true } else k')
  ]

  -- The soft boost of `process_unblock`: `p->priority > cur->priority`.
  abbrev pub outranks_current : Kernel H → ℕ → Bool
  outranks_current k p = elim k.current_process [
    | none ↦ false
    | some c ↦ ltb (k.process_table c).priority (k.process_table p).priority
  ]

  unfoldable pub process_unblock : Kernel H → ℕ → Kernel H
  process_unblock k pid = elim (process_get k pid) [
    | none ↦ k
    | some p ↦
        let c = k.process_table p in
        if is_blocked c.state
        then (let k' = set_pcb k p (record c { state = ready; wait_ticks = 0 }) in
            if outranks_current k' p then record k' { force_switch = true } else k')
        else k
  ]

  -- The loop of `process_ps` from slot `i` on, with `room` entries left in the caller's buffer.
  ps_from : Kernel H → ℕ → ℕ → ℕ → List ProcessInfo
  ps_from k zero i room = []
  ps_from k (suc n) i room =
      let c = k.process_table i in
      let listed = ps_from k n (i + 1) (room - 1) in
      let skipped = ps_from k n (i + 1) room in
      if room == 0 then [] else if is_free c.state then skipped else info_of c ∷ listed

  pub process_ps : Kernel H → ℕ → List ProcessInfo
  unfolding ps_from
  process_ps k max = ps_from k max_processes 0 max
