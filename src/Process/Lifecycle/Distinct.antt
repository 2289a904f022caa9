-- ===== src/Process/Lifecycle/Distinct.antt =====
-- The calls of Kernel/c/process/process.c that create and end processes keep the PIDs apart.
use mass_os.Prelude.{
  ◌==◌, if◌then◌else◌, Option-cases, ℤ, update, update_self, update-ne, find_from, ℕ, ◌+◌, ◌/◌, ◌%◌,
  ◌^◌, ◌<◌, ◌≡◌, refl, sym, ap, ap₂, ◌∙◌, inl, inr, Bool, true, false, Option, none, some, List,
  arith,
}
use mass_os.Fd.{fd_incref}
use mass_os.Fd.Background.{see-fd_incref}
use mass_os.Kernel.{ready, blocked, is_free, Pcb, Kernel, MemoryManager, set_pcb}
use mass_os.Process.{stack_size}
use mass_os.Process.Background.{
  IsBackground, next_pid-IsBackground, identity-set_pcb, identity-IsBackground,
}
use mass_os.Process.Lifecycle.{
  process_exit, fill_pcb, create_in, process_create, process_kill, process_waitpid,
}
use mass_os.Process.Lifecycle.Background.{see-scheduler_add}
use mass_os.Process.Lifecycle.Numbering.{
  Alike, Alike-Fewer, CurrentLives, process_kill-Fewer, process_waitpid-Fewer, process_exit-Fewer,
}
use mass_os.Process.Lifecycle.Pids.{IsNumbered, OneMore, Fewer-IsNumbered, OneMore-IsNumbered}
use mass_os.Scheduler.{scheduler_add}
use mass_os.WaitQueue.{max_processes}
use mass_os.Process.Lifecycle.{copy_argv}

-- The end of `process_create`: its descriptors are counted, and it is queued.
see-registered :
    {H A : Type 0} {see : Kernel H → A}
    → IsBackground see
    → (k : Kernel H) (slot : ℕ) → see (scheduler_add (fd_incref (fd_incref k 0) 1) slot) ≡ see k
see-registered kept k slot =
    see-scheduler_add kept (fd_incref (fd_incref k 0) 1) slot
    ∙ see-fd_incref kept (fd_incref k 0) 1
    ∙ see-fd_incref kept k 0

registered :
    {H : Type 0} (k k' : Kernel H) (slot : ℕ) (c : Pcb)
    → k'.process_table ≡ update k.process_table slot c
    → k'.next_pid ≡ k.next_pid + 1
    → c.pid ≡ k.next_pid + 1
    → is_free c.state ≡ false
    → OneMore slot k (scheduler_add (fd_incref (fd_incref k' 0) 1) slot)
registered k k' slot c table next pid in_use = record {
  after = see-registered next_pid-IsBackground k' slot ∙ next;
  taken =
      see-registered (identity-IsBackground slot) k' slot
      ∙ ap (λ (t : ℕ → Pcb). ((t slot).pid, is_free (t slot).state)) table
      ∙ ap (λ (d : Pcb). (d.pid, is_free d.state)) (update_self k.process_table slot c)
      ∙ ap₂ (λ a b. (a, b)) pid in_use;
  others = λ j other.
      see-registered (identity-IsBackground j) k' slot
      ∙ ap (λ (t : ℕ → Pcb). ((t j).pid, is_free (t j).state)) table
      ∙ ap (λ (d : Pcb). (d.pid, is_free d.state))
          (update-ne k.process_table slot j c (λ e. other (sym e)));
}

module _ {H : Type 0} (mm : MemoryManager H) where
  fill_pcb-OneMore :
      (k : Kernel H) (slot : ℕ) (blocks : ℕ × ℕ) (name : List ℕ) (entries : ℕ × ℕ)
      (args : ℕ × Option (List (Option (List ℕ)))) (fg : ℕ)
      → k.next_pid + 1 < 2 ^ 64
      → OneMore slot k (fill_pcb mm k slot blocks name entries args fg).1
  unfolding fill_pcb
  fill_pcb-OneMore k slot (stack, argv_copy) name (entry, trampoline) (argc, argv) fg lt =
      let small : (k.next_pid + 1) % 2 ^ 64 ≡ k.next_pid + 1 = omega (arith, lt) in
      registered k _ slot _ refl small small (either_used (fg / 2 % 2 == 1))
    where
      either_used : (b : Bool) → is_free (if b then blocked else ready) ≡ false
      either_used true = refl
      either_used false = refl

  abbrev Numbered : ℤ × Kernel H → Type 0
  Numbered r = IsNumbered r.1

  create_in-IsNumbered :
      (k : Kernel H) (slot : ℕ) (given : ℕ × H) (name : List ℕ) (entries : ℕ × ℕ)
      (args : ℕ × Option (List (Option (List ℕ)))) (fg : ℕ)
      → IsNumbered k
      → k.next_pid + 1 < 2 ^ 64
      → IsNumbered (create_in mm k slot given name entries args fg).1
  unfolding create_in
  create_in-IsNumbered k slot (stack, h1) name entries (argc, argv) fg n lt =
      let c = record (k.process_table slot) { stack_base = stack } in
      let given : (h : H) → Alike k (set_pcb (record k { heap = h }) slot c) = λ h. record {
        next = refl;
        slot = λ j. identity-set_pcb j (record k { heap = h }) slot c (refl, refl);
      } in
      numbered_either (stack == 0) _ _ (Fewer-IsNumbered n (Alike-Fewer (given h1))) (
        numbered_if_some (copy_argv mm h1 argv argc) _ _
          (Fewer-IsNumbered n (Alike-Fewer (given (mm.mm_free stack h1))))
          (λ r. OneMore-IsNumbered (Fewer-IsNumbered n (Alike-Fewer (given r.1))) slot (
            fill_pcb-OneMore (set_pcb (record k { heap = r.1 }) slot c) slot (stack, r.0) name
              entries (argc, argv) fg lt)))
    where
      numbered_either :
          (b : Bool) (x y : ℤ × Kernel H)
          → IsNumbered x.1
          → IsNumbered y.1
          → IsNumbered (if b then x else y).1
      numbered_either true x y f g = f
      numbered_either false x y f g = g

      numbered_if_some :
          (found : Option (ℕ × H)) (x : ℤ × Kernel H) (f : ℕ × H → ℤ × Kernel H)
          → IsNumbered x.1
          → ((r : ℕ × H) → IsNumbered (f r).1)
          → Numbered (elim found [ none ↦ x | some r ↦ f r ])
      numbered_if_some none x f missing present = missing
      numbered_if_some (some r) x f missing present = present r

  pub process_create-IsNumbered :
      (k : Kernel H) (name : List ℕ) (entries : ℕ × ℕ) (args : ℕ × Option (List (Option (List ℕ))))
      (fg : ℕ)
      → IsNumbered k
      → k.next_pid + 1 < 2 ^ 64
      → IsNumbered (process_create mm k name entries args fg).1
  unfolding process_create
  process_create-IsNumbered k name entries args fg n lt =
      elim (Option-cases (find_from (λ i. is_free (k.process_table i).state) max_processes 0)) [
        | inl full ↦ rw (full, process_create) n
        | inr (slot, found) ↦
            rw (found, process_create)
              (create_in-IsNumbered k slot (mm.mm_malloc_kernel stack_size k.heap) name entries args
                fg n lt)
      ]

-- The calls that create and end processes.
pub data LifeCall : Type 0 where
  create_call : List ℕ → ℕ × ℕ → ℕ × Option (List (Option (List ℕ))) → ℕ → LifeCall
  exit_call : ℤ → LifeCall
  kill_call : ℕ → LifeCall
  waitpid_call : ℕ → LifeCall

module _ {H : Type 0} (mm : MemoryManager H) where
  abbrev pub life_call : LifeCall → Kernel H → Kernel H
  life_call (create_call name entries args fg) k = (process_create mm k name entries args fg).1
  life_call (exit_call retval) k = process_exit k retval
  life_call (kill_call pid) k = process_kill mm k pid
  life_call (waitpid_call pid) k = (process_waitpid mm k pid).1

  -- Creation, exit, kill and waitpid, on every branch, keep the PIDs of the processes in use different
  -- and from 1 up to the last one given out, when the current process, if there is one, is in use, and
  -- as long as the counter of PIDs does not wrap.
  pub life_call-IsNumbered :
      (call : LifeCall) (k : Kernel H)
      → IsNumbered k
      → CurrentLives k
      → k.next_pid + 1 < 2 ^ 64
      → IsNumbered (life_call call k)
  life_call-IsNumbered (create_call name entries args fg) k n lives lt =
      process_create-IsNumbered mm k name entries args fg n lt
  life_call-IsNumbered (exit_call retval) k n lives lt =
      Fewer-IsNumbered n (process_exit-Fewer k retval lives)
  life_call-IsNumbered (kill_call pid) k n lives lt =
      Fewer-IsNumbered n (process_kill-Fewer mm k pid)
  life_call-IsNumbered (waitpid_call pid) k n lives lt =
      Fewer-IsNumbered n (process_waitpid-Fewer mm k pid lives)
