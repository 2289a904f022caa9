-- ===== src/Process/Waking.antt =====
-- Which processes `process_unblock` of Kernel/c/process/process.c makes READY.
use mass_os.Prelude.{
  ◌==◌, if◌then◌else◌, ==→eq, Bool-cases, Option-cases, member, ℕ, ◌≡◌, refl, sym, ap, ◌∙◌, fun_ext,
  ◌≢◌, inl, inr, Bool, false, not, ◌&&◌, some, List, [], ◌∷◌, arith,
}
use mass_os.Kernel.{ProcessState, ready, is_blocked, Pcb, Kernel}
use mass_os.Process.{holds_pid, process_get, process_unblock}
use mass_os.Process.Background.{identity}
use mass_os.Process.Frame.{process_get_sound}

-- The state of the process in a slot when all with a PID of the list are woken.
abbrev pub woken_by : List ℕ → Pcb → ProcessState
woken_by pids c = if member c.pid pids && is_blocked c.state then ready else c.state

module _ {H : Type 0} where
  -- The slot is found under its PID.
  abbrev pub IsFound : Kernel H → ℕ → Type 0
  IsFound k q = process_get k (k.process_table q).pid ≡ some q

  process_get-alike :
      (k k' : Kernel H) (pid : ℕ)
      → ((j : ℕ) → identity j k' ≡ identity j k)
      → process_get k' pid ≡ process_get k pid
  unfolding process_get
  process_get-alike k k' pid same =
      let test : holds_pid k' pid ≡ holds_pid k pid =
        fun_ext (λ j. ap (λ (r : ℕ × Bool). r.0 == pid && not r.1) (same j)) in
      rw test refl

  pub IsFound-alike :
      (k k' : Kernel H) (q : ℕ)
      → ((j : ℕ) → identity j k' ≡ identity j k)
      → IsFound k q
      → IsFound k' q
  IsFound-alike k k' q same found =
      ap (process_get k') (ap (λ (r : ℕ × Bool). r.0) (same q))
      ∙ process_get-alike k k' (k.process_table q).pid same
      ∙ found

  -- Unblocking the process of a slot, and of another one.
  unblock_self :
      (k : Kernel H) (q : ℕ)
      → IsFound k q
      → ((process_unblock k (k.process_table q).pid).process_table q).state
        ≡ (if is_blocked (k.process_table q).state then ready else (k.process_table q).state)
  unfolding process_unblock
  unblock_self k q found = rw (found, process_unblock) (ground arith)

  unblock_other :
      (k : Kernel H) (pid q : ℕ)
      → pid ≢ (k.process_table q).pid
      → ((process_unblock k pid).process_table q).state ≡ (k.process_table q).state
  unfolding process_unblock
  unblock_other k pid q ne = elim (Option-cases (process_get k pid)) [
    | inl gone ↦ rw (gone, process_unblock) refl
    | inr (p, found) ↦
        let holder = (process_get_sound k pid p found).0 in
        let away : (p == q) ≡ false = elim (Bool-cases (p == q)) [
          | inl e ↦ absurd (ne (sym holder ∙ ap (λ i. (k.process_table i).pid) (==→eq p q e)))
          | inr e ↦ e
        ] in
        rw (found, process_unblock) (ground (arith, away))
  ]

  pub unblocked_state :
      (k : Kernel H) (pid q : ℕ)
      → IsFound k q
      → ((process_unblock k pid).process_table q).state ≡ woken_by (pid ∷ []) (k.process_table q)
  unblocked_state k pid q found = elim (Bool-cases (pid == (k.process_table q).pid)) [
    | inl here ↦
        let same = ==→eq pid (k.process_table q).pid here in
        ap (λ n. ((process_unblock k n).process_table q).state) same
        ∙ unblock_self k q found
        ∙ rw here refl
    | inr away ↦ unblock_other k pid q (ground arith) ∙ rw away refl
  ]

-- Waking the first and then the others.
pub woken_by-cons :
    (pid : ℕ) (pids : List ℕ) (c c' : Pcb)
    → c'.pid ≡ c.pid
    → c'.state ≡ woken_by (pid ∷ []) c
    → woken_by pids c' ≡ woken_by (pid ∷ pids) c
woken_by-cons pid pids c c' same state = elim (Bool-cases (pid == c.pid)) [
  | inl here ↦ elim (Bool-cases (is_blocked c.state)) [
    | inl asleep ↦
        let up : c'.state ≡ ready = state ∙ rw (here, asleep) refl in
        rw (up, here, asleep) (ground arith)
    | inr awake ↦
        let up : c'.state ≡ c.state = state ∙ rw (here, awake) refl in
        rw (up, here, awake) (ground arith)
  ]
  | inr away ↦ let up : c'.state ≡ c.state = state ∙ rw away refl in rw (up, same, away) refl
]
