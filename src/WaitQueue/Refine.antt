-- ===== src/WaitQueue/Refine.antt =====
-- The circular queues of PIDs of Kernel/c/semaphore/semaphore.c as lists.
use mass_os.Prelude.{
  leb, ◌==◌, if◌then◌else◌, Bool-cases, length, member, occurrences, update, update_self, update-ne,
  ℕ, zero, suc, ◌+◌, ◌-◌, ◌%◌, ◌≤◌, ◌<◌, ◌≡◌, refl, ap, ap₂, ◌∙◌, inl, inr, true, false, List, [],
  ◌∷◌, ◌++◌, arith, mod-eq_of_lt,
}
use mass_os.Ring.{window, length-window, window-push, window-first, window-zero}
use mass_os.WaitQueue.{
  max_processes, WaitQueue, queue_push, queue_pop, keep_others, write_back, queue_remove_pid,
}

-- The queued PIDs, oldest first.
abbrev pub contents : WaitQueue → List ℕ
contents q = window max_processes q.items q.head q.count

pub record IsQueue (q : WaitQueue) : Type 0 where
  pub head_in : q.head < max_processes
  pub fits : q.count ≤ max_processes
  pub tail_at : q.tail ≡ (q.head + q.count) % max_processes

-- Everything but the PID, in order.
abbrev pub without : ℕ → List ℕ → List ℕ
without pid [] = []
without pid (x ∷ xs) = if x == pid then without pid xs else x ∷ without pid xs

pub queue_push-IsQueue : {q : WaitQueue} (pid : ℕ) → IsQueue q → IsQueue (queue_push q pid)
unfolding queue_push
queue_push-IsQueue pid v = ground arith

-- What is pushed stands last; a full queue drops it.
pub queue_push_refines :
    (q : WaitQueue) (pid : ℕ)
    → IsQueue q
    → contents (queue_push q pid)
      ≡ (if leb max_processes (length (contents q)) then contents q else contents q ++ (pid ∷ []))
unfolding queue_push
queue_push_refines q pid v = elim (Bool-cases (leb max_processes q.count)) [
  | inl full ↦ rw (length-window max_processes q.items q.head q.count, full)
  | inr room ↦
      rw (length-window max_processes q.items q.head q.count, room)
        (rw v.tail_at
          (window-push max_processes q.items pid q.head q.count v.head_in (ground arith)))
]

-- What is popped stands first.
pub queue_pop_refines :
    (q : WaitQueue)
    → IsQueue q
    → 0 < q.count
    → (contents q ≡ (queue_pop q).0 ∷ contents (queue_pop q).1) × IsQueue (queue_pop q).1
unfolding queue_pop
queue_pop_refines q v h = (
  window-first max_processes q.items q.head q.count h,
  record {
    head_in = omega (arith, v.head_in);
    fits = omega (arith, v.fits);
    tail_at = omega (arith, v.tail_at);
  },
)

keep_others-eq :
    (items : ℕ → ℕ) (pid n h : ℕ)
    → let (kept, found) = keep_others items pid n h in
      (kept ≡ without pid (window max_processes items h n))
      × (found ≡ member pid (window max_processes items h n))
unfolding keep_others
keep_others-eq items pid zero h = (refl, refl)
keep_others-eq items pid (suc n) h =
    ground (arith, keep_others-eq items pid n ((h + 1) % max_processes))

length-without : (pid : ℕ) (xs : List ℕ) → length (without pid xs) ≤ length xs
length-without pid [] = omega arith
length-without pid (x ∷ xs) = ground (arith, length-without pid xs)

length-without-member :
    (pid : ℕ) (xs : List ℕ) → member pid xs ≡ true → length (without pid xs) < length xs
length-without-member pid [] h = cc
length-without-member pid (x ∷ xs) h =
    ground (arith, length-without pid xs, length-without-member pid xs)

length-without_once :
    (pid : ℕ) (xs : List ℕ) → length (without pid xs) + occurrences pid xs ≡ length xs
length-without_once pid [] = omega arith
length-without_once pid (x ∷ xs) = ground (arith, length-without_once pid xs)

occurrences-member : (pid : ℕ) (xs : List ℕ) → member pid xs ≡ true → 0 < occurrences pid xs
occurrences-member pid [] h = cc
occurrences-member pid (x ∷ xs) h = ground (arith, occurrences-member pid xs)

without_absent : (pid : ℕ) (xs : List ℕ) → member pid xs ≡ false → without pid xs ≡ xs
without_absent pid [] h = refl
without_absent pid (x ∷ xs) h = ground (arith, without_absent pid xs)

write_back_below :
    (xs : List ℕ) (i j : ℕ) (items : ℕ → ℕ) → j < i → write_back xs i items j ≡ items j
unfolding write_back
write_back_below [] i j items h = refl
write_back_below (x ∷ xs) i j items h =
    write_back_below xs (i + 1) j (update items i x) (omega arith)
    ∙ update-ne items i j x (omega arith)

window-write_back :
    (xs : List ℕ) (i : ℕ) (items : ℕ → ℕ)
    → i + length xs ≤ max_processes
    → window max_processes (write_back xs i items) i (length xs) ≡ xs
unfolding write_back
window-write_back [] i items h = refl
window-write_back (x ∷ []) i items h = ap (λ y. y ∷ []) (update_self items i x)
window-write_back (x ∷ y ∷ ys) i items h =
    ap₂ ◌∷◌
      (write_back_below (y ∷ ys) (i + 1) i (update items i x) (omega arith) ∙ update_self items i x)
      (rw (mod-eq_of_lt {n = i + 1} {m = max_processes} (omega arith))
        (window-write_back (y ∷ ys) (i + 1) (update items i x) (omega arith)))

-- The queue without the PID, in the same order; the result says whether the PID was there.
pub queue_remove_pid_refines :
    (q : WaitQueue) (pid : ℕ)
    → IsQueue q
    → let (found, q') = queue_remove_pid q pid in
      (found ≡ member pid (contents q)) × (contents q' ≡ without pid (contents q)) × IsQueue q'
unfolding queue_remove_pid
queue_remove_pid_refines q pid v = ground (
  arith,
  window-zero max_processes q.items q.head q.count,
  keep_others-eq q.items pid q.count q.head,
  length-window max_processes q.items q.head q.count,
  length-without-member pid (contents q),
  without_absent pid (contents q),
  window-write_back (without pid (contents q)) 0 q.items,
)

pub count-queue_push :
    (q : WaitQueue) (pid : ℕ) → q.count < max_processes → (queue_push q pid).count ≡ q.count + 1
unfolding queue_push
count-queue_push q pid h = ground arith

pub count-queue_pop : (q : WaitQueue) → (queue_pop q).1.count ≡ q.count - 1
unfolding queue_pop
count-queue_pop q = refl

-- Removing a PID that is queued once takes one from the count; one that is not queued, nothing.
pub count-queue_remove_pid :
    (q : WaitQueue) (pid : ℕ)
    → IsQueue q
    → occurrences pid (contents q) ≤ 1
    → (queue_remove_pid q pid).1.count + (if (queue_remove_pid q pid).0 then 1 else 0) ≡ q.count
count-queue_remove_pid q pid v once =
    let (found, kept, valid) = queue_remove_pid_refines q pid v in
    let q' = (queue_remove_pid q pid).1 in
    ground (
      arith,
      length-window max_processes q.items q.head q.count,
      length-window max_processes q'.items q'.head q'.count,
      length-without_once pid (contents q),
      occurrences-member pid (contents q),
      without_absent pid (contents q),
      ap length kept,
    )
