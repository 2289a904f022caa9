-- ===== src/WaitQueue.antt =====
-- The circular queue of PIDs of Kernel/c/semaphore/semaphore.c (`wait_queue`, `wait_head`,
-- `wait_tail`, `wait_count`); Kernel/c/pipe/pipe.c keeps two of the same shape in each pipe.
pub mod Refine
mod Tests
use mass_os.Prelude.{
  leb, ◌==◌, if◌then◌else◌, length, update, ℕ, zero, suc, ◌+◌, ◌-◌, ◌%◌, Bool, true, false, List,
  [], ◌∷◌,
}

abbrev pub max_processes : ℕ
max_processes = 64

pub record WaitQueue : Type 0 where
  pub items : ℕ → ℕ
  pub head : ℕ
  pub tail : ℕ
  pub count : ℕ

-- `queue_push` of semaphore.c: a full queue drops the PID.
unfoldable pub queue_push : WaitQueue → ℕ → WaitQueue
queue_push q pid = if leb max_processes q.count then q else record q {
  items = update q.items q.tail pid;
  tail = (q.tail + 1) % max_processes;
  count = q.count + 1;
}

-- `queue_pop`; its callers test that the queue is not empty.
unfoldable pub queue_pop : WaitQueue → ℕ × WaitQueue
queue_pop q =
    (q.items q.head, record q { head = (q.head + 1) % max_processes; count = q.count - 1 })

-- The first loop of `queue_remove_pid`: what it keeps, in order, and whether it met the PID.
pub keep_others : (ℕ → ℕ) → ℕ → ℕ → ℕ → List ℕ × Bool
keep_others items pid zero idx = ([], false)
keep_others items pid (suc n) idx =
    let (kept, found) = keep_others items pid n ((idx + 1) % max_processes) in
    if items idx == pid then (kept, true) else (items idx ∷ kept, found)

-- The second loop: `queue[i] = new_q[i]`.
pub write_back : List ℕ → ℕ → (ℕ → ℕ) → ℕ → ℕ
write_back [] i items = items
write_back (x ∷ xs) i items = write_back xs (i + 1) (update items i x)

unfoldable pub queue_remove_pid : WaitQueue → ℕ → Bool × WaitQueue
unfolding keep_others write_back
queue_remove_pid q pid =
    if q.count == 0
    then (false, q)
    else (let (kept, found) = keep_others q.items pid q.count q.head in
        if found
        then (
          true,
          record q {
            items = write_back kept 0 q.items;
            head = 0;
            tail = length kept;
            count = length kept;
          },
        )
        else (false, q))
