-- ===== src/Mvar.antt =====
-- Userland/c/commands/mvar.c: the table of MVars and the protocol of `user_mvar_put` and
-- `user_mvar_take` on two semaphores.
pub mod Protocol
mod Tests
use mass_os.Prelude.{
  take, bounded_copy, text_eq, update, find_from, ℕ, ◌+◌, ◌-◌, ◌%◌, ◌≤◌, ◌<◌, ◌≡◌, Bool, true,
  false, not, ◌&&◌, Option, none, some, List, [], ◌∷◌, ◌++◌,
}
use mass_os.Digits.{num_to_str}
use mass_os.Text.{codes}

abbrev max_user_mvars : ℕ
max_user_mvars = 16

abbrev umvar_name_len : ℕ
umvar_name_len = 28

pub record UserMvar : Type 0 where
  pub name : List ℕ
  pub value : ℕ
  pub in_use : Bool

-- `umvar_table` and `reclaim`.
pub record Umvars : Type 0 where
  pub umvar_table : ℕ → UserMvar
  pub reclaim : ℕ

-- `sem_empty` and `sem_full`.
pub build_sem_names : List ℕ → List ℕ × List ℕ
build_sem_names mvar_name =
    let stem = take (umvar_name_len - 1) mvar_name in (stem ++ (b'e' ∷ []), stem ++ (b'f' ∷ []))

pub find_umvar : Umvars → List ℕ → Option ℕ
find_umvar t name =
    find_from (λ i. (t.umvar_table i).in_use && text_eq (t.umvar_table i).name name) max_user_mvars
      0

-- The result, the names of the semaphores that are closed, and the table. `none` for a NULL name.
pub user_mvar_create : Umvars → Option (List ℕ) → ℕ × List (List ℕ) × Umvars
unfolding find_umvar build_sem_names
user_mvar_create t none = (0, [], t)
user_mvar_create t (some name) =
    let made : UserMvar = record {
      name = bounded_copy umvar_name_len name;
      value = 0;
      in_use = true;
    } in
    elim (find_umvar t name) [
      | some i ↦ (0, [], t)
      | none ↦ elim (find_from (λ i. not (t.umvar_table i).in_use) max_user_mvars 0) [
        | some slot ↦ (1, [], record t { umvar_table = update t.umvar_table slot made })
        | none ↦
            let slot = t.reclaim in
            let (sem_empty, sem_full) = build_sem_names (t.umvar_table slot).name in
            (
              1,
              sem_empty ∷ sem_full ∷ [],
              record {
                umvar_table = update t.umvar_table slot made;
                reclaim = (slot + 1) % max_user_mvars;
              },
            )
      ]
    ]

pub user_mvar_destroy : Umvars → List ℕ → List (List ℕ) × Umvars
unfolding find_umvar build_sem_names
user_mvar_destroy t name = elim (find_umvar t name) [
  | none ↦ ([], t)
  | some i ↦
      let mv = t.umvar_table i in
      let (sem_empty, sem_full) = build_sem_names name in
      (
        sem_empty ∷ sem_full ∷ [],
        record t { umvar_table = update t.umvar_table i (record mv { in_use = false; name = [] }) },
      )
]

-- The digits of `pid` behind `mvar_`.
pub build_mvar_name : ℕ → List ℕ
build_mvar_name pid = codes "mvar_" ++ num_to_str pid 10

-- Where a participant is: before a call, in `user_mvar_put` of a byte after the wait for a slot or
-- after the store, in `user_mvar_take` after the wait for a value or after the read.
pub data Stage : Type 0 where
  outside : Stage
  has_slot : ℕ → Stage
  has_stored : Stage
  has_value : Stage
  has_read : ℕ → Stage

-- One MVar: the values of its semaphores, its byte, its participants, all bytes that were stored and
-- read so far, and the number of participants that were killed.
pub record Shared : Type 0 where
  pub empty : ℕ
  pub full : ℕ
  pub value : ℕ
  pub participants : List Stage
  pub stored : List ℕ
  pub taken : List ℕ
  pub killed : ℕ

-- One participant goes one step, while the semaphores are open. A wait ends when the semaphore has a
-- unit. A participant may be killed at any stage: `sem_cleanup_for_process` then posts to each
-- semaphore of which it has the held bit, which is left set by a wait on the one and a post on the
-- other, so at most one unit for each of the two.
pub data Step : Shared → Shared → Type 0 where
  wait_empty :
      {s : Shared} (xs ys : List Stage) (v : ℕ)
      → s.participants ≡ xs ++ (outside ∷ ys)
      → 0 < s.empty
      → Step s (record s { empty = s.empty - 1; participants = xs ++ (has_slot v ∷ ys) })
  store :
      {s : Shared} (xs ys : List Stage) (v : ℕ)
      → s.participants ≡ xs ++ (has_slot v ∷ ys)
      → Step s (record s {
        value = v;
        participants = xs ++ (has_stored ∷ ys);
        stored = s.stored ++ (v ∷ []);
      })
  post_full :
      {s : Shared} (xs ys : List Stage)
      → s.participants ≡ xs ++ (has_stored ∷ ys)
      → Step s (record s { full = s.full + 1; participants = xs ++ (outside ∷ ys) })
  wait_full :
      {s : Shared} (xs ys : List Stage)
      → s.participants ≡ xs ++ (outside ∷ ys)
      → 0 < s.full
      → Step s (record s { full = s.full - 1; participants = xs ++ (has_value ∷ ys) })
  fetch :
      {s : Shared} (xs ys : List Stage)
      → s.participants ≡ xs ++ (has_value ∷ ys)
      → Step s (record s {
        participants = xs ++ (has_read s.value ∷ ys);
        taken = s.taken ++ (s.value ∷ []);
      })
  post_empty :
      {s : Shared} (xs ys : List Stage) (v : ℕ)
      → s.participants ≡ xs ++ (has_read v ∷ ys)
      → Step s (record s { empty = s.empty + 1; participants = xs ++ (outside ∷ ys) })
  die :
      {s : Shared} (xs ys : List Stage) (p : Stage) (empty_units full_units : ℕ)
      → s.participants ≡ xs ++ (p ∷ ys)
      → empty_units ≤ 1
      → full_units ≤ 1
      → Step s (record s {
        empty = s.empty + empty_units;
        full = s.full + full_units;
        participants = xs ++ ys;
        killed = s.killed + 1;
      })

pub data Steps : Shared → Shared → Type 0 where
  no_steps : {s : Shared} → Steps s s
  step_first : {s s' s'' : Shared} → Step s s' → Steps s' s'' → Steps s s''

-- The semaphores as `user_mvar_open_sems` makes them, before the first call.
abbrev pub opened_mvar : List Stage → Shared
opened_mvar participants = record {
  empty = 1;
  full = 0;
  value = 0;
  participants = participants;
  stored = [];
  taken = [];
  killed = 0;
}
