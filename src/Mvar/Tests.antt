-- ===== src/Mvar/Tests.antt =====
-- Runs of the table of MVars and of the protocol, and its theorem after a run.
use mass_os.Prelude.{find_from, ◌≡◌, refl, false, some, [], ◌∷◌, ◌++◌, arith}
use mass_os.Digits.{num_to_str}
use mass_os.Mvar.{
  Umvars, build_sem_names, find_umvar, user_mvar_create, user_mvar_destroy, build_mvar_name,
  outside, has_stored, has_value, Shared, wait_empty, store, post_full, wait_full, die, Steps,
  no_steps, step_first, opened_mvar,
}
use mass_os.Text.{codes}
use mass_os.Mvar.{
  outside, has_stored, has_value, wait_empty, store, post_full, wait_full, die, no_steps,
  step_first,
}

abbrev no_mvars : Umvars
no_mvars = record {
  umvar_table = λ _. record { name = []; value = 0; in_use = false };
  reclaim = 0;
}

abbrev one_mvar : Umvars
unfolding user_mvar_create
one_mvar = (user_mvar_create no_mvars (some (codes "mvar_5"))).2

found : find_umvar one_mvar (codes "mvar_5") ≡ some 0
unfolding user_mvar_create find_umvar find_from
found = refl

twice : (user_mvar_create one_mvar (some (codes "mvar_5"))).0 ≡ 0
unfolding user_mvar_create find_umvar find_from
twice = refl

destroyed : (user_mvar_destroy one_mvar (codes "mvar_5")).0 ≡ codes "mvar_5e" ∷ codes "mvar_5f" ∷ []
unfolding user_mvar_create user_mvar_destroy build_sem_names find_umvar find_from
destroyed = refl

named_by_pid : build_mvar_name 12 ≡ codes "mvar_" ++ num_to_str 12 10
unfolding build_mvar_name
named_by_pid = refl

-- A writer puts 65 and a reader is about to take it.
abbrev after_put : Shared
after_put = record {
  empty = 0;
  full = 0;
  value = 65;
  participants = outside ∷ has_value ∷ [];
  stored = 65 ∷ [];
  taken = [];
  killed = 0;
}

-- A writer puts 65 and is killed; the held bit that its wait left is posted, and the byte that the
-- second writer puts overwrites the first.
abbrev overwritten : Shared
overwritten = record {
  empty = 0;
  full = 1;
  value = 66;
  participants = has_stored ∷ [];
  stored = 65 ∷ 66 ∷ [];
  taken = [];
  killed = 1;
}

killed_run : Steps (opened_mvar (outside ∷ outside ∷ [])) overwritten
killed_run = step_first (wait_empty [] (outside ∷ []) 65 refl (omega arith)) (
    step_first (store [] (outside ∷ []) 65 refl) (
      step_first (post_full [] (outside ∷ []) refl) (
        step_first (die [] (outside ∷ []) outside 1 0 refl (omega arith) (omega arith)) (
          step_first (wait_empty [] [] 66 refl (omega arith))
            (step_first (store [] [] 66 refl) no_steps)))))
