-- ===== src/Shell/Pipelines.antt =====
-- The descriptors of a pipeline in `handle_pipe` of Userland/c/shell/userlib.c.
use mass_os.Prelude.{
  Bool-cases, ℤ, is_negative, ℕ, ◌≡◌, refl, inl, inr, Bool, true, false, not, ◌||◌, some, List, [],
  ◌∷◌,
}
use mass_os.Shell.{is_child_command, split_command, Call, close, Answers, start_pipe, handle_pipe}
use mass_os.Shell.{close}

-- The descriptors that the shell closes, in order.
abbrev pub closed_fds : List Call → List ℕ
closed_fds [] = []
closed_fds (close fd ∷ calls) = fd ∷ closed_fds calls
closed_fds (_ ∷ calls) = closed_fds calls

start_pipe-closed :
    (pid1 pid2 : ℤ) (r w : ℕ) (bg : Bool) → closed_fds (start_pipe pid1 pid2 r w bg) ≡ r ∷ w ∷ []
unfolding start_pipe
start_pipe-closed pid1 pid2 r w true = refl
start_pipe-closed pid1 pid2 r w false = refl

-- The shell closes both ends of the pipe that it made, once each, whether the commands exist, and
-- whichever of the two processes could be created.
pub handle_pipe-closed :
    (a : Answers) (left right : List ℕ) (bg : Bool) (r w : ℕ)
    → a.fds ≡ some (r, w)
    → closed_fds (handle_pipe a left right bg) ≡ r ∷ w ∷ []
unfolding handle_pipe
handle_pipe-closed a left right bg r w made =
    elim (Bool-cases (
      not (is_child_command (split_command left).0)
      || not (is_child_command (split_command right).0))) [
        | inl unknown ↦ rw (made, unknown) refl
        | inr known ↦ elim (Bool-cases (is_negative a.first_pid)) [
          | inl failed ↦ rw (made, known, failed) refl
          | inr first ↦ elim (Bool-cases (is_negative a.second_pid)) [
            | inl failed ↦ rw (made, known, first, failed) refl
            | inr second ↦
                rw (made, known, first, second) (start_pipe-closed a.first_pid a.second_pid r w bg)
          ]
        ]
      ]
