-- ===== src/Shell/Tests.antt =====
-- Runs of the shell on command lines, and its theorems at inputs.
use mass_os.Prelude.{pos, ◌≡◌, refl, false, some, [], ◌∷◌}
use mass_os.Digits.{num_to_str}
use mass_os.Shell.{
  strcmp, is_child_command, parse_args, parse_pipe, split_command, create, print, built_in, Answers,
  start_pipe, handle_pipe, start_child, run_command, background, process_line,
}
use mass_os.Shell.Parsing.{parse_args_lem}
use mass_os.Shell.Pipelines.{closed_fds, handle_pipe-closed}
use mass_os.Text.{codes}
use mass_os.Shell.{child_cmds, create, print, built_in, commands}

abbrev answers : Answers
answers = record { fds = some (3, 4); first_pid = pos 7; second_pid = pos 8 }

in_background :
    process_line answers (codes "wc &")
    ≡ create (codes "wc") [] 0
      ∷ print (codes "[")
      ∷ print (num_to_str 7 10)
      ∷ print (93 ∷ 10 ∷ [])
      ∷ []
unfolding process_line background parse_pipe run_command start_child split_command is_child_command
    child_cmds strcmp parse_args
in_background = refl

pipeline : closed_fds (process_line answers (codes "cat | filter")) ≡ 3 ∷ 4 ∷ []
unfolding process_line background parse_pipe handle_pipe start_pipe split_command is_child_command
    child_cmds strcmp parse_args
pipeline = refl

in_shell : process_line answers (codes "ps") ≡ built_in (codes "ps") ∷ []
unfolding process_line background parse_pipe run_command split_command is_child_command child_cmds
    commands strcmp
in_shell = refl

parse_args_lem_example : parse_args 2 (codes " a  bc d") ≡ codes "a" ∷ codes "bc" ∷ []
parse_args_lem_example = parse_args_lem 2 (codes " a  bc d")

handle_pipe-closed_example :
    closed_fds (handle_pipe answers (codes "cat") (codes "wc") false) ≡ 3 ∷ 4 ∷ []
handle_pipe-closed_example = handle_pipe-closed answers (codes "cat") (codes "wc") false 3 4 refl
