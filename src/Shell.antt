-- ===== src/Shell.antt =====
-- Userland/c/shell/userlib.c: a command line is taken apart, and its processes are started. A text is
-- the list of its bytes before the NUL, and a pointer into it is the rest of the list from there on.
-- What the system calls answer is an argument, and the calls are listed in order.
pub mod Parsing
pub mod Pipelines
mod Tests
use mass_os.Prelude.{
  ltb, ◌==◌, if◌then◌else◌, ℤ, pos, negsuc, is_negative, to_uint64, length, get_or, take, ℕ, zero,
  suc, ◌-◌, Bool, true, false, not, ◌&&◌, ◌||◌, Option, none, some, List, [], ◌∷◌, ◌++◌,
}
use mass_os.Digits.{num_to_str}
use mass_os.Text.{codes}

abbrev pub byte_difference : ℕ → ℕ → ℤ
byte_difference a b = if ltb a b then negsuc (b - a - 1) else pos (a - b)

-- The difference of the first bytes that differ, the end of a text counting as 0.
pub strcmp : List ℕ → List ℕ → ℤ
strcmp [] [] = pos 0
strcmp [] (b ∷ bs) = byte_difference 0 b
strcmp (a ∷ as') [] = byte_difference a 0
strcmp (a ∷ as') (b ∷ bs) = if a == b then strcmp as' bs else byte_difference a b

abbrev is_zero : ℤ → Bool
is_zero (pos n) = n == 0
is_zero (negsuc n) = false

-- A search through names from the first on.
abbrev named : List ℕ → List (List ℕ) → Bool
named name [] = false
named name (c ∷ cs) = is_zero (strcmp name c) || named name cs

child_cmds : List (List ℕ)
child_cmds =
    codes "test_mm"
    ∷ codes "test_processes"
    ∷ codes "test_prio"
    ∷ codes "test_sync"
    ∷ codes "mem"
    ∷ codes "kill"
    ∷ codes "nice"
    ∷ codes "block"
    ∷ codes "loop"
    ∷ codes "sh"
    ∷ codes "cat"
    ∷ codes "wc"
    ∷ codes "mvar"
    ∷ codes "filter"
    ∷ codes "help"
    ∷ []

pub is_child_command : List ℕ → Bool
unfolding child_cmds strcmp
is_child_command name = named name child_cmds

-- `while(*src == ' ') src++`
abbrev pub skip_spaces : List ℕ → List ℕ
skip_spaces [] = []
skip_spaces (c ∷ cs) = if c == 32 then skip_spaces cs else c ∷ cs

-- The word up to a space, and what follows that space.
abbrev pub cut_word : List ℕ → List ℕ × List ℕ
cut_word [] = ([], [])
cut_word (c ∷ cs) = let (word, rest) = cut_word cs in if c == 32 then ([], cs) else (c ∷ word, rest)

-- `argv`; the result of the C function is its length. Each round takes a place of `max_argv`.
pub parse_args : ℕ → List ℕ → List (List ℕ)
parse_args zero src = []
parse_args (suc max_argv) src = elim (skip_spaces src) [
  | [] ↦ []
  | ◌∷◌ c cs ↦ let (word, rest) = cut_word (c ∷ cs) in word ∷ parse_args max_argv rest
]

-- `while(l > 0 && text[l - 1] == ' ') text[--l] = 0`
abbrev trim : ℕ → List ℕ → List ℕ
trim zero text = []
trim (suc l) text = if get_or text l 0 == 32 then trim l text else take (suc l) text

-- The text before the first `|` and after it.
abbrev cut_bar : List ℕ → Option (List ℕ × List ℕ)
cut_bar [] = none
cut_bar (c ∷ cs) =
    let later = cut_bar cs in
    if c == b'|'
    then some ([], cs)
    else elim later [ none ↦ none | some halves ↦ some (c ∷ halves.0, halves.1) ]

pub parse_pipe : List ℕ → Option (List ℕ × List ℕ)
parse_pipe buff = elim (cut_bar buff) [
  | none ↦ none
  | some halves ↦ some (trim (length halves.0) halves.0, skip_spaces halves.1)
]

-- The name of a command and its arguments: what follows the spaces, `none` where nothing does.
abbrev present : List ℕ → Option (List ℕ)
present [] = none
present (c ∷ cs) = some (c ∷ cs)

pub split_command : List ℕ → List ℕ × Option (List ℕ)
split_command line = let (name, rest) = cut_word line in (name, present (skip_spaces rest))

abbrev args_of : Option (List ℕ) → List (List ℕ)
unfolding parse_args
args_of none = []
args_of (some args) = parse_args 15 args

-- The calls of the shell. `create` has the name, `argv` and the last argument of
-- `my_create_process_fg`; `built_in` runs a command in the shell itself.
pub data Call : Type 0 where
  create : List ℕ → List (List ℕ) → ℕ → Call
  pipe_setup : ℤ → ℕ → ℕ → Call
  close : ℕ → Call
  kill : ℤ → Call
  set_tty : ℕ → Call
  unblock : ℤ → Call
  await : ℤ → Call
  print : List ℕ → Call
  built_in : List ℕ → Call

-- What `sys_pipe` and the creations of the processes return.
pub record Answers : Type 0 where
  pub fds : Option (ℕ × ℕ)
  pub first_pid : ℤ
  pub second_pid : ℤ

abbrev pid_text : ℤ → List ℕ
pid_text pid = num_to_str (to_uint64 pid) 10

-- TTY_RAW and TTY_COOKED
abbrev tty_raw : ℕ
tty_raw = 0

abbrev tty_cooked : ℕ
tty_cooked = 1

-- `handle_pipe` once both processes are there.
pub start_pipe : ℤ → ℤ → ℕ → ℕ → Bool → List Call
start_pipe pid1 pid2 r w bg =
    pipe_setup pid1 w 1
      ∷ pipe_setup pid2 r 0
      ∷ close r
      ∷ close w
      ∷ (if bg then [] else set_tty tty_cooked ∷ [])
    ++ unblock pid1
      ∷ unblock pid2
      ∷ (if bg
          then print (codes "[")
            ∷ print (pid_text pid1)
            ∷ print (codes ", ")
            ∷ print (pid_text pid2)
            ∷ print (93 ∷ 10 ∷ [])
            ∷ []
          else await pid1 ∷ await pid2 ∷ set_tty tty_raw ∷ [])

pub handle_pipe : Answers → List ℕ → List ℕ → Bool → List Call
unfolding start_pipe split_command is_child_command
handle_pipe a left right bg = elim a.fds [
  | none ↦ print (codes "Error creando pipe\n") ∷ []
  | some ends ↦
      let (r, w) = ends in
      let (left_name, left_args) = split_command left in
      let (right_name, right_args) = split_command right in
      if not (is_child_command left_name) || not (is_child_command right_name)
      then print (codes "Pipe solo soporta comandos externos\n") ∷ close r ∷ close w ∷ []
      else create left_name (args_of left_args) 3
        ∷ (if is_negative a.first_pid
            then print (codes "Error creando proceso izquierdo\n") ∷ close r ∷ close w ∷ []
            else create right_name (args_of right_args) 3
              ∷ (if is_negative a.second_pid
                  then print (codes "Error creando proceso derecho\n")
                    ∷ kill a.first_pid
                    ∷ close r
                    ∷ close w
                    ∷ []
                  else start_pipe a.first_pid a.second_pid r w bg))
]

commands : List (List ℕ)
commands =
    codes "clear"
    ∷ codes "printTime"
    ∷ codes "printDate"
    ∷ codes "registers"
    ∷ codes "testDiv0"
    ∷ codes "invOp"
    ∷ codes "playBeep"
    ∷ codes "test_mm"
    ∷ codes "test_processes"
    ∷ codes "test_prio"
    ∷ codes "test_sync"
    ∷ codes "ps"
    ∷ []

-- A command that runs as a process.
pub start_child : ℤ → List ℕ → Option (List ℕ) → Bool → List Call
start_child pid name args bg =
    (if bg then [] else print (8 ∷ []) ∷ set_tty tty_cooked ∷ [])
    ++ create name (args_of args) (if bg then 0 else 1)
      ∷ (if is_negative pid
          then print (codes "Error creando proceso\n") ∷ []
          else if not bg
          then await pid ∷ set_tty tty_raw ∷ []
          else print (codes "[") ∷ print (pid_text pid) ∷ print (93 ∷ 10 ∷ []) ∷ [])

pub run_command : ℤ → List ℕ → Bool → List Call
unfolding start_child split_command is_child_command commands
run_command pid line bg =
    let (name, args) = split_command line in
    if is_child_command name
    then start_child pid name args bg
    else if named name commands
    then built_in name ∷ []
    else print (codes "Comando no reconocido! Escriba 'help' para ver los comandos disponibles.\n")
      ∷ []

-- `&` at the end is taken off, with the spaces before it.
pub background : List ℕ → List ℕ × Bool
background buff =
    let len = length buff in
    if ltb 0 len && (get_or buff (len - 1) 0 == b'&')
    then (trim (len - 1) (take (len - 1) buff), true)
    else (buff, false)

pub process_line : Answers → List ℕ → List Call
unfolding background parse_pipe handle_pipe run_command
process_line a [] = []
process_line a (c ∷ cs) =
    let (line, bg) = background (c ∷ cs) in
    elim (parse_pipe line) [
      | none ↦ run_command a.first_pid line bg
      | some halves ↦ handle_pipe a halves.0 halves.1 bg
    ]
