-- ===== src/Command.antt =====
-- src/command.h and src/command.c: command calls, commands and their results.
use jsh_tyy.Base.{
  ℕ, zero, suc, Bool, true, false, Bytes, codes, List, [], ◌∷◌, ◌++◌, Option, none, some,
  if◌then◌else◌, ℤ, pos, negsuc, length,
}
use jsh_tyy.Text.{str_eq, is_only_composed_of}

-- `argv` holds the `argc` arguments in front of its terminating NULL; a `pipe_info` is the list of
-- the pipes' indices in the command.
pub record CommandCall : Type 0 where
  pub name : Bytes
  pub argv : List Bytes
  pub command_string : Bytes
  pub reading_pipes : List ℕ
  pub writing_pipes : List ℕ
  pub stdin : ℤ
  pub stdout : ℤ
  pub stderr : ℤ

abbrev pub argc : CommandCall → ℕ
argc call = length call.argv

-- `argv[i]`; the callers have tested `argc`.
abbrev pub arg : List Bytes → ℕ → Bytes
arg [] i = []
arg (a ∷ argv) zero = a
arg (a ∷ argv) (suc i) = arg argv i

abbrev pub new_pipe_info : List ℕ
new_pipe_info = []

abbrev pub add_pipe_pipe_info : List ℕ → ℕ → List ℕ
add_pipe_pipe_info pipes index = pipes ++ index ∷ []

unfoldable pub new_command_call : List Bytes → Bytes → CommandCall
new_command_call argv command_string = record {
  name = arg argv 0;
  argv = argv;
  command_string = command_string;
  reading_pipes = [];
  writing_pipes = [];
  stdin = pos 0;
  stdout = pos 1;
  stderr = pos 2;
}

abbrev pub internal_commands : List Bytes
internal_commands =
    codes "cd"
    ∷ codes "exit"
    ∷ codes "pwd"
    ∷ codes "?"
    ∷ codes "jobs"
    ∷ codes "fg"
    ∷ codes "bg"
    ∷ codes "kill"
    ∷ []

name_loop : Bytes → List Bytes → Bool
name_loop name [] = false
name_loop name (c ∷ cs) = if str_eq name c then true else name_loop name cs

unfoldable pub is_internal_command : CommandCall → Bool
unfolding name_loop
is_internal_command call = name_loop call.name internal_commands

-- UNINITIALIZED_PID
abbrev pub uninitialized_pid : ℤ
uninitialized_pid = negsuc 1

-- A pipe is the pair of its read end and its write end.
pub record Command : Type 0 where
  pub command_string : Bytes
  pub command_calls : List CommandCall
  pub background : Bool
  pub open_pipes : List (ℤ × ℤ)

pub record CommandResult : Type 0 where
  pub exit_code : ℤ
  pub pid : ℤ
  pub job_id : ℤ

unfoldable pub new_command_result : ℤ → CommandResult
new_command_result exit_code = record {
  exit_code = exit_code;
  pid = uninitialized_pid;
  job_id = pos 0;
}

-- `none` is `NULL`: an empty line, or one of spaces alone.
unfoldable pub new_empty_command : Bytes → Option Command
new_empty_command [] = none
new_empty_command (c ∷ s) = elim (is_only_composed_of (c ∷ s) (codes " ")) [
  | some true ↦ none
  | _ ↦
      some (record { command_string = []; command_calls = []; background = false; open_pipes = [] })
]
