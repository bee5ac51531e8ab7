-- ===== src/Run/Tests.antt =====
-- src/internals.c and src/prompt.c: the invariant at a concrete command and on concrete lines.
mod Foreground
mod Suspended
mod Streams
mod Descriptors
use jsh_tyy.Base.{
  ℕ, get_elem?, ◌≡◌, refl, false, true, Bytes, codes, List, [], ◌∷◌, Option, none, some, ℤ, pos,
}
use jsh_tyy.Text.{str_eq}
use jsh_tyy.System.{Exec}
use jsh_tyy.System.Recorder.{Record, recorder, launcher}
use jsh_tyy.FdSet.{contains}
use jsh_tyy.Command.{CommandCall, Command}
use jsh_tyy.Run.Child.{close_reading_pipes, has_index, close_reading_pipes-foreign}
use jsh_tyy.Jobs.Table.Cells.{IsWellFormed}
use jsh_tyy.Jobs.Table.Update.{init_job_table-IsWellFormed}
use jsh_tyy.Proc.{Procs}
use jsh_tyy.Shell.{init_internals}
use jsh_tyy.Run.{execute_command}
use jsh_tyy.Shell.Internal.Table.{KeepsTable}
use jsh_tyy.Run.Invariant.{execute_command-KeepsTable}
use jsh_tyy.Run.Main.{main, main-KeepsTable}

-- No process has a child.
abbrev childless : Procs Record
childless = record { bufsiz = 8192; stack = 100; open_file = λ path w. some [] }

abbrev counting : Command
counting = record {
  command_string = codes "wc";
  command_calls =
      record {
        name = codes "wc";
        argv = codes "wc" ∷ [];
        command_string = codes "wc";
        reading_pipes = [];
        writing_pipes = [];
        stdin = pos 0;
        stdout = pos 1;
        stderr = pos 2;
      }
      ∷ [];
  background = true;
  open_pipes = [];
}

other_name : str_eq (codes "wc") (codes "jobs") ≡ false
unfolding str_eq
other_name = refl

not_pwd : str_eq (codes "wc") (codes "pwd") ≡ false
unfolding str_eq
not_pwd = refl

shell-IsWellFormed : IsWellFormed (init_internals {W = Record} []).jobs
unfolding init_internals
shell-IsWellFormed = init_job_table-IsWellFormed

execute_command-KeepsTable_example :
    KeepsTable ⊥ (execute_command recorder launcher childless (init_internals []) counting)
execute_command-KeepsTable_example =
    execute_command-KeepsTable recorder launcher childless (init_internals []) counting
      ((other_name, (λ e. cc (rw not_pwd at e))), tt) shell-IsWellFormed

abbrev lines : List (Option Bytes)
lines = some (codes "wc &") ∷ some (codes "fg %1") ∷ none ∷ []

-- Every signal can be set, and the program runs.
abbrev child_calls : Exec Record
child_calls = record {
  setpgid = λ pgid w. (true, w);
  receive_pgid = λ fd w. (some (pos 7), w);
  send_pgid = λ fd pgid w. (true, w);
  sigaction = λ default sig w. (true, w);
  dup2 = λ old new w. w;
  execvp = λ name argv w. (true, w);
}

main-KeepsTable_example :
    KeepsTable Unit (main recorder launcher child_calls childless (codes "jsh" ∷ []) lines [])
main-KeepsTable_example =
    main-KeepsTable recorder launcher child_calls childless (codes "jsh" ∷ []) lines []

abbrev reader : CommandCall
reader = record {
  name = codes "wc";
  argv = codes "wc" ∷ [];
  command_string = codes "wc";
  reading_pipes = 1 ∷ [];
  writing_pipes = [];
  stdin = pos 5;
  stdout = pos 1;
  stderr = pos 2;
}

abbrev piped : Command
piped = record {
  command_string = codes "a | b | wc";
  command_calls = reader ∷ [];
  background = false;
  open_pipes = (pos 3, pos 4) ∷ (pos 5, pos 6) ∷ [];
}

closes_first : contains (close_reading_pipes piped reader) (pos 3) ≡ true
unfolding close_reading_pipes contains
closes_first = refl

reader_closes :
    (k : ℕ) × ((w : ℤ) × ((get_elem? piped.open_pipes k ≡ some (pos 3, w))
        × (has_index (1 ∷ []) k ≡ false)))
reader_closes = close_reading_pipes-foreign piped reader (pos 3) closes_first
