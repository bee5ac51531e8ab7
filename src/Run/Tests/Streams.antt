-- ===== src/Run/Tests/Streams.antt =====
-- src/internals.c: the child of `ls | wc > f` that runs `wc`.
use jsh_tyy.Base.{refl, false, codes, List, [], ◌∷◌, ℕ, ℤ, pos}
use jsh_tyy.System.Copies.{tables, tables_exec, tables_streams}
use jsh_tyy.FdSet.{contains}
use jsh_tyy.Command.{CommandCall, Command}
use jsh_tyy.Run.Child.{run_child, close_reading_pipes, close_writing_pipes}
use jsh_tyy.Run.Child.Streams.{IsReady, RunsOn, child_closes, run_child-RunsOn}

abbrev wc : CommandCall
wc = record {
  name = codes "wc";
  argv = codes "wc" ∷ [];
  command_string = codes "wc > f";
  reading_pipes = 0 ∷ [];
  writing_pipes = [];
  stdin = pos 8;
  stdout = pos 5;
  stderr = pos 2;
}

abbrev counted : Command
counted = record {
  command_string = codes "ls | wc > f";
  command_calls = wc ∷ [];
  background = false;
  open_pipes = (pos 8, pos 9) ∷ [];
}

-- The pipe of the command is (8, 9), and its file 5; the others are those of the shell.
abbrev held : List (ℤ × ℕ)
held =
    (pos 0, 20)
    ∷ (pos 1, 21)
    ∷ (pos 2, 22)
    ∷ (pos 5, 25)
    ∷ (pos 8, 28)
    ∷ (pos 9, 29)
    ∷ (pos 13, 33)
    ∷ (pos 14, 34)
    ∷ (pos 15, 35)
    ∷ (pos 16, 36)
    ∷ []

wc-IsReady : IsReady tables tables_exec tables_streams held 28 25 22 (pos 9) wc (
    child_closes tables tables_exec tables_streams held counted wc
      (pos 13, pos 14)
      (pos 15, pos 16))
unfolding contains close_reading_pipes close_writing_pipes tables_streams
wc-IsReady = record {
  in_file = refl;
  out_file = refl;
  err_file = refl;
  in_kept = refl;
  out_kept = refl;
  err_kept = refl;
  out_apart = refl;
  err_apart = refl;
  err_apart' = refl;
  x_closed = refl;
  x_above = refl;
}

run_child-RunsOn_example :
    RunsOn tables tables_exec tables_streams held 28 25 22
      (pos 9)
      wc
      (run_child tables tables_exec counted wc (pos 13, pos 14) (pos 15, pos 16) held)
run_child-RunsOn_example =
    run_child-RunsOn tables tables_exec tables_streams held 28 25 22 (pos 9) counted wc (pos 13)
      (pos 14) (pos 15) (pos 16) wc-IsReady
