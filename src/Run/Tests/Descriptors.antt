-- ===== src/Run/Tests/Descriptors.antt =====
-- src/internals.c: the descriptors of a pipeline that writes to a file.
use jsh_tyy.Base.{refl, false, codes, List, [], ◌∷◌, some, ℤ, pos}
use jsh_tyy.System.Files.{files, files_forks, files_descriptors}
use jsh_tyy.FdSet.{contains, contains2}
use jsh_tyy.Command.{CommandCall, Command}
use jsh_tyy.Proc.{Procs}
use jsh_tyy.Parse.Build.{ends}
use jsh_tyy.Shell.{Shell, init_internals}
use jsh_tyy.Run.{execute_command, alone}
use jsh_tyy.Run.Descriptors.{ReturnsShut, execute_command-ReturnsShut}

-- No process has a child.
abbrev childless : Procs (List ℤ)
childless = record { bufsiz = 8192; stack = 100; open_file = λ path w. some [] }

abbrev ls : CommandCall
ls = record {
  name = codes "ls";
  argv = codes "ls" ∷ [];
  command_string = codes "ls ";
  reading_pipes = [];
  writing_pipes = 0 ∷ [];
  stdin = pos 0;
  stdout = pos 9;
  stderr = pos 2;
}

abbrev wc : CommandCall
wc = record {
  name = codes "wc";
  argv = codes "wc" ∷ [];
  command_string = codes "wc > f";
  reading_pipes = 0 ∷ [];
  writing_pipes = [];
  stdin = pos 8;
  stdout = pos 5;
  stderr = pos 2;
}

-- `ls | wc > f`, its pipe being (8, 9) and its file 5.
abbrev counted : Command
counted = record {
  command_string = codes "ls | wc > f";
  command_calls = wc ∷ ls ∷ [];
  background = false;
  open_pipes = (pos 8, pos 9) ∷ [];
}

abbrev start : Shell (List ℤ)
start = init_internals (pos 0 ∷ pos 1 ∷ pos 2 ∷ pos 5 ∷ pos 8 ∷ pos 9 ∷ [])

execute_command-ReturnsShut_example :
    ReturnsShut files files_descriptors files_forks childless
      (pos 5)
      (execute_command files files_forks childless start counted)
unfolding contains2 contains ends alone
execute_command-ReturnsShut_example =
    execute_command-ReturnsShut files files_descriptors files_forks childless (pos 5) start counted
      refl refl
