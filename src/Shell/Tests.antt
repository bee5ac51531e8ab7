-- ===== src/Shell/Tests.antt =====
-- src/exit.c, src/cd.c and src/kill.c: the theorems at concrete commands.
use jsh_tyy.Base.{
  suc, ◌≡◌, refl, true, false, Bytes, codes, List, [], ◌∷◌, ◌++◌, none, some, ℤ, pos, negsuc, arith,
}
use jsh_tyy.System.{esrch}
use jsh_tyy.System.Recorder.{Record, recorder}
use jsh_tyy.System.Console.{console, console_terminal}
use jsh_tyy.Jobs.Control.{find_job}
use jsh_tyy.Jobs.Control.Lookup.{find_job-slot}
use jsh_tyy.Shell.Kill.Foreground.{fg_command-terminal, fg_command-refused}
use jsh_tyy.Text.Number.{show_nat, show_int}
use jsh_tyy.Command.{CommandCall}
use jsh_tyy.Jobs.{Job, running}
use jsh_tyy.Jobs.Table.{JobTable, are_jobs_running, slot}
use jsh_tyy.Jobs.Table.Cells.{IsWellFormed}
use jsh_tyy.Shell.{Shell}
use jsh_tyy.Shell.Exit.{exit_command, updated}
use jsh_tyy.Shell.Exit.Status.{IsStatus, exit_command-should_exit}
use jsh_tyy.Shell.Cd.{cd, set_new_cwd}
use jsh_tyy.Shell.Cd.Previous.{cd-lwd}
use jsh_tyy.Shell.Kill.{kill_command, fg_command, fg_found}
use jsh_tyy.Shell.Kill.Target.{kill_command-pid}

abbrev job : Job
job = record { id = 2; status = running; pgid = pos 7; command_string = codes "wc"; subjobs = [] }

abbrev table : JobTable
table = record { slots = none ∷ some job ∷ []; size = 1; capacity = 2 }

table-IsWellFormed : IsWellFormed table
table-IsWellFormed = record { fits = refl; counted = refl; numbered = (refl, tt) }

abbrev shell : Shell Record
shell = record {
  world = [];
  jobs = table;
  last_exit_code = pos 1;
  should_exit = false;
  lwd = codes "/tmp";
}

abbrev call_of : List Bytes → CommandCall
call_of argv = record {
  name = [];
  argv = argv;
  command_string = [];
  reading_pipes = [];
  writing_pipes = [];
  stdin = pos 0;
  stdout = pos 1;
  stderr = pos 2;
}

abbrev exit_call : CommandCall
exit_call = call_of (codes "exit" ∷ codes "42" ∷ [])

exits : (exit_command recorder shell exit_call).1.should_exit ≡ true
unfolding exit_command updated are_jobs_running jsh_tyy.Jobs.Wait.update_jobs
    jsh_tyy.Jobs.is_job_finished jsh_tyy.Jobs.Status.update_job_status jsh_tyy.Jobs.is_job_running
    jsh_tyy.Jobs.is_job_suspended jsh_tyy.Jobs.Table.remove_job jsh_tyy.Shell.Exit.exit_with
    jsh_tyy.Text.Number.parse_intmax_t jsh_tyy.Text.Number.strtoimax jsh_tyy.Text.Number.clamp
exits = refl

exit_command-should_exit_example :
    (are_jobs_running (updated recorder shell).jobs.slots ≡ false)
    × (((exit_command recorder shell exit_call).0
          ≡ (exit_command recorder shell exit_call).1.last_exit_code)
        × IsStatus (exit_command recorder shell exit_call).1.last_exit_code)
exit_command-should_exit_example =
    exit_command-should_exit recorder shell exit_call refl (omega arith) exits

abbrev cd_call : CommandCall
cd_call = call_of (codes "cd" ∷ codes "-" ∷ [])

cd_succeeds : (cd recorder shell cd_call).0 ≡ pos 0
unfolding cd jsh_tyy.Text.str_eq jsh_tyy.Shell.Cd.is_lwd_set set_new_cwd
cd_succeeds = refl

cd-lwd_example : recorder.getcwd [] ≡ some (cd recorder shell cd_call).1.lwd
cd-lwd_example = cd-lwd recorder shell cd_call cd_succeeds

abbrev kill_pid_call : CommandCall
kill_pid_call = call_of (codes "kill" ∷ (codes "-" ++ show_int (pos 9)) ∷ show_int (negsuc 41) ∷ [])

kill_command-pid_example :
    kill_command recorder shell kill_pid_call ≡ (pos 0, (negsuc 41, pos 9) ∷ [])
kill_command-pid_example =
    kill_command-pid recorder shell kill_pid_call (pos 9) (negsuc 41) ((negsuc 41, pos 9) ∷ []) refl
      (omega arith) (omega arith) refl

abbrev kill_job_call : CommandCall
kill_job_call = call_of (codes "kill" ∷ (codes "%" ++ show_nat (suc 1)) ∷ [])

-- The same shell on a terminal that it has.
abbrev shell_at : ℤ → Shell ℤ
shell_at owner = record {
  world = owner;
  jobs = table;
  last_exit_code = pos 1;
  should_exit = false;
  lwd = [];
}

abbrev fg_call : CommandCall
fg_call = call_of (codes "fg" ∷ (codes "%" ++ show_nat (suc 1)) ∷ [])

fg_succeeds : (fg_command (console none) (shell_at (pos 1)) fg_call).0 ≡ pos 0
unfolding fg_command fg_found find_job show_nat jsh_tyy.Text.starts_with
    jsh_tyy.Text.Number.parse_intmax_t jsh_tyy.Text.Number.strtoimax jsh_tyy.Text.Number.clamp
    jsh_tyy.Jobs.Control.put_job_in_foreground jsh_tyy.Jobs.Wait.blocking_wait_for_job
    jsh_tyy.Jobs.is_job_finished jsh_tyy.Jobs.Status.update_job_status jsh_tyy.Jobs.is_job_running
    jsh_tyy.Jobs.is_job_suspended
fg_succeeds = refl

fg_command-terminal_example : (fg_command (console none) (shell_at (pos 1)) fg_call).1.world ≡ pos 1
fg_command-terminal_example =
    fg_command-terminal (console none) (console_terminal none) (shell_at (pos 1)) fg_call
      fg_succeeds

fg_command-refused_example :
    ((fg_command (console (some esrch)) (shell_at (pos 1)) fg_call).0 ≡ pos 1)
    × ((fg_command (console (some esrch)) (shell_at (pos 1)) fg_call).1.world ≡ pos 7)
fg_command-refused_example =
    fg_command-refused (console (some esrch)) (console_terminal (some esrch)) (shell_at (pos 1))
      fg_call job esrch refl (find_job-slot table 1 job table-IsWellFormed (omega arith) refl) refl
      refl
