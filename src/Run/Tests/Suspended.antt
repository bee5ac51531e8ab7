-- ===== src/Run/Tests/Suspended.antt =====
-- src/internals.c: a command that is stopped by SIGTSTP.
use jsh_tyy.Base.{◌<◌, ◌≡◌, refl, false, [], ◌∷◌, none, some, ℤ, pos, arith}
use jsh_tyy.System.{Os, esrch}
use jsh_tyy.System.Console.{console, one_child}
use jsh_tyy.Text.{str_eq}
use jsh_tyy.Text.Number.{intmax_max}
use jsh_tyy.Command.{is_internal_command}
use jsh_tyy.Jobs.{
  Job, stopped, new_job, new_subjob, job_status_from_int, is_finished_status, is_job_running,
  is_job_suspended,
}
use jsh_tyy.Jobs.Status.{update_job_status}
use jsh_tyy.Jobs.Wait.{blocking_wait_for_job}
use jsh_tyy.Jobs.Table.Cells.{IsWellFormed, lowest_free}
use jsh_tyy.Jobs.Table.Update.{init_job_table-IsWellFormed}
use jsh_tyy.Parse.Build.{close_pipes}
use jsh_tyy.Shell.{init_internals}
use jsh_tyy.Shell.Internal.{returns}
use jsh_tyy.Run.{execute_as_job, execute_command, execute_single_command, alone, setup_job}
use jsh_tyy.Run.Results.{Returns}
use jsh_tyy.Run.Suspended.{IsNamed, execute_command-suspended}
use jsh_tyy.Run.Tests.Foreground.{childless, wc, start, one, subjob, job, given, info, job_with}

abbrev tty : Os ℤ
tty = record (console (some esrch)) { waitpid = λ pid mode w. (pos 7, 5247, w) }

-- The job after the wait.
abbrev halted : Job
halted = record (job_with (some (record subjob { last_status = stopped }) ∷ [])) {
  status = stopped;
}

external : alone tty one_child childless (wc ∷ []) ≡ none
unfolding alone is_internal_command str_eq
external = refl

is_launched :
    execute_as_job tty one_child childless start one (setup_job one)
    ≡ returns (some info, job) given
unfolding execute_as_job setup_job new_job execute_single_command is_internal_command str_eq
    new_subjob init_internals
is_launched = refl

is_halted : blocking_wait_for_job tty job (close_pipes tty [] (pos 7)) ≡ (pos 0, halted, pos 7)
unfolding blocking_wait_for_job close_pipes update_job_status job_status_from_int is_finished_status
    is_job_running is_job_suspended
is_halted = refl

table-IsWellFormed : IsWellFormed given.jobs
unfolding init_internals
table-IsWellFormed = init_job_table-IsWellFormed

few_jobs : lowest_free given.jobs.slots < intmax_max
unfolding init_internals
few_jobs = omega arith

still_there : is_finished_status halted.status ≡ false
unfolding is_finished_status
still_there = refl

execute_command-suspended_example :
    Returns (IsNamed halted) (execute_command tty one_child childless start one)
execute_command-suspended_example =
    execute_command-suspended tty one_child childless start one info job given (pos 0) halted
      (pos 7) external is_launched refl table-IsWellFormed few_jobs is_halted refl still_there refl
