-- ===== src/Run/Tests/Foreground.antt =====
-- src/internals.c: a command in the foreground, one in the background, and the terminal.
use jsh_tyy.Base.{
  ◌<◌, ◌^◌, arith, ◌≡◌, refl, Bool, true, false, codes, List, [], ◌∷◌, Option, none, some, ℤ, pos,
  negsuc, ◌==ℤ◌, Bool-cases, inl, inr,
}
use jsh_tyy.System.{Os, esrch}
use jsh_tyy.System.Console.{console, one_child, console_terminal}
use jsh_tyy.Command.{CommandCall, Command, is_internal_command}
use jsh_tyy.Jobs.{Job, Subjob, running, done, new_job, new_subjob}
use jsh_tyy.Jobs.Table.Update.{init_job_table-IsWellFormed}
use jsh_tyy.Proc.{Procs}
use jsh_tyy.Shell.{Shell, init_internals}
use jsh_tyy.Shell.Internal.{returns}
use jsh_tyy.Jobs.Table.{are_jobs_running}
use jsh_tyy.Jobs.Table.Cells.{IsWellFormed}
use jsh_tyy.Shell.Exit.{updated}
use jsh_tyy.Run.Results.{Returns, Detached, SettlesOnTerminal}
use jsh_tyy.Run.Foreground.{execute_command-foreground, execute_command-background}
use jsh_tyy.Run.Terminal.{HasTerminal, execute_command-HasTerminal, execute_command-launch_failure}
use jsh_tyy.Run.Launch.{ForksWell, SubjobsOf, leader}
use jsh_tyy.Run.Launch.Loop.{execute_as_job-SubjobsOf}
use jsh_tyy.Run.Loop.{prompt}
use jsh_tyy.Run.End.{prompt-end_of_input}
use jsh_tyy.Run.{
  ExitInfo, alone, execute_as_job, setup_job, execute_command, execute_single_command, print_error,
}
use jsh_tyy.Text.{str_eq}
use jsh_tyy.Text.Tokens.{Lacks}
use jsh_tyy.Jobs.Wait.{blocking_wait_for_job, update_jobs}
use jsh_tyy.Parse.Build.{close_pipes}
use jsh_tyy.Jobs.Status.{update_job_status}
use jsh_tyy.Jobs.{
  job_status_from_int, is_finished_status, is_job_running, is_job_suspended, is_job_finished,
  is_job_killed,
}

-- No group is there any more.
abbrev tty : Os ℤ
tty = console (some esrch)

-- No process has a child.
abbrev pub childless : Procs ℤ
childless = record { bufsiz = 8192; stack = 100; open_file = λ path w. some [] }

abbrev pub wc : CommandCall
wc = record {
  name = codes "wc";
  argv = codes "wc" ∷ [];
  command_string = codes "wc";
  reading_pipes = [];
  writing_pipes = [];
  stdin = pos 0;
  stdout = pos 1;
  stderr = pos 2;
}

abbrev pub command_of : Bool → List CommandCall → Command
command_of background calls = record {
  command_string = codes "wc";
  command_calls = calls;
  background = background;
  open_pipes = [];
}

-- The terminal is the shell's.
abbrev pub start : Shell ℤ
start = init_internals (pos 1)

abbrev pub one : Command
one = command_of false (wc ∷ [])

abbrev two : Command
two = command_of false (wc ∷ wc ∷ [])

abbrev behind : Command
behind = command_of true (wc ∷ [])

abbrev pub job_with : List (Option Subjob) → Job
job_with subjobs = record {
  id = 0;
  status = running;
  pgid = pos 7;
  command_string = codes "wc";
  subjobs = subjobs;
}

abbrev pub subjob : Subjob
subjob = record { command = codes "wc"; pid = pos 7; last_status = running }

abbrev pub job : Job
job = job_with (some subjob ∷ [])

-- The job after the wait.
abbrev ended : Job
ended = record (job_with (some (record subjob { last_status = done }) ∷ [])) { status = done }

-- The child has the terminal.
abbrev pub given : Shell ℤ
given = record start { world = pos 7 }

abbrev pub info : ExitInfo
info = record { pid = pos 7; exit_code = negsuc 0 }

table-IsWellFormed : IsWellFormed given.jobs
unfolding init_internals
table-IsWellFormed = init_job_table-IsWellFormed

stays : start.should_exit ≡ false
unfolding init_internals
stays = refl

external : alone tty one_child childless (wc ∷ []) ≡ none
unfolding alone is_internal_command str_eq
external = refl

is_launched :
    (background : Bool)
    → execute_as_job tty one_child childless start
        (command_of background (wc ∷ []))
        (setup_job (command_of background (wc ∷ [])))
      ≡ returns (some info, job) given
unfolding execute_as_job setup_job new_job execute_single_command is_internal_command str_eq
    new_subjob init_internals
is_launched background = refl

is_waited : blocking_wait_for_job tty job (close_pipes tty [] (pos 7)) ≡ (pos 3, ended, pos 7)
unfolding blocking_wait_for_job close_pipes update_job_status job_status_from_int is_finished_status
    is_job_running is_job_suspended is_job_finished is_job_killed
is_waited = refl

execute_command-foreground_example :
    SettlesOnTerminal true false true info
      (pos 3)
      ended
      given
      (execute_command tty one_child childless start one)
unfolding is_finished_status
execute_command-foreground_example =
    execute_command-foreground tty one_child childless start one info job given external
      (is_launched false) (pos 3) ended (pos 7) refl table-IsWellFormed is_waited

execute_command-background_example :
    Returns (Detached tty behind job given) (execute_command tty one_child childless start behind)
execute_command-background_example =
    execute_command-background tty one_child childless start behind info job given external
      (is_launched true) refl table-IsWellFormed

execute_command-HasTerminal_example :
    HasTerminal tty
      (console_terminal (some esrch))
      (execute_command tty one_child childless start one)
execute_command-HasTerminal_example =
    execute_command-HasTerminal tty (console_terminal (some esrch)) one_child childless start one
      info job given external (is_launched false) refl

-- The second call cannot be launched, and the terminal stays with the group of the first one.
abbrev half : Job
half = job_with (some subjob ∷ none ∷ [])

half_launched :
    execute_as_job tty one_child childless start two (setup_job two) ≡ returns (none, half) given
unfolding execute_as_job setup_job new_job execute_single_command is_internal_command str_eq
    new_subjob init_internals print_error
half_launched = refl

execute_command-launch_failure_example :
    Returns
      (λ r after.
        (r.exit_code ≡ pos 1)
        × ((after.last_exit_code ≡ pos 1) × ((after.jobs ≡ given.jobs) × (after.world ≡ pos 7))))
      (execute_command tty one_child childless start two)
unfolding alone
execute_command-launch_failure_example =
    execute_command-launch_failure tty (console_terminal (some esrch)) one_child childless start two
      half given refl half_launched

forks_well : ForksWell one_child
forks_well w = elim (Bool-cases (w ==ℤ pos 7)) [
  | inl taken ↦ inl (rw taken)
  | inr free ↦ inr (6, rw free)
]

execute_as_job-SubjobsOf_example : SubjobsOf (wc ∷ []) job.subjobs × (job.pgid ≡ leader job.subjobs)
execute_as_job-SubjobsOf_example =
    execute_as_job-SubjobsOf tty one_child childless start one info job given forks_well
      (is_launched false)

idle : are_jobs_running (updated tty (updated tty start)).jobs.slots ≡ false
unfolding are_jobs_running updated init_internals update_jobs
idle = refl

home-Lacks : Lacks 0 (codes "/home")
home-Lacks = grind arith

small_table : (updated tty start).jobs.size < 2 ^ 64
unfolding updated init_internals update_jobs
small_table = omega arith

prompt-end_of_input_example :
    Returns
      (λ o' after. (after.should_exit ≡ true) × (after.last_exit_code ≡ start.last_exit_code))
      (prompt tty one_child childless (none ∷ some (codes "wc") ∷ []) none start)
prompt-end_of_input_example =
    prompt-end_of_input tty one_child childless (some (codes "wc") ∷ []) none start (codes "/home")
      stays refl home-Lacks small_table idle
