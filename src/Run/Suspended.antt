-- ===== src/Run/Suspended.antt =====
-- src/internals.c and src/jobs.c: a command that is stopped, and the name of its job.
use jsh_tyy.Base.{ℕ, suc, ◌<◌, ◌≡◌, true, false, codes, ◌++◌, none, some, ◌==ℤ◌, ℤ, pos, negsuc}
use jsh_tyy.System.{Os, Fork}
use jsh_tyy.Text.Number.{show_nat, intmax_max}
use jsh_tyy.Command.{Command, CommandResult}
use jsh_tyy.Jobs.{Job, is_finished_status}
use jsh_tyy.Jobs.Wait.{blocking_wait_for_job}
use jsh_tyy.Jobs.Table.Cells.{IsWellFormed, lowest_free}
use jsh_tyy.Jobs.Control.{find_job, found}
use jsh_tyy.Jobs.Control.Lookup.{find_job-slot}
use jsh_tyy.Proc.{Procs}
use jsh_tyy.Parse.Build.{close_pipes}
use jsh_tyy.Shell.{Shell}
use jsh_tyy.Shell.Internal.{Outcome, undefined, exits, returns}
use jsh_tyy.Run.{ExitInfo, execute_as_job, execute_command, alone, setup_job}
use jsh_tyy.Run.Results.{Returns, Entered}
use jsh_tyy.Run.Foreground.{execute_command-foreground}

-- The job has a number, under which it is found.
abbrev pub IsNamed : {W : Type 0} → Job → CommandResult → Shell W → Type 0
IsNamed j r sh =
    (id : ℕ) × ((r.job_id ≡ pos id)
      × (find_job sh.jobs (codes "%" ++ show_nat id) ≡ found (record j { id = id })))

Returns-map :
    {W A : Type 0} (P Q : A → Shell W → Type 0) (o : Outcome W A)
    → ((r : A) (sh : Shell W) → P r sh → Q r sh)
    → Returns P o
    → Returns Q o
Returns-map P Q undefined f h = h
Returns-map P Q (exits code sh) f h = h
Returns-map P Q (returns r sh) f h = f r sh h

Entered-IsNamed :
    {W : Type 0} (j : Job) (before : Shell W) (r : CommandResult) (after : Shell W)
    → lowest_free before.jobs.slots < intmax_max
    → Entered j before r after
    → IsNamed j r after
Entered-IsNamed j before r after few e =
    let n = lowest_free before.jobs.slots in
    (
      suc n,
      (
        e.added.number,
        find_job-slot after.jobs n (record j { id = suc n }) e.added.well_formed few
            e.added.entered,
      ),
    )

-- A command in the foreground that is stopped while the shell waits for it can be named: the command
-- returns the number of a job, and `%` with that number finds the job as it was when the wait ended.
-- The shell has got the terminal back, its table is well formed after the launch, and has no more
-- jobs than `intmax_t` has numbers.
pub execute_command-suspended :
    {W : Type 0} (os : Os W) (forks : Fork W) (procs : Procs W) (before : Shell W) (c : Command)
    (info : ExitInfo) (j : Job) (sh : Shell W) (code : ℤ) (j' : Job) (w : W)
    → alone os forks procs c.command_calls ≡ none
    → execute_as_job os forks procs before c (setup_job c) ≡ returns (some info, j) sh
    → c.background ≡ false
    → IsWellFormed sh.jobs
    → lowest_free sh.jobs.slots < intmax_max
    → blocking_wait_for_job os j (close_pipes os c.open_pipes sh.world) ≡ (code, j', w)
    → (code ==ℤ negsuc 0) ≡ false
    → is_finished_status j'.status ≡ false
    → (os.tcsetpgrp (os.getpgrp w) w).0 ≡ true
    → Returns (IsNamed j') (execute_command os forks procs before c)
execute_command-suspended os forks procs before c info j sh code j' w external launched fg wf few
      stops waited stopped back =
    let settled =
      execute_command-foreground os forks procs before c info j sh external launched code j' w fg wf
        stops in
    Returns-map (Entered j' sh) (IsNamed j') (execute_command os forks procs before c)
      (λ r after e. Entered-IsNamed j' sh r after few e) (rw (back, waited, stopped) at settled)
