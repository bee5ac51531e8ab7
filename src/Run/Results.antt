-- ===== src/Run/Results.antt =====
-- src/internals.c: what `execute_command` can return, and the shell after it.
use jsh_tyy.Base.{suc, Bool, true, false, ◌≡◌, if◌then◌else◌, ℤ, pos}
use jsh_tyy.System.{Os}
use jsh_tyy.Command.{Command, CommandResult}
use jsh_tyy.Jobs.{Job}
use jsh_tyy.Jobs.Table.Cells.{lowest_free}
use jsh_tyy.Jobs.Table.Update.{Added}
use jsh_tyy.Jobs.Wait.{print_job}
use jsh_tyy.Parse.Build.{close_pipes, close_unused_file_descriptors, ends}
use jsh_tyy.Shell.{Shell}
use jsh_tyy.Shell.Internal.{Outcome, undefined, exits, returns}
use jsh_tyy.Run.{ExitInfo, has_exit_code}

-- The command has ended with the status `code`, which the shell remembers; the table is as before.
pub record Ended {W : Type 0} (code : ℤ) (before : Shell W) (r : CommandResult) (after : Shell W)
    : Type 0 where
  pub exit_code : r.exit_code ≡ code
  pub remembered : after.last_exit_code ≡ code
  pub same_jobs : after.jobs ≡ before.jobs
  pub same_exit : after.should_exit ≡ before.should_exit

-- The job has entered the table, and the status is 0.
pub record Entered {W : Type 0} (j : Job) (before : Shell W) (r : CommandResult) (after : Shell W)
    : Type 0 where
  pub added : Added before.jobs j (after.jobs, r.job_id)
  pub exit_code : r.exit_code ≡ pos 0
  pub remembered : after.last_exit_code ≡ pos 0
  pub same_exit : after.should_exit ≡ before.should_exit

-- The job `j` of the command has entered the table with the status 0, and since its calls were
-- launched, in the state `before`, all that was done to the world is that the pipes of the command
-- were closed, that the job was printed with its number, and that the descriptors of the calls were
-- closed: there was no call of `waitpid`, and none for the terminal.
pub record Detached {W : Type 0} (os : Os W) (c : Command) (j : Job) (before : Shell W)
    (r : CommandResult) (after : Shell W) : Type 0 where
  pub entered : Entered j before r after
  pub untouched :
      after.world
      ≡ close_unused_file_descriptors os (ends os c.open_pipes) c.command_calls (
          print_job os
            (record j { id = suc (lowest_free before.jobs.slots) })
            (pos 2)
            (close_pipes os c.open_pipes before.world))

-- The step returns, and `P` holds of what it returns.
abbrev pub Returns : {W A : Type 0} → (A → Shell W → Type 0) → Outcome W A → Type 0
Returns P undefined = ⊥
Returns P (exits code sh) = ⊥
Returns P (returns a sh) = P a sh

-- The status of a job that has ended: that of its first call, if that one is internal.
abbrev pub status_of : ExitInfo → ℤ → ℤ
status_of info code = if has_exit_code info then info.exit_code else code

-- What the shell does after the wait with the result `code`, by whether it failed and whether the job
-- has then ended.
abbrev pub Settles :
    {W : Type 0} → Bool → Bool → ExitInfo → ℤ → Job → Shell W → CommandResult → Shell W → Type 0
Settles true finished info code j before = Ended (pos 1) before
Settles false true info code j before = Ended (status_of info code) before
Settles false false info code j before = Entered j before

-- The same, by whether the shell gets the terminal back; it exits with the code 1 if not.
abbrev pub SettlesOnTerminal :
    {W : Type 0}
    → Bool
    → Bool
    → Bool
    → ExitInfo
    → ℤ
    → Job
    → Shell W
    → Outcome W CommandResult
    → Type 0
SettlesOnTerminal false failed finished info code j before undefined = ⊥
SettlesOnTerminal false failed finished info code j before (exits code' sh) = code' ≡ pos 1
SettlesOnTerminal false failed finished info code j before (returns r sh) = ⊥
SettlesOnTerminal true failed finished info code j before o =
    Returns (Settles failed finished info code j before) o
