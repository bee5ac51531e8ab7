-- ===== src/Shell/Internal.antt =====
-- src/internals.c: `execute_internal_command`, and how a step of the shell ends.
pub mod Table
use jsh_tyy.Base.{codes, Option, none, some, if◌then◌else◌, ℤ, pos}
use jsh_tyy.System.{Os}
use jsh_tyy.Text.{str_eq}
use jsh_tyy.Command.{CommandCall}
use jsh_tyy.Jobs.Table.{JobTable}
use jsh_tyy.Proc.{Procs}
use jsh_tyy.Jobs.Listing.{jobs_command}
use jsh_tyy.Shell.{Shell}
use jsh_tyy.Shell.Cd.{cd}
use jsh_tyy.Shell.Exit.{exit_command, last_exit_code_command, pwd}
use jsh_tyy.Shell.Kill.{kill_command, fg_command, bg_command}

-- A step of the shell: `undefined` is undefined behaviour, `exits` the end of the shell.
pub data Outcome (W : Type 0) (A : Type 0) : Type 0 where
  undefined : Outcome W A
  exits : ℤ → Shell W → Outcome W A
  returns : A → Shell W → Outcome W A

module _ {W : Type 0} (os : Os W) (procs : Procs W) where
  ended : ℤ × Shell W → Outcome W ℤ
  ended (code, sh) = returns code sh

  ended_or_not : Option (ℤ × Shell W) → Outcome W ℤ
  unfolding ended
  ended_or_not none = undefined
  ended_or_not (some r) = ended r

  after_kill : Shell W → ℤ × W → Outcome W ℤ
  after_kill sh (code, w) = returns code (record sh { world = w })

  listed : Shell W → Option (ℤ × JobTable × W) → Outcome W ℤ
  listed sh none = undefined
  listed sh (some (code, t, w)) = returns code (record sh { jobs = t; world = w })

  unfoldable pub execute_internal_command : Shell W → CommandCall → Outcome W ℤ
  unfolding ended ended_or_not after_kill listed
  execute_internal_command sh call =
      if str_eq call.name (codes "cd")
      then ended (cd os sh call)
      else if str_eq call.name (codes "?")
      then ended (last_exit_code_command os sh call)
      else if str_eq call.name (codes "exit")
      then ended (exit_command os sh call)
      else if str_eq call.name (codes "pwd")
      then ended_or_not (pwd os sh call)
      else if str_eq call.name (codes "jobs")
      then listed sh (jobs_command os procs sh.jobs call sh.world)
      else if str_eq call.name (codes "kill")
      then after_kill sh (kill_command os sh call)
      else if str_eq call.name (codes "fg")
      then ended (fg_command os sh call)
      else if str_eq call.name (codes "bg")
      then ended (bg_command os sh call)
      else returns (pos 0) sh
