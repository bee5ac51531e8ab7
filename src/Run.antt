-- ===== src/Run.antt =====
-- src/internals.c: the execution of a command by the shell. A child that is forked is another
-- process: of it the shell sees what the pipes tell and what `waitpid` reports.
mod Tests
pub mod Child
pub mod Invariant
pub mod Loop
pub mod Results
pub mod Foreground
pub mod Terminal
pub mod Suspended
pub mod Descriptors
pub mod Launch
pub mod End
pub mod Main
use jsh_tyy.Base.{
  ℕ, zero, suc, ◌+◌, ◌==◌, Bool, true, false, not, ◌||◌, ◌&&◌, Bytes, codes, List, [], ◌∷◌, ◌++◌,
  Option, none, some, if◌then◌else◌, ◌==ℤ◌, ℤ, pos, negsuc, neg, set, length,
}
use jsh_tyy.System.{Os, report_error, Fork}
use jsh_tyy.Text.{str_eq}
use jsh_tyy.Command.{
  CommandCall, Command, CommandResult, new_command_result, is_internal_command, uninitialized_pid,
}
use jsh_tyy.Parse.Build.{close_unused_file_descriptors, close_pipes, ends}
use jsh_tyy.Jobs.{
  Job, Subjob, JobStatus, running, stopped, new_job, new_subjob, is, is_finished_status,
}
use jsh_tyy.Jobs.Table.{JobTable, add_job}
use jsh_tyy.Jobs.Wait.{blocking_wait_for_job, print_job}
use jsh_tyy.Proc.{Procs}
use jsh_tyy.Jobs.Listing.{jobs_command}
use jsh_tyy.Shell.{Shell}
use jsh_tyy.Shell.Internal.{Outcome, undefined, exits, returns, execute_internal_command}
use jsh_tyy.Shell.Cd.{cd}
use jsh_tyy.Shell.Exit.{exit_command, last_exit_code_command, pwd}
use jsh_tyy.Shell.Kill.{kill_command, fg_command, bg_command}

-- UNINITIALIZED_EXIT_CODE is -1.
pub record ExitInfo : Type 0 where
  pub pid : ℤ
  pub exit_code : ℤ

unfoldable pub has_exit_code : ExitInfo → Bool
has_exit_code info = not (info.exit_code ==ℤ negsuc 0)

unfoldable pub setup_job : Command → Job
setup_job c = new_job (length c.command_calls) c.command_string

abbrev sigkill : ℤ
sigkill = pos 9

module _ {W : Type 0} (os : Os W) (forks : Fork W) (procs : Procs W) where
  unfoldable pub in_world : (W → W) → Shell W → Shell W
  in_world f sh = record sh { world = f sh.world }

  unfoldable pub print_error : Bytes → Shell W → Shell W
  print_error name sh = record sh { world = report_error os name sh.world }

  -- What `execute_single_command` returns, NULL being `none`, with the process group of the job.
  abbrev Started : Type 0
  Started = Option ExitInfo × ℤ

  internal : ℤ → Outcome W ℤ → Outcome W Started
  internal pgid undefined = undefined
  internal pgid (exits code sh) = exits code sh
  internal pgid (returns code sh) =
      returns (some (record { pid = uninitialized_pid; exit_code = code }), pgid) sh

  -- The child's answer, read from the second pipe.
  answered : ℤ → ℤ → ℤ → Shell W → Bool × W → Outcome W Started
  answered pid pgid reading sh (false, w) =
      returns (none, pgid)
        (in_world (λ w'. (os.kill pid sigkill w').1)
          (print_error (codes "read") (record sh { world = w })))
  answered pid pgid reading sh (true, w) =
      returns (some (record { pid = pid; exit_code = negsuc 0 }), pgid)
        (record sh { world = os.close reading w })

  -- The process group has been written to the first pipe.
  told : ℤ → ℤ → ℤ → ℤ → Shell W → Bool × W → Outcome W Started
  unfolding answered in_world
  told pid pgid writing reading sh (false, w) =
      returns (none, pgid)
        (in_world (λ w'. (os.kill pid sigkill w').1)
          (print_error (codes "write") (record sh { world = w })))
  told pid pgid writing reading sh (true, w) =
      answered pid pgid reading sh (forks.read_pgid reading (os.close writing w))

  -- The parent's side of `fork`.
  forked : ℤ → ℤ × ℤ → ℤ × ℤ → Shell W → ℤ × W → Outcome W Started
  unfolding told
  forked pgid (reading, writing) (reading', writing') sh (pid, w) =
      let pgid' = if pgid ==ℤ pos 0 then pid else pgid in
      let w' = os.close writing' (os.close reading w) in
      if pid ==ℤ negsuc 0
      then returns (none, pgid) (print_error (codes "fork") (record sh { world = w }))
      else told pid pgid' writing reading' sh (forks.write_pgid writing pgid' w')

  second_pipe : ℤ → ℤ × ℤ → Shell W → Option (ℤ × ℤ) × W → Outcome W Started
  unfolding forked
  second_pipe pgid first sh (none, w) =
      returns (none, pgid) (print_error (codes "pipe") (record sh { world = w }))
  second_pipe pgid first sh (some second, w) = forked pgid first second sh (forks.fork w)

  first_pipe : ℤ → Shell W → Option (ℤ × ℤ) × W → Outcome W Started
  unfolding second_pipe
  first_pipe pgid sh (none, w) =
      returns (none, pgid) (print_error (codes "pipe") (record sh { world = w }))
  first_pipe pgid sh (some first, w) = second_pipe pgid first sh (os.pipe w)

  unfoldable pub execute_single_command : Shell W → CommandCall → ℤ → Outcome W Started
  unfolding internal first_pipe
  execute_single_command sh call pgid =
      if is_internal_command call
      then internal pgid (execute_internal_command os procs sh call)
      else first_pipe pgid sh (os.pipe sh.world)

  -- The loop of `execute_as_job` from call `i`, with the information on the first call.
  abbrev Launched : Type 0
  Launched = Option ExitInfo × Job

  kill_group : ℤ → Shell W → Shell W
  unfolding in_world
  kill_group pgid sh =
      if pgid ==ℤ pos 0 then sh else in_world (λ w. (os.kill (neg pgid) sigkill w).1) sh

  unfoldable pub with_subjob : ℕ → CommandCall → ExitInfo → Job → Job
  with_subjob i call info j = if info.pid ==ℤ uninitialized_pid then j else record j {
    subjobs = set j.subjobs i (some (new_subjob call.command_string info.pid running));
  }

  -- One turn of the loop; `next` is the rest of it.
  unfoldable pub launched :
      ℕ
      → Option ExitInfo
      → CommandCall
      → Job
      → (Option ExitInfo → Job → Shell W → Outcome W Launched)
      → Outcome W Started
      → Outcome W Launched
  unfolding kill_group with_subjob
  launched i first call j next undefined = undefined
  launched i first call j next (exits code sh) = exits code sh
  launched i first call j next (returns (none, pgid) sh) =
      returns (none, record j { pgid = pgid }) (kill_group pgid sh)
  launched i first call j next (returns (some info, pgid) sh) =
      next (if i == 0 then some info else first)
        (with_subjob i call info (record j { pgid = pgid })) sh

  unfoldable pub launch_loop :
      ℕ → List CommandCall → Option ExitInfo → Job → Shell W → Outcome W Launched
  unfolding launched
  launch_loop i [] first j sh = returns (first, j) sh
  launch_loop i (call ∷ calls) first j sh =
      launched i first call j (launch_loop (i + 1) calls) (execute_single_command sh call j.pgid)

  unfoldable pub execute_as_job : Shell W → Command → Job → Outcome W Launched
  unfolding launch_loop
  execute_as_job sh c j = launch_loop 0 c.command_calls none j sh

  -- The job enters the table, in the background or because it is stopped. In both cases the result
  -- has its number and the id of its process, also where the command was run in the foreground.
  unfoldable pub registered : ExitInfo → Job → JobTable × ℤ → Shell W → Outcome W CommandResult
  registered info j (t, negsuc n) sh =
      returns (record { exit_code = pos 0; pid = info.pid; job_id = negsuc n })
        (record sh { jobs = t; world = print_job os j (pos 2) sh.world })
  registered info j (t, pos id) sh =
      returns (record { exit_code = pos 0; pid = info.pid; job_id = pos id })
        (record sh { jobs = t; world = print_job os (record j { id = id }) (pos 2) sh.world })

  -- The wait is over and the terminal is the shell's again.
  waited : ExitInfo → ℤ → Job → Shell W → Outcome W CommandResult
  unfolding registered
  waited info code j sh =
      if code ==ℤ negsuc 0
      then returns (new_command_result (pos 1)) (print_error (codes "waitpid") sh)
      else if is_finished_status j.status
      then returns (new_command_result (if has_exit_code info then info.exit_code else code)) sh
      else registered info j (add_job sh.jobs (some j)) sh

  back : ExitInfo → ℤ → Job → Shell W → Bool × W → Outcome W CommandResult
  unfolding waited
  back info code j sh (false, w) =
      exits (pos 1) (print_error (codes "tcsetpgrp") (record sh { world = w }))
  back info code j sh (true, w) = waited info code j (record sh { world = w })

  unfoldable pub in_foreground : ExitInfo → Shell W → ℤ × Job × W → Outcome W CommandResult
  unfolding back
  in_foreground info sh (code, j, w) = back info code j sh (os.tcsetpgrp (os.getpgrp w) w)

  -- The calls have been launched, and the pipes of the command are closed.
  unfoldable pub dispatched : Command → Outcome W Launched → Outcome W CommandResult
  unfolding in_foreground close_pipes
  dispatched c undefined = undefined
  dispatched c (exits code sh) = exits code sh
  dispatched c (returns (none, j) sh) =
      returns (new_command_result (pos 1))
        (record sh { world = close_pipes os c.open_pipes sh.world })
  dispatched c (returns (some info, j) sh) =
      let sh' = record sh { world = close_pipes os c.open_pipes sh.world } in
      if not c.background
      then in_foreground info sh' (blocking_wait_for_job os j sh'.world)
      else registered info j (add_job sh'.jobs (some j)) sh'

  unfoldable pub execute_external_command : Shell W → Command → Outcome W CommandResult
  unfolding dispatched
  execute_external_command sh c = dispatched c (execute_as_job sh c (setup_job c))

  unfoldable pub update_command_history : CommandResult → Shell W → Shell W
  update_command_history r sh = record sh { last_exit_code = r.exit_code }

  unfoldable pub concluded : Command → Outcome W CommandResult → Outcome W CommandResult
  unfolding ends
  concluded c undefined = undefined
  concluded c (exits code sh) = exits code sh
  concluded c (returns r sh) =
      let w = close_unused_file_descriptors os (ends os c.open_pipes) c.command_calls sh.world in
      returns r (update_command_history r (record sh { world = w }))

  as_result : Outcome W ℤ → Outcome W CommandResult
  as_result undefined = undefined
  as_result (exits code sh) = exits code sh
  as_result (returns code sh) = returns (new_command_result code) sh

  -- The only call of a command, if it is an internal one.
  unfoldable pub alone : List CommandCall → Option CommandCall
  alone (call ∷ []) = if is_internal_command call then some call else none
  alone _ = none

  unfoldable pub chosen : Shell W → Command → Option CommandCall → Outcome W CommandResult
  unfolding as_result
  chosen sh c none = execute_external_command sh c
  chosen sh c (some call) = as_result (execute_internal_command os procs sh call)

  unfoldable pub execute_command : Shell W → Command → Outcome W CommandResult
  unfolding concluded chosen alone
  execute_command sh c = concluded c (chosen sh c (alone c.command_calls))
