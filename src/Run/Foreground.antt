-- ===== src/Run/Foreground.antt =====
-- src/internals.c: what a command leaves once its calls have been launched.
use jsh_tyy.Base.{
  suc, Bool, true, false, not, ◌≡◌, refl, none, some, if◌then◌else◌, ◌==ℤ◌, ℤ, pos, negsuc,
  Bool-cases, inl, inr,
}
use jsh_tyy.System.{Os, Fork}
use jsh_tyy.Command.{Command, new_command_result}
use jsh_tyy.Jobs.{Job, is_finished_status}
use jsh_tyy.Jobs.Table.{JobTable, add_job}
use jsh_tyy.Jobs.Table.Cells.{IsWellFormed, lowest_free}
use jsh_tyy.Jobs.Table.Update.{Added, add_job-Added}
use jsh_tyy.Jobs.Wait.{blocking_wait_for_job}
use jsh_tyy.Proc.{Procs}
use jsh_tyy.Parse.Build.{close_pipes}
use jsh_tyy.Shell.{Shell}
use jsh_tyy.Shell.Internal.{returns}
use jsh_tyy.Run.{
  ExitInfo, execute_as_job, execute_external_command, execute_command, registered, waited, back,
  in_foreground, dispatched, concluded, chosen, alone, setup_job, update_command_history,
  print_error,
}
use jsh_tyy.Run.Results.{Entered, Detached, Returns, Settles, SettlesOnTerminal}

if_not-true : {A : Type 0} (b : Bool) (x y : A) → b ≡ true → (if not b then x else y) ≡ y
if_not-true true x y e = refl
if_not-true false x y e = cc

if_not-false : {A : Type 0} (b : Bool) (x y : A) → b ≡ false → (if not b then x else y) ≡ x
if_not-false true x y e = cc
if_not-false false x y e = refl

module _ {W : Type 0} (os : Os W) (forks : Fork W) (procs : Procs W) where
  registered-Entered :
      (info : ExitInfo) (j : Job) (before sh : Shell W) (c : Command) (added : JobTable × ℤ)
      → sh.should_exit ≡ before.should_exit
      → Added before.jobs j added
      → Returns
          (Entered j before)
          (concluded os forks procs c (registered os forks procs info j added sh))
  unfolding concluded registered update_command_history
  registered-Entered info j before sh c (t, negsuc n) e a = cc (a.number)
  registered-Entered info j before sh c (t, pos id) e a = record {
    added = a;
    exit_code = refl;
    remembered = refl;
    same_exit = e;
  }

  registered-Detached :
      (info : ExitInfo) (j : Job) (before : Shell W) (c : Command) (added : JobTable × ℤ)
      → Added before.jobs j added
      → Returns (Detached os c j before) (
          concluded os forks procs c (
            registered os forks procs info j added
              (record before { world = close_pipes os c.open_pipes before.world })))
  unfolding concluded registered update_command_history
  registered-Detached info j before c (t, negsuc n) a = cc (a.number)
  registered-Detached info j before c (t, pos id) a =
      let numbered : id ≡ suc (lowest_free before.jobs.slots) = cc (a.number) in
      record {
        entered = record { added = a; exit_code = refl; remembered = refl; same_exit = refl };
        untouched = rw numbered refl;
      }

  waited-Settles :
      (info : ExitInfo) (code : ℤ) (j : Job) (before sh : Shell W) (c : Command)
      → sh.jobs ≡ before.jobs
      → sh.should_exit ≡ before.should_exit
      → IsWellFormed before.jobs
      → Returns
          (Settles (code ==ℤ negsuc 0) (is_finished_status j.status) info code j before)
          (concluded os forks procs c (waited os forks procs info code j sh))
  unfolding waited new_command_result
  waited-Settles info code j before sh c same e wf = elim (Bool-cases (code ==ℤ negsuc 0)) [
    | inl failed ↦ rw failed (
        unfold concluded update_command_history print_error in
        record { exit_code = refl; remembered = refl; same_jobs = same; same_exit = e })
    | inr waited_for ↦ rw waited_for (elim (Bool-cases (is_finished_status j.status)) [
      | inl over ↦ rw over (
          unfold concluded update_command_history in
          record { exit_code = refl; remembered = refl; same_jobs = same; same_exit = e })
      | inr suspended ↦ rw suspended (
          registered-Entered info j before sh c (add_job sh.jobs (some j)) e
            (rw same (add_job-Added before.jobs j wf)))
    ])
  ]

  back-Settles :
      (info : ExitInfo) (code : ℤ) (j : Job) (before sh : Shell W) (c : Command) (r : Bool × W)
      → sh.jobs ≡ before.jobs
      → sh.should_exit ≡ before.should_exit
      → IsWellFormed before.jobs
      → SettlesOnTerminal r.0
          (code ==ℤ negsuc 0)
          (is_finished_status j.status)
          info
          code
          j
          before
          (concluded os forks procs c (back os forks procs info code j sh r))
  unfolding back
  back-Settles info code j before sh c (false, w) same e wf = unfold concluded in refl
  back-Settles info code j before sh c (true, w) same e wf =
      waited-Settles info code j before (record sh { world = w }) c same e wf

  -- The state after the pipes of the command have been closed.
  abbrev pub piped_off : Command → Shell W → Shell W
  piped_off c sh = record sh { world = close_pipes os c.open_pipes sh.world }

  pub dispatched-background :
      (c : Command) (info : ExitInfo) (j : Job) (sh : Shell W)
      → c.background ≡ true
      → dispatched os forks procs c (returns (some info, j) sh)
        ≡ registered os forks procs info j (add_job sh.jobs (some j)) (piped_off c sh)
  unfolding dispatched
  dispatched-background c info j sh e = if_not-true c.background _ _ e

  pub dispatched-foreground :
      (c : Command) (info : ExitInfo) (j : Job) (sh : Shell W)
      → c.background ≡ false
      → dispatched os forks procs c (returns (some info, j) sh)
        ≡ in_foreground os forks procs info
            (piped_off c sh)
            (blocking_wait_for_job os j (piped_off c sh).world)
  unfolding dispatched
  dispatched-foreground c info j sh e = if_not-false c.background _ _ e

  -- The calls of the command, which is not one internal call, have been launched as the job `j`.
  module _ (before : Shell W) (c : Command) (info : ExitInfo) (j : Job) (sh : Shell W)
      (external : alone os forks procs c.command_calls ≡ none)
      (launched : execute_as_job os forks procs before c (setup_job c)
        ≡ returns (some info, j) sh) where
    pub execute_command-dispatched :
        execute_command os forks procs before c
        ≡ concluded os forks procs c (dispatched os forks procs c (returns (some info, j) sh))
    unfolding execute_command chosen execute_external_command
    execute_command-dispatched = rw (external, launched)

    -- A command in the background that is not one internal call, and the calls of which have been
    -- launched, returns 0, which the shell remembers as the last status, and its job enters the
    -- table, if that is well formed then. There is no wait: after the launch its pipes are closed, the
    -- job is printed with its number, the descriptors of its calls are closed, and nothing else is
    -- done to the world.
    pub execute_command-background :
        c.background ≡ true
        → IsWellFormed sh.jobs
        → Returns (Detached os c j sh) (execute_command os forks procs before c)
    execute_command-background bg wf =
        rw (execute_command-dispatched, dispatched-background c info j sh bg)
          (registered-Detached info j sh c (add_job sh.jobs (some j)) (add_job-Added sh.jobs j wf))

    -- A command in the foreground that is not one internal call, and the calls of which have been
    -- launched, is waited for. If the shell does not get the terminal back then it exits with the
    -- code 1. Else the command returns 1 if the wait failed; its job's status if the job has ended,
    -- the table being as before; and 0 if the job is stopped, which then enters the table. The shell
    -- remembers what is returned as the last status. The table is well formed after the launch.
    pub execute_command-foreground :
        (code : ℤ) (j' : Job) (w : W)
        → c.background ≡ false
        → IsWellFormed sh.jobs
        → blocking_wait_for_job os j (close_pipes os c.open_pipes sh.world) ≡ (code, j', w)
        → SettlesOnTerminal
            (os.tcsetpgrp (os.getpgrp w) w).0
            (code ==ℤ negsuc 0)
            (is_finished_status j'.status)
            info
            code
            j'
            sh
            (execute_command os forks procs before c)
    unfolding in_foreground
    execute_command-foreground code j' w fg wf waiting =
        rw (execute_command-dispatched, dispatched-foreground c info j sh fg, waiting)
          (back-Settles info code j' sh (piped_off c sh) c (os.tcsetpgrp (os.getpgrp w) w) refl refl
            wf)
