-- ===== src/Run/Descriptors.antt =====
-- src/internals.c: the descriptors that the shell keeps when a command returns.
use jsh_tyy.Base.{
  Bool, true, false, ◌≡◌, refl, ◌||◌, ◌&&◌, map, none, some, if◌then◌else◌, ◌==ℤ◌, ℤ, pos, negsuc,
  exceeds, Bool-cases, inl, inr,
}
use jsh_tyy.System.{Os, Fork}
use jsh_tyy.System.Descriptors.{Descriptors}
use jsh_tyy.FdSet.{contains2}
use jsh_tyy.Command.{Command, CommandResult}
use jsh_tyy.Jobs.{Job, is_finished_status}
use jsh_tyy.Jobs.Table.{JobTable, add_job}
use jsh_tyy.Jobs.Wait.{print_job, blocking_wait_for_job}
use jsh_tyy.Jobs.Wait.Descriptors.{blocking_wait_for_job-IsShut}
use jsh_tyy.Proc.{Procs}
use jsh_tyy.Parse.Build.{close_pipes, ends}
use jsh_tyy.Parse.Build.Closing.{
  call_fds, close_unused-calls, close_unused-IsShut, close_pipes-ends,
}
use jsh_tyy.Shell.{Shell}
use jsh_tyy.Shell.Internal.{Outcome, undefined, exits, returns}
use jsh_tyy.Run.{
  ExitInfo, execute_as_job, execute_command, registered, waited, back, in_foreground, dispatched,
  concluded, alone, setup_job, chosen, execute_external_command, update_command_history,
  print_error, Launched,
}

module _ {W : Type 0} (os : Os W) (kernel : Descriptors os) (forks : Fork W) (procs : Procs W)
    (fd : ℤ) where
  -- Where the step returns, the descriptor is closed.
  abbrev pub ReturnsShut : {A : Type 0} → Outcome W A → Type 0
  ReturnsShut undefined = Unit
  ReturnsShut (exits code sh) = Unit
  ReturnsShut (returns a sh) = kernel.is_open sh.world fd ≡ false

  ReturnsShut-if :
      {A : Type 0} (b : Bool) (x y : Outcome W A)
      → ReturnsShut x
      → ReturnsShut y
      → ReturnsShut (if b then x else y)
  ReturnsShut-if true x y hx hy = hx
  ReturnsShut-if false x y hx hy = hy

  registered-ReturnsShut :
      (info : ExitInfo) (j : Job) (r : JobTable × ℤ) (sh : Shell W)
      → kernel.is_open sh.world fd ≡ false
      → ReturnsShut (registered os forks procs info j r sh)
  unfolding registered print_job
  registered-ReturnsShut info j (t, negsuc n) sh h = kernel.shut-dprintf _ _ fd _ h
  registered-ReturnsShut info j (t, pos id) sh h = kernel.shut-dprintf _ _ fd _ h

  waited-ReturnsShut :
      (info : ExitInfo) (code : ℤ) (j : Job) (sh : Shell W)
      → kernel.is_open sh.world fd ≡ false
      → ReturnsShut (waited os forks procs info code j sh)
  unfolding waited print_error
  waited-ReturnsShut info code j sh h =
      ReturnsShut-if (code ==ℤ negsuc 0) _ _ (kernel.shut-dprintf _ _ fd _ h) (
        ReturnsShut-if (is_finished_status j.status) _ _ h
          (registered-ReturnsShut info j (add_job sh.jobs (some j)) sh h))

  back-ReturnsShut :
      (info : ExitInfo) (code : ℤ) (j : Job) (sh : Shell W) (r : Bool × W)
      → kernel.is_open r.1 fd ≡ false
      → ReturnsShut (back os forks procs info code j sh r)
  unfolding back
  back-ReturnsShut info code j sh (false, w) h = tt
  back-ReturnsShut info code j sh (true, w) h =
      waited-ReturnsShut info code j (record sh { world = w }) h

  in_foreground-ReturnsShut :
      (info : ExitInfo) (sh : Shell W) (r : ℤ × Job × W)
      → kernel.is_open r.2 fd ≡ false
      → ReturnsShut (in_foreground os forks procs info sh r)
  unfolding in_foreground
  in_foreground-ReturnsShut info sh (code, j, w) h =
      back-ReturnsShut info code j sh (os.tcsetpgrp (os.getpgrp w) w)
        (kernel.shut-tcsetpgrp (os.getpgrp w) fd w h)

  dispatched-ReturnsShut :
      (c : Command) (o : Outcome W (Launched os forks procs))
      → contains2 (ends os c.open_pipes) fd ≡ true
      → ReturnsShut (dispatched os forks procs c o)
  unfolding dispatched
  dispatched-ReturnsShut c undefined e = tt
  dispatched-ReturnsShut c (exits code sh) e = tt
  dispatched-ReturnsShut c (returns (none, j) sh) e =
      close_pipes-ends os kernel fd c.open_pipes sh.world e
  dispatched-ReturnsShut c (returns (some info, j) sh) e =
      let h = close_pipes-ends os kernel fd c.open_pipes sh.world e in
      let w = close_pipes os c.open_pipes sh.world in
      ReturnsShut-if _ _ _
        (in_foreground-ReturnsShut info (record sh { world = w }) (blocking_wait_for_job os j w)
          (blocking_wait_for_job-IsShut os kernel fd j w h))
        (registered-ReturnsShut info j (add_job sh.jobs (some j)) (record sh { world = w }) h)

  -- The ends of the pipes are closed already.
  concluded-pipes :
      (c : Command) (o : Outcome W CommandResult)
      → ReturnsShut o
      → ReturnsShut (concluded os forks procs c o)
  unfolding concluded update_command_history
  concluded-pipes c undefined h = tt
  concluded-pipes c (exits code sh) h = tt
  concluded-pipes c (returns r sh) h =
      close_unused-IsShut os kernel fd (ends os c.open_pipes) c.command_calls sh.world h

  concluded-calls :
      (c : Command) (o : Outcome W CommandResult)
      → exceeds fd 2 ≡ true
      → contains2 (ends os c.open_pipes) fd ≡ false
      → contains2 (map call_fds c.command_calls) fd ≡ true
      → ReturnsShut (concluded os forks procs c o)
  unfolding concluded update_command_history
  concluded-calls c undefined h k e = tt
  concluded-calls c (exits code sh) h k e = tt
  concluded-calls c (returns r sh) h k e =
      close_unused-calls os kernel fd (ends os c.open_pipes) c.command_calls sh.world h k e

  -- When a command that is not one internal call returns, with whatever result, the shell has closed
  -- both ends of each of its pipes, and the descriptors above 2 that its calls read from and write to.
  pub execute_command-ReturnsShut :
      (before : Shell W) (c : Command)
      → alone os forks procs c.command_calls ≡ none
      → (contains2 (ends os c.open_pipes) fd
          || (exceeds fd 2 && contains2 (map call_fds c.command_calls) fd))
        ≡ true
      → ReturnsShut (execute_command os forks procs before c)
  unfolding execute_command chosen execute_external_command
  execute_command-ReturnsShut before c external used =
      let launched = execute_as_job os forks procs before c (setup_job c) in
      rw external (elim (Bool-cases (contains2 (ends os c.open_pipes) fd)) [
        | inl end ↦ concluded-pipes c _ (dispatched-ReturnsShut c launched end)
        | inr other ↦
            concluded-calls c _
              (and-left (exceeds fd 2) (contains2 (map call_fds c.command_calls) fd)
                (rw other at used))
              other
              (and-right (exceeds fd 2) (contains2 (map call_fds c.command_calls) fd)
                (rw other at used))
      ])
    where
      and-left : (a b : Bool) → (a && b) ≡ true → a ≡ true
      and-left true b e = refl
      and-left false b e = e

      and-right : (a b : Bool) → (a && b) ≡ true → b ≡ true
      and-right true b e = e
      and-right false b e = cc
