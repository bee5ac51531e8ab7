-- ===== src/Run/Terminal.antt =====
-- src/internals.c and src/jobs.c: which process group has the terminal.
use jsh_tyy.Base.{
  Bool, true, false, ◌≡◌, refl, ◌∙◌, List, [], ◌∷◌, none, some, if◌then◌else◌, ◌==ℤ◌, ℤ, pos,
  negsuc,
}
use jsh_tyy.System.{Os, Fork}
use jsh_tyy.System.Terminal.{Terminal}
use jsh_tyy.Command.{CommandCall, Command, CommandResult, new_command_result}
use jsh_tyy.Jobs.{Job, is_finished_status}
use jsh_tyy.Jobs.Table.{JobTable, add_job}
use jsh_tyy.Jobs.Wait.{print_job, blocking_wait_for_job}
use jsh_tyy.Proc.{Procs}
use jsh_tyy.Parse.{close_all}
use jsh_tyy.Parse.Build.{
  close_pipes, close_unused_file_descriptors, close_unused_file_descriptors_helper, ends,
}
use jsh_tyy.Shell.{Shell}
use jsh_tyy.Shell.Internal.{Outcome, undefined, exits, returns}
use jsh_tyy.Run.{
  ExitInfo, execute_as_job, execute_command, registered, waited, back, in_foreground, dispatched,
  concluded, alone, setup_job, chosen, execute_external_command, update_command_history,
  print_error,
}
use jsh_tyy.Run.Foreground.{execute_command-dispatched, dispatched-foreground, piped_off}
use jsh_tyy.Run.Results.{Returns}

module _ {W : Type 0} (os : Os W) (term : Terminal os) where
  -- Where the step returns, the shell's group has the terminal.
  abbrev pub HasTerminal : {A : Type 0} → Outcome W A → Type 0
  HasTerminal undefined = Unit
  HasTerminal (exits code sh) = Unit
  HasTerminal (returns a sh) = term.owner sh.world ≡ term.shell

  owner-close_all : (fds : List ℤ) (w : W) → term.owner (close_all os fds w) ≡ term.owner w
  unfolding close_all
  owner-close_all [] w = refl
  owner-close_all (fd ∷ fds) w = owner-close_all fds (os.close fd w) ∙ term.owner-close fd w

  owner-close_unused :
      (pipes : List (List ℤ)) (calls : List CommandCall) (w : W)
      → term.owner (close_unused_file_descriptors os pipes calls w) ≡ term.owner w
  unfolding close_unused_file_descriptors close_unused_file_descriptors_helper
  owner-close_unused pipes [] w = refl
  owner-close_unused pipes (call ∷ calls) w = owner-close_unused pipes calls _ ∙ owner-close_all _ w

  owner-close_pipes :
      (pipes : List (ℤ × ℤ)) (w : W) → term.owner (close_pipes os pipes w) ≡ term.owner w
  unfolding close_pipes
  owner-close_pipes [] w = refl
  owner-close_pipes ((reading, writing) ∷ pipes) w =
      owner-close_pipes pipes _ ∙ (term.owner-close _ _ ∙ term.owner-close _ _)

  module _ (forks : Fork W) (procs : Procs W) where
    concluded-HasTerminal :
        (c : Command) (r : Outcome W CommandResult)
        → HasTerminal r
        → HasTerminal (concluded os forks procs c r)
    unfolding concluded update_command_history
    concluded-HasTerminal c undefined h = tt
    concluded-HasTerminal c (exits code sh) h = tt
    concluded-HasTerminal c (returns r sh) h =
        owner-close_unused (ends os c.open_pipes) c.command_calls sh.world ∙ h

    registered-HasTerminal :
        (info : ExitInfo) (j : Job) (r : JobTable × ℤ) (sh : Shell W)
        → term.owner sh.world ≡ term.shell
        → HasTerminal (registered os forks procs info j r sh)
    unfolding registered print_job
    registered-HasTerminal info j (t, negsuc n) sh h = term.owner-dprintf _ _ _ ∙ h
    registered-HasTerminal info j (t, pos id) sh h = term.owner-dprintf _ _ _ ∙ h

    HasTerminal-if :
        {A : Type 0} (b : Bool) (x y : Outcome W A)
        → HasTerminal x
        → HasTerminal y
        → HasTerminal (if b then x else y)
    HasTerminal-if true x y hx hy = hx
    HasTerminal-if false x y hx hy = hy

    waited-HasTerminal :
        (info : ExitInfo) (code : ℤ) (j : Job) (sh : Shell W)
        → term.owner sh.world ≡ term.shell
        → HasTerminal (waited os forks procs info code j sh)
    unfolding waited print_error
    waited-HasTerminal info code j sh h =
        HasTerminal-if (code ==ℤ negsuc 0) _ _ (term.owner-dprintf _ _ _ ∙ h) (
          HasTerminal-if (is_finished_status j.status) _ _ h
            (registered-HasTerminal info j (add_job sh.jobs (some j)) sh h))

    back-HasTerminal :
        (info : ExitInfo) (code : ℤ) (j : Job) (sh : Shell W) (r : Bool × W)
        → (r.0 ≡ true → term.owner r.1 ≡ term.shell)
        → HasTerminal (back os forks procs info code j sh r)
    unfolding back
    back-HasTerminal info code j sh (false, w) h = tt
    back-HasTerminal info code j sh (true, w) h =
        waited-HasTerminal info code j (record sh { world = w }) (h refl)

    in_foreground-HasTerminal :
        (info : ExitInfo) (sh : Shell W) (r : ℤ × Job × W)
        → HasTerminal (in_foreground os forks procs info sh r)
    unfolding in_foreground
    in_foreground-HasTerminal info sh (code, j, w) =
        back-HasTerminal info code j sh (os.tcsetpgrp (os.getpgrp w) w)
          (λ e. term.owner-tcsetpgrp (os.getpgrp w) w e ∙ term.getpgrp_shell w)

    -- A command in the foreground that is not one internal call, and the calls of which have been
    -- launched, returns only when the shell's group has the terminal again, whatever the calls of
    -- `waitpid` and `tcsetpgrp` return and whichever group had it before.
    pub execute_command-HasTerminal :
        (before : Shell W) (c : Command) (info : ExitInfo) (j : Job) (sh : Shell W)
        → alone os forks procs c.command_calls ≡ none
        → execute_as_job os forks procs before c (setup_job c) ≡ returns (some info, j) sh
        → c.background ≡ false
        → HasTerminal (execute_command os forks procs before c)
    execute_command-HasTerminal before c info j sh external launched fg =
        let sh' = piped_off os forks procs c sh in
        rw
          (
            execute_command-dispatched os forks procs before c info j sh external launched,
            dispatched-foreground os forks procs c info j sh fg,
          )
          (concluded-HasTerminal c _
            (in_foreground-HasTerminal info sh' (blocking_wait_for_job os j sh'.world)))

    -- Where a call of a command that is not one internal call cannot be launched, the command returns
    -- 1, which the shell remembers as the last status, and the table is as the launch has left it. So
    -- is the terminal, also where a call that was launched before has given it to its own group.
    pub execute_command-launch_failure :
        (before : Shell W) (c : Command) (j : Job) (sh : Shell W)
        → alone os forks procs c.command_calls ≡ none
        → execute_as_job os forks procs before c (setup_job c) ≡ returns (none, j) sh
        → Returns
            (λ r after.
              (r.exit_code ≡ pos 1)
              × ((after.last_exit_code ≡ pos 1)
                  × ((after.jobs ≡ sh.jobs) × (term.owner after.world ≡ term.owner sh.world))))
            (execute_command os forks procs before c)
    unfolding execute_command chosen execute_external_command dispatched concluded
        update_command_history new_command_result
    execute_command-launch_failure before c j sh external launched =
        rw (external, launched)
          (
            refl,
            (
              refl,
              (
                refl,
                owner-close_unused (ends os c.open_pipes) c.command_calls _
                    ∙ owner-close_pipes c.open_pipes sh.world,
              ),
            ),
          )
