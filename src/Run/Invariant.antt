-- ===== src/Run/Invariant.antt =====
-- src/internals.c: the execution of a command and the invariant of the job table.
use jsh_tyy.Base.{
  ℕ, zero, suc, ◌+◌, ◌==◌, ◌≡◌, ◌≢◌, refl, Bool, true, false, not, codes, List, [], ◌∷◌, Option,
  none, some, if◌then◌else◌, ◌==ℤ◌, ℤ, pos, negsuc, All, Bool-cases, inl, inr, subst,
}
use jsh_tyy.System.{Os, Fork}
use jsh_tyy.Command.{CommandCall, Command, CommandResult, is_internal_command}
use jsh_tyy.Jobs.{Job, is_finished_status}
use jsh_tyy.Jobs.Table.{JobTable, add_job}
use jsh_tyy.Jobs.Table.Cells.{IsWellFormed}
use jsh_tyy.Jobs.Table.Update.{add_job-Added}
use jsh_tyy.Jobs.Wait.{blocking_wait_for_job}
use jsh_tyy.Proc.{Procs}
use jsh_tyy.Parse.Build.{close_pipes}
use jsh_tyy.Shell.{Shell}
use jsh_tyy.Run.{
  ExitInfo, execute_single_command, execute_as_job, execute_external_command, execute_command,
  internal, first_pipe, second_pipe, forked, told, answered, launched, launch_loop, kill_group,
  in_world, print_error, registered, waited, back, in_foreground, dispatched, concluded, chosen,
  as_result, alone, setup_job, update_command_history,
}
use jsh_tyy.Shell.Internal.{Outcome, undefined, exits, returns}
use jsh_tyy.Shell.Internal.Table.{KeepsTable, KeepsTable-if, Allows, internal_command-Keeps}
use jsh_tyy.Text.{str_eq}

module _ {W : Type 0} (os : Os W) (forks : Fork W) (procs : Procs W) (P : Type 0) where
  internal-Keeps :
      (pgid : ℤ) (r : Outcome W ℤ) → KeepsTable P r → KeepsTable P (internal os forks procs pgid r)
  unfolding internal
  internal-Keeps pgid undefined h = h
  internal-Keeps pgid (exits code sh) h = h
  internal-Keeps pgid (returns code sh) h = h

  answered-Keeps :
      (pid pgid reading : ℤ) (sh : Shell W) (r : Bool × W)
      → IsWellFormed sh.jobs
      → KeepsTable P (answered os forks procs pid pgid reading sh r)
  unfolding answered in_world print_error
  answered-Keeps pid pgid reading sh (false, w) wf = wf
  answered-Keeps pid pgid reading sh (true, w) wf = wf

  told-Keeps :
      (pid pgid writing reading : ℤ) (sh : Shell W) (r : Bool × W)
      → IsWellFormed sh.jobs
      → KeepsTable P (told os forks procs pid pgid writing reading sh r)
  unfolding told in_world print_error
  told-Keeps pid pgid writing reading sh (false, w) wf = wf
  told-Keeps pid pgid writing reading sh (true, w) wf = answered-Keeps pid pgid reading sh _ wf

  forked-Keeps :
      (pgid : ℤ) (a b : ℤ × ℤ) (sh : Shell W) (r : ℤ × W)
      → IsWellFormed sh.jobs
      → KeepsTable P (forked os forks procs pgid a b sh r)
  unfolding forked print_error
  forked-Keeps pgid (r, w) (r', w') sh (pid, world) wf =
      KeepsTable-if P (pid ==ℤ negsuc 0) _ _ (λ b. wf) (told-Keeps pid _ w r' sh _ wf)

  first_pipe-Keeps :
      (pgid : ℤ) (sh : Shell W) (r : Option (ℤ × ℤ) × W)
      → IsWellFormed sh.jobs
      → KeepsTable P (first_pipe os forks procs pgid sh r)
  unfolding first_pipe print_error
  first_pipe-Keeps pgid sh (none, w) wf = wf
  first_pipe-Keeps pgid sh (some first, w) wf = second_pipe-Keeps pgid first sh (os.pipe w) wf
    where
      second_pipe-Keeps :
          (pgid : ℤ) (first : ℤ × ℤ) (sh : Shell W) (r : Option (ℤ × ℤ) × W)
          → IsWellFormed sh.jobs
          → KeepsTable P (second_pipe os forks procs pgid first sh r)
      second_pipe-Keeps pgid first sh (none, w) wf = unfold second_pipe in wf
      second_pipe-Keeps pgid first sh (some second, w) wf =
          unfold second_pipe in forked-Keeps pgid first second sh (forks.fork w) wf

  single-Keeps :
      (sh : Shell W) (call : CommandCall) (pgid : ℤ)
      → Allows os P call
      → IsWellFormed sh.jobs
      → KeepsTable P (execute_single_command os forks procs sh call pgid)
  unfolding execute_single_command
  single-Keeps sh call pgid allow wf =
      KeepsTable-if P (is_internal_command call) _ _
        (λ b. internal-Keeps pgid _ (internal_command-Keeps os procs P sh call allow wf))
        (first_pipe-Keeps pgid sh (os.pipe sh.world) wf)

  kill_group-wf :
      (pgid : ℤ) (sh : Shell W)
      → IsWellFormed sh.jobs
      → IsWellFormed (kill_group os forks procs pgid sh).jobs
  unfolding kill_group in_world
  kill_group-wf pgid sh wf =
      elim (pgid ==ℤ pos 0)
        as (λ b.
          IsWellFormed
            (if b then sh else record sh {
              world = (os.kill (jsh_tyy.Base.neg pgid) (pos 9) sh.world).1;
            }).jobs) [ true ↦ wf | false ↦ wf ]

  launched-Keeps :
      (i : ℕ) (first : Option ExitInfo) (call : CommandCall) (j : Job)
      (next : Option ExitInfo → Job → Shell W → Outcome W (Option ExitInfo × Job))
      (r : Outcome W (Option ExitInfo × ℤ))
      → ((first : Option ExitInfo) (j : Job) (sh : Shell W)
          → IsWellFormed sh.jobs
          → KeepsTable P (next first j sh))
      → KeepsTable P r
      → KeepsTable P (launched os forks procs i first call j next r)
  unfolding launched
  launched-Keeps i first call j next undefined hn h = h
  launched-Keeps i first call j next (exits code sh) hn h = h
  launched-Keeps i first call j next (returns (none, pgid) sh) hn h = kill_group-wf pgid sh h
  launched-Keeps i first call j next (returns (some info, pgid) sh) hn h = hn _ _ sh h

  launch_loop-Keeps :
      (calls : List CommandCall) (i : ℕ) (first : Option ExitInfo) (j : Job) (sh : Shell W)
      → All (Allows os P) calls
      → IsWellFormed sh.jobs
      → KeepsTable P (launch_loop os forks procs i calls first j sh)
  unfolding launch_loop
  launch_loop-Keeps [] i first j sh allow wf = wf
  launch_loop-Keeps (call ∷ calls) i first j sh (allow, rest) wf =
      launched-Keeps i first call j _ _
        (λ first' j' sh' wf'. launch_loop-Keeps calls (i + 1) first' j' sh' rest wf')
        (single-Keeps sh call j.pgid allow wf)

  registered-Keeps :
      (info : ExitInfo) (j : Job) (r : JobTable × ℤ) (sh : Shell W)
      → IsWellFormed r.0
      → KeepsTable P (registered os forks procs info j r sh)
  unfolding registered
  registered-Keeps info j (t, negsuc n) sh wf = wf
  registered-Keeps info j (t, pos id) sh wf = wf

  in_foreground-Keeps :
      (info : ExitInfo) (sh : Shell W) (r : ℤ × Job × W)
      → IsWellFormed sh.jobs
      → KeepsTable P (in_foreground os forks procs info sh r)
  unfolding in_foreground
  in_foreground-Keeps info sh (code, j, w) wf = back-Keeps (os.tcsetpgrp (os.getpgrp w) w)
    where
      back-Keeps : (r : Bool × W) → KeepsTable P (back os forks procs info code j sh r)
      back-Keeps (false, w') = unfold back print_error in wf
      back-Keeps (true, w') =
          unfold back waited print_error in
          KeepsTable-if P (code ==ℤ negsuc 0) _ _ (λ b. wf)
            (KeepsTable-if P (is_finished_status j.status) _ _ (λ b. wf)
              (registered-Keeps info j (add_job sh.jobs (some j)) (record sh { world = w' })
                (add_job-Added sh.jobs j wf).well_formed))

  dispatched-Keeps :
      (c : Command) (r : Outcome W (Option ExitInfo × Job))
      → KeepsTable P r
      → KeepsTable P (dispatched os forks procs c r)
  unfolding dispatched
  dispatched-Keeps c undefined h = h
  dispatched-Keeps c (exits code sh) h = h
  dispatched-Keeps c (returns (none, j) sh) h = h
  dispatched-Keeps c (returns (some info, j) sh) h =
      let sh' : Shell W = record sh { world = close_pipes os c.open_pipes sh.world } in
      KeepsTable-if P (not c.background) _ _
        (λ b. in_foreground-Keeps info sh' (blocking_wait_for_job os j sh'.world) h)
        (registered-Keeps info j (add_job sh.jobs (some j)) sh'
          (add_job-Added sh.jobs j h).well_formed)

  as_result-Keeps : (r : Outcome W ℤ) → KeepsTable P r → KeepsTable P (as_result os forks procs r)
  unfolding as_result
  as_result-Keeps undefined h = h
  as_result-Keeps (exits code sh) h = h
  as_result-Keeps (returns code sh) h = h

  alone-Allows :
      (calls : List CommandCall) (call : CommandCall)
      → All (Allows os P) calls
      → alone os forks procs calls ≡ some call
      → Allows os P call
  unfolding alone
  alone-Allows [] call h e = cc
  alone-Allows (k ∷ []) call (h, hs) e = elim (Bool-cases (is_internal_command k)) [
    | inl own ↦ let same : k ≡ call = cc (rw own at e) in subst (Allows os P) same h
    | inr other ↦ cc (rw other at e)
  ]
  alone-Allows (k ∷ l ∷ calls) call h e = cc

  chosen-Keeps :
      (sh : Shell W) (c : Command) (o : Option CommandCall)
      → All (Allows os P) c.command_calls
      → alone os forks procs c.command_calls ≡ o
      → IsWellFormed sh.jobs
      → KeepsTable P (chosen os forks procs sh c o)
  unfolding chosen execute_external_command execute_as_job
  chosen-Keeps sh c none allow e wf =
      dispatched-Keeps c _ (launch_loop-Keeps c.command_calls 0 none (setup_job c) sh allow wf)
  chosen-Keeps sh c (some call) allow e wf =
      as_result-Keeps _
        (internal_command-Keeps os procs P sh call (alone-Allows c.command_calls call allow e) wf)

  concluded-Keeps :
      (c : Command) (r : Outcome W CommandResult)
      → KeepsTable P r
      → KeepsTable P (concluded os forks procs c r)
  unfolding concluded update_command_history
  concluded-Keeps c undefined h = h
  concluded-Keeps c (exits code sh) h = h
  concluded-Keeps c (returns r sh) h = h

  pub execute_command-Keeps :
      (sh : Shell W) (c : Command)
      → All (Allows os P) c.command_calls
      → IsWellFormed sh.jobs
      → KeepsTable P (execute_command os forks procs sh c)
  unfolding execute_command
  execute_command-Keeps sh c allow wf = concluded-Keeps c _ (chosen-Keeps sh c _ allow refl wf)

-- The call is not one of `jobs`, and one of `pwd` only where `getcwd` does not fail.
abbrev pub IsSafe : {W : Type 0} → Os W → CommandCall → Type 0
IsSafe {W} os call =
    (str_eq call.name (codes "jobs") ≡ false)
    × (str_eq call.name (codes "pwd") ≡ true → (w : W) → os.getcwd w ≢ none)

IsSafe-Allows :
    {W : Type 0} (os : Os W) (calls : List CommandCall)
    → All (IsSafe os) calls
    → All (Allows os ⊥) calls
IsSafe-Allows os [] h = tt
IsSafe-Allows os (call ∷ calls) ((h, k), hs) = (((λ e. cc), k), IsSafe-Allows os calls hs)

-- Every command without a call of `jobs`, and without one of `pwd` where `getcwd` can fail, an
-- internal one or a pipeline of programs, in the foreground or in the background, does nothing
-- undefined and leaves a well-formed job table well formed, whatever the system calls return and
-- also where the shell has to exit.
pub execute_command-KeepsTable :
    {W : Type 0} (os : Os W) (forks : Fork W) (procs : Procs W) (sh : Shell W) (c : Command)
    → All (IsSafe os) c.command_calls
    → IsWellFormed sh.jobs
    → KeepsTable ⊥ (execute_command os forks procs sh c)
execute_command-KeepsTable os forks procs sh c h wf =
    execute_command-Keeps os forks procs ⊥ sh c (IsSafe-Allows os c.command_calls h) wf
