-- ===== src/Shell/Internal/Table.antt =====
-- src/internals.c: the internal commands and the invariant of the job table.
use jsh_tyy.Base.{
  ◌≡◌, refl, ◌==◌, ltb, sym, subst, Bool, true, false, not, Bytes, codes, Option, none, some,
  if◌then◌else◌, ℤ, pos, Bool-cases, inl, inr,
}
use jsh_tyy.System.{Os}
use jsh_tyy.Text.{str_eq}
use jsh_tyy.Text.Number.{Parsed, parsed, refused, parse_intmax_t}
use jsh_tyy.Command.{CommandCall, argc, arg}
use jsh_tyy.Jobs.Table.{JobTable, are_jobs_running}
use jsh_tyy.Jobs.Table.Cells.{IsWellFormed}
use jsh_tyy.Jobs.Wait.{update_jobs}
use jsh_tyy.Jobs.Wait.Progress.{fd_update_jobs-IsWellFormed}
use jsh_tyy.Proc.{Procs}
use jsh_tyy.Jobs.Listing.{jobs_command}
use jsh_tyy.Jobs.Listing.Table.{KeepsListed, jobs_command-KeepsListed}
use jsh_tyy.Shell.{Shell}
use jsh_tyy.Shell.Cd.Previous.{cd-frame}
use jsh_tyy.Shell.Exit.{
  exit_command, exit_with, updated, last_exit_code_command, pwd, printed_wd, get_current_wd,
}
use jsh_tyy.Shell.Kill.{bg_command, bg_found}
use jsh_tyy.Shell.Kill.Table.{fg_command-IsWellFormed}
use jsh_tyy.Jobs.Control.{Found, found, failed, find_job}
use jsh_tyy.Shell.Internal.{
  Outcome, undefined, exits, returns, execute_internal_command, ended, ended_or_not, after_kill,
  listed,
}

-- The job table of the shell after a step is well formed; where there is none because of undefined
-- behaviour, `P` holds.
abbrev pub KeepsTable : {W A : Type 0} → Type 0 → Outcome W A → Type 0
KeepsTable P undefined = P
KeepsTable P (exits code sh) = IsWellFormed sh.jobs
KeepsTable P (returns a sh) = IsWellFormed sh.jobs

-- `P` holds if the call is one of `jobs`, or one of `pwd` and `getcwd` can fail.
abbrev pub Allows : {W : Type 0} → Os W → Type 0 → CommandCall → Type 0
Allows {W} os P call =
    (str_eq call.name (codes "jobs") ≡ true → P)
    × (str_eq call.name (codes "pwd") ≡ true → (w : W) → os.getcwd w ≡ none → P)

pub KeepsTable-if :
    {W A : Type 0} (P : Type 0) (b : Bool) (x y : Outcome W A)
    → (b ≡ true → KeepsTable P x)
    → KeepsTable P y
    → KeepsTable P (if b then x else y)
KeepsTable-if P true x y hx hy = hx refl
KeepsTable-if P false x y hx hy = hy

Well-if :
    {W A : Type 0} (b : Bool) (x y : A × Shell W)
    → IsWellFormed x.1.jobs
    → IsWellFormed y.1.jobs
    → IsWellFormed (if b then x else y).1.jobs
Well-if true x y hx hy = hx
Well-if false x y hx hy = hy

module _ {W : Type 0} (os : Os W) where
  updated-wf : (sh : Shell W) → IsWellFormed sh.jobs → IsWellFormed (updated os sh).jobs
  unfolding updated update_jobs
  updated-wf sh wf = (fd_update_jobs-IsWellFormed os (pos 2) sh.jobs sh.world wf).0

  exit_with-wf :
      (p : Parsed) (sh : Shell W) (call : CommandCall)
      → IsWellFormed sh.jobs
      → IsWellFormed (exit_with os p sh call).1.jobs
  unfolding exit_with
  exit_with-wf (refused text) sh call wf = wf
  exit_with-wf (parsed value) sh call wf = Well-if _ _ _ wf wf

  exit_command-wf :
      (sh : Shell W) (call : CommandCall)
      → IsWellFormed sh.jobs
      → IsWellFormed (exit_command os sh call).1.jobs
  unfolding exit_command
  exit_command-wf sh call wf =
      let sh' = updated os sh in
      let wf' = updated-wf sh wf in
      Well-if (ltb 2 (argc call)) _ _ wf (
        Well-if (are_jobs_running sh'.jobs.slots) _ _ wf' (
          Well-if (argc call == 1) _ _ wf' (
            Well-if (argc call == 2) _ _
              (exit_with-wf (parse_intmax_t (arg call.argv 1)) sh' call wf') wf')))

  last_exit_code-wf :
      (sh : Shell W) (call : CommandCall)
      → IsWellFormed sh.jobs
      → IsWellFormed (last_exit_code_command os sh call).1.jobs
  unfolding last_exit_code_command
  last_exit_code-wf sh call wf = Well-if (not (argc call == 1)) _ _ wf wf

  bg_found-wf :
      (sh : Shell W) (call : CommandCall) (f : Found)
      → IsWellFormed sh.jobs
      → IsWellFormed (bg_found os f sh call).1.jobs
  unfolding bg_found
  bg_found-wf sh call (failed text) wf = wf
  bg_found-wf sh call (found j) wf = wf

  bg_command-wf :
      (sh : Shell W) (call : CommandCall)
      → IsWellFormed sh.jobs
      → IsWellFormed (bg_command os sh call).1.jobs
  unfolding bg_command
  bg_command-wf sh call wf = Well-if (argc call == 1) _ _ wf (
      Well-if (ltb 2 (argc call)) _ _ wf
        (bg_found-wf sh call (find_job sh.jobs (arg call.argv 1)) wf))

  module _ (procs : Procs W) (P : Type 0) where
    listed-Keeps :
        (sh : Shell W) (r : Option (ℤ × JobTable × W))
        → KeepsListed P r
        → KeepsTable P (listed os procs sh r)
    unfolding listed
    listed-Keeps sh none h = h
    listed-Keeps sh (some (code, t, w)) h = h

    printed_wd-Keeps :
        (sh : Shell W) (fd : ℤ) (o : Option Bytes)
        → (os.getcwd sh.world ≡ none → P)
        → IsWellFormed sh.jobs
        → os.getcwd sh.world ≡ o
        → KeepsTable P (ended_or_not os procs (printed_wd os sh fd (get_current_wd os sh.world)))
    unfolding printed_wd ended_or_not ended get_current_wd
    printed_wd-Keeps sh fd none p wf e = rw (KeepsTable, e) (p e)
    printed_wd-Keeps sh fd (some cwd) p wf e = rw (KeepsTable, e) wf

    pwd-Keeps :
        (sh : Shell W) (call : CommandCall)
        → (os.getcwd sh.world ≡ none → P)
        → IsWellFormed sh.jobs
        → KeepsTable P (ended_or_not os procs (pwd os sh call))
    unfolding pwd
    pwd-Keeps sh call p wf = elim (Bool-cases (ltb 1 (argc call))) [
      | inl many ↦ unfold ended_or_not ended in rw many wf
      | inr few ↦ rw few (printed_wd-Keeps sh call.stdout _ p wf refl)
    ]

    pub internal_command-Keeps :
        (sh : Shell W) (call : CommandCall)
        → Allows os P call
        → IsWellFormed sh.jobs
        → KeepsTable P (execute_internal_command os procs sh call)
    unfolding execute_internal_command ended after_kill
    internal_command-Keeps sh call allow wf =
        KeepsTable-if P (str_eq call.name (codes "cd")) _ _
          (λ b. subst IsWellFormed (sym (cd-frame os sh call).0) wf)
          (KeepsTable-if P (str_eq call.name (codes "?")) _ _ (λ b. last_exit_code-wf sh call wf)
            (KeepsTable-if P (str_eq call.name (codes "exit")) _ _ (λ b. exit_command-wf sh call wf)
              (KeepsTable-if P (str_eq call.name (codes "pwd")) _ _
                (λ b. pwd-Keeps sh call (allow.1 b sh.world) wf)
                (KeepsTable-if P (str_eq call.name (codes "jobs")) _ _
                  (λ b.
                    listed-Keeps sh (jobs_command os procs sh.jobs call sh.world)
                      (jobs_command-KeepsListed os procs P (allow.0 b) sh.jobs call sh.world wf))
                  (KeepsTable-if P (str_eq call.name (codes "kill")) _ _ (λ b. wf)
                    (KeepsTable-if P (str_eq call.name (codes "fg")) _ _
                      (λ b. fg_command-IsWellFormed os sh call wf)
                      (KeepsTable-if P (str_eq call.name (codes "bg")) _ _
                        (λ b. bg_command-wf sh call wf) wf)))))))
