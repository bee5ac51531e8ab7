-- ===== src/Jobs/Listing/Table.antt =====
-- src/jobs.c: `jobs_command` and the invariant of the job table.
use jsh_tyy.Base.{Option, none, some, ℤ}
use jsh_tyy.System.{Os}
use jsh_tyy.Command.{CommandCall}
use jsh_tyy.Jobs.Table.{JobTable}
use jsh_tyy.Jobs.Table.Cells.{IsWellFormed}
use jsh_tyy.Jobs.Wait.Progress.{fd_update_jobs-IsWellFormed}
use jsh_tyy.Proc.{Procs}
use jsh_tyy.Jobs.Listing.{jobs_command, listed}

-- The table is well formed; where there is none because of undefined behaviour, `P` holds.
abbrev pub KeepsListed : {W : Type 0} → Type 0 → Option (ℤ × JobTable × W) → Type 0
KeepsListed P none = P
KeepsListed P (some (code, t, w)) = IsWellFormed t

module _ {W : Type 0} (os : Os W) (procs : Procs W) (P : Type 0) (p : P) where
  listed-Keeps :
      (t : JobTable) (r : Option (ℤ × W)) → IsWellFormed t → KeepsListed P (listed os procs t r)
  unfolding listed
  listed-Keeps t none wf = p
  listed-Keeps t (some (code, w)) wf = wf

  pub jobs_command-KeepsListed :
      (t : JobTable) (call : CommandCall) (w : W)
      → IsWellFormed t
      → KeepsListed P (jobs_command os procs t call w)
  unfolding jobs_command
  jobs_command-KeepsListed t call w wf =
      listed-Keeps _ _ (fd_update_jobs-IsWellFormed os call.stdout t w wf).0
