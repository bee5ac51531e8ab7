-- ===== src/Jobs/Tests.antt =====
-- src/jobs.c: the theorems at concrete jobs and tables.
pub mod Tree
use jsh_tyy.Base.{
  ◌≡◌, ◌≢◌, refl, sym, ◌∙◌, codes, List, [], ◌∷◌, ◌++◌, Option, none, some, pos, negsuc, neg, arith,
  inr, ◌*◌, ◌+◌,
}
use jsh_tyy.System.Recorder.{recorder}
use jsh_tyy.Text.Number.{show_nat}
use jsh_tyy.Jobs.{
  Job, Subjob, running, stopped, killed, done, is_job_alive, is_job_finished, job_status_from_int,
  wexitstatus,
}
use jsh_tyy.Jobs.Status.{
  update_job_status, update_job_status-verdict, verdict, succeeded, job_status_from_int_lem,
}
use jsh_tyy.Jobs.Table.{JobTable, slot, add_job, remove_job}
use jsh_tyy.Jobs.Table.Cells.{IsWellFormed}
use jsh_tyy.Jobs.Table.Update.{Added, add_job-Added}
use jsh_tyy.Jobs.Table.Remove.{Removed, remove_job-Removed}
use jsh_tyy.Jobs.Wait.{blocking_wait_for_job, fd_update_jobs}
use jsh_tyy.Jobs.Wait.Blocking.{blocking_wait_for_job-ne-running}
use jsh_tyy.Jobs.Wait.Progress.{IsAlive, fd_update_jobs-IsWellFormed, fd_update_jobs-IsAlive}
use jsh_tyy.Jobs.Control.{find_job, found}
use jsh_tyy.Jobs.Control.Lookup.{find_job-slot}

abbrev subs : List (Option Subjob)
subs =
    some (record { command = codes "sleep 9"; pid = pos 7; last_status = running })
    ∷ none
    ∷ some (record { command = codes "wc"; pid = pos 8; last_status = stopped })
    ∷ []

abbrev job : Job
job = record {
  id = 2;
  status = running;
  pgid = pos 7;
  command_string = codes "sleep 9 | wc";
  subjobs = subs;
}

abbrev table : JobTable
table = record { slots = none ∷ some job ∷ none ∷ []; size = 1; capacity = 3 }

table-IsWellFormed : IsWellFormed table
table-IsWellFormed = record { fits = refl; counted = refl; numbered = (refl, tt) }

add_job-Added_example : Added table job (add_job table (some job))
add_job-Added_example = add_job-Added table job table-IsWellFormed

remove_job-Removed_example : Removed table 1 (remove_job table 2)
remove_job-Removed_example = remove_job-Removed table 1 job table-IsWellFormed refl

update_job_status-verdict_example :
    (update_job_status recorder job []).0
    ≡ record job { status = verdict subs (succeeded (recorder.kill (neg (pos 7)) (pos 0) []).0) }
update_job_status-verdict_example = update_job_status-verdict recorder job []

decoded :
    (job_status_from_int (3 * 256) ≡ done)
    × (wexitstatus (3 * 256) ≡ 3)
    × (job_status_from_int (19 * 256 + 127) ≡ stopped)
    × (job_status_from_int (19 + 1 * 128) ≡ killed)
    × (job_status_from_int 65535 ≡ running)
decoded = job_status_from_int_lem 3 19 1 (omega arith) (omega arith) (omega arith) (omega arith)

exit_of_chief : (blocking_wait_for_job recorder job []).0 ≡ pos 3
unfolding blocking_wait_for_job jsh_tyy.Jobs.is_finished_status job_status_from_int
exit_of_chief = refl

apart : pos 3 ≢ negsuc 0
apart e = cc

not_failed : (blocking_wait_for_job recorder job []).0 ≢ negsuc 0
not_failed e = apart (sym exit_of_chief ∙ e)

blocking_wait_for_job-ne-running_example :
    (blocking_wait_for_job recorder job []).1.status ≢ running
blocking_wait_for_job-ne-running_example =
    blocking_wait_for_job-ne-running recorder (λ pid w. inr ((λ e. cc), refl)) job [] not_failed

fd_update_jobs-IsWellFormed_example :
    IsWellFormed (fd_update_jobs recorder (pos 2) table []).0
    × ((fd_update_jobs recorder (pos 2) table []).0.capacity ≡ 3)
fd_update_jobs-IsWellFormed_example =
    fd_update_jobs-IsWellFormed recorder (pos 2) table [] table-IsWellFormed

fd_update_jobs-IsAlive_example : IsAlive (slot (fd_update_jobs recorder (pos 2) table []).0.slots 1)
fd_update_jobs-IsAlive_example =
    fd_update_jobs-IsAlive recorder (pos 2) table [] 1 table-IsWellFormed (λ pid w e. cc)

find_job-slot_example : find_job table (codes "%" ++ show_nat 2) ≡ found job
find_job-slot_example = find_job-slot table 1 job table-IsWellFormed (omega arith) refl

find_job-slot_found : find_job table (codes "%" ++ show_nat 2) ≡ found job
find_job-slot_found = find_job-slot table 1 job table-IsWellFormed (omega arith) refl
