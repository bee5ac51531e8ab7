-- ===== src/Jobs/Wait.antt =====
-- src/jobs.c: waiting for the subjobs of a job, and the update of the whole table.
pub mod Progress
pub mod Blocking
pub mod Descriptors
use jsh_tyy.Base.{
  ℕ, zero, suc, ◌+◌, Bool, true, false, not, Bytes, codes, List, [], ◌∷◌, ◌++◌, Option, none, some,
  if◌then◌else◌, ◌&&◌, ◌==◌, ◌==ℤ◌, ℤ, pos, negsuc, set, length,
}
use jsh_tyy.System.{Os, report_error, polling, blocking}
use jsh_tyy.Text.Number.{show_nat, show_int}
use jsh_tyy.Jobs.{
  Job, Subjob, JobStatus, running, stopped, is, is_finished_status, is_job_finished,
  job_status_from_int, wexitstatus, job_status_to_string,
}
use jsh_tyy.Jobs.Status.{update_job_status}
use jsh_tyy.Jobs.Table.{JobTable, slot, remove_job}

-- The result, and `*last_status`; what is printed on an error is `waitpid_failed`.
unfoldable pub process_waitpid_response : ℤ → ℕ → JobStatus → ℤ × JobStatus
process_waitpid_response pid status last_status =
    if pid ==ℤ negsuc 0
    then (negsuc 0, last_status)
    else if pid ==ℤ pos 0
    then (pos 0, last_status)
    else (pos 0, job_status_from_int status)

-- Only the end of the first subjob sets the exit status.
unfoldable pub chief_status : ℕ → JobStatus → ℕ → ℕ → ℕ
chief_status i last_status status exit_status =
    if i == 0 && (not (is last_status running) && not (is last_status stopped))
    then wexitstatus status
    else exit_status

-- "[%ld]\t%d\t%s\t%s\n"
unfoldable pub job_line : Job → Bytes
job_line j =
    codes "["
    ++ (show_nat j.id
        ++ (codes "]\t"
            ++ (show_int j.pgid
                ++ (codes "\t"
                    ++ (job_status_to_string j.status
                        ++ (codes "\t" ++ (j.command_string ++ codes "\n")))))))

module _ {W : Type 0} (os : Os W) where
  unfoldable pub print_job : Job → ℤ → W → W
  print_job j fd w = os.dprintf fd (job_line j) w

  -- What `process_waitpid_response` prints where `waitpid` has failed.
  abbrev pub waitpid_failed : W → W
  waitpid_failed w = report_error os (codes "waitpid") w

  -- The loop of `wait_for_job`: whether it failed, the subjobs and the world after it.
  unfoldable pub wait_loop : List (Option Subjob) → W → Bool × List (Option Subjob) × W
  unfolding process_waitpid_response
  wait_loop [] w = (false, [], w)
  wait_loop (none ∷ subs) w = let (e, subs', w') = wait_loop subs w in (e, none ∷ subs', w')
  wait_loop (some s ∷ subs) w =
      let (skip_e, skip_subs, skip_w) = wait_loop subs w in
      let (pid, status, w') = os.waitpid s.pid polling w in
      let (result, last_status) = process_waitpid_response pid status s.last_status in
      let s' = record s { last_status = last_status } in
      let (e, subs', w'') = wait_loop subs w' in
      if is_finished_status s.last_status
      then (skip_e, some s ∷ skip_subs, skip_w)
      else if result ==ℤ negsuc 0
      then (true, some s' ∷ subs, waitpid_failed w')
      else (e, some s' ∷ subs', w'')

  unfoldable pub wait_for_job : Job → W → ℤ × Job × W
  unfolding wait_loop
  wait_for_job j w =
      let (failed, subs, w') = wait_loop j.subjobs w in
      let j' = record j { subjobs = subs } in
      let (j'', w'') = update_job_status os j' w' in
      if failed then (negsuc 0, j', w') else (pos 0, j'', w'')

  -- The loop of `blocking_wait_for_job` from subjob `i`, with `exit_status` so far.
  unfoldable pub blocking_loop :
      ℕ → ℕ → List (Option Subjob) → W → Bool × ℕ × List (Option Subjob) × W
  unfolding process_waitpid_response chief_status
  blocking_loop i exit_status [] w = (false, exit_status, [], w)
  blocking_loop i exit_status (none ∷ subs) w =
      let (e, x, subs', w') = blocking_loop (i + 1) exit_status subs w in (e, x, none ∷ subs', w')
  blocking_loop i exit_status (some s ∷ subs) w =
      let (skip_e, skip_x, skip_subs, skip_w) = blocking_loop (i + 1) exit_status subs w in
      let (pid, status, w') = os.waitpid s.pid blocking w in
      let (result, last_status) = process_waitpid_response pid status s.last_status in
      let s' = record s { last_status = last_status } in
      let exit_status' = chief_status i last_status status exit_status in
      let (e, x, subs', w'') = blocking_loop (i + 1) exit_status' subs w' in
      if is_finished_status s.last_status
      then (skip_e, skip_x, some s ∷ skip_subs, skip_w)
      else if result ==ℤ negsuc 0
      then (true, exit_status, some s' ∷ subs, waitpid_failed w')
      else (e, x, some s' ∷ subs', w'')

  unfoldable pub blocking_wait_for_job : Job → W → ℤ × Job × W
  unfolding blocking_loop
  blocking_wait_for_job j w =
      let (failed, exit_status, subs, w') = blocking_loop 0 0 j.subjobs w in
      let j' = record j { subjobs = subs } in
      let (j'', w'') = update_job_status os j' w' in
      if failed then (negsuc 0, j', w') else (pos exit_status, j'', w'')

  -- What `fd_update_jobs` does to the job of cell `i`.
  unfoldable pub update_slot : ℤ → ℕ → Option Job → JobTable → W → JobTable × W
  unfolding wait_for_job print_job
  update_slot fd i none t w = (t, w)
  update_slot fd i (some j) t w =
      let (result, j', w') = wait_for_job j w in
      let t' = record t { slots = set t.slots i (some j') } in
      let w'' = if is j.status j'.status then w' else print_job j' fd w' in
      let t'' = if is_job_finished j'.subjobs then (remove_job t' j'.id).0 else t' in
      if result ==ℤ negsuc 0 then (t', w') else (t'', w'')

  -- `left` cells from cell `i` on.
  unfoldable pub update_loop : ℤ → ℕ → ℕ → JobTable → W → JobTable × W
  unfolding update_slot
  update_loop fd i zero t w = (t, w)
  update_loop fd i (suc left) t w =
      let (t', w') = update_slot fd i (slot t.slots i) t w in update_loop fd (i + 1) left t' w'

  unfoldable pub fd_update_jobs : ℤ → JobTable → W → JobTable × W
  unfolding update_loop
  fd_update_jobs fd t w = update_loop fd 0 t.capacity t w

  -- STDERR_FILENO
  unfoldable pub update_jobs : JobTable → W → JobTable × W
  unfolding fd_update_jobs
  update_jobs t w = fd_update_jobs (pos 2) t w
