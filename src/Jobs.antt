-- ===== src/Jobs.antt =====
-- src/jobs.h and src/jobs.c: jobs, their subjobs and the tests on their statuses. The table, the
-- waits and the commands are the children.
pub mod Table
pub mod Status
pub mod Wait
pub mod Control
pub mod Listing
mod Tests
use jsh_tyy.Base.{
  ℕ, zero, suc, ◌+◌, ◌*◌, ◌/◌, ◌%◌, Bool, true, false, not, ◌||◌, ◌&&◌, Bytes, codes, List, [], ◌∷◌,
  Option, none, some, ◌==◌, ltb, if◌then◌else◌, replicate, ℤ, pos,
}

pub data JobStatus : Type 0 where
  running stopped detached killed done : JobStatus

pub JobStatus-discrete : Discrete JobStatus
JobStatus-discrete = hlevel

unfoldable pub job_status_to_string : JobStatus → Bytes
job_status_to_string running = codes "Running"
job_status_to_string stopped = codes "Stopped"
job_status_to_string done = codes "Done"
job_status_to_string killed = codes "Killed"
job_status_to_string detached = codes "Detached"

pub record Subjob : Type 0 where
  pub command : Bytes
  pub pid : ℤ
  pub last_status : JobStatus

-- `subjobs_size` is the length of `subjobs`.
pub record Job : Type 0 where
  pub id : ℕ
  pub status : JobStatus
  pub pgid : ℤ
  pub command_string : Bytes
  pub subjobs : List (Option Subjob)

unfoldable pub new_subjob : Bytes → ℤ → JobStatus → Subjob
new_subjob command pid status = record { command = command; pid = pid; last_status = status }

unfoldable pub new_job : ℕ → Bytes → Job
new_job subjobs_size command_string = record {
  id = 0;
  status = running;
  pgid = pos 0;
  command_string = command_string;
  subjobs = replicate subjobs_size none;
}

-- `==` on statuses.
abbrev pub is : JobStatus → JobStatus → Bool
is running running = true
is stopped stopped = true
is detached detached = true
is killed killed = true
is done done = true
is _ _ = false

unfoldable pub is_finished_status : JobStatus → Bool
is_finished_status s = is s done || (is s killed || is s detached)

unfoldable pub is_job_alive : List (Option Subjob) → Bool
is_job_alive [] = false
is_job_alive (none ∷ subs) = is_job_alive subs
is_job_alive (some s ∷ subs) =
    if is s.last_status running || is s.last_status stopped then true else is_job_alive subs

unfoldable pub is_job_finished : List (Option Subjob) → Bool
unfolding is_finished_status
is_job_finished [] = true
is_job_finished (none ∷ subs) = is_job_finished subs
is_job_finished (some s ∷ subs) =
    if not (is_finished_status s.last_status) then false else is_job_finished subs

killed_loop : List (Option Subjob) → Bool
killed_loop [] = false
killed_loop (none ∷ subs) = killed_loop subs
killed_loop (some s ∷ subs) = if is s.last_status killed then true else killed_loop subs

unfoldable pub is_job_killed : List (Option Subjob) → Bool
unfolding is_job_finished killed_loop
is_job_killed subs = if not (is_job_finished subs) then false else killed_loop subs

suspended_loop : List (Option Subjob) → Bool
suspended_loop [] = true
suspended_loop (none ∷ subs) = suspended_loop subs
suspended_loop (some s ∷ subs) = if is s.last_status running then false else suspended_loop subs

unfoldable pub is_job_suspended : List (Option Subjob) → Bool
unfolding is_job_finished suspended_loop
is_job_suspended subs = if is_job_finished subs then false else suspended_loop subs

unfoldable pub is_job_running : List (Option Subjob) → Bool
is_job_running [] = false
is_job_running (none ∷ subs) = is_job_running subs
is_job_running (some s ∷ subs) = if is s.last_status running then true else is_job_running subs

-- The status word of `waitpid`, by the macros of <sys/wait.h>.
abbrev pub wifexited : ℕ → Bool
wifexited status = status % 128 == 0

abbrev pub wifstopped : ℕ → Bool
wifstopped status = status % 256 == 127

abbrev pub wifcontinued : ℕ → Bool
wifcontinued status = status == 65535

abbrev pub wifsignaled : ℕ → Bool
wifsignaled status = ltb 0 (status % 128) && ltb (status % 128) 127

abbrev pub wexitstatus : ℕ → ℕ
wexitstatus status = status / 256 % 256

unfoldable pub job_status_from_int : ℕ → JobStatus
job_status_from_int status =
    if wifexited status
    then done
    else if wifstopped status
    then stopped
    else if wifcontinued status
    then running
    else if wifsignaled status
    then killed
    else running
