-- ===== src/Jobs/Status.antt =====
-- src/jobs.c: `update_job_status`, and the description that project.md gives of a job's status.
use jsh_tyy.Base.{
  ℕ, ◌+◌, ◌*◌, ◌<◌, ◌≡◌, refl, Bool, true, false, not, List, [], ◌∷◌, Option, none, some,
  if◌then◌else◌, ◌||◌, ◌&&◌, pos, neg, arith,
}
use jsh_tyy.System.{Os, Errno}
use jsh_tyy.Jobs.{
  Job, Subjob, JobStatus, running, stopped, detached, killed, done, is, is_finished_status,
  is_job_finished, is_job_killed, is_job_suspended, is_job_running, killed_loop, suspended_loop,
  is_job_alive, job_status_from_int, wexitstatus,
}

-- The last branch of `update_job_status`: a signal 0 to the group tells whether it still exists.
unfoldable pub finished_status : Option Errno → List (Option Subjob) → JobStatus
finished_status none subs = detached
finished_status (some e) subs = if is_job_killed subs then killed else done

module _ {W : Type 0} (os : Os W) where
  unfoldable pub update_job_status : Job → W → Job × W
  unfolding finished_status
  update_job_status j w =
      if is_job_running j.subjobs
      then (record j { status = running }, w)
      else if is_job_suspended j.subjobs
      then (record j { status = stopped }, w)
      else if is_job_finished j.subjobs
      then (let (error, w') = os.kill (neg j.pgid) (pos 0) w in
          (record j { status = finished_status error j.subjobs }, w'))
      else (record j { status = running }, w)

-- Some subjob has the status `s`.
abbrev pub has : JobStatus → List (Option Subjob) → Bool
has s [] = false
has s (none ∷ subs) = has s subs
has s (some x ∷ subs) = is x.last_status s || has s subs

running-has : (subs : List (Option Subjob)) → is_job_running subs ≡ has running subs
unfolding is_job_running
running-has [] = refl
running-has (none ∷ subs) = running-has subs
running-has (some s ∷ subs) = ground (arith, running-has subs)

killed-has : (subs : List (Option Subjob)) → killed_loop subs ≡ has killed subs
unfolding killed_loop
killed-has [] = refl
killed-has (none ∷ subs) = killed-has subs
killed-has (some s ∷ subs) = ground (arith, killed-has subs)

suspended-has : (subs : List (Option Subjob)) → suspended_loop subs ≡ not (has running subs)
unfolding suspended_loop
suspended-has [] = refl
suspended-has (none ∷ subs) = suspended-has subs
suspended-has (some s ∷ subs) = ground (arith, suspended-has subs)

finished-has :
    (subs : List (Option Subjob))
    → is_job_finished subs ≡ (not (has running subs) && not (has stopped subs))
unfolding is_job_finished is_finished_status
finished-has [] = refl
finished-has (none ∷ subs) = finished-has subs
finished-has (some s ∷ subs) = ground (arith, finished-has subs)

-- A job is alive as long as it is not finished.
pub is_job_alive-finished :
    (subs : List (Option Subjob)) → is_job_alive subs ≡ not (is_job_finished subs)
unfolding is_job_alive is_job_finished is_finished_status
is_job_alive-finished [] = refl
is_job_alive-finished (none ∷ subs) = is_job_alive-finished subs
is_job_alive-finished (some s ∷ subs) = ground (arith, is_job_alive-finished subs)

-- The status of a job by what its subjobs are, `alive` telling whether its process group exists.
abbrev pub verdict : List (Option Subjob) → Bool → JobStatus
verdict subs alive =
    if has running subs
    then running
    else if has stopped subs
    then stopped
    else if alive
    then detached
    else if has killed subs
    then killed
    else done

abbrev pub succeeded : Option Errno → Bool
succeeded none = true
succeeded (some e) = false

-- A job is running if a subjob is; else stopped if a subjob is; else detached if its group still
-- exists; else killed if a subjob was killed, and done if none was. Nothing else of the job changes.
pub update_job_status-verdict :
    {W : Type 0} (os : Os W) (j : Job) (w : W)
    → (update_job_status os j w).0
      ≡ record j { status = verdict j.subjobs (succeeded (os.kill (neg j.pgid) (pos 0) w).0) }
unfolding update_job_status is_job_suspended is_job_killed
update_job_status-verdict os j w = ground (
  arith,
  running-has j.subjobs,
  killed-has j.subjobs,
  suspended-has j.subjobs,
  finished-has j.subjobs,
)

-- The status word is decoded as the kernel encodes it: an exit with code `e`, a stop by signal `s`,
-- an end by signal `s` with or without a core dump (bit 128), and a continuation.
pub job_status_from_int_lem :
    (e s core : ℕ)
    → e < 256
    → 0 < s
    → s < 127
    → core < 2
    → (job_status_from_int (e * 256) ≡ done)
      × (wexitstatus (e * 256) ≡ e)
      × (job_status_from_int (s * 256 + 127) ≡ stopped)
      × (job_status_from_int (s + core * 128) ≡ killed)
      × (job_status_from_int 65535 ≡ running)
unfolding job_status_from_int
job_status_from_int_lem e s core he hs hs' hc =
    (ground arith, omega arith, ground arith, ground arith, refl)
