-- ===== src/Jobs/Wait/Blocking.antt =====
-- src/jobs.c: the statuses of the subjobs after a blocking wait.
use jsh_tyy.Base.{
  ℕ, ◌+◌, ◌≡◌, ◌≢◌, refl, Bool, true, false, List, [], ◌∷◌, Option, none, some, if◌then◌else◌, ◌||◌,
  ◌==ℤ◌, ==ℤ_iff, ℤ, pos, negsuc, arith, inl, inr, ◌⊎◌,
}
use jsh_tyy.System.{Os, blocking}
use jsh_tyy.Jobs.{
  Job, Subjob, JobStatus, running, is, is_finished_status, job_status_from_int, wifexited,
  wifstopped, wifsignaled,
}
use jsh_tyy.Jobs.Status.{update_job_status, update_job_status-verdict, has, verdict}
use jsh_tyy.Jobs.Wait.{
  waitpid_failed, process_waitpid_response, chief_status, blocking_loop, blocking_wait_for_job,
}

-- What POSIX says of `waitpid` with WUNTRACED alone: it fails, or it returns the id of a child that
-- has exited, was stopped, or was ended by a signal.
abbrev pub Reports : {W : Type 0} → Os W → Type 0
Reports {W} os =
    (pid : ℤ) (w : W)
    → let (p, status, w') = os.waitpid pid blocking w in
      (p ≡ negsuc 0)
      ⊎ ((p ≢ pos 0) × ((wifexited status || (wifstopped status || wifsignaled status)) ≡ true))

reported :
    (status : ℕ)
    → (wifexited status || (wifstopped status || wifsignaled status)) ≡ true
    → is (job_status_from_int status) running ≡ false
unfolding job_status_from_int
reported status h = ground arith

finished-running : (s : JobStatus) → is_finished_status s ≡ true → is s running ≡ false
unfolding is_finished_status
finished-running s h = ground arith

-- One answer of a reporting `waitpid`: an error, or a status that is not running.
response :
    (pid : ℤ) (status : ℕ) (last : JobStatus)
    → (pid ≡ negsuc 0)
      ⊎ ((pid ≢ pos 0) × ((wifexited status || (wifstopped status || wifsignaled status)) ≡ true))
    → let (r, s) = process_waitpid_response pid status last in
      ((r ==ℤ negsuc 0) ≡ true) ⊎ (is s running ≡ false)
unfolding process_waitpid_response
response pid status last (inl e) = ground arith
response pid status last (inr (ne, h)) =
    ground (arith, reported status h, ==ℤ_iff pid (pos 0), ==ℤ_iff pid (negsuc 0))

-- The three branches of the loop's body, with the rest of the loop given.
one_subjob :
    {W : Type 0} (s : Subjob) (last : JobStatus) (subs : List (Option Subjob)) (w : W) (x : ℕ)
    (finished failed : Bool) (skip go : Bool × ℕ × List (Option Subjob) × W)
    → (finished ≡ true → is s.last_status running ≡ false)
    → (failed ≡ true) ⊎ (is last running ≡ false)
    → (skip.0 ≡ false → has running skip.2 ≡ false)
    → (go.0 ≡ false → has running go.2 ≡ false)
    → let s' = record s { last_status = last } in
      let body : Bool × ℕ × List (Option Subjob) × W =
        if finished
        then (skip.0, skip.1, some s ∷ skip.2, skip.3)
        else if failed
        then (true, x, some s' ∷ subs, w)
        else (go.0, go.1, some s' ∷ go.2, go.3) in
      body.0 ≡ false → has running body.2 ≡ false
one_subjob s last subs w x true failed skip go fin res ih ih' h = rw (fin refl) (ih h)
one_subjob s last subs w x false true skip go fin res ih ih' h = cc
one_subjob s last subs w x false false skip go fin (inl e) ih ih' h = cc
one_subjob s last subs w x false false skip go fin (inr e) ih ih' h = rw e (ih' h)

verdict-ne-running :
    (subs : List (Option Subjob)) (alive : Bool)
    → has running subs ≡ false
    → verdict subs alive ≢ running
verdict-ne-running subs alive h = ground arith

module _ {W : Type 0} (os : Os W) (reports : Reports os) where
  blocking_loop-has :
      (i x : ℕ) (subs : List (Option Subjob)) (w : W)
      → (blocking_loop os i x subs w).0 ≡ false
      → has running (blocking_loop os i x subs w).2 ≡ false
  unfolding blocking_loop
  blocking_loop-has i x [] w h = refl
  blocking_loop-has i x (none ∷ subs) w h = blocking_loop-has (i + 1) x subs w h
  blocking_loop-has i x (some s ∷ subs) w h =
      let (pid, status, w') = os.waitpid s.pid blocking w in
      let (result, last) = process_waitpid_response pid status s.last_status in
      one_subjob s last subs (waitpid_failed os w') x (is_finished_status s.last_status)
        (result ==ℤ negsuc 0) (blocking_loop os (i + 1) x subs w)
        (blocking_loop os (i + 1) (chief_status i last status x) subs w')
        (finished-running s.last_status) (response pid status s.last_status (reports s.pid w))
        (blocking_loop-has (i + 1) x subs w)
        (blocking_loop-has (i + 1) (chief_status i last status x) subs w') h

  -- Unless it fails, a blocking wait leaves the job stopped or finished, never running.
  pub blocking_wait_for_job-ne-running :
      (j : Job) (w : W)
      → (blocking_wait_for_job os j w).0 ≢ negsuc 0
      → (blocking_wait_for_job os j w).1.status ≢ running
  unfolding blocking_wait_for_job
  blocking_wait_for_job-ne-running j w h =
      end (blocking_loop os 0 0 j.subjobs w) (blocking_loop-has 0 0 j.subjobs w) h
    where
      end :
          (r : Bool × ℕ × List (Option Subjob) × W)
          → (r.0 ≡ false → has running r.2 ≡ false)
          → let u = update_job_status os (record j { subjobs = r.2 }) r.3 in
            let out : ℤ × Job × W =
              if r.0 then (negsuc 0, record j { subjobs = r.2 }, r.3) else (pos r.1, u.0, u.1) in
            out.0 ≢ negsuc 0 → out.1.status ≢ running
      end (true, x, subs, w') none_running ne = absurd (ne refl)
      end (false, x, subs, w') none_running ne =
          let j' = record j { subjobs = subs } in
          rw (update_job_status-verdict os j' w') (verdict-ne-running subs _ (none_running refl))
