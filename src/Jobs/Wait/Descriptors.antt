-- ===== src/Jobs/Wait/Descriptors.antt =====
-- src/jobs.c: the blocking wait opens no descriptor.
use jsh_tyy.Base.{
  ℕ, ◌+◌, ◌≡◌, Bool, true, false, List, [], ◌∷◌, Option, none, some, if◌then◌else◌, ◌==ℤ◌, ℤ, pos,
  negsuc, neg,
}
use jsh_tyy.System.{Os, blocking}
use jsh_tyy.System.Descriptors.{Descriptors}
use jsh_tyy.Jobs.{
  Job, Subjob, is_job_running, is_job_suspended, is_job_finished, is_finished_status,
}
use jsh_tyy.Jobs.Status.{update_job_status}
use jsh_tyy.Jobs.Wait.{process_waitpid_response, blocking_loop, blocking_wait_for_job}

module _ {W : Type 0} (os : Os W) (kernel : Descriptors os) (fd : ℤ) where
  abbrev pub IsShut : W → Type 0
  IsShut w = kernel.is_open w fd ≡ false

  if-IsShut :
      {A : Type 0} (b : Bool) (f : A → W) (x y : A)
      → IsShut (f x)
      → IsShut (f y)
      → IsShut (f (if b then x else y))
  if-IsShut true f x y hx hy = hx
  if-IsShut false f x y hx hy = hy

  blocking_loop-IsShut :
      (i x : ℕ) (subs : List (Option Subjob)) (w : W)
      → IsShut w
      → IsShut (blocking_loop os i x subs w).3
  unfolding blocking_loop
  blocking_loop-IsShut i x [] w h = h
  blocking_loop-IsShut i x (none ∷ subs) w h = blocking_loop-IsShut (i + 1) x subs w h
  blocking_loop-IsShut i x (some s ∷ subs) w h =
      let (pid, status, w') = os.waitpid s.pid blocking w in
      let h' : IsShut (os.waitpid s.pid blocking w).2 = kernel.shut-waitpid s.pid blocking fd w h in
      if-IsShut (is_finished_status s.last_status)
        (λ (r : Bool × ℕ × List (Option Subjob) × W). r.3) _ _
        (blocking_loop-IsShut (i + 1) x subs w h)
        (if-IsShut ((process_waitpid_response pid status s.last_status).0 ==ℤ negsuc 0)
          (λ (r : Bool × ℕ × List (Option Subjob) × W). r.3) _ _
          (kernel.shut-dprintf (pos 2) _ fd _ h') (blocking_loop-IsShut (i + 1) _ subs _ h'))

  update_job_status-IsShut : (j : Job) (w : W) → IsShut w → IsShut (update_job_status os j w).1
  unfolding update_job_status
  update_job_status-IsShut j w h =
      if-IsShut (is_job_running j.subjobs) (λ (r : Job × W). r.1) _ _ h
        (if-IsShut (is_job_suspended j.subjobs) (λ (r : Job × W). r.1) _ _ h
          (if-IsShut (is_job_finished j.subjobs) (λ (r : Job × W). r.1) _ _
            (kernel.shut-kill (neg j.pgid) (pos 0) fd w h) h))

  -- A descriptor that is closed before the wait is closed after it.
  pub blocking_wait_for_job-IsShut :
      (j : Job) (w : W) → IsShut w → IsShut (blocking_wait_for_job os j w).2
  unfolding blocking_wait_for_job
  blocking_wait_for_job-IsShut j w h =
      let h' = blocking_loop-IsShut 0 0 j.subjobs w h in
      if-IsShut (blocking_loop os 0 0 j.subjobs w).0 (λ (r : ℤ × Job × W). r.2) _ _ h'
        (update_job_status-IsShut _ _ h')
