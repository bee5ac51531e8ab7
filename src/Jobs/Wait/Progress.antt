-- ===== src/Jobs/Wait/Progress.antt =====
-- src/jobs.c: the update of the table and its invariant.
use jsh_tyy.Base.{
  ℕ, zero, suc, ◌+◌, ◌≤◌, ◌<◌, ◌≡◌, ◌≢◌, refl, sym, subst, ◌∙◌, Bool, true, false, List, [], ◌∷◌,
  Option, none, some, if◌then◌else◌, ◌==ℤ◌, ==ℤ_iff, ℤ, negsuc, arith, set, length,
}
use native.Mathlib.Decide.{ℕ_discrete, dec_lt}
use jsh_tyy.System.{Os, polling}
use jsh_tyy.Jobs.{Job, Subjob, is_job_finished}
use jsh_tyy.Jobs.Status.{update_job_status}
use jsh_tyy.Jobs.Wait.{
  process_waitpid_response, wait_loop, wait_for_job, update_slot, update_loop, fd_update_jobs,
}
use jsh_tyy.Jobs.Table.{JobTable, slot, remove_job}
use jsh_tyy.Jobs.Table.Cells.{
  IsWellFormed, Numbered-slot, replaced-IsWellFormed, slot-set_self, slot-set_ne, slot-lt,
}
use jsh_tyy.Jobs.Table.Remove.{remove_job-Removed}

-- No call of `waitpid` fails: every subjob that is waited for is a child of the shell.
abbrev pub NeverFails : {W : Type 0} → Os W → Type 0
NeverFails {W} os = (pid : ℤ) (w : W) → (os.waitpid pid polling w).0 ≢ negsuc 0

-- A free cell, or a job that is not finished.
abbrev pub IsAlive : Option Job → Type 0
IsAlive none = Unit
IsAlive (some j) = is_job_finished j.subjobs ≡ false

module _ {W : Type 0} (os : Os W) where
  wait_for_job-id : (j : Job) (w : W) → (wait_for_job os j w).1.id ≡ j.id
  unfolding wait_for_job update_job_status
  wait_for_job-id j w = ground arith

  wait_loop_ok :
      (subs : List (Option Subjob)) (w : W) → NeverFails os → (wait_loop os subs w).0 ≡ false
  unfolding wait_loop process_waitpid_response
  wait_loop_ok [] w ok = refl
  wait_loop_ok (none ∷ subs) w ok = wait_loop_ok subs w ok
  wait_loop_ok (some s ∷ subs) w ok =
      let (pid, status, w') = os.waitpid s.pid polling w in
      ground
        (arith, ok s.pid w, ==ℤ_iff pid (negsuc 0), wait_loop_ok subs w ok, wait_loop_ok subs w' ok)

  wait_for_job_ok :
      (j : Job) (w : W) → NeverFails os → ((wait_for_job os j w).0 ==ℤ negsuc 0) ≡ false
  unfolding wait_for_job
  wait_for_job_ok j w ok = rw (wait_loop_ok j.subjobs w ok)

-- What the update of cell `i` does, seen from outside; `P` is what it takes to leave no finished
-- job in the cell.
record Updated (P : Type 0) (t : JobTable) (i : ℕ) (u : JobTable) : Type 0 where
  well_formed : IsWellFormed u
  same_capacity : u.capacity ≡ t.capacity
  kept : (m : ℕ) → m ≢ i → slot u.slots m ≡ slot t.slots m
  alive : P → IsAlive (slot u.slots i)

module _ (P : Type 0) (t : JobTable) (i : ℕ) (j j' : Job) (wf : IsWellFormed t)
    (e : slot t.slots i ≡ some j) (same : j'.id ≡ j.id) where
  abbrev replaced : JobTable
  replaced = record t { slots = set t.slots i (some j') }

  replaced-wf : IsWellFormed replaced
  replaced-wf = replaced-IsWellFormed t i j j' wf e same

  replaced-at : slot replaced.slots i ≡ some j'
  replaced-at = slot-set_self t.slots i (some j') (slot-lt t.slots i j e)

  replaced-kept : (m : ℕ) → m ≢ i → slot replaced.slots m ≡ slot t.slots m
  replaced-kept m h = slot-set_ne t.slots i m (some j') h

  job_number : j'.id ≡ suc i
  job_number = same ∙ (Numbered-slot t.slots 0 i j wf.numbered e ∙ omega arith)

  freed-Updated : Updated P t i (remove_job replaced j'.id).0
  freed-Updated =
      let r = remove_job-Removed replaced i j' replaced-wf replaced-at in
      subst (λ n. Updated P t i (remove_job replaced n).0) (sym job_number)
        (record {
          well_formed = r.well_formed;
          same_capacity = r.same_capacity;
          kept = λ m h. r.kept m h ∙ replaced-kept m h;
          alive = λ _. rw r.cleared tt;
        })

  settle :
      (failed finished : Bool)
      → (P → failed ≡ false)
      → is_job_finished j'.subjobs ≡ finished
      → Updated P t i (
          if failed then replaced else if finished then (remove_job replaced j'.id).0 else replaced)
  settle true finished ok f = record {
    well_formed = replaced-wf;
    same_capacity = refl;
    kept = replaced-kept;
    alive = λ p. cc (ok p);
  }
  settle false true ok f = freed-Updated
  settle false false ok f = record {
    well_formed = replaced-wf;
    same_capacity = refl;
    kept = replaced-kept;
    alive = λ p. rw replaced-at f;
  }

if-fst : {A B : Type 0} (b : Bool) (x y : A × B) → (if b then x else y).0 ≡ (if b then x.0 else y.0)
if-fst true x y = refl
if-fst false x y = refl

module _ {W : Type 0} (os : Os W) where
  update_slot-Updated :
      (fd : ℤ) (i : ℕ) (t : JobTable) (w : W) (x : Option Job)
      → IsWellFormed t
      → slot t.slots i ≡ x
      → Updated (NeverFails os) t i (update_slot os fd i x t w).0
  unfolding update_slot
  update_slot-Updated fd i t w none wf e = record {
    well_formed = wf;
    same_capacity = refl;
    kept = λ m h. refl;
    alive = λ _. rw e tt;
  }
  update_slot-Updated fd i t w (some j) wf e =
      let (result, j', w') = wait_for_job os j w in
      rw (if-fst {A = JobTable} {B = W} (result ==ℤ negsuc 0)) (
        settle (NeverFails os) t i j j' wf e (wait_for_job-id os j w) (result ==ℤ negsuc 0)
          (is_job_finished j'.subjobs) (wait_for_job_ok os j w) refl)

  -- The cells in front of `i`, and cell `i` itself.
  earlier :
      (i : ℕ) (t t' : JobTable)
      → ((m : ℕ) → m ≢ i → slot t'.slots m ≡ slot t.slots m)
      → IsAlive (slot t'.slots i)
      → ((m : ℕ) → m < i → IsAlive (slot t.slots m))
      → (k : ℕ) → k < i + 1
      → IsAlive (slot t'.slots k)
  earlier i t t' kept alive before k lt = elim (ℕ_discrete k i) [
    | yes e ↦ rw e alive
    | no h ↦ rw (kept k h) (before k (omega arith))
  ]

  update_loop-Updated :
      (fd : ℤ) (left i : ℕ) (t : JobTable) (w : W)
      → IsWellFormed t
      → let u = (update_loop os fd i left t w).0 in
        IsWellFormed u
        × (u.capacity ≡ t.capacity)
        × (NeverFails os
            → ((m : ℕ) → m < i → IsAlive (slot t.slots m))
            → (m : ℕ) → m < i + left
            → IsAlive (slot u.slots m))
  unfolding update_loop
  update_loop-Updated fd zero i t w wf = (wf, refl, λ ok before m h. before m (omega arith))
  update_loop-Updated fd (suc left) i t w wf =
      let (t', w') = update_slot os fd i (slot t.slots i) t w in
      let step = update_slot-Updated fd i t w (slot t.slots i) wf refl in
      let (wf', cap, rest) = update_loop-Updated fd left (i + 1) t' w' step.well_formed in
      (
        wf',
        cap ∙ step.same_capacity,
        λ ok before m h.
            rest ok (λ k lt. earlier i t t' step.kept (step.alive ok) before k lt) m (omega arith),
      )

slot_outside : (slots : List (Option Job)) (m : ℕ) → length slots ≤ m → slot slots m ≡ none
slot_outside [] m h = refl
slot_outside (x ∷ slots) zero h = absurd (omega arith)
slot_outside (x ∷ slots) (suc m) h = slot_outside slots m (omega arith)

-- The update of a well-formed table leaves it well formed and as long as it was, whatever `waitpid`
-- returns.
pub fd_update_jobs-IsWellFormed :
    {W : Type 0} (os : Os W) (fd : ℤ) (t : JobTable) (w : W)
    → IsWellFormed t
    → IsWellFormed (fd_update_jobs os fd t w).0
      × ((fd_update_jobs os fd t w).0.capacity ≡ t.capacity)
unfolding fd_update_jobs
fd_update_jobs-IsWellFormed os fd t w wf =
    let (wf', cap, rest) = update_loop-Updated os fd t.capacity 0 t w wf in (wf', cap)

-- Where no call of `waitpid` fails, the update of a well-formed table leaves no job in it that is
-- finished.
pub fd_update_jobs-IsAlive :
    {W : Type 0} (os : Os W) (fd : ℤ) (t : JobTable) (w : W) (m : ℕ)
    → IsWellFormed t
    → NeverFails os
    → IsAlive (slot (fd_update_jobs os fd t w).0.slots m)
unfolding fd_update_jobs
fd_update_jobs-IsAlive os fd t w m wf ok =
    let (wf', cap, rest) = update_loop-Updated os fd t.capacity 0 t w wf in
    everywhere _ (rest ok (λ k lt. absurd (omega arith))) wf' cap m
  where
    everywhere :
        (u : JobTable)
        → ((m : ℕ) → m < 0 + t.capacity → IsAlive (slot u.slots m))
        → IsWellFormed u
        → u.capacity ≡ t.capacity
        → (m : ℕ) → IsAlive (slot u.slots m)
    everywhere u alive wf' cap m = elim (dec_lt m t.capacity) [
      | yes lt ↦ alive m (omega arith)
      | no ge ↦ rw (slot_outside u.slots m (omega (arith, wf'.fits))) tt
    ]
