-- ===== src/Run/Launch/Loop.antt =====
-- src/internals.c: the loop of `execute_as_job`.
use jsh_tyy.Base.{
  ℕ, suc, ◌+◌, ◌==◌, Bool, true, false, ◌≡◌, refl, sym, ◌∙◌, ap, List, [], ◌∷◌, ◌++◌, append_assoc,
  Option, none, some, if◌then◌else◌, ◌==ℤ◌, ℤ, pos, negsuc, set, length, replicate, arith,
  Bool-cases, inl, inr, length-append, subst, ==ℤ_iff, set-append_here,
}
use jsh_tyy.System.{Os, Fork}
use jsh_tyy.Command.{CommandCall, Command, is_internal_command, uninitialized_pid}
use jsh_tyy.Jobs.{Job, Subjob, running, new_job, new_subjob}
use jsh_tyy.Proc.{Procs}
use jsh_tyy.Shell.{Shell}
use jsh_tyy.Shell.Internal.{Outcome, undefined, exits, returns}
use jsh_tyy.Run.{ExitInfo, execute_as_job, launched, launch_loop, with_subjob, setup_job}
use jsh_tyy.Run.Launch.{
  ForksWell, SubjobOf, SubjobsOf, leader, Step, Single, execute_single_command-Single,
}

-- The group of a job that has the group `pgid` before the calls of these subjobs are launched.
abbrev group : ℤ → List (Option Subjob) → ℤ
group pgid subs = if pgid ==ℤ pos 0 then leader subs else pgid

-- The loop over `calls` has appended their subjobs to `front`.
record Appends (calls : List CommandCall) (front : List (Option Subjob)) (pgid : ℤ) (j : Job)
    : Type 0 where
  subs : List (Option Subjob)
  shape : j.subjobs ≡ front ++ subs
  each : SubjobsOf calls subs
  led : j.pgid ≡ group pgid subs

abbrev Done :
    {W : Type 0}
    → List CommandCall
    → List (Option Subjob)
    → ℤ
    → Outcome W (Option ExitInfo × Job)
    → Type 0
Done calls front pgid undefined = Unit
Done calls front pgid (exits code sh) = Unit
Done calls front pgid (returns (none, j) sh) = Unit
Done calls front pgid (returns (some info, j) sh) = Appends calls front pgid j

then-subjobs : (b : Bool) (j k : Job) → b ≡ true → (if b then j else k).subjobs ≡ j.subjobs
then-subjobs true j k e = refl
then-subjobs false j k e = cc

else-subjobs : (b : Bool) (j k : Job) → b ≡ false → (if b then j else k).subjobs ≡ k.subjobs
else-subjobs true j k e = cc
else-subjobs false j k e = refl

not_zero :
    (pid : ℤ) (n : ℕ) (other : ℤ) → pid ≡ pos (suc n) → (if pid ==ℤ pos 0 then other else pid) ≡ pid
not_zero (pos m) n other e = ground arith
not_zero (negsuc m) n other e = refl

with_subjob-pgid : (b : Bool) (j k : Job) → j.pgid ≡ k.pgid → (if b then j else k).pgid ≡ k.pgid
with_subjob-pgid true j k e = e
with_subjob-pgid false j k e = refl

module _ {W : Type 0} (os : Os W) (forks : Fork W) (procs : Procs W) where
  -- The cell of the call after its launch.
  abbrev cell : Bool → CommandCall → ExitInfo → Option Subjob
  cell true call info = none
  cell false call info = some (new_subjob call.command_string info.pid running)

  with_subjob-cell :
      (b : Bool) (call : CommandCall) (info : ExitInfo) (j : Job) (pgid pgid' : ℤ)
      (front rest : List (Option Subjob))
      → Step b pgid info pgid'
      → j.subjobs ≡ front ++ none ∷ rest
      → (with_subjob os forks procs (length front) call info j).subjobs
        ≡ front ++ cell b call info ∷ rest
  unfolding with_subjob
  with_subjob-cell true call info j pgid pgid' front rest (e, h) s =
      then-subjobs _ j _ (ap (λ p. p ==ℤ uninitialized_pid) e) ∙ s
  with_subjob-cell false call info j pgid pgid' front rest (n, (e, h)) s =
      else-subjobs _ j _ (ap (λ p. p ==ℤ uninitialized_pid) e)
      ∙ (ap (λ subs. set subs (length front) (cell false call info)) s
          ∙ set-append_here front rest none (cell false call info))

  cell-SubjobOf :
      (b : Bool) (call : CommandCall) (info : ExitInfo) → SubjobOf b call (cell b call info)
  unfolding new_subjob
  cell-SubjobOf true call info = refl
  cell-SubjobOf false call info =
      (new_subjob call.command_string info.pid running, (refl, (refl, refl)))

  group-cell :
      (b : Bool) (call : CommandCall) (info : ExitInfo) (pgid pgid' : ℤ)
      (subs : List (Option Subjob))
      → Step b pgid info pgid'
      → group pgid' subs ≡ group pgid (cell b call info ∷ subs)
  unfolding new_subjob
  group-cell true call info pgid pgid' subs (e, h) = rw h
  group-cell false call info pgid pgid' subs (n, (e, h)) = elim (Bool-cases (pgid ==ℤ pos 0)) [
    | inl zeroed ↦ rw (h, zeroed) (not_zero info.pid n (leader subs) e)
    | inr led ↦ rw (h, led, led)
  ]

  -- One turn of the loop, from what it leaves on.
  turn-Done :
      (b : Bool) (call : CommandCall) (calls : List CommandCall) (front : List (Option Subjob))
      (info : ExitInfo) (pgid pgid' : ℤ) (o : Outcome W (Option ExitInfo × Job))
      → is_internal_command call ≡ b
      → Step b pgid info pgid'
      → Done calls (front ++ cell b call info ∷ []) pgid' o
      → Done (call ∷ calls) front pgid o
  turn-Done b call calls front info pgid pgid' undefined e st d = tt
  turn-Done b call calls front info pgid pgid' (exits code sh) e st d = tt
  turn-Done b call calls front info pgid pgid' (returns (none, j) sh) e st d = tt
  turn-Done b call calls front info pgid pgid' (returns (some _, j) sh) e st d = record {
    subs = cell b call info ∷ d.subs;
    shape = d.shape ∙ append_assoc front (cell b call info ∷ []) d.subs;
    each = (rw e (cell-SubjobOf b call info), d.each);
    led = d.led ∙ group-cell b call info pgid pgid' d.subs st;
  }

  abbrev Goes :
      ℕ
      → List CommandCall
      → (Option ExitInfo → Job → Shell W → Outcome W (Option ExitInfo × Job))
      → Type 0
  Goes i calls next =
      (first : Option ExitInfo) (j : Job) (sh : Shell W) (front : List (Option Subjob))
      → length front ≡ i
      → j.subjobs ≡ front ++ replicate (length calls) none
      → Done calls front j.pgid (next first j sh)

  launched-Done :
      (b : Bool) (front : List (Option Subjob)) (first : Option ExitInfo) (call : CommandCall)
      (calls : List CommandCall) (j : Job)
      (next : Option ExitInfo → Job → Shell W → Outcome W (Option ExitInfo × Job))
      (r : Outcome W (Option ExitInfo × ℤ))
      → is_internal_command call ≡ b
      → j.subjobs ≡ front ++ replicate (length (call ∷ calls)) none
      → Single b j.pgid r
      → Goes (length front + 1) calls next
      → Done
          (call ∷ calls)
          front
          j.pgid
          (launched os forks procs (length front) first call j next r)
  unfolding launched
  launched-Done b front first call calls j next undefined e s st ih = tt
  launched-Done b front first call calls j next (exits code sh) e s st ih = tt
  launched-Done b front first call calls j next (returns (none, pgid) sh) e s st ih = tt
  launched-Done b front first call calls j next (returns (some info, pgid) sh) e s st ih =
      let j' : Job = record j { pgid = pgid } in
      let first' : Option ExitInfo = if length front == 0 then some info else first in
      let n : length (front ++ cell b call info ∷ []) ≡ length front + 1 =
        omega (arith, length-append front (cell b call info ∷ [])) in
      let k = with_subjob os forks procs (length front) call info j' in
      let same : k.pgid ≡ pgid = unfold with_subjob in with_subjob-pgid _ j' _ refl in
      let shape =
        with_subjob-cell b call info j' j.pgid pgid front (replicate (length calls) none) st s
        ∙ sym (append_assoc front (cell b call info ∷ []) (replicate (length calls) none)) in
      turn-Done b call calls front info j.pgid pgid (next first' k sh) e st (
        subst (λ p. Done calls (front ++ cell b call info ∷ []) p (next first' k sh)) same
          (ih first' k sh (front ++ cell b call info ∷ []) n shape))

  launch_loop-Done :
      (calls : List CommandCall) (i : ℕ) (first : Option ExitInfo) (j : Job) (sh : Shell W)
      (front : List (Option Subjob))
      → ForksWell forks
      → length front ≡ i
      → j.subjobs ≡ front ++ replicate (length calls) none
      → Done calls front j.pgid (launch_loop os forks procs i calls first j sh)
  unfolding launch_loop
  launch_loop-Done [] i none j sh front fw n s = tt
  launch_loop-Done [] i (some info) j sh front fw n s = record {
    subs = [];
    shape = s;
    each = tt;
    led = own j.pgid;
  }
    where
      own : (p : ℤ) → p ≡ group p []
      own p = elim (Bool-cases (p ==ℤ pos 0)) [
        | inl zeroed ↦ rw zeroed ((==ℤ_iff p (pos 0)).0 zeroed)
        | inr led ↦ rw led
      ]
  launch_loop-Done (call ∷ calls) i first j sh front fw n s = rw (← n) (
      launched-Done (is_internal_command call) front first call calls j _ _ refl s
        (execute_single_command-Single os forks procs sh call j.pgid fw)
        (λ first' j' sh' front' n' s'.
          launch_loop-Done calls (length front + 1) first' j' sh' front' fw n' s'))

-- Where all the calls of a command have been launched, the job has a subjob for every call that is
-- not internal, in order, which runs under the text of the call, and none for an internal one; and
-- its process group is the id of the first of these processes, 0 if there is none.
pub execute_as_job-SubjobsOf :
    {W : Type 0} (os : Os W) (forks : Fork W) (procs : Procs W) (sh : Shell W) (c : Command)
    (info : ExitInfo) (j : Job) (sh' : Shell W)
    → ForksWell forks
    → execute_as_job os forks procs sh c (setup_job c) ≡ returns (some info, j) sh'
    → SubjobsOf c.command_calls j.subjobs × (j.pgid ≡ leader j.subjobs)
unfolding execute_as_job setup_job new_job
execute_as_job-SubjobsOf os forks procs sh c info j sh' fw e =
    let d =
      launch_loop-Done os forks procs c.command_calls 0 none (setup_job c) sh [] fw refl refl in
    let a : Appends c.command_calls [] (pos 0) j = subst (Done c.command_calls [] (pos 0)) e d in
    (subst (SubjobsOf c.command_calls) (sym a.shape) a.each, a.led ∙ ap leader (sym a.shape))
