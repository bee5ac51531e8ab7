-- ===== src/Run/Launch.antt =====
-- src/internals.c: the job that `execute_as_job` makes of the calls of a command.
pub mod Loop
use native.Mathlib.Nat.{zero-add}
use jsh_tyy.Base.{
  ℕ, zero, suc, ◌+◌, ◌==◌, Bool, true, false, ◌≡◌, refl, sym, ◌∙◌, ap, ◌⊎◌, inl, inr, List, [], ◌∷◌,
  ◌++◌, append_assoc, Option, none, some, if◌then◌else◌, ◌==ℤ◌, ℤ, pos, negsuc, set, length,
  replicate, arith, Bool-cases, length-append, set-append_here,
}
use jsh_tyy.System.{Os, Fork}
use jsh_tyy.Command.{CommandCall, Command, is_internal_command, uninitialized_pid}
use jsh_tyy.Jobs.{Job, Subjob, running, new_job, new_subjob}
use jsh_tyy.Proc.{Procs}
use jsh_tyy.Shell.{Shell}
use jsh_tyy.Shell.Internal.{Outcome, undefined, exits, returns, execute_internal_command}
use jsh_tyy.Run.{
  ExitInfo, execute_single_command, execute_as_job, internal, first_pipe, second_pipe, forked, told,
  answered, launched, launch_loop, with_subjob, setup_job,
}

-- In the parent `fork` returns the id of the child, which is positive, or -1.
abbrev pub ForksWell : {W : Type 0} → Fork W → Type 0
ForksWell {W} forks =
    (w : W) → ((forks.fork w).0 ≡ negsuc 0) ⊎ ((n : ℕ) × ((forks.fork w).0 ≡ pos (suc n)))

-- The subjob of a call: none for an internal one, else one that runs under the call's text.
abbrev pub SubjobOf : Bool → CommandCall → Option Subjob → Type 0
SubjobOf true call s = s ≡ none
SubjobOf false call s =
    (sub : Subjob) × ((s ≡ some sub)
      × ((sub.command ≡ call.command_string) × (sub.last_status ≡ running)))

-- Call by call.
abbrev pub SubjobsOf : List CommandCall → List (Option Subjob) → Type 0
SubjobsOf [] [] = Unit
SubjobsOf [] (s ∷ subs) = ⊥
SubjobsOf (call ∷ calls) [] = ⊥
SubjobsOf (call ∷ calls) (s ∷ subs) =
    SubjobOf (is_internal_command call) call s × SubjobsOf calls subs

-- The process id of the first subjob, 0 if there is none.
abbrev pub leader : List (Option Subjob) → ℤ
leader [] = pos 0
leader (none ∷ subs) = leader subs
leader (some s ∷ subs) = s.pid

-- What one call that has been launched gives: the process and the group.
abbrev pub Step : Bool → ℤ → ExitInfo → ℤ → Type 0
Step true pgid info pgid' = (info.pid ≡ uninitialized_pid) × (pgid' ≡ pgid)
Step false pgid info pgid' =
    (n : ℕ) × ((info.pid ≡ pos (suc n)) × (pgid' ≡ (if pgid ==ℤ pos 0 then info.pid else pgid)))

abbrev pub Single : {W : Type 0} → Bool → ℤ → Outcome W (Option ExitInfo × ℤ) → Type 0
Single b pgid undefined = Unit
Single b pgid (exits code sh) = Unit
Single b pgid (returns (none, pgid') sh) = Unit
Single b pgid (returns (some info, pgid') sh) = Step b pgid info pgid'

module _ {W : Type 0} (os : Os W) (forks : Fork W) (procs : Procs W) where
  internal-Single : (pgid : ℤ) (r : Outcome W ℤ) → Single true pgid (internal os forks procs pgid r)
  unfolding internal
  internal-Single pgid undefined = tt
  internal-Single pgid (exits code sh) = tt
  internal-Single pgid (returns code sh) = (refl, refl)

  Single-if :
      (b : Bool) (pgid : ℤ) (c : Bool) (x y : Outcome W (Option ExitInfo × ℤ))
      → (c ≡ true → Single b pgid x)
      → (c ≡ false → Single b pgid y)
      → Single b pgid (if c then x else y)
  Single-if b pgid true x y hx hy = hx refl
  Single-if b pgid false x y hx hy = hy refl

  told-Single :
      (n : ℕ) (pgid writing reading : ℤ) (sh : Shell W) (r : Bool × W)
      → Single false pgid (
          told os forks procs
            (pos (suc n))
            (if pgid ==ℤ pos 0 then pos (suc n) else pgid)
            writing
            reading
            sh
            r)
  unfolding told
  told-Single n pgid writing reading sh (false, w) = tt
  told-Single n pgid writing reading sh (true, w) =
      answered-Single (forks.read_pgid reading (os.close writing w))
    where
      answered-Single :
          (r : Bool × W)
          → Single false pgid (
              answered os forks procs
                (pos (suc n))
                (if pgid ==ℤ pos 0 then pos (suc n) else pgid)
                reading
                sh
                r)
      answered-Single (false, w) = unfold answered in tt
      answered-Single (true, w) = unfold answered in (n, (refl, refl))

  forked-Single :
      (pgid : ℤ) (a b : ℤ × ℤ) (sh : Shell W) (r : ℤ × W)
      → (r.0 ≡ negsuc 0) ⊎ ((n : ℕ) × (r.0 ≡ pos (suc n)))
      → Single false pgid (forked os forks procs pgid a b sh r)
  unfolding forked
  forked-Single pgid (reading, writing) (reading', writing') sh (pid, w) (inl e) = rw e tt
  forked-Single pgid (reading, writing) (reading', writing') sh (pid, w) (inr (n, e)) =
      rw e (told-Single n pgid writing reading' sh _)

  first_pipe-Single :
      (pgid : ℤ) (sh : Shell W) (r : Option (ℤ × ℤ) × W)
      → ForksWell forks
      → Single false pgid (first_pipe os forks procs pgid sh r)
  unfolding first_pipe
  first_pipe-Single pgid sh (none, w) fw = tt
  first_pipe-Single pgid sh (some first, w) fw = second_pipe-Single (os.pipe w)
    where
      second_pipe-Single :
          (r : Option (ℤ × ℤ) × W) → Single false pgid (second_pipe os forks procs pgid first sh r)
      second_pipe-Single (none, w') = unfold second_pipe in tt
      second_pipe-Single (some second, w') =
          unfold second_pipe in forked-Single pgid first second sh (forks.fork w') (fw w')

  pub execute_single_command-Single :
      (sh : Shell W) (call : CommandCall) (pgid : ℤ)
      → ForksWell forks
      → Single (is_internal_command call) pgid (execute_single_command os forks procs sh call pgid)
  unfolding execute_single_command
  execute_single_command-Single sh call pgid fw = elim (Bool-cases (is_internal_command call)) [
    | inl own ↦ rw own (internal-Single pgid (execute_internal_command os procs sh call))
    | inr other ↦ rw other (first_pipe-Single pgid sh (os.pipe sh.world) fw)
  ]
