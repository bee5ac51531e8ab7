-- ===== src/Shell/Kill/Table.antt =====
-- src/fg.c and src/jobs.c: `fg` and the invariant of the job table.
use jsh_tyy.Base.{
  suc, ◌-◌, ◌==◌, ltb, ◌≡◌, refl, sym, subst, Bool, true, false, not, ◌==ℤ◌, codes, Option, none,
  some, if◌then◌else◌, ℤ, pos, negsuc, neg, set, arith,
}
use jsh_tyy.System.{Os, Errno}
use jsh_tyy.Command.{CommandCall, argc, arg}
use jsh_tyy.Jobs.{Job, is_job_finished}
use jsh_tyy.Jobs.Status.{update_job_status}
use jsh_tyy.Jobs.Wait.{blocking_wait_for_job}
use jsh_tyy.Jobs.Table.{JobTable, slot, remove_job}
use jsh_tyy.Jobs.Table.Cells.{
  IsWellFormed, Numbered-slot, replaced-IsWellFormed, slot-set_self, slot-lt,
}
use jsh_tyy.Jobs.Table.Remove.{remove_job-Removed}
use jsh_tyy.Jobs.Control.{
  Found, found, failed, find_job, perror, put_job_in_foreground, continued, after_wait,
  take_terminal, sigcont,
}
use jsh_tyy.Jobs.Control.Lookup.{slot-find_job}
use jsh_tyy.Shell.{Shell}
use jsh_tyy.Shell.Kill.{fg_command, fg_found, in_foreground}

module _ {W : Type 0} (os : Os W) where
  blocking_wait_for_job-id : (j : Job) (w : W) → (blocking_wait_for_job os j w).1.id ≡ j.id
  unfolding blocking_wait_for_job update_job_status
  blocking_wait_for_job-id j w = ground arith

  take_terminal-table : (t : JobTable) (w : W) → (take_terminal os t w).1 ≡ t
  unfolding take_terminal
  take_terminal-table t w = ground arith

  -- Job `j` is in the table, and `j'` is what a wait has made of it.
  module _ (t : JobTable) (j j' : Job) (wf : IsWellFormed t) (e : slot t.slots (j.id - 1) ≡ some j)
      (same : j'.id ≡ j.id) where
    replaced : JobTable
    replaced = record t { slots = set t.slots (j'.id - 1) (some j') }

    replaced-wf : IsWellFormed replaced
    unfolding replaced
    replaced-wf =
        subst (λ n. IsWellFormed (record t { slots = set t.slots (n - 1) (some j') })) (sym same)
          (replaced-IsWellFormed t (j.id - 1) j j' wf e same)

    removed-wf : IsWellFormed (remove_job replaced j'.id).0
    unfolding replaced
    removed-wf =
        let number : j.id ≡ suc (j.id - 1) =
          omega (arith, Numbered-slot t.slots 0 (j.id - 1) j wf.numbered e) in
        let at : slot (set t.slots (j'.id - 1) (some j')) (j'.id - 1) ≡ some j' =
          slot-set_self t.slots (j'.id - 1) (some j')
            (omega (arith, same, slot-lt t.slots (j.id - 1) j e)) in
        let r = remove_job-Removed replaced (j'.id - 1) j' replaced-wf at in
        let back : suc (j'.id - 1) ≡ j'.id = omega (arith, number, same) in
        subst (λ n. IsWellFormed (remove_job replaced n).0) back r.well_formed

    after_wait-wf : (code : ℤ) (w : W) → IsWellFormed (after_wait os t (code, j', w)).1
    unfolding after_wait replaced
    after_wait-wf code w = settle (code ==ℤ negsuc 0) (is_job_finished j'.subjobs)
      where
        settle :
            (lost finished : Bool)
            → IsWellFormed
                (if lost
                  then (pos 0, replaced, w)
                  else if finished
                  then take_terminal os (remove_job replaced j'.id).0 w
                  else take_terminal os replaced (jsh_tyy.Jobs.Wait.print_job os j' (pos 2) w)).1
        settle true finished = replaced-wf
        settle false true = rw (take_terminal-table (remove_job replaced j'.id).0 w) removed-wf
        settle false false = rw (take_terminal-table replaced _) replaced-wf

  continued-wf :
      (t : JobTable) (j : Job) (r : Option Errno × W)
      → IsWellFormed t
      → slot t.slots (j.id - 1) ≡ some j
      → IsWellFormed (continued os t j r).1
  unfolding continued
  continued-wf t j (some error, w) wf e = wf
  continued-wf t j (none, w) wf e =
      let (code, j', w') = blocking_wait_for_job os j w in
      after_wait-wf t j j' wf e (blocking_wait_for_job-id j w) code w'

  put_job_in_foreground-wf :
      (t : JobTable) (j : Job) (w : W)
      → IsWellFormed t
      → slot t.slots (j.id - 1) ≡ some j
      → IsWellFormed (put_job_in_foreground os t j w).1
  unfolding put_job_in_foreground
  put_job_in_foreground-wf t j w wf e = settle (os.tcsetpgrp j.pgid w)
    where
      settle :
          (r : Bool × W)
          → IsWellFormed
              (if not r.0
                then (pos 0, t, perror os (codes "tcsetpgrp") r.1)
                else continued os t j (os.kill (neg j.pgid) sigcont r.1)).1
      settle (true, w') = continued-wf t j _ wf e
      settle (false, w') = wf

  fg_found-wf :
      (sh : Shell W) (call : CommandCall) (f : Found)
      → IsWellFormed sh.jobs
      → (f ≡ find_job sh.jobs (arg call.argv 1))
      → IsWellFormed (fg_found os f sh call).1.jobs
  unfolding fg_found in_foreground
  fg_found-wf sh call (failed text) wf e = wf
  fg_found-wf sh call (found j) wf e =
      put_job_in_foreground-wf sh.jobs j sh.world wf
        (slot-find_job sh.jobs (arg call.argv 1) j wf (sym e))

  -- `fg` leaves a well-formed table well formed, whatever its arguments are and whether it fails.
  pub fg_command-IsWellFormed :
      (sh : Shell W) (call : CommandCall)
      → IsWellFormed sh.jobs
      → IsWellFormed (fg_command os sh call).1.jobs
  unfolding fg_command
  fg_command-IsWellFormed sh call wf = settle (argc call == 1) (ltb 2 (argc call))
    where
      settle :
          (none_given many : Bool)
          → IsWellFormed
              (if none_given
                then (
                  pos 1,
                  record sh {
                    world = os.dprintf call.stderr (codes "fg: missing argument\n") sh.world;
                  },
                )
                else if many
                then (
                  pos 1,
                  record sh {
                    world = os.dprintf call.stderr (codes "fg: too many arguments\n") sh.world;
                  },
                )
                else fg_found os (find_job sh.jobs (arg call.argv 1)) sh call).1.jobs
      settle true many = wf
      settle false true = wf
      settle false false = fg_found-wf sh call _ wf refl
