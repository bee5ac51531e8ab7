-- ===== src/Shell/Kill/Foreground.antt =====
-- src/fg.c and src/jobs.c: `fg` and the terminal.
use jsh_tyy.Base.{
  ◌==◌, ltb, ◌≡◌, refl, ◌∙◌, Bool, true, false, not, ◌==ℤ◌, codes, Option, none, some,
  if◌then◌else◌, ℤ, pos, negsuc, neg,
}
use jsh_tyy.System.{Os, Errno}
use jsh_tyy.System.Terminal.{Terminal}
use jsh_tyy.Command.{CommandCall, argc, arg}
use jsh_tyy.Jobs.{Job, is_job_finished}
use jsh_tyy.Jobs.Wait.{blocking_wait_for_job}
use jsh_tyy.Jobs.Table.{JobTable}
use jsh_tyy.Jobs.Control.{
  Found, found, failed, find_job, perror, put_job_in_foreground, continued, after_wait,
  take_terminal, sigcont,
}
use jsh_tyy.Shell.{Shell}
use jsh_tyy.Shell.Kill.{fg_command, fg_found, in_foreground}

module _ {W : Type 0} (os : Os W) (term : Terminal os) where
  -- A result other than 0 says that the shell's group has the terminal.
  abbrev Taken : ℤ × JobTable × W → Type 0
  Taken (r, t, w) = (r ==ℤ pos 0) ≡ false → term.owner w ≡ term.shell

  Taken-if : (b : Bool) (x y : ℤ × JobTable × W) → Taken x → Taken y → Taken (if b then x else y)
  Taken-if true x y hx hy = hx
  Taken-if false x y hx hy = hy

  take_terminal-Taken : (t : JobTable) (w : W) → Taken (take_terminal os t w)
  unfolding take_terminal
  take_terminal-Taken t w =
      taken (os.getpgrp w ==ℤ negsuc 0) (os.tcsetpgrp (os.getpgrp w) w)
        (λ e. term.owner-tcsetpgrp (os.getpgrp w) w e ∙ term.getpgrp_shell w)
    where
      taken :
          (b : Bool) (r : Bool × W)
          → (r.0 ≡ true → term.owner r.1 ≡ term.shell)
          → Taken (
              if b
              then (pos 0, t, perror os (codes "getpgrp") w)
              else if not r.0
              then (pos 0, t, perror os (codes "tcsetpgrp") r.1)
              else (pos 1, t, r.1))
      taken true r h = λ e. cc
      taken false (true, w') h = λ e. h refl
      taken false (false, w') h = λ e. cc

  after_wait-Taken : (t : JobTable) (r : ℤ × Job × W) → Taken (after_wait os t r)
  unfolding after_wait
  after_wait-Taken t (code, j, w) =
      Taken-if (code ==ℤ negsuc 0) _ _ (λ e. cc)
        (Taken-if (is_job_finished j.subjobs) _ _ (take_terminal-Taken _ _)
          (take_terminal-Taken _ _))

  continued-Taken : (t : JobTable) (j : Job) (r : Option Errno × W) → Taken (continued os t j r)
  unfolding continued
  continued-Taken t j (some error, w) = λ e. cc
  continued-Taken t j (none, w) = after_wait-Taken t (blocking_wait_for_job os j w)

  put_job_in_foreground-Taken :
      (t : JobTable) (j : Job) (w : W) → Taken (put_job_in_foreground os t j w)
  unfolding put_job_in_foreground
  put_job_in_foreground-Taken t j w =
      Taken-if (not (os.tcsetpgrp j.pgid w).0) _ _ (λ e. cc)
        (continued-Taken t j (os.kill (neg j.pgid) sigcont (os.tcsetpgrp j.pgid w).1))

  abbrev Restored : ℤ × Shell W → Type 0
  Restored (code, sh) = code ≡ pos 0 → term.owner sh.world ≡ term.shell

  Restored-if :
      (b : Bool) (x y : ℤ × Shell W) → Restored x → Restored y → Restored (if b then x else y)
  Restored-if true x y hx hy = hx
  Restored-if false x y hx hy = hy

  fg_found-Restored :
      (f : Found) (sh : Shell W) (call : CommandCall) → Restored (fg_found os f sh call)
  unfolding fg_found in_foreground
  fg_found-Restored (failed text) sh call = λ e. cc
  fg_found-Restored (found j) sh call =
      let r = put_job_in_foreground os sh.jobs j sh.world in
      settle r (put_job_in_foreground-Taken sh.jobs j sh.world)
    where
      settle : (r : ℤ × JobTable × W) → Taken r → Restored (in_foreground os r sh)
      settle (r, t, w) h = coded (r ==ℤ pos 0) h
        where
          coded :
              (b : Bool)
              → (b ≡ false → term.owner w ≡ term.shell)
              → Restored (if b then pos 1 else pos 0, record sh { jobs = t; world = w })
          coded true h = λ e. cc
          coded false h = λ e. h refl

  -- Where `fg` returns 0 the shell's group has the terminal, whatever its arguments are and whichever
  -- group had it before.
  pub fg_command-terminal :
      (sh : Shell W) (call : CommandCall)
      → (fg_command os sh call).0 ≡ pos 0
      → term.owner (fg_command os sh call).1.world ≡ term.shell
  unfolding fg_command
  fg_command-terminal sh call =
      Restored-if (argc call == 1) _ _ (λ e. cc)
        (Restored-if (ltb 2 (argc call)) _ _ (λ e. cc)
          (fg_found-Restored (find_job sh.jobs (arg call.argv 1)) sh call))

  -- Where `fg` has given the terminal to the group of a job and the signal to continue it is refused,
  -- it returns 1 and that group keeps the terminal.
  pub fg_command-refused :
      (sh : Shell W) (call : CommandCall) (j : Job) (error : Errno)
      → argc call ≡ 2
      → find_job sh.jobs (arg call.argv 1) ≡ found j
      → (os.tcsetpgrp j.pgid sh.world).0 ≡ true
      → (os.kill (neg j.pgid) sigcont (os.tcsetpgrp j.pgid sh.world).1).0 ≡ some error
      → ((fg_command os sh call).0 ≡ pos 1) × (term.owner (fg_command os sh call).1.world ≡ j.pgid)
  unfolding fg_command fg_found in_foreground put_job_in_foreground continued
  fg_command-refused sh call j error two here given refused =
      rw (two, here, given)
        (refused_by (os.kill (neg j.pgid) sigcont (os.tcsetpgrp j.pgid sh.world).1) refused (
          term.owner-kill (neg j.pgid) sigcont (os.tcsetpgrp j.pgid sh.world).1
          ∙ term.owner-tcsetpgrp j.pgid sh.world given))
    where
      refused_by :
          (r : Option Errno × W)
          → r.0 ≡ some error
          → term.owner r.1 ≡ j.pgid
          → ((in_foreground os (continued os sh.jobs j r) sh).0 ≡ pos 1)
            × (term.owner (in_foreground os (continued os sh.jobs j r) sh).1.world ≡ j.pgid)
      refused_by (none, w) e h = cc
      refused_by (some _, w) e h = (refl, term.owner-dprintf (pos 2) _ w ∙ h)
