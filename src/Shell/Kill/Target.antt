-- ===== src/Shell/Kill/Target.antt =====
-- src/kill.c: whom `kill` signals, and with what.
use jsh_tyy.Base.{
  ℕ, suc, ◌-◌, ◌%◌, ◌^◌, ◌<◌, ◌≡◌, refl, ltb, true, false, Bytes, codes, [], ◌∷◌, ◌++◌, Option,
  none, some, ℤ, pos, negsuc, neg, arith,
}
use jsh_tyy.System.{Os, Errno}
use jsh_tyy.Text.{starts_with}
use jsh_tyy.Text.Number.{show_nat, show_int, starts_digit, intmax_max}
use jsh_tyy.Text.Decimal.{parse_intmax_t-show_int, IsInt, InRange-IsInt, starts_digit-show}
use jsh_tyy.Command.{CommandCall}
use jsh_tyy.Jobs.{Job}
use jsh_tyy.Jobs.Control.Lookup.{find_job-slot}
use jsh_tyy.Jobs.Table.{slot}
use jsh_tyy.Jobs.Table.Cells.{IsWellFormed}
use jsh_tyy.Shell.{Shell}
use jsh_tyy.Shell.Kill.{
  kill_command, kill_with, kill_target, kill_job, kill_pid, kill_query, killed, exit_code, to_int,
}

to_int-IsInt : (z : ℤ) → IsInt z → to_int z ≡ z
to_int-IsInt (pos n) h = let e : n % 2 ^ 32 ≡ n = omega arith in rw e (ground arith)
to_int-IsInt (negsuc n) h =
    let e : 2 ^ 32 - 1 - n % 2 ^ 32 ≡ 2 ^ 32 - 1 - n = omega arith in
    let big : ltb (2 ^ 32 - 1 - n) (2 ^ 31) ≡ false = ground arith in
    let back : 2 ^ 32 - 1 - (2 ^ 32 - 1 - n) ≡ n = omega arith in rw (e, big, back)

-- The decimal form of a number does not begin with the sign %.
starts-digit : (s : Bytes) → starts_digit s ≡ true → starts_with s (codes "%") ≡ false
unfolding starts_with
starts-digit [] h = cc
starts-digit (c ∷ s) h = ground arith

starts-show_int : (z : ℤ) → starts_with (show_int z) (codes "%") ≡ false
unfolding show_int starts_with
starts-show_int (pos n) = starts-digit (show_nat n) (starts_digit-show n)
starts-show_int (negsuc n) = refl

module _ {W : Type 0} (os : Os W) where
  exit_code-sent :
      (stderr sig : ℤ) (r : Option Errno × W) (w : W)
      → r ≡ (none, w)
      → exit_code os (killed os sig stderr r) ≡ (pos 0, w)
  unfolding exit_code killed
  exit_code-sent stderr sig r w e = rw e

  -- `kill -sig pid` calls `kill` with the two numbers that are written, for every two numbers of the
  -- type `int`. Where that call succeeds the command returns 0 and does nothing else.
  pub kill_command-pid :
      (sh : Shell W) (call : CommandCall) (sig pid : ℤ) (w : W)
      → call.argv ≡ codes "kill" ∷ (codes "-" ++ show_int sig) ∷ show_int pid ∷ []
      → IsInt sig
      → IsInt pid
      → os.kill pid sig sh.world ≡ (none, w)
      → kill_command os sh call ≡ (pos 0, w)
  unfolding kill_command kill_with kill_target kill_pid kill_query starts_with
  kill_command-pid sh call sig pid w e hs hp sent =
      rw
        (
          e,
          parse_intmax_t-show_int sig (InRange-IsInt sig hs),
          starts-show_int pid,
          parse_intmax_t-show_int pid (InRange-IsInt pid hp),
          to_int-IsInt sig hs,
          to_int-IsInt pid hp,
        )
        (exit_code-sent call.stderr sig (os.kill pid sig sh.world) w sent)

  -- `kill %n`, where job n is in a well-formed table, sends SIGTERM to the process group of that job.
  -- Where the call of `kill` succeeds the command returns 0 and does nothing else.
  pub kill_command-job :
      (sh : Shell W) (call : CommandCall) (i : ℕ) (j : Job) (w : W)
      → call.argv ≡ codes "kill" ∷ (codes "%" ++ show_nat (suc i)) ∷ []
      → IsWellFormed sh.jobs
      → i < intmax_max
      → slot sh.jobs.slots i ≡ some j
      → os.kill (neg j.pgid) (pos 15) sh.world ≡ (none, w)
      → kill_command os sh call ≡ (pos 0, w)
  unfolding kill_command kill_target kill_job kill_query starts_with
  kill_command-job sh call i j w e wf h s sent =
      rw (e, find_job-slot sh.jobs i j wf h s)
        (exit_code-sent call.stderr (pos 15) (os.kill (neg j.pgid) (pos 15) sh.world) w sent)
