-- ===== src/Shell/Exit.antt =====
-- src/exit.c, src/last_exit_code_command.c and src/pwd.c.
pub mod Status
use jsh_tyy.Base.{
  ℕ, ◌==◌, ltb, Bool, true, false, not, ◌||◌, Bytes, codes, [], ◌++◌, Option, none, some,
  if◌then◌else◌, ℤ, pos, is_negative, exceeds,
}
use jsh_tyy.System.{Os, report_error}
use jsh_tyy.Text.Number.{show_int, Parsed, parsed, refused, parse_intmax_t}
use jsh_tyy.Command.{CommandCall, argc, arg}
use jsh_tyy.Jobs.Table.{are_jobs_running}
use jsh_tyy.Jobs.Wait.{update_jobs}
use jsh_tyy.Shell.{Shell}

module _ {W : Type 0} (os : Os W) where
  -- `dprintf(call->stderr, …)`.
  complain : ℤ → Bytes → Shell W → Shell W
  complain fd text sh = record sh { world = os.dprintf fd text sh.world }

  -- `exit n`.
  unfoldable pub exit_with : Parsed → Shell W → CommandCall → ℤ × Shell W
  unfolding complain
  exit_with (refused text) sh call = (pos 1, complain call.stderr text sh)
  exit_with (parsed value) sh call =
      let text =
        codes "exit: "
        ++ (arg call.argv 1 ++ codes ": number between 0 and 255 (inclusive) required\n") in
      if is_negative value || exceeds value 255
      then (pos 1, complain call.stderr text sh)
      else (value, record sh { last_exit_code = value; should_exit = true })

  unfoldable pub updated : Shell W → Shell W
  updated sh = let (t, w) = update_jobs os sh.jobs sh.world in record sh { jobs = t; world = w }

  unfoldable pub exit_command : Shell W → CommandCall → ℤ × Shell W
  unfolding complain updated
  exit_command sh call =
      let sh' = updated sh in
      if ltb 2 (argc call)
      then (pos 1, complain call.stderr (codes "exit: too many arguments\n") sh)
      else if are_jobs_running sh'.jobs.slots
      then (pos 1, complain call.stderr (codes "jsh: you have running jobs.\n") sh')
      else if argc call == 1
      then (sh'.last_exit_code, record sh' { should_exit = true })
      else if argc call == 2
      then exit_with (parse_intmax_t (arg call.argv 1)) sh' call
      else (sh'.last_exit_code, sh')

  unfoldable pub last_exit_code_command : Shell W → CommandCall → ℤ × Shell W
  unfolding complain
  last_exit_code_command sh call =
      if not (argc call == 1)
      then (pos 1, complain call.stderr (codes "?: too many arguments\n") sh)
      else (pos 0, complain call.stdout (show_int sh.last_exit_code ++ codes "\n") sh)

  -- Where `getcwd` fails, `get_current_wd` returns the constant "", which is `none`, and never NULL.
  unfoldable pub get_current_wd : W → Option Bytes × W
  get_current_wd w = elim (os.getcwd w) [
    | none ↦ (none, report_error os (codes "getcwd") w)
    | some cwd ↦ (some cwd, w)
  ]

  -- The directory is printed, and freed: to free the constant is undefined behaviour.
  unfoldable pub printed_wd : Shell W → ℤ → Option Bytes × W → Option (ℤ × Shell W)
  unfolding complain
  printed_wd sh fd (none, w) = none
  printed_wd sh fd (some cwd, w) =
      some (pos 0, complain fd (cwd ++ codes "\n") (record sh { world = w }))

  -- `none` is undefined behaviour.
  unfoldable pub pwd : Shell W → CommandCall → Option (ℤ × Shell W)
  unfolding complain get_current_wd printed_wd
  pwd sh call =
      if ltb 1 (argc call)
      then some (pos 1, complain call.stderr (codes "pwd: too many arguments\n") sh)
      else printed_wd sh call.stdout (get_current_wd sh.world)
