-- ===== src/Shell/Kill.antt =====
-- src/kill.c, src/fg.c and src/bg.c: the internal commands on one job.
pub mod Target
pub mod Foreground
pub mod Table
use jsh_tyy.Base.{
  ℕ, zero, suc, ◌+◌, ◌==◌, ltb, Bool, true, false, not, ◌||◌, ◌&&◌, Bytes, codes, List, [], ◌∷◌,
  ◌++◌, Option, none, some, if◌then◌else◌, ◌==ℤ◌, ℤ, pos, neg, drop, ◌%◌, ◌^◌, negsuc, ◌-◌,
}
use jsh_tyy.System.{Os, Errno, einval, esrch}
use jsh_tyy.Text.{starts_with}
use jsh_tyy.Text.Number.{show_int, Parsed, parsed, refused, parse_intmax_t}
use jsh_tyy.Command.{CommandCall, argc, arg}
use jsh_tyy.Jobs.{Job}
use jsh_tyy.Jobs.Control.{
  Found, found, failed, find_job, get_job, put_job_in_foreground, continue_job_in_background,
}
use jsh_tyy.Jobs.Table.{JobTable}
use jsh_tyy.Shell.{Shell}

abbrev pub sigterm : ℤ
sigterm = pos 15

-- The conversion of an `intmax_t` to a 32-bit `int`.
abbrev of_bits : ℕ → ℤ
of_bits n = if ltb n (2 ^ 31) then pos n else negsuc (2 ^ 32 - 1 - n)

abbrev pub to_int : ℤ → ℤ
to_int (pos n) = of_bits (n % 2 ^ 32)
to_int (negsuc n) = of_bits (2 ^ 32 - 1 - n % 2 ^ 32)

module _ {W : Type 0} (os : Os W) where
  kill_error : Errno → ℤ → W → Bytes
  kill_error einval sig w = codes "kill: " ++ (show_int sig ++ codes ": invalid signal.\n")
  kill_error esrch sig w = codes "kill: " ++ (show_int sig ++ codes ": no such process.\n")
  kill_error _ sig w = codes "kill: kill failure. (" ++ (os.strerror w ++ codes ")\n")

  killed : ℤ → ℤ → Option Errno × W → Bool × W
  killed sig stderr (none, w) = (true, w)
  killed sig stderr (some e, w) = (false, os.dprintf stderr (kill_error e sig w) w)

  unfoldable pub kill_query : ℤ → ℤ → ℤ → W → Bool × W
  unfolding killed kill_error
  kill_query stderr pid sig w = killed sig stderr (os.kill pid sig w)

  exit_code : Bool × W → ℤ × W
  exit_code (ok, w) = (if ok then pos 0 else pos 1, w)

  -- `%job`: the signal goes to the whole process group.
  unfoldable pub kill_job : Found → ℤ → ℤ → W → ℤ × W
  unfolding exit_code
  kill_job (failed text) stderr sig w = (pos 1, os.dprintf stderr text w)
  kill_job (found j) stderr sig w = exit_code (kill_query stderr (neg j.pgid) sig w)

  unfoldable pub kill_pid : Parsed → ℤ → ℤ → W → ℤ × W
  unfolding exit_code
  kill_pid (refused text) stderr sig w = (pos 1, os.dprintf stderr text w)
  kill_pid (parsed value) stderr sig w = exit_code (kill_query stderr (to_int value) sig w)

  unfoldable pub kill_target : Shell W → ℤ → Bytes → ℤ → ℤ × W
  kill_target sh stderr target sig =
      if starts_with target (codes "%")
      then kill_job (find_job sh.jobs target) stderr sig sh.world
      else kill_pid (parse_intmax_t target) stderr sig sh.world

  -- The arguments behind `-sig`.
  unfoldable pub kill_with : Parsed → Shell W → CommandCall → ℤ × W
  kill_with (refused text) sh call = (pos 1, os.dprintf call.stderr text sh.world)
  kill_with (parsed value) sh call =
      if not (argc call == 3)
      then (pos 0, os.dprintf call.stderr (codes "kill: missing %job|pid argument.\n") sh.world)
      else kill_target sh call.stderr (arg call.argv 2) (to_int value)

  usage : ℤ → W → W
  usage stderr w =
      os.dprintf stderr (codes "kill: correct usage: kill [-sig] %job|pid\n")
        (os.dprintf stderr (codes "kill: incorrect usage of kill command.\n") w)

  unfoldable pub kill_command : Shell W → CommandCall → ℤ × W
  unfolding usage
  kill_command sh call =
      let first = arg call.argv 1 in
      if ltb (argc call) 2 || ltb 3 (argc call)
      then (pos 1, usage call.stderr sh.world)
      else if starts_with first (codes "-")
      then kill_with (parse_intmax_t (drop 1 first)) sh call
      else kill_target sh call.stderr first sigterm

  in_foreground : ℤ × JobTable × W → Shell W → ℤ × Shell W
  in_foreground (r, t, w) sh =
      (if r ==ℤ pos 0 then pos 1 else pos 0, record sh { jobs = t; world = w })

  unfoldable pub fg_found : Found → Shell W → CommandCall → ℤ × Shell W
  unfolding in_foreground
  fg_found (failed text) sh call =
      (pos 1, record sh { world = os.dprintf call.stderr text sh.world })
  fg_found (found j) sh call = in_foreground (put_job_in_foreground os sh.jobs j sh.world) sh

  unfoldable pub fg_command : Shell W → CommandCall → ℤ × Shell W
  fg_command sh call =
      let missing = os.dprintf call.stderr (codes "fg: missing argument\n") sh.world in
      let too_many = os.dprintf call.stderr (codes "fg: too many arguments\n") sh.world in
      if argc call == 1
      then (pos 1, record sh { world = missing })
      else if ltb 2 (argc call)
      then (pos 1, record sh { world = too_many })
      else fg_found (find_job sh.jobs (arg call.argv 1)) sh call

  in_background : ℤ × W → Shell W → ℤ × Shell W
  in_background (r, w) sh = (if r ==ℤ pos 0 then pos 1 else pos 0, record sh { world = w })

  unfoldable pub bg_found : Found → Shell W → CommandCall → ℤ × Shell W
  unfolding in_background
  bg_found (failed text) sh call =
      (pos 1, record sh { world = os.dprintf call.stderr text sh.world })
  bg_found (found j) sh call = in_background (continue_job_in_background os j sh.world) sh

  unfoldable pub bg_command : Shell W → CommandCall → ℤ × Shell W
  bg_command sh call =
      let missing = os.dprintf call.stderr (codes "bg: missing argument\n") sh.world in
      let too_many = os.dprintf call.stderr (codes "bg: too many arguments\n") sh.world in
      if argc call == 1
      then (pos 1, record sh { world = missing })
      else if ltb 2 (argc call)
      then (pos 1, record sh { world = too_many })
      else bg_found (find_job sh.jobs (arg call.argv 1)) sh call
