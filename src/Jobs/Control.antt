-- ===== src/Jobs/Control.antt =====
-- src/jobs.c: finding a job by its number, and moving it between foreground and background.
pub mod Lookup
use jsh_tyy.Base.{
  ℕ, zero, suc, ◌+◌, ◌-◌, ◌^◌, Bool, true, false, not, ◌||◌, Bytes, codes, List, [], ◌∷◌, ◌++◌,
  Option, none, some, if◌then◌else◌, ◌==◌, ◌==ℤ◌, ltb, ℤ, pos, negsuc, neg, set, drop,
}
use jsh_tyy.System.{Os, report_error, Errno}
use jsh_tyy.Text.{starts_with}
use jsh_tyy.Text.Number.{show_nat, Parsed, parsed, refused, parse_intmax_t}
use jsh_tyy.Jobs.{Job, is_job_finished}
use jsh_tyy.Jobs.Wait.{blocking_wait_for_job, print_job}
use jsh_tyy.Jobs.Table.{JobTable, slot, remove_job}

abbrev pub sigcont : ℤ
sigcont = pos 18

-- `%ju` prints a negative number as the unsigned one of the same bits.
unfoldable pub negative_text : ℕ → Bytes
negative_text n = show_nat (2 ^ 64 - suc n) ++ codes ":%job can't be negative.\n"

unfoldable pub invalid_text : ℕ → Bytes
invalid_text id = codes "%" ++ (show_nat id ++ codes ": invalid job_id.\n")

unfoldable pub missing_text : ℕ → Bytes
missing_text id = codes "%" ++ (show_nat id ++ codes ": no such job.\n")

-- What `get_job` finds: a job, or the text of its error.
pub data Found : Type 0 where
  found : Job → Found
  failed : Bytes → Found

unfoldable pub job_of : ℕ → Option Job → Found
job_of id none = failed (missing_text id)
job_of id (some j) = found j

unfoldable pub job_numbered : JobTable → Parsed → Found
job_numbered t (refused text) = failed text
job_numbered t (parsed (negsuc n)) = failed (negative_text n)
job_numbered t (parsed (pos id)) =
    if ltb id 1 || (ltb t.capacity id || t.size == 0)
    then failed (invalid_text id)
    else job_of id (slot t.slots (id - 1))

unfoldable pub find_job : JobTable → Bytes → Found
unfolding job_numbered job_of
find_job t job_id_string =
    if not (starts_with job_id_string (codes "%"))
    then failed (codes "invalid job id (missing %)\n")
    else job_numbered t (parse_intmax_t (drop 1 job_id_string))

module _ {W : Type 0} (os : Os W) where
  unfoldable pub report : ℤ → Found → W → Option Job × W
  report error_fd (found j) w = (some j, w)
  report error_fd (failed text) w = (none, os.dprintf error_fd text w)

  -- An error is printed to `error_fd`, and gives `NULL`.
  unfoldable pub get_job : JobTable → Bytes → ℤ → W → Option Job × W
  unfolding report find_job
  get_job t job_id_string error_fd w = report error_fd (find_job t job_id_string) w

  abbrev pub perror : Bytes → W → W
  perror name w = report_error os name w

  -- The end of `put_job_in_foreground`: the shell takes the terminal back.
  unfoldable pub take_terminal : JobTable → W → ℤ × JobTable × W
  take_terminal t w =
      let shell_pgid = os.getpgrp w in
      let (taken, w') = os.tcsetpgrp shell_pgid w in
      if shell_pgid ==ℤ negsuc 0
      then (pos 0, t, perror (codes "getpgrp") w)
      else if not taken
      then (pos 0, t, perror (codes "tcsetpgrp") w')
      else (pos 1, t, w')

  -- After the wait; the job is the one of cell `id - 1`.
  unfoldable pub after_wait : JobTable → ℤ × Job × W → ℤ × JobTable × W
  after_wait t (exit_code, j, w) =
      let t' = record t { slots = set t.slots (j.id - 1) (some j) } in
      if exit_code ==ℤ negsuc 0
      then (pos 0, t', w)
      else if is_job_finished j.subjobs
      then take_terminal (remove_job t' j.id).0 w
      else take_terminal t' (print_job os j (pos 2) w)

  unfoldable pub continued : JobTable → Job → Option Errno × W → ℤ × JobTable × W
  continued t j (some error, w) = (pos 0, t, perror (codes "kill (SIGCONT)") w)
  continued t j (none, w) = after_wait t (blocking_wait_for_job os j w)

  -- 1 if the job ran in the foreground and the shell has the terminal again, else 0.
  unfoldable pub put_job_in_foreground : JobTable → Job → W → ℤ × JobTable × W
  unfolding continued after_wait take_terminal
  put_job_in_foreground t j w =
      let (given, w') = os.tcsetpgrp j.pgid w in
      if not given
      then (pos 0, t, perror (codes "tcsetpgrp") w')
      else continued t j (os.kill (neg j.pgid) sigcont w')

  unfoldable pub continue_job_in_background : Job → W → ℤ × W
  continue_job_in_background j w =
      let (error, w') = os.kill (neg j.pgid) sigcont w in
      elim error [ none ↦ (pos 1, w') | some _ ↦ (pos 0, perror (codes "kill (SIGCONT)") w') ]
