-- ===== src/Jobs/Listing.antt =====
-- src/jobs.c: `jobs_command` and what it prints.
pub mod Table
pub mod Tree
use jsh_tyy.Base.{
  ℕ, zero, suc, ◌+◌, ◌==◌, ltb, Bool, true, false, not, ◌&&◌, ◌||◌, Bytes, codes, List, [], ◌∷◌,
  ◌++◌, Option, none, some, if◌then◌else◌, ◌>>=◌, ℤ, pos, replicate,
}
use jsh_tyy.System.{Os}
use jsh_tyy.Text.{str_eq, starts_with, repeat}
use jsh_tyy.Text.Number.{show_nat, show_int}
use jsh_tyy.Command.{CommandCall, argc, arg}
use jsh_tyy.Proc.{Procs, Children, undefined, null, children_pid, children_of, complain}
use jsh_tyy.Jobs.{Job, Subjob, job_status_to_string}
use jsh_tyy.Jobs.Table.{JobTable}
use jsh_tyy.Jobs.Wait.{print_job, fd_update_jobs}
use jsh_tyy.Jobs.Control.{get_job}

-- "\t%d\t%s\t%s\n"
unfoldable pub subjob_line : ℤ → Subjob → Bytes
subjob_line pid s =
    codes "\t"
    ++ (show_int pid
        ++ (codes "\t"
            ++ (job_status_to_string s.last_status ++ (codes "\t" ++ (s.command ++ codes "\n")))))

unfoldable pub children_row : Subjob → ℕ → ℤ → Bytes
unfolding subjob_line
children_row s tabulation pid =
    codes "\t" ++ (repeat (codes "\t") tabulation ++ (codes "| " ++ subjob_line pid s))

module _ {W : Type 0} (os : Os W) (procs : Procs W) where
  -- The loop over the children; `below` prints those of one of them.
  unfoldable pub children_loop : (ℤ → W → Option W) → Subjob → ℕ → ℤ → List ℤ → W → Option W
  unfolding children_row
  children_loop below s tabulation fd [] w = some w
  children_loop below s tabulation fd (pid ∷ pids) w =
      below pid (os.dprintf fd (children_row s tabulation pid) w)
      >>= (λ w'. children_loop below s tabulation fd pids w')

  unfoldable pub children_printed : (ℤ → W → Option W) → Subjob → ℕ → ℤ → Children → W → Option W
  unfolding children_loop
  children_printed below s tabulation fd undefined w = none
  children_printed below s tabulation fd (null why) w = some (complain os why w)
  children_printed below s tabulation fd (children_pid pids) w =
      children_loop below s tabulation fd pids w

  -- `none` is undefined behaviour, also where there are more calls within each other than the stack
  -- has room for.
  unfoldable pub print_children : ℕ → Subjob → ℕ → ℤ → ℤ → W → Option W
  unfolding children_printed
  print_children zero s tabulation fd pid w = none
  print_children (suc stack) s tabulation fd pid w =
      children_printed (print_children stack s (tabulation + 1) fd) s tabulation fd
        (children_of procs pid w) w

  unfoldable pub print_subjob : Subjob → ℤ → W → W
  print_subjob s fd w = os.dprintf fd (subjob_line s.pid s) w

  -- `none` is a subjob that is NULL, the one of an internal command, which is read all the same.
  unfoldable pub print_job_tree : ℕ → ℕ → List (Option Subjob) → ℤ → W → Option W
  print_job_tree id index [] fd w = some w
  print_job_tree id index (none ∷ subs) fd w = none
  print_job_tree id index (some s ∷ subs) fd w =
      let number = codes "[" ++ (show_nat id ++ codes "]") in
      let w' = print_subjob s fd (if index == 0 then os.dprintf fd number w else w) in
      print_children procs.stack s 0 fd s.pid w' >>= print_job_tree id (index + 1) subs fd

  unfoldable pub print_one : Bool → Job → ℤ → W → Option W
  print_one as_tree j fd w =
      if as_tree then print_job_tree j.id 0 j.subjobs fd w else some (print_job os j fd w)

  unfoldable pub print_all : Bool → List (Option Job) → ℤ → W → Option W
  print_all as_tree [] fd w = some w
  print_all as_tree (none ∷ slots) fd w = print_all as_tree slots fd w
  print_all as_tree (some j ∷ slots) fd w =
      print_one as_tree j fd w >>= (λ w'. print_all as_tree slots fd w')

  with_code : Option W → Option (ℤ × W)
  with_code none = none
  with_code (some w) = some (pos 0, w)

  -- The job that is named, `none` being an error that has been printed.
  named_job : Bool → Option Job × W → ℤ → Option (ℤ × W)
  unfolding with_code
  named_job as_tree (none, w) fd = some (pos 1, w)
  named_job as_tree (some j, w) fd = with_code (print_one as_tree j fd w)

  -- `jobs` once the table is up to date. `none` is undefined behaviour.
  unfoldable pub list_jobs : JobTable → CommandCall → W → Option (ℤ × W)
  unfolding named_job with_code
  list_jobs t call w =
      let first_is_tree = ltb 1 (argc call) && str_eq (arg call.argv 1) (codes "-t") in
      let last_is_tree = argc call == 3 && str_eq (arg call.argv 2) (codes "-t") in
      let as_tree = first_is_tree || last_is_tree in
      let index = if first_is_tree then 2 else 1 in
      let text = arg call.argv index in
      if ltb 3 (argc call)
      then some (pos 1, os.dprintf call.stderr (codes "jobs: too many arguments\n") w)
      else if ltb index (argc call) && starts_with text (codes "%")
      then named_job as_tree (get_job os t text call.stderr w) call.stdout
      else with_code (print_all as_tree t.slots call.stdout w)

  listed : JobTable → Option (ℤ × W) → Option (ℤ × JobTable × W)
  listed t none = none
  listed t (some (code, w)) = some (code, t, w)

  unfoldable pub jobs_command : JobTable → CommandCall → W → Option (ℤ × JobTable × W)
  unfolding listed
  jobs_command t call w =
      let (t', w') = fd_update_jobs os call.stdout t w in listed t' (list_jobs t' call w')
