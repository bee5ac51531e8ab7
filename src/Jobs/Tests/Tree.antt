-- ===== src/Jobs/Tests/Tree.antt =====
-- src/jobs.c: the tree of processes of one job.
use jsh_tyy.Base.{
  ◌≡◌, refl, true, if◌then◌else◌, Bytes, codes, List, [], ◌∷◌, ◌++◌, Option, none, some, pos, arith,
}
use jsh_tyy.System.{Os}
use jsh_tyy.Text.{str_eq, join_strings, repeat}
use jsh_tyy.Text.Number.{show_int, show_nat, digits}
use jsh_tyy.Proc.{Reads, Procs, children_path}
use jsh_tyy.Jobs.{Subjob, running, job_status_to_string}
use jsh_tyy.Jobs.Listing.{print_job_tree, subjob_line, children_row}
use jsh_tyy.Jobs.Listing.Tree.{Tree, no_more, process}
use jsh_tyy.Jobs.Listing.Tree.Printed.{IsPrinted, print_job_tree-job_rows}

-- A system that keeps what is printed.
abbrev printer : Os (List Bytes)
printer = record {
  waitpid = λ pid mode w. (pos 7, 768, w);
  kill = λ pid sig w. (none, w);
  tcsetpgrp = λ pgid w. (true, w);
  getpgrp = λ w. pos 1;
  dprintf = λ fd text w. w ++ text ∷ [];
  close = λ fd w. w;
  pipe = λ w. (some (pos 3, pos 4), w);
  open_file = λ name mode w. (pos 5, w);
  getcwd = λ w. some (codes "/home");
  stat_is_dir = λ path w. true;
  stat_error = λ path w. none;
  chdir = λ path w. (true, w);
  getenv = λ name w. none;
  strerror = λ w. [];
  null_string = some (codes "(null)");
}

-- The process 7 has the child 8, and that one 9.
abbrev files : Bytes → Option Reads
files path =
    if str_eq path (codes "/proc/7/task/7/children")
    then some (some (codes "8 ") ∷ [])
    else if str_eq path (codes "/proc/8/task/8/children")
    then some (some (codes "9 ") ∷ [])
    else some []

abbrev procs : Procs (List Bytes)
procs = record { bufsiz = 16; stack = 3; open_file = λ path w. files path }

abbrev make : Subjob
make = record { command = codes "make"; pid = pos 7; last_status = running }

abbrev below_make : Tree
below_make = process (pos 8) (process (pos 9) no_more no_more) no_more

make-IsPrinted : IsPrinted printer procs files (make, below_make)
unfolding str_eq join_strings show_int show_nat digits children_path
make-IsPrinted = (
  ((tt, tt), tt),
  (
    (refl, ((omega arith, tt), omega arith)),
    ((refl, ((omega arith, tt), omega arith)), (((refl, (tt, omega arith)), (tt, tt)), tt)),
  ),
)

print_job_tree-job_rows_example :
    print_job_tree printer procs 1 0 (some make ∷ []) (pos 1) []
    ≡ some (
        codes "[1]"
        ∷ codes "\t7\tRunning\tmake\n"
        ∷ codes "\t| \t8\tRunning\tmake\n"
        ∷ codes "\t\t| \t9\tRunning\tmake\n"
        ∷ [])
unfolding subjob_line children_row show_int show_nat digits repeat job_status_to_string
print_job_tree-job_rows_example =
    print_job_tree-job_rows printer procs files 1 make below_make [] (pos 1) [] (omega arith)
      (λ fd text path w. refl) (make-IsPrinted, tt) (λ path. refl)
