-- ===== src/Jobs/Listing/Tree.antt =====
-- src/jobs.c: the trees of processes that `jobs -t` prints, and their lines.
pub mod Printed
use jsh_tyy.Base.{
  ℕ, zero, suc, ◌+◌, ◌-◌, ◌<◌, ◌≡◌, refl, ap, ◌∙◌, ◌==◌, false, Bytes, codes, List, [], ◌∷◌, ◌++◌,
  Option, some, All, ℤ, length, arith,
}
use jsh_tyy.System.{Os}
use jsh_tyy.Text.Number.{show_nat}
use jsh_tyy.Text.Decimal.{IsInt}
use jsh_tyy.Proc.{Reads, Procs, children_pid, children_of, children_path}
use jsh_tyy.Proc.Pids.{listing, get_children-listing, get_children-empty}
use jsh_tyy.Jobs.{Subjob}
use jsh_tyy.Jobs.Listing.{
  subjob_line, children_row, children_loop, children_printed, print_children, print_subjob,
  print_job_tree,
}

-- The processes below one process, in order: the first one, those below it, and its siblings.
pub data Tree : Type 0 where
  no_more : Tree
  process : ℤ → Tree → Tree → Tree

-- The processes of the first level.
abbrev pub heads : Tree → List ℤ
heads no_more = []
heads (process pid below next) = pid ∷ heads next

-- There are at most that many levels.
abbrev pub IsShallow : ℕ → Tree → Type 0
IsShallow n no_more = Unit
IsShallow zero (process pid below next) = ⊥
IsShallow (suc n) (process pid below next) = IsShallow n below × IsShallow (suc n) next

-- What the calls of `read` return on a file with these ids: all of it, and then its end.
abbrev pub contents : List ℤ → Reads
contents [] = []
contents (pid ∷ pids) = some (listing (pid ∷ pids)) ∷ []

-- The file of the process lists the first level of the tree, and fits into the buffer.
abbrev pub Lists : ℕ → (Bytes → Option Reads) → ℤ → Tree → Type 0
Lists bufsiz files pid tree =
    (files (children_path pid) ≡ some (contents (heads tree)))
    × (All IsInt (heads tree) × (length (listing (heads tree)) < bufsiz))

-- So do the files of the processes of the tree, with those below them.
abbrev pub IsListed : ℕ → (Bytes → Option Reads) → Tree → Type 0
IsListed bufsiz files no_more = Unit
IsListed bufsiz files (process pid below next) =
    Lists bufsiz files pid below × (IsListed bufsiz files below × IsListed bufsiz files next)

-- The lines of a tree, a process before those below it.
abbrev pub rows : Subjob → ℕ → Tree → List Bytes
rows s tabulation no_more = []
rows s tabulation (process pid below next) =
    children_row s tabulation pid ∷ (rows s (tabulation + 1) below ++ rows s tabulation next)

abbrev pub job_rows : List (Subjob × Tree) → List Bytes
job_rows [] = []
job_rows ((s, tree) ∷ subs) = subjob_line s.pid s ∷ (rows s 0 tree ++ job_rows subs)

abbrev pub subjobs_of : List (Subjob × Tree) → List (Option Subjob)
subjobs_of [] = []
subjobs_of ((s, tree) ∷ subs) = some s ∷ subjobs_of subs
