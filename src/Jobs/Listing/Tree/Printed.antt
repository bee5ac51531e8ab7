-- ===== src/Jobs/Listing/Tree/Printed.antt =====
-- src/jobs.c: `print_job_tree` prints the trees of the processes.
use jsh_tyy.Base.{
  ℕ, zero, suc, ◌+◌, ◌-◌, ◌<◌, ◌≡◌, refl, ap, ◌∙◌, ◌==◌, false, Bytes, codes, List, [], ◌∷◌, ◌++◌,
  Option, some, All, ℤ, arith,
}
use jsh_tyy.System.{Os}
use jsh_tyy.Text.Number.{show_nat}
use jsh_tyy.Proc.{Reads, Procs, children_pid, children_of, children_path}
use jsh_tyy.Proc.Pids.{get_children-listing, get_children-empty}
use jsh_tyy.Jobs.{Subjob}
use jsh_tyy.Jobs.Listing.{
  subjob_line, children_row, children_loop, children_printed, print_children, print_subjob,
  print_job_tree,
}
use jsh_tyy.Jobs.Listing.Tree.{
  Tree, no_more, process, heads, IsShallow, Lists, IsListed, rows, job_rows, subjobs_of,
}

module _ {W : Type 0} (os : Os W) where
  abbrev pub print_lines : ℤ → List Bytes → W → W
  print_lines fd [] w = w
  print_lines fd (text ∷ texts) w = print_lines fd texts (os.dprintf fd text w)

  print_lines-append :
      (fd : ℤ) (xs ys : List Bytes) (w : W)
      → print_lines fd (xs ++ ys) w ≡ print_lines fd ys (print_lines fd xs w)
  print_lines-append fd [] ys w = refl
  print_lines-append fd (x ∷ xs) ys w = print_lines-append fd xs ys (os.dprintf fd x w)

module _ {W : Type 0} (os : Os W) (procs : Procs W) (files : Bytes → Option Reads) where
  -- The files of /proc are these.
  abbrev Sees : W → Type 0
  Sees w = (path : Bytes) → procs.open_file path w ≡ files path

  -- Printing does not change the files of /proc.
  abbrev pub IsSteady : Type 0
  IsSteady =
      (fd : ℤ) (text path : Bytes) (w : W)
      → procs.open_file path (os.dprintf fd text w) ≡ procs.open_file path w

  Sees-lines :
      (fd : ℤ) (xs : List Bytes) (w : W) → IsSteady → Sees w → Sees (print_lines os fd xs w)
  Sees-lines fd [] w steady sees = sees
  Sees-lines fd (x ∷ xs) w steady sees =
      Sees-lines fd xs (os.dprintf fd x w) steady (λ path. steady fd x path w ∙ sees path)

  children_of-heads :
      (pid : ℤ) (tree : Tree) (w : W)
      → Sees w
      → Lists procs.bufsiz files pid tree
      → children_of procs pid w ≡ children_pid (heads tree)
  unfolding children_of
  children_of-heads pid no_more w sees (e, (ints, short)) =
      get_children-empty procs.bufsiz (λ path. procs.open_file path w) pid (omega arith)
        (sees (children_path pid) ∙ e)
  children_of-heads pid (process child below next) w sees (e, (ints, short)) =
      get_children-listing procs.bufsiz (λ path. procs.open_file path w) pid child (heads next) ints
        short (sees (children_path pid) ∙ e)

  print_children-loop :
      (n : ℕ) (s : Subjob) (tabulation : ℕ) (fd pid : ℤ) (tree : Tree) (w : W)
      → Sees w
      → Lists procs.bufsiz files pid tree
      → print_children os procs (suc n) s tabulation fd pid w
        ≡ children_loop os procs
            (print_children os procs n s (tabulation + 1) fd)
            s
            tabulation
            fd
            (heads tree)
            w
  unfolding print_children children_printed
  print_children-loop n s tabulation fd pid tree w sees lists =
      rw (children_of-heads pid tree w sees lists)

  children_loop-rows :
      (n : ℕ) (s : Subjob) (tabulation : ℕ) (fd : ℤ) (tree : Tree) (w : W)
      → IsSteady
      → IsShallow n tree
      → IsListed procs.bufsiz files tree
      → Sees w
      → children_loop os procs
          (print_children os procs n s (tabulation + 1) fd)
          s
          tabulation
          fd
          (heads tree)
          w
        ≡ some (print_lines os fd (rows s tabulation tree) w)
  unfolding children_loop
  children_loop-rows n s tabulation fd no_more w steady shallow listed sees = refl
  children_loop-rows zero s tabulation fd (process pid below next) w steady deep listed sees =
      absurd deep
  children_loop-rows (suc n) s tabulation fd (process pid below next) w steady (low, level)
        (here, (lower, same)) sees =
      let w' = os.dprintf fd (children_row s tabulation pid) w in
      let sees' : Sees w' = Sees-lines fd (children_row s tabulation pid ∷ []) w steady sees in
      let inner =
        print_children-loop n s (tabulation + 1) fd pid below w' sees' here
        ∙ children_loop-rows n s (tabulation + 1) fd below w' steady low lower sees' in
      let rest = rows s (tabulation + 1) below in
      rw (inner, print_lines-append os fd rest (rows s tabulation next) w')
        (children_loop-rows (suc n) s tabulation fd next (print_lines os fd rest w') steady level
          same (Sees-lines fd rest w' steady sees'))

  -- A subjob with its tree, which is listed and for which the stack has room.
  abbrev pub IsPrinted : Subjob × Tree → Type 0
  IsPrinted (s, tree) =
      IsShallow (procs.stack - 1) tree
      × (Lists procs.bufsiz files s.pid tree × IsListed procs.bufsiz files tree)

  print_children-rows :
      (s : Subjob) (fd : ℤ) (tree : Tree) (w : W)
      → 0 < procs.stack
      → IsSteady
      → IsPrinted (s, tree)
      → Sees w
      → print_children os procs procs.stack s 0 fd s.pid w
        ≡ some (print_lines os fd (rows s 0 tree) w)
  print_children-rows s fd tree w room steady (shallow, (here, below)) sees =
      let e : procs.stack ≡ suc (procs.stack - 1) = omega arith in
      ap (λ k. print_children os procs k s 0 fd s.pid w) e
      ∙ (print_children-loop (procs.stack - 1) s 0 fd s.pid tree w sees here
          ∙ children_loop-rows (procs.stack - 1) s 0 fd tree w steady shallow below sees)

  -- The subjobs behind the first one.
  print_job_tree-rows :
      (id index : ℕ) (subs : List (Subjob × Tree)) (fd : ℤ) (w : W)
      → 0 < index
      → 0 < procs.stack
      → IsSteady
      → All IsPrinted subs
      → Sees w
      → print_job_tree os procs id index (subjobs_of subs) fd w
        ≡ some (print_lines os fd (job_rows subs) w)
  unfolding print_job_tree print_subjob
  print_job_tree-rows id index [] fd w later room steady h sees = refl
  print_job_tree-rows id index ((s, tree) ∷ subs) fd w later room steady (h, hs) sees =
      let w' = os.dprintf fd (subjob_line s.pid s) w in
      let sees' : Sees w' = Sees-lines fd (subjob_line s.pid s ∷ []) w steady sees in
      let behind : (index == 0) ≡ false = ground arith in
      rw
        (
          behind,
          print_children-rows s fd tree w' room steady h sees',
          print_lines-append os fd (rows s 0 tree) (job_rows subs) w',
        )
        (print_job_tree-rows id (index + 1) subs fd (print_lines os fd (rows s 0 tree) w')
          (omega arith) room steady hs (Sees-lines fd (rows s 0 tree) w' steady sees'))

  -- `jobs -t` prints a job as its number and then, for each of its subjobs, the line of the subjob
  -- and the processes below it: every process before those below it, indented by their depth, with
  -- its own id, and the state and the command of the subjob that it descends from. It is
  -- assumed that the files of /proc list these trees, each in one read, that printing does not change
  -- them, that no subjob is NULL, and that the stack has room for the depth of the trees.
  pub print_job_tree-job_rows :
      (id : ℕ) (s : Subjob) (tree : Tree) (subs : List (Subjob × Tree)) (fd : ℤ) (w : W)
      → 0 < procs.stack
      → IsSteady
      → All IsPrinted ((s, tree) ∷ subs)
      → ((path : Bytes) → procs.open_file path w ≡ files path)
      → print_job_tree os procs id 0 (subjobs_of ((s, tree) ∷ subs)) fd w
        ≡ some (
            print_lines os fd
              ((codes "[" ++ (show_nat id ++ codes "]")) ∷ job_rows ((s, tree) ∷ subs))
              w)
  unfolding print_job_tree print_subjob
  print_job_tree-job_rows id s tree subs fd w room steady (h, hs) sees =
      let number = codes "[" ++ (show_nat id ++ codes "]") in
      let w' = print_lines os fd (number ∷ subjob_line s.pid s ∷ []) w in
      let sees' : Sees w' = Sees-lines fd (number ∷ subjob_line s.pid s ∷ []) w steady sees in
      rw
        (
          print_children-rows s fd tree w' room steady h sees',
          print_lines-append os fd (rows s 0 tree) (job_rows subs) w',
        )
        (print_job_tree-rows id 1 subs fd (print_lines os fd (rows s 0 tree) w') (omega arith) room
          steady hs (Sees-lines fd (rows s 0 tree) w' steady sees'))
