-- ===== src/Shell/Cd/Previous.antt =====
-- src/cd.c: the directory that `cd -` goes back to.
use jsh_tyy.Base.{
  ◌==◌, ◌≡◌, refl, Bool, true, false, ◌&&◌, Bytes, codes, [], Option, none, some, if◌then◌else◌, ℤ,
  pos,
}
use jsh_tyy.System.{Os, report_error, Errno}
use jsh_tyy.Text.{str_eq}
use jsh_tyy.Command.{CommandCall, argc, arg}
use jsh_tyy.Shell.{Shell}
use jsh_tyy.Shell.Cd.{
  cd, set_new_cwd, is_valid_path, is_valid_target_dir, valid_path, changed, after_chdir, exit_code,
  go, complain, failure, is_lwd_set,
}

module _ {W : Type 0} (os : Os W) where
  chdir_lem :
      (sh : Shell W) (target cwd : Bytes) (stderr : ℤ) (r : Bool × W)
      → ((after_chdir os cwd stderr sh r).1.lwd ≡ cwd) × ((after_chdir os cwd stderr sh r).0 ≡ r.0)
  unfolding after_chdir complain
  chdir_lem sh target cwd stderr (true, w) = (refl, refl)
  chdir_lem sh target cwd stderr (false, w) = (refl, refl)

  -- Where the target is a directory, the old working directory is stored as the last one, whether
  -- `chdir` then succeeds or fails.
  pub set_new_cwd-lwd :
      (sh : Shell W) (target cwd : Bytes) (stderr : ℤ)
      → os.stat_error target sh.world ≡ none
      → os.stat_is_dir target sh.world ≡ true
      → os.getcwd sh.world ≡ some cwd
      → ((set_new_cwd os target stderr sh).1.lwd ≡ cwd)
        × ((set_new_cwd os target stderr sh).0 ≡ (os.chdir target sh.world).0)
  unfolding set_new_cwd is_valid_target_dir is_valid_path valid_path changed complain after_chdir
  set_new_cwd-lwd sh target cwd stderr e d g =
      rw (e, d, g) (chdir_lem sh target cwd stderr (os.chdir target sh.world))

  -- A result of 0 has stored the old working directory, any other is 1; the jobs, the last exit
  -- code and the request to exit stay.
  abbrev Changes : Shell W → ℤ × Shell W → Type 0
  Changes sh (code, sh') =
      (code ≡ pos 0 → os.getcwd sh.world ≡ some sh'.lwd)
      × ((sh'.jobs ≡ sh.jobs)
          × ((sh'.last_exit_code ≡ sh.last_exit_code) × (sh'.should_exit ≡ sh.should_exit)))

  abbrev Sets : Shell W → Bool × Shell W → Type 0
  Sets sh (ok, sh') =
      (ok ≡ true → os.getcwd sh.world ≡ some sh'.lwd)
      × ((sh'.jobs ≡ sh.jobs)
          × ((sh'.last_exit_code ≡ sh.last_exit_code) × (sh'.should_exit ≡ sh.should_exit)))

  chdir-Sets :
      (sh : Shell W) (target cwd : Bytes) (stderr : ℤ) (r : Bool × W)
      → os.getcwd sh.world ≡ some cwd
      → Sets sh (after_chdir os cwd stderr sh r)
  unfolding after_chdir complain
  chdir-Sets sh target cwd stderr (true, w) g = ((λ e. g), (refl, (refl, refl)))
  chdir-Sets sh target cwd stderr (false, w) g = ((λ e. cc), (refl, (refl, refl)))

  changed-Sets :
      (sh : Shell W) (o : Option Bytes) (target : Bytes) (stderr : ℤ)
      → os.getcwd sh.world ≡ o
      → Sets sh (changed os o target stderr sh)
  unfolding changed after_chdir complain
  changed-Sets sh none target stderr g = ((λ e. cc), (refl, (refl, refl)))
  changed-Sets sh (some cwd) target stderr g = chdir-Sets sh target cwd stderr _ g

  valid-Sets :
      (sh : Shell W) (target : Bytes) (stderr : ℤ) (o : Option Errno) (dir : Bool)
      → os.stat_error target sh.world ≡ o
      → os.stat_is_dir target sh.world ≡ dir
      → Sets sh (set_new_cwd os target stderr sh)
  unfolding set_new_cwd is_valid_target_dir is_valid_path valid_path changed complain
  valid-Sets sh target stderr (some error) dir e d = rw e ((λ h. cc), (refl, (refl, refl)))
  valid-Sets sh target stderr none false e d = rw (e, d) ((λ h. cc), (refl, (refl, refl)))
  valid-Sets sh target stderr none true e d = rw (e, d) (changed-Sets sh _ target stderr refl)

  exit_code-Changes : (sh : Shell W) (r : Bool × Shell W) → Sets sh r → Changes sh (exit_code os r)
  unfolding exit_code
  exit_code-Changes sh (true, sh') (h, k) = ((λ e. h refl), k)
  exit_code-Changes sh (false, sh') (h, k) = ((λ e. cc), k)

  go-Changes :
      (sh : Shell W) (o : Option Bytes) (text : Bytes) (stderr : ℤ)
      → Changes sh (go os o text stderr sh)
  unfolding go complain
  go-Changes sh none text stderr = ((λ e. cc), (refl, (refl, refl)))
  go-Changes sh (some path) text stderr =
      exit_code-Changes sh (set_new_cwd os path stderr sh) (valid-Sets sh path stderr _ _ refl refl)

  refused-Changes : (sh : Shell W) (w : W) → Changes sh (pos 1, record sh { world = w })
  refused-Changes sh w = ((λ e. cc), (refl, (refl, refl)))

  Changes-if :
      (sh : Shell W) (b : Bool) (x y : ℤ × Shell W)
      → Changes sh x
      → Changes sh y
      → Changes sh (if b then x else y)
  Changes-if sh true x y hx hy = hx
  Changes-if sh false x y hx hy = hy

  cd-Changes : (sh : Shell W) (call : CommandCall) → Changes sh (cd os sh call)
  unfolding cd complain
  cd-Changes sh call =
      let home = os.getenv (codes "HOME") sh.world in
      let previous = if is_lwd_set sh.lwd then some sh.lwd else os.getcwd sh.world in
      let unset = codes "cd: HOME environment variable is not defined.\n" in
      let unknown = failure os (codes "getcwd") sh.world in
      let lines = report_error os (codes "cd") (
        os.dprintf call.stderr (codes "cd: correct usage: cd [directory|-]\n")
          (os.dprintf call.stderr (codes "cd: incorrect usage of cd command.\n") sh.world)) in
      let first = go os home unset call.stderr sh in
      let second = go os previous unknown call.stderr sh in
      let third = go os (some (arg call.argv 1)) [] call.stderr sh in
      let usage : ℤ × Shell W = (pos 1, record sh { world = lines }) in
      let two = argc call == 2 in
      let back = argc call == 2 && str_eq (arg call.argv 1) (codes "-") in
      Changes-if sh (argc call == 1) first (if back then second else if two then third else usage)
        (go-Changes sh home unset call.stderr)
        (Changes-if sh back second (if two then third else usage)
          (go-Changes sh previous unknown call.stderr)
          (Changes-if sh two third usage (go-Changes sh (some (arg call.argv 1)) [] call.stderr)
            (refused-Changes sh lines)))

  -- Where `cd` returns 0 the directory that was the working directory before is stored as the last
  -- one.
  pub cd-lwd :
      (sh : Shell W) (call : CommandCall)
      → (cd os sh call).0 ≡ pos 0
      → os.getcwd sh.world ≡ some (cd os sh call).1.lwd
  cd-lwd sh call = (cd-Changes sh call).0

  -- Whatever its arguments are and whether it fails or not, `cd` leaves the job table, the last exit
  -- code and the request to exit as they were.
  pub cd-frame :
      (sh : Shell W) (call : CommandCall)
      → ((cd os sh call).1.jobs ≡ sh.jobs)
        × (((cd os sh call).1.last_exit_code ≡ sh.last_exit_code)
            × ((cd os sh call).1.should_exit ≡ sh.should_exit))
  cd-frame sh call = (cd-Changes sh call).1
