-- ===== src/Shell/Cd.antt =====
-- src/cd.c.
pub mod Previous
use jsh_tyy.Base.{
  ℕ, zero, suc, ◌==◌, ltb, Bool, true, false, not, ◌&&◌, Bytes, codes, List, [], ◌∷◌, ◌++◌, Option,
  none, some, if◌then◌else◌, ℤ, pos,
}
use jsh_tyy.System.{Os, report_error, Errno, eacces, enoent}
use jsh_tyy.Text.{str_eq}
use jsh_tyy.Command.{CommandCall, argc, arg}
use jsh_tyy.Shell.{Shell}

-- `lwd` holds a byte that is not 0: an array of zeros is the empty string.
unfoldable pub is_lwd_set : Bytes → Bool
is_lwd_set [] = false
is_lwd_set (c ∷ s) = true

module _ {W : Type 0} (os : Os W) where
  complain : ℤ → Bytes → Shell W → Shell W
  complain fd text sh = record sh { world = os.dprintf fd text sh.world }

  failure : Bytes → W → Bytes
  failure call w = codes "cd: " ++ (call ++ (codes " failure. (" ++ (os.strerror w ++ codes ")\n")))

  path_error : Errno → Bytes → W → Bytes
  path_error eacces path w = codes "cd: invalid path: " ++ (path ++ codes " no access.\n")
  path_error enoent path w = codes "cd: invalid path: " ++ (path ++ codes " does not exist.\n")
  path_error _ path w = failure (codes "lstat") w

  valid_path : Option Errno → Bytes → ℤ → Shell W → Bool × Shell W
  valid_path none path stderr sh = (true, sh)
  valid_path (some e) path stderr sh = (false, complain stderr (path_error e path sh.world) sh)

  unfoldable pub is_valid_path : Bytes → ℤ → Shell W → Bool × Shell W
  unfolding valid_path complain path_error failure
  is_valid_path path stderr sh = valid_path (os.stat_error path sh.world) path stderr sh

  unfoldable pub is_valid_target_dir : Bytes → ℤ → Shell W → Bool × Shell W
  unfolding is_valid_path
  is_valid_target_dir target stderr sh =
      let (valid, sh') = is_valid_path target stderr sh in
      let text = codes "cd: " ++ (target ++ codes " is not a directory.\n") in
      if not valid
      then (false, sh')
      else if not (os.stat_is_dir target sh.world)
      then (false, complain stderr text sh')
      else (true, sh')

  -- The old working directory has been stored before `chdir` is called.
  after_chdir : Bytes → ℤ → Shell W → Bool × W → Bool × Shell W
  after_chdir cwd stderr sh (ok, w) =
      let sh' = record sh { lwd = cwd; world = w } in
      if ok then (true, sh') else (false, complain stderr (failure (codes "chdir") w) sh')

  changed : Option Bytes → Bytes → ℤ → Shell W → Bool × Shell W
  unfolding after_chdir
  changed none new_cwd stderr sh = (false, complain stderr (failure (codes "getcwd") sh.world) sh)
  changed (some cwd) new_cwd stderr sh = after_chdir cwd stderr sh (os.chdir new_cwd sh.world)

  unfoldable pub set_new_cwd : Bytes → ℤ → Shell W → Bool × Shell W
  unfolding is_valid_target_dir changed
  set_new_cwd new_cwd stderr sh =
      let (valid, sh') = is_valid_target_dir new_cwd stderr sh in
      if not valid then (false, sh') else changed (os.getcwd sh'.world) new_cwd stderr sh'

  exit_code : Bool × Shell W → ℤ × Shell W
  exit_code (ok, sh) = (if ok then pos 0 else pos 1, sh)

  -- The target of `cd`, or the text printed where there is none.
  go : Option Bytes → Bytes → ℤ → Shell W → ℤ × Shell W
  unfolding exit_code
  go none text stderr sh = (pos 1, complain stderr text sh)
  go (some path) text stderr sh = exit_code (set_new_cwd path stderr sh)

  unfoldable pub cd : Shell W → CommandCall → ℤ × Shell W
  unfolding go complain failure
  cd sh call =
      let home = os.getenv (codes "HOME") sh.world in
      let previous = if is_lwd_set sh.lwd then some sh.lwd else os.getcwd sh.world in
      let told =
        complain call.stderr (codes "cd: correct usage: cd [directory|-]\n")
          (complain call.stderr (codes "cd: incorrect usage of cd command.\n") sh) in
      let usage = record told { world = report_error os (codes "cd") told.world } in
      if argc call == 1
      then go home (codes "cd: HOME environment variable is not defined.\n") call.stderr sh
      else if argc call == 2 && str_eq (arg call.argv 1) (codes "-")
      then go previous (failure (codes "getcwd") sh.world) call.stderr sh
      else if argc call == 2
      then go (some (arg call.argv 1)) [] call.stderr sh
      else (pos 1, usage)
