-- ===== src/Parse/Redirect.antt =====
-- src/command.c: `parse_redirections`.
pub mod Target
use jsh_tyy.Base.{
  ℕ, Bytes, codes, List, ◌++◌, Option, none, some, if◌then◌else◌, ℤ, pos, is_negative, exceeds, set,
}
use jsh_tyy.System.{Os, OpenMode, read_only, create_excl, create_trunc, create_append}
use jsh_tyy.Text.{str_eq}
use jsh_tyy.Parse.{fd_at}

-- Which of the three descriptors a symbol redirects, and how the file is opened.
unfoldable pub redirection : Bytes → Option (ℕ × OpenMode)
redirection symbol =
    if str_eq symbol (codes "<")
    then some (0, read_only)
    else if str_eq symbol (codes ">")
    then some (1, create_excl)
    else if str_eq symbol (codes ">|")
    then some (1, create_trunc)
    else if str_eq symbol (codes ">>")
    then some (1, create_append)
    else if str_eq symbol (codes "2>")
    then some (2, create_excl)
    else if str_eq symbol (codes "2>|")
    then some (2, create_trunc)
    else if str_eq symbol (codes "2>>")
    then some (2, create_append)
    else none

module _ {W : Type 0} (os : Os W) where
  -- What is printed where `open` fails.
  open_error : OpenMode → Bytes → W → W
  open_error read_only filename w =
      os.dprintf (pos 2)
        (codes "jsh: " ++ (filename ++ (codes ": " ++ (os.strerror w ++ codes "\n")))) w
  open_error create_excl filename w =
      os.dprintf (pos 2)
        (codes "jsh: " ++ (filename ++ codes ": cannot overwrite existing file.\n")) w
  open_error create_trunc filename w = w
  open_error create_append filename w = w

  -- The descriptor that the new one replaces is closed.
  redirect : List ℤ → Bytes → Option (ℕ × OpenMode) → W → Option (List ℤ) × W
  redirect fds filename none w = (none, w)
  redirect fds filename (some (i, mode)) w =
      let (fd, w') = os.open_file filename mode w in
      let old = fd_at fds i in
      let w'' = if exceeds old 2 then os.close old w' else w' in
      if is_negative fd then (none, open_error mode filename w') else (some (set fds i fd), w'')

  -- `none` is -1.
  unfoldable pub parse_redirections : List ℤ → Bytes → Bytes → W → Option (List ℤ) × W
  unfolding redirect open_error
  parse_redirections fds symbol filename w = redirect fds filename (redirection symbol) w
