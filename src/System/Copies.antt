-- ===== src/System/Copies.antt =====
-- A child for tests whose world is what its descriptors refer to.
use jsh_tyy.Base.{
  ℕ, ◌≡◌, refl, true, false, if◌then◌else◌, codes, List, [], ◌∷◌, Option, none, some, ℤ, pos,
  negsuc, ◌==ℤ◌, ==ℤ_iff, arith,
}
use jsh_tyy.System.{Os, Exec, esrch}
use jsh_tyy.System.Streams.{Streams}

abbrev pub target : List (ℤ × ℕ) → ℤ → Option ℕ
target [] fd = none
target ((x, file) ∷ held) fd = if x ==ℤ fd then some file else target held fd

abbrev pub without : ℤ → List (ℤ × ℕ) → List (ℤ × ℕ)
without fd [] = []
without fd ((x, file) ∷ held) =
    let rest = without fd held in if x ==ℤ fd then rest else (x, file) ∷ rest

abbrev pub copied : ℤ → Option ℕ → List (ℤ × ℕ) → List (ℤ × ℕ)
copied new none held = held
copied new (some file) held = (new, file) ∷ held

pub without-closed : (fd : ℤ) (held : List (ℤ × ℕ)) → target (without fd held) fd ≡ none
without-closed fd [] = refl
without-closed fd ((x, file) ∷ held) = ground (arith, without-closed fd held, ==ℤ_iff x fd)

pub without-other :
    (x fd : ℤ) (held : List (ℤ × ℕ))
    → (x ==ℤ fd) ≡ false
    → target (without x held) fd ≡ target held fd
without-other x fd [] e = refl
without-other x fd ((y, file) ∷ held) e =
    ground (arith, without-other x fd held e, ==ℤ_iff y fd, ==ℤ_iff x fd, ==ℤ_iff y x)

pub same :
    (x : ℤ) (file : ℕ) (held : List (ℤ × ℕ))
    → (if x ==ℤ x then some file else target held x) ≡ some file
same x file held = let e : (x ==ℤ x) ≡ true = (==ℤ_iff x x).1 refl in rw e refl

pub copied-other :
    (new fd : ℤ) (file : Option ℕ) (held : List (ℤ × ℕ))
    → (new ==ℤ fd) ≡ false
    → target (copied new file held) fd ≡ target held fd
copied-other new fd none held e = refl
copied-other new fd (some file) held e = rw e refl

abbrev pub tables : Os (List (ℤ × ℕ))
tables = record {
  waitpid = λ pid mode w. (pos 7, 768, w);
  kill = λ pid sig w. (some esrch, w);
  tcsetpgrp = λ pgid w. (true, w);
  getpgrp = λ w. pos 1;
  dprintf = λ fd text w. w;
  close = without;
  pipe = λ w. (none, w);
  open_file = λ name mode w. (negsuc 0, w);
  getcwd = λ w. some (codes "/home");
  stat_is_dir = λ path w. true;
  stat_error = λ path w. none;
  chdir = λ path w. (true, w);
  getenv = λ name w. none;
  strerror = λ w. [];
  null_string = some (codes "(null)");
}

abbrev pub tables_exec : Exec (List (ℤ × ℕ))
tables_exec = record {
  setpgid = λ pgid w. (true, w);
  receive_pgid = λ fd w. (some (pos 7), w);
  send_pgid = λ fd pgid w. (true, w);
  sigaction = λ default sig w. (true, w);
  dup2 = λ old new w. copied new (target w old) w;
  execvp = λ name argv w. (true, w);
}

unfoldable pub tables_streams : Streams tables tables_exec
tables_streams = record {
  target = target;
  close_same = without-closed;
  close_other = without-other;
  dup2_same = λ old new w file e. rw e (same new file w);
  dup2_other = λ old new fd w e. copied-other new fd (target w old) w e;
  receive_keeps = λ from fd w. refl;
  send_keeps = λ to pgid fd w. refl;
  setpgid_keeps = λ pgid fd w. refl;
  tcsetpgrp_keeps = λ pgid fd w. refl;
  sigaction_keeps = λ default sig fd w. refl;
  execvp_keeps = λ name argv fd w. refl;
}
