-- ===== src/System/Files.antt =====
-- A system for tests whose world is the list of the open descriptors.
use jsh_tyy.Base.{
  ◌≡◌, refl, Bool, true, false, if◌then◌else◌, codes, List, [], ◌∷◌, none, some, ℤ, pos, ◌==ℤ◌,
  ==ℤ_iff, arith,
}
use jsh_tyy.System.{Os, Fork, esrch}
use jsh_tyy.System.Descriptors.{Descriptors}

abbrev pub is_open : List ℤ → ℤ → Bool
is_open [] fd = false
is_open (x ∷ held) fd = if x ==ℤ fd then true else is_open held fd

abbrev pub without : ℤ → List ℤ → List ℤ
without fd [] = []
without fd (x ∷ held) = let rest = without fd held in if x ==ℤ fd then rest else x ∷ rest

without-closed : (fd : ℤ) (held : List ℤ) → is_open (without fd held) fd ≡ false
without-closed fd [] = refl
without-closed fd (x ∷ held) = ground (arith, without-closed fd held, ==ℤ_iff x fd)

without-shut :
    (other fd : ℤ) (held : List ℤ)
    → is_open held fd ≡ false
    → is_open (without other held) fd ≡ false
without-shut other fd [] h = refl
without-shut other fd (x ∷ held) h = ground (arith, without-shut other fd held, ==ℤ_iff x fd)

-- Every child has the id 7 and ends with the exit code 3.
abbrev pub files : Os (List ℤ)
files = record {
  waitpid = λ pid mode w. (pos 7, 768, w);
  kill = λ pid sig w. (some esrch, w);
  tcsetpgrp = λ pgid w. (true, w);
  getpgrp = λ w. pos 1;
  dprintf = λ fd text w. w;
  close = without;
  pipe = λ w. (some (pos 13, pos 14), pos 13 ∷ pos 14 ∷ w);
  open_file = λ name mode w. (pos 5, pos 5 ∷ w);
  getcwd = λ w. some (codes "/home");
  stat_is_dir = λ path w. true;
  stat_error = λ path w. none;
  chdir = λ path w. (true, w);
  getenv = λ name w. none;
  strerror = λ w. [];
  null_string = some (codes "(null)");
}

abbrev pub files_forks : Fork (List ℤ)
files_forks = record {
  fork = λ w. (pos 7, w);
  write_pgid = λ fd pgid w. (true, w);
  read_pgid = λ fd w. (true, w);
}

pub files_descriptors : Descriptors files
files_descriptors = record {
  is_open = is_open;
  closed = without-closed;
  shut-close = without-shut;
  shut-waitpid = λ pid mode fd w h. h;
  shut-kill = λ pid sig fd w h. h;
  shut-tcsetpgrp = λ pgid fd w h. h;
  shut-dprintf = λ out text fd w h. h;
}
