-- ===== src/System/Recorder.antt =====
-- A system in which every call succeeds, for tests: the world is the list of the signals sent and of
-- the descriptors closed.
use jsh_tyy.Base.{true, codes, List, [], ◌∷◌, ◌++◌, none, some, ℤ, pos, negsuc}
use jsh_tyy.System.{Os, Fork}

-- A signal with its target; a descriptor that is closed stands with -1.
abbrev pub Record : Type 0
Record = List (ℤ × ℤ)

-- Every child has ended with the exit code 3.
abbrev pub recorder : Os Record
recorder = record {
  waitpid = λ pid mode w. (pos 7, 768, w);
  kill = λ pid sig w. (none, w ++ (pid, sig) ∷ []);
  tcsetpgrp = λ pgid w. (true, w);
  getpgrp = λ w. pos 1;
  dprintf = λ fd text w. w;
  close = λ fd w. w ++ (fd, negsuc 0) ∷ [];
  pipe = λ w. (some (pos 3, pos 4), w);
  open_file = λ name mode w. (pos 5, w);
  getcwd = λ w. some (codes "/home");
  stat_is_dir = λ path w. true;
  stat_error = λ path w. none;
  chdir = λ path w. (true, w);
  getenv = λ name w. none;
  strerror = λ w. [];
  null_string = some (codes "(null)");
}

-- Every child has the id 7 and answers.
abbrev pub launcher : Fork Record
launcher = record {
  fork = λ w. (pos 7, w);
  write_pgid = λ fd pgid w. (true, w);
  read_pgid = λ fd w. (true, w);
}
