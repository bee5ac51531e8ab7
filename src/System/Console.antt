-- ===== src/System/Console.antt =====
-- A system for tests whose world is the process group that has the terminal.
use jsh_tyy.Base.{true, refl, if◌then◌else◌, codes, [], Option, none, some, ℤ, pos, negsuc, ◌==ℤ◌}
use jsh_tyy.System.{Os, Fork, Errno}
use jsh_tyy.System.Terminal.{Terminal}

-- Every child has ended with the exit code 3; `kill` answers with `answer`.
abbrev pub console : Option Errno → Os ℤ
console answer = record {
  waitpid = λ pid mode w. (pos 7, 768, w);
  kill = λ pid sig w. (answer, w);
  tcsetpgrp = λ pgid w. (true, pgid);
  getpgrp = λ w. pos 1;
  dprintf = λ fd text w. w;
  close = λ fd w. w;
  pipe = λ w. (some (pos 3, pos 4), w);
  open_file = λ name mode w. (pos 5, w);
  getcwd = λ w. some (codes "/home");
  stat_is_dir = λ path w. true;
  stat_error = λ path w. none;
  chdir = λ path w. (true, w);
  getenv = λ name w. none;
  strerror = λ w. [];
  null_string = some (codes "(null)");
}

-- The first child takes the terminal for its group, 7, and no other can be launched then.
abbrev pub one_child : Fork ℤ
one_child = record {
  fork = λ w. if w ==ℤ pos 7 then (negsuc 0, w) else (pos 7, w);
  write_pgid = λ fd pgid w. (true, w);
  read_pgid = λ fd w. (true, pos 7);
}

abbrev pub console_terminal : (answer : Option Errno) → Terminal (console answer)
console_terminal answer = record {
  owner = λ w. w;
  shell = pos 1;
  getpgrp_shell = λ w. refl;
  owner-tcsetpgrp = λ pgid w h. refl;
  owner-dprintf = λ fd text w. refl;
  owner-close = λ fd w. refl;
  owner-kill = λ pid sig w. refl;
}
