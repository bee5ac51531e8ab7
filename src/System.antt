-- ===== src/System.antt =====
-- The calls of the C library and of the kernel that jsh makes. The program does not implement
-- them, so they are a parameter: a record of operations over an abstract state `W` of the world
-- outside of the shell.
pub mod Recorder
pub mod Terminal
pub mod Descriptors
pub mod Console
pub mod Files
pub mod Streams
pub mod Copies
use jsh_tyy.Base.{List, ℕ, Bool, Bytes, codes, ◌++◌, Option, ℤ, pos}

-- The flags of `open` that jsh uses, each with its access mode.
pub data OpenMode : Type 0 where
  read_only create_excl create_trunc create_append : OpenMode

pub data Errno : Type 0 where
  eacces enoent einval esrch other : Errno

pub data WaitMode : Type 0 where
  -- WNOHANG | WUNTRACED | WCONTINUED
  polling : WaitMode
  -- WUNTRACED
  blocking : WaitMode

pub record Os (W : Type 0) : Type 0 where
  -- The process id or -1, the status word, and the world after the call.
  pub waitpid : ℤ → WaitMode → W → ℤ × ℕ × W
  -- `none` is success.
  pub kill : ℤ → ℤ → W → Option Errno × W
  pub tcsetpgrp : ℤ → W → Bool × W
  -- -1 on an error.
  pub getpgrp : W → ℤ
  -- `dprintf`, with the text already formatted.
  pub dprintf : ℤ → Bytes → W → W
  pub close : ℤ → W → W
  -- `none` is an error; else the read end and the write end.
  pub pipe : W → Option (ℤ × ℤ) × W
  -- Negative on an error.
  pub open_file : Bytes → OpenMode → W → ℤ × W
  pub getcwd : W → Option Bytes
  -- Whether the path is a directory, or the error.
  pub stat_is_dir : Bytes → W → Bool
  pub stat_error : Bytes → W → Option Errno
  pub chdir : Bytes → W → Bool × W
  pub getenv : Bytes → W → Option Bytes
  pub strerror : W → Bytes
  -- What `%s` prints for NULL; the C standard leaves it undefined, which is `none`.
  pub null_string : Option Bytes

-- The calls that launch a child, as the parent sees them.
pub record Fork (W : Type 0) : Type 0 where
  -- The id of the child, or -1.
  pub fork : W → ℤ × W
  -- `write` of a process group to a descriptor, and `read` of one: whether all bytes went through.
  pub write_pgid : ℤ → ℤ → W → Bool × W
  pub read_pgid : ℤ → W → Bool × W

-- The calls that a child makes before it runs its program.
pub record Exec (W : Type 0) : Type 0 where
  pub setpgid : ℤ → W → Bool × W
  -- The process group read from a descriptor, `none` on an error.
  pub receive_pgid : ℤ → W → Option ℤ × W
  pub send_pgid : ℤ → ℤ → W → Bool × W
  -- Whether SIG_DFL, or else SIG_IGN, has been set for a signal.
  pub sigaction : Bool → ℤ → W → Bool × W
  pub dup2 : ℤ → ℤ → W → W
  -- Whether the program runs now.
  pub execvp : Bytes → List Bytes → W → Bool × W

-- `perror`
abbrev pub report_error : {W : Type 0} → Os W → Bytes → W → W
report_error os name w =
    os.dprintf (pos 2) (name ++ (codes ": " ++ (os.strerror w ++ codes "\n"))) w
