-- ===== src/System/Streams.antt =====
-- What the calls of the kernel do to the descriptors of a child.
use jsh_tyy.Base.{ℕ, Bool, false, Bytes, List, Option, none, some, ◌≡◌, ◌==ℤ◌, ℤ}
use jsh_tyy.System.{Os, Exec}

-- A descriptor refers to an open file, or to none. `close` and `dup2` change one descriptor, and the
-- other calls change no descriptor.
pub record Streams {W : Type 0} (os : Os W) (exec : Exec W) : Type 0 where
  pub target : W → ℤ → Option ℕ
  pub close_same : (fd : ℤ) (w : W) → target (os.close fd w) fd ≡ none
  pub close_other : (x fd : ℤ) (w : W) → (x ==ℤ fd) ≡ false → target (os.close x w) fd ≡ target w fd
  pub dup2_same :
      (old new : ℤ) (w : W) (file : ℕ)
      → target w old ≡ some file
      → target (exec.dup2 old new w) new ≡ some file
  pub dup2_other :
      (old new fd : ℤ) (w : W)
      → (new ==ℤ fd) ≡ false
      → target (exec.dup2 old new w) fd ≡ target w fd
  pub receive_keeps : (from fd : ℤ) (w : W) → target (exec.receive_pgid from w).1 fd ≡ target w fd
  pub send_keeps : (to pgid fd : ℤ) (w : W) → target (exec.send_pgid to pgid w).1 fd ≡ target w fd
  pub setpgid_keeps : (pgid fd : ℤ) (w : W) → target (exec.setpgid pgid w).1 fd ≡ target w fd
  pub tcsetpgrp_keeps : (pgid fd : ℤ) (w : W) → target (os.tcsetpgrp pgid w).1 fd ≡ target w fd
  pub sigaction_keeps :
      (default : Bool) (sig fd : ℤ) (w : W)
      → target (exec.sigaction default sig w).1 fd ≡ target w fd
  pub execvp_keeps :
      (name : Bytes) (argv : List Bytes) (fd : ℤ) (w : W)
      → target (exec.execvp name argv w).1 fd ≡ target w fd
