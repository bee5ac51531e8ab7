-- ===== src/System/Descriptors.antt =====
-- What the calls of the kernel do to the descriptors of the shell.
use jsh_tyy.Base.{Bool, false, Bytes, ◌≡◌, ℤ}
use jsh_tyy.System.{Os, WaitMode}

-- `close` closes its descriptor, and none of these calls opens one.
pub record Descriptors {W : Type 0} (os : Os W) : Type 0 where
  pub is_open : W → ℤ → Bool
  pub closed : (fd : ℤ) (w : W) → is_open (os.close fd w) fd ≡ false
  pub shut-close :
      (other fd : ℤ) (w : W) → is_open w fd ≡ false → is_open (os.close other w) fd ≡ false
  pub shut-waitpid :
      (pid : ℤ) (mode : WaitMode) (fd : ℤ) (w : W)
      → is_open w fd ≡ false
      → is_open (os.waitpid pid mode w).2 fd ≡ false
  pub shut-kill :
      (pid sig fd : ℤ) (w : W) → is_open w fd ≡ false → is_open (os.kill pid sig w).1 fd ≡ false
  pub shut-tcsetpgrp :
      (pgid fd : ℤ) (w : W) → is_open w fd ≡ false → is_open (os.tcsetpgrp pgid w).1 fd ≡ false
  pub shut-dprintf :
      (out : ℤ) (text : Bytes) (fd : ℤ) (w : W)
      → is_open w fd ≡ false
      → is_open (os.dprintf out text w) fd ≡ false
