-- ===== src/System/Terminal.antt =====
-- What the calls of the kernel do to the terminal.
use jsh_tyy.Base.{true, Bytes, ◌≡◌, ℤ}
use jsh_tyy.System.{Os}

-- Of the terminal the kernel keeps the group in its foreground, which `tcsetpgrp` sets where it
-- succeeds. Printing, closing and signalling do not change it. The shell's own group is a constant.
pub record Terminal {W : Type 0} (os : Os W) : Type 0 where
  pub owner : W → ℤ
  pub shell : ℤ
  pub getpgrp_shell : (w : W) → os.getpgrp w ≡ shell
  pub owner-tcsetpgrp :
      (pgid : ℤ) (w : W) → (os.tcsetpgrp pgid w).0 ≡ true → owner (os.tcsetpgrp pgid w).1 ≡ pgid
  pub owner-dprintf : (fd : ℤ) (text : Bytes) (w : W) → owner (os.dprintf fd text w) ≡ owner w
  pub owner-close : (fd : ℤ) (w : W) → owner (os.close fd w) ≡ owner w
  pub owner-kill : (pid sig : ℤ) (w : W) → owner (os.kill pid sig w).1 ≡ owner w
