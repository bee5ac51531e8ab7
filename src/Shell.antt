-- ===== src/Shell.antt =====
-- src/internals.c and src/internals.h: the global variables of the shell. Its internal commands are
-- the children.
pub mod Kill
pub mod Exit
pub mod Cd
pub mod Internal
mod Tests
use jsh_tyy.Base.{Bool, false, Bytes, [], ℤ, pos}
use jsh_tyy.Jobs.Table.{JobTable, init_job_table}

-- `world` is what lies outside of the shell; `lwd` is the string in the array of that name.
pub record Shell (W : Type 0) : Type 0 where
  pub world : W
  pub jobs : JobTable
  pub last_exit_code : ℤ
  pub should_exit : Bool
  pub lwd : Bytes

-- The state after `init_internals`; `lwd` is a static array, which nothing writes.
unfoldable pub init_internals : {W : Type 0} → W → Shell W
unfolding init_job_table
init_internals w = record {
  world = w;
  jobs = init_job_table;
  last_exit_code = pos 0;
  should_exit = false;
  lwd = [];
}
