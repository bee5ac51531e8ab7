-- ===== src/Run/Main.antt =====
-- src/jsh.c: `main`, with `ignore_signals` of src/signals.c.
use jsh_tyy.Base.{
  ℕ, ltb, refl, Bool, true, false, Bytes, codes, List, [], ◌++◌, Option, none, if◌then◌else◌, ℤ,
  pos, length,
}
use jsh_tyy.System.{Os, report_error, Fork, Exec}
use jsh_tyy.Command.{arg}
use jsh_tyy.Proc.{Procs}
use jsh_tyy.Jobs.Table.Cells.{IsWellFormed}
use jsh_tyy.Jobs.Table.Update.{init_job_table-IsWellFormed}
use jsh_tyy.Shell.{Shell, init_internals}
use jsh_tyy.Shell.Internal.{Outcome, undefined, exits, returns}
use jsh_tyy.Shell.Internal.Table.{KeepsTable, KeepsTable-if}
use jsh_tyy.Run.Child.{set_signal_actions, signals_to_ignore}
use jsh_tyy.Run.Loop.{prompt, prompt-Keeps}

-- The global variables before `init_internals`: all are 0, and the table is NULL.
unfoldable pub globals : {W : Type 0} → W → Shell W
globals w = record {
  world = w;
  jobs = record { slots = []; size = 0; capacity = 0 };
  last_exit_code = pos 0;
  should_exit = false;
  lwd = [];
}

no_table-IsWellFormed : IsWellFormed (record { slots = []; size = 0; capacity = 0 })
no_table-IsWellFormed = record { fits = refl; counted = refl; numbered = tt }

-- SIG_IGN for each of the signals.
unfoldable pub ignore_signals : {W : Type 0} → Os W → Exec W → W → Bool × W
ignore_signals os exec w = set_signal_actions os exec false signals_to_ignore w

module _ {W : Type 0} (os : Os W) (forks : Fork W) (exec : Exec W) (procs : Procs W) where
  -- `destroy_job_table` only frees memory.
  finished : Outcome W (Option ℕ) → Outcome W ℤ
  finished undefined = undefined
  finished (exits code sh) = exits code sh
  finished (returns o sh) = returns sh.last_exit_code sh

  ignored : List (Option Bytes) → Bool × W → Outcome W ℤ
  unfolding finished globals
  ignored bufs (false, w) = exits (pos 1) (globals (report_error os (codes "sigaction") w))
  ignored bufs (true, w) = finished (prompt os forks procs bufs none (init_internals w))

  -- `main` with these arguments, on the lines that `readline` returns.
  unfoldable pub main : List Bytes → List (Option Bytes) → W → Outcome W ℤ
  unfolding ignored globals
  main argv bufs w =
      let usage = codes "Usage: " ++ (arg argv 0 ++ codes "\n") in
      if ltb 1 (length argv)
      then returns (pos 1) (globals (os.dprintf (pos 1) usage w))
      else ignored bufs (ignore_signals os exec w)

  finished-Keeps : (r : Outcome W (Option ℕ)) → KeepsTable Unit r → KeepsTable Unit (finished r)
  unfolding finished
  finished-Keeps undefined h = tt
  finished-Keeps (exits code sh) h = h
  finished-Keeps (returns o sh) h = h

  ignored-Keeps : (bufs : List (Option Bytes)) (r : Bool × W) → KeepsTable Unit (ignored bufs r)
  unfolding ignored init_internals
  ignored-Keeps bufs (false, w) = no_table-IsWellFormed
  ignored-Keeps bufs (true, w) =
      finished-Keeps _
        (prompt-Keeps os forks procs bufs none (init_internals w) init_job_table-IsWellFormed)

  -- From its start on, with any arguments and on all lines that are typed, the shell has a
  -- well-formed job table, whatever the system calls return, or its behaviour is undefined.
  pub main-KeepsTable :
      (argv : List Bytes) (bufs : List (Option Bytes)) (w : W) → KeepsTable Unit (main argv bufs w)
  unfolding main
  main-KeepsTable argv bufs w =
      KeepsTable-if Unit (ltb 1 (length argv)) _ _ (λ b. no_table-IsWellFormed)
        (ignored-Keeps bufs (ignore_signals os exec w))
