-- ===== src/Run/Loop.antt =====
-- src/prompt.c and src/jsh.c: the loop of the shell over the lines that `readline` returns.
use jsh_tyy.Base.{All, ℕ, Bytes, codes, List, [], ◌∷◌, Option, none, some, if◌then◌else◌, ℤ, pos}
use jsh_tyy.System.{Os, Fork}
use jsh_tyy.Command.{CommandCall, Command, CommandResult}
use jsh_tyy.Parse.{Parser}
use jsh_tyy.Parse.Line.{ReadLine, parse_read_line}
use jsh_tyy.Jobs.Wait.{update_jobs}
use jsh_tyy.Proc.{Procs}
use jsh_tyy.Shell.{Shell}
use jsh_tyy.Shell.Exit.{get_current_wd}
use jsh_tyy.Prompt.{get_prompt_string}
use jsh_tyy.Jobs.Table.Cells.{IsWellFormed}
use jsh_tyy.Jobs.Wait.Progress.{fd_update_jobs-IsWellFormed}
use jsh_tyy.Shell.Internal.{Outcome, undefined, exits, returns}
use jsh_tyy.Shell.Internal.Table.{KeepsTable, KeepsTable-if, Allows}
use jsh_tyy.Run.Invariant.{execute_command-Keeps}
use jsh_tyy.Run.{execute_command}

any-Allows : {W : Type 0} (os : Os W) (calls : List CommandCall) → All (Allows os Unit) calls
any-Allows os [] = tt
any-Allows os (call ∷ calls) = (((λ e. tt), (λ e w h. tt)), any-Allows os calls)

module _ {W : Type 0} (os : Os W) (forks : Fork W) (procs : Procs W) where
  -- One command of the loop over the commands of a line; `next` runs the rest. What is returned is
  -- `last_parsed_command_call_substitution`.
  executed : (Shell W → Outcome W (Option ℕ)) → Outcome W CommandResult → Outcome W (Option ℕ)
  executed next undefined = undefined
  executed next (exits code sh) = exits code sh
  executed next (returns r sh) = next sh

  execute_all : Option ℕ → List Command → Shell W → Outcome W (Option ℕ)
  unfolding executed
  execute_all last_substitution [] sh = returns last_substitution sh
  execute_all last_substitution (c ∷ cs) sh =
      executed (execute_all last_substitution cs) (execute_command os forks procs sh c)

  -- `parse_read_line` sets `last_exit_code` where a command cannot be parsed.
  abbrev status_after : Option ℤ → ℤ → ℤ
  status_after none code = code
  status_after (some code') code = code'

  run_commands : Option ℕ → Option (List Command) → Shell W → Outcome W (Option ℕ)
  unfolding execute_all
  run_commands last_substitution none sh = returns last_substitution sh
  run_commands last_substitution (some cs) sh = execute_all last_substitution cs sh

  -- A line that is never parsed to its end, or whose parse does something undefined.
  unfoldable pub run_line : Shell W → Option (Option (ReadLine W)) → Outcome W (Option ℕ)
  unfolding run_commands
  run_line sh none = undefined
  run_line sh (some none) = undefined
  run_line sh (some (some r)) = run_commands r.parser.last_substitution r.commands (record sh {
    world = r.parser.world;
    last_exit_code = status_after r.last_exit_code sh.last_exit_code;
  })

  -- The parser starts a line without a call. Of the global variable that a substitution has left it
  -- only asks whether it is NULL.
  abbrev pub fresh : Option ℕ → W → Parser W
  fresh last_substitution w = record {
    world = w;
    heap = [];
    last = none;
    last_substitution = last_substitution;
    calls = [];
    open_pipes = [];
  }

  -- The end of the input is the line `exit`.
  abbrev buffer : Option Bytes → Bytes
  buffer none = codes "exit"
  buffer (some buf) = buf

  -- One turn of `prompt`, after `get_prompt_string`; the prompt itself is printed by `readline`.
  unfoldable pub turn : Option ℕ → Shell W → Option Bytes → Outcome W (Option ℕ)
  unfolding run_line
  turn last_substitution sh buf =
      run_line sh (parse_read_line os (fresh last_substitution sh.world) (buffer buf))

  unfoldable pub again :
      (Option ℕ → Shell W → Outcome W (Option ℕ)) → Outcome W (Option ℕ) → Outcome W (Option ℕ)
  again next undefined = undefined
  again next (exits code sh) = exits code sh
  again next (returns last_substitution sh) = next last_substitution sh

  -- What follows where `get_prompt_string` has returned.
  unfoldable pub prompted : Option (Option Bytes) → Outcome W (Option ℕ) → Outcome W (Option ℕ)
  prompted none next = undefined
  prompted (some prompt_string) next = next

  -- The loop on the lines that `readline` returns, `none` being the end of the input, for as many
  -- lines as are given.
  unfoldable pub prompt : List (Option Bytes) → Option ℕ → Shell W → Outcome W (Option ℕ)
  unfolding turn again prompted
  prompt [] last_substitution sh = returns last_substitution sh
  prompt (buf ∷ bufs) last_substitution sh =
      let (t, w) = update_jobs os sh.jobs sh.world in
      let sh' = record sh { jobs = t; world = w } in
      let (cwd, w') = get_current_wd os w in
      let prompt_string = get_prompt_string t.size sh.last_exit_code cwd in
      if sh.should_exit
      then returns last_substitution sh
      else again (prompt bufs) (prompted prompt_string (turn last_substitution sh' buf))

  executed-Keeps :
      (next : Shell W → Outcome W (Option ℕ)) (r : Outcome W CommandResult)
      → ((sh : Shell W) → IsWellFormed sh.jobs → KeepsTable Unit (next sh))
      → KeepsTable Unit r
      → KeepsTable Unit (executed next r)
  unfolding executed
  executed-Keeps next undefined hn h = tt
  executed-Keeps next (exits code sh) hn h = h
  executed-Keeps next (returns r sh) hn h = hn sh h

  execute_all-Keeps :
      (o : Option ℕ) (cs : List Command) (sh : Shell W)
      → IsWellFormed sh.jobs
      → KeepsTable Unit (execute_all o cs sh)
  unfolding execute_all
  execute_all-Keeps o [] sh wf = wf
  execute_all-Keeps o (c ∷ cs) sh wf =
      executed-Keeps _ _ (λ sh' wf'. execute_all-Keeps o cs sh' wf')
        (execute_command-Keeps os forks procs Unit sh c (any-Allows os c.command_calls) wf)

  run_commands-Keeps :
      (o : Option ℕ) (cs : Option (List Command)) (sh : Shell W)
      → IsWellFormed sh.jobs
      → KeepsTable Unit (run_commands o cs sh)
  unfolding run_commands
  run_commands-Keeps o none sh wf = wf
  run_commands-Keeps o (some cs) sh wf = execute_all-Keeps o cs sh wf

  run_line-Keeps :
      (sh : Shell W) (r : Option (Option (ReadLine W)))
      → IsWellFormed sh.jobs
      → KeepsTable Unit (run_line sh r)
  unfolding run_line
  run_line-Keeps sh none wf = tt
  run_line-Keeps sh (some none) wf = tt
  run_line-Keeps sh (some (some r)) wf = run_commands-Keeps _ r.commands _ wf

  again-Keeps :
      (next : Option ℕ → Shell W → Outcome W (Option ℕ)) (r : Outcome W (Option ℕ))
      → ((o : Option ℕ) (sh : Shell W) → IsWellFormed sh.jobs → KeepsTable Unit (next o sh))
      → KeepsTable Unit r
      → KeepsTable Unit (again next r)
  unfolding again
  again-Keeps next undefined hn h = tt
  again-Keeps next (exits code sh) hn h = h
  again-Keeps next (returns o sh) hn h = hn o sh h

  prompted-Keeps :
      (o : Option (Option Bytes)) (next : Outcome W (Option ℕ))
      → KeepsTable Unit next
      → KeepsTable Unit (prompted o next)
  unfolding prompted
  prompted-Keeps none next h = tt
  prompted-Keeps (some prompt_string) next h = h

  pub prompt-Keeps :
      (bufs : List (Option Bytes)) (o : Option ℕ) (sh : Shell W)
      → IsWellFormed sh.jobs
      → KeepsTable Unit (prompt bufs o sh)
  unfolding prompt turn update_jobs
  prompt-Keeps [] o sh wf = wf
  prompt-Keeps (buf ∷ bufs) o sh wf =
      let (t, w) = update_jobs os sh.jobs sh.world in
      let sh' : Shell W = record sh { jobs = t; world = w } in
      KeepsTable-if Unit sh.should_exit _ _ (λ b. wf)
        (again-Keeps _ _ (λ o' next wf'. prompt-Keeps bufs o' next wf')
          (prompted-Keeps (get_prompt_string t.size sh.last_exit_code (get_current_wd os w).0)
            (turn o sh' buf)
            (run_line-Keeps sh' _ (fd_update_jobs-IsWellFormed os (pos 2) sh.jobs sh.world wf).0)))
