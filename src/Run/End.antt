-- ===== src/Run/End.antt =====
-- src/prompt.c, src/command.c and src/exit.c: the end of the input.
use jsh_tyy.Base.{
  ◌<◌, ◌^◌, ◌≡◌, refl, Bool, true, false, Bytes, codes, List, [], ◌∷◌, arith, Option, none, some,
  if◌then◌else◌, ℤ, pos, ℕ,
}
use jsh_tyy.System.{Os, Fork}
use jsh_tyy.Command.{CommandCall, Command}
use jsh_tyy.Parse.{Parser}
use jsh_tyy.Parse.Line.{parse_read_line}
use jsh_tyy.Proc.{Procs}
use jsh_tyy.Shell.{Shell}
use jsh_tyy.Shell.Internal.{Outcome, returns}
use jsh_tyy.Text.{starts_with, join_strings, contains_string, str_eq}
use jsh_tyy.Text.Words.{words, delimited, words_from, delimited_from}
use jsh_tyy.Text.Spec.{split_string_keep_trace_lem}
use jsh_tyy.Command.{new_command_call}
use jsh_tyy.Parse.Call.{not_null}
use jsh_tyy.Parse.Symbols.{remove_extra_pipes, is_symbol}
use jsh_tyy.Parse.Line.{read_split}
use jsh_tyy.Parse.Line.Plain.{parse_command-plain}
use jsh_tyy.Parse.Build.{close_unused_file_descriptors, close_unused_file_descriptors_helper, ends}
use jsh_tyy.FdSet.{add_all, contains2}
use jsh_tyy.Parse.{close_all}
use jsh_tyy.Command.{is_internal_command, new_command_result}
use jsh_tyy.Jobs.Table.{are_jobs_running}
use jsh_tyy.Jobs.Wait.{update_jobs}
use jsh_tyy.Shell.Exit.{updated, exit_command, get_current_wd}
use jsh_tyy.Prompt.{get_prompt_string}
use jsh_tyy.Prompt.Width.{get_prompt_string-fits}
use jsh_tyy.Text.Tokens.{Lacks}
use jsh_tyy.Shell.Internal.{execute_internal_command}
use jsh_tyy.Run.{execute_command, alone, chosen, concluded, as_result, update_command_history}
use jsh_tyy.Run.Results.{Returns}
use jsh_tyy.Run.Loop.{fresh, prompt, prompted, turn, again}

abbrev exit_call : CommandCall
exit_call = record {
  name = codes "exit";
  argv = codes "exit" ∷ [];
  command_string = codes "exit";
  reading_pipes = [];
  writing_pipes = [];
  stdin = pos 0;
  stdout = pos 1;
  stderr = pos 2;
}

abbrev exit_line : Command
exit_line = record {
  command_string = codes "exit";
  command_calls = exit_call ∷ [];
  background = false;
  open_pipes = [];
}

module _ {W : Type 0} (os : Os W) (forks : Fork W) (procs : Procs W) where
  abbrev parsed_exit : Option ℕ → W → Parser W
  parsed_exit o w = record {
    world = w;
    heap = exit_call ∷ [];
    last = none;
    last_substitution = o;
    calls = 0 ∷ [];
    open_pipes = [];
  }

  -- The line is parsed to one call, without a system call.
  parse_read_line-exit :
      (o : Option ℕ) (w : W)
      → parse_read_line os (fresh os forks procs o w) (codes "exit")
        ≡ some (
            some (record {
              commands = some (exit_line ∷ []);
              total_commands = 1;
              last_exit_code = none;
              parser = parsed_exit o w;
            }))
  unfolding parse_read_line read_split not_null starts_with words delimited words_from
      delimited_from join_strings new_command_call remove_extra_pipes is_symbol contains_string
      str_eq
  parse_read_line-exit o w = rw (
    split_string_keep_trace_lem (codes "exit") 38 [],
    parse_command-plain os (fresh os forks procs o w) (codes "exit") []
        ((((λ e. cc), omega arith), refl), tt),
  )

  execute_command-exit :
      (sh : Shell W)
      → are_jobs_running (updated os sh).jobs.slots ≡ false
      → execute_command os forks procs sh exit_line
        ≡ returns
            (new_command_result sh.last_exit_code)
            (record (updated os sh) { should_exit = true })
  unfolding execute_command alone chosen concluded is_internal_command str_eq as_result
      execute_internal_command exit_command update_command_history close_unused_file_descriptors
      close_unused_file_descriptors_helper add_all contains2 ends updated new_command_result
      close_all update_jobs
  execute_command-exit sh idle =
      let i : are_jobs_running (update_jobs os sh.jobs sh.world).0.slots ≡ false = idle in rw i

  turn-exit :
      (o : Option ℕ) (sh : Shell W)
      → are_jobs_running (updated os sh).jobs.slots ≡ false
      → turn os forks procs o sh none ≡ returns o (record (updated os sh) { should_exit = true })
  unfolding turn new_command_result
  turn-exit o sh idle = rw (parse_read_line-exit o sh.world, execute_command-exit sh idle)

  Returns-else :
      {A : Type 0} (P : A → Shell W → Type 0) (b : Bool) (x y : Outcome W A)
      → b ≡ false
      → Returns P y
      → Returns P (if b then x else y)
  Returns-else P true x y e h = cc
  Returns-else P false x y e h = h

  prompt-stops :
      (P : Option ℕ → Shell W → Type 0) (bufs : List (Option Bytes)) (o : Option ℕ) (sh : Shell W)
      → sh.should_exit ≡ true
      → P o sh
      → Returns P (prompt os forks procs bufs o sh)
  unfolding prompt
  prompt-stops P [] o sh e h = h
  prompt-stops P (buf ∷ bufs) o sh e h = stop sh.should_exit _ e
    where
      stop :
          (b : Bool) (y : Outcome W (Option ℕ))
          → b ≡ true
          → Returns P (if b then returns o sh else y)
      stop true y e = h
      stop false y e = cc

  current_wd : (cwd : Bytes) (w : W) → os.getcwd w ≡ some cwd → (get_current_wd os w).0 ≡ some cwd
  unfolding get_current_wd
  current_wd cwd w at = rw (get_current_wd, at) refl

  -- The prompt is made where `getcwd` returns a directory.
  prompted-made :
      (n : ℕ) (code : ℤ) (cwd : Bytes) (w : W) (next : Outcome W (Option ℕ))
      → os.getcwd w ≡ some cwd
      → Lacks 0 cwd
      → n < 2 ^ 64
      → prompted os forks procs (get_prompt_string n code (get_current_wd os w).0) next ≡ next
  unfolding prompted
  prompted-made n code cwd w next at h small =
      let (text, (made, fits)) = get_prompt_string-fits n code cwd small h in
      rw (current_wd cwd w at, made) refl

  -- At the end of the input, where no job is running after the two updates of the table and `getcwd`
  -- returns a directory for the prompt, the shell ends: the loop stops, on whatever lines would
  -- follow, with the last status as it was. The size of the table is a number of type `size_t`.
  pub prompt-end_of_input :
      (bufs : List (Option Bytes)) (o : Option ℕ) (sh : Shell W) (cwd : Bytes)
      → sh.should_exit ≡ false
      → os.getcwd (updated os sh).world ≡ some cwd
      → Lacks 0 cwd
      → (updated os sh).jobs.size < 2 ^ 64
      → are_jobs_running (updated os (updated os sh)).jobs.slots ≡ false
      → Returns
          (λ o' after. (after.should_exit ≡ true) × (after.last_exit_code ≡ sh.last_exit_code))
          (prompt os forks procs (none ∷ bufs) o sh)
  unfolding prompt again updated
  prompt-end_of_input bufs o sh cwd stays at h small idle =
      let (t, w) = update_jobs os sh.jobs sh.world in
      let sh' = updated os sh in
      Returns-else _ sh.should_exit _ _ stays (
        rw
          (
            prompted-made t.size sh.last_exit_code cwd w (turn os forks procs o sh' none) at h
                small,
            turn-exit o sh' idle,
          )
          (prompt-stops _ bufs o _ refl (refl, refl)))
