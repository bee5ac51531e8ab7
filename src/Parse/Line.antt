-- ===== src/Parse/Line.antt =====
-- src/command.c: `parse_command` and `parse_read_line`.
pub mod Reads
pub mod Spec
pub mod Defined
pub mod Plain
pub mod Clean
use jsh_tyy.Base.{
  ℕ, zero, suc, ◌+◌, ◌==◌, leb, Bool, true, false, not, Bytes, codes, List, [], ◌∷◌, Option, none,
  some, if◌then◌else◌, ℤ, pos, negsuc, length, map,
}
use jsh_tyy.System.{Os}
use jsh_tyy.Text.{starts_with}
use jsh_tyy.Text.Iterator.{Split, split_string_keep_trace}
use jsh_tyy.Text.Trim.{trim_spaces}
use jsh_tyy.Command.{CommandCall, Command, new_empty_command}
use jsh_tyy.Parse.{Parser, add_call_at_the_beginning, add_call_at_the_end}
use jsh_tyy.Parse.Call.{Answer, lost, undefined, answer, pointed, not_null}
use jsh_tyy.Parse.Build.{parse_command_call, abandon, sanitize_command_string}

-- The command that is parsed, `none` being NULL; `unparsed` is what `lost` is.
pub data Built (W : Type 0) : Type 0 where
  unparsed : Built W
  undefined_build : Built W
  built : Option Command → Parser W → Built W

-- What `parse_read_line` returns, with the number of commands that it sets and the new
-- `last_exit_code` where it sets it.
pub record ReadLine (W : Type 0) : Type 0 where
  pub commands : Option (List Command)
  pub total_commands : ℕ
  pub last_exit_code : Option ℤ
  pub parser : Parser W

-- The loop over the commands: how it ends, the commands up to there.
pub data Loop (W : Type 0) : Type 0 where
  endless : Loop W
  undefined_loop : Loop W
  aborted : Parser W → Loop W
  trimmed_last : List Command → Parser W → Loop W
  all_parsed : List Command → Parser W → Loop W

abbrev pub at_most : ℕ → ℤ → Bool
at_most index (pos last) = leb index last
at_most index (negsuc last) = false

module _ {W : Type 0} (os : Os W) where
  -- `last_parsed_command_call != call`: the call has to be added too.
  unfoldable pub with_call : ℕ → ℕ → Parser W → Parser W
  with_call last call st = if last == call then st else add_call_at_the_end st call

  -- `last_parsed_command_call` and what `parse_command_call` has returned.
  unfoldable pub complete_with : Bytes → Option ℕ → Option ℕ → Parser W → Built W
  unfolding with_call
  complete_with command_string none none st = built none (abandon os st)
  complete_with command_string (some last) none st =
      built none (abandon os (add_call_at_the_end st last))
  complete_with command_string none (some call) st =
      built none (abandon os (add_call_at_the_end st call))
  complete_with command_string (some last) (some call) st =
      let st' = add_call_at_the_beginning (with_call last call st) last in
      built
        (some (record {
          command_string = command_string;
          command_calls = map (pointed st'.heap) st'.calls;
          background = false;
          open_pipes = st'.open_pipes;
        }))
        (record st' { last = none })

  unfoldable pub complete : Bytes → Answer W → Built W
  unfolding complete_with
  complete command_string lost = unparsed
  complete command_string undefined = undefined_build
  complete command_string (answer call st) = complete_with command_string st.last call st

  unfoldable pub sanitized : Bytes → Option Command → Option (Option Bytes) → Parser W → Built W
  unfolding complete
  sanitized command_string none text st = built none st
  sanitized command_string (some c) none st = unparsed
  sanitized command_string (some c) (some none) st = built none st
  sanitized command_string (some c) (some (some text)) st = complete text (
      parse_command_call os (suc (length command_string))
        (record st { last = none; calls = []; open_pipes = [] }) command_string false false)

  unfoldable pub parse_command : Parser W → Bytes → Built W
  unfolding sanitized
  parse_command st command_string =
      sanitized command_string (new_empty_command command_string)
        (sanitize_command_string (some command_string)) st

  more : Command → Loop W → Loop W
  more c endless = endless
  more c undefined_loop = undefined_loop
  more c (aborted st) = aborted st
  more c (trimmed_last cs st) = trimmed_last (c ∷ cs) st
  more c (all_parsed cs st) = all_parsed (c ∷ cs) st

  -- After a command that cannot be parsed no other is tried; if it is the last one only it is lost.
  -- `background` is whether its index is at most the last one, `next` the rest of the loop.
  loop_step : Bool → Bool → (Parser W → Loop W) → Built W → Loop W
  unfolding more
  loop_step background is_last next unparsed = endless
  loop_step background is_last next undefined_build = undefined_loop
  loop_step background is_last next (built none st) =
      if is_last then trimmed_last [] st else aborted st
  loop_step background is_last next (built (some c) st) =
      more (if background then record c { background = true } else c) (next st)

  parse_loop : ℕ → ℤ → List Bytes → Parser W → Loop W
  unfolding loop_step
  parse_loop index last [] st = all_parsed [] st
  parse_loop index last (s ∷ rest) st =
      loop_step (at_most index last) (length rest == 0) (parse_loop (index + 1) last rest)
        (parse_command st s)

  settled : ℕ → Loop W → Option (Option (ReadLine W))
  settled n endless = none
  settled n undefined_loop = some none
  settled n (aborted st) = some (
      some (record {
        commands = none;
        total_commands = n;
        last_exit_code = some (pos 1);
        parser = st;
      }))
  settled n (trimmed_last [] st) = some (
      some (record {
        commands = none;
        total_commands = n;
        last_exit_code = some (pos 1);
        parser = st;
      }))
  settled n (trimmed_last (c ∷ cs) st) = some (
      some (record {
        commands = some (c ∷ cs);
        total_commands = length (c ∷ cs);
        last_exit_code = some (pos 1);
        parser = st;
      }))
  settled n (all_parsed cs st) =
      some (
        some
          (record { commands = some cs; total_commands = n; last_exit_code = none; parser = st }))

  read_tokens : Option (List (Option Bytes)) → ℕ → ℤ → Parser W → Option (Option (ReadLine W))
  unfolding parse_loop settled
  read_tokens none n last st =
      some
        (some (record { commands = none; total_commands = n; last_exit_code = none; parser = st }))
  read_tokens (some tokens) n last st = settled n (parse_loop 0 last (not_null tokens) st)

  unfoldable pub read_split : Option Split → Parser W → Option (Option (ReadLine W))
  unfolding read_tokens
  read_split none st = none
  read_split (some split) st = read_tokens split.tokens split.size split.last st

  -- `some none` is undefined behaviour; `none` would be a parse that does not end.
  unfoldable pub parse_read_line : Parser W → Bytes → Option (Option (ReadLine W))
  parse_read_line st command_string =
      if starts_with command_string (codes "&")
      then some (
          some (record { commands = none; total_commands = 0; last_exit_code = none; parser = st }))
      else read_split (split_string_keep_trace command_string (codes "&")) st
