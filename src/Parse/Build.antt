-- ===== src/Parse/Build.antt =====
-- src/command.c: `parse_command_call` as a whole, the recursion on fuel, and the error path of
-- `parse_command`.
pub mod Answers
pub mod Plain
pub mod Closing
pub mod Clean
use jsh_tyy.Base.{
  ℕ, zero, suc, ◌==◌, Bool, true, false, not, ◌&&◌, ◌||◌, Bytes, codes, List, [], ◌∷◌, ◌++◌, Option,
  none, some, if◌then◌else◌, ◌==ℤ◌, ℤ, pos, negsuc, length, map, exceeds,
}
use jsh_tyy.System.{Os}
use jsh_tyy.FdSet.{contains2, add_all}
use jsh_tyy.Text.Iterator.{split_string}
use jsh_tyy.Text.Trim.{trim_spaces}
use jsh_tyy.Command.{CommandCall, Command, new_empty_command}
use jsh_tyy.Parse.{
  Parser, Builder, new_command_call_builder, fd_at, build_command, add_call_at_the_beginning,
  add_call_at_the_end, allocate, complain, close_all, drop_builder,
}
use jsh_tyy.Parse.Call.{
  Answer, lost, undefined, answer, Arguments, unfinished, undefined_arguments, failed, done,
  not_null, arguments, pointed,
}
use jsh_tyy.Parse.Symbols.{remove_extra_pipes}

abbrev pub sanitize_command_string : Option Bytes → Option (Option Bytes)
sanitize_command_string command_string = trim_spaces command_string

-- The two global variables, where they are NULL: the outermost call sets the one or the other.
abbrev pub or_else : Option ℕ → ℕ → Option ℕ
or_else none call = some call
or_else (some last) call = some last

abbrev is_null : Option ℕ → Bool
is_null none = true
is_null (some call) = false

module _ {W : Type 0} (os : Os W) where
  -- The call that the arguments make is the last one of its pipeline if none has been parsed yet.
  unfoldable pub parsed_call :
      Builder → List Bytes → Option (Option Bytes) → Bool → Parser W → Answer W
  parsed_call builder kept none inside_substitution st = lost
  parsed_call builder kept (some none) inside_substitution st = answer none st
  parsed_call builder kept (some (some trimmed)) inside_substitution st =
      let (call, st') = allocate st (build_command builder kept (remove_extra_pipes trimmed)) in
      answer (some call) (
        if inside_substitution
        then record st' { last_substitution = or_else st.last_substitution call }
        else record st' { last = or_else st.last call })

  -- A redirection that a pipeline does not allow.
  unfoldable pub bad_redirection : Builder → Bool → Parser W → Bool
  bad_redirection builder inside_pipeline st =
      inside_pipeline
      && (not (fd_at builder.fds 0 ==ℤ negsuc 0)
          || (not (is_null st.last || is_null st.last_substitution)
              && not (fd_at builder.fds 1 ==ℤ negsuc 0)))

  unfoldable pub finished : Bytes → Bool → Bool → Arguments W → Answer W
  unfolding parsed_call bad_redirection
  finished command_string inside_substitution inside_pipeline unfinished = lost
  finished command_string inside_substitution inside_pipeline undefined_arguments = undefined
  finished command_string inside_substitution inside_pipeline (failed builder st) =
      answer none (drop_builder os builder st)
  finished command_string inside_substitution inside_pipeline (done builder kept after st) =
      if bad_redirection builder inside_pipeline st
      then answer none (drop_builder os builder (complain os (codes "jsh: parse error\n") st))
      else parsed_call builder kept (sanitize_command_string (some command_string))
          inside_substitution st

  -- One call of `parse_command_call`, the recursive ones being `parse`.
  unfoldable pub parse_tokens :
      (Parser W → Bytes → Bool → Bool → Answer W)
      → Parser W
      → Bytes
      → Bool
      → Bool
      → List Bytes
      → Answer W
  unfolding finished
  parse_tokens parse st command_string inside_substitution inside_pipeline [] = answer none st
  parse_tokens parse st command_string inside_substitution inside_pipeline (t ∷ ts) =
      finished command_string inside_substitution inside_pipeline (
        arguments os parse (length (t ∷ ts)) true inside_substitution
          (done new_command_call_builder [] (t ∷ ts) st))

  unfoldable pub parse_split :
      (Parser W → Bytes → Bool → Bool → Answer W)
      → Parser W
      → Bytes
      → Bool
      → Bool
      → Option (Option (List (Option Bytes)) × ℕ)
      → Answer W
  unfolding parse_tokens
  parse_split parse st command_string inside_substitution inside_pipeline none = lost
  parse_split parse st command_string inside_substitution inside_pipeline (some (none, argc)) =
      answer none st
  parse_split parse st command_string inside_substitution inside_pipeline
        (some (some tokens, argc)) =
      parse_tokens parse st command_string inside_substitution inside_pipeline (not_null tokens)

  unfoldable pub parse_command_call : ℕ → Parser W → Bytes → Bool → Bool → Answer W
  unfolding parse_split
  parse_command_call zero st command_string inside_substitution inside_pipeline = lost
  parse_command_call (suc fuel) st command_string inside_substitution inside_pipeline =
      parse_split (parse_command_call fuel) st command_string inside_substitution inside_pipeline
        (split_string command_string (codes " "))

  -- src/internals.c: `close_unused_file_descriptors`.
  unused : List (List ℤ) → List ℤ → List ℤ
  unused open_pipes [] = []
  unused open_pipes (fd ∷ fds) =
      let rest = unused open_pipes fds in
      if exceeds fd 2 && not (contains2 open_pipes fd) then fd ∷ rest else rest

  unfoldable pub close_unused_file_descriptors_helper : List (List ℤ) → CommandCall → W → W
  unfolding unused
  close_unused_file_descriptors_helper open_pipes call w =
      let fds = negsuc 0 ∷ negsuc 0 ∷ negsuc 0 ∷ [] in
      close_all os (unused open_pipes (add_all fds (call.stdin ∷ call.stdout ∷ call.stderr ∷ []))) w

  unfoldable pub close_unused_file_descriptors : List (List ℤ) → List CommandCall → W → W
  close_unused_file_descriptors open_pipes [] w = w
  close_unused_file_descriptors open_pipes (c ∷ calls) w =
      close_unused_file_descriptors open_pipes calls
        (close_unused_file_descriptors_helper open_pipes c w)

  unfoldable pub ends : List (ℤ × ℤ) → List (List ℤ)
  ends [] = []
  ends ((reading, writing) ∷ pipes) = (reading ∷ writing ∷ []) ∷ ends pipes

  unfoldable pub close_pipes : List (ℤ × ℤ) → W → W
  close_pipes [] w = w
  close_pipes ((reading, writing) ∷ pipes) w =
      close_pipes pipes (os.close writing (os.close reading w))

  -- The `error:` label of `parse_command`.
  unfoldable pub abandon : Parser W → Parser W
  unfolding ends close_pipes
  abandon st =
      let calls = map (pointed st.heap) st.calls in
      let w = close_unused_file_descriptors (ends st.open_pipes) calls st.world in
      record st { world = close_pipes st.open_pipes w }
