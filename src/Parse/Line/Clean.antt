-- ===== src/Parse/Line/Clean.antt =====
-- src/command.c: `parse_command` leaves no call of a substitution behind.
use jsh_tyy.Base.{
  ℕ, suc, ◌≡◌, refl, ◌∙◌, Bool, true, false, Bytes, [], Option, none, some, if◌then◌else◌, ◌==◌,
  length,
}
use jsh_tyy.System.{Os}
use jsh_tyy.Command.{Command, new_empty_command}
use jsh_tyy.Parse.{Parser, add_call_at_the_beginning, add_call_at_the_end}
use jsh_tyy.Parse.Call.{Answer, lost, undefined, answer}
use jsh_tyy.Parse.Call.Clean.{IsClean}
use jsh_tyy.Parse.Build.{sanitize_command_string}
use jsh_tyy.Parse.Build.Clean.{parse_command_call-IsClean}
use jsh_tyy.Parse.Line.{
  Built, unparsed, undefined_build, built, parse_command, sanitized, complete, complete_with,
  with_call,
}

-- The global variable of substitutions is NULL where there is a command.
abbrev pub IsReset : {W : Type 0} → Built W → Type 0
IsReset unparsed = Unit
IsReset undefined_build = Unit
IsReset (built none st) = Unit
IsReset (built (some c) st) = st.last_substitution ≡ none

module _ {W : Type 0} (os : Os W) where
  with_call-keeps :
      (last call : ℕ) (st : Parser W)
      → (with_call os last call st).last_substitution ≡ st.last_substitution
  unfolding with_call add_call_at_the_end
  with_call-keeps last call st = keeps (last == call)
    where
      keeps :
          (b : Bool)
          → (if b then st else add_call_at_the_end st call).last_substitution ≡ st.last_substitution
      keeps true = refl
      keeps false = refl

  complete_with-IsReset :
      (text : Bytes) (last : Option ℕ) (call : Option ℕ) (st : Parser W)
      → IsClean (answer call st)
      → IsReset (complete_with os text last call st)
  unfolding complete_with add_call_at_the_beginning
  complete_with-IsReset text none none st h = tt
  complete_with-IsReset text (some last) none st h = tt
  complete_with-IsReset text none (some call) st h = tt
  complete_with-IsReset text (some last) (some call) st h = with_call-keeps last call st ∙ h

  complete-IsReset : (text : Bytes) (a : Answer W) → IsClean a → IsReset (complete os text a)
  unfolding complete
  complete-IsReset text lost h = tt
  complete-IsReset text undefined h = tt
  complete-IsReset text (answer call st) h = complete_with-IsReset text st.last call st h

  sanitized-IsReset :
      (line : Bytes) (c : Option Command) (text : Option (Option Bytes)) (st : Parser W)
      → st.last_substitution ≡ none
      → IsReset (sanitized os line c text st)
  unfolding sanitized
  sanitized-IsReset line none text st h = tt
  sanitized-IsReset line (some c) none st h = tt
  sanitized-IsReset line (some c) (some none) st h = tt
  sanitized-IsReset line (some c) (some (some text)) st h = complete-IsReset text _ (
      parse_command_call-IsClean os (suc (length line))
        (record st { last = none; calls = []; open_pipes = [] }) line false h)

  -- On every string that is parsed to a command, with all its redirections, pipes and substitutions,
  -- no call of a substitution is left over, if none was before; so only a parse that fails leaves
  -- one.
  pub parse_command-IsReset :
      (st : Parser W) (line : Bytes)
      → st.last_substitution ≡ none
      → IsReset (parse_command os st line)
  unfolding parse_command
  parse_command-IsReset st line h =
      sanitized-IsReset line (new_empty_command line) (sanitize_command_string (some line)) st h
