-- ===== src/Parse/Line/Plain.antt =====
-- src/command.c: `parse_command` on plain words.
use jsh_tyy.Base.{
  ℕ, ◌≡◌, refl, true, false, ◌==◌, Bytes, codes, List, [], ◌∷◌, ◌++◌, none, some, length, All,
  arith,
}
use jsh_tyy.System.{Os}
use jsh_tyy.Text.{join_strings}
use jsh_tyy.Text.Joined.{join_strings-IsTrimmed, is_only_composed_of-IsTrimmed}
use jsh_tyy.Text.Trim.{IsTrimmed}
use jsh_tyy.Command.{Command, CommandCall, new_empty_command}
use jsh_tyy.Parse.{Parser, add_call_at_the_beginning}
use jsh_tyy.Parse.Call.{pointed}
use jsh_tyy.Parse.Build.Plain.{
  IsPlain, AllTokens-plain, trimmed_twice, plain_call, parse_command_call-plain,
}
use jsh_tyy.Parse.Line.{built, parse_command, sanitized, complete, complete_with, with_call}

pointed-end :
    (heap : List CommandCall) (c : CommandCall) → pointed (heap ++ c ∷ []) (length heap) ≡ c
pointed-end [] c = refl
pointed-end (x ∷ heap) c = pointed-end heap c

unfoldable pub empty : Command
empty = record { command_string = []; command_calls = []; background = false; open_pipes = [] }

pub new_empty_command-trimmed : (s : Bytes) → IsTrimmed s → new_empty_command s ≡ some empty
unfolding new_empty_command empty
new_empty_command-trimmed [] h = absurd h
new_empty_command-trimmed (c ∷ s) h =
    rw (new_empty_command, is_only_composed_of-IsTrimmed (c ∷ s) h)

same : (n : ℕ) → (n == n) ≡ true
same n = ground arith

module _ {W : Type 0} (os : Os W) where
  -- A command of words that are not symbols, with single spaces between them, is parsed to a
  -- command in the foreground that has one call, whose arguments are these words, with the standard
  -- descriptors and no pipe. No system call is made.
  pub parse_command-plain :
      (st : Parser W) (t : Bytes) (ts : List Bytes)
      → All IsPlain (t ∷ ts)
      → parse_command os st (join_strings (t ∷ ts) (codes " "))
        ≡ built
            (some (record {
              command_string = join_strings (t ∷ ts) (codes " ");
              command_calls = plain_call os (t ∷ ts) ∷ [];
              background = false;
              open_pipes = [];
            }))
            (record st {
              heap = st.heap ++ plain_call os (t ∷ ts) ∷ [];
              last = none;
              calls = length st.heap ∷ [];
              open_pipes = [];
            })
  unfolding parse_command sanitized complete complete_with with_call add_call_at_the_beginning
  parse_command-plain st t ts h =
      let text = join_strings (t ∷ ts) (codes " ") in
      let tokens = AllTokens-plain (t ∷ ts) h in
      rw (
        new_empty_command-trimmed text (join_strings-IsTrimmed t ts tokens),
        trimmed_twice t ts tokens,
        parse_command_call-plain os false (length text)
            (record st { last = none; calls = []; open_pipes = [] }) t ts h,
        same (length st.heap),
        pointed-end st.heap (plain_call os (t ∷ ts)),
      )
