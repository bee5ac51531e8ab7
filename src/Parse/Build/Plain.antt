-- ===== src/Parse/Build/Plain.antt =====
-- src/command.c: `parse_command_call` on words that are no symbols.
use jsh_tyy.Base.{
  ℕ, zero, suc, ◌≤◌, ◌≡◌, ap, ◌∙◌, Bool, true, false, Bytes, codes, List, [], ◌∷◌, ◌++◌,
  append_assoc, append-nil, ◌&&◌, refl, some, length, All, arith,
}
use jsh_tyy.System.{Os}
use jsh_tyy.Text.{join_strings}
use jsh_tyy.Text.Spec.{split_string_lem}
use jsh_tyy.Text.Tokens.{IsToken, words-join_strings}
use jsh_tyy.Text.Joined.{join_strings-IsTrimmed}
use jsh_tyy.Text.Trim.{space, trim_spaces, trim_spaces-padded}
use jsh_tyy.Command.{CommandCall, new_command_call}
use jsh_tyy.Parse.{Parser, Builder, new_command_call_builder, build_command, allocate}
use jsh_tyy.Parse.Call.{Answer, answer, done, not_null, arguments}
use jsh_tyy.Parse.Symbols.{is_symbol, remove_extra_pipes}
use jsh_tyy.Parse.Symbols.Halves.{AllTokens}
use jsh_tyy.Parse.Build.{
  parse_command_call, parse_split, parse_tokens, finished, parsed_call, bad_redirection, or_else,
}
use jsh_tyy.Parse.Build.Answers.{not_null-map}

-- A word that `parse_command_call` does not treat as a symbol.
abbrev pub IsPlain : Bytes → Type 0
IsPlain t = IsToken space t × (is_symbol t ≡ false)

pub AllTokens-plain : (ts : List Bytes) → All IsPlain ts → AllTokens ts
AllTokens-plain [] h = tt
AllTokens-plain (t ∷ ts) ((h, k), hs) = (h, AllTokens-plain ts hs)

-- A string that is trimmed already.
pub trimmed_twice :
    (t : Bytes) (ts : List Bytes)
    → AllTokens (t ∷ ts)
    → trim_spaces (some (join_strings (t ∷ ts) (codes " ")))
      ≡ some (some (join_strings (t ∷ ts) (codes " ")))
trimmed_twice t ts h =
    ap (λ s. trim_spaces (some s)) (rw append-nil)
    ∙ trim_spaces-padded 0 0 (join_strings (t ∷ ts) (codes " ")) (join_strings-IsTrimmed t ts h)

module _ {W : Type 0} (os : Os W) where
  arguments-plain :
      (parse : Parser W → Bytes → Bool → Bool → Answer W) (ts : List Bytes) (n : ℕ) (first : Bool)
      (builder : Builder) (kept : List Bytes) (st : Parser W)
      → All IsPlain ts
      → length ts ≤ n
      → arguments os parse n first false (done builder kept ts st) ≡ done builder (kept ++ ts) [] st
  unfolding arguments
  arguments-plain parse [] n first builder kept st h le = rw append-nil
  arguments-plain parse (t ∷ ts) zero first builder kept st h le = absurd (omega arith)
  arguments-plain parse (t ∷ []) (suc n) first builder kept st ((h, k), hs) le = rw (arguments, k)
  arguments-plain parse (t ∷ u ∷ ts) (suc n) first builder kept st ((h, k), hs) le =
      rw (arguments, k, ← append_assoc kept (t ∷ []) (u ∷ ts))
        (arguments-plain parse (u ∷ ts) n false builder (kept ++ t ∷ []) st hs (omega arith))

  -- The call that is made of the words.
  abbrev pub plain_call : List Bytes → CommandCall
  plain_call ts = new_command_call ts (remove_extra_pipes (join_strings ts (codes " ")))

  no_redirection :
      (inside_pipeline : Bool) (st : Parser W)
      → bad_redirection os new_command_call_builder inside_pipeline st ≡ false
  unfolding bad_redirection new_command_call_builder
  no_redirection false st = refl
  no_redirection true st = and-false _
    where
      and-false : (b : Bool) → (b && false) ≡ false
      and-false true = refl
      and-false false = refl

  pub parse_command_call-plain :
      (inside_pipeline : Bool) (fuel : ℕ) (st : Parser W) (t : Bytes) (ts : List Bytes)
      → All IsPlain (t ∷ ts)
      → parse_command_call os
          (suc fuel)
          st
          (join_strings (t ∷ ts) (codes " "))
          false
          inside_pipeline
        ≡ answer (some (length st.heap)) (record st {
          heap = st.heap ++ plain_call (t ∷ ts) ∷ [];
          last = or_else st.last (length st.heap);
        })
  unfolding parse_command_call parse_split parse_tokens finished parsed_call bad_redirection
      not_null allocate build_command new_command_call_builder
  parse_command_call-plain inside_pipeline fuel st t ts h =
      let tokens = AllTokens-plain (t ∷ ts) h in
      rw (
        split_string_lem (join_strings (t ∷ ts) (codes " ")) space [],
        words-join_strings space (t ∷ ts) tokens,
        not_null-map ts,
        arguments-plain (parse_command_call os fuel) (t ∷ ts) (suc (length ts)) true
            new_command_call_builder [] st h (omega arith),
        no_redirection inside_pipeline st,
        trimmed_twice t ts tokens,
      )
