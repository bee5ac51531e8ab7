-- ===== src/Parse/Build/Clean.antt =====
-- src/command.c: `parse_command_call` leaves no call of a substitution behind.
use jsh_tyy.Base.{
  ℕ, zero, suc, ◌≡◌, Bool, true, false, Bytes, codes, List, [], ◌∷◌, Option, none, some,
  if◌then◌else◌, length,
}
use jsh_tyy.System.{Os}
use jsh_tyy.Text.Iterator.{split_string}
use jsh_tyy.Parse.{Parser, Builder, new_command_call_builder, allocate}
use jsh_tyy.Parse.Call.{Answer, Arguments, unfinished, undefined_arguments, failed, done, not_null}
use jsh_tyy.Parse.Call.Clean.{IsClean, IsTidy, arguments-IsTidy}
use jsh_tyy.Parse.Build.{
  parse_command_call, parse_split, parse_tokens, finished, parsed_call, bad_redirection,
  sanitize_command_string,
}

module _ {W : Type 0} (os : Os W) where
  IsClean-if : (b : Bool) (x y : Answer W) → IsClean x → IsClean y → IsClean (if b then x else y)
  IsClean-if true x y hx hy = hx
  IsClean-if false x y hx hy = hy

  parsed_call-IsClean :
      (builder : Builder) (kept : List Bytes) (text : Option (Option Bytes)) (st : Parser W)
      → st.last_substitution ≡ none
      → IsClean (parsed_call os builder kept text false st)
  unfolding parsed_call allocate
  parsed_call-IsClean builder kept none st h = tt
  parsed_call-IsClean builder kept (some none) st h = tt
  parsed_call-IsClean builder kept (some (some text)) st h = h

  finished-IsClean :
      (text : Bytes) (inside_pipeline : Bool) (r : Arguments W)
      → IsTidy r
      → IsClean (finished os text false inside_pipeline r)
  unfolding finished
  finished-IsClean text inside_pipeline unfinished h = tt
  finished-IsClean text inside_pipeline undefined_arguments h = tt
  finished-IsClean text inside_pipeline (failed builder st) h = tt
  finished-IsClean text inside_pipeline (done builder kept after st) h =
      IsClean-if (bad_redirection os builder inside_pipeline st) _ _ tt
        (parsed_call-IsClean builder kept (sanitize_command_string (some text)) st h)

  -- Outside of a substitution a call is returned only with the global variable of substitutions NULL,
  -- if it was NULL before.
  pub parse_command_call-IsClean :
      (fuel : ℕ) (st : Parser W) (text : Bytes) (inside_pipeline : Bool)
      → st.last_substitution ≡ none
      → IsClean (parse_command_call os fuel st text false inside_pipeline)
  unfolding parse_command_call
  parse_command_call-IsClean zero st text inside_pipeline h = tt
  parse_command_call-IsClean (suc fuel) st text inside_pipeline h =
      split (parse_command_call os fuel) (split_string text (codes " "))
        (λ st' text' p e. parse_command_call-IsClean fuel st' text' p e)
    where
      tokens :
          (parse : Parser W → Bytes → Bool → Bool → Answer W) (ts : List Bytes)
          → ((st' : Parser W) (text' : Bytes) (p : Bool)
              → st'.last_substitution ≡ none
              → IsClean (parse st' text' false p))
          → IsClean (parse_tokens os parse st text false inside_pipeline ts)
      tokens parse [] clean = unfold parse_tokens in tt
      tokens parse (t ∷ ts) clean =
          unfold parse_tokens in
          finished-IsClean text inside_pipeline _ (
            arguments-IsTidy os parse clean (length (t ∷ ts)) true
              (done new_command_call_builder [] (t ∷ ts) st) h)

      split :
          (parse : Parser W → Bytes → Bool → Bool → Answer W)
          (s : Option (Option (List (Option Bytes)) × ℕ))
          → ((st' : Parser W) (text' : Bytes) (p : Bool)
              → st'.last_substitution ≡ none
              → IsClean (parse st' text' false p))
          → IsClean (parse_split os parse st text false inside_pipeline s)
      split parse none clean = unfold parse_split in tt
      split parse (some (none, argc)) clean = unfold parse_split in tt
      split parse (some (some words, argc)) clean =
          unfold parse_split in tokens parse (not_null words) clean
