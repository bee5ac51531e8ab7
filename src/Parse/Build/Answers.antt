-- ===== src/Parse/Build/Answers.antt =====
-- src/command.c: termination of `parse_command_call`.
use jsh_tyy.Base.{
  ℕ, zero, suc, ◌≤◌, ◌<◌, ◌≡◌, ◌≢◌, refl, ap, Bool, true, false, Bytes, codes, List, [], ◌∷◌, map,
  Option, none, some, if◌then◌else◌, length, arith, All,
}
use jsh_tyy.System.{Os}
use jsh_tyy.Text.{join_strings}
use jsh_tyy.Text.Words.{words}
use jsh_tyy.Text.Spec.{split_string_lem, array_of}
use jsh_tyy.Text.Tokens.{words-IsToken, words-join_strings}
use jsh_tyy.Text.Trim.{space, trim_spaces}
use jsh_tyy.Text.Blank.{trim_spaces-words}
use jsh_tyy.Parse.{Parser, Builder}
use jsh_tyy.Parse.Call.{Answer, Arguments, unfinished, undefined_arguments, failed, done, not_null}
use jsh_tyy.Parse.Call.Ends.{Allows, Answered, Ended, arguments-Ended}
use jsh_tyy.Parse.Symbols.Halves.{AllTokens}
use jsh_tyy.Parse.Build.{
  parse_command_call, parse_split, parse_tokens, finished, parsed_call, bad_redirection,
}

pub not_null-map : (ts : List Bytes) → not_null (map some ts) ≡ ts
unfolding not_null
not_null-map [] = refl
not_null-map (t ∷ ts) = ap (λ l. t ∷ l) (not_null-map ts)

trim-words : (s : Bytes) → words s (codes " ") ≢ [] → trim_spaces (some s) ≢ none
trim-words s h e = let (t, et) = trim_spaces-words s h in cc

Answered-if :
    {W : Type 0} (P : Type 0) (b : Bool) (x y : Answer W)
    → Answered P x
    → Answered P y
    → Answered P (if b then x else y)
Answered-if P true x y hx hy = hx
Answered-if P false x y hx hy = hy

module _ {W : Type 0} (os : Os W) (P : Type 0) where
  empty-Answered :
      (parse : Parser W → Bytes → Bool → Bool → Answer W) (st : Parser W) (s : Bytes) (i p : Bool)
      (ts : List Bytes)
      → length ts < 1
      → Answered P (parse_split os parse st s i p (some (array_of ts, length ts)))
  unfolding parse_split
  empty-Answered parse st s i p [] lt = tt
  empty-Answered parse st s i p (t ∷ ts) lt = absurd (omega arith)

  parsed_call-Answered :
      (builder : Builder) (kept : List Bytes) (r : Option (Option Bytes)) (i : Bool) (st : Parser W)
      → r ≢ none
      → Answered P (parsed_call os builder kept r i st)
  unfolding parsed_call
  parsed_call-Answered builder kept none i st h = absurd (h refl)
  parsed_call-Answered builder kept (some none) i st h = tt
  parsed_call-Answered builder kept (some (some t)) i st h = tt

  finished-Answered :
      (s : Bytes) (i p : Bool) (r : Arguments W)
      → trim_spaces (some s) ≢ none
      → Ended P r
      → Answered P (finished os s i p r)
  unfolding finished
  finished-Answered s i p unfinished ht h = h
  finished-Answered s i p undefined_arguments ht h = h
  finished-Answered s i p (failed builder st) ht h = tt
  finished-Answered s i p (done builder kept after st) ht h =
      Answered-if P (bad_redirection os builder p st) _ _ tt
        (parsed_call-Answered builder kept _ i st ht)

  parse_split-Answered :
      (parse : Parser W → Bytes → Bool → Bool → Answer W) (m : ℕ)
      (answers : (st : Parser W) (ts : List Bytes) (i p : Bool)
        → AllTokens ts
        → All (Allows P) ts
        → length ts ≤ m
        → Answered P (parse st (join_strings ts (codes " ")) i p))
      (st : Parser W) (s : Bytes) (i p : Bool) (ts : List Bytes)
      → AllTokens ts
      → All (Allows P) ts
      → length ts ≤ suc m
      → (ts ≢ [] → trim_spaces (some s) ≢ none)
      → Answered P (parse_split os parse st s i p (some (array_of ts, length ts)))
  unfolding parse_split parse_tokens not_null
  parse_split-Answered parse m answers st s i p [] h ok le ht = tt
  parse_split-Answered parse m answers st s i p (t ∷ ts) h ok le ht = rw (not_null-map ts) (
      finished-Answered s i p _ (ht (λ e. cc))
        (arguments-Ended os P parse m answers (suc (length ts)) true i _ (omega arith, (h, ok)) le))

  -- The recursion of `parse_command_call` ends, whatever the string, the state and the system are, on
  -- more fuel than the string has words; it comes to something undefined only if a word of the string
  -- is the start of a substitution.
  pub parse_command_call-Answered :
      (fuel : ℕ) (st : Parser W) (s : Bytes) (i p : Bool)
      → All (Allows P) (words s (codes " "))
      → length (words s (codes " ")) < fuel
      → Answered P (parse_command_call os fuel st s i p)
  unfolding parse_command_call
  parse_command_call-Answered zero st s i p ok lt = absurd (omega arith)
  parse_command_call-Answered (suc zero) st s i p ok lt =
      rw (split_string_lem s space [])
        (empty-Answered _ st s i p (words s (codes " ")) (omega arith))
  parse_command_call-Answered (suc (suc fuel)) st s i p ok lt = rw (split_string_lem s space []) (
      parse_split-Answered (parse_command_call os (suc fuel)) fuel
        (λ st' ts i' p' h ok' le.
          parse_command_call-Answered (suc fuel) st' (join_strings ts (codes " ")) i' p'
            (rw (words-join_strings space ts h) ok')
            (rw (words-join_strings space ts h) (omega arith)))
        st s i p (words s (codes " ")) (words-IsToken space s) ok (omega arith) (trim-words s))
