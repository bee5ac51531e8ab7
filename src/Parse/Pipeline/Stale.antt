-- ===== src/Parse/Pipeline/Stale.antt =====
-- src/command.c: pipelines while a call is left over from a substitution that has failed.
use jsh_tyy.Base.{
  ℕ, zero, suc, ◌<◌, ◌≤◌, ◌==◌, ◌≡◌, refl, Bool, true, false, Bytes, codes, List, [], ◌∷◌, ◌++◌,
  Option, none, some, ℤ, pos, negsuc, length, length-append, All, arith,
}
use jsh_tyy.System.{Os}
use jsh_tyy.Text.{str_eq}
use jsh_tyy.Text.Spec.{split_string_lem}
use jsh_tyy.Text.Tokens.{words-join_strings}
use jsh_tyy.Text.Trim.{space}
use jsh_tyy.Command.{CommandCall}
use jsh_tyy.Parse.{Parser, new_command_call_builder, link_pipelines, linked, add_pipe}
use jsh_tyy.Parse.Call.{
  Answer, lost, undefined, parse_error_near, answer, Arguments, failed, not_null, arguments, symbol,
  pipelined, linked_to, differs,
}
use jsh_tyy.Parse.Build.{parse_command_call, parse_split, parse_tokens, finished, bad_redirection}
use jsh_tyy.Parse.Build.Answers.{not_null-map}
use jsh_tyy.Parse.Build.Plain.{IsPlain, parse_command_call-plain, plain_call, trimmed_twice}
use jsh_tyy.Parse.Line.{
  Built, built, unparsed, undefined_build, parse_command, sanitized, complete, complete_with,
}
use jsh_tyy.Parse.Line.Plain.{new_empty_command-trimmed, empty}
use jsh_tyy.Parse.Pipeline.Whole.{length-line}
use jsh_tyy.Text.Joined.{join_strings-IsTrimmed}
use jsh_tyy.Parse.Pipeline.{Stage, more, tokens, line}
use jsh_tyy.Parse.Pipeline.Stages.{IsPlainStage, AllTokens-tokens, arguments-bar}

module _ {W : Type 0} where
  -- NULL is returned.
  abbrev IsRefused : Answer W → Type 0
  IsRefused lost = ⊥
  IsRefused undefined = ⊥
  IsRefused (answer none st) = Unit
  IsRefused (answer (some call) st) = ⊥

  -- The arguments with an error.
  abbrev HasFailed : Arguments W → Type 0
  HasFailed (failed builder st) = Unit
  HasFailed _ = ⊥

  -- The parser at the start of a command, `k` being the call left over.
  abbrev stale : List CommandCall → W → ℕ → Parser W
  stale heap w k = record {
    world = w;
    heap = heap;
    last = none;
    last_substitution = some k;
    calls = [];
    open_pipes = [];
  }

  -- The write end of a pipe is no negative number.
  abbrev pub IsPipe : Option (ℤ × ℤ) × W → Type 0
  IsPipe (none, w) = Unit
  IsPipe (some (reading, pos n), w) = Unit
  IsPipe (some (reading, negsuc n), w) = ⊥

  -- The parser returns without a command.
  abbrev pub IsRejected : Built W → Type 0
  IsRejected unparsed = ⊥
  IsRejected undefined_build = ⊥
  IsRejected (built none st) = Unit
  IsRejected (built (some c) st) = ⊥

module _ {W : Type 0} (os : Os W) where
  -- What one sign | makes of the arguments decides on the call.
  step-IsRefused :
      (fuel : ℕ) (st : Parser W) (inside : Bool) (t : Bytes) (ts : List Bytes) (u : Stage)
      (rest : List Stage) (r : Arguments W)
      → All IsPlain (t ∷ ts)
      → IsPlainStage u
      → All IsPlainStage rest
      → ((m : ℕ) → arguments os (parse_command_call os fuel) m false false r ≡ r)
      → symbol os
          (parse_command_call os fuel)
          false
          new_command_call_builder
          (t ∷ ts)
          (codes "|")
          u.0
          (more u.1 rest)
          st
        ≡ r
      → IsRefused (finished os (line (t, ts) (u ∷ rest)) false inside r)
      → IsRefused (parse_command_call os (suc fuel) st (line (t, ts) (u ∷ rest)) false inside)
  unfolding parse_command_call parse_split parse_tokens not_null
  step-IsRefused fuel st inside t ts (u, us) rest r h k ks settled bar refused =
      let words = tokens (t, ts) ((u, us) ∷ rest) in
      let all = AllTokens-tokens ((u, us) ∷ rest) (t, ts) h (k, ks) in
      let long : suc (suc (length ts)) ≤ length words =
        omega (arith, length-append ts (codes "|" ∷ (u ∷ more us rest))) in
      rw
        (
          split_string_lem (line (t, ts) ((u, us) ∷ rest)) space [],
          words-join_strings space words all,
          not_null-map (more ts ((u, us) ∷ rest)),
          arguments-bar os (parse_command_call os fuel) ts t (length words) true
              new_command_call_builder [] u (more us rest) st r h k.0.1 long settled bar,
        )
        refused

  outer-IsRefused :
      (fuel : ℕ) (st : Parser W) (inside : Bool) (t : Bytes) (ts : List Bytes) (u : Stage)
      (rest : List Stage)
      → All IsPlain (t ∷ ts)
      → IsPlainStage u
      → All IsPlainStage rest
      → IsRefused (parse_command_call os fuel st (line u rest) false true)
      → IsRefused (parse_command_call os (suc fuel) st (line (t, ts) (u ∷ rest)) false inside)
  unfolding arguments symbol str_eq new_command_call_builder pipelined finished
  outer-IsRefused fuel st inside t ts u rest h k ks refused =
      settle (parse_command_call os fuel st (line u rest) false true) refl refused
    where
      settle :
          (a : Answer W)
          → parse_command_call os fuel st (line u rest) false true ≡ a
          → IsRefused a
          → IsRefused (parse_command_call os (suc fuel) st (line (t, ts) (u ∷ rest)) false inside)
      settle lost e d = absurd d
      settle undefined e d = absurd d
      settle (answer (some call) st') e d = absurd d
      settle (answer none st') e d =
          step-IsRefused fuel st inside t ts u rest
            (failed new_command_call_builder (parse_error_near os (codes "|") st')) h k ks
            (λ m. refl) (rw e refl) tt

  -- The last call but one, where the two global variables are set.
  inner-IsRefused :
      (fuel : ℕ) (heap : List CommandCall) (w : W) (k : ℕ) (t : Bytes) (ts : List Bytes) (u : Stage)
      → All IsPlain (t ∷ ts)
      → IsPlainStage u
      → IsPipe (os.pipe w)
      → IsRefused (
          parse_command_call os
            (suc (suc fuel))
            (stale heap w k)
            (line (t, ts) (u ∷ []))
            false
            true)
  unfolding arguments symbol str_eq new_command_call_builder pipelined finished linked_to
      link_pipelines linked differs bad_redirection add_pipe
  inner-IsRefused fuel heap w k t ts (u, us) h plain piped = settle (os.pipe w) refl piped
    where
      parsed : Parser W
      parsed = record (stale heap w k) {
        heap = heap ++ plain_call os (u ∷ us) ∷ [];
        last = some (length heap);
      }

      joined : Option (ℤ × ℤ) × W → Arguments W
      joined p =
          linked_to os (parse_command_call os (suc fuel)) false (t ∷ ts) new_command_call_builder
            (length heap) (linked os new_command_call_builder (length heap) parsed p)

      settle :
          (p : Option (ℤ × ℤ) × W)
          → os.pipe w ≡ p
          → IsPipe p
          → IsRefused (
              parse_command_call os
                (suc (suc fuel))
                (stale heap w k)
                (line (t, ts) ((u, us) ∷ []))
                false
                true)
      settle (none, w') e d =
          step-IsRefused (suc fuel) (stale heap w k) true t ts (u, us) [] (joined (none, w')) h
            plain tt (λ m. refl)
            (rw (parse_command_call-plain os true fuel (stale heap w k) u us plain, e) refl) tt
      settle (some (reading, negsuc n), w') e d = absurd d
      settle (some (reading, pos n), w') e d =
          let eq : (length heap == length heap) ≡ true = ground arith in
          step-IsRefused (suc fuel) (stale heap w k) true t ts (u, us) []
            (joined (some (reading, pos n), w')) h plain tt (λ m. refl)
            (rw (parse_command_call-plain os true fuel (stale heap w k) u us plain, e) refl)
            (rw eq tt)

  pipeline-IsRefused :
      (rest : List Stage) (fuel : ℕ) (heap : List CommandCall) (w : W) (k : ℕ) (t : Bytes)
      (ts : List Bytes) (u : Stage)
      → All IsPlain (t ∷ ts)
      → IsPlainStage u
      → All IsPlainStage rest
      → suc (length rest) < fuel
      → IsPipe (os.pipe w)
      → IsRefused (parse_command_call os fuel (stale heap w k) (line (t, ts) (u ∷ rest)) false true)
  pipeline-IsRefused rest zero heap w k t ts u h plain ks enough piped = absurd (omega arith)
  pipeline-IsRefused rest (suc zero) heap w k t ts u h plain ks enough piped = absurd (omega arith)
  pipeline-IsRefused [] (suc (suc fuel)) heap w k t ts u h plain ks enough piped =
      inner-IsRefused fuel heap w k t ts u h plain piped
  pipeline-IsRefused (v ∷ rest) (suc (suc fuel)) heap w k t ts u h plain (vs, ks) enough piped =
      outer-IsRefused (suc fuel) (stale heap w k) true t ts u (v ∷ rest) h plain (vs, ks)
        (pipeline-IsRefused rest (suc fuel) heap w k u.0 u.1 v plain vs ks (omega arith) piped)

  complete-IsRejected :
      (text : Bytes) (a : Answer W) → IsRefused a → IsRejected (complete os text a)
  unfolding complete complete_with
  complete-IsRejected text lost d = absurd d
  complete-IsRejected text undefined d = absurd d
  complete-IsRejected text (answer (some call) st) d = absurd d
  complete-IsRejected text (answer none st) d = rejected st.last
    where
      rejected : (last : Option ℕ) → IsRejected (complete_with os text last none st)
      rejected none = tt
      rejected (some last) = tt

  -- A pipeline of three or more plain commands is rejected while a call is left over from a
  -- substitution that has failed. The write end of the first pipe is no negative number.
  pub parse_command-stale :
      (st : Parser W) (k : ℕ) (t : Bytes) (ts : List Bytes) (u v : Stage) (rest : List Stage)
      → st.last_substitution ≡ some k
      → IsPlainStage (t, ts)
      → All IsPlainStage (u ∷ v ∷ rest)
      → IsPipe (os.pipe st.world)
      → IsRejected (parse_command os st (line (t, ts) (u ∷ v ∷ rest)))
  unfolding parse_command sanitized empty
  parse_command-stale st k t ts u v rest e h (hu, (hv, hs)) piped =
      let text = line (t, ts) (u ∷ v ∷ rest) in
      let words = AllTokens-tokens (u ∷ v ∷ rest) (t, ts) h (hu, (hv, hs)) in
      let enough = length-line (u ∷ v ∷ rest) t ts words in
      rw
        (
          new_empty_command-trimmed text (join_strings-IsTrimmed t (more ts (u ∷ v ∷ rest)) words),
          trimmed_twice t (more ts (u ∷ v ∷ rest)) words,
          e,
        )
        (complete-IsRejected text _ (
          outer-IsRefused (length text) (stale st.heap st.world k) false t ts u (v ∷ rest) h hu
            (hv, hs)
            (pipeline-IsRefused rest (length text) st.heap st.world k u.0 u.1 v hu hv hs
              (omega arith) piped)))
