-- ===== src/Parse/Pipeline/Parsed.antt =====
-- src/command.c: `parse_command_call` on a pipeline of plain commands.
use jsh_tyy.Base.{
  ℕ, zero, suc, ◌+◌, ◌<◌, ◌≡◌, refl, ap, ◌∙◌, Bool, true, false, Bytes, codes, List, [], ◌∷◌, ◌++◌,
  append_assoc, ◌≤◌, Option, none, some, Option-cases, ◌&&◌, inl, inr, ℤ, pos, negsuc, length,
  length-append, All, arith,
}
use jsh_tyy.System.{Os}
use jsh_tyy.Text.{join_strings, str_eq}
use jsh_tyy.Text.Spec.{split_string_lem}
use jsh_tyy.Text.Tokens.{words-join_strings}
use jsh_tyy.Text.Trim.{space}
use jsh_tyy.Command.{CommandCall, new_command_call}
use jsh_tyy.Parse.{Parser, new_command_call_builder, build_command, allocate, link_pipelines}
use jsh_tyy.Parse.Symbols.{is_symbol}
use jsh_tyy.Parse.Symbols.Halves.{AllTokens}
use jsh_tyy.Parse.Call.{Answer, arguments, done, not_null, symbol, pipelined}
use jsh_tyy.Parse.Build.{
  parse_command_call, parse_split, parse_tokens, finished, bad_redirection, parsed_call,
}
use jsh_tyy.Parse.Build.Answers.{not_null-map}
use jsh_tyy.Parse.Build.Plain.{IsPlain, parse_command_call-plain, trimmed_twice}
use jsh_tyy.Parse.Pipeline.{
  Stage, Laid, reads_from, writes_to, more, tokens, line, stage, laid, extended,
}
use jsh_tyy.Parse.Pipeline.Stages.{IsPlainStage, AllTokens-tokens, arguments-bar}
use jsh_tyy.Parse.Pipeline.Links.{entry, reached, joined_state, linked_builder, linked-reached}

some_inj : {A : Type 0} {a b : A} → some a ≡ some b → a ≡ b
some_inj e = cc

module _ {W : Type 0} (os : Os W) where
  last-reached :
      (fuel : ℕ) (heap : List CommandCall) (w : W) (inside : Bool) (t : Bytes) (ts : List Bytes)
      → All IsPlain (t ∷ ts)
      → parse_command_call os (suc fuel) (entry heap w) (line (t, ts) []) false inside
        ≡ reached heap (record { first = stage (t, ts) []; others = []; pipes = []; world = w })
  last-reached fuel heap w inside t ts h =
      let e : length heap + 0 ≡ length heap = omega arith in
      rw e (parse_command_call-plain os inside fuel (entry heap w) t ts h)

  -- The sign | with the rest of the pipeline, which is parsed and linked.
  symbol-linked :
      (parse : Parser W → Bytes → Bool → Bool → Answer W) (kept : List Bytes) (u : Bytes)
      (after : List Bytes) (heap : List CommandCall) (w : W) (l : Laid W)
      → parse (entry heap w) (join_strings (u ∷ after) (codes " ")) false true ≡ reached heap l
      → symbol os parse false new_command_call_builder kept (codes "|") u after (entry heap w)
        ≡ pipelined os parse false kept new_command_call_builder (reached heap l)
  unfolding symbol str_eq new_command_call_builder
  symbol-linked parse kept u after heap w l e = rw e

  pipelined-reached :
      (parse : Parser W → Bytes → Bool → Bool → Answer W) (kept : List Bytes)
      (heap : List CommandCall) (l : Laid W) (reading writing : ℤ) (w : W)
      → os.pipe l.world ≡ (some (reading, writing), w)
      → pipelined os parse false kept new_command_call_builder (reached heap l)
        ≡ done
            (linked_builder os parse (length l.pipes) writing)
            kept
            []
            (joined_state os parse heap l reading writing w)
  unfolding pipelined link_pipelines
  pipelined-reached parse kept heap l reading writing w e =
      rw e (linked-reached os parse kept heap l reading writing w)

  and-false : (b : Bool) → (b && false) ≡ false
  and-false true = refl
  and-false false = refl

  finished-reached :
      (parse : Parser W → Bytes → Bool → Bool → Answer W) (inside : Bool) (t : Bytes)
      (ts : List Bytes) (u : Stage) (rest : List Stage) (heap : List CommandCall) (l : Laid W)
      (reading : ℤ) (writing : ℕ) (w : W)
      → AllTokens (tokens (t, ts) (u ∷ rest))
      → finished os (line (t, ts) (u ∷ rest)) false inside (
          done
            (linked_builder os parse (length l.pipes) (pos writing))
            (t ∷ ts)
            []
            (joined_state os parse heap l reading (pos writing) w))
        ≡ reached heap (record {
          first = writes_to (stage (t, ts) (u ∷ rest)) (length l.pipes) (pos writing);
          others = l.others ++ reads_from l.first (length l.pipes) reading ∷ [];
          pipes = l.pipes ++ (reading, pos writing) ∷ [];
          world = w;
        })
  unfolding finished parsed_call bad_redirection allocate build_command new_command_call
  finished-reached parse inside t ts u rest heap l reading writing w h =
      let others = l.others ++ reads_from l.first (length l.pipes) reading ∷ [] in
      rw (
        and-false inside,
        trimmed_twice t (more ts (u ∷ rest)) h,
        length-append heap others,
        append_assoc heap others,
      )

  step-reached :
      (fuel : ℕ) (heap : List CommandCall) (w : W) (inside : Bool) (t : Bytes) (ts : List Bytes)
      (u : Bytes) (us : List Bytes) (rest : List Stage) (l l' : Laid W) (r : Option (ℤ × ℤ) × W)
      → All IsPlain (t ∷ ts)
      → is_symbol u ≡ false
      → AllTokens (tokens (t, ts) ((u, us) ∷ rest))
      → parse_command_call os fuel (entry heap w) (line (u, us) rest) false true ≡ reached heap l
      → os.pipe l.world ≡ r
      → extended (stage (t, ts) ((u, us) ∷ rest)) l r ≡ some l'
      → parse_command_call os (suc fuel) (entry heap w) (line (t, ts) ((u, us) ∷ rest)) false inside
        ≡ reached heap l'
  unfolding parse_command_call parse_split parse_tokens not_null
  step-reached fuel heap w inside t ts u us rest l l' (none, w') h plain all ih e x = cc
  step-reached fuel heap w inside t ts u us rest l l' (some (reading, negsuc n), w') h plain all ih
        e x =
      cc
  step-reached fuel heap w inside t ts u us rest l l' (some (reading, pos writing), w') h plain all
        ih e x =
      let parse = parse_command_call os fuel in
      let words = tokens (t, ts) ((u, us) ∷ rest) in
      let long : suc (suc (length ts)) ≤ length words =
        omega (arith, length-append ts (codes "|" ∷ (u ∷ more us rest))) in
      let bar =
        symbol-linked parse (t ∷ ts) u (more us rest) heap w l ih
        ∙ pipelined-reached parse (t ∷ ts) heap l reading (pos writing) w' e in
      rw
        (
          split_string_lem (line (t, ts) ((u, us) ∷ rest)) space [],
          words-join_strings space words all,
          not_null-map (more ts ((u, us) ∷ rest)),
          arguments-bar os parse ts t (length words) true new_command_call_builder [] u
              (more us rest) (entry heap w)
              (done (linked_builder os parse (length l.pipes) (pos writing)) (t ∷ ts) []
                (joined_state os parse heap l reading (pos writing) w'))
              h plain long (λ m. unfold arguments in refl) bar,
        )
        (finished-reached parse inside t ts (u, us) rest heap l reading writing w' all
          ∙ ap (reached heap) (some_inj x))

  -- On as much fuel as the pipeline has calls, all of it is parsed, and linked as it is laid out.
  pub parse_command_call-pipeline :
      (rest : List Stage) (t : Bytes) (ts : List Bytes) (fuel : ℕ) (heap : List CommandCall) (w : W)
      (inside : Bool) (l : Laid W)
      → All IsPlain (t ∷ ts)
      → All IsPlainStage rest
      → length rest < fuel
      → laid os rest (t, ts) w ≡ some l
      → parse_command_call os fuel (entry heap w) (line (t, ts) rest) false inside ≡ reached heap l
  unfolding laid
  parse_command_call-pipeline rest t ts zero heap w inside l h hs lt e = absurd (omega arith)
  parse_command_call-pipeline [] t ts (suc fuel) heap w inside l h hs lt e =
      last-reached fuel heap w inside t ts h ∙ ap (reached heap) (some_inj e)
  parse_command_call-pipeline ((u, us) ∷ rest) t ts (suc fuel) heap w inside l h (k, ks) lt e =
      elim (Option-cases (laid os rest (u, us) w)) [
        | inl stuck ↦ cc (rw stuck at e)
        | inr (l', e') ↦
            step-reached fuel heap w inside t ts u us rest l' l (os.pipe l'.world) h k.0.1
              (AllTokens-tokens ((u, us) ∷ rest) (t, ts) h (k, ks))
              (parse_command_call-pipeline rest u us fuel heap w true l' k ks (omega arith) e') refl
              (rw e' at e)
      ]
