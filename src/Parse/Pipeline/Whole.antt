-- ===== src/Parse/Pipeline/Whole.antt =====
-- src/command.c: `parse_command` on a pipeline of plain commands.
use jsh_tyy.Base.{
  ℕ, suc, ◌+◌, ◌<◌, ◌≤◌, ◌≡◌, refl, ap, sym, ◌∙◌, false, Bytes, codes, List, [], ◌∷◌, ◌++◌,
  append_assoc, map, drop, none, some, ℤ, length, length-append, All, arith,
}
use jsh_tyy.System.{Os}
use jsh_tyy.Text.Blank.{length-words}
use jsh_tyy.Text.Joined.{join_strings-IsTrimmed}
use jsh_tyy.Text.Tokens.{words-join_strings}
use jsh_tyy.Text.Trim.{space}
use jsh_tyy.Command.{CommandCall}
use jsh_tyy.Parse.{Parser, add_call_at_the_beginning, add_call_at_the_end}
use jsh_tyy.Parse.Symbols.Halves.{AllTokens}
use jsh_tyy.Parse.Call.{pointed}
use jsh_tyy.Parse.Build.{parse_command_call}
use jsh_tyy.Parse.Build.Plain.{trimmed_twice}
use jsh_tyy.Parse.Line.{built, parse_command, sanitized, complete, complete_with, with_call}
use jsh_tyy.Parse.Line.Plain.{new_empty_command-trimmed, empty}
use jsh_tyy.Parse.Pipeline.{Stage, Laid, more, tokens, line, laid}
use jsh_tyy.Parse.Pipeline.Stages.{IsPlainStage, AllTokens-tokens}
use jsh_tyy.Parse.Pipeline.Links.{reached, positions, positions-end, same, other}
use jsh_tyy.Parse.Pipeline.Parsed.{parse_command_call-pipeline}

length-more : (rest : List Stage) (ts : List Bytes) → length rest ≤ length (more ts rest)
length-more [] ts = omega arith
length-more ((u, us) ∷ rest) ts =
    omega (arith, length-append ts (codes "|" ∷ (u ∷ more us rest)), length-more rest us)

-- There are no more calls than bytes.
pub length-line :
    (rest : List Stage) (t : Bytes) (ts : List Bytes)
    → AllTokens (tokens (t, ts) rest)
    → length rest < suc (length (line (t, ts) rest))
length-line rest t ts h =
    let words = words-join_strings space (tokens (t, ts) rest) h in
    omega (arith, length-more rest ts, length-words (line (t, ts) rest) space, ap length words)

pointed-at :
    (heap : List CommandCall) (c : CommandCall) (ys : List CommandCall)
    → pointed (heap ++ c ∷ ys) (length heap) ≡ c
pointed-at [] c ys = refl
pointed-at (x ∷ heap) c ys = pointed-at heap c ys

map-pointed :
    (xs heap : List CommandCall) (n : ℕ)
    → length heap ≡ n
    → map (pointed (heap ++ xs)) (positions n xs) ≡ xs
map-pointed [] heap n e = refl
map-pointed (x ∷ xs) heap n e =
    let next : length (heap ++ x ∷ []) ≡ n + 1 = omega (arith, length-append heap (x ∷ []), e) in
    let tail =
      ap (λ l. map (pointed l) (positions (n + 1) xs)) (sym (append_assoc heap (x ∷ []) xs))
      ∙ map-pointed xs (heap ++ x ∷ []) (n + 1) next in
    rw (tail, ← e, pointed-at heap x xs)

module _ {W : Type 0} (os : Os W) where
  -- The call of the first command is added behind the others, and that of the last one in front.
  all_calls :
      (n : ℕ) (others : List CommandCall) (first : CommandCall) (heap : List CommandCall)
      (pipes : List (ℤ × ℤ)) (w : W)
      → add_call_at_the_beginning
          (with_call os n (n + length others) (record {
            world = w;
            heap = heap;
            last = some n;
            last_substitution = none;
            calls = drop 1 (positions n others);
            open_pipes = pipes;
          }))
          n
        ≡ record {
          world = w;
          heap = heap;
          last = some n;
          last_substitution = none;
          calls = positions n (others ++ first ∷ []);
          open_pipes = pipes;
        }
  unfolding add_call_at_the_beginning add_call_at_the_end with_call
  all_calls n [] first heap pipes w = rw (same n)
  all_calls n (x ∷ xs) first heap pipes w =
      let e : n + 1 + length xs ≡ n + suc (length xs) = omega arith in
      rw (other n (length xs), positions-end (n + 1) xs first, e)

  complete-reached :
      (text : Bytes) (heap : List CommandCall) (l : Laid W)
      → complete os text (reached heap l)
        ≡ built
            (some (record {
              command_string = text;
              command_calls = l.others ++ l.first ∷ [];
              background = false;
              open_pipes = l.pipes;
            }))
            (record {
              world = l.world;
              heap = heap ++ (l.others ++ l.first ∷ []);
              last = none;
              last_substitution = none;
              calls = positions (length heap) (l.others ++ l.first ∷ []);
              open_pipes = l.pipes;
            })
  unfolding complete complete_with
  complete-reached text heap l = rw (
    all_calls (length heap) l.others l.first (heap ++ (l.others ++ l.first ∷ [])) l.pipes l.world,
    map-pointed (l.others ++ l.first ∷ []) heap (length heap) refl,
  )

  -- A pipeline of plain commands, with single spaces between the words and the signs |, is parsed to
  -- a command in the foreground with a call for each of them, the last one first and the first one
  -- last. Between two neighbours stands a pipe: the one in front writes to it, the one behind reads
  -- from it, and there is no other redirection. It is assumed that every pipe can be made, and that
  -- no call is left over from a substitution that has failed.
  pub parse_command-pipeline :
      (st : Parser W) (t : Bytes) (ts : List Bytes) (rest : List Stage) (l : Laid W)
      → st.last_substitution ≡ none
      → IsPlainStage (t, ts)
      → All IsPlainStage rest
      → laid os rest (t, ts) st.world ≡ some l
      → parse_command os st (line (t, ts) rest)
        ≡ built
            (some (record {
              command_string = line (t, ts) rest;
              command_calls = l.others ++ l.first ∷ [];
              background = false;
              open_pipes = l.pipes;
            }))
            (record {
              world = l.world;
              heap = st.heap ++ (l.others ++ l.first ∷ []);
              last = none;
              last_substitution = none;
              calls = positions (length st.heap) (l.others ++ l.first ∷ []);
              open_pipes = l.pipes;
            })
  unfolding parse_command sanitized empty
  parse_command-pipeline st t ts rest l e h hs laid_out =
      let text = line (t, ts) rest in
      let words = AllTokens-tokens rest (t, ts) h hs in
      let fuel = suc (length text) in
      let entered =
        ap
          (λ o. complete os text (
            parse_command_call os fuel
              (record {
                world = st.world;
                heap = st.heap;
                last = none;
                last_substitution = o;
                calls = [];
                open_pipes = [];
              })
              text false false))
          e in
      rw
        (
          new_empty_command-trimmed text (join_strings-IsTrimmed t (more ts rest) words),
          trimmed_twice t (more ts rest) words,
        )
        (entered
          ∙ (ap (complete os text) (
                parse_command_call-pipeline os rest t ts fuel st.heap st.world false l h hs
                  (length-line rest t ts words) laid_out)
              ∙ complete-reached text st.heap l))
