-- ===== src/Parse/Line/Reads.antt =====
-- src/command.c: the loop of `parse_read_line` over the commands of a line.
use jsh_tyy.Base.{
  ℕ, suc, ◌+◌, ◌≤◌, ◌≡◌, refl, sym, ap, ◌∙◌, Bool, true, false, ◌==◌, Bytes, codes, List, [], ◌∷◌,
  Option, none, some, ℤ, sub_ℕ, length, arith, All, ◌⊎◌, inl, inr, Bool-cases,
}
use jsh_tyy.System.{Os}
use jsh_tyy.Text.{starts_with, is_only_composed_of}
use jsh_tyy.Text.Words.{words, delimited}
use jsh_tyy.Text.Spec.{split_string_keep_trace_lem, split_of}
use jsh_tyy.Text.Blank.{blank_or_trimmed, length-words}
use jsh_tyy.Text.Trim.{space}
use jsh_tyy.Command.{Command, new_empty_command}
use jsh_tyy.Parse.{Parser}
use jsh_tyy.Parse.Call.{Answer, lost, undefined, answer, not_null}
use jsh_tyy.Parse.Call.Ends.{Allows, Answered}
use jsh_tyy.Parse.Build.Answers.{parse_command_call-Answered, not_null-map}
use jsh_tyy.Parse.Line.{
  Built, unparsed, undefined_build, built, Loop, endless, undefined_loop, aborted, trimmed_last,
  all_parsed, ReadLine, parse_command, sanitized, complete, complete_with, more, loop_step,
  parse_loop, settled, read_tokens, read_split, parse_read_line, at_most,
}

-- What a command of the line may be: its words start no substitution, unless `P` holds.
abbrev pub AllowsWords : Type 0 → Bytes → Type 0
AllowsWords P s = All (Allows P) (words s (codes " "))

-- The backgrounds of the commands from `index` on are those of the indices at most `last`.
abbrev pub Marked : ℕ → ℤ → List Command → Type 0
Marked index last [] = Unit
Marked index last (c ∷ cs) = (c.background ≡ at_most index last) × Marked (index + 1) last cs

-- Of `n` words all are parsed, or all but the last one.
abbrev IsRead : {W : Type 0} → Type 0 → ℕ → ℕ → ℤ → Loop W → Type 0
IsRead P n index last endless = ⊥
IsRead P n index last undefined_loop = P
IsRead P n index last (aborted st) = Unit
IsRead P n index last (trimmed_last cs st) = (suc (length cs) ≡ n) × Marked index last cs
IsRead P n index last (all_parsed cs st) = (length cs ≡ n) × Marked index last cs

-- A command that has been parsed is not marked yet.
abbrev Foreground : {W : Type 0} → Type 0 → Built W → Type 0
Foreground P unparsed = ⊥
Foreground P undefined_build = P
Foreground P (built none st) = Unit
Foreground P (built (some c) st) = c.background ≡ false

empty-blank :
    (s : Bytes) → is_only_composed_of s (codes " ") ≡ some true → new_empty_command s ≡ none
unfolding new_empty_command
empty-blank [] h = refl
empty-blank (c ∷ s) h = rw (new_empty_command, h)

module _ {W : Type 0} (os : Os W) (P : Type 0) where
  complete_with-Foreground :
      (text : Bytes) (last call : Option ℕ) (st : Parser W)
      → Foreground P (complete_with os text last call st)
  unfolding complete_with
  complete_with-Foreground text none none st = tt
  complete_with-Foreground text (some last) none st = tt
  complete_with-Foreground text none (some call) st = tt
  complete_with-Foreground text (some last) (some call) st = refl

  complete-Foreground :
      (text : Bytes) (a : Answer W) → Answered P a → Foreground P (complete os text a)
  unfolding complete
  complete-Foreground text lost h = absurd h
  complete-Foreground text undefined h = h
  complete-Foreground text (answer call st) h = complete_with-Foreground text st.last call st

  sanitized-Foreground :
      (s : Bytes) (c : Option Command) (text : Option (Option Bytes)) (st : Parser W)
      → AllowsWords P s
      → (c ≡ none) ⊎ ((t : Bytes) × (text ≡ some (some t)))
      → Foreground P (sanitized os s c text st)
  unfolding sanitized
  sanitized-Foreground s none text st ok h = tt
  sanitized-Foreground s (some c) none st ok h = elim h [
    | inl e ↦ absurd (cc)
    | inr (t, e) ↦ absurd (cc)
  ]
  sanitized-Foreground s (some c) (some none) st ok h = tt
  sanitized-Foreground s (some c) (some (some text)) st ok h = complete-Foreground text _ (
      parse_command_call-Answered os P (suc (length s)) _ s false false ok
        (omega (arith, length-words s space)))

  -- Every string is parsed: to NULL, or to a command that is not in the background.
  parse_command-Foreground :
      (st : Parser W) (s : Bytes) → AllowsWords P s → Foreground P (parse_command os st s)
  unfolding parse_command
  parse_command-Foreground st s ok = sanitized-Foreground s _ _ st ok (elim (blank_or_trimmed s) [
    | inl blank ↦ inl (empty-blank s blank)
    | inr (t, e) ↦ inr (t, e)
  ])

  more-IsRead :
      (c : Command) (l : Loop W) (n index : ℕ) (last : ℤ)
      → c.background ≡ at_most index last
      → IsRead P n (index + 1) last l
      → IsRead P (suc n) index last (more os c l)
  unfolding more
  more-IsRead c endless n index last e h = h
  more-IsRead c undefined_loop n index last e h = h
  more-IsRead c (aborted st) n index last e h = tt
  more-IsRead c (trimmed_last cs st) n index last e (l, h) = (ap suc l, (e, h))
  more-IsRead c (all_parsed cs st) n index last e (l, h) = (ap suc l, (e, h))

  loop_step-IsRead :
      (b is_last : Bool) (next : Parser W → Loop W) (r : Built W) (n index : ℕ) (last : ℤ)
      → at_most index last ≡ b
      → (n == 0) ≡ is_last
      → Foreground P r
      → ((st : Parser W) → IsRead P n (index + 1) last (next st))
      → IsRead P (suc n) index last (loop_step os b is_last next r)
  unfolding loop_step
  loop_step-IsRead b is_last next unparsed n index last e z h hn = absurd h
  loop_step-IsRead b is_last next undefined_build n index last e z h hn = h
  loop_step-IsRead b true next (built none st) n index last e z h hn = (ground arith, tt)
  loop_step-IsRead b false next (built none st) n index last e z h hn = tt
  loop_step-IsRead true is_last next (built (some c) st) n index last e z h hn =
      more-IsRead _ _ n index last (sym e) (hn st)
  loop_step-IsRead false is_last next (built (some c) st) n index last e z h hn =
      more-IsRead c _ n index last (h ∙ sym e) (hn st)

  parse_loop-IsRead :
      (ts : List Bytes) (index : ℕ) (last : ℤ) (st : Parser W)
      → All (AllowsWords P) ts
      → IsRead P (length ts) index last (parse_loop os index last ts st)
  unfolding parse_loop
  parse_loop-IsRead [] index last st ok = (refl, tt)
  parse_loop-IsRead (s ∷ ts) index last st (ok, oks) =
      loop_step-IsRead (at_most index last) (length ts == 0) _ _ (length ts) index last refl refl
        (parse_command-Foreground st s ok) (λ st'. parse_loop-IsRead ts (index + 1) last st' oks)

  abbrev pub Listed : ℕ → ℤ → Option (List Command) → ℕ → Type 0
  Listed n last none total = Unit
  Listed n last (some cs) total =
      (length cs ≡ total) × ((total ≤ n) × ((n ≤ suc total) × Marked 0 last cs))

  abbrev pub IsLine : ℕ → ℤ → Option (Option (ReadLine W)) → Type 0
  IsLine n last none = ⊥
  IsLine n last (some none) = P
  IsLine n last (some (some r)) = Listed n last r.commands r.total_commands

  settled-IsLine :
      (n : ℕ) (last : ℤ) (l : Loop W) → IsRead P n 0 last l → IsLine n last (settled os n l)
  unfolding settled
  settled-IsLine n last endless h = h
  settled-IsLine n last undefined_loop h = h
  settled-IsLine n last (aborted st) h = tt
  settled-IsLine n last (trimmed_last [] st) h = tt
  settled-IsLine n last (trimmed_last (c ∷ cs) st) (e, h) = (refl, (omega arith, (omega arith, h)))
  settled-IsLine n last (all_parsed cs st) (e, h) = (e, (omega arith, (omega arith, h)))

  read_split-IsLine :
      (ts : List Bytes) (d : ℕ) (st : Parser W)
      → All (AllowsWords P) ts
      → IsLine (length ts) (sub_ℕ d 1) (read_split os (some (split_of ts d)) st)
  unfolding read_split read_tokens not_null
  read_split-IsLine [] d st ok = tt
  read_split-IsLine (t ∷ ts) d st ok =
      rw (not_null-map ts) (settled-IsLine _ _ _ (parse_loop-IsRead (t ∷ ts) 0 (sub_ℕ d 1) st ok))

  pub parse_read_line-IsLine :
      (st : Parser W) (s : Bytes)
      → All (AllowsWords P) (words s (codes "&"))
      → IsLine
          (length (words s (codes "&")))
          (sub_ℕ (delimited s (codes "&")) 1)
          (parse_read_line os st s)
  unfolding parse_read_line
  parse_read_line-IsLine st s ok = elim (Bool-cases (starts_with s (codes "&"))) [
    | inl starts ↦ rw starts tt
    | inr goes ↦
        rw (goes, split_string_keep_trace_lem s 38 [])
          (read_split-IsLine (words s (codes "&")) (delimited s (codes "&")) st ok)
  ]
