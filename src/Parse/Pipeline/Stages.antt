-- ===== src/Parse/Pipeline/Stages.antt =====
-- src/command.c: the words of a pipeline, and the calls on the parser's heap.
use jsh_tyy.Base.{
  ℕ, zero, suc, ◌≤◌, ◌≡◌, refl, Bool, true, false, Bytes, codes, List, [], ◌∷◌, ◌++◌, append_assoc,
  All, length, arith,
}
use jsh_tyy.System.{Os}
use jsh_tyy.Text.{contains_string, str_eq}
use jsh_tyy.Parse.{Parser, Builder}
use jsh_tyy.Parse.Symbols.{is_symbol}
use jsh_tyy.Parse.Symbols.Halves.{AllTokens}
use jsh_tyy.Parse.Build.Plain.{IsPlain, AllTokens-plain}
use jsh_tyy.Parse.Call.{Answer, Arguments, done, arguments, symbol}
use jsh_tyy.Parse.Pipeline.{Stage, more, tokens}

-- A call of plain words.
abbrev pub IsPlainStage : Stage → Type 0
IsPlainStage (t, ts) = All IsPlain (t ∷ ts)

bar-is_symbol : is_symbol (codes "|") ≡ true
unfolding is_symbol contains_string str_eq
bar-is_symbol = refl

AllTokens-append : (xs ys : List Bytes) → AllTokens xs → AllTokens ys → AllTokens (xs ++ ys)
AllTokens-append [] ys h k = k
AllTokens-append (x ∷ xs) ys (h, hs) k = (h, AllTokens-append xs ys hs k)

AllTokens-more :
    (rest : List Stage) (ts : List Bytes)
    → All IsPlain ts
    → All IsPlainStage rest
    → AllTokens (more ts rest)
AllTokens-more [] ts h k = AllTokens-plain ts h
AllTokens-more ((u, us) ∷ rest) ts h ((k, ks), ls) =
    AllTokens-append ts _ (AllTokens-plain ts h)
      (((λ e. cc), (omega arith, tt)), (k.0, AllTokens-more rest us ks ls))

pub AllTokens-tokens :
    (rest : List Stage) (s : Stage)
    → IsPlainStage s
    → All IsPlainStage rest
    → AllTokens (tokens s rest)
AllTokens-tokens rest (t, ts) (h, hs) k = (h.0, AllTokens-more rest ts hs k)

module _ {W : Type 0} (os : Os W) (parse : Parser W → Bytes → Bool → Bool → Answer W) where
  -- The loop up to the first sign |, where the rest of the pipeline is parsed, which settles it.
  pub arguments-bar :
      (ts : List Bytes) (t : Bytes) (n : ℕ) (first : Bool) (builder : Builder) (kept : List Bytes)
      (u : Bytes) (after : List Bytes) (st : Parser W) (r : Arguments W)
      → All IsPlain (t ∷ ts)
      → is_symbol u ≡ false
      → suc (suc (length ts)) ≤ n
      → ((m : ℕ) → arguments os parse m false false r ≡ r)
      → symbol os parse false builder (kept ++ t ∷ ts) (codes "|") u after st ≡ r
      → arguments os parse n first false
          (done builder kept (t ∷ (ts ++ codes "|" ∷ (u ∷ after))) st)
        ≡ r
  unfolding arguments
  arguments-bar ts t zero first builder kept u after st r h plain le settled e =
      absurd (omega arith)
  arguments-bar [] t (suc zero) first builder kept u after st r h plain le settled e =
      absurd (omega arith)
  arguments-bar [] t (suc (suc n)) first builder kept u after st r (h, hs) plain le settled e =
      rw (arguments, h.1, bar-is_symbol, plain, e) (settled n)
  arguments-bar (t' ∷ ts) t (suc n) first builder kept u after st r (h, hs) plain le settled e =
      rw (arguments, h.1)
        (arguments-bar ts t' n false builder (kept ++ t ∷ []) u after st r hs plain (omega arith)
          settled (rw (append_assoc kept (t ∷ []) (t' ∷ ts)) e))
