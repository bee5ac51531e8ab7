-- ===== src/Parse/Symbols/Halves.antt =====
-- src/command.c: the tokens inside of a substitution and those behind it.
use jsh_tyy.Base.{
  ℕ, suc, ◌+◌, ◌-◌, ◌≤◌, ◌==◌, ◌&&◌, Bool, true, false, Bytes, codes, List, [], ◌∷◌, ◌++◌, Option,
  none, some, if◌then◌else◌, length, length-append, All, arith,
}
use jsh_tyy.Text.{str_eq}
use jsh_tyy.Text.Tokens.{IsToken}
use jsh_tyy.Text.Trim.{space}
use jsh_tyy.Parse.Symbols.{find_end}

abbrev pub AllTokens : List Bytes → Type 0
AllTokens = All (IsToken space)

-- The two parts have at most `n` tokens.
abbrev pub Halves : ℕ → Option (List Bytes × List Bytes) → Type 0
Halves n none = Unit
Halves n (some (inside, after)) =
    (length inside + length after ≤ n) × (AllTokens inside × AllTokens after)

Halves-if :
    (b : Bool) (n : ℕ) (x y : Option (List Bytes × List Bytes))
    → Halves n x
    → Halves n y
    → Halves n (if b then x else y)
Halves-if true n x y hx hy = hx
Halves-if false n x y hx hy = hy

All-snoc : (ts : List Bytes) (t : Bytes) → AllTokens ts → IsToken space t → AllTokens (ts ++ t ∷ [])
All-snoc [] t h ht = (ht, tt)
All-snoc (x ∷ ts) t (h, hs) ht = (h, All-snoc ts t hs ht)

pub find_end-Halves :
    (starts : ℕ) (inside ts : List Bytes) (n : ℕ)
    → AllTokens inside
    → AllTokens ts
    → length inside + length ts ≤ n
    → Halves n (find_end starts inside ts)
unfolding find_end
find_end-Halves starts inside [] n hi ht le = tt
find_end-Halves starts inside (t ∷ ts) n hi (h, hs) le =
    Halves-if (str_eq t (codes ")") && starts == 0) n _ _ (omega arith, (hi, hs))
      (find_end-Halves
        (if str_eq t (codes "<(")
          then suc starts
          else if str_eq t (codes ")")
          then starts - 1
          else starts)
        (inside ++ t ∷ []) ts n (All-snoc inside t hi h) hs
        (omega (arith, length-append inside (t ∷ []))))
