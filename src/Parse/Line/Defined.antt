-- ===== src/Parse/Line/Defined.antt =====
-- src/command.c: the lines on which `parse_read_line` does nothing undefined.
use jsh_tyy.Base.{ℕ, ℤ, ◌≡◌, refl, false, Bytes, codes, List, [], ◌∷◌, Option, none, some, All}
use jsh_tyy.System.{Os}
use jsh_tyy.Text.{str_eq}
use jsh_tyy.Text.Words.{words}
use jsh_tyy.Parse.{Parser}
use jsh_tyy.Parse.Call.Ends.{Allows}
use jsh_tyy.Parse.Line.{ReadLine, parse_read_line}
use jsh_tyy.Parse.Line.Reads.{AllowsWords, IsLine, parse_read_line-IsLine}

-- No word starts a substitution.
abbrev pub WithoutSubstitution : Bytes → Type 0
WithoutSubstitution s = All (λ t. str_eq t (codes "<(") ≡ false) (words s (codes " "))

without-Allows : (ts : List Bytes) → All (λ t. str_eq t (codes "<(") ≡ false) ts → All (Allows ⊥) ts
without-Allows [] h = tt
without-Allows (t ∷ ts) (h, hs) = ((λ e. cc (rw h at e)), without-Allows ts hs)

without-AllowsWords : (ss : List Bytes) → All WithoutSubstitution ss → All (AllowsWords ⊥) ss
without-AllowsWords [] h = tt
without-AllowsWords (s ∷ ss) (h, hs) =
    (without-Allows (words s (codes " ")) h, without-AllowsWords ss hs)

module _ {W : Type 0} (os : Os W) where
  returned :
      (n : ℕ) (last : ℤ) (o : Option (Option (ReadLine W)))
      → IsLine os ⊥ n last o
      → (r : ReadLine W) × (o ≡ some (some r))
  returned n last none h = absurd h
  returned n last (some none) h = absurd h
  returned n last (some (some r)) h = (r, refl)

  -- On a line no command of which has the word `<(`, whatever its pipelines and redirections are and
  -- whether it can be parsed or not, and whatever the system calls return, `parse_read_line` returns
  -- and does nothing undefined.
  pub parse_read_line-returns :
      (st : Parser W) (line : Bytes)
      → All WithoutSubstitution (words line (codes "&"))
      → (r : ReadLine W) × (parse_read_line os st line ≡ some (some r))
  parse_read_line-returns st line h =
      returned _ _ _
        (parse_read_line-IsLine os ⊥ st line (without-AllowsWords (words line (codes "&")) h))
