-- ===== src/Parse/Line/Spec.antt =====
-- src/command.c: what `parse_read_line` returns for a line.
use jsh_tyy.Base.{
  ℕ, zero, suc, ◌+◌, ◌≤◌, ◌<◌, ◌≡◌, ◌||◌, if◌then◌else◌, ◌≢◌, ◌∙◌, subst, Bool, ltb, Bytes, codes,
  List, [], ◌∷◌, none, some, ℤ, sub_ℕ, length, get_elem?, arith, All,
}
use jsh_tyy.System.{Os}
use jsh_tyy.Text.Words.{words, delimited}
use jsh_tyy.Text.Tokens.{ends_with, delimited-ends}
use jsh_tyy.Command.{Command}
use jsh_tyy.Parse.{Parser}
use jsh_tyy.Parse.Call.Ends.{Allows-any}
use jsh_tyy.Parse.Line.{ReadLine, parse_read_line, at_most}
use jsh_tyy.Parse.Line.Reads.{AllowsWords, Marked, Listed, IsLine, parse_read_line-IsLine}

Marked-get :
    (cs : List Command) (index : ℕ) (last : ℤ) (i : ℕ) (c : Command)
    → Marked index last cs
    → get_elem? cs i ≡ some c
    → c.background ≡ at_most (index + i) last
Marked-get [] index last i c h e = absurd (cc)
Marked-get (x ∷ cs) index last zero c (hx, h) e =
    let same : x ≡ c = cc in
    let zeros : index ≡ index + 0 = omega arith in
    subst (λ d. d.background ≡ at_most (index + 0) last) same
      (subst (λ n. x.background ≡ at_most n last) zeros hx)
Marked-get (x ∷ cs) index last (suc i) c (hx, h) e =
    let shift : index + 1 + i ≡ index + suc i = omega arith in
    subst (λ n. c.background ≡ at_most n last) shift (Marked-get cs (index + 1) last i c h e)

at_most-sub_ℕ : (i n : ℕ) → at_most i (sub_ℕ n 1) ≡ ltb i n
at_most-sub_ℕ i n = ground arith

any-AllowsWords : (ss : List Bytes) → All (AllowsWords Unit) ss
any-AllowsWords [] = tt
any-AllowsWords (s ∷ ss) = (Allows-any Unit tt (words s (codes " ")), any-AllowsWords ss)

module _ {W : Type 0} (os : Os W) (st : Parser W) (line : Bytes) where
  -- On every line, and whatever the system calls return, `parse_read_line` terminates: it
  -- returns, or comes to something undefined, and never calls itself without an end.
  pub parse_read_line-ne_none : parse_read_line os st line ≢ none
  parse_read_line-ne_none e =
      subst
        (IsLine os Unit (length (words line (codes "&"))) (sub_ℕ (delimited line (codes "&")) 1)) e
        (parse_read_line-IsLine os Unit st line (any-AllowsWords (words line (codes "&"))))

  module _ (r : ReadLine W) (cs : List Command) (e : parse_read_line os st line ≡ some (some r))
      (ec : r.commands ≡ some cs) where
    listed :
        Listed os Unit
          (length (words line (codes "&")))
          (sub_ℕ (delimited line (codes "&")) 1)
          (some cs)
          r.total_commands
    listed =
        subst
          (λ o.
            Listed os Unit (length (words line (codes "&"))) (sub_ℕ (delimited line (codes "&")) 1)
              o r.total_commands)
          ec
          (subst
            (IsLine os Unit (length (words line (codes "&")))
              (sub_ℕ (delimited line (codes "&")) 1))
            e (parse_read_line-IsLine os Unit st line (any-AllowsWords (words line (codes "&")))))

    -- Where it returns commands, `total_commands` is their number, and that is the number of the
    -- line's words between the signs &, or one less.
    pub parse_read_line-total_commands :
        (length cs ≡ r.total_commands)
        × ((r.total_commands ≤ length (words line (codes "&")))
            × (length (words line (codes "&")) ≤ suc r.total_commands))
    parse_read_line-total_commands = let (a, (b, (c, d))) = listed in (a, (b, c))

    marked :
        (i : ℕ) (c : Command)
        → get_elem? cs i ≡ some c
        → c.background ≡ ltb i (delimited line (codes "&"))
    marked i c h =
        let (a, (b, (k, d))) = listed in
        let z : 0 + i ≡ i = omega arith in
        subst (λ n. c.background ≡ at_most n (sub_ℕ (delimited line (codes "&")) 1)) z
          (Marked-get cs 0 _ i c d h)
        ∙ at_most-sub_ℕ i _

get_elem?-lt : (cs : List Command) (i : ℕ) (c : Command) → get_elem? cs i ≡ some c → i < length cs
get_elem?-lt [] i c e = absurd (cc)
get_elem?-lt (x ∷ cs) zero c e = omega arith
get_elem?-lt (x ∷ cs) (suc i) c e = omega (arith, get_elem?-lt cs i c e)

flagged :
    (i d n : ℕ) (ends : Bool)
    → i < n
    → d + (if ends then 0 else 1) ≡ n
    → ltb i d ≡ (ltb (suc i) n || ends)
flagged i d n ends lt e = ground arith

module _ {W : Type 0} (os : Os W) (st : Parser W) (b : ℕ) (s : Bytes) where
  -- Of the commands that a line gives, every one but the line's last word between the signs & is
  -- run in the background, and that one is exactly when the line ends with a sign &.
  pub parse_read_line-background :
      (r : ReadLine W) (cs : List Command) (i : ℕ) (c : Command)
      → parse_read_line os st (b ∷ s) ≡ some (some r)
      → r.commands ≡ some cs
      → get_elem? cs i ≡ some c
      → c.background ≡ (ltb (suc i) (length (words (b ∷ s) (codes "&"))) || ends_with 38 (b ∷ s))
  parse_read_line-background r cs i c e ec ei =
      let (total, (le, more)) = parse_read_line-total_commands os st (b ∷ s) r cs e ec in
      let lt = get_elem?-lt cs i c ei in
      marked os st (b ∷ s) r cs e ec i c ei
      ∙ flagged i _ _ _ (omega (arith, total, le, lt)) (delimited-ends 38 b s)
