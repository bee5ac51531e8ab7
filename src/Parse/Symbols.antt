-- ===== src/Parse/Symbols.antt =====
-- src/command.c: the symbols of a command, the end of a substitution and `remove_extra_pipes`.
pub mod Halves
use jsh_tyy.Base.{
  ℕ, zero, suc, ◌-◌, ◌==◌, Bool, ◌&&◌, Bytes, codes, List, [], ◌∷◌, ◌++◌, Option, none, some,
  if◌then◌else◌,
}
use jsh_tyy.Text.{str_eq, contains_string}

abbrev pub redirection_caret_symbols : List Bytes
redirection_caret_symbols =
    codes ">"
    ∷ codes "<"
    ∷ codes ">|"
    ∷ codes ">>"
    ∷ codes "2>"
    ∷ codes "2>|"
    ∷ codes "2>>"
    ∷ codes "<("
    ∷ codes ")"
    ∷ codes "|"
    ∷ []

unfoldable pub is_symbol : Bytes → Bool
is_symbol token = contains_string redirection_caret_symbols token

-- The loop that looks for the end of a substitution: the tokens inside of it, and those behind.
unfoldable pub find_end : ℕ → List Bytes → List Bytes → Option (List Bytes × List Bytes)
find_end starts inside [] = none
find_end starts inside (t ∷ ts) =
    let opens = str_eq t (codes "<(") in
    let closes = str_eq t (codes ")") in
    let starts' = if opens then suc starts else if closes then starts - 1 else starts in
    let rest = find_end starts' (inside ++ t ∷ []) ts in
    if closes && starts == 0 then some (inside, ts) else rest

-- `found_substitutions` is the number of ( less that of ).
remove_loop : ℕ → ℕ → Bytes → Bytes
remove_loop opened closed [] = []
remove_loop opened closed (c ∷ s) =
    let opened' = if c == 40 then suc opened else opened in
    let closed' = if c == 41 then suc closed else closed in
    let rest = remove_loop opened' closed' s in
    if c == 124 && opened == closed then [] else c ∷ rest

unfoldable pub remove_extra_pipes : Bytes → Bytes
unfolding remove_loop
remove_extra_pipes command_string = remove_loop 0 0 command_string
