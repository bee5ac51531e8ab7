-- ===== src/Parse/Redirect/Target.antt =====
-- src/command.c: what `parse_redirections` does, by its symbol.
use jsh_tyy.Base.{
  ℕ, ◌≡◌, refl, true, false, Bytes, codes, List, [], ◌∷◌, Option, none, some, if◌then◌else◌, ℤ, pos,
  is_negative, exceeds, set, Bool-cases, inl, inr, ◌⊎◌,
}
use jsh_tyy.System.{Os, OpenMode, read_only, create_excl, create_trunc, create_append}
use jsh_tyy.Text.{str_eq}
use jsh_tyy.Parse.{fd_at}
use jsh_tyy.Parse.Redirect.{redirection, redirect, open_error, parse_redirections}

-- The seven symbols of a redirection: the standard stream of each, and how its file is opened.
abbrev pub symbols : List (Bytes × ℕ × OpenMode)
symbols =
    (codes "<", 0, read_only)
    ∷ (codes ">", 1, create_excl)
    ∷ (codes ">|", 1, create_trunc)
    ∷ (codes ">>", 1, create_append)
    ∷ (codes "2>", 2, create_excl)
    ∷ (codes "2>|", 2, create_trunc)
    ∷ (codes "2>>", 2, create_append)
    ∷ []

-- The row of a symbol.
abbrev pub row_of : List (Bytes × ℕ × OpenMode) → Bytes → Option (ℕ × OpenMode)
row_of [] symbol = none
row_of ((name, i, mode) ∷ rows) symbol =
    let next = row_of rows symbol in if str_eq symbol name then some (i, mode) else next

module _ {W : Type 0} (os : Os W) (fds : List ℤ) (filename : Bytes) (w : W) where
  -- The result, by the row of the symbol. Without a row it is an error, and nothing is done. With one
  -- the file is opened in the mode of the row. If that fails the result is an error, and at most a
  -- message is printed; else the descriptor of the row is replaced by that of the file, and no other,
  -- and the old one is closed if it is above 2.
  abbrev pub Redirected : Option (ℕ × OpenMode) → Option (List ℤ) × W → Type 0
  Redirected none result = result ≡ (none, w)
  Redirected (some (i, mode)) (none, w') =
      let (fd, opened) = os.open_file filename mode w in
      (is_negative fd ≡ true)
      × ((w' ≡ opened) ⊎ ((text : Bytes) × (w' ≡ os.dprintf (pos 2) text opened)))
  Redirected (some (i, mode)) (some fds', w') =
      let (fd, opened) = os.open_file filename mode w in
      (is_negative fd ≡ false)
      × ((fds' ≡ set fds i fd)
          × (w' ≡ (if exceeds (fd_at fds i) 2 then os.close (fd_at fds i) opened else opened)))

  error-Redirected :
      (i : ℕ) (mode : OpenMode)
      → is_negative (os.open_file filename mode w).0 ≡ true
      → Redirected
          (some (i, mode))
          (none, open_error os mode filename (os.open_file filename mode w).1)
  unfolding open_error
  error-Redirected i read_only bad = (bad, inr (_, refl))
  error-Redirected i create_excl bad = (bad, inr (_, refl))
  error-Redirected i create_trunc bad = (bad, inl refl)
  error-Redirected i create_append bad = (bad, inl refl)

  redirect-Redirected :
      (row : Option (ℕ × OpenMode)) → Redirected row (redirect os fds filename row w)
  unfolding redirect
  redirect-Redirected none = refl
  redirect-Redirected (some (i, mode)) =
      elim (Bool-cases (is_negative (os.open_file filename mode w).0)) [
        | inl bad ↦ rw bad (error-Redirected i mode bad)
        | inr good ↦ rw good (good, (refl, refl))
      ]

  -- Each of the seven symbols opens the file in its own mode. Where the file cannot be opened, the
  -- result is an error and no descriptor is closed. Else the symbol's own standard stream becomes the
  -- descriptor of the file, the other two stay, and the one that is replaced is closed if it is above
  -- 2. With any other symbol the result is an error and nothing is done.
  pub parse_redirections-Redirected :
      (symbol : Bytes)
      → Redirected (row_of symbols symbol) (parse_redirections os fds symbol filename w)
  unfolding parse_redirections redirection
  parse_redirections-Redirected symbol = redirect-Redirected (row_of symbols symbol)
