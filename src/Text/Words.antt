-- ===== src/Text/Words.antt =====
-- The words of a string in one pass: the description that the iterator of src/string_utils.c is
-- compared with.
use jsh_tyy.Base.{
  ℕ, zero, suc, ◌+◌, ◌-◌, ◌≤◌, ◌≡◌, refl, Bytes, true, false, List, [], ◌∷◌, ◌++◌, arith,
  if◌then◌else◌, length, drop,
}
use jsh_tyy.Text.{starts_with}

-- A word that has no byte is not listed.
abbrev pub flush : Bytes → List Bytes → List Bytes
flush [] ws = ws
flush (c ∷ cur) ws = (c ∷ cur) ∷ ws

-- Whether a word has begun.
abbrev pub flag : Bytes → ℕ
flag [] = 0
flag (c ∷ cur) = 1

pub flag-grow : (cur : Bytes) (c : ℕ) → flag (cur ++ c ∷ []) ≡ 1
flag-grow [] c = refl
flag-grow (x ∷ cur) c = refl

-- `skip` bytes of a separator are still to be read; `cur` is the word so far.
unfoldable pub words_from : Bytes → ℕ → Bytes → Bytes → List Bytes
words_from sep skip cur [] = flush cur []
words_from sep (suc k) cur (c ∷ s) = words_from sep k cur s
words_from sep zero cur (c ∷ s) =
    let cut = flush cur (words_from sep (length sep - 1) [] s) in
    let grow = words_from sep 0 (cur ++ c ∷ []) s in if starts_with (c ∷ s) sep then cut else grow

unfoldable pub words : Bytes → Bytes → List Bytes
unfolding words_from
words s sep = words_from sep 0 [] s

-- Skipping bytes is dropping them.
pub words_from-drop :
    (sep cur : Bytes) (k : ℕ) (s : Bytes) → words_from sep k cur s ≡ words_from sep 0 cur (drop k s)
unfolding words_from
words_from-drop sep cur zero s = refl
words_from-drop sep cur (suc k) [] = refl
words_from-drop sep cur (suc k) (c ∷ s) = words_from-drop sep cur k s

-- At a separator the word ends, and the separator is dropped whole.
pub words_from_cut :
    (b : ℕ) (p cur : Bytes) (c : ℕ) (s : Bytes)
    → starts_with (c ∷ s) (b ∷ p) ≡ true
    → words_from (b ∷ p) 0 cur (c ∷ s) ≡ flush cur (words_from (b ∷ p) 0 [] (drop (length p) s))
unfolding words_from
words_from_cut b p cur c s h =
    let e : suc (length p) - 1 ≡ length p = omega arith in
    rw (h, e, words_from-drop (b ∷ p) [] (length p) s)

-- Elsewhere the byte joins the word.
pub words_from_grow :
    (sep cur : Bytes) (c : ℕ) (s : Bytes)
    → starts_with (c ∷ s) sep ≡ false
    → words_from sep 0 cur (c ∷ s) ≡ words_from sep 0 (cur ++ c ∷ []) s
unfolding words_from
words_from_grow sep cur c s h = rw h

-- How many of the words a separator follows.
unfoldable pub delimited_from : Bytes → ℕ → Bytes → Bytes → ℕ
delimited_from sep skip cur [] = 0
delimited_from sep (suc k) cur (c ∷ s) = delimited_from sep k cur s
delimited_from sep zero cur (c ∷ s) =
    let cut = flag cur + delimited_from sep (length sep - 1) [] s in
    let grow = delimited_from sep 0 (cur ++ c ∷ []) s in
    if starts_with (c ∷ s) sep then cut else grow

pub delimited_from-drop :
    (sep cur : Bytes) (k : ℕ) (s : Bytes)
    → delimited_from sep k cur s ≡ delimited_from sep 0 cur (drop k s)
unfolding delimited_from
delimited_from-drop sep cur zero s = refl
delimited_from-drop sep cur (suc k) [] = refl
delimited_from-drop sep cur (suc k) (c ∷ s) = delimited_from-drop sep cur k s

pub delimited_from_cut :
    (b : ℕ) (p cur : Bytes) (c : ℕ) (s : Bytes)
    → starts_with (c ∷ s) (b ∷ p) ≡ true
    → delimited_from (b ∷ p) 0 cur (c ∷ s)
      ≡ flag cur + delimited_from (b ∷ p) 0 [] (drop (length p) s)
unfolding delimited_from
delimited_from_cut b p cur c s h =
    let e : suc (length p) - 1 ≡ length p = omega arith in
    rw (h, e, delimited_from-drop (b ∷ p) [] (length p) s)

pub delimited_from_grow :
    (sep cur : Bytes) (c : ℕ) (s : Bytes)
    → starts_with (c ∷ s) sep ≡ false
    → delimited_from sep 0 cur (c ∷ s) ≡ delimited_from sep 0 (cur ++ c ∷ []) s
unfolding delimited_from
delimited_from_grow sep cur c s h = rw h

unfoldable pub delimited : Bytes → Bytes → ℕ
unfolding delimited_from
delimited s sep = delimited_from sep 0 [] s

pub length-flush : (cur : Bytes) (ws : List Bytes) → length (flush cur ws) ≡ flag cur + length ws
length-flush [] ws = omega arith
length-flush (c ∷ cur) ws = omega arith

-- A word is counted at most once.
pub delimited_from-le :
    (sep : Bytes) (skip : ℕ) (cur s : Bytes)
    → delimited_from sep skip cur s ≤ length (words_from sep skip cur s)
unfolding delimited_from words_from
delimited_from-le sep skip cur [] = omega arith
delimited_from-le sep (suc k) cur (c ∷ s) = delimited_from-le sep k cur s
delimited_from-le sep zero cur (c ∷ s) =
    let rest = words_from sep (length sep - 1) [] s in
    ground (
      arith,
      length-flush cur rest,
      delimited_from-le sep (length sep - 1) [] s,
      delimited_from-le sep 0 (cur ++ c ∷ []) s,
    )
