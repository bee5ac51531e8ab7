-- ===== src/Text/Trim.antt =====
-- src/string_utils.c: `trim_spaces`.
use jsh_tyy.Base.{
  ℕ, zero, suc, ◌+◌, ◌-◌, ◌<◌, ◌≡◌, ◌≢◌, refl, ap, ◌∙◌, Bytes, false, [], ◌∷◌, ◌++◌, Option, none,
  some, arith, length, ◌==◌, ltb, leb, if◌then◌else◌, Bool-cases, inl, inr, get_elem?, take, drop,
  replicate, ◌&&◌, length-append, length-replicate, get_elem?-append_left, get_elem?-append_right,
  get_elem?-replicate, take-append_left, ltb_of_lt, lt_of_ltb, append-nil, ◌>>=◌,
}
use jsh_tyy.Text.Tokens.{ends_with}

abbrev pub space : ℕ
space = b' '

-- `while (str[trim_start_len] == ' ')`: the terminating NUL stops it.
leading : Bytes → ℕ
leading [] = 0
leading (c ∷ s) = if c == space then suc (leading s) else 0

-- `while (str[strlen(str) - 1 - trim_end_len] == ' ')`. Nothing stops this loop in front of the
-- string: `none` is a read of `str[-1]`.
trailing : ℕ → Bytes → ℕ → Option ℕ
trailing zero s k = none
trailing (suc fuel) s k =
    let rest = trailing fuel s (k + 1) in
    let read = get_elem? s (length s - 1 - k) >>= (λ c. if c == space then rest else some k) in
    if ltb k (length s) then read else none

trimmed : Bytes → ℕ → ℕ → Bytes
trimmed s start stop =
    if start == 0 && stop == 0
    then s
    else if leb (length s) (start + stop)
    then []
    else take (length s - start - stop) (drop start s)

-- The outer `none` is undefined behaviour, the inner one `NULL`.
unfoldable pub trim_spaces : Option Bytes → Option (Option Bytes)
unfolding leading trailing trimmed
trim_spaces none = some none
trim_spaces (some []) = some (some [])
trim_spaces (some (c ∷ s)) = do
  let text = c ∷ s
  k ← trailing (suc (length text)) text 0
  some (some (trimmed text (leading text) k))

-- A string that neither begins nor ends with a space, and is not empty.
abbrev pub IsTrimmed : Bytes → Type 0
IsTrimmed [] = ⊥
IsTrimmed (c ∷ s) = (c ≢ space) × (ends_with space (c ∷ s) ≡ false)

last_byte :
    (c : ℕ) (s : Bytes)
    → ends_with space (c ∷ s) ≡ false
    → (d : ℕ) × (get_elem? (c ∷ s) (length s) ≡ some d) × (d ≢ space)
last_byte c [] h = (c, refl, ground arith)
last_byte c (d ∷ s) h = last_byte d s h

leading-replicate :
    (m : ℕ) (c : ℕ) (s : Bytes) → c ≢ space → leading (replicate m space ++ c ∷ s) ≡ m
unfolding leading
leading-replicate zero c s h = ground arith
leading-replicate (suc m) c s h = ap suc (leading-replicate m c s h)

-- The loop that counts the spaces behind `c ∷ s`, with `j` of `n` left to read.
module _ (pre : Bytes) (c : ℕ) (s : Bytes) (h : ends_with space (c ∷ s) ≡ false) (n : ℕ) where
  abbrev text : Bytes
  text = pre ++ ((c ∷ s) ++ replicate n space)

  length-text : length text ≡ length pre + (suc (length s) + n)
  length-text = omega (
    arith,
    length-append pre ((c ∷ s) ++ replicate n space),
    length-append (c ∷ s) (replicate n space),
    length-replicate n space,
  )

  read_space : (j : ℕ) → j < n → get_elem? text (length pre + (suc (length s) + j)) ≡ some space
  read_space j lt =
      get_elem?-append_right pre _ (suc (length s) + j)
      ∙ (get_elem?-append_right (c ∷ s) (replicate n space) j ∙ get_elem?-replicate n space j lt)

  read_last : get_elem? text (length pre + length s) ≡ get_elem? (c ∷ s) (length s)
  read_last =
      get_elem?-append_right pre _ (length s)
      ∙ get_elem?-append_left (c ∷ s) (replicate n space) (length s) (omega arith)

  trailing-text : (fuel j k : ℕ) → j + k ≡ n → j < fuel → trailing fuel text k ≡ some n
  unfolding trailing
  trailing-text zero j k e lt = absurd (omega arith)
  trailing-text (suc fuel) zero k e lt =
      let (d, ed, nd) = last_byte c s h in
      let i : length text - 1 - k ≡ length pre + length s = omega (arith, length-text) in
      rw (ltb_of_lt k (length text) (omega (arith, length-text)), i, read_last, ed) (ground arith)
  trailing-text (suc fuel) (suc j) k e lt =
      let i : length text - 1 - k ≡ length pre + (suc (length s) + j) =
        omega (arith, length-text) in
      rw (ltb_of_lt k (length text) (omega (arith, length-text)), i, read_space j (omega arith))
        (trailing-text fuel j (k + 1) (omega arith) (omega arith))

drop-replicate : (k : ℕ) (t : Bytes) → drop k (replicate k space ++ t) ≡ t
drop-replicate zero t = refl
drop-replicate (suc k) t = drop-replicate k t

abbrev pub padded : ℕ → Bytes → ℕ → Bytes
padded m s n = replicate m space ++ (s ++ replicate n space)

length-padded : (m : ℕ) (s : Bytes) (n : ℕ) → length (padded m s n) ≡ m + (length s + n)
length-padded m s n = omega (
  arith,
  length-append (replicate m space) (s ++ replicate n space),
  length-append s (replicate n space),
  length-replicate n space,
  length-replicate m space,
)

trimmed-padded : (m : ℕ) (c : ℕ) (s : Bytes) (n : ℕ) → trimmed (padded m (c ∷ s) n) m n ≡ c ∷ s
unfolding trimmed
trimmed-padded m c s n = elim (Bool-cases (m == 0 && n == 0)) [
  | inl none_cut ↦
      let em : m ≡ 0 = ground arith in
      let en : n ≡ 0 = ground arith in rw (none_cut, em, en, append-nil)
  | inr some_cut ↦
      let e : length (padded m (c ∷ s) n) - m - n ≡ suc (length s) =
        omega (arith, length-padded m (c ∷ s) n) in
      let l : leb (length (padded m (c ∷ s) n)) (m + n) ≡ false =
        ground (arith, length-padded m (c ∷ s) n) in
      rw (some_cut, l, e, drop-replicate m ((c ∷ s) ++ replicate n space))
        (take-append_left (c ∷ s) (replicate n space))
]

trim_text : Bytes → Option (Option Bytes)
trim_text text =
    trailing (suc (length text)) text 0 >>= (λ k. some (some (trimmed text (leading text) k)))

trim_text-padded :
    (m n : ℕ) (c : ℕ) (s : Bytes)
    → IsTrimmed (c ∷ s)
    → trim_text (padded m (c ∷ s) n) ≡ some (some (c ∷ s))
unfolding trim_text
trim_text-padded m n c s (h, k) = rw (
  trailing-text (replicate m space) c s k n (suc (length (padded m (c ∷ s) n))) n 0 (omega arith)
      (omega (arith, length-padded m (c ∷ s) n)),
  leading-replicate m c (s ++ replicate n space) h,
  trimmed-padded m c s n,
)

-- A string that is not empty and neither begins nor ends with a space is what `trim_spaces` leaves
-- of it behind any number of spaces on either side.
pub trim_spaces-padded :
    (m n : ℕ) (s : Bytes) → IsTrimmed s → trim_spaces (some (padded m s n)) ≡ some (some s)
unfolding trim_spaces trim_text
trim_spaces-padded m n [] h = absurd h
trim_spaces-padded zero n (c ∷ s) h = trim_text-padded zero n c s h
trim_spaces-padded (suc m) n (c ∷ s) h = trim_text-padded (suc m) n c s h

trailing-blank : (fuel n k : ℕ) → trailing fuel (replicate n space) k ≡ none
unfolding trailing
trailing-blank zero n k = refl
trailing-blank (suc fuel) n k = elim (Bool-cases (ltb k n)) [
  | inl lt ↦
      let lt' : k < n = lt_of_ltb k n lt in
      rw (
        length-replicate n space,
        lt,
        get_elem?-replicate n space (n - 1 - k) (omega arith),
        trailing-blank fuel n (k + 1),
      )
  | inr ge ↦ rw (length-replicate n space, ge)
]

-- On a string of one or more spaces the loop from the end reads in front of the string.
pub trim_spaces-blank : (n : ℕ) → trim_spaces (some (replicate (suc n) space)) ≡ none
unfolding trim_spaces trim_text
trim_spaces-blank n = rw (trailing-blank (suc (suc (length (replicate n space)))) (suc n) 0)
