-- ===== src/Text/Trunc.antt =====
-- src/string_utils.c: `trunc_start`, over the bytes of the allocation that it reads.
use native.Mathlib.Numerals.{add-one}
use jsh_tyy.Base.{
  ℕ, zero, suc, ◌+◌, ◌-◌, ◌≤◌, ◌≡◌, refl, Bytes, true, false, [], ◌∷◌, ◌++◌, Option, none, some,
  arith, length, ◌==◌, leb, if◌then◌else◌, Bool-cases, inl, inr, take, drop, set, length-append,
  length-drop, ap, ◌∙◌,
}
use jsh_tyy.Text.Tokens.{Lacks}

-- The string that a buffer holds: its bytes up to the first NUL.
abbrev pub c_string : Bytes → Bytes
c_string [] = []
c_string (zero ∷ s) = []
c_string (suc c ∷ s) = suc c ∷ c_string s

-- `memmove` of `n` bytes; `none` is a read behind the end of the allocation.
abbrev read : ℕ → Bytes → Option Bytes
read n memory = if leb n (length memory) then some (take n memory) else none

-- The copied bytes with `truncated[to_keep] = '\0'`, as a string.
ended : ℕ → Option Bytes → Option (Option Bytes)
ended to_keep none = none
ended to_keep (some t) = some (some (c_string (set t to_keep 0)))

-- The argument is the string with the bytes of its allocation behind the NUL. The outer `none` is
-- undefined behaviour, the inner one `NULL`.
unfoldable pub trunc_start : Option (Bytes × Bytes) → ℕ → Option (Option Bytes)
unfolding ended
trunc_start none to_keep = some none
trunc_start (some (str, slack)) to_keep =
    let memory = str ++ 0 ∷ slack in
    if to_keep == 0
    then some (some [])
    else if leb (length str) to_keep
    then ended to_keep (read (to_keep + 1) memory)
    else ended to_keep (read (to_keep + 1) (drop (length str - to_keep) memory))

c_string-set :
    (str slack : Bytes) (k : ℕ)
    → Lacks 0 str
    → length str ≤ k
    → c_string (set (take (suc k) (str ++ 0 ∷ slack)) k 0) ≡ str
c_string-set [] slack zero h le = refl
c_string-set [] slack (suc k) h le = refl
c_string-set (zero ∷ str) slack k (h, hs) le = absurd (h refl)
c_string-set (suc c ∷ str) slack zero h le = absurd (omega arith)
c_string-set (suc c ∷ str) slack (suc k) (h, hs) le =
    ap (λ l. suc c ∷ l) (c_string-set str slack k hs (omega arith))

Lacks-drop : (n : ℕ) (s : Bytes) → Lacks 0 s → Lacks 0 (drop n s)
Lacks-drop zero s h = h
Lacks-drop (suc n) [] h = tt
Lacks-drop (suc n) (c ∷ s) (h, hs) = Lacks-drop n s hs

drop-append : (n : ℕ) (s t : Bytes) → n ≤ length s → drop n (s ++ t) ≡ drop n s ++ t
drop-append zero s t h = refl
drop-append (suc n) [] t h = absurd (omega arith)
drop-append (suc n) (c ∷ s) t h = drop-append n s t (omega arith)

drop_all : (n : ℕ) (s : Bytes) → length s ≤ n → drop n s ≡ []
drop_all zero [] h = refl
drop_all zero (c ∷ s) h = absurd (omega arith)
drop_all (suc n) [] h = refl
drop_all (suc n) (c ∷ s) h = drop_all n s (omega arith)

-- The copy of a string that is no longer than what is kept.
ended-read :
    (str slack : Bytes) (k : ℕ)
    → Lacks 0 str
    → length str ≤ k
    → ended k (read (k + 1) (str ++ 0 ∷ slack))
      ≡ (if leb k (length str + length slack) then some (some str) else none)
unfolding ended
ended-read str slack k h le =
    rw (length-append str (0 ∷ slack), add-one k)
      (elim (Bool-cases (leb k (length str + length slack))) [
        | inl fits ↦
            let e : leb (suc k) (length str + suc (length slack)) ≡ true = ground arith in
            rw (fits, e) (ap (λ l. some (some l)) (c_string-set str slack k h le))
        | inr long ↦
            let e : leb (suc k) (length str + suc (length slack)) ≡ false = ground arith in
            rw (long, e)
      ])

nz : (n : ℕ) → (suc n == 0) ≡ false
nz n = ground arith

-- The last `to_keep` bytes of a string, or all of it where it is shorter; more than the allocation
-- holds behind the string is a read out of bounds.
pub trunc_start_lem :
    (str slack : Bytes) (to_keep : ℕ)
    → Lacks 0 str
    → trunc_start (some (str, slack)) to_keep ≡ (
        if leb to_keep (length str + length slack)
        then some (some (drop (length str - to_keep) str))
        else none)
unfolding trunc_start
trunc_start_lem str slack zero h = rw (drop_all (length str - 0) str (omega arith)) (ground arith)
trunc_start_lem str slack (suc n) h = elim (Bool-cases (leb (length str) (suc n))) [
  | inl short ↦
      let e : length str - suc n ≡ 0 = ground arith in
      rw (nz n, short, e) (ended-read str slack (suc n) h (ground arith))
  | inr long ↦
      let cut = length str - suc n in
      let l : length (drop cut str) ≡ suc n = ground (arith, length-drop cut str) in
      let t : leb (suc n) (length str + length slack) ≡ true = ground arith in
      let t' : leb (suc n) (length (drop cut str) + length slack) ≡ true = rw l (ground arith) in
      rw (nz n, long, t, drop-append cut str (0 ∷ slack) (omega arith))
        (ended-read (drop cut str) slack (suc n) (Lacks-drop cut str h) (omega (arith, l)) ∙ rw t')
]
