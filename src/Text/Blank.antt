-- ===== src/Text/Blank.antt =====
-- src/string_utils.c: `trim_spaces` on the strings that have a word.
use jsh_tyy.Base.{
  ℕ, zero, suc, ◌+◌, ◌≡◌, ◌≢◌, refl, ap, ◌∙◌, Bytes, true, [], ◌∷◌, ◌++◌, append_assoc, some, arith,
  ◌==◌, Bool-cases, ◌⊎◌, inl, inr, replicate, codes, length, length-replicate, ◌<◌, ◌≤◌,
}
use jsh_tyy.Text.{starts_with, is_only_composed_of, only_loop}
use jsh_tyy.Text.Words.{
  words, words_from, words_from_cut, words_from_grow, flag, flag-grow, length-flush,
}
use jsh_tyy.Text.Tokens.{ends_with}
use jsh_tyy.Text.Trim.{space, padded, IsTrimmed, trim_spaces, trim_spaces-padded}

words-blank : (n : ℕ) → words (replicate n space) (codes " ") ≡ []
unfolding words starts_with
words-blank zero = unfold words_from in refl
words-blank (suc n) = words_from_cut space [] [] space (replicate n space) refl ∙ words-blank n

-- A string between its spaces.
data Core (s : Bytes) : Type 0 where
  core_of : (m c : ℕ) (t : Bytes) (n : ℕ) → IsTrimmed (c ∷ t) → s ≡ padded m (c ∷ t) n → Core s

ends-behind :
    (x m c : ℕ) (t : Bytes)
    → ends_with space (x ∷ (replicate m space ++ c ∷ t)) ≡ ends_with space (c ∷ t)
ends-behind x zero c t = refl
ends-behind x (suc m) c t = ends-behind space m c t

extend : (x : ℕ) (s : Bytes) → Core s → Core (x ∷ s)
extend x s (core_of m c t n (hc, he) e) = elim (Bool-cases (x == space)) [
  | inl same ↦ let ex : x ≡ space = ground arith in core_of (suc m) c t n (hc, he) (rw (ex, e))
  | inr differs ↦
      core_of 0 x (replicate m space ++ c ∷ t) n ((ground arith), ends-behind x m c t ∙ he)
        (rw (e, append_assoc))
]

blank_or_Core : (s : Bytes) → ((n : ℕ) × (s ≡ replicate n space)) ⊎ Core s
blank_or_Core [] = inl (0, refl)
blank_or_Core (x ∷ s) = elim (blank_or_Core s) [
  | inr c ↦ inr (extend x s c)
  | inl (n, e) ↦ elim (Bool-cases (x == space)) [
    | inl same ↦ let ex : x ≡ space = ground arith in inl (suc n, rw (ex, e))
    | inr differs ↦ inr (core_of 0 x [] n ((ground arith), differs) (rw e))
  ]
]

-- A string that has a word is trimmed, and no memory in front of it is read.
pub trim_spaces-words :
    (s : Bytes) → words s (codes " ") ≢ [] → (t : Bytes) × (trim_spaces (some s) ≡ some (some t))
trim_spaces-words s h = elim (blank_or_Core s) [
  | inl (n, e) ↦ absurd (h (ap (λ t. words t (codes " ")) e ∙ words-blank n))
  | inr (core_of m c t n ht e) ↦
      (c ∷ t, ap (λ r. trim_spaces (some r)) e ∙ trim_spaces-padded m n (c ∷ t) ht)
]

only_loop-blank :
    (fuel n : ℕ) → n < fuel → only_loop fuel (replicate n space) (codes " ") ≡ some true
unfolding only_loop starts_with
only_loop-blank zero n lt = absurd (omega arith)
only_loop-blank (suc fuel) zero lt = refl
only_loop-blank (suc fuel) (suc n) lt = rw (only_loop-blank fuel n (omega arith)) (ground arith)

-- A string is of spaces alone, or it is trimmed without a read in front of it.
pub blank_or_trimmed :
    (s : Bytes)
    → (is_only_composed_of s (codes " ") ≡ some true)
      ⊎ ((t : Bytes) × (trim_spaces (some s) ≡ some (some t)))
unfolding is_only_composed_of
blank_or_trimmed s = elim (blank_or_Core s) [
  | inl (n, e) ↦ inl (
      ap (λ t. only_loop (suc (length t)) t (codes " ")) e
      ∙ only_loop-blank (suc (length (replicate n space))) n
          (omega (arith, length-replicate n space)))
  | inr (core_of m c t n ht e) ↦
      inr (c ∷ t, ap (λ r. trim_spaces (some r)) e ∙ trim_spaces-padded m n (c ∷ t) ht)
]

words_from-length :
    (s cur : Bytes) (b : ℕ) → length (words_from (b ∷ []) 0 cur s) ≤ flag cur + length s
words_from-length [] cur b = unfold words_from in omega (arith, length-flush cur [])
words_from-length (c ∷ s) cur b = elim (Bool-cases (starts_with (c ∷ s) (b ∷ []))) [
  | inl cut ↦
      rw (words_from_cut b [] cur c s cut)
        (omega (arith, length-flush cur (words_from (b ∷ []) 0 [] s), words_from-length s [] b))
  | inr grow ↦
      rw (words_from_grow (b ∷ []) cur c s grow)
        (omega (arith, words_from-length s (cur ++ c ∷ []) b, flag-grow cur c))
]

-- A string has no more words than bytes.
pub length-words : (s : Bytes) (b : ℕ) → length (words s (b ∷ [])) ≤ length s
unfolding words
length-words s b = omega (arith, words_from-length s [] b)
