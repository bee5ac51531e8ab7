-- ===== src/Text/Split.antt =====
-- src/string_utils.c: the counting pass of `split_string` and its filling pass.
use native.Mathlib.Nat.{zero-add}
use jsh_tyy.Base.{
  ℕ, zero, suc, ◌+◌, ◌≤◌, ◌<◌, ◌≡◌, refl, Bytes, false, List, [], ◌∷◌, ◌++◌, append_assoc,
  append-nil, arith, Bool-cases, inl, inr, if◌then◌else◌, length, drop, take, length-drop, ◌==◌,
}
use jsh_tyy.Text.{starts_with}
use jsh_tyy.Text.Iterator.{count_loop, trim_loop, word_size}
use jsh_tyy.Text.Words.{
  flag, flag-grow, delimited_from, delimited_from_cut, delimited_from_grow, flush, words_from,
  words_from_cut, words_from_grow,
}

at_cut :
    (cur : Bytes) (run : ℕ → ℕ) (ws : List Bytes) (total : ℕ)
    → ((t : ℕ) → run t ≡ t + length ws)
    → (if flag cur == 1 then run (total + 1) else run total) ≡ total + length (flush cur ws)
at_cut [] run ws total h = h total
at_cut (x ∷ cur) run ws total h = omega (arith, h (total + 1))

module _ (b : ℕ) (p : Bytes) where
  pub count_words :
      (fuel : ℕ) (s cur : Bytes) (total : ℕ)
      → length s < fuel
      → count_loop fuel (b ∷ p) s (flag cur) total ≡ total + length (words_from (b ∷ p) 0 cur s)
  unfolding count_loop
  count_words zero s cur total h = absurd (omega arith)
  count_words (suc fuel) [] [] total h = unfold words_from in refl
  count_words (suc fuel) [] (x ∷ cur) total h = unfold words_from in refl
  count_words (suc fuel) (c ∷ s) cur total h = elim (Bool-cases (starts_with (c ∷ s) (b ∷ p))) [
    | inl cut ↦
        rw (cut, words_from_cut b p cur c s cut)
          (at_cut cur (λ t. count_loop fuel (b ∷ p) (drop (length p) s) 0 t) _ total
            (λ t.
              count_words fuel (drop (length p) s) [] t (omega (arith, length-drop (length p) s))))
    | inr grow ↦
        rw (grow, words_from_grow (b ∷ p) cur c s grow, ← flag-grow cur c)
          (count_words fuel s (cur ++ c ∷ []) total (omega arith))
  ]

  pub trim-starts :
      (fuel : ℕ) (s : Bytes)
      → length s < fuel
      → starts_with (trim_loop fuel (b ∷ p) s) (b ∷ p) ≡ false
  unfolding trim_loop
  trim-starts zero s h = absurd (omega arith)
  trim-starts (suc fuel) [] h = unfold starts_with in refl
  trim-starts (suc fuel) (c ∷ s) h = elim (Bool-cases (starts_with (c ∷ s) (b ∷ p))) [
    | inl cut ↦
        rw cut (trim-starts fuel (drop (length p) s) (omega (arith, length-drop (length p) s)))
    | inr grow ↦ rw grow grow
  ]

  pub trim-id :
      (fuel : ℕ) (s : Bytes) → starts_with s (b ∷ p) ≡ false → trim_loop fuel (b ∷ p) s ≡ s
  unfolding trim_loop
  trim-id zero s h = refl
  trim-id (suc fuel) s h = rw h

  pub length-trim : (fuel : ℕ) (s : Bytes) → length (trim_loop fuel (b ∷ p) s) ≤ length s
  unfolding trim_loop
  length-trim zero s = omega arith
  length-trim (suc fuel) [] = ground (arith, length-trim fuel [])
  length-trim (suc fuel) (c ∷ s) =
      ground (arith, length-trim fuel (drop (length p) s), length-drop (length p) s)

  pub words-trim :
      (fuel : ℕ) (s : Bytes)
      → words_from (b ∷ p) 0 [] (trim_loop fuel (b ∷ p) s) ≡ words_from (b ∷ p) 0 [] s
  unfolding trim_loop
  words-trim zero s = refl
  words-trim (suc fuel) [] = unfold starts_with in refl
  words-trim (suc fuel) (c ∷ s) = elim (Bool-cases (starts_with (c ∷ s) (b ∷ p))) [
    | inl cut ↦ rw (cut, words-trim fuel (drop (length p) s), words_from_cut b p [] c s cut)
    | inr grow ↦ rw grow
  ]

  pub words-word :
      (s cur : Bytes)
      → let n = word_size (b ∷ p) s in
        words_from (b ∷ p) 0 cur s ≡ flush (cur ++ take n s) (words_from (b ∷ p) 0 [] (drop n s))
  unfolding word_size
  words-word [] cur = unfold words_from in rw append-nil
  words-word (c ∷ s) cur = elim (Bool-cases (starts_with (c ∷ s) (b ∷ p))) [
    | inl cut ↦ rw (cut, words_from_cut b p [] c s cut, words_from_cut b p cur c s cut, append-nil)
    | inr grow ↦
        rw (grow, words_from_grow (b ∷ p) cur c s grow, words-word s (cur ++ c ∷ []), append_assoc)
  ]

  pub delimited-trim :
      (fuel : ℕ) (s : Bytes)
      → delimited_from (b ∷ p) 0 [] (trim_loop fuel (b ∷ p) s) ≡ delimited_from (b ∷ p) 0 [] s
  unfolding trim_loop
  delimited-trim zero s = refl
  delimited-trim (suc fuel) [] = unfold starts_with in refl
  delimited-trim (suc fuel) (c ∷ s) = elim (Bool-cases (starts_with (c ∷ s) (b ∷ p))) [
    | inl cut ↦
        rw (
          cut,
          delimited-trim fuel (drop (length p) s),
          delimited_from_cut b p [] c s cut,
          zero-add,
        )
    | inr grow ↦ rw grow
  ]

  pub delimited-word :
      (s cur : Bytes)
      → flag cur ≡ 1
      → let rest = drop (word_size (b ∷ p) s) s in
        delimited_from (b ∷ p) 0 cur s
        ≡ (if starts_with rest (b ∷ p) then 1 else 0) + delimited_from (b ∷ p) 0 [] rest
  unfolding word_size
  delimited-word [] cur h = unfold delimited_from starts_with in refl
  delimited-word (c ∷ s) cur h = elim (Bool-cases (starts_with (c ∷ s) (b ∷ p))) [
    | inl cut ↦ rw (
      cut,
      cut,
      delimited_from_cut b p [] c s cut,
      delimited_from_cut b p cur c s cut,
      h,
      zero-add,
    )
    | inr grow ↦
        rw (grow, delimited_from_grow (b ∷ p) cur c s grow)
          (delimited-word s (cur ++ c ∷ []) (flag-grow cur c))
  ]
