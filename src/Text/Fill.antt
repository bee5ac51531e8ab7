-- ===== src/Text/Fill.antt =====
-- src/string_utils.c: the filling loop of `split_string` and its array.
use native.Mathlib.Nat.{add_assoc, add-zero}
use jsh_tyy.Base.{
  ℕ, zero, suc, ◌+◌, ◌<◌, ◌≡◌, refl, ap, ◌∙◌, Bytes, false, List, [], ◌∷◌, ◌++◌, append_assoc,
  append-nil, arith, if◌then◌else◌, length, drop, ltb, ltb_of_lt, ◌>>=◌, take, replicate,
  length-drop, length-map, length-append, map, set, Option, none, some,
}
use jsh_tyy.Text.{starts_with}
use jsh_tyy.Text.Iterator.{
  StringIterator, trim_loop, word_size, fill_loop, next_word, has_next_word, trim_start, store,
}
use jsh_tyy.Text.Words.{words_from, words_from_grow, delimited_from_grow, delimited_from}
use jsh_tyy.Text.Split.{
  trim-starts, trim-id, length-trim, words-trim, words-word, delimited-trim, delimited-word,
}

module _ (b : ℕ) (p : Bytes) where
  -- An iterator over the separator `b ∷ p`.
  abbrev pub at : Bytes → ℕ → StringIterator
  at s i = record { string = s; separator = b ∷ p; index = i }

  -- On a string that does not begin with the separator, `next_word` reads one word.
  next_word_lem :
      (c : ℕ) (s : Bytes) (i : ℕ)
      → starts_with (c ∷ s) (b ∷ p) ≡ false
      → let n = word_size (b ∷ p) (c ∷ s) in
        next_word (at (c ∷ s) i) ≡ (take n (c ∷ s), at (drop n (c ∷ s)) (i + 1))
  unfolding next_word has_next_word trim_start
  next_word_lem c s i h =
      rw (
        trim-id b p _ (c ∷ s) h,
        trim-id b p _ (c ∷ s) h,
        ltb_of_lt 0 (suc (length s)) (omega arith),
      )

  -- The `none` of `store` would be a write out of bounds.
  in_bounds :
      (done : List Bytes) (k : ℕ) → length done < length (map some done ++ replicate (suc k) none)
  in_bounds done k = omega (
    arith,
    length-append (map some done) (replicate (suc k) none),
    length-map done (λ (w : Bytes). some w),
  )

  set_next :
      (done : List Bytes) (k : ℕ) (w : Bytes)
      → set (map some done ++ replicate (suc k) none) (length done) (some w)
        ≡ map some (done ++ w ∷ []) ++ replicate k none
  set_next [] k w = refl
  set_next (x ∷ done) k w = ap (λ l. some x ∷ l) (set_next done k w)

  store_next :
      (done : List Bytes) (k : ℕ) (w : Bytes)
      → store (map some done ++ replicate (suc k) none) (length done) w
        ≡ some (map some (done ++ w ∷ []) ++ replicate k none)
  unfolding store
  store_next done k w = rw (ltb_of_lt _ _ (in_bounds done k)) (ap some (set_next done k w))

  snoc : (done : List Bytes) (w : Bytes) → length (done ++ w ∷ []) ≡ length done + 1
  snoc done w = length-append done (w ∷ [])

  module _ (c : ℕ) (t : Bytes) (h : starts_with (c ∷ t) (b ∷ p) ≡ false) where
    word_size_cons : word_size (b ∷ p) (c ∷ t) ≡ suc (word_size (b ∷ p) t)
    unfolding word_size
    word_size_cons = rw h

    words_cons :
        words_from (b ∷ p) 0 [] (c ∷ t)
        ≡ (c ∷ take (word_size (b ∷ p) t) t)
          ∷ words_from (b ∷ p) 0 [] (drop (word_size (b ∷ p) t) t)
    words_cons = words_from_grow (b ∷ p) [] c t h ∙ words-word b p t (c ∷ [])

    delimited_cons :
        let r = drop (word_size (b ∷ p) t) t in
        delimited_from (b ∷ p) 0 [] (c ∷ t)
        ≡ (if starts_with r (b ∷ p) then 1 else 0) + delimited_from (b ∷ p) 0 [] r
    delimited_cons = delimited_from_grow (b ∷ p) [] c t h ∙ delimited-word b p t (c ∷ []) refl

  -- The array with the words written so far and room for those of `s`.
  abbrev pub room : List Bytes → Bytes → List (Option Bytes)
  room done s = map some done ++ replicate (length (words_from (b ∷ p) 0 [] s)) none

  abbrev pub Filled : ℕ → Bytes → Type 0
  Filled fuel s =
      (done : List Bytes) (n : ℕ)
      → fill_loop fuel (at s (length done)) (room done s) n
        ≡ some (map some (done ++ words_from (b ∷ p) 0 [] s), n + delimited_from (b ∷ p) 0 [] s)

  -- One round, at the trimmed string `t`.
  abbrev round : ℕ → Bytes → ℕ → List (Option Bytes) → ℕ → Option (List (Option Bytes) × ℕ)
  round fuel t i tokens n =
      let (w, it) = next_word (at t i) in
      let n' = n + (if starts_with it.string it.separator then 1 else 0) in
      let rest = store tokens i w >>= (λ tokens'. fill_loop fuel it tokens' n') in
      if ltb 0 (length t) then rest else some (tokens, n)

  round_lem :
      (fuel : ℕ) (t : Bytes)
      → starts_with t (b ∷ p) ≡ false
      → ((r : Bytes) → length r < length t → Filled fuel r)
      → (done : List Bytes) (n : ℕ)
      → round fuel t (length done) (room done t) n
        ≡ some (map some (done ++ words_from (b ∷ p) 0 [] t), n + delimited_from (b ∷ p) 0 [] t)
  round_lem fuel [] h ih done n =
      unfold words_from delimited_from in rw (append-nil, append-nil, add-zero)
  round_lem fuel (c ∷ t) h ih done n =
      let r = drop (word_size (b ∷ p) t) t in
      let w : Bytes = c ∷ take (word_size (b ∷ p) t) t in
      let k : ℕ = if starts_with r (b ∷ p) then 1 else 0 in
      rw
        (
          ltb_of_lt 0 (suc (length t)) (omega arith),
          next_word_lem c t (length done) h,
          word_size_cons c t h,
          words_cons c t h,
          delimited_cons c t h,
          store_next done (length (words_from (b ∷ p) 0 [] r)) w,
          ← append_assoc done (w ∷ []) (words_from (b ∷ p) 0 [] r),
          ← add_assoc n k (delimited_from (b ∷ p) 0 [] r),
          ← snoc done w,
        )
        (ih r (omega (arith, length-drop (word_size (b ∷ p) t) t)) (done ++ w ∷ []) (n + k))

  pub fill_words : (fuel : ℕ) (s : Bytes) → length s < fuel → Filled fuel s
  unfolding fill_loop has_next_word trim_start
  fill_words zero s h done n = absurd (omega arith)
  fill_words (suc fuel) s h done n =
      let t = trim_loop (suc (length s)) (b ∷ p) s in
      rw (← words-trim b p (suc (length s)) s, ← delimited-trim b p (suc (length s)) s)
        (round_lem fuel t (trim-starts b p (suc (length s)) s (omega arith))
          (λ r lt. fill_words fuel r (omega (arith, length-trim b p (suc (length s)) s))) done n)
