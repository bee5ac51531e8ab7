-- ===== src/Text/Spec.antt =====
-- src/string_utils.c: what `split_string` and `split_string_keep_trace` return.
use native.Mathlib.Nat.{zero-add}
use jsh_tyy.Base.{
  ℕ, zero, suc, ◌≤◌, ◌∙◌, ◌≡◌, replicate, refl, ap, Bytes, List, [], ◌∷◌, map, Option, none, some,
  arith, length, ◌==◌, if◌then◌else◌, sub_ℕ,
}
use jsh_tyy.Text.Iterator.{
  Split, split_string, split_string_keep_trace, split_from, filled, tokens_of, new_string_iterator,
  fill_loop, get_number_of_words_left,
}
use jsh_tyy.Text.Words.{words, delimited, delimited_from-le}
use jsh_tyy.Text.Split.{count_words}
use jsh_tyy.Text.Fill.{fill_words, at}

-- `NULL` stands for the array of no word.
abbrev pub array_of : List Bytes → Option (List (Option Bytes))
array_of [] = none
array_of (w ∷ ws) = some (map some (w ∷ ws))

abbrev pub split_of : List Bytes → ℕ → Split
split_of ws n = record { tokens = array_of ws; size = length ws; last = sub_ℕ n 1 }

count_lem : (b : ℕ) (p s : Bytes) → get_number_of_words_left (at b p s 0) ≡ length (words s (b ∷ p))
unfolding get_number_of_words_left words
count_lem b p s = count_words b p (suc (length s)) s [] 0 (omega arith) ∙ zero-add _

fill_lem :
    (b : ℕ) (p s : Bytes)
    → fill_loop (suc (length s)) (at b p s 0) (replicate (length (words s (b ∷ p))) none) 0
      ≡ some (map some (words s (b ∷ p)), delimited s (b ∷ p))
unfolding words delimited
fill_lem b p s =
    fill_words b p (suc (length s)) s (omega arith) [] 0
    ∙ ap (λ n. some (map some (words s (b ∷ p)), n)) (zero-add _)

delimited-le : (b : ℕ) (p s : Bytes) → delimited s (b ∷ p) ≤ length (words s (b ∷ p))
unfolding words delimited
delimited-le b p s = delimited_from-le (b ∷ p) 0 [] s

finish :
    (ws : List Bytes) (n : ℕ)
    → n ≤ length ws
    → (if length ws == 0
        then some (record { tokens = none; size = 0; last = sub_ℕ 0 1 })
        else filled (some (map some ws, n)) (length ws))
      ≡ some (split_of ws n)
unfolding filled
finish [] zero h = refl
finish [] (suc n) h = absurd (omega arith)
finish (w ∷ ws) n h = ground arith

-- For every separator but the empty one, `split_string_keep_trace` reads no invalid memory and
-- writes only inside its array: it returns the array of all the words in order, `NULL` where there
-- is none, its length, and one less than the number of words that a separator follows.
pub split_string_keep_trace_lem :
    (s : Bytes) (b : ℕ) (p : Bytes)
    → split_string_keep_trace s (b ∷ p) ≡ some (split_of (words s (b ∷ p)) (delimited s (b ∷ p)))
unfolding split_string_keep_trace new_string_iterator split_from
split_string_keep_trace_lem s b p =
    rw (count_lem b p s, fill_lem b p s)
      (finish (words s (b ∷ p)) (delimited s (b ∷ p)) (delimited-le b p s))

-- `split_string` makes the same array, and does not say what follows the words.
pub split_string_lem :
    (s : Bytes) (b : ℕ) (p : Bytes)
    → split_string s (b ∷ p) ≡ some (array_of (words s (b ∷ p)), length (words s (b ∷ p)))
unfolding split_string split_string_keep_trace tokens_of
split_string_lem s b p = rw (split_string_keep_trace_lem s b p)
