-- ===== src/Text/Iterator.antt =====
-- src/string_utils.c: the string iterator and the two functions that split a string.
--
-- The moving pointer `iterator->string` is the suffix that is left to read. Each `while` runs on
-- fuel, one more than the length of that suffix.
use jsh_tyy.Base.{
  ℕ, zero, suc, ◌+◌, Bytes, Bool, List, [], ◌∷◌, Option, none, some, ◌==◌, ltb, if◌then◌else◌,
  length, drop, take, set, ◌>>=◌, replicate, ℤ, sub_ℕ,
}
use jsh_tyy.Text.{starts_with}

pub record StringIterator : Type 0 where
  pub string : Bytes
  pub separator : Bytes
  pub index : ℕ

-- `NULL` for an empty separator.
unfoldable pub new_string_iterator : Bytes → Bytes → Option StringIterator
new_string_iterator s [] = none
new_string_iterator s (b ∷ sep) = some (record { string = s; separator = b ∷ sep; index = 0 })

unfoldable pub trim_loop : ℕ → Bytes → Bytes → Bytes
trim_loop zero sep s = s
trim_loop (suc fuel) sep s =
    let rest = trim_loop fuel sep (drop (length sep) s) in if starts_with s sep then rest else s

unfoldable pub trim_start : StringIterator → StringIterator
trim_start it = record it { string = trim_loop (suc (length it.string)) it.separator it.string }

-- `has_next_word` moves the iterator too.
unfoldable pub has_next_word : StringIterator → Bool × StringIterator
has_next_word it = let it' = trim_start it in (ltb 0 (length it'.string), it')

-- The scan of `next_word`: it stops at a separator or at the end.
unfoldable pub word_size : Bytes → Bytes → ℕ
word_size sep [] = 0
word_size sep (c ∷ s) = if starts_with (c ∷ s) sep then 0 else suc (word_size sep s)

unfoldable pub next_word : StringIterator → Bytes × StringIterator
next_word it =
    let (more, it') = has_next_word (trim_start it) in
    let n = word_size it'.separator it'.string in
    if more
    then (take n it'.string, record it' { string = drop n it'.string; index = it'.index + 1 })
    else ([], it')

unfoldable pub count_loop : ℕ → Bytes → Bytes → ℕ → ℕ → ℕ
count_loop zero sep s word total = total + word
count_loop (suc fuel) sep [] word total = total + word
count_loop (suc fuel) sep (c ∷ s) word total =
    let skip = c ∷ s in
    let after = drop (length sep) skip in
    let at_word_end = count_loop fuel sep after 0 (total + 1) in
    let at_separator = count_loop fuel sep after 0 total in
    let in_word = count_loop fuel sep s 1 total in
    if starts_with skip sep then (if word == 1 then at_word_end else at_separator) else in_word

unfoldable pub get_number_of_words_left : StringIterator → ℕ
get_number_of_words_left it = count_loop (suc (length it.string)) it.separator it.string 0 0

-- A write to the array that `split_string` allocates; `none` is a write out of bounds.
unfoldable pub store : List (Option Bytes) → ℕ → Bytes → Option (List (Option Bytes))
store tokens i w = if ltb i (length tokens) then some (set tokens i (some w)) else none

-- The filling loop. `followed` counts the words that a separator follows, which only
-- `split_string_keep_trace` uses. A cell that is not written stays `none`.
unfoldable pub fill_loop :
    ℕ → StringIterator → List (Option Bytes) → ℕ → Option (List (Option Bytes) × ℕ)
fill_loop zero it tokens followed = none
fill_loop (suc fuel) it tokens followed =
    let (more, it') = has_next_word it in
    let (w, it'') = next_word it' in
    let followed' = followed + (if starts_with it''.string it''.separator then 1 else 0) in
    let rest = store tokens it'.index w >>= (λ tokens'. fill_loop fuel it'' tokens' followed') in
    if more then rest else some (tokens, followed)

-- What the two functions return and set. `tokens` is `none` for `NULL`.
pub record Split : Type 0 where
  pub tokens : Option (List (Option Bytes))
  pub size : ℕ
  pub last : ℤ

unfoldable pub filled : Option (List (Option Bytes) × ℕ) → ℕ → Option Split
filled none n = none
filled (some (tokens, followed)) n =
    some (record { tokens = some tokens; size = n; last = sub_ℕ followed 1 })

unfoldable pub split_from : StringIterator → Option Split
unfolding filled
split_from it =
    let n = get_number_of_words_left it in
    let run = fill_loop (suc (length it.string)) it (replicate n none) 0 in
    if n == 0 then some (record { tokens = none; size = 0; last = sub_ℕ 0 1 }) else filled run n

-- `none` is undefined behaviour: the null iterator of an empty separator is read, or a token is
-- written outside of the array. `last` is not set by `split_string`.
unfoldable pub split_string_keep_trace : Bytes → Bytes → Option Split
unfolding split_from
split_string_keep_trace s sep = elim (new_string_iterator s sep) [
  | none ↦ none
  | some it ↦ split_from it
]

unfoldable pub tokens_of : Option Split → Option (Option (List (Option Bytes)) × ℕ)
tokens_of none = none
tokens_of (some r) = some (r.tokens, r.size)

unfoldable pub split_string : Bytes → Bytes → Option (Option (List (Option Bytes)) × ℕ)
unfolding tokens_of split_from
split_string s sep =
    tokens_of (elim (new_string_iterator s sep) [ none ↦ none | some it ↦ split_from it ])
