-- ===== src/Text/Tests.antt =====
-- src/string_utils.c: the theorems at concrete strings, and runs of the functions.
use jsh_tyy.Base.{
  ◌≡◌, refl, ◌∷◌, [], some, none, codes, Bytes, List, arith, All, replicate, negsuc, ℤ,
}
use jsh_tyy.Text.{join_strings, starts_with, str_eq}
use jsh_tyy.Text.Iterator.{split_string, split_string_keep_trace}
use jsh_tyy.Text.Words.{words, delimited}
use jsh_tyy.Text.Spec.{split_string_keep_trace_lem, split_of, array_of}
use jsh_tyy.Text.Tokens.{IsToken}
use jsh_tyy.Text.Joined.{split_string-join_strings}
use jsh_tyy.Text.Trim.{trim_spaces, trim_spaces-blank}
use jsh_tyy.Text.Trunc.{trunc_start, trunc_start_lem}
use jsh_tyy.Text.Number.{parse_intmax_t, show_int, parsed}
use jsh_tyy.Text.Decimal.{parse_intmax_t-show_int}

abbrev line : Bytes
line = codes "sleep 1 & ls &"

split_string_keep_trace_lem_example :
    split_string_keep_trace line (codes "&")
    ≡ some (split_of (words line (codes "&")) (delimited line (codes "&")))
split_string_keep_trace_lem_example = split_string_keep_trace_lem line 38 []

three_words : words (codes "  cat  a b ") (codes " ") ≡ codes "cat" ∷ codes "a" ∷ codes "b" ∷ []
unfolding words starts_with
three_words = refl

abbrev tokens : List Bytes
tokens = codes "wc" ∷ codes "-l" ∷ []

tokens-IsToken : All (IsToken 32) tokens
tokens-IsToken = (((λ e. cc), omega arith), (((λ e. cc), omega arith), tt))

split_string-join_strings_example :
    split_string (join_strings tokens (codes " ")) (codes " ") ≡ some (array_of tokens, 2)
split_string-join_strings_example = split_string-join_strings 32 tokens tokens-IsToken

three_spaces : trim_spaces (some (codes "   ")) ≡ none
three_spaces = trim_spaces-blank 2

truncated : trunc_start (some (codes "/home/me", replicate 3 0)) 12 ≡ none
truncated = trunc_start_lem (codes "/home/me") (replicate 3 0) 12 (omega arith)

parse_intmax_t-show_int_example : parse_intmax_t (show_int (negsuc 41)) ≡ parsed (negsuc 41)
parse_intmax_t-show_int_example = parse_intmax_t-show_int (negsuc 41) (omega arith)

empty_number : parse_intmax_t [] ≡ parsed (ℤ.pos 0)
unfolding parse_intmax_t jsh_tyy.Text.Number.strtoimax
empty_number = refl
