-- ===== src/Prompt.antt =====
-- src/prompt.c: `get_prompt_string`, with `truncated_cwd` and the colours of src/utils.c.
pub mod Width
mod Tests
use jsh_tyy.Base.{
  ℕ, ◌+◌, ◌-◌, ◌*◌, ◌%◌, ◌^◌, ltb, ◌==◌, ◌==ℤ◌, Bool, Bytes, codes, List, [], ◌∷◌, ◌++◌, Option,
  none, some, if◌then◌else◌, ◌>>=◌, ℤ, pos, negsuc, length, replicate,
}
use jsh_tyy.FdSet.{colored}
use jsh_tyy.Text.Number.{show_int}
use jsh_tyy.Text.Trunc.{trunc_start}

-- "\033[0;3<digit>m"
abbrev pub escape : ℕ → Bytes
escape digit = 27 ∷ 91 ∷ 48 ∷ 59 ∷ 51 ∷ digit ∷ 109 ∷ []

abbrev pub in_red : Option Bytes → Option Bytes
in_red string = colored (some (escape 49)) string

abbrev pub in_green : Option Bytes → Option Bytes
in_green string = colored (some (escape 50)) string

abbrev pub in_yellow : Option Bytes → Option Bytes
in_yellow string = colored (some (escape 51)) string

abbrev pub in_blue : Option Bytes → Option Bytes
in_blue string = colored (some (escape 52)) string

abbrev pub in_white : Option Bytes → Option Bytes
in_white string = colored (some (27 ∷ 91 ∷ 48 ∷ 109 ∷ [])) string

abbrev pub in_purple : Option Bytes → Option Bytes
in_purple string = colored (some (escape 53)) string

abbrev pub in_cyan : Option Bytes → Option Bytes
in_cyan string = colored (some (escape 54)) string

abbrev pub limit_prompt_size : ℕ
limit_prompt_size = 30

abbrev pub path_max : ℕ
path_max = 4096

-- The working directory lies in a buffer of PATH_MAX bytes.
unfoldable pub truncated_cwd : Bytes → ℕ → Option (Option Bytes)
truncated_cwd cwd size_limit =
    trunc_start (some (cwd, replicate (path_max - 1 - length cwd) 0)) size_limit

-- What `%ld` prints of a number of type `size_t`: as a signed number of 64 bits.
abbrev pub signed_size : ℕ → ℤ
signed_size n = if ltb n (2 ^ 63) then pos n else negsuc (2 ^ 64 - 1 - n)

-- "[%ld]"
unfoldable pub total_jobs : ℕ → Bytes
total_jobs job_table_size = codes "[" ++ (show_int (signed_size job_table_size) ++ codes "]")

-- The subtraction of type `size_t`.
unfoldable pub max_size : ℕ → ℕ
max_size total = (2 ^ 64 + limit_prompt_size - total - 3 - 2) % 2 ^ 64

-- The text that is printed into the buffer, `none` being NULL.
joined_three : Option Bytes → Option Bytes → Option Bytes → Option Bytes
joined_three jobs path dollar = do a ← jobs; b ← path; c ← dollar; some (a ++ (b ++ c))

joined_four : Option Bytes → Option Bytes → Option Bytes → Option Bytes → Option Bytes
joined_four jobs dots path dollar = do
  a ← jobs
  b ← dots
  c ← path
  d ← dollar
  some (a ++ (b ++ (c ++ d)))

truncated_prompt : Option Bytes → Option Bytes → Option (Option Bytes) → Option (Option Bytes)
unfolding joined_four
truncated_prompt jobs dollar none = none
truncated_prompt jobs dollar (some trunc_pwd) =
    some (joined_four jobs (in_blue (some (codes "..."))) (in_blue trunc_pwd) dollar)

-- From the size of the job table, the last exit code and what `getcwd` returns. The outer `none` is
-- undefined behaviour: a read out of bounds or, where `getcwd` fails, the call of `free` on the
-- constant "" that `get_current_wd` returns.
unfoldable pub get_prompt_string : ℕ → ℤ → Option Bytes → Option (Option Bytes)
unfolding joined_three truncated_prompt
get_prompt_string job_table_size last_exit_code none = none
get_prompt_string job_table_size last_exit_code (some pwd) =
    let total = total_jobs job_table_size in
    let jobs = in_yellow (some total) in
    let dollar =
      if last_exit_code ==ℤ pos 0
      then in_green (some (codes "$ "))
      else in_red (some (codes "$ ")) in
    let size = max_size (length total) in
    if ltb size (length pwd)
    then truncated_prompt jobs dollar (truncated_cwd pwd size)
    else some (joined_three jobs (in_blue (some pwd)) dollar)

-- The size of the buffer that the prompt is printed into.
unfoldable pub prompt_buffer_size : ℕ
prompt_buffer_size = 3 * limit_prompt_size
