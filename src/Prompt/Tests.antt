-- ===== src/Prompt/Tests.antt =====
-- src/prompt.c: the theorem at a concrete prompt.
use jsh_tyy.Base.{suc, ◌≤◌, ◌≡◌, Bytes, codes, some, pos, length, arith}
use jsh_tyy.Prompt.{get_prompt_string, prompt_buffer_size}
use jsh_tyy.Prompt.Width.{get_prompt_string-fits}

get_prompt_string-fits_example :
    (text : Bytes) × ((get_prompt_string 12 (pos 1) (some (codes "/home/user/projects/jsh-tyy"))
        ≡ some (some text))
      × (suc (length text) ≤ prompt_buffer_size))
get_prompt_string-fits_example =
    get_prompt_string-fits 12 (pos 1) (codes "/home/user/projects/jsh-tyy") (omega arith)
      (grind arith)
