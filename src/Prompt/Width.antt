-- ===== src/Prompt/Width.antt =====
-- src/prompt.c: the length of the prompt and the size of its buffer.
use jsh_tyy.Base.{
  ℕ, zero, suc, ◌+◌, ◌-◌, ◌*◌, ◌/◌, ◌%◌, ◌^◌, ◌<◌, ◌≤◌, ◌≡◌, refl, ltb, leb, ◌==ℤ◌, true, Bytes,
  codes, [], ◌∷◌, ◌++◌, Option, some, if◌then◌else◌, ℤ, pos, length, length-append, length-drop,
  replicate, drop, arith, Bool-cases, lt_of_ltb, inl, inr,
}
use jsh_tyy.FdSet.{colored}
use jsh_tyy.Text.Number.{show_nat, show_int, digits}
use jsh_tyy.Text.Tokens.{Lacks}
use jsh_tyy.Text.Trunc.{trunc_start_lem}
use jsh_tyy.Prompt.{
  escape, total_jobs, max_size, truncated_cwd, get_prompt_string, prompt_buffer_size, joined_three,
  joined_four, truncated_prompt, path_max,
}

-- 10 ^ k
abbrev tens : ℕ → ℕ
tens zero = 1
tens (suc k) = 10 * tens k

-- A number below 10 ^ k, and k not 0, has at most k digits.
length-digits : (fuel n k : ℕ) → n < tens (suc k) → length (digits fuel n) ≤ suc k
unfolding digits
length-digits zero n k h = omega arith
length-digits (suc fuel) n zero h =
    let small : ltb n 10 ≡ true = ground arith in rw small (omega arith)
length-digits (suc fuel) n (suc k) h = elim (Bool-cases (ltb n 10)) [
  | inl small ↦ rw small (omega arith)
  | inr big ↦ rw big (
      omega (
        arith,
        length-append (digits fuel (n / 10)) ((48 + n % 10) ∷ []),
        length-digits fuel (n / 10) k (omega arith),
      ))
]

-- "[", "]", and a sign or none around 19 digits at most.
length-total_jobs : (n : ℕ) → n < 2 ^ 64 → length (total_jobs n) ≤ 22
unfolding total_jobs show_int show_nat
length-total_jobs n h = elim (Bool-cases (ltb n (2 ^ 63))) [
  | inl small ↦ rw small (
      omega (
        arith,
        lt_of_ltb n (2 ^ 63) small,
        length-append (digits (suc n) n) (codes "]"),
        length-digits (suc n) n 18 (omega (arith, lt_of_ltb n (2 ^ 63) small)),
      ))
  | inr big ↦
      let m = 2 ^ 64 - 1 - n in
      let far : 2 ^ 63 ≤ n = ground arith in
      rw big (
        omega (
          arith,
          length-append (digits (suc (suc m)) (suc m)) (codes "]"),
          length-digits (suc (suc m)) (suc m) 18 (omega arith),
        ))
]

size_of_path : (j : ℕ) → j ≤ 22 → max_size j ≡ 25 - j
unfolding max_size
size_of_path j h = omega arith

-- The text fits, with its NUL.
Fits : Option (Option Bytes) → Type 0
Fits o = (text : Bytes) × ((o ≡ some (some text)) × (suc (length text) ≤ prompt_buffer_size))

-- A text in a colour.
abbrev in_colour : ℕ → Bytes → Bytes
in_colour digit s = 1 ∷ (escape digit ++ (2 ∷ (s ++ (27 ∷ codes "[0m"))))

length-in_colour : (digit : ℕ) (s : Bytes) → length (in_colour digit s) ≡ 13 + length s
length-in_colour digit s = omega (arith, length-append s (27 ∷ codes "[0m"))

three-Fits :
    (total pwd : Bytes) (digit : ℕ)
    → length total + length pwd ≤ 25
    → Fits (
        some (
          joined_three
            (some (in_colour 51 total))
            (some (in_colour 52 pwd))
            (some (in_colour digit (codes "$ ")))))
unfolding joined_three Fits prompt_buffer_size
three-Fits total pwd digit h = (
  in_colour 51 total ++ (in_colour 52 pwd ++ in_colour digit (codes "$ ")),
  (
    refl,
    omega (
      arith,
      length-append (in_colour 51 total) (in_colour 52 pwd ++ in_colour digit (codes "$ ")),
      length-append (in_colour 52 pwd) (in_colour digit (codes "$ ")),
      length-in_colour 51 total,
      length-in_colour 52 pwd,
      length-in_colour digit (codes "$ "),
    ),
  ),
)

four-Fits :
    (total pwd : Bytes) (digit : ℕ)
    → length total + length pwd ≤ 25
    → Fits (
        truncated_prompt
          (some (in_colour 51 total))
          (some (in_colour digit (codes "$ ")))
          (some (some pwd)))
unfolding truncated_prompt joined_four Fits prompt_buffer_size colored
four-Fits total pwd digit h = (
  in_colour 51 total
      ++ (in_colour 52 (codes "...") ++ (in_colour 52 pwd ++ in_colour digit (codes "$ "))),
  (
    refl,
    omega (
      arith,
      length-append (in_colour 51 total)
          (in_colour 52 (codes "...") ++ (in_colour 52 pwd ++ in_colour digit (codes "$ "))),
      length-append (in_colour 52 (codes "...")) (in_colour 52 pwd ++ in_colour digit (codes "$ ")),
      length-append (in_colour 52 pwd) (in_colour digit (codes "$ ")),
      length-in_colour 51 total,
      length-in_colour 52 pwd,
      length-in_colour 52 (codes "..."),
      length-in_colour digit (codes "$ "),
    ),
  ),
)

truncated-Fits :
    (total pwd : Bytes) (digit size : ℕ)
    → Lacks 0 pwd
    → length total + size ≤ 25
    → size < length pwd
    → Fits (
        truncated_prompt
          (some (in_colour 51 total))
          (some (in_colour digit (codes "$ ")))
          (truncated_cwd pwd size))
unfolding truncated_cwd
truncated-Fits total pwd digit size h le lt =
    let slack : Bytes = replicate (path_max - 1 - length pwd) 0 in
    let kept = drop (length pwd - size) pwd in
    let room : leb size (length pwd + length slack) ≡ true = ground arith in
    rw (trunc_start_lem pwd slack size h, room)
      (four-Fits total kept digit (omega (arith, length-drop (length pwd - size) pwd)))

-- The prompt that is made of the two parts, by the digit of the last colour.
digit-Fits :
    (total pwd : Bytes) (digit : ℕ)
    → Lacks 0 pwd
    → length total ≤ 22
    → Fits (
        if ltb (25 - length total) (length pwd)
        then truncated_prompt
            (some (in_colour 51 total))
            (some (in_colour digit (codes "$ ")))
            (truncated_cwd pwd (25 - length total))
        else some (
            joined_three
              (some (in_colour 51 total))
              (some (in_colour 52 pwd))
              (some (in_colour digit (codes "$ ")))))
digit-Fits total pwd digit h le = elim (Bool-cases (ltb (25 - length total) (length pwd))) [
  | inl long ↦ rw long (
      truncated-Fits total pwd digit (25 - length total) h (omega arith)
        (lt_of_ltb (25 - length total) (length pwd) long))
  | inr short ↦ rw short (three-Fits total pwd digit (ground arith))
]

-- For every number of jobs of type `size_t`, every exit code and every working directory that `getcwd`
-- returns the prompt is made, no memory is read out of bounds, and with its NUL it fits into the
-- buffer of 90 bytes.
pub get_prompt_string-fits :
    (job_table_size : ℕ) (last_exit_code : ℤ) (pwd : Bytes)
    → job_table_size < 2 ^ 64
    → Lacks 0 pwd
    → (text : Bytes) × ((get_prompt_string job_table_size last_exit_code (some pwd)
          ≡ some (some text))
        × (suc (length text) ≤ prompt_buffer_size))
unfolding get_prompt_string colored Fits
get_prompt_string-fits n code pwd hn hp =
    let le = length-total_jobs n hn in
    elim (Bool-cases (code ==ℤ pos 0)) [
      | inl good ↦
          rw (good, size_of_path (length (total_jobs n)) le)
            (digit-Fits (total_jobs n) pwd 50 hp le)
      | inr bad ↦
          rw (bad, size_of_path (length (total_jobs n)) le) (digit-Fits (total_jobs n) pwd 49 hp le)
    ]
