-- ===== src/Text/Decimal.antt =====
-- src/string_utils.c: `parse_intmax_t` on what `%d` prints.
use jsh_tyy.Base.{
  ℕ, zero, suc, ◌+◌, ◌-◌, ◌*◌, ◌/◌, ◌%◌, ◌^◌, ◌≤◌, ◌<◌, ◌≡◌, refl, ◌∙◌, ap, true, false, Bytes, [],
  ◌∷◌, ◌++◌, ltb, ℤ, pos, negsuc, sub_ℕ, arith, Bool-cases, inl, inr, append_assoc, append-nil,
  lt_of_ltb, ltb_of_ge,
}
use jsh_tyy.Text.Number.{
  is_digit, skip_spaces, scan_digits, starts_digit, intmax_max, clamp, signed, after_spaces,
  strtoimax, parsed, parse_intmax_t, digits, show_nat, show_int,
}

scan_digits_step :
    (d : ℕ) (s : Bytes) (n : ℕ) → d < 10 → scan_digits ((48 + d) ∷ s) n ≡ scan_digits s (n * 10 + d)
unfolding scan_digits
scan_digits_step d s n h =
    let e : 48 + d - 48 ≡ d = omega arith in
    let t : is_digit (48 + d) ≡ true = ground arith in rw (t, e)

scan_digits-digits :
    (fuel n : ℕ) (rest : Bytes)
    → n < fuel
    → scan_digits (digits fuel n ++ rest) 0 ≡ scan_digits rest n
unfolding digits
scan_digits-digits zero n rest h = absurd (omega arith)
scan_digits-digits (suc fuel) n rest h = elim (Bool-cases (ltb n 10)) [
  | inl small ↦
      rw small
        (scan_digits_step n rest 0 (lt_of_ltb n 10 small) ∙ ap (scan_digits rest) (omega arith))
  | inr big ↦
      let ge : 10 ≤ n = ground arith in
      rw (big, append_assoc, scan_digits-digits fuel (n / 10) ((48 + n % 10) ∷ rest) (omega arith))
        (scan_digits_step (n % 10) rest (n / 10) (omega arith)
          ∙ ap (scan_digits rest) (omega arith))
]

starts_digit-digits :
    (fuel n : ℕ) (rest : Bytes) → n < fuel → starts_digit (digits fuel n ++ rest) ≡ true
unfolding digits
starts_digit-digits zero n rest h = absurd (omega arith)
starts_digit-digits (suc fuel) n rest h = elim (Bool-cases (ltb n 10)) [
  | inl small ↦ rw small (ground arith)
  | inr big ↦
      let ge : 10 ≤ n = ground arith in
      rw (big, append_assoc) (starts_digit-digits fuel (n / 10) _ (omega arith))
]

scan_digits_end : (n : ℕ) → scan_digits [] n ≡ (n, [])
unfolding scan_digits
scan_digits_end n = refl

scan_digits-show : (n : ℕ) → scan_digits (show_nat n) 0 ≡ (n, [])
unfolding show_nat
scan_digits-show n =
    rw (← append-nil (digits (suc n) n))
      (scan_digits-digits (suc n) n [] (omega arith) ∙ scan_digits_end n)

pub starts_digit-show : (n : ℕ) → starts_digit (show_nat n) ≡ true
unfolding show_nat
starts_digit-show n =
    rw (← append-nil (digits (suc n) n)) (starts_digit-digits (suc n) n [] (omega arith))

-- A string that begins with a digit holds neither space nor sign in front of its number.
after_spaces_digit :
    (whole s : Bytes)
    → starts_digit s ≡ true
    → after_spaces whole (skip_spaces s) ≡ clamp false (scan_digits s 0)
unfolding after_spaces skip_spaces signed
after_spaces_digit whole [] h = cc
after_spaces_digit whole (c ∷ s) h = ground arith

after_spaces_minus :
    (whole s : Bytes)
    → starts_digit s ≡ true
    → after_spaces whole (skip_spaces (b'-' ∷ s)) ≡ clamp true (scan_digits s 0)
unfolding after_spaces skip_spaces signed
after_spaces_minus whole s h = ground arith

-- An `intmax_t`.
abbrev pub InRange : ℤ → Type 0
InRange (pos n) = n ≤ intmax_max
InRange (negsuc n) = n ≤ intmax_max

-- The values of a 32-bit `int`.
abbrev pub IsInt : ℤ → Type 0
IsInt (pos n) = n < 2 ^ 31
IsInt (negsuc n) = n < 2 ^ 31

pub InRange-IsInt : (z : ℤ) → IsInt z → InRange z
InRange-IsInt (pos n) h = omega arith
InRange-IsInt (negsuc n) h = omega arith

sub_zero_suc : (n : ℕ) → sub_ℕ 0 (suc n) ≡ negsuc n
sub_zero_suc n = ground arith

strtoimax-show_nat :
    (n : ℕ)
    → n ≤ intmax_max
    → strtoimax (show_nat n) ≡ record { value = pos n; endptr = []; erange = false }
unfolding strtoimax clamp
strtoimax-show_nat n h = rw (
  after_spaces_digit (show_nat n) (show_nat n) (starts_digit-show n),
  scan_digits-show n,
  ltb_of_ge intmax_max n h,
)

strtoimax-show_negative :
    (n : ℕ)
    → n ≤ intmax_max
    → strtoimax (b'-' ∷ show_nat (suc n)) ≡ record { value = negsuc n; endptr = []; erange = false }
unfolding strtoimax clamp
strtoimax-show_negative n h = rw (
  after_spaces_minus (b'-' ∷ show_nat (suc n)) (show_nat (suc n)) (starts_digit-show (suc n)),
  scan_digits-show (suc n),
  ltb_of_ge (intmax_max + 1) (suc n) (omega arith),
  sub_zero_suc n,
)

-- Every value of the type `intmax_t` is read back from its decimal form.
pub parse_intmax_t-show_int : (z : ℤ) → InRange z → parse_intmax_t (show_int z) ≡ parsed z
unfolding parse_intmax_t show_int
parse_intmax_t-show_int (pos n) h = rw (strtoimax-show_nat n h)
parse_intmax_t-show_int (negsuc n) h = rw (strtoimax-show_negative n h)
