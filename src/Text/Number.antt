-- ===== src/Text/Number.antt =====
-- Decimal numbers: what `strtoimax` reads (<inttypes.h>), what `%d` and `%ld` print, and
-- `parse_intmax_t` of src/string_utils.c.
use jsh_tyy.Base.{
  ℕ, zero, suc, ◌+◌, ◌-◌, ◌*◌, ◌/◌, ◌%◌, ◌^◌, Bool, true, false, ◌&&◌, ◌||◌, Bytes, codes, [], ◌∷◌,
  ◌++◌, ◌==◌, ltb, leb, if◌then◌else◌, ℤ, pos, negsuc, sub_ℕ,
}

abbrev pub is_digit : ℕ → Bool
is_digit c = leb 48 c && leb c 57

-- `isspace` in the C locale.
abbrev pub is_space : ℕ → Bool
is_space c = c == 32 || (leb 9 c && leb c 13)

unfoldable pub skip_spaces : Bytes → Bytes
skip_spaces [] = []
skip_spaces (c ∷ s) = if is_space c then skip_spaces s else c ∷ s

-- The digits at the front of a string, as a number on top of `n`, and what follows them.
unfoldable pub scan_digits : Bytes → ℕ → ℕ × Bytes
scan_digits [] n = (n, [])
scan_digits (c ∷ s) n =
    let rest = scan_digits s (n * 10 + (c - 48)) in if is_digit c then rest else (n, c ∷ s)

abbrev pub starts_digit : Bytes → Bool
starts_digit [] = false
starts_digit (c ∷ s) = is_digit c

abbrev pub intmax_max : ℕ
intmax_max = 2 ^ 63 - 1

-- What `strtoimax` returns, `*endptr`, and whether `errno` is ERANGE.
pub record Strtoimax : Type 0 where
  pub value : ℤ
  pub endptr : Bytes
  pub erange : Bool

-- Out of range the value is INTMAX_MAX or INTMAX_MIN.
unfoldable pub clamp : Bool → ℕ × Bytes → Strtoimax
clamp false (n, rest) =
    if ltb intmax_max n
    then record { value = pos intmax_max; endptr = rest; erange = true }
    else record { value = pos n; endptr = rest; erange = false }
clamp true (n, rest) =
    if ltb (intmax_max + 1) n
    then record { value = negsuc intmax_max; endptr = rest; erange = true }
    else record { value = sub_ℕ 0 n; endptr = rest; erange = false }

unfoldable pub signed : Bytes → Bool → Bytes → Strtoimax
signed whole negative s =
    if starts_digit s
    then clamp negative (scan_digits s 0)
    else record { value = pos 0; endptr = whole; erange = false }

unfoldable pub after_spaces : Bytes → Bytes → Strtoimax
after_spaces whole [] = record { value = pos 0; endptr = whole; erange = false }
after_spaces whole (c ∷ s) =
    if c == b'-'
    then signed whole true s
    else if c == b'+'
    then signed whole false s
    else signed whole false (c ∷ s)

-- Without a digit nothing is read: the value is 0 and `*endptr` is the string itself.
unfoldable pub strtoimax : Bytes → Strtoimax
unfolding after_spaces signed skip_spaces scan_digits
strtoimax s = after_spaces s (skip_spaces s)

-- The result of `parse_intmax_t`: the value, or the text that it prints to `fd`.
pub data Parsed : Type 0 where
  parsed : ℤ → Parsed
  refused : Bytes → Parsed

out_of_range : ℤ → Bytes
out_of_range (pos n) = codes "strtoimax: overflow.\n"
out_of_range (negsuc n) = codes "strtoimax: underflow.\n"

at_end : Bytes → Bytes → ℤ → Parsed
at_end s [] value = parsed value
at_end s (_ ∷ _) value =
    refused (codes "strtoimax: " ++ (s ++ codes ": invalid characters present.\n"))

unfoldable pub parse_intmax_t : Bytes → Parsed
unfolding out_of_range at_end
parse_intmax_t s =
    let r = strtoimax s in
    if r.erange then refused (out_of_range r.value) else at_end s r.endptr r.value

-- `%ld` of a number that is not negative.
unfoldable pub digits : ℕ → ℕ → Bytes
digits zero n = []
digits (suc fuel) n =
    let front = digits fuel (n / 10) in
    if ltb n 10 then (48 + n) ∷ [] else front ++ (48 + n % 10) ∷ []

unfoldable pub show_nat : ℕ → Bytes
unfolding digits
show_nat n = digits (suc n) n

-- `%d`.
unfoldable pub show_int : ℤ → Bytes
show_int (pos n) = show_nat n
show_int (negsuc n) = b'-' ∷ show_nat (suc n)
