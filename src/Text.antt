-- ===== src/Text.antt =====
-- src/string_utils.c: prefix tests, membership, joining and repetition.
pub mod Iterator
pub mod Words
pub mod Split
pub mod Fill
pub mod Spec
pub mod Tokens
pub mod Trim
pub mod Blank
pub mod Joined
pub mod Trunc
pub mod Number
pub mod Decimal
mod Tests
use jsh_tyy.Base.{
  ℕ, zero, suc, ◌+◌, ◌-◌, ◌*◌, Bytes, Bool, true, false, ◌&&◌, List, [], ◌∷◌, ◌++◌, ◌==◌,
  if◌then◌else◌, length, drop, Option, none, some,
}

-- `strncmp(string, start, strlen(start)) == 0`.
unfoldable pub starts_with : Bytes → Bytes → Bool
starts_with s [] = true
starts_with [] (b ∷ p) = false
starts_with (a ∷ s) (b ∷ p) = a == b && starts_with s p

-- `strcmp(a, b) == 0`.
unfoldable pub str_eq : Bytes → Bytes → Bool
str_eq [] [] = true
str_eq [] (b ∷ t) = false
str_eq (a ∷ s) [] = false
str_eq (a ∷ s) (b ∷ t) = a == b && str_eq s t

unfoldable pub contains_string : List Bytes → Bytes → Bool
contains_string [] word = false
contains_string (x ∷ xs) word = if str_eq x word then true else contains_string xs word

-- The copying loop: the separator follows every token but the last.
unfoldable pub join_loop : List Bytes → Bytes → Bytes → Bytes
join_loop [] sep out = out
join_loop (t ∷ []) sep out = out ++ t
join_loop (t ∷ u ∷ ts) sep out = join_loop (u ∷ ts) sep ((out ++ t) ++ sep)

unfoldable pub join_strings : List Bytes → Bytes → Bytes
unfolding join_loop
join_strings tokens sep = join_loop tokens sep []

total_length : List Bytes → ℕ
total_length [] = 0
total_length (t ∷ ts) = length t + total_length ts

-- The size of the buffer that `join_strings` allocates, the terminating NUL included.
unfoldable pub joined_size : List Bytes → Bytes → ℕ
unfolding total_length
joined_size tokens sep = 1 + (length tokens - 1) * length sep + total_length tokens

unfoldable pub repeat : Bytes → ℕ → Bytes
repeat str zero = []
repeat str (suc n) = str ++ repeat str n

-- `index` walks the string by the length of the pattern; a pattern of length 0 never ends.
only_loop : ℕ → Bytes → Bytes → Option Bool
only_loop zero s pattern = none
only_loop (suc fuel) s pattern =
    let rest = only_loop fuel (drop (length pattern) s) pattern in
    if length s == 0 then some true else if starts_with s pattern then rest else some false

-- `none` means that the loop does not end.
unfoldable pub is_only_composed_of : Bytes → Bytes → Option Bool
unfolding only_loop starts_with
is_only_composed_of s pattern = only_loop (suc (length s)) s pattern
