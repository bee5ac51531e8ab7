-- ===== src/Proc/Pids.antt =====
-- src/proc.c: the process ids that `get_children` returns.
use jsh_tyy.Base.{
  ℕ, zero, suc, ◌<◌, ◌/◌, ◌≡◌, ◌≢◌, ◌∙◌, refl, true, Bytes, codes, List, [], ◌∷◌, ◌++◌, append-nil,
  map, Option, some, ltb, arith, All, Bool-cases, inl, inr, length, ℤ, pos, negsuc, length-append,
  take-append_left, replicate,
}
use jsh_tyy.Text.{join_strings}
use jsh_tyy.Text.Tokens.{Lacks, IsToken, joined, join_loop-joined}
use jsh_tyy.Text.Joined.{split_string-join_strings}
use jsh_tyy.Text.Iterator.{split_string}
use jsh_tyy.Text.Number.{digits, show_nat, show_int, starts_digit}
use jsh_tyy.Text.Decimal.{IsInt, InRange-IsInt, parse_intmax_t-show_int, starts_digit-show}
use jsh_tyy.Proc.{
  Reads, children_pid, is_int, convert_loop, after_reading, read_loop, gathered, read_children,
  children_path, get_children,
}
use jsh_tyy.Proc.Gather.{read_loop-parts}

Lacks-append : (b : ℕ) (s t : Bytes) → Lacks b s → Lacks b t → Lacks b (s ++ t)
Lacks-append b [] t h k = k
Lacks-append b (x ∷ s) t (h, hs) k = (h, Lacks-append b s t hs k)

-- A byte below the digits.
digits-Lacks : (fuel n b : ℕ) → b < 45 → Lacks b (digits fuel n)
unfolding digits
digits-Lacks zero n b h = tt
digits-Lacks (suc fuel) n b h = elim (Bool-cases (ltb n 10)) [
  | inl small ↦ rw small ((omega arith), tt)
  | inr big ↦
      rw big (
        Lacks-append b (digits fuel (n / 10)) _ (digits-Lacks fuel (n / 10) b h)
          ((omega arith), tt))
]

show_int-Lacks : (z : ℤ) (b : ℕ) → b < 45 → Lacks b (show_int z)
unfolding show_int show_nat
show_int-Lacks (pos n) b h = digits-Lacks (suc n) n b h
show_int-Lacks (negsuc n) b h = ((omega arith), digits-Lacks (suc (suc n)) (suc n) b h)

starts_digit-ne : (s : Bytes) → starts_digit s ≡ true → s ≢ []
starts_digit-ne [] h = cc
starts_digit-ne (c ∷ s) h = λ e. cc

show_int-IsToken : (z : ℤ) → IsToken 32 (show_int z)
show_int-IsToken z = (not_empty z, show_int-Lacks z 32 (omega arith))
  where
    not_empty : (z : ℤ) → show_int z ≢ []
    not_empty (pos n) = unfold show_int in starts_digit-ne (show_nat n) (starts_digit-show n)
    not_empty (negsuc n) = unfold show_int in λ e. cc

map-IsToken : (pids : List ℤ) → All (IsToken 32) (map show_int pids)
map-IsToken [] = tt
map-IsToken (pid ∷ pids) = (show_int-IsToken pid, map-IsToken pids)

joined-Lacks : (pids : List ℤ) → Lacks 0 (joined (codes " ") (map show_int pids))
unfolding joined
joined-Lacks [] = tt
joined-Lacks (pid ∷ []) = show_int-Lacks pid 0 (omega arith)
joined-Lacks (pid ∷ pid' ∷ pids) =
    Lacks-append 0 (show_int pid) _ (show_int-Lacks pid 0 (omega arith))
      ((omega arith), joined-Lacks (pid' ∷ pids))

-- The content of the file: every number is followed by a space.
abbrev pub listing : List ℤ → Bytes
listing pids = join_strings (map show_int pids) (codes " ") ++ codes " "

listing-Lacks : (pids : List ℤ) → Lacks 0 (listing pids)
unfolding join_strings
listing-Lacks pids =
    rw (join_loop-joined (map show_int pids) (codes " ") [])
      (Lacks-append 0 _ (codes " ") (joined-Lacks pids) ((omega arith), tt))

-- One `read` returns the whole text, and its last byte is dropped.
read_loop-once :
    (bufsiz : ℕ) (s : Bytes) (c : ℕ)
    → length (s ++ c ∷ []) < bufsiz
    → Lacks 0 (s ++ c ∷ [])
    → read_loop (some (s ++ c ∷ []) ∷ []) (replicate bufsiz 0) 0 [] ≡ gathered s
read_loop-once bufsiz [] c h text = read_loop-parts bufsiz c [] [] (((λ e. cc), (h, text)), tt)
read_loop-once bufsiz (x ∷ s) c h text =
    let n : length (s ++ c ∷ []) ≡ suc (length s) = omega (arith, length-append s (c ∷ [])) in
    read_loop-parts bufsiz x (s ++ c ∷ []) [] (((λ e. cc), (h, text)), tt)
    ∙ rw (n, append-nil, take-append_left s (c ∷ []))

is_int-IsInt : (z : ℤ) → IsInt z → is_int z ≡ true
unfolding is_int
is_int-IsInt (pos n) h = ground arith
is_int-IsInt (negsuc n) h = ground arith

convert_loop-show :
    (pids : List ℤ)
    → All IsInt pids
    → convert_loop (map some (map show_int pids)) ≡ children_pid pids
unfolding convert_loop
convert_loop-show [] h = refl
convert_loop-show (pid ∷ pids) (h, hs) = rw (
  parse_intmax_t-show_int pid (InRange-IsInt pid h),
  is_int-IsInt pid h,
  convert_loop-show pids hs,
)

-- A process without a child has an empty file.
pub get_children-empty :
    (bufsiz : ℕ) (open_file : Bytes → Option Reads) (pid : ℤ)
    → 0 < bufsiz
    → open_file (children_path pid) ≡ some []
    → get_children bufsiz open_file pid ≡ children_pid []
unfolding get_children read_children after_reading split_string
    jsh_tyy.Text.Iterator.new_string_iterator jsh_tyy.Text.Iterator.get_number_of_words_left
    jsh_tyy.Text.Iterator.count_loop
get_children-empty zero open_file pid h e = absurd (omega arith)
get_children-empty (suc n) open_file pid h e = rw e

-- Where one `read` returns the whole file, `get_children` returns the ids that it lists, in order.
pub get_children-listing :
    (bufsiz : ℕ) (open_file : Bytes → Option Reads) (pid child : ℤ) (children : List ℤ)
    → All IsInt (child ∷ children)
    → length (listing (child ∷ children)) < bufsiz
    → open_file (children_path pid) ≡ some (some (listing (child ∷ children)) ∷ [])
    → get_children bufsiz open_file pid ≡ children_pid (child ∷ children)
unfolding get_children read_children after_reading
get_children-listing bufsiz open_file pid child children h short e =
    let pids : List ℤ = child ∷ children in
    rw
      (
        e,
        read_loop-once bufsiz (join_strings (map show_int pids) (codes " ")) 32 short
            (listing-Lacks pids),
        split_string-join_strings 32 (map show_int pids) (map-IsToken pids),
      )
      (convert_loop-show pids h)
