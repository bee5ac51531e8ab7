-- ===== src/Proc.antt =====
-- src/proc.c: the children of a process, read from /proc. BUFSIZ is the C library's constant
-- `bufsiz`, and the file is what the calls of `read` on it return.
pub mod Gather
pub mod Pids
mod Tests
use jsh_tyy.Base.{
  ℕ, zero, suc, ◌+◌, ◌-◌, ◌^◌, ◌==◌, ltb, Bool, true, false, Bytes, codes, List, [], ◌∷◌, ◌++◌,
  Option, none, some, if◌then◌else◌, ◌>>=◌, ℤ, pos, negsuc, length, take, drop, replicate,
}
use jsh_tyy.System.{Os}
use jsh_tyy.Text.Iterator.{split_string}
use jsh_tyy.Text.Number.{show_int, Parsed, parsed, refused, parse_intmax_t}

-- What the calls of `read` return, in order: the bytes, or `none` for an error. After the last one
-- the file is at its end.
abbrev pub Reads : Type 0
Reads = List (Option Bytes)

-- The string in a buffer; `none` is a buffer without a NUL, behind which `%s` reads on.
unfoldable pub until_nul : Bytes → Option Bytes
until_nul [] = none
until_nul (zero ∷ buf) = some []
until_nul (suc c ∷ buf) = until_nul buf >>= (λ s. some (suc c ∷ s))

-- `read` overwrites the front of the buffer only.
unfoldable pub overwrite : Bytes → Bytes → Bytes
overwrite chunk buf = chunk ++ drop (length chunk) buf

-- `snprintf(new_string, total_size + nb_read, "%s%s", string, buf)`, the size being that of the
-- string and its NUL. A size of 0 writes nothing; the NUL is then set after the loop.
unfoldable pub append_buffer : ℕ → ℕ → Bytes → Bytes → Option Bytes
unfolding until_nul
append_buffer total_size nb_read string buf =
    until_nul buf >>= (λ s. some (take (total_size + nb_read - 1) (string ++ s)))

-- The string after the loop.
pub data Gathered : Type 0 where
  overrun : Gathered
  read_error : Gathered
  gathered : Bytes → Gathered

unfoldable pub last_read : Option Bytes → Gathered
last_read none = overrun
last_read (some string) = gathered string

-- The loop of `get_children`; it ends with the `read` that returns 0 bytes.
unfoldable pub read_loop : Reads → Bytes → ℕ → Bytes → Gathered
unfolding last_read append_buffer overwrite
read_loop [] buf total_size string = last_read (append_buffer total_size 0 string buf)
read_loop (none ∷ reads) buf total_size string = read_error
read_loop (some [] ∷ reads) buf total_size string =
    last_read (append_buffer total_size 0 string buf)
read_loop (some (c ∷ cs) ∷ reads) buf total_size string =
    let buf' = overwrite (c ∷ cs) buf in
    let n = length (c ∷ cs) in
    elim (append_buffer total_size n string buf') [
      | none ↦ overrun
      | some string' ↦ read_loop reads buf' (total_size + n) string'
    ]

-- Why `get_children` returns `NULL`; the text is the one of `parse_intmax_t`.
pub data Refusal : Type 0 where
  not_opened : Refusal
  not_read : Refusal
  not_number : Bytes → Refusal
  not_int : Refusal

-- What `get_children` returns: nothing where it does something undefined, `NULL` with a size of 0,
-- or the array, the size being its length.
pub data Children : Type 0 where
  undefined : Children
  null : Refusal → Children
  children_pid : List ℤ → Children

-- `INT_MIN <= cast && cast <= INT_MAX`
unfoldable pub is_int : ℤ → Bool
is_int (pos n) = ltb n (2 ^ 31)
is_int (negsuc n) = ltb n (2 ^ 31)

unfoldable pub with_pid : ℤ → Children → Children
with_pid pid undefined = undefined
with_pid pid (null why) = null why
with_pid pid (children_pid pids) = children_pid (pid ∷ pids)

-- One number of the loop; `rest` are the numbers behind it.
unfoldable pub converted : Parsed → Children → Children
unfolding is_int with_pid
converted (refused text) rest = null (not_number text)
converted (parsed cast) rest = if is_int cast then with_pid cast rest else null not_int

-- The loop over the words; a cell that is `NULL` would be read.
unfoldable pub convert_loop : List (Option Bytes) → Children
unfolding converted
convert_loop [] = children_pid []
convert_loop (none ∷ words) = undefined
convert_loop (some word ∷ words) = converted (parse_intmax_t word) (convert_loop words)

unfoldable pub split_children : Option (Option (List (Option Bytes)) × ℕ) → Children
unfolding convert_loop
split_children none = undefined
split_children (some (none, size)) = children_pid []
split_children (some (some words, size)) = convert_loop words

unfoldable pub after_reading : Gathered → Children
unfolding split_children
after_reading overrun = undefined
after_reading read_error = null not_read
after_reading (gathered string) = split_children (split_string string (codes " "))

unfoldable pub read_children : ℕ → Option Reads → Children
unfolding after_reading read_loop
read_children bufsiz none = null not_opened
read_children bufsiz (some reads) = after_reading (read_loop reads (replicate bufsiz 0) 0 [])

-- The path fits into PATH_MAX bytes.
unfoldable pub children_path : ℤ → Bytes
children_path pid =
    codes "/proc/" ++ (show_int pid ++ (codes "/task/" ++ (show_int pid ++ codes "/children")))

-- `none` is a file that cannot be opened.
unfoldable pub get_children : ℕ → (Bytes → Option Reads) → ℤ → Children
unfolding read_children children_path
get_children bufsiz open_file pid = read_children bufsiz (open_file (children_path pid))

-- -1, 1 or 0; `none` is undefined behaviour.
unfoldable pub has_children : ℕ → (Bytes → Option Reads) → ℤ → Option ℤ
has_children bufsiz open_file pid = elim (get_children bufsiz open_file pid) [
  | undefined ↦ none
  | null _ ↦ some (negsuc 0)
  | children_pid [] ↦ some (pos 0)
  | children_pid (_ ∷ _) ↦ some (pos 1)
]

-- /proc as the shell reads it. `stack` is the number of calls of `print_children` within each other
-- for which there is room on the stack.
pub record Procs (W : Type 0) : Type 0 where
  pub bufsiz : ℕ
  pub stack : ℕ
  pub open_file : Bytes → W → Option Reads

-- What `get_children` prints to the standard error where it returns `NULL`.
unfoldable pub complain : {W : Type 0} → Os W → Refusal → W → W
complain os not_opened w = w
complain os not_read w = os.dprintf (pos 2) (codes "read: " ++ (os.strerror w ++ codes "\n")) w
complain os (not_number text) w = os.dprintf (pos 2) text w
complain os not_int w = w

unfoldable pub children_of : {W : Type 0} → Procs W → ℤ → W → Children
unfolding get_children
children_of procs pid w = get_children procs.bufsiz (λ path. procs.open_file path w) pid
