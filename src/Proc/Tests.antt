-- ===== src/Proc/Tests.antt =====
-- src/proc.c: short files, with a buffer of 16 bytes.
use jsh_tyy.Base.{
  ◌≡◌, refl, Bytes, codes, [], ◌∷◌, Option, some, pos, replicate, arith, length, ◌<◌,
}
use jsh_tyy.Text.{join_strings}
use jsh_tyy.Text.Number.{show_int, show_nat, digits}
use jsh_tyy.Text.Iterator.{split_string, new_string_iterator, get_number_of_words_left, count_loop}
use jsh_tyy.Proc.{
  Reads, read_children, children_pid, get_children, read_loop, gathered, overrun, has_children,
}
use jsh_tyy.Proc.Gather.{read_loop-parts, read_loop-overrun}
use jsh_tyy.Proc.Pids.{get_children-listing, listing}

-- The file of a process with the children 12 and 345.
abbrev proc_file : Bytes → Option Reads
proc_file path = some (some (listing (pos 12 ∷ pos 345 ∷ [])) ∷ [])

short_listing : length (listing (pos 12 ∷ pos 345 ∷ [])) < 16
unfolding join_strings show_int show_nat digits
short_listing = omega arith

get_children-listing_example :
    get_children 16 proc_file (pos 7) ≡ children_pid (pos 12 ∷ pos 345 ∷ [])
get_children-listing_example =
    get_children-listing 16 proc_file (pos 7) (pos 12) (pos 345 ∷ []) (omega arith) short_listing
      refl

-- The 4 at the end of the first part is lost.
read_loop-parts_example :
    read_loop (some (codes "12 34") ∷ some (codes "5 ") ∷ []) (replicate 16 0) 0 []
    ≡ gathered (codes "12 35 ")
read_loop-parts_example =
    read_loop-parts 16 b'1' (codes "2 34") (codes "5 " ∷ [])
      (((λ e. cc), (omega arith, omega arith)), (((λ e. cc), (omega arith, omega arith)), tt))

full_buffer : read_loop (some (codes "12 ") ∷ []) (replicate 3 0) 0 [] ≡ overrun
full_buffer = read_loop-overrun 3 b'1' (codes "2 ") [] refl (omega arith)

no_child : read_children 16 (some []) ≡ children_pid []
unfolding read_children split_string new_string_iterator get_number_of_words_left count_loop
no_child = refl

childless_process : has_children 16 (λ path. some []) (pos 7) ≡ some (pos 0)
unfolding has_children get_children split_string new_string_iterator get_number_of_words_left
    count_loop
childless_process = refl
