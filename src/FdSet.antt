-- ===== src/FdSet.antt =====
-- src/utils.c: sets of descriptors kept in an array whose free cells are negative.
pub mod Close
mod Tests
use jsh_tyy.Base.{
  ℕ, zero, suc, Bool, true, false, List, [], ◌∷◌, ◌++◌, if◌then◌else◌, ℤ, negsuc, ◌==ℤ◌,
  is_negative, exceeds, length, replicate, Bytes, codes, Option, none, some,
}

-- The scan stops at the first free cell, which takes the value, or at the value.
unfoldable pub add_set : List ℤ → ℤ → List ℤ × ℤ
add_set [] value = ([], negsuc 0)
add_set (x ∷ set) value =
    let (set', result) = add_set set value in
    if is_negative x
    then (value ∷ set, ℤ.pos 0)
    else if x ==ℤ value
    then (x ∷ set, negsuc 0)
    else (x ∷ set', result)

unfoldable pub remove_set : List ℤ → ℤ → List ℤ × ℤ
remove_set [] value = ([], negsuc 0)
remove_set (x ∷ set) value =
    let (set', result) = remove_set set value in
    if x ==ℤ value then (negsuc 0 ∷ set, ℤ.pos 0) else (x ∷ set', result)

unfoldable pub contains : List ℤ → ℤ → Bool
contains [] value = false
contains (x ∷ set) value = if x ==ℤ value then true else contains set value

unfoldable pub contains2 : List (List ℤ) → ℤ → Bool
unfolding contains
contains2 [] value = false
contains2 (row ∷ array) value = if contains row value then true else contains2 array value

-- The first loop of `close_unused_file_descriptors_from_array`, over the values that are left.
unfoldable pub add_all : List ℤ → List ℤ → List ℤ
unfolding add_set
add_all set [] = set
add_all set (fd ∷ fds) = add_all (add_set set fd).0 fds

-- The second loop: the descriptors that it closes, in order.
unfoldable pub above_two : List ℤ → List ℤ
above_two [] = []
above_two (x ∷ set) = let rest = above_two set in if exceeds x 2 then x ∷ rest else rest

-- The calls of `close` that `close_unused_file_descriptors_from_array` makes.
unfoldable pub close_unused_file_descriptors_from_array : List ℤ → List ℤ
unfolding add_all above_two
close_unused_file_descriptors_from_array fds =
    above_two (add_all (replicate (length fds) (negsuc 0)) fds)

unfoldable pub colored : Option Bytes → Option Bytes → Option Bytes
colored none string = none
colored (some color) none = none
colored (some color) (some string) =
    some ((1 ∷ []) ++ (color ++ ((2 ∷ []) ++ (string ++ (27 ∷ codes "[0m")))))
