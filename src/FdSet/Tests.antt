-- ===== src/FdSet/Tests.antt =====
-- src/utils.c: the theorem on a concrete array, and a run.
use jsh_tyy.Base.{◌≡◌, refl, ◌&&◌, List, [], ◌∷◌, if◌then◌else◌, ℤ, pos, negsuc, exceeds}
use jsh_tyy.FdSet.{contains, close_unused_file_descriptors_from_array}
use jsh_tyy.FdSet.Close.{count, close_unused_file_descriptors_from_array_once}

abbrev fds : List ℤ
fds = pos 5 ∷ pos 1 ∷ negsuc 0 ∷ pos 5 ∷ []

close_unused_file_descriptors_from_array_once_example :
    count (pos 5) (close_unused_file_descriptors_from_array fds)
    ≡ (if exceeds (pos 5) 2 && contains fds (pos 5) then 1 else 0)
close_unused_file_descriptors_from_array_once_example =
    close_unused_file_descriptors_from_array_once fds (pos 5)

closed_once : close_unused_file_descriptors_from_array fds ≡ pos 5 ∷ []
unfolding close_unused_file_descriptors_from_array
closed_once = refl
