-- ===== src/Jobs/Table.antt =====
-- src/jobs.c: the job table.
pub mod Cells
pub mod Update
pub mod Remove
use jsh_tyy.Base.{
  ℕ, zero, suc, ◌+◌, ◌-◌, Bool, true, false, ◌||◌, List, [], ◌∷◌, ◌++◌, Option, none, some, ◌==◌,
  ltb, if◌then◌else◌, take, replicate, set, get_elem?, length, ℤ, pos, negsuc,
}
use jsh_tyy.Jobs.{Job, is_job_alive}

abbrev pub initial_job_table_capacity : ℕ
initial_job_table_capacity = 64

-- `slots` is the array, `capacity` cells long; a free cell holds `NULL`.
pub record JobTable : Type 0 where
  pub slots : List (Option Job)
  pub size : ℕ
  pub capacity : ℕ

unfoldable pub init_job_table : JobTable
init_job_table = record {
  slots = replicate initial_job_table_capacity none;
  size = 0;
  capacity = initial_job_table_capacity;
}

-- The scan of `add_job` from cell `i`: the job enters the first free cell, and takes its number.
unfoldable pub insert_job : List (Option Job) → ℕ → Job → List (Option Job) × Option ℕ
insert_job [] i j = ([], none)
insert_job (none ∷ slots) i j = (some (record j { id = i + 1 }) ∷ slots, some (i + 1))
insert_job (some k ∷ slots) i j =
    let (slots', id) = insert_job slots (i + 1) j in (some k ∷ slots', id)

-- A full table grows by the initial capacity, and its new cells are cleared.
unfoldable pub grow : JobTable → JobTable
grow t =
    let capacity' = t.capacity + initial_job_table_capacity in
    if t.size == t.capacity
    then record t {
      capacity = capacity';
      slots = take t.size t.slots ++ replicate (capacity' - t.size) none;
    }
    else t

inserted : JobTable → List (Option Job) × Option ℕ → JobTable × ℤ
inserted t (slots, none) = (t, negsuc 0)
inserted t (slots, some id) = (record t { slots = slots; size = t.size + 1 }, pos id)

unfoldable pub add_job : JobTable → Option Job → JobTable × ℤ
unfolding grow insert_job inserted
add_job t none = (t, negsuc 0)
add_job t (some j) = let t' = grow t in inserted t' (insert_job t'.slots 0 j)

-- The job of a cell; an index out of bounds is not read by the callers.
abbrev pub slot : List (Option Job) → ℕ → Option Job
slot [] i = none
slot (x ∷ slots) zero = x
slot (x ∷ slots) (suc i) = slot slots i

removed : JobTable → ℕ → Option Job → JobTable × ℤ
removed t i none = (t, pos 1)
removed t i (some j) = (record t { slots = set t.slots i none; size = t.size - 1 }, pos 0)

unfoldable pub remove_job : JobTable → ℕ → JobTable × ℤ
unfolding removed
remove_job t id =
    if ltb id 1 || (ltb t.capacity id || t.size == 0)
    then (t, pos 1)
    else removed t (id - 1) (slot t.slots (id - 1))

unfoldable pub are_jobs_running : List (Option Job) → Bool
unfolding is_job_alive
are_jobs_running [] = false
are_jobs_running (none ∷ slots) = are_jobs_running slots
are_jobs_running (some j ∷ slots) = if is_job_alive j.subjobs then true else are_jobs_running slots
