-- ===== src/Jobs/Table/Update.antt =====
-- src/jobs.c: `add_job` and the invariant of the job table.
use native.Mathlib.Numerals.{add-one}
use jsh_tyy.Base.{
  ℕ, suc, ◌+◌, ◌-◌, ◌<◌, ◌≡◌, ◌≢◌, refl, ap, ◌∙◌, sym, List, [], ◌∷◌, ◌++◌, Option, none, some,
  ◌==◌, take, replicate, set, length, ℤ, pos, arith, Bool-cases, inl, inr, length-append,
  length-replicate, length-set,
}
use jsh_tyy.Jobs.{Job}
use jsh_tyy.Jobs.Table.{JobTable, init_job_table, insert_job, grow, add_job, inserted, slot}
use jsh_tyy.Jobs.Table.Cells.{
  occupied, IsWellFormed, lowest_free, slot-lowest_free, slot-below_free, occupied-le,
  lowest_free-lt, lowest_free-grow, slot-grow, occupied-grow, Numbered-grow, slot-set_self,
  slot-set_ne, occupied-fill, Numbered-fill,
}

pub init_job_table-IsWellFormed : IsWellFormed init_job_table
unfolding init_job_table
init_job_table-IsWellFormed = record { fits = refl; counted = refl; numbered = omega arith }

take_all : (slots : List (Option Job)) → take (length slots) slots ≡ slots
take_all [] = refl
take_all (x ∷ slots) = ap (λ l. x ∷ l) (take_all slots)

full_slots : (t : JobTable) → IsWellFormed t → t.size ≡ t.capacity → take t.size t.slots ≡ t.slots
full_slots t w e = rw (e, w.fits) (take_all t.slots)

-- A table that has grown, if it was full, has a free cell, and its old cells are as they were.
record Grown (t g : JobTable) : Type 0 where
  well_formed : IsWellFormed g
  has_room : occupied g.slots < length g.slots
  same_free : lowest_free g.slots ≡ lowest_free t.slots
  same_slot : (m : ℕ) → slot g.slots m ≡ slot t.slots m

longer-Grown :
    (t : JobTable)
    → IsWellFormed t
    → (n : ℕ) → 0 < n
    → Grown t (record t { slots = t.slots ++ replicate n none; capacity = t.capacity + n })
longer-Grown t w n h =
    let l : length (t.slots ++ replicate n none) ≡ length t.slots + n =
      length-append t.slots (replicate n none)
      ∙ ap (λ k. length t.slots + k) (length-replicate n none) in
    record {
      well_formed = record {
        fits = omega (arith, l, w.fits);
        counted = w.counted ∙ sym (occupied-grow t.slots n);
        numbered = Numbered-grow t.slots n 0 w.numbered;
      };
      has_room = omega (arith, l, occupied-grow t.slots n, occupied-le t.slots);
      same_free = lowest_free-grow t.slots n;
      same_slot = slot-grow t.slots n;
    }

grow-Grown : (t : JobTable) → IsWellFormed t → Grown t (grow t)
unfolding grow
grow-Grown t w = elim (Bool-cases (t.size == t.capacity)) [
  | inl full ↦
      let e : t.size ≡ t.capacity = ground arith in
      let n : t.capacity + 64 - t.size ≡ 64 = omega arith in
      rw (full, full_slots t w e, n) (longer-Grown t w 64 (omega arith))
  | inr room ↦ rw room (record {
    well_formed = w;
    has_room = ground (arith, occupied-le t.slots, w.fits, w.counted);
    same_free = refl;
    same_slot = λ m. refl;
  })
]

insert_job_lem :
    (slots : List (Option Job)) (i : ℕ) (j : Job)
    → occupied slots < length slots
    → let n = lowest_free slots in
      insert_job slots i j ≡ (set slots n (some (record j { id = i + n + 1 })), some (i + n + 1))
unfolding insert_job
insert_job_lem [] i j h = absurd (omega arith)
insert_job_lem (none ∷ slots) i j h = let e : i + 0 ≡ i = omega arith in rw e
insert_job_lem (some k ∷ slots) i j h =
    let e : i + suc (lowest_free slots) ≡ i + 1 + lowest_free slots = omega arith in
    rw (insert_job_lem slots (i + 1) j (omega arith), e)

-- What `add_job` does, seen from outside: the job enters the lowest free cell and takes its number,
-- which is returned; every other cell is as it was.
pub record Added (t : JobTable) (j : Job) (r : JobTable × ℤ) : Type 0 where
  pub well_formed : IsWellFormed r.0
  pub number : r.1 ≡ pos (suc (lowest_free t.slots))
  pub was_free : slot t.slots (lowest_free t.slots) ≡ none
  pub lowest : (m : ℕ) → m < lowest_free t.slots → slot t.slots m ≢ none
  pub entered :
      slot r.0.slots (lowest_free t.slots) ≡ some (record j { id = suc (lowest_free t.slots) })
  pub kept : (m : ℕ) → m ≢ lowest_free t.slots → slot r.0.slots m ≡ slot t.slots m
  pub one_more : r.0.size ≡ suc t.size

module _ (t : JobTable) (j : Job) (g : JobTable) (w : IsWellFormed t) (gr : Grown t g)
    (e : g.size ≡ t.size) where
  abbrev n : ℕ
  n = lowest_free g.slots

  abbrev placed : Job
  placed = record j { id = suc n }

  inserted-Added :
      Added t j (record g { slots = set g.slots n (some placed); size = suc g.size }, pos (suc n))
  inserted-Added =
      let lt = lowest_free-lt g.slots gr.has_room in
      record {
        well_formed = record {
          fits = gr.well_formed.fits ∙ sym (length-set g.slots n (some placed));
          counted =
              ap suc gr.well_formed.counted
              ∙ sym (occupied-fill g.slots n placed lt (slot-lowest_free g.slots));
          numbered = Numbered-fill g.slots 0 n placed (omega arith) gr.well_formed.numbered;
        };
        number = rw gr.same_free;
        was_free = slot-lowest_free t.slots;
        lowest = slot-below_free t.slots;
        entered = rw (← gr.same_free) (slot-set_self g.slots n (some placed) lt);
        kept = λ m h.
            slot-set_ne g.slots n m (some placed) (λ k. h (k ∙ gr.same_free)) ∙ gr.same_slot m;
        one_more = ap suc e;
      }

grow-size : (t : JobTable) → (grow t).size ≡ t.size
unfolding grow
grow-size t = ground arith

-- On a well-formed table `add_job` never fails: the job enters the lowest free cell, of the table
-- or behind its end, and takes and returns its number; every other cell keeps its job; the size
-- grows by one; and the table stays well formed.
pub add_job-Added : (t : JobTable) (j : Job) → IsWellFormed t → Added t j (add_job t (some j))
unfolding add_job inserted
add_job-Added t j w =
    let gr = grow-Grown t w in
    let z : 0 + lowest_free (grow t).slots + 1 ≡ suc (lowest_free (grow t).slots) = omega arith in
    rw (insert_job_lem (grow t).slots 0 j gr.has_room, z, add-one (grow t).size)
      (inserted-Added t j (grow t) w gr (grow-size t))
