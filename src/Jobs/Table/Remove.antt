-- ===== src/Jobs/Table/Remove.antt =====
-- src/jobs.c: `remove_job` on each of its branches.
use native.Mathlib.Decide.{ℕ_discrete}
use jsh_tyy.Base.{
  ℕ, suc, ◌-◌, ◌≡◌, ◌≢◌, refl, ◌∙◌, sym, false, none, some, ◌==◌, ltb, ◌||◌, set, ℤ, pos, arith,
  Bool-cases, inl, inr, length-set,
}
use jsh_tyy.Jobs.{Job}
use jsh_tyy.Jobs.Table.{JobTable, add_job, slot, removed, remove_job}
use jsh_tyy.Jobs.Table.Cells.{
  IsWellFormed, slot-set_self, slot-set_ne, occupied-clear, Numbered-clear, lowest_free, slot-lt,
  slot-occupied,
}
use jsh_tyy.Jobs.Table.Update.{Added, add_job-Added}

-- What removing the job of cell `i` does, seen from outside.
pub record Removed (t : JobTable) (i : ℕ) (r : JobTable × ℤ) : Type 0 where
  pub well_formed : IsWellFormed r.0
  pub success : r.1 ≡ pos 0
  pub cleared : slot r.0.slots i ≡ none
  pub kept : (m : ℕ) → m ≢ i → slot r.0.slots m ≡ slot t.slots m
  pub one_less : suc r.0.size ≡ t.size
  pub same_capacity : r.0.capacity ≡ t.capacity

freed-Removed :
    (t : JobTable) (i : ℕ) (j : Job)
    → IsWellFormed t
    → slot t.slots i ≡ some j
    → Removed t i (record t { slots = set t.slots i none; size = t.size - 1 }, pos 0)
freed-Removed t i j w e = record {
  well_formed = record {
    fits = w.fits ∙ sym (length-set t.slots i none);
    counted = omega (arith, w.counted, occupied-clear t.slots i j e);
    numbered = Numbered-clear t.slots 0 i w.numbered;
  };
  success = refl;
  cleared = slot-set_self t.slots i none (slot-lt t.slots i j e);
  kept = λ m h. slot-set_ne t.slots i m none h;
  one_less = omega (arith, w.counted, slot-occupied t.slots i j e);
  same_capacity = refl;
}

-- On a well-formed table the number of a job that is there is accepted: its cell is freed, every
-- other cell keeps its job, the size falls by one, and the table stays well formed.
pub remove_job-Removed :
    (t : JobTable) (i : ℕ) (j : Job)
    → IsWellFormed t
    → slot t.slots i ≡ some j
    → Removed t i (remove_job t (suc i))
unfolding remove_job removed
remove_job-Removed t i j w e =
    let guards : (ltb (suc i) 1 || (ltb t.capacity (suc i) || t.size == 0)) ≡ false =
      ground (arith, slot-lt t.slots i j e, slot-occupied t.slots i j e, w.fits, w.counted) in
    let s : suc i - 1 ≡ i = omega arith in rw (guards, s, e) (freed-Removed t i j w e)

-- Number 0, and the number of a cell that is free or out of range, are refused, and the table is
-- not changed.
pub remove_job_refused :
    (t : JobTable) (i : ℕ)
    → slot t.slots i ≡ none
    → (remove_job t 0 ≡ (t, pos 1)) × (remove_job t (suc i) ≡ (t, pos 1))
unfolding remove_job removed
remove_job_refused t i e = (refl, at)
  where
    at : remove_job t (suc i) ≡ (t, pos 1)
    at = elim (Bool-cases (ltb (suc i) 1 || (ltb t.capacity (suc i) || t.size == 0))) [
      | inl refused ↦ rw refused
      | inr passed ↦ let s : suc i - 1 ≡ i = omega arith in rw (passed, s, e)
    ]

-- Removing the job that was just added succeeds, and leaves the size and every cell as before.
pub remove_job-add_job :
    (t : JobTable) (j : Job)
    → IsWellFormed t
    → let (added, id) = add_job t (some j) in
      let (back, result) = remove_job added (suc (lowest_free t.slots)) in
      (id ≡ pos (suc (lowest_free t.slots)))
      × (result ≡ pos 0)
      × (back.size ≡ t.size)
      × ((m : ℕ) → slot back.slots m ≡ slot t.slots m)
remove_job-add_job t j w =
    let a = add_job-Added t j w in
    let n = lowest_free t.slots in
    let r = remove_job-Removed (add_job t (some j)).0 n _ a.well_formed a.entered in
    (a.number, r.success, omega (arith, r.one_less, a.one_more), λ m. cell a r m)
  where
    cell :
        Added t j (add_job t (some j))
        → Removed
            (add_job t (some j)).0
            (lowest_free t.slots)
            (remove_job (add_job t (some j)).0 (suc (lowest_free t.slots)))
        → (m : ℕ)
        → slot (remove_job (add_job t (some j)).0 (suc (lowest_free t.slots))).0.slots m
          ≡ slot t.slots m
    cell a r m = elim (ℕ_discrete m (lowest_free t.slots)) [
      | yes e ↦ rw e (r.cleared ∙ sym a.was_free)
      | no h ↦ r.kept m h ∙ a.kept m h
    ]
