-- ===== src/Jobs/Control/Lookup.antt =====
-- src/jobs.c: `get_job` and the cells of the job table.
use jsh_tyy.Base.{
  drop, ℕ, suc, ◌-◌, ◌≤◌, ◌<◌, ◌≡◌, true, false, ◌||◌, Bytes, codes, ◌++◌, Option, none, some, ◌==◌,
  ltb, pos, negsuc, arith, Bool-cases, inl, inr,
}
use jsh_tyy.Text.{starts_with}
use jsh_tyy.Text.Number.{show_nat, show_int, Parsed, parsed, refused, parse_intmax_t, intmax_max}
use jsh_tyy.Text.Decimal.{parse_intmax_t-show_int}
use jsh_tyy.Jobs.{Job}
use jsh_tyy.Jobs.Control.{found, find_job, job_numbered, job_of}
use jsh_tyy.Jobs.Table.{JobTable, slot}
use jsh_tyy.Jobs.Table.Cells.{IsWellFormed, Numbered-slot, slot-lt, slot-occupied}

parse_number : (n : ℕ) → n ≤ intmax_max → parse_intmax_t (show_nat n) ≡ parsed (pos n)
unfolding show_int
parse_number n h = parse_intmax_t-show_int (pos n) h

-- "%n" names the job of number n.
pub find_job-slot :
    (t : JobTable) (i : ℕ) (j : Job)
    → IsWellFormed t
    → i < intmax_max
    → slot t.slots i ≡ some j
    → find_job t (codes "%" ++ show_nat (suc i)) ≡ found j
unfolding find_job starts_with job_numbered job_of
find_job-slot t i j w h e =
    let s : suc i - 1 ≡ i = omega arith in
    let guards : (ltb (suc i) 1 || (ltb t.capacity (suc i) || t.size == 0)) ≡ false =
      ground (arith, slot-lt t.slots i j e, slot-occupied t.slots i j e, w.fits, w.counted) in
    rw (parse_number (suc i) h, guards, s, e)

job_of_sound : (id : ℕ) (x : Option Job) (j : Job) → job_of id x ≡ found j → x ≡ some j
unfolding job_of
job_of_sound id none j e = cc
job_of_sound id (some k) j e = ground arith

job_numbered_sound :
    (t : JobTable) (p : Parsed) (j : Job)
    → IsWellFormed t
    → job_numbered t p ≡ found j
    → slot t.slots (j.id - 1) ≡ some j
unfolding job_numbered
job_numbered_sound t (refused text) j w e = cc
job_numbered_sound t (parsed (negsuc n)) j w e = cc
job_numbered_sound t (parsed (pos id)) j w e =
    elim (Bool-cases (ltb id 1 || (ltb t.capacity id || t.size == 0))) [
      | inl bad ↦ absurd (invalid bad e)
      | inr good ↦
          let there : slot t.slots (id - 1) ≡ some j = job_of_sound id _ j (rw good at e) in
          let number = Numbered-slot t.slots 0 (id - 1) j w.numbered there in
          let same : j.id - 1 ≡ id - 1 = omega (arith, number) in rw same there
    ]
  where
    invalid :
        (ltb id 1 || (ltb t.capacity id || t.size == 0)) ≡ true
        → job_numbered t (parsed (pos id)) ≡ found j
        → ⊥
    invalid bad e = cc (rw bad at e)

-- Whatever the text, the job that is found stands in the cell of its number.
pub slot-find_job :
    (t : JobTable) (text : Bytes) (j : Job)
    → IsWellFormed t
    → find_job t text ≡ found j
    → slot t.slots (j.id - 1) ≡ some j
unfolding find_job
slot-find_job t text j w e = elim (Bool-cases (starts_with text (codes "%"))) [
  | inl good ↦ job_numbered_sound t (parse_intmax_t (drop 1 text)) j w (rw good at e)
  | inr bad ↦ cc (rw bad at e)
]
