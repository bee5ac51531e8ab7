-- ===== src/Jobs/Table/Cells.antt =====
-- src/jobs.c: the cells of the job table, counted and numbered, and the invariant of the table.
use native.Mathlib.Nat.{add-zero}
use jsh_tyy.Base.{
  ℕ, zero, suc, ◌+◌, ◌≤◌, ◌<◌, ◌≡◌, ◌≢◌, refl, ap, ◌∙◌, sym, List, [], ◌∷◌, ◌++◌, Option, none,
  some, replicate, set, length, arith, length-set,
}
use jsh_tyy.Jobs.{Job}
use jsh_tyy.Jobs.Table.{JobTable, slot}

abbrev pub occupied : List (Option Job) → ℕ
occupied [] = 0
occupied (none ∷ slots) = occupied slots
occupied (some j ∷ slots) = suc (occupied slots)

-- The job in each cell from `i` on bears the number of its cell, counted from 1.
abbrev pub Numbered : ℕ → List (Option Job) → Type 0
Numbered i [] = Unit
Numbered i (none ∷ slots) = Numbered (suc i) slots
Numbered i (some j ∷ slots) = (j.id ≡ suc i) × Numbered (suc i) slots

pub record IsWellFormed (t : JobTable) : Type 0 where
  pub fits : t.capacity ≡ length t.slots
  pub counted : t.size ≡ occupied t.slots
  pub numbered : Numbered 0 t.slots

-- The number of cells in front of the first free one.
abbrev pub lowest_free : List (Option Job) → ℕ
lowest_free [] = 0
lowest_free (none ∷ slots) = 0
lowest_free (some j ∷ slots) = suc (lowest_free slots)

pub slot-lowest_free : (slots : List (Option Job)) → slot slots (lowest_free slots) ≡ none
slot-lowest_free [] = refl
slot-lowest_free (none ∷ slots) = refl
slot-lowest_free (some j ∷ slots) = slot-lowest_free slots

pub slot-below_free :
    (slots : List (Option Job)) (m : ℕ) → m < lowest_free slots → slot slots m ≢ none
slot-below_free [] m h = absurd (omega arith)
slot-below_free (none ∷ slots) m h = absurd (omega arith)
slot-below_free (some j ∷ slots) zero h = λ e. cc
slot-below_free (some j ∷ slots) (suc m) h = slot-below_free slots m (omega arith)

pub occupied-le : (slots : List (Option Job)) → occupied slots ≤ length slots
occupied-le [] = omega arith
occupied-le (none ∷ slots) = omega (arith, occupied-le slots)
occupied-le (some j ∷ slots) = omega (arith, occupied-le slots)

pub lowest_free-lt :
    (slots : List (Option Job)) → occupied slots < length slots → lowest_free slots < length slots
lowest_free-lt [] h = absurd (omega arith)
lowest_free-lt (none ∷ slots) h = omega arith
lowest_free-lt (some j ∷ slots) h = omega (arith, lowest_free-lt slots (omega arith))

pub lowest_free-grow :
    (slots : List (Option Job)) (n : ℕ)
    → lowest_free (slots ++ replicate n none) ≡ lowest_free slots
lowest_free-grow [] zero = refl
lowest_free-grow [] (suc n) = refl
lowest_free-grow (none ∷ slots) n = refl
lowest_free-grow (some j ∷ slots) n = ap suc (lowest_free-grow slots n)

slot-replicate : (n m : ℕ) → slot (replicate n none) m ≡ none
slot-replicate zero m = refl
slot-replicate (suc n) zero = refl
slot-replicate (suc n) (suc m) = slot-replicate n m

pub slot-grow :
    (slots : List (Option Job)) (n m : ℕ) → slot (slots ++ replicate n none) m ≡ slot slots m
slot-grow [] n m = slot-replicate n m
slot-grow (x ∷ slots) n zero = refl
slot-grow (x ∷ slots) n (suc m) = slot-grow slots n m

pub occupied-grow :
    (slots : List (Option Job)) (n : ℕ) → occupied (slots ++ replicate n none) ≡ occupied slots
occupied-grow [] zero = refl
occupied-grow [] (suc n) = occupied-grow [] n
occupied-grow (none ∷ slots) n = occupied-grow slots n
occupied-grow (some j ∷ slots) n = ap suc (occupied-grow slots n)

pub Numbered-grow :
    (slots : List (Option Job)) (n i : ℕ)
    → Numbered i slots
    → Numbered i (slots ++ replicate n none)
Numbered-grow [] zero i h = tt
Numbered-grow [] (suc n) i h = Numbered-grow [] n (suc i) tt
Numbered-grow (none ∷ slots) n i h = Numbered-grow slots n (suc i) h
Numbered-grow (some j ∷ slots) n i (e, h) = (e, Numbered-grow slots n (suc i) h)

pub slot-set_self :
    (slots : List (Option Job)) (n : ℕ) (x : Option Job)
    → n < length slots
    → slot (set slots n x) n ≡ x
slot-set_self [] n x h = absurd (omega arith)
slot-set_self (y ∷ slots) zero x h = refl
slot-set_self (y ∷ slots) (suc n) x h = slot-set_self slots n x (omega arith)

pub slot-set_ne :
    (slots : List (Option Job)) (n m : ℕ) (x : Option Job)
    → m ≢ n
    → slot (set slots n x) m ≡ slot slots m
slot-set_ne [] n m x h = refl
slot-set_ne (y ∷ slots) zero zero x h = absurd (h refl)
slot-set_ne (y ∷ slots) zero (suc m) x h = refl
slot-set_ne (y ∷ slots) (suc n) zero x h = refl
slot-set_ne (y ∷ slots) (suc n) (suc m) x h = slot-set_ne slots n m x (λ e. h (ap suc e))

-- Filling a free cell, and clearing an occupied one.
pub occupied-fill :
    (slots : List (Option Job)) (n : ℕ) (j : Job)
    → n < length slots
    → slot slots n ≡ none
    → occupied (set slots n (some j)) ≡ suc (occupied slots)
occupied-fill [] n j h e = absurd (omega arith)
occupied-fill (none ∷ slots) zero j h e = refl
occupied-fill (some k ∷ slots) zero j h e = cc
occupied-fill (none ∷ slots) (suc n) j h e = occupied-fill slots n j (omega arith) e
occupied-fill (some k ∷ slots) (suc n) j h e = ap suc (occupied-fill slots n j (omega arith) e)

pub occupied-clear :
    (slots : List (Option Job)) (n : ℕ) (j : Job)
    → slot slots n ≡ some j
    → suc (occupied (set slots n none)) ≡ occupied slots
occupied-clear [] n j e = cc
occupied-clear (none ∷ slots) zero j e = cc
occupied-clear (some k ∷ slots) zero j e = refl
occupied-clear (none ∷ slots) (suc n) j e = occupied-clear slots n j e
occupied-clear (some k ∷ slots) (suc n) j e = ap suc (occupied-clear slots n j e)

pub Numbered-fill :
    (slots : List (Option Job)) (i n : ℕ) (j : Job)
    → j.id ≡ suc (i + n)
    → Numbered i slots
    → Numbered i (set slots n (some j))
Numbered-fill [] i n j e h = tt
Numbered-fill (none ∷ slots) i zero j e h = (rw add-zero at e, h)
Numbered-fill (some k ∷ slots) i zero j e (d, h) = (rw add-zero at e, h)
Numbered-fill (none ∷ slots) i (suc n) j e h = Numbered-fill slots (suc i) n j (e ∙ omega arith) h
Numbered-fill (some k ∷ slots) i (suc n) j e (d, h) =
    (d, Numbered-fill slots (suc i) n j (e ∙ omega arith) h)

pub Numbered-clear :
    (slots : List (Option Job)) (i n : ℕ) → Numbered i slots → Numbered i (set slots n none)
Numbered-clear [] i n h = tt
Numbered-clear (none ∷ slots) i zero h = h
Numbered-clear (some k ∷ slots) i zero (d, h) = h
Numbered-clear (none ∷ slots) i (suc n) h = Numbered-clear slots (suc i) n h
Numbered-clear (some k ∷ slots) i (suc n) (d, h) = (d, Numbered-clear slots (suc i) n h)

pub Numbered-slot :
    (slots : List (Option Job)) (i n : ℕ) (j : Job)
    → Numbered i slots
    → slot slots n ≡ some j
    → j.id ≡ suc (i + n)
Numbered-slot [] i n j h e = cc
Numbered-slot (none ∷ slots) i zero j h e = cc
Numbered-slot (some k ∷ slots) i zero j (d, h) e = ground arith
Numbered-slot (none ∷ slots) i (suc n) j h e = Numbered-slot slots (suc i) n j h e ∙ omega arith
Numbered-slot (some k ∷ slots) i (suc n) j (d, h) e =
    Numbered-slot slots (suc i) n j h e ∙ omega arith

pub occupied-replace :
    (slots : List (Option Job)) (n : ℕ) (j j' : Job)
    → slot slots n ≡ some j
    → occupied (set slots n (some j')) ≡ occupied slots
occupied-replace [] n j j' e = refl
occupied-replace (none ∷ slots) zero j j' e = cc
occupied-replace (some k ∷ slots) zero j j' e = refl
occupied-replace (none ∷ slots) (suc n) j j' e = occupied-replace slots n j j' e
occupied-replace (some k ∷ slots) (suc n) j j' e = ap suc (occupied-replace slots n j j' e)

pub slot-lt :
    (slots : List (Option Job)) (i : ℕ) (j : Job) → slot slots i ≡ some j → i < length slots
slot-lt [] i j e = cc
slot-lt (x ∷ slots) zero j e = omega arith
slot-lt (x ∷ slots) (suc i) j e = omega (arith, slot-lt slots i j e)

-- A job may be replaced by another of the same number.
pub replaced-IsWellFormed :
    (t : JobTable) (n : ℕ) (j j' : Job)
    → IsWellFormed t
    → slot t.slots n ≡ some j
    → j'.id ≡ j.id
    → IsWellFormed (record t { slots = set t.slots n (some j') })
replaced-IsWellFormed t n j j' w e same = record {
  fits = w.fits ∙ sym (length-set t.slots n (some j'));
  counted = w.counted ∙ sym (occupied-replace t.slots n j j' e);
  numbered =
      Numbered-fill t.slots 0 n j' (same ∙ Numbered-slot t.slots 0 n j w.numbered e) w.numbered;
}

pub slot-occupied :
    (slots : List (Option Job)) (i : ℕ) (j : Job) → slot slots i ≡ some j → 0 < occupied slots
slot-occupied [] i j e = cc
slot-occupied (none ∷ slots) zero j e = cc
slot-occupied (some k ∷ slots) i j e = omega arith
slot-occupied (none ∷ slots) (suc i) j e = slot-occupied slots i j e
