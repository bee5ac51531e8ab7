-- ===== src/FdSet/Close.antt =====
-- src/utils.c: how often `close_unused_file_descriptors_from_array` closes a descriptor.
use jsh_tyy.Base.{
  ℕ, zero, suc, ◌+◌, ◌≤◌, ◌<◌, ◌≡◌, refl, ap, ◌∙◌, true, false, List, [], ◌∷◌, if◌then◌else◌, ℤ,
  negsuc, ◌==ℤ◌, ==ℤ_iff, is_negative, exceeds, length, replicate, All, arith, Bool-cases, inl, inr,
  ◌⊎◌, ◌&&◌,
}
use jsh_tyy.FdSet.{add_set, add_all, above_two, contains, close_unused_file_descriptors_from_array}

-- How often a descriptor stands in a list.
abbrev pub count : ℤ → List ℤ → ℕ
count x [] = 0
count x (y ∷ ys) = let rest = count x ys in if y ==ℤ x then suc rest else rest

abbrev free : List ℤ → ℕ
free [] = 0
free (y ∷ ys) = let rest = free ys in if is_negative y then suc rest else rest

-- Distinct descriptors, and free cells behind them.
Shape : List ℤ → Type 0
Shape [] = Unit
Shape (y ∷ ys) =
    ((is_negative y ≡ true) × All (λ z. is_negative z ≡ true) ys)
    ⊎ ((is_negative y ≡ false) × Shape ys × (count y ys ≡ 0))

count-free :
    (x : ℤ) (ys : List ℤ)
    → is_negative x ≡ false
    → All (λ z. is_negative z ≡ true) ys
    → count x ys ≡ 0
count-free x [] h hs = refl
count-free x (y ∷ ys) h (k, ks) = ground (arith, count-free x ys h ks)

free-Shape : (ys : List ℤ) → All (λ z. is_negative z ≡ true) ys → Shape ys
unfolding Shape
free-Shape [] hs = tt
free-Shape (y ∷ ys) hs = inl hs

count-add_set :
    (x v : ℤ) (set : List ℤ)
    → is_negative x ≡ false
    → Shape set
    → 0 < free set
    → count x (add_set set v).0 ≡ (if v ==ℤ x then 1 else count x set)
unfolding add_set Shape
count-add_set x v [] h s f = absurd (omega arith)
count-add_set x v (y ∷ set) h (inl (k, ks)) f = ground (arith, count-free x set h ks)
count-add_set x v (y ∷ set) h (inr (k, s, d)) f =
    ground (arith, count-add_set x v set h s, ==ℤ_iff y v, ==ℤ_iff y x, ==ℤ_iff v x)

count-add_set_ne :
    (x v : ℤ) (set : List ℤ)
    → is_negative x ≡ false
    → (x ==ℤ v) ≡ false
    → Shape set
    → count x (add_set set v).0 ≡ count x set
unfolding add_set Shape
count-add_set_ne x v [] h n s = refl
count-add_set_ne x v (y ∷ set) h n (inl (k, ks)) =
    ground (arith, count-free x set h ks, ==ℤ_iff v x, ==ℤ_iff x v, ==ℤ_iff y x)
count-add_set_ne x v (y ∷ set) h n (inr (k, s, d)) = ground (arith, count-add_set_ne x v set h n s)

add_set-Shape : (v : ℤ) (set : List ℤ) → Shape set → Shape (add_set set v).0
unfolding add_set Shape
add_set-Shape v [] s = tt
add_set-Shape v (y ∷ set) (inl (k, ks)) = elim (Bool-cases (is_negative v)) [
  | inl n ↦ rw k (inl (n, ks))
  | inr n ↦ rw k (inr (n, free-Shape set ks, count-free v set n ks))
]
add_set-Shape v (y ∷ set) (inr (k, s, d)) = elim (Bool-cases (y ==ℤ v)) [
  | inl e ↦ rw (k, e) (inr (k, s, d))
  | inr e ↦ rw (k, e) (inr (k, add_set-Shape v set s, count-add_set_ne y v set k e s ∙ d))
]

free-add_set : (v : ℤ) (set : List ℤ) → free set ≤ free (add_set set v).0 + 1
unfolding add_set
free-add_set v [] = omega arith
free-add_set v (y ∷ set) = ground (arith, free-add_set v set)

count-add_all :
    (x : ℤ) (fds set : List ℤ)
    → is_negative x ≡ false
    → Shape set
    → length fds ≤ free set
    → count x (add_all set fds) ≡ (if contains fds x then 1 else count x set)
unfolding add_all contains
count-add_all x [] set h s f = refl
count-add_all x (v ∷ fds) set h s f = ground (
  arith,
  count-add_all x fds (add_set set v).0 h (add_set-Shape v set s),
  free-add_set v set,
  count-add_set x v set h s,
)

count-above_two :
    (x : ℤ) (set : List ℤ) → count x (above_two set) ≡ (if exceeds x 2 then count x set else 0)
unfolding above_two
count-above_two x [] = ground arith
count-above_two x (y ∷ set) = ground (arith, count-above_two x set, ==ℤ_iff y x)

free-replicate :
    (n : ℕ)
    → (free (replicate n (negsuc 0)) ≡ n)
      × (All (λ z. is_negative z ≡ true) (replicate n (negsuc 0)))
free-replicate zero = (refl, tt)
free-replicate (suc n) = let (e, hs) = free-replicate n in (ap suc e, (refl, hs))

-- A descriptor above 2 that stands in the array, however often, is closed once, and no other
-- descriptor is closed.
pub close_unused_file_descriptors_from_array_once :
    (fds : List ℤ) (x : ℤ)
    → count x (close_unused_file_descriptors_from_array fds)
      ≡ (if exceeds x 2 && contains fds x then 1 else 0)
unfolding close_unused_file_descriptors_from_array
close_unused_file_descriptors_from_array_once fds x =
    let n = length fds in
    let (room, hs) = free-replicate n in
    let start = replicate n (negsuc 0) in
    elim (Bool-cases (is_negative x)) [
      | inl neg ↦ ground (arith, count-above_two x (add_all start fds))
      | inr nonneg ↦ ground (
        arith,
        count-above_two x (add_all start fds),
        count-add_all x fds start nonneg (free-Shape start hs) (omega (arith, room)),
        count-free x start nonneg hs,
      )
    ]

-- An array with a free cell for every descriptor takes all of them.
pub count-add_all_three :
    (a b c x : ℤ)
    → is_negative x ≡ false
    → contains (a ∷ b ∷ c ∷ []) x ≡ true
    → count x (add_all (negsuc 0 ∷ negsuc 0 ∷ negsuc 0 ∷ []) (a ∷ b ∷ c ∷ [])) ≡ 1
count-add_all_three a b c x h e =
    count-add_all x (a ∷ b ∷ c ∷ []) (negsuc 0 ∷ negsuc 0 ∷ negsuc 0 ∷ []) h
      (free-Shape _ (refl, (refl, (refl, tt)))) (omega arith)
    ∙ rw e refl
