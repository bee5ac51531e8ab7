-- ===== src/Text/Joined.antt =====
-- src/string_utils.c: tokens that `join_strings` has joined.
use jsh_tyy.Base.{
  ℕ, ◌≡◌, refl, ap, ◌∙◌, false, Bytes, codes, List, [], ◌∷◌, ◌++◌, some, length, All, arith,
}
use jsh_tyy.Text.{join_strings, is_only_composed_of, only_loop, starts_with}
use jsh_tyy.Text.Tokens.{IsToken, Lacks, ends_with, joined, join_loop-joined}
use jsh_tyy.Text.Tokens.{words-join_strings}
use jsh_tyy.Text.Iterator.{split_string}
use jsh_tyy.Text.Spec.{split_string_lem, array_of}
use jsh_tyy.Text.Trim.{space, IsTrimmed}

ends_with-append :
    (b : ℕ) (xs : Bytes) (c : ℕ) (ys : Bytes) → ends_with b (xs ++ c ∷ ys) ≡ ends_with b (c ∷ ys)
ends_with-append b [] c ys = refl
ends_with-append b (x ∷ []) c ys = refl
ends_with-append b (x ∷ y ∷ xs) c ys = ends_with-append b (y ∷ xs) c ys

ends_with-Lacks : (b : ℕ) (t : Bytes) → Lacks b t → ends_with b t ≡ false
ends_with-Lacks b [] h = refl
ends_with-Lacks b (c ∷ []) (h, hs) = ground arith
ends_with-Lacks b (c ∷ d ∷ t) (h, hs) = ends_with-Lacks b (d ∷ t) hs

-- Whether a text is not empty.
abbrev Holds : Bytes → Type 0
Holds [] = ⊥
Holds (c ∷ s) = Unit

joined-Holds : (t : Bytes) (ts : List Bytes) → IsToken space t → Holds (joined (codes " ") (t ∷ ts))
unfolding joined
joined-Holds [] ts (h, hs) = absurd (h refl)
joined-Holds (c ∷ t) [] h = tt
joined-Holds (c ∷ t) (u ∷ ts) h = tt

ends_with-behind : (b : ℕ) (xs ys : Bytes) → Holds ys → ends_with b (xs ++ ys) ≡ ends_with b ys
ends_with-behind b xs [] h = absurd h
ends_with-behind b xs (y ∷ ys) h = ends_with-append b xs y ys

ends_with-joined :
    (t : Bytes) (ts : List Bytes)
    → All (IsToken space) (t ∷ ts)
    → ends_with space (joined (codes " ") (t ∷ ts)) ≡ false
unfolding joined
ends_with-joined t [] ((h, hs), k) = ends_with-Lacks space t hs
ends_with-joined t (u ∷ ts) (h, (k, ks)) =
    ends_with-behind space t (space ∷ joined (codes " ") (u ∷ ts)) tt
    ∙ (ends_with-behind space (space ∷ []) (joined (codes " ") (u ∷ ts)) (joined-Holds u ts k)
        ∙ ends_with-joined u ts (k, ks))

begins-joined :
    (t : Bytes) (ts : List Bytes)
    → All (IsToken space) (t ∷ ts)
    → IsTrimmed (joined (codes " ") (t ∷ ts))
unfolding joined
begins-joined [] ts ((h, hs), k) = absurd (h refl)
begins-joined (c ∷ t) [] ((h, (x, hs)), k) = (x, ends_with-joined (c ∷ t) [] ((h, (x, hs)), k))
begins-joined (c ∷ t) (u ∷ ts) ((h, (x, hs)), k) =
    (x, ends_with-joined (c ∷ t) (u ∷ ts) ((h, (x, hs)), k))

pub join_strings-IsTrimmed :
    (t : Bytes) (ts : List Bytes)
    → All (IsToken space) (t ∷ ts)
    → IsTrimmed (join_strings (t ∷ ts) (codes " "))
unfolding join_strings
join_strings-IsTrimmed t ts h = rw (join_loop-joined (t ∷ ts) (codes " ") []) (begins-joined t ts h)

pub is_only_composed_of-IsTrimmed :
    (s : Bytes) → IsTrimmed s → is_only_composed_of s (codes " ") ≡ some false
unfolding is_only_composed_of only_loop starts_with
is_only_composed_of-IsTrimmed [] h = absurd h
is_only_composed_of-IsTrimmed (c ∷ s) (h, k) = ground arith

-- Joining tokens with a byte that none of them has and splitting the result at that byte gives the
-- array of the tokens back, with their number.
pub split_string-join_strings :
    (b : ℕ) (ts : List Bytes)
    → All (IsToken b) ts
    → split_string (join_strings ts (b ∷ [])) (b ∷ []) ≡ some (array_of ts, length ts)
split_string-join_strings b ts h =
    split_string_lem (join_strings ts (b ∷ [])) b []
    ∙ ap (λ ws. some (array_of ws, length ws)) (words-join_strings b ts h)
