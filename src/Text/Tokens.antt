-- ===== src/Text/Tokens.antt =====
-- src/string_utils.c: splitting at a single byte, and joining with it.
use jsh_tyy.Base.{
  ℕ, ◌+◌, ◌≡◌, ◌≢◌, refl, Bytes, Bool, true, false, List, [], ◌∷◌, ◌++◌, append_assoc, append-nil,
  arith, length, ◌==◌, if◌then◌else◌, All, Bool-cases, inl, inr,
}
use jsh_tyy.Text.{starts_with, join_strings, join_loop}
use jsh_tyy.Text.Words.{
  flush, words, delimited, words_from, delimited_from, words_from_cut, words_from_grow,
  delimited_from_cut, delimited_from_grow, length-flush, flag-grow,
}

abbrev pub Lacks : ℕ → Bytes → Type 0
Lacks b = All (λ c. c ≢ b)

-- A word between separators `b`.
abbrev pub IsToken : ℕ → Bytes → Type 0
IsToken b w = (w ≢ []) × Lacks b w

module _ (b : ℕ) where
  Lacks-snoc : (w : Bytes) (c : ℕ) → Lacks b w → c ≢ b → Lacks b (w ++ c ∷ [])
  Lacks-snoc [] c h k = (k, tt)
  Lacks-snoc (x ∷ w) c (h, hs) k = (h, Lacks-snoc w c hs k)

  starts_byte : (c : ℕ) (s : Bytes) → starts_with (c ∷ s) (b ∷ []) ≡ (c == b)
  unfolding starts_with
  starts_byte c s = ground arith

  ne_of_starts : (c : ℕ) (s : Bytes) → starts_with (c ∷ s) (b ∷ []) ≡ false → c ≢ b
  ne_of_starts c s h = ground (arith, starts_byte c s)

  starts_of_ne : (c : ℕ) (s : Bytes) → c ≢ b → starts_with (c ∷ s) (b ∷ []) ≡ false
  starts_of_ne c s h = ground (arith, starts_byte c s)

  All-flush :
      (cur : Bytes) (ws : List Bytes)
      → Lacks b cur
      → All (IsToken b) ws
      → All (IsToken b) (flush cur ws)
  All-flush [] ws h hs = hs
  All-flush (c ∷ cur) ws h hs = (((λ e. cc), h), hs)

  words_from-IsToken : (s cur : Bytes) → Lacks b cur → All (IsToken b) (words_from (b ∷ []) 0 cur s)
  words_from-IsToken [] cur h = unfold words_from in All-flush cur [] h tt
  words_from-IsToken (c ∷ s) cur h = elim (Bool-cases (starts_with (c ∷ s) (b ∷ []))) [
    | inl cut ↦
        rw (words_from_cut b [] cur c s cut) (All-flush cur _ h (words_from-IsToken s [] tt))
    | inr grow ↦
        rw (words_from_grow (b ∷ []) cur c s grow)
          (words_from-IsToken s (cur ++ c ∷ []) (Lacks-snoc cur c h (ne_of_starts c s grow)))
  ]

  -- Every word of a split is a token: it has a byte, and none of its bytes is the separator.
  pub words-IsToken : (s : Bytes) → All (IsToken b) (words s (b ∷ []))
  unfolding words
  words-IsToken s = words_from-IsToken s [] tt

  words_from-append :
      (w rest cur : Bytes)
      → Lacks b w
      → words_from (b ∷ []) 0 cur (w ++ rest) ≡ words_from (b ∷ []) 0 (cur ++ w) rest
  words_from-append [] rest cur h = rw append-nil
  words_from-append (c ∷ w) rest cur (h, hs) = rw (
    words_from_grow (b ∷ []) cur c (w ++ rest) (starts_of_ne c (w ++ rest) h),
    words_from-append w rest (cur ++ c ∷ []) hs,
    append_assoc,
  )

-- The tokens with the separator between them.
unfoldable pub joined : Bytes → List Bytes → Bytes
joined sep [] = []
joined sep (t ∷ []) = t
joined sep (t ∷ u ∷ ts) = t ++ (sep ++ joined sep (u ∷ ts))

pub join_loop-joined :
    (ts : List Bytes) (sep out : Bytes) → join_loop ts sep out ≡ out ++ joined sep ts
unfolding join_loop joined
join_loop-joined [] sep out = rw append-nil
join_loop-joined (t ∷ []) sep out = refl
join_loop-joined (t ∷ u ∷ ts) sep out =
    rw (join_loop-joined (u ∷ ts) sep ((out ++ t) ++ sep), append_assoc, append_assoc)

module _ (b : ℕ) where
  flush-token : (t : Bytes) (ws : List Bytes) → t ≢ [] → flush t ws ≡ t ∷ ws
  flush-token [] ws h = absurd (h refl)
  flush-token (c ∷ t) ws h = refl

  words_from_end : (cur : Bytes) → words_from (b ∷ []) 0 cur [] ≡ flush cur []
  unfolding words_from
  words_from_end cur = refl

  starts_self : (s : Bytes) → starts_with (b ∷ s) (b ∷ []) ≡ true
  starts_self s = ground (arith, starts_byte b b s)

  words_from-joined :
      (ts : List Bytes) → All (IsToken b) ts → words_from (b ∷ []) 0 [] (joined (b ∷ []) ts) ≡ ts
  unfolding joined
  words_from-joined [] h = unfold words_from in refl
  words_from-joined (t ∷ []) ((ne, h), hs) =
      rw (← append-nil t, words_from-append b t [] [] h, words_from_end, append-nil)
        (flush-token t [] ne)
  words_from-joined (t ∷ u ∷ ts) ((ne, h), hs) =
      rw
        (
          words_from-append b t (b ∷ joined (b ∷ []) (u ∷ ts)) [] h,
          words_from_cut b [] t b (joined (b ∷ []) (u ∷ ts))
              (starts_self (joined (b ∷ []) (u ∷ ts))),
          words_from-joined (u ∷ ts) hs,
        )
        (flush-token t (u ∷ ts) ne)

  -- Joining tokens with the byte `b` and splitting the result at `b` gives the tokens back.
  pub words-join_strings :
      (ts : List Bytes) → All (IsToken b) ts → words (join_strings ts (b ∷ [])) (b ∷ []) ≡ ts
  unfolding words join_strings
  words-join_strings ts h = rw (join_loop-joined ts (b ∷ []) []) (words_from-joined ts h)

-- Whether the last byte of a string is `b`.
abbrev pub ends_with : ℕ → Bytes → Bool
ends_with b [] = false
ends_with b (c ∷ []) = c == b
ends_with b (c ∷ d ∷ s) = ends_with b (d ∷ s)

module _ (b : ℕ) where
  delimited_from_end : (cur : Bytes) → delimited_from (b ∷ []) 0 cur [] ≡ 0
  unfolding delimited_from
  delimited_from_end cur = refl

  delimited_from-ends :
      (s : Bytes) (c : ℕ) (cur : Bytes)
      → delimited_from (b ∷ []) 0 cur (c ∷ s) + (if ends_with b (c ∷ s) then 0 else 1)
        ≡ length (words_from (b ∷ []) 0 cur (c ∷ s))
  delimited_from-ends [] c cur = elim (Bool-cases (starts_with (c ∷ []) (b ∷ []))) [
    | inl cut ↦
        rw
          (
            words_from_cut b [] cur c [] cut,
            delimited_from_cut b [] cur c [] cut,
            ← starts_byte b c [],
            cut,
            words_from_end b [],
            delimited_from_end [],
          )
          (omega (arith, length-flush cur []))
    | inr grow ↦
        rw
          (
            words_from_grow (b ∷ []) cur c [] grow,
            delimited_from_grow (b ∷ []) cur c [] grow,
            ← starts_byte b c [],
            grow,
            words_from_end b (cur ++ c ∷ []),
            delimited_from_end (cur ++ c ∷ []),
          )
          (omega (arith, length-flush (cur ++ c ∷ []) [], flag-grow cur c))
  ]
  delimited_from-ends (d ∷ s) c cur = elim (Bool-cases (starts_with (c ∷ d ∷ s) (b ∷ []))) [
    | inl cut ↦
        rw (words_from_cut b [] cur c (d ∷ s) cut, delimited_from_cut b [] cur c (d ∷ s) cut)
          (omega (
            arith,
            delimited_from-ends s d [],
            length-flush cur (words_from (b ∷ []) 0 [] (d ∷ s)),
          ))
    | inr grow ↦
        rw
          (
            words_from_grow (b ∷ []) cur c (d ∷ s) grow,
            delimited_from_grow (b ∷ []) cur c (d ∷ s) grow,
          )
          (delimited_from-ends s d (cur ++ c ∷ []))
  ]

  -- Of a string that is not empty, every word is followed by the separator, the last one only if
  -- the string ends with it.
  pub delimited-ends :
      (c : ℕ) (s : Bytes)
      → delimited (c ∷ s) (b ∷ []) + (if ends_with b (c ∷ s) then 0 else 1)
        ≡ length (words (c ∷ s) (b ∷ []))
  unfolding words delimited
  delimited-ends c s = delimited_from-ends s c []
