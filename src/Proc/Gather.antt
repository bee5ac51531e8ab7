-- ===== src/Proc/Gather.antt =====
-- src/proc.c: the text that the loop of `get_children` puts together.
use jsh_tyy.Base.{
  ℕ, zero, suc, ◌+◌, ◌-◌, ◌<◌, ◌≤◌, ◌≡◌, ◌≢◌, ◌∙◌, refl, sym, ap, Bytes, List, [], ◌∷◌, ◌++◌,
  append_assoc, append-nil, map, none, some, arith, All, length, take, drop, replicate,
  length-append, length-drop, take-append_left,
}
use jsh_tyy.Text.Tokens.{Lacks}
use jsh_tyy.Proc.{
  Reads, until_nul, overwrite, append_buffer, overrun, gathered, last_read, read_loop,
}

-- A buffer of `m + 1` bytes, the last of which is a NUL.
record EndsNul (m : ℕ) (buf : Bytes) : Type 0 where
  front : Bytes
  fits : length front ≡ m
  shape : buf ≡ front ++ 0 ∷ []

-- The bytes of one `read` that does not fill the buffer.
abbrev pub IsPart : ℕ → Bytes → Type 0
IsPart bufsiz part = (part ≢ []) × ((length part < bufsiz) × Lacks 0 part)

abbrev pub concat : List Bytes → Bytes
concat [] = []
concat (part ∷ parts) = part ++ concat parts

drop-front : (n : ℕ) (s : Bytes) (c : ℕ) → n ≤ length s → drop n (s ++ c ∷ []) ≡ drop n s ++ c ∷ []
drop-front zero s c h = refl
drop-front (suc n) [] c h = absurd (omega arith)
drop-front (suc n) (x ∷ s) c h = drop-front n s c (omega arith)

replicate-EndsNul : (m : ℕ) → EndsNul m (replicate (suc m) 0)
replicate-EndsNul zero = record { front = []; fits = refl; shape = refl }
replicate-EndsNul (suc m) =
    let e = replicate-EndsNul m in
    record { front = 0 ∷ e.front; fits = ap suc e.fits; shape = ap (λ l. 0 ∷ l) e.shape }

overwrite-EndsNul :
    (m : ℕ) (part buf : Bytes) → EndsNul m buf → length part ≤ m → EndsNul m (overwrite part buf)
unfolding overwrite
overwrite-EndsNul m part buf e h = record {
  front = part ++ drop (length part) e.front;
  fits = omega (
    arith,
    length-append part (drop (length part) e.front),
    length-drop (length part) e.front,
    e.fits,
  );
  shape = rw e.shape (
      ap (λ l. part ++ l) (drop-front (length part) e.front 0 (omega (arith, e.fits)))
      ∙ sym (append_assoc part (drop (length part) e.front) (0 ∷ [])));
}

until_nul-some : (s : Bytes) → (t : Bytes) × (until_nul (s ++ 0 ∷ []) ≡ some t)
unfolding until_nul
until_nul-some [] = ([], refl)
until_nul-some (zero ∷ s) = ([], refl)
until_nul-some (suc c ∷ s) = let (t, e) = until_nul-some s in (suc c ∷ t, rw e)

until_nul-EndsNul : (m : ℕ) (buf : Bytes) → EndsNul m buf → (t : Bytes) × (until_nul buf ≡ some t)
until_nul-EndsNul m buf e = let (t, h) = until_nul-some e.front in (t, rw e.shape h)

until_nul-append :
    (s rest : Bytes) {t : Bytes}
    → Lacks 0 s
    → until_nul rest ≡ some t
    → until_nul (s ++ rest) ≡ some (s ++ t)
unfolding until_nul
until_nul-append [] rest h e = e
until_nul-append (zero ∷ s) rest (h, hs) e = absurd (h refl)
until_nul-append (suc c ∷ s) rest (h, hs) e = rw (until_nul-append s rest hs e)

until_nul-full : (s : Bytes) → Lacks 0 s → until_nul s ≡ none
unfolding until_nul
until_nul-full [] h = refl
until_nul-full (zero ∷ s) (h, hs) = absurd (h refl)
until_nul-full (suc c ∷ s) (h, hs) = rw (until_nul-full s hs)

take-length : (n : ℕ) (s t : Bytes) → n ≡ length s → take n (s ++ t) ≡ s
take-length n s t e = rw e (take-append_left s t)

take-within : (n : ℕ) (s t : Bytes) → n ≤ length s → take n (s ++ t) ≡ take n s
take-within zero s t h = refl
take-within (suc n) [] t h = absurd (omega arith)
take-within (suc n) (x ∷ s) t h = ap (λ l. x ∷ l) (take-within n s t (omega arith))

length-take : (n : ℕ) (s : Bytes) → n ≤ length s → length (take n s) ≡ n
length-take zero s h = refl
length-take (suc n) [] h = absurd (omega arith)
length-take (suc n) (x ∷ s) h = ap suc (length-take n s (omega arith))

drop-replicate : (n : ℕ) → drop {A = ℕ} n (replicate n 0) ≡ []
drop-replicate zero = refl
drop-replicate (suc n) = drop-replicate n

-- The end of the file adds nothing.
append_nothing :
    (m : ℕ) (string buf : Bytes)
    → EndsNul m buf
    → append_buffer (suc (length string)) 0 string buf ≡ some string
unfolding append_buffer
append_nothing m string buf e =
    let (t, h) = until_nul-EndsNul m buf e in rw h (ap some (take-length _ string t (omega arith)))

drop-EndsNul : (m n : ℕ) (buf : Bytes) → EndsNul m buf → n ≤ m → EndsNul (m - n) (drop n buf)
drop-EndsNul m n buf e h = record {
  front = drop n e.front;
  fits = length-drop n e.front ∙ ap (λ k. k - n) e.fits;
  shape = rw e.shape (drop-front n e.front 0 (omega (arith, e.fits)));
}

-- What is read of the buffer begins with the part that has just been written to it.
overwrite-until_nul :
    (m : ℕ) (part buf : Bytes)
    → EndsNul m buf
    → IsPart (suc m) part
    → (t : Bytes) × (until_nul (overwrite part buf) ≡ some (part ++ t))
unfolding overwrite
overwrite-until_nul m part buf e (h, (short, text)) =
    let rest = drop (length part) buf in
    let (t, g) = until_nul-EndsNul _ rest (drop-EndsNul m (length part) buf e (omega arith)) in
    (t, until_nul-append part rest text g)

append_part :
    (m : ℕ) (string part buf : Bytes)
    → EndsNul m buf
    → IsPart (suc m) part
    → append_buffer (suc (length string)) (length part) string (overwrite part buf)
      ≡ some (string ++ part)
unfolding append_buffer
append_part m string part buf e p =
    let (t, g) = overwrite-until_nul m part buf e p in
    rw (g, ← append_assoc string part t)
      (ap some (take-length _ (string ++ part) t (omega (arith, length-append string part))))

-- The first part loses its last byte.
append_first :
    (m c : ℕ) (cs buf : Bytes)
    → EndsNul m buf
    → IsPart (suc m) (c ∷ cs)
    → append_buffer 0 (length (c ∷ cs)) [] (overwrite (c ∷ cs) buf)
      ≡ some (take (length cs) (c ∷ cs))
unfolding append_buffer
append_first m c cs buf e p =
    let (t, g) = overwrite-until_nul m (c ∷ cs) buf e p in
    let n : 0 + suc (length cs) - 1 ≡ length cs = omega arith in
    rw (g, n) (ap some (take-within (length cs) (c ∷ cs) t (omega arith)))

-- The loop behind the first part.
read_more :
    (parts : List Bytes) (m : ℕ) (buf string : Bytes)
    → EndsNul m buf
    → All (IsPart (suc m)) parts
    → read_loop (map some parts) buf (suc (length string)) string
      ≡ gathered (string ++ concat parts)
unfolding read_loop last_read
read_more [] m buf string e h = rw (append_nothing m string buf e, append-nil)
read_more ([] ∷ parts) m buf string e (h, hs) = absurd (h.0 refl)
read_more ((c ∷ cs) ∷ parts) m buf string e (h, hs) =
    let part : Bytes = c ∷ cs in
    let n : suc (length string) + length part ≡ suc (length (string ++ part)) =
      omega (arith, length-append string part) in
    rw (append_part m string part buf e h, n)
      (read_more parts m (overwrite part buf) (string ++ part)
          (overwrite-EndsNul m part buf e (omega (arith, h.1.0))) hs
        ∙ ap gathered (append_assoc string part (concat parts)))

-- Where every `read` returns text and leaves a byte of the buffer free, the string is what all of
-- them have returned, without the last byte of the first one.
pub read_loop-parts :
    (bufsiz : ℕ) (c : ℕ) (cs : Bytes) (parts : List Bytes)
    → All (IsPart bufsiz) ((c ∷ cs) ∷ parts)
    → read_loop (map some ((c ∷ cs) ∷ parts)) (replicate bufsiz 0) 0 []
      ≡ gathered (take (length cs) (c ∷ cs) ++ concat parts)
unfolding read_loop
read_loop-parts zero c cs parts (h, hs) = absurd (omega (arith, h.1.0))
read_loop-parts (suc m) c cs parts (h, hs) =
    let e = replicate-EndsNul m in
    let string = take (length cs) (c ∷ cs) in
    let n : 0 + suc (length cs) ≡ suc (length string) =
      omega (arith, length-take (length cs) (c ∷ cs)) in
    rw (append_first m c cs (replicate (suc m) 0) e h, n)
      (read_more parts m _ string
        (overwrite-EndsNul m (c ∷ cs) (replicate (suc m) 0) e (omega (arith, h.1.0))) hs)

-- A first `read` that fills the whole buffer with text is read past the end of the buffer.
pub read_loop-overrun :
    (bufsiz : ℕ) (c : ℕ) (cs : Bytes) (reads : Reads)
    → length (c ∷ cs) ≡ bufsiz
    → Lacks 0 (c ∷ cs)
    → read_loop (some (c ∷ cs) ∷ reads) (replicate bufsiz 0) 0 [] ≡ overrun
unfolding read_loop append_buffer overwrite
read_loop-overrun bufsiz c cs reads e h =
    rw (← e, drop-replicate (length cs), append-nil cs, until_nul-full (c ∷ cs) h)
