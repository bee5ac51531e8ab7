-- ===== src/Parse/Call/Ends.antt =====
-- src/command.c: termination of the loop of `parse_command_call` over the arguments.
use jsh_tyy.Base.{
  ℕ, zero, suc, ◌≤◌, ◌≡◌, refl, All, not, Bool, true, false, Bytes, codes, List, [], ◌∷◌, ◌++◌,
  Option, none, some, if◌then◌else◌, ℤ, pos, negsuc, ◌==ℤ◌, length, arith,
}
use jsh_tyy.System.{Os}
use jsh_tyy.Text.{str_eq, join_strings}
use jsh_tyy.Parse.{Parser, Builder, fd_at, complain}
use jsh_tyy.Parse.Symbols.{is_symbol}
use jsh_tyy.Parse.Symbols.Halves.{AllTokens, Halves, find_end-Halves}
use jsh_tyy.Parse.Call.{
  Answer, lost, undefined, answer, Arguments, unfinished, undefined_arguments, null_printed, failed,
  done, arguments, symbol, parse_command_substitution, through, opened, with_last, substituted,
  substitution, linked_to, pipelined, redirected, near_null, pointed,
}

-- What a word of the line may be: the start of a substitution only where `P` holds.
abbrev pub Allows : Type 0 → Bytes → Type 0
Allows P token = str_eq token (codes "<(") ≡ true → P

pub Allows-any : (P : Type 0) → P → (ts : List Bytes) → All (Allows P) ts
Allows-any P p [] = tt
Allows-any P p (t ∷ ts) = ((λ e. p), Allows-any P p ts)

-- The recursion ends; where it comes to something undefined, `P` holds.
abbrev pub Answered : {W : Type 0} → Type 0 → Answer W → Type 0
Answered P lost = ⊥
Answered P undefined = P
Answered P (answer call st) = Unit

abbrev pub Ended : {W : Type 0} → Type 0 → Arguments W → Type 0
Ended P unfinished = ⊥
Ended P undefined_arguments = P
Ended P (failed builder st) = Unit
Ended P (done builder kept after st) = Unit

-- At most `n` tokens are left.
abbrev pub Within : {W : Type 0} → Type 0 → ℕ → Arguments W → Type 0
Within P n unfinished = ⊥
Within P n undefined_arguments = P
Within P n (failed builder st) = Unit
Within P n (done builder kept after st) =
    (length after ≤ n) × (AllTokens after × All (Allows P) after)

Within-if :
    {W : Type 0} (P : Type 0) (b : Bool) (n : ℕ) (x y : Arguments W)
    → (b ≡ true → Within P n x)
    → Within P n y
    → Within P n (if b then x else y)
Within-if P true n x y hx hy = hx refl
Within-if P false n x y hx hy = hy

module _ {W : Type 0} (os : Os W) (P : Type 0) where
  with_last-Within :
      (builder : Builder) (kept after : List Bytes) (pipe : ℕ × ℤ × ℤ) (last call : Option ℕ)
      (st : Parser W) (n : ℕ)
      → P
      → AllTokens after
      → length after ≤ n
      → Within P n (with_last os builder kept after pipe last call st)
  unfolding with_last substituted
  with_last-Within builder kept after pipe none call st n p h le = tt
  with_last-Within builder kept after pipe (some last) none st n p h le = tt
  with_last-Within builder kept after (index, reading, writing) (some last) (some call) st n p h
        le =
      let fits : Within {W = W} P n (done builder kept after st) =
        (le, (h, Allows-any P p after)) in
      Within-if P (not ((pointed st.heap last).stdout ==ℤ pos 1)) n _ _ (λ e. p) fits

  substitution-Within :
      (builder : Builder) (kept after : List Bytes) (pipe : ℕ × ℤ × ℤ) (a : Answer W) (n : ℕ)
      → P
      → Answered P a
      → AllTokens after
      → length after ≤ n
      → Within P n (substitution os builder kept after pipe a)
  unfolding substitution
  substitution-Within builder kept after pipe lost n p ha h le = absurd ha
  substitution-Within builder kept after pipe undefined n p ha h le = p
  substitution-Within builder kept after pipe (answer call st) n p ha h le =
      with_last-Within builder kept after pipe st.last_substitution call st n p h le

  -- `parse` answers on fewer than `m` tokens.
  module _ (parse : Parser W → Bytes → Bool → Bool → Answer W) (m : ℕ)
      (answers : (st : Parser W) (ts : List Bytes) (i p : Bool)
        → AllTokens ts
        → All (Allows P) ts
        → length ts ≤ m
        → Answered P (parse st (join_strings ts (codes " ")) i p)) where
    through-Within :
        (builder : Builder) (kept inside after : List Bytes) (st : Parser W)
        (pipe : Option (ℤ × ℤ) × W) (n : ℕ)
        → P
        → AllTokens inside
        → AllTokens after
        → length inside ≤ m
        → length after ≤ n
        → Within P n (through os parse builder kept inside after st pipe)
    unfolding through
    through-Within builder kept inside after st (none, w) n p hi ha li la = tt
    through-Within builder kept inside after st (some (reading, writing), w) n p hi ha li la =
        substitution-Within builder kept after _ _ n p
          (answers _ inside true false hi (Allows-any P p inside) li) ha la

    opened-Within :
        (builder : Builder) (kept : List Bytes) (r : Option (List Bytes × List Bytes))
        (st : Parser W) (n : ℕ)
        → P
        → n ≤ m
        → Halves n r
        → Within P n (opened os parse builder kept r st)
    unfolding opened
    opened-Within builder kept none st n p le h = tt
    opened-Within builder kept (some (inside, after)) st n p le (l, (hi, ha)) =
        through-Within builder kept inside after st _ n p hi ha (omega arith) (omega arith)

    linked_to-Within :
        (i : Bool) (kept : List Bytes) (builder : Builder) (call : ℕ)
        (r : Option Builder × Parser W) (n : ℕ)
        → Within P n (linked_to os parse i kept builder call r)
    unfolding linked_to
    linked_to-Within i kept builder call (none, st) n = tt
    linked_to-Within i kept builder call (some builder', st) n = (omega arith, (tt, tt))

    pipelined-Within :
        (i : Bool) (kept : List Bytes) (builder : Builder) (a : Answer W) (n : ℕ)
        → Answered P a
        → Within P n (pipelined os parse i kept builder a)
    unfolding pipelined
    pipelined-Within i kept builder lost n h = absurd h
    pipelined-Within i kept builder undefined n h = h
    pipelined-Within i kept builder (answer none st) n h = tt
    pipelined-Within i kept builder (answer (some call) st) n h =
        linked_to-Within i kept builder call _ n

    redirected-Within :
        (builder : Builder) (kept after : List Bytes) (st : Parser W) (r : Option (List ℤ) × W)
        (n : ℕ)
        → AllTokens after
        → All (Allows P) after
        → length after ≤ n
        → Within P n (redirected os parse builder kept after st r)
    unfolding redirected
    redirected-Within builder kept after st (none, w) n h ok le = tt
    redirected-Within builder kept after st (some fds, w) n h ok le = (le, (h, ok))

    null_printed-Within :
        (text : Option Bytes) (builder : Builder) (st : Parser W) (n : ℕ)
        → P
        → Within P n (null_printed os parse text builder st)
    unfolding null_printed
    null_printed-Within none builder st n p = p
    null_printed-Within (some text) builder st n p = tt

    near_null-Within :
        (r : Arguments W) (n : ℕ) → P → Within P n r → Within P n (near_null os parse r)
    unfolding near_null
    near_null-Within unfinished n p h = h
    near_null-Within undefined_arguments n p h = p
    near_null-Within (failed builder st) n p h = null_printed-Within os.null_string builder st n p
    near_null-Within (done builder kept after st) n p h = h

    symbol-Within :
        (i : Bool) (builder : Builder) (kept : List Bytes) (token next : Bytes) (after : List Bytes)
        (st : Parser W) (n : ℕ)
        → AllTokens (next ∷ after)
        → Allows P token
        → All (Allows P) (next ∷ after)
        → length (next ∷ after) ≤ n
        → n ≤ m
        → Within P n (symbol os parse i builder kept token next after st)
    unfolding symbol parse_command_substitution
    symbol-Within i builder kept token next after st n (h, hs) allow (ok, oks) le nm =
        Within-if P (str_eq token (codes "<(")) n _ _
          (λ e. near_null-Within _ n (allow e) (
            opened-Within builder kept _ _ n (allow e) nm
              (find_end-Halves 0 [] (next ∷ after) n tt (h, hs) (omega arith))))
          (Within-if P (not (str_eq token (codes "|"))) n _ _
            (λ e. redirected-Within builder kept after st _ n hs oks (omega arith))
            (Within-if P (not (fd_at builder.fds 1 ==ℤ negsuc 0)) n _ _ (λ e. tt)
              (pipelined-Within i kept builder _ n
                (answers st (next ∷ after) i true (h, hs) (ok, oks) (omega arith)))))

    -- The loop ends within as much fuel as there are tokens.
    pub arguments-Ended :
        (n : ℕ) (first i : Bool) (r : Arguments W)
        → Within P n r
        → n ≤ suc m
        → Ended P (arguments os parse n first i r)
    unfolding arguments
    arguments-Ended n first i unfinished h le = h
    arguments-Ended n first i undefined_arguments h le = h
    arguments-Ended n first i (failed builder st) h le = tt
    arguments-Ended n first i (done builder kept [] st) h le = tt
    arguments-Ended zero first i (done builder kept (t ∷ ts) st) (l, hs) le = absurd (omega arith)
    arguments-Ended (suc n) first i (done builder kept (t ∷ []) st) h le =
        elim (is_symbol t)
          as (λ b. Ended P (
            if b
            then failed builder (complain os (codes "jsh: parse error\n") st)
            else done builder (kept ++ t ∷ []) [] st)) [ true ↦ tt | false ↦ tt ]
    arguments-Ended (suc n) first i (done builder kept (t ∷ u ∷ ts) st) (l, ((h, hs), (allow, oks)))
          le =
        arguments-Ended n false i _
          (Within-if P (not (is_symbol t)) n _ _ (λ e. (omega arith, (hs, oks)))
            (Within-if P first n _ _ (λ e. tt)
              (Within-if P (is_symbol u) n _ _ (λ e. tt)
                (symbol-Within i builder kept t u ts st n hs allow oks (omega arith)
                  (omega arith)))))
          (omega arith)
