-- ===== src/Parse/Call/Clean.antt =====
-- src/command.c: the loop over the arguments leaves no call of a substitution behind.
use jsh_tyy.Base.{
  ℕ, zero, suc, ◌≡◌, refl, not, Bool, true, false, ◌||◌, Bytes, codes, List, [], ◌∷◌, Option, none,
  some, if◌then◌else◌, ℤ, pos, negsuc, ◌==ℤ◌, length,
}
use jsh_tyy.System.{Os}
use jsh_tyy.Text.{str_eq, join_strings}
use jsh_tyy.Parse.{Parser, Builder, fd_at, add_call_at_the_end, add_pipe, linked, link_pipelines}
use jsh_tyy.Parse.Symbols.{is_symbol, find_end}
use jsh_tyy.Parse.Redirect.{parse_redirections}
use jsh_tyy.Parse.Call.{
  Answer, lost, undefined, answer, Arguments, unfinished, undefined_arguments, null_printed, failed,
  done, arguments, symbol, parse_command_substitution, through, opened, with_last, substituted,
  substitution, linked_to, pipelined, redirected, near_null, pointed, differs,
}

-- `last_parsed_command_call_substitution` is NULL where a call is returned.
abbrev pub IsClean : {W : Type 0} → Answer W → Type 0
IsClean lost = Unit
IsClean undefined = Unit
IsClean (answer none st) = Unit
IsClean (answer (some call) st) = st.last_substitution ≡ none

-- The same where the arguments are without an error.
abbrev pub IsTidy : {W : Type 0} → Arguments W → Type 0
IsTidy unfinished = Unit
IsTidy undefined_arguments = Unit
IsTidy (failed builder st) = Unit
IsTidy (done builder kept after st) = st.last_substitution ≡ none

IsTidy-if :
    {W : Type 0} (b : Bool) (x y : Arguments W) → IsTidy x → IsTidy y → IsTidy (if b then x else y)
IsTidy-if true x y hx hy = hx
IsTidy-if false x y hx hy = hy

module _ {W : Type 0} (os : Os W) where
  with_last-IsTidy :
      (builder : Builder) (kept after : List Bytes) (pipe : ℕ × ℤ × ℤ) (last call : Option ℕ)
      (st : Parser W)
      → IsTidy (with_last os builder kept after pipe last call st)
  unfolding with_last substituted add_call_at_the_end
  with_last-IsTidy builder kept after pipe none call st = tt
  with_last-IsTidy builder kept after pipe (some last) none st = tt
  with_last-IsTidy builder kept after (index, reading, writing) (some last) (some call) st =
      IsTidy-if (not ((pointed st.heap last).stdout ==ℤ pos 1)) _ _ tt refl

  substitution-IsTidy :
      (builder : Builder) (kept after : List Bytes) (pipe : ℕ × ℤ × ℤ) (a : Answer W)
      → IsTidy (substitution os builder kept after pipe a)
  unfolding substitution
  substitution-IsTidy builder kept after pipe lost = tt
  substitution-IsTidy builder kept after pipe undefined = tt
  substitution-IsTidy builder kept after pipe (answer call st) =
      with_last-IsTidy builder kept after pipe st.last_substitution call st

  null_printed-IsTidy :
      (parse : Parser W → Bytes → Bool → Bool → Answer W) (text : Option Bytes) (builder : Builder)
      (st : Parser W)
      → IsTidy (null_printed os parse text builder st)
  unfolding null_printed
  null_printed-IsTidy parse none builder st = tt
  null_printed-IsTidy parse (some text) builder st = tt

  near_null-IsTidy :
      (parse : Parser W → Bytes → Bool → Bool → Answer W) (r : Arguments W)
      → IsTidy r
      → IsTidy (near_null os parse r)
  unfolding near_null
  near_null-IsTidy parse unfinished h = tt
  near_null-IsTidy parse undefined_arguments h = tt
  near_null-IsTidy parse (failed builder st) h = null_printed-IsTidy parse os.null_string builder st
  near_null-IsTidy parse (done builder kept after st) h = h

  module _ (parse : Parser W → Bytes → Bool → Bool → Answer W)
      (clean : (st : Parser W) (text : Bytes) (inside_pipeline : Bool)
        → st.last_substitution ≡ none
        → IsClean (parse st text false inside_pipeline)) where
    through-IsTidy :
        (builder : Builder) (kept inside after : List Bytes) (st : Parser W)
        (pipe : Option (ℤ × ℤ) × W)
        → IsTidy (through os parse builder kept inside after st pipe)
    unfolding through
    through-IsTidy builder kept inside after st (none, w) = tt
    through-IsTidy builder kept inside after st (some (reading, writing), w) =
        substitution-IsTidy builder kept after (length st.open_pipes, reading, writing)
          (parse (add_pipe (record st { world = w }) (reading, writing))
            (join_strings inside (codes " ")) true false)

    opened-IsTidy :
        (builder : Builder) (kept : List Bytes) (ends : Option (List Bytes × List Bytes))
        (st : Parser W)
        → IsTidy (opened os parse builder kept ends st)
    unfolding opened
    opened-IsTidy builder kept none st = tt
    opened-IsTidy builder kept (some (inside, after)) st =
        through-IsTidy builder kept inside after st (os.pipe st.world)

    linked_to-IsTidy :
        (kept : List Bytes) (builder : Builder) (call : ℕ) (st : Parser W)
        (pipe : Option (ℤ × ℤ) × W)
        → st.last_substitution ≡ none
        → IsTidy (linked_to os parse false kept builder call (linked os builder call st pipe))
    unfolding linked_to linked add_pipe add_call_at_the_end
    linked_to-IsTidy kept builder call st (none, w) h = tt
    linked_to-IsTidy kept builder call st (some (reading, writing), w) h =
        added (differs os parse st.last call || false) _ h
      where
        added :
            (b : Bool) (x : Parser W)
            → x.last_substitution ≡ none
            → (if b then add_call_at_the_end x call else x).last_substitution ≡ none
        added true x e = e
        added false x e = e

    pipelined-IsTidy :
        (kept : List Bytes) (builder : Builder) (a : Answer W)
        → IsClean a
        → IsTidy (pipelined os parse false kept builder a)
    unfolding pipelined link_pipelines
    pipelined-IsTidy kept builder lost h = tt
    pipelined-IsTidy kept builder undefined h = tt
    pipelined-IsTidy kept builder (answer none st) h = tt
    pipelined-IsTidy kept builder (answer (some call) st) h =
        linked_to-IsTidy kept builder call st (os.pipe st.world) h

    redirected-IsTidy :
        (builder : Builder) (kept after : List Bytes) (st : Parser W) (r : Option (List ℤ) × W)
        → st.last_substitution ≡ none
        → IsTidy (redirected os parse builder kept after st r)
    unfolding redirected
    redirected-IsTidy builder kept after st (none, w) h = tt
    redirected-IsTidy builder kept after st (some fds, w) h = h

    symbol-IsTidy :
        (builder : Builder) (kept : List Bytes) (token next : Bytes) (after : List Bytes)
        (st : Parser W)
        → st.last_substitution ≡ none
        → IsTidy (symbol os parse false builder kept token next after st)
    unfolding symbol parse_command_substitution
    symbol-IsTidy builder kept token next after st h =
        IsTidy-if (str_eq token (codes "<(")) _ _
          (near_null-IsTidy parse _ (
            opened-IsTidy builder kept (find_end 0 [] (next ∷ after))
              (record st { last_substitution = none })))
          (IsTidy-if (not (str_eq token (codes "|"))) _ _
            (redirected-IsTidy builder kept after st
              (parse_redirections os builder.fds token next st.world) h)
            (IsTidy-if (not (fd_at builder.fds 1 ==ℤ negsuc 0)) _ _ tt (
              pipelined-IsTidy kept builder _
                (clean st (join_strings (next ∷ after) (codes " ")) true h))))

    pub arguments-IsTidy :
        (n : ℕ) (first : Bool) (r : Arguments W)
        → IsTidy r
        → IsTidy (arguments os parse n first false r)
    unfolding arguments
    arguments-IsTidy n first unfinished h = tt
    arguments-IsTidy n first undefined_arguments h = tt
    arguments-IsTidy n first (failed builder st) h = tt
    arguments-IsTidy n first (done builder kept [] st) h = h
    arguments-IsTidy zero first (done builder kept (t ∷ ts) st) h = tt
    arguments-IsTidy (suc n) first (done builder kept (t ∷ []) st) h =
        IsTidy-if (is_symbol t) _ _ tt h
    arguments-IsTidy (suc n) first (done builder kept (t ∷ u ∷ ts) st) h =
        arguments-IsTidy n false _ (
          IsTidy-if (not (is_symbol t)) _ _ h (
            IsTidy-if first _ _ tt
              (IsTidy-if (is_symbol u) _ _ tt (symbol-IsTidy builder kept t u ts st h))))
