-- ===== src/Parse/Call.antt =====
-- src/command.c: the loop of `parse_command_call` over the arguments, with
-- `parse_command_substitution`.
pub mod Ends
pub mod Clean
use jsh_tyy.Base.{
  ℕ, zero, suc, ◌+◌, ◌-◌, ◌==◌, Bool, true, false, not, ◌&&◌, ◌||◌, Bytes, codes, List, [], ◌∷◌,
  ◌++◌, Option, none, some, if◌then◌else◌, ◌==ℤ◌, ℤ, pos, negsuc, length, get_elem?,
}
use jsh_tyy.System.{Os}
use jsh_tyy.FdSet.{close_unused_file_descriptors_from_array}
use jsh_tyy.Text.{str_eq, contains_string, join_strings}
use jsh_tyy.Text.Iterator.{split_string}
use jsh_tyy.Text.Trim.{trim_spaces}
use jsh_tyy.Text.Number.{show_int}
use jsh_tyy.Command.{CommandCall, new_command_call, add_pipe_pipe_info}
use jsh_tyy.Parse.{
  Parser, Builder, new_command_call_builder, fd_at, build_command, modify, add_pipe,
  add_call_at_the_end, allocate, complain, perror, close_all, drop_builder, link_pipelines,
}
use jsh_tyy.Parse.Redirect.{parse_redirections}
use jsh_tyy.Parse.Symbols.{is_symbol, find_end}

-- What `parse_command_call` returns; `lost` is undefined behaviour, or a recursion
-- that the fuel does not reach.
pub data Answer (W : Type 0) : Type 0 where
  lost : Answer W
  undefined : Answer W
  answer : Option ℕ → Parser W → Answer W

-- How the loop over the arguments ends, and how the treatment of one symbol does: `done` with the
-- arguments that are not NULL and the tokens that are left.
pub data Arguments (W : Type 0) : Type 0 where
  unfinished : Arguments W
  undefined_arguments : Arguments W
  failed : Builder → Parser W → Arguments W
  done : Builder → List Bytes → List Bytes → Parser W → Arguments W

abbrev pub pointed : List CommandCall → ℕ → CommandCall
pointed [] i = new_command_call [] []
pointed (c ∷ heap) zero = c
pointed (c ∷ heap) (suc i) = pointed heap i

-- The arguments that are left of an array.
unfoldable pub not_null : List (Option Bytes) → List Bytes
not_null [] = []
not_null (none ∷ ts) = not_null ts
not_null (some t ∷ ts) = t ∷ not_null ts

unfoldable pub update_dependencies : Builder → List CommandCall → ℕ → ℕ → Builder × List CommandCall
update_dependencies builder heap call index = (
  record builder { reading_pipes = add_pipe_pipe_info builder.reading_pipes index },
  modify heap call
      (λ (c : CommandCall). record c { writing_pipes = add_pipe_pipe_info c.writing_pipes index }),
)

module _ {W : Type 0} (os : Os W) where
  unfoldable pub parse_error_near : Bytes → Parser W → Parser W
  parse_error_near token st =
      complain os (codes "jsh: parse error near " ++ (token ++ codes "\n")) st

  -- The substitution has been parsed as `call`, which ends with `last`. Its output goes to the new
  -- pipe. Where it is redirected the call is freed, and its descriptors are read then, which is
  -- undefined.
  substituted : Builder → List Bytes → List Bytes → ℕ × ℤ × ℤ → ℕ → ℕ → Parser W → Arguments W
  unfolding update_dependencies
  substituted builder kept after (index, reading, writing) call last st =
      let heap = modify st.heap last (λ (c : CommandCall). record c { stdout = writing }) in
      let (builder', heap') = update_dependencies builder heap last index in
      let st' = add_call_at_the_end (record st { heap = heap'; last_substitution = none }) call in
      if not ((pointed st.heap last).stdout ==ℤ pos 1)
      then undefined_arguments
      else done builder' (kept ++ (codes "/dev/fd/" ++ show_int reading) ∷ []) after st'

  -- `last_parsed_command_call_substitution` and what the recursive call has returned.
  with_last :
      Builder → List Bytes → List Bytes → ℕ × ℤ × ℤ → Option ℕ → Option ℕ → Parser W → Arguments W
  unfolding substituted
  with_last builder kept after pipe none call st = failed builder st
  with_last builder kept after pipe (some last) none st = failed builder st
  with_last builder kept after pipe (some last) (some call) st =
      substituted builder kept after pipe call last st

  substitution : Builder → List Bytes → List Bytes → ℕ × ℤ × ℤ → Answer W → Arguments W
  unfolding with_last
  substitution builder kept after pipe lost = unfinished
  substitution builder kept after pipe undefined = undefined_arguments
  substitution builder kept after pipe (answer call st) =
      with_last builder kept after pipe st.last_substitution call st

  module _ (parse : Parser W → Bytes → Bool → Bool → Answer W) where
    through :
        Builder → List Bytes → List Bytes → List Bytes → Parser W → Option (ℤ × ℤ) × W → Arguments W
    unfolding substitution
    through builder kept inside after st (none, w) =
        failed builder (perror os (codes "pipe") (record st { world = w }))
    through builder kept inside after st (some (reading, writing), w) =
        substitution builder kept after (length st.open_pipes, reading, writing)
          (parse (add_pipe (record st { world = w }) (reading, writing))
            (join_strings inside (codes " ")) true false)

    opened : Builder → List Bytes → Option (List Bytes × List Bytes) → Parser W → Arguments W
    unfolding through
    opened builder kept none st = failed builder st
    opened builder kept (some (inside, after)) st =
        through builder kept inside after st (os.pipe st.world)

    unfoldable pub parse_command_substitution :
        Parser W → Builder → List Bytes → List Bytes → Arguments W
    unfolding opened
    parse_command_substitution st builder kept tokens =
        opened builder kept (find_end 0 [] tokens) (record st { last_substitution = none })

    -- `last_parsed_command_call != pipped_command_call`.
    unfoldable pub differs : Option ℕ → ℕ → Bool
    differs none call = true
    differs (some last) call = not (last == call)

    unfoldable pub linked_to :
        Bool → List Bytes → Builder → ℕ → Option Builder × Parser W → Arguments W
    unfolding differs
    linked_to inside_substitution kept builder call (none, st) =
        failed builder (parse_error_near (codes "|") st)
    linked_to inside_substitution kept builder call (some builder', st) =
        let st' =
          if differs st.last call || inside_substitution then add_call_at_the_end st call else st in
        done builder' kept [] st'

    unfoldable pub pipelined : Bool → List Bytes → Builder → Answer W → Arguments W
    unfolding linked_to
    pipelined inside_substitution kept builder lost = unfinished
    pipelined inside_substitution kept builder undefined = undefined_arguments
    pipelined inside_substitution kept builder (answer none st) =
        failed builder (parse_error_near (codes "|") st)
    pipelined inside_substitution kept builder (answer (some call) st) =
        linked_to inside_substitution kept builder call (link_pipelines os builder call st)

    redirected : Builder → List Bytes → List Bytes → Parser W → Option (List ℤ) × W → Arguments W
    redirected builder kept after st (none, w) = failed builder (record st { world = w })
    redirected builder kept after st (some fds, w) =
        done (record builder { fds = fds }) kept after (record st { world = w })

    null_printed : Option Bytes → Builder → Parser W → Arguments W
    null_printed none builder st = undefined_arguments
    null_printed (some text) builder st = failed builder (parse_error_near text st)

    -- The message where the substitution fails: the token has been freed, and is NULL.
    near_null : Arguments W → Arguments W
    unfolding null_printed
    near_null unfinished = unfinished
    near_null undefined_arguments = undefined_arguments
    near_null (failed builder st) = null_printed os.null_string builder st
    near_null (done builder kept after st) = done builder kept after st

    -- One symbol, with the token behind it.
    unfoldable pub symbol :
        Bool → Builder → List Bytes → Bytes → Bytes → List Bytes → Parser W → Arguments W
    unfolding redirected pipelined near_null
    symbol inside_substitution builder kept token next after st =
        if str_eq token (codes "<(")
        then near_null (parse_command_substitution st builder kept (next ∷ after))
        else if not (str_eq token (codes "|"))
        then redirected builder kept after st
            (parse_redirections os builder.fds token next st.world)
        else if not (fd_at builder.fds 1 ==ℤ negsuc 0)
        then failed builder (parse_error_near token st)
        else pipelined inside_substitution kept builder
            (parse st (join_strings (next ∷ after) (codes " ")) inside_substitution true)

    -- The loop over the tokens, on as much fuel as there are tokens; `first` is `index == 0`.
    unfoldable pub arguments : ℕ → Bool → Bool → Arguments W → Arguments W
    unfolding symbol
    arguments n first inside_substitution unfinished = unfinished
    arguments n first inside_substitution undefined_arguments = undefined_arguments
    arguments n first inside_substitution (failed builder st) = failed builder st
    arguments n first inside_substitution (done builder kept [] st) = done builder kept [] st
    arguments zero first inside_substitution (done builder kept (t ∷ ts) st) = unfinished
    arguments (suc n) first inside_substitution (done builder kept (t ∷ []) st) =
        if is_symbol t
        then failed builder (complain os (codes "jsh: parse error\n") st)
        else done builder (kept ++ t ∷ []) [] st
    arguments (suc n) first inside_substitution (done builder kept (t ∷ u ∷ ts) st) =
        arguments n false inside_substitution (
          if not (is_symbol t)
          then done builder (kept ++ t ∷ []) (u ∷ ts) st
          else if first
          then failed builder (complain os (codes "jsh: parse error\n") st)
          else if is_symbol u
          then failed builder (parse_error_near t st)
          else symbol inside_substitution builder kept t u ts st)
