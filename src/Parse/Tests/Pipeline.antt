-- ===== src/Parse/Tests/Pipeline.antt =====
-- src/command.c: a pipeline of three calls.
use jsh_tyy.Base.{
  ◌≡◌, refl, Bool, true, false, Bytes, codes, List, [], ◌∷◌, ◌++◌, Option, none, some, pos, arith,
  All,
}
use jsh_tyy.System.Recorder.{Record, recorder}
use jsh_tyy.Text.{join_strings}
use jsh_tyy.Command.{Command, CommandCall}
use jsh_tyy.Parse.{Parser}
use jsh_tyy.Parse.Symbols.{is_symbol}
use jsh_tyy.Parse.Line.{parse_command, ReadLine, parse_read_line, built}
use jsh_tyy.Parse.Pipeline.{Stage, Laid, line, laid, writes_to, reads_from}
use jsh_tyy.Parse.Pipeline.Stages.{IsPlainStage}
use jsh_tyy.Parse.Pipeline.Whole.{parse_command-pipeline}
use jsh_tyy.Parse.Pipeline.Stale.{IsRejected, parse_command-stale}
use jsh_tyy.Parse.Tests.{start}

abbrev first_stage : Stage
first_stage = (codes "a", codes "x" ∷ [])

abbrev next_stages : List Stage
next_stages = (codes "b", []) ∷ (codes "c", []) ∷ []

abbrev piped : Bytes → List Bytes → Bytes → CommandCall
piped name argv text = record {
  name = name;
  argv = argv;
  command_string = text;
  reading_pipes = [];
  writing_pipes = [];
  stdin = pos 0;
  stdout = pos 1;
  stderr = pos 2;
}

abbrev three_calls : Laid Record
three_calls = record {
  first = writes_to (piped (codes "a") (codes "a" ∷ codes "x" ∷ []) (codes "a x ")) 1 (pos 4);
  others =
      reads_from (piped (codes "c") (codes "c" ∷ []) (codes "c")) 0 (pos 3)
      ∷ reads_from (writes_to (piped (codes "b") (codes "b" ∷ []) (codes "b ")) 0 (pos 4)) 1 (pos 3)
      ∷ [];
  pipes = (pos 3, pos 4) ∷ (pos 3, pos 4) ∷ [];
  world = [];
}

lays_three : laid recorder next_stages first_stage [] ≡ some three_calls
unfolding laid join_strings jsh_tyy.Text.join_loop jsh_tyy.Command.new_command_call
    jsh_tyy.Parse.Symbols.remove_extra_pipes
lays_three = refl

first_stage-IsPlain : IsPlainStage first_stage
unfolding is_symbol jsh_tyy.Text.contains_string jsh_tyy.Text.str_eq
first_stage-IsPlain =
    ((((λ e. cc), (omega arith, tt)), refl), ((((λ e. cc), (omega arith, tt)), refl), tt))

next_stages-IsPlain : All IsPlainStage next_stages
unfolding is_symbol jsh_tyy.Text.contains_string jsh_tyy.Text.str_eq
next_stages-IsPlain = (
  ((((λ e. cc), (omega arith, tt)), refl), tt),
  (((((λ e. cc), (omega arith, tt)), refl), tt), tt),
)

parse_command-pipeline_example :
    parse_command recorder start (line first_stage next_stages)
    ≡ built
        (some (record {
          command_string = line first_stage next_stages;
          command_calls = three_calls.others ++ three_calls.first ∷ [];
          background = false;
          open_pipes = three_calls.pipes;
        }))
        (record start {
          heap = three_calls.others ++ three_calls.first ∷ [];
          calls = 0 ∷ 1 ∷ 2 ∷ [];
          open_pipes = three_calls.pipes;
        })
parse_command-pipeline_example =
    parse_command-pipeline recorder start (codes "a") (codes "x" ∷ []) next_stages three_calls refl
      first_stage-IsPlain next_stages-IsPlain lays_three

abbrev is_some : Option (List Command) → Bool
is_some none = false
is_some (some cs) = true

abbrev after : Option (Option (ReadLine Record)) → Parser Record
after none = start
after (some none) = start
after (some (some r)) = r.parser

abbrev is_read : Option (Option (ReadLine Record)) → Bool
is_read none = false
is_read (some none) = false
is_read (some (some r)) = is_some r.commands

abbrev failed_substitution : Bytes
failed_substitution = codes "a <( x | b < f | c )"

abbrev three_commands : Bytes
three_commands = codes "x | y | z"

-- The three commands are read in a new shell, and refused after a substitution that has failed.
refused_later :
    (is_read (parse_read_line recorder start three_commands) ≡ true)
    × (is_read (
          parse_read_line recorder
            (after (parse_read_line recorder start failed_substitution))
            three_commands)
        ≡ false)
unfolding parse_read_line jsh_tyy.Text.starts_with jsh_tyy.Parse.Line.read_split
    jsh_tyy.Text.Iterator.split_string_keep_trace jsh_tyy.Text.Iterator.new_string_iterator
    jsh_tyy.Text.Iterator.get_number_of_words_left jsh_tyy.Text.Iterator.count_loop
    jsh_tyy.Text.Iterator.fill_loop jsh_tyy.Text.Iterator.has_next_word
    jsh_tyy.Text.Iterator.trim_start jsh_tyy.Text.Iterator.trim_loop jsh_tyy.Text.Iterator.store
    jsh_tyy.Text.Iterator.next_word jsh_tyy.Text.Iterator.word_size jsh_tyy.Parse.Call.not_null
    jsh_tyy.Parse.Line.parse_command jsh_tyy.Command.new_empty_command
    jsh_tyy.Text.is_only_composed_of jsh_tyy.Command.new_command_call jsh_tyy.FdSet.above_two
    jsh_tyy.FdSet.add_all jsh_tyy.FdSet.add_set
    jsh_tyy.FdSet.close_unused_file_descriptors_from_array jsh_tyy.FdSet.contains
    jsh_tyy.FdSet.contains2 jsh_tyy.Parse.Build.abandon
    jsh_tyy.Parse.Build.close_unused_file_descriptors
    jsh_tyy.Parse.Build.close_unused_file_descriptors_helper jsh_tyy.Parse.Build.parse_command_call
    jsh_tyy.Parse.Call.arguments jsh_tyy.Parse.Symbols.find_end jsh_tyy.Parse.Symbols.is_symbol
    jsh_tyy.Parse.Call.parse_command_substitution jsh_tyy.Parse.Call.parse_error_near
    jsh_tyy.Parse.Symbols.remove_extra_pipes jsh_tyy.Parse.Call.symbol
    jsh_tyy.Parse.Call.update_dependencies jsh_tyy.Parse.Redirect.parse_redirections
    jsh_tyy.Parse.Redirect.redirection jsh_tyy.Parse.add_call_at_the_beginning
    jsh_tyy.Parse.add_call_at_the_end jsh_tyy.Parse.add_pipe jsh_tyy.Parse.allocate
    jsh_tyy.Parse.build_command jsh_tyy.Parse.close_all jsh_tyy.Parse.complain
    jsh_tyy.Parse.drop_builder jsh_tyy.Parse.link_pipelines jsh_tyy.Parse.new_command_call_builder
    jsh_tyy.Parse.perror jsh_tyy.Text.Iterator.filled jsh_tyy.Text.Iterator.split_from
    jsh_tyy.Text.Iterator.split_string jsh_tyy.Text.Iterator.tokens_of jsh_tyy.Text.Number.digits
    jsh_tyy.Text.Number.show_int jsh_tyy.Text.Number.show_nat jsh_tyy.Text.Trim.trim_spaces
    jsh_tyy.Text.contains_string jsh_tyy.Text.join_loop jsh_tyy.Text.join_strings
    jsh_tyy.Text.str_eq
refused_later = (refl, refl)

-- The parser where a call is left over.
abbrev left_over : Parser Record
left_over = record start {
  heap = piped (codes "b") (codes "b" ∷ []) (codes "b") ∷ [];
  last_substitution = some 0;
}

parse_command-stale_example :
    IsRejected (parse_command recorder left_over (line first_stage next_stages))
parse_command-stale_example =
    parse_command-stale recorder left_over 0 (codes "a") (codes "x" ∷ []) (codes "b", [])
      (codes "c", []) [] refl first_stage-IsPlain next_stages-IsPlain tt
