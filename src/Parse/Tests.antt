-- ===== src/Parse/Tests.antt =====
-- src/command.c: the theorems at concrete lines, and runs of the parser.
pub mod Pipeline
use jsh_tyy.Base.{
  ℤ, negsuc, suc, ltb, ◌||◌, ◌≤◌, ◌<◌, ◌≡◌, ◌≢◌, refl, Bool, true, false, Bytes, codes, List, [],
  ◌∷◌, map, Option, none, some, pos, arith, length, All,
}
use jsh_tyy.System.Recorder.{Record, recorder}
use jsh_tyy.Text.{join_strings, starts_with, str_eq}
use jsh_tyy.Text.Words.{words}
use jsh_tyy.Text.Tokens.{ends_with}
use jsh_tyy.Command.{Command, CommandCall}
use jsh_tyy.Parse.{Parser}
use jsh_tyy.Parse.Call.{Answer}
use jsh_tyy.Parse.Symbols.{is_symbol}
use jsh_tyy.Parse.Line.Defined.{WithoutSubstitution, parse_read_line-returns}
use jsh_tyy.Parse.Build.{parse_command_call}
use jsh_tyy.Parse.Build.Plain.{IsPlain, plain_call}
use jsh_tyy.Parse.Redirect.{parse_redirections}
use jsh_tyy.Parse.Redirect.Target.{Redirected, row_of, symbols, parse_redirections-Redirected}
use jsh_tyy.Parse.Line.{ReadLine, parse_read_line, parse_command, built}
use jsh_tyy.Parse.Line.Spec.{
  parse_read_line-ne_none, parse_read_line-total_commands, parse_read_line-background,
}
use jsh_tyy.Parse.Line.Plain.{parse_command-plain}
use jsh_tyy.Parse.Line.Clean.{IsReset, parse_command-IsReset}

abbrev pub start : Parser Record
start = record {
  world = [];
  heap = [];
  last = none;
  last_substitution = none;
  calls = [];
  open_pipes = [];
}

abbrev line : Bytes
line = codes "a | b & c <( d )"

abbrev results : Option (List Command) → List (List Bytes × Bool)
results none = []
results (some []) = []
results (some (c ∷ cs)) =
    (map (λ (k : CommandCall). k.command_string) c.command_calls, c.background) ∷ results (some cs)

abbrev commands_of : Option (Option (ReadLine Record)) → Option (List Command)
commands_of none = none
commands_of (some none) = none
commands_of (some (some r)) = r.commands

line_calls :
    results (commands_of (parse_read_line recorder start line))
    ≡ (codes "b" ∷ codes "a " ∷ [], true) ∷ (codes "c <( d )" ∷ codes "d" ∷ [], false) ∷ []
unfolding parse_read_line jsh_tyy.Text.starts_with jsh_tyy.Parse.Line.read_split
    jsh_tyy.Text.Iterator.split_string_keep_trace jsh_tyy.Text.Iterator.new_string_iterator
    jsh_tyy.Text.Iterator.get_number_of_words_left jsh_tyy.Text.Iterator.count_loop
    jsh_tyy.Text.Iterator.fill_loop jsh_tyy.Text.Iterator.has_next_word
    jsh_tyy.Text.Iterator.trim_start jsh_tyy.Text.Iterator.trim_loop jsh_tyy.Text.Iterator.store
    jsh_tyy.Text.Iterator.next_word jsh_tyy.Text.Iterator.word_size jsh_tyy.Parse.Call.not_null
    parse_command jsh_tyy.Command.new_empty_command jsh_tyy.Text.is_only_composed_of
    jsh_tyy.Command.new_command_call jsh_tyy.FdSet.above_two jsh_tyy.FdSet.add_all
    jsh_tyy.FdSet.add_set jsh_tyy.FdSet.close_unused_file_descriptors_from_array
    jsh_tyy.FdSet.contains jsh_tyy.FdSet.contains2 jsh_tyy.Parse.Build.abandon
    jsh_tyy.Parse.Build.close_unused_file_descriptors
    jsh_tyy.Parse.Build.close_unused_file_descriptors_helper parse_command_call
    jsh_tyy.Parse.Call.arguments jsh_tyy.Parse.Symbols.find_end is_symbol
    jsh_tyy.Parse.Call.parse_command_substitution jsh_tyy.Parse.Call.parse_error_near
    jsh_tyy.Parse.Symbols.remove_extra_pipes jsh_tyy.Parse.Call.symbol
    jsh_tyy.Parse.Call.update_dependencies jsh_tyy.Parse.Redirect.parse_redirections
    jsh_tyy.Parse.Redirect.redirection jsh_tyy.Parse.add_call_at_the_beginning
    jsh_tyy.Parse.add_call_at_the_end jsh_tyy.Parse.add_pipe jsh_tyy.Parse.allocate
    jsh_tyy.Parse.build_command jsh_tyy.Parse.close_all jsh_tyy.Parse.complain
    jsh_tyy.Parse.drop_builder jsh_tyy.Parse.link_pipelines jsh_tyy.Parse.new_command_call_builder
    jsh_tyy.Parse.perror jsh_tyy.Text.Iterator.filled jsh_tyy.Text.Iterator.split_from
    jsh_tyy.Text.Iterator.split_string jsh_tyy.Text.Iterator.tokens_of jsh_tyy.Text.Number.digits
    jsh_tyy.Text.Number.show_int jsh_tyy.Text.Number.show_nat jsh_tyy.Text.Trim.trim_spaces
    jsh_tyy.Text.contains_string jsh_tyy.Text.join_loop join_strings jsh_tyy.Text.str_eq
line_calls = refl

parse_read_line-ne_none_example : parse_read_line recorder start line ≢ none
parse_read_line-ne_none_example = parse_read_line-ne_none recorder start line

abbrev redirected_line : Bytes
redirected_line = codes "a < f | b & c"

no_substitutions : All WithoutSubstitution (words redirected_line (codes "&"))
unfolding words starts_with str_eq
no_substitutions = ((refl, (refl, (refl, (refl, (refl, tt))))), ((refl, tt), tt))

parse_read_line-returns_example :
    (r : ReadLine Record) × (parse_read_line recorder start redirected_line ≡ some (some r))
parse_read_line-returns_example =
    parse_read_line-returns recorder start redirected_line no_substitutions

abbrev listing : CommandCall
listing = record {
  name = codes "ls";
  argv = codes "ls" ∷ [];
  command_string = codes "ls";
  reading_pipes = [];
  writing_pipes = [];
  stdin = pos 0;
  stdout = pos 1;
  stderr = pos 2;
}

abbrev listing_command : Command
listing_command = record {
  command_string = codes "ls";
  command_calls = listing ∷ [];
  background = true;
  open_pipes = [];
}

abbrev listing_read : ReadLine Record
listing_read = record {
  commands = some (listing_command ∷ []);
  total_commands = 1;
  last_exit_code = none;
  parser = record start { heap = listing ∷ []; calls = 0 ∷ [] };
}

reads_listing : parse_read_line recorder start (codes "ls&") ≡ some (some listing_read)
unfolding parse_read_line jsh_tyy.Text.starts_with jsh_tyy.Parse.Line.read_split
    jsh_tyy.Text.Iterator.split_string_keep_trace jsh_tyy.Text.Iterator.new_string_iterator
    jsh_tyy.Text.Iterator.get_number_of_words_left jsh_tyy.Text.Iterator.count_loop
    jsh_tyy.Text.Iterator.fill_loop jsh_tyy.Text.Iterator.has_next_word
    jsh_tyy.Text.Iterator.trim_start jsh_tyy.Text.Iterator.trim_loop jsh_tyy.Text.Iterator.store
    jsh_tyy.Text.Iterator.next_word jsh_tyy.Text.Iterator.word_size jsh_tyy.Parse.Call.not_null
    parse_command jsh_tyy.Command.new_empty_command jsh_tyy.Text.is_only_composed_of
    jsh_tyy.Command.new_command_call jsh_tyy.FdSet.above_two jsh_tyy.FdSet.add_all
    jsh_tyy.FdSet.add_set jsh_tyy.FdSet.close_unused_file_descriptors_from_array
    jsh_tyy.FdSet.contains jsh_tyy.FdSet.contains2 jsh_tyy.Parse.Build.abandon
    jsh_tyy.Parse.Build.close_unused_file_descriptors
    jsh_tyy.Parse.Build.close_unused_file_descriptors_helper parse_command_call
    jsh_tyy.Parse.Call.arguments jsh_tyy.Parse.Symbols.find_end is_symbol
    jsh_tyy.Parse.Call.parse_command_substitution jsh_tyy.Parse.Call.parse_error_near
    jsh_tyy.Parse.Symbols.remove_extra_pipes jsh_tyy.Parse.Call.symbol
    jsh_tyy.Parse.Call.update_dependencies jsh_tyy.Parse.Redirect.parse_redirections
    jsh_tyy.Parse.Redirect.redirection jsh_tyy.Parse.add_call_at_the_beginning
    jsh_tyy.Parse.add_call_at_the_end jsh_tyy.Parse.add_pipe jsh_tyy.Parse.allocate
    jsh_tyy.Parse.build_command jsh_tyy.Parse.close_all jsh_tyy.Parse.complain
    jsh_tyy.Parse.drop_builder jsh_tyy.Parse.link_pipelines jsh_tyy.Parse.new_command_call_builder
    jsh_tyy.Parse.perror jsh_tyy.Text.Iterator.filled jsh_tyy.Text.Iterator.split_from
    jsh_tyy.Text.Iterator.split_string jsh_tyy.Text.Iterator.tokens_of jsh_tyy.Text.Number.digits
    jsh_tyy.Text.Number.show_int jsh_tyy.Text.Number.show_nat jsh_tyy.Text.Trim.trim_spaces
    jsh_tyy.Text.contains_string jsh_tyy.Text.join_loop join_strings jsh_tyy.Text.str_eq
reads_listing = refl

parse_read_line-total_commands_example :
    (1 ≡ listing_read.total_commands)
    × ((listing_read.total_commands ≤ length (words (codes "ls&") (codes "&")))
        × (length (words (codes "ls&") (codes "&")) ≤ suc listing_read.total_commands))
parse_read_line-total_commands_example =
    parse_read_line-total_commands recorder start (codes "ls&") listing_read (listing_command ∷ [])
      reads_listing refl

parse_read_line-background_example :
    true ≡ (ltb 1 (length (words (codes "ls&") (codes "&"))) || ends_with 38 (codes "ls&"))
parse_read_line-background_example =
    parse_read_line-background recorder start 108 (codes "s&") listing_read (listing_command ∷ []) 0
      listing_command reads_listing refl refl

abbrev plain_words : List Bytes
plain_words = codes "ls" ∷ codes "a" ∷ []

plain_words-IsPlain : All IsPlain plain_words
unfolding is_symbol jsh_tyy.Text.contains_string jsh_tyy.Text.str_eq
plain_words-IsPlain = (
  (((λ e. cc), (omega arith, (omega arith, tt))), refl),
  ((((λ e. cc), (omega arith, tt)), refl), tt),
)

parse_command-plain_example :
    parse_command recorder start (join_strings plain_words (codes " "))
    ≡ built
        (some (record {
          command_string = join_strings plain_words (codes " ");
          command_calls = plain_call recorder plain_words ∷ [];
          background = false;
          open_pipes = [];
        }))
        (record start { heap = plain_call recorder plain_words ∷ []; calls = 0 ∷ [] })
parse_command-plain_example =
    parse_command-plain recorder start (codes "ls") (codes "a" ∷ []) plain_words-IsPlain

abbrev unset : List ℤ
unset = negsuc 0 ∷ negsuc 0 ∷ negsuc 0 ∷ []

appends :
    parse_redirections recorder unset (codes "2>>") (codes "log") []
    ≡ (some (negsuc 0 ∷ negsuc 0 ∷ pos 5 ∷ []), [])
unfolding parse_redirections jsh_tyy.Parse.Redirect.redirection jsh_tyy.Text.str_eq
appends = refl

parse_redirections-Redirected_example :
    Redirected recorder unset
      (codes "log")
      []
      (row_of symbols (codes "2>>"))
      (parse_redirections recorder unset (codes "2>>") (codes "log") [])
parse_redirections-Redirected_example =
    parse_redirections-Redirected recorder unset (codes "log") [] (codes "2>>")

parse_command-IsReset_example : IsReset (parse_command recorder start (codes "c <( d )"))
parse_command-IsReset_example = parse_command-IsReset recorder start (codes "c <( d )") refl
