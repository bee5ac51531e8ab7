-- ===== src/Lib.antt =====
-- jsh, a shell with job control: its parser, its job table, its internal commands and its loop.
--
-- A line that the user types is cut at the signs & and parsed into commands, each a pipeline with
-- redirections and command substitutions. A command runs as a job: a process group of subjobs, kept
-- in the job table until `waitpid` has reported that all of them ended. The internal commands read
-- and change the table, send signals, change the directory and tell the shell to exit.
--
-- The files, and the code that each is about (paths from the repository's root):
--   Base      native numbers, Boolean tests, integers, lists and texts as bytes
--   System    the calls of the C library and the kernel that the shell makes, as a record of
--             operations `Os W` over a state `W` of the world outside; System/Recorder is one in
--             which every call succeeds. System/Terminal says what the kernel does to the group that
--             holds the terminal, System/Descriptors what it does to the descriptors of the shell
--             and System/Streams what it does to those of a child; System/Console, System/Files and
--             System/Copies are systems of which that is true
--   Text      src/string_utils.c. Text/Iterator has the iterator and the two splitting functions
--             statement by statement, Text/Words a description of the words of a string in one
--             pass; Text/Split, Text/Fill and Text/Spec compare them. Text/Tokens and Text/Joined
--             are about joining, Text/Trim and Text/Blank about `trim_spaces`, Text/Trunc about
--             `trunc_start`, Text/Number and Text/Decimal about `parse_intmax_t`
--   FdSet     src/utils.c, the sets of descriptors
--   Command   src/command.h and the constructors of src/command.c
--   Parse     src/command.c, the parser. `Parser` is its state: the world, the calls allocated so
--             far (a `command_call *` is an index), the two global variables and the command that is
--             being built. Parse/Redirect has `parse_redirections`, Parse/Symbols the
--             symbols and the end of a substitution, Parse/Call the loop over the arguments and
--             `parse_command_substitution`, Parse/Build `parse_command_call`, Parse/Line
--             `parse_command` and `parse_read_line`, of which Parse/Line/Defined says on which lines
--             it returns. Parse/Pipeline describes the calls and the
--             pipes of a pipeline, and compares them with what the parser builds;
--             Parse/Pipeline/Stale and the modules called Clean are about the global variable of
--             substitutions
--   Jobs      src/jobs.c. Jobs/Table has the table, Jobs/Status the status of a job, Jobs/Wait the
--             two waits and the update of the table, Jobs/Control `get_job`, fg and bg
--   Shell     src/internals.h, the state of the shell, and src/exit.c, src/cd.c, src/kill.c,
--             src/fg.c, src/bg.c, src/pwd.c and src/last_exit_code_command.c; Shell/Internal
--             chooses among them. Shell/Kill/Foreground is about fg and the terminal
--   Proc      src/proc.c, the children of a process. What `open` and `read` return is an argument; so
--             is the number of calls of `print_children` within each other that the stack has room
--             for, beyond which the behaviour is undefined
--   Prompt    src/prompt.c, `get_prompt_string`
--   Run       src/internals.c, the execution of commands as the shell sees it, with Jobs/Listing for
--             `jobs` and Jobs/Listing/Tree for its trees of processes. Run/Launch is about the
--             subjobs that are started, Run/Results says what a command can return, Run/Foreground
--             when it returns what, Run/Suspended is
--             about one that is stopped, Run/Terminal about the terminal then and
--             Run/Descriptors about the descriptors of the shell.
--             Run/Child is what a child does before it runs its program, with src/signals.c, and
--             Run/Child/Streams is about the descriptors that the program gets;
--             Run/Loop is the loop of src/prompt.c, Run/End its end and Run/Main src/jsh.c
--
-- A C string is the list of its bytes without the NUL. A pointer that may be NULL is an `Option`. A
-- read or a write outside of a buffer is `none`, or a constructor of its own. A formatted message is
-- the text that is printed. `malloc` is taken to succeed, and `free` does nothing that shows, as long
-- as it is called on memory that has been allocated. Where the program frees a constant, reads what
-- it has freed or leaves a buffer, the behaviour is undefined, and the model ends there with a value
-- that says so: `none` or a constructor called `undefined`. What `%s` prints for NULL is a field of
-- `Os`, `null_string`; a C library that does not define it is `none`.
--
-- Loops over a string take its length as fuel, and one more. `parse_command_call` calls itself on
-- strings of fewer words than its own, so that `parse_command` gives it one more than the length of
-- its string; a recursion that the fuel did not reach would be `lost`.
--
-- Not modelled: the history of readline; the freeing of memory; what a program does after `execvp`;
-- src/cinta, a library of another project for the tests. The main loop runs on a given list of lines.
pub mod Base
pub mod System
pub mod Text
pub mod FdSet
pub mod Command
pub mod Parse
pub mod Jobs
pub mod Shell
pub mod Proc
pub mod Prompt
pub mod Run
