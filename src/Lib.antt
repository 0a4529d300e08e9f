-- ===== src/Lib.antt =====
-- gsh, a POSIX shell: its scanner and its bounded stores.
--
-- The program reads shell source through an incremental scanner (src/posix_lexer.c), which the
-- recursive-descent parser drives one token at a time, and keeps its state in stores of fixed size:
-- the command history (src/history_store.c), the positional parameters
-- (src/positional_parameters.c) and the options (src/shell_options.c) are three, the table of background jobs (src/background_jobs.c) is the fourth; the builtins `shift`
-- and `set` change the last two. Nothing here allocates; every function works on the store that it is
-- given, and refuses what does not fit.
--
-- Lexer models src/posix_lexer.c. `Lexer` is `gsh_lexer`, with the input as a list of bytes and `size`
-- for its length; `lexer_next` is `gsh_lexer_next` and returns the new lexer, the token and the status.
-- `Lexer/Word` is `scan_word` with the context stack as a list, its top first; `Lexer/Next` the entry
-- points. The loop of `scan_word` takes fuel, one round for each byte and one more; `lexer_next` is
-- `none` when it runs out, and the fuel is enough because every round that goes on reads a byte. The
-- loop over trivia has the bound of the code. Additions of `size_t` wrap; a valid lexer's input is
-- shorter than SIZE_MAX, so that its line counter cannot wrap.
--
-- History models src/history_store.c. `HistoryStore` is `gsh_history_store`; a pointer into a slot with
-- its length is the bytes of the slot and the length. `History/Log` is the abstract history, a list
-- of commands and a number, to which the ring is compared.
--
-- Positionals models src/positional_parameters.c and src/builtin_shift.c. `PositionalStore` is
-- `gsh_positional_store`, its two arrays as lists; a string argument is the list of its bytes before
-- the terminator, and the arguments of an assignment do not lie in the store itself. The casts to 16
-- and 32 bits are written out. An operand of the builtin is read into a wrapping `size_t`.
--
-- Options models src/shell_options.c: `ShellOptions` is `gsh_shell_options`, the options are bits of
-- one 32-bit word, and the table is `descriptors`. `Prelude/Bits` has what `|`, `&` and `~` do to each
-- bit. `none` is -1 with EINVAL.
--
-- SetBuiltin models src/builtin_set.c: the words of `set` are scanned into the next options and the
-- words that replace the positional parameters, which are then committed. A listing is the bytes that
-- it hands to its output while that accepts them. The listing of the variables is not modelled.
--
-- Jobs models src/background_jobs.c: `BackgroundTable` is `gsh_background_table`, with the entries as a
-- list of the 128 that the header declares and an entry as its index; what a function does to one entry
-- is a function on `Entry`. A wait status is a number which only the macros of <sys/wait.h> read; they
-- are the record `WaitMacros`, a parameter, of which `IsWaitMacros` says that a process that has ended
-- is neither stopped nor continued. A `pid_t` is a natural number. `Jobs/Reachable` has the operations
-- as steps between tables, of which a report is only of a process that has not ended. The shell in
-- gsh.c, which makes these calls, is not modelled. `strtoul` and `strstr` are written out in
-- `Jobs/Specs`.
--
-- Umask models src/builtin_umask.c: the two parsers of an operand, the two forms of the mask that it
-- prints and the builtin on its arguments, `Umask/Command`. The mask in force is an argument and a
-- result of `builtin_umask`. The loop over the operations of a clause takes fuel, one round for each
-- byte, which is enough because each round that goes on reads a byte; the loop over clauses has the
-- bound of the code. `snprintf` with `%04o` is written out.
--
-- Json models src/llm_json.c: the bounded writer and the reader of single members. `JsonWriter` is the
-- bytes that were written with the capacity of the memory and the flag; the reader's index into the text
-- is the rest of the text. The loops over the text take fuel, one round for each byte, which is enough
-- because every round reads a byte.
--
-- Invocation models src/shell_invocation.c: the arguments of the shell itself, parsed into the options of
-- the module Options and the mode. `Parsing` is what the parsers share: the options, the flags and the
-- index. The loops have the bounds of the code.
--
-- Not modelled: the guards against null pointers, `errno` but where a function returns -1 with it,
-- the table of token names, and all other files of the repository, which are listed with reasons
-- beside this library.
pub mod Prelude
pub mod Lexer
pub mod History
pub mod Positionals
pub mod Options
pub mod SetBuiltin
pub mod Jobs
pub mod Umask
pub mod Json
pub mod Invocation
