-- ===== src/Invocation.antt =====
-- src/shell_invocation.c: the arguments of the shell itself. `argc` is the length of the list, and an
-- argument is the list of its bytes before the terminator; no entry of `argv` is null.
pub mod Parsers
pub mod Within
mod Tests
use gsh.Prelude.{
  ℕ, zero, suc, ◌+◌, ◌-◌, Bool, true, false, ◌&&◌, ◌||◌, not, List, [], ◌∷◌, Option, none, some,
  ◌⊎◌, inl, inr, ltb, leb, ◌==◌, if◌then◌else◌, length, get_or, bytes_eq, ascii, Errno, einval,
  e2big,
}
use gsh.Options.{ShellOptions, option_flag_cap, options_initialize, update_letter, update_name}

abbrev pub argument_cap : ℕ
argument_cap = 256

pub data InvocationMode : Type 0 where
  interactive_mode command_mode file_mode stdin_mode : InvocationMode

pub record Invocation : Type 0 where
  pub options : ShellOptions
  pub mode : InvocationMode
  pub source_index : ℕ
  pub parameter_zero_index : ℕ
  pub positional_index : ℕ

-- the options, `invocation_flags` and the index that the parsers work on
pub record Parsing : Type 0 where
  pub options : ShellOptions
  pub command : Bool
  pub standard_input : Bool
  pub index : ℕ

abbrev pub with_options : Parsing → Option ShellOptions → Parsing ⊎ Errno
with_options s none = inr einval
with_options s (some options) = inl (record s { options = options })

unfoldable pub apply_named_option : Parsing → Bool → List ℕ → Parsing ⊎ Errno
apply_named_option s enabled name =
    if length name == 0 then inr einval else with_options s (update_name s.options name enabled)

unfoldable pub apply_short_option : Parsing → ℕ → Bool → Parsing ⊎ Errno
apply_short_option s option enabled =
    if (option == b'c' || option == b's') && not enabled
    then inr einval
    else if option == b'c'
    then inl (record s { command = true })
    else if option == b's'
    then inl (record s { standard_input = true })
    else with_options s (update_letter s.options option enabled)

-- `-o`: the name is what is left of the word, or the next argument, without which there is none.
unfoldable pub apply_rest : List (List ℕ) → Parsing → Bool → List ℕ → Parsing ⊎ Errno
unfolding apply_named_option
apply_rest args s enabled [] =
    let s' = record s { index = s.index + 1 } in
    if ltb s'.index (length args)
    then apply_named_option s' enabled (get_or args s'.index [])
    else inr einval
apply_rest args s enabled (byte ∷ bytes) = apply_named_option s enabled (byte ∷ bytes)

-- The loop over the letters of a word, with the rounds that are left.
unfoldable pub parse_letters : ℕ → List (List ℕ) → Bool → Parsing ⊎ Errno → List ℕ → Parsing ⊎ Errno
unfolding apply_rest apply_short_option
parse_letters rounds args enabled (inr e) word = inr e
parse_letters rounds args enabled (inl s) [] = inl s
parse_letters zero args enabled (inl s) (byte ∷ bytes) = inr e2big
parse_letters (suc rounds) args enabled (inl s) (byte ∷ bytes) =
    let rest = parse_letters rounds args enabled (apply_short_option s byte enabled) bytes in
    if byte == b'o' then apply_rest args s enabled bytes else rest

unfoldable pub parse_option_word : List (List ℕ) → Parsing → Parsing ⊎ Errno
unfolding parse_letters
parse_option_word args s = elim (get_or args s.index []) [
  | [] ↦ inl s
  | byte ∷ bytes ↦ parse_letters (option_flag_cap - 1) args (byte == b'-') (inl s) bytes
]

-- Whether the loop over the arguments goes on.
pub data Round : Type 0 where
  halted continues : Parsing → Round
  refused : Errno → Round

abbrev pub step_index : Parsing → Parsing
step_index s = record s { index = s.index + 1 }

abbrev pub after_word : Parsing ⊎ Errno → Round
after_word (inr e) = refused e
after_word (inl s) = if s.command then halted (step_index s) else continues (step_index s)

unfoldable pub parse_round : List (List ℕ) → Parsing → Round
unfolding parse_option_word
parse_round args s =
    let word = get_or args s.index [] in
    if leb (length args) s.index
    then halted s
    else if bytes_eq word (ascii "--")
    then halted (step_index s)
    else if bytes_eq word (ascii "-")
    then halted (record s { index = s.index + 1; standard_input = true })
    else if not (get_or word 0 0 == b'-') && not (get_or word 0 0 == b'+') || leb (length word) 1
    then halted s
    else after_word (parse_option_word args s)

-- The loop, with the rounds that are left, from what the round before it gave.
unfoldable pub parse_options : ℕ → List (List ℕ) → Round → Parsing ⊎ Errno
unfolding parse_round
parse_options rounds args (refused e) = inr e
parse_options rounds args (halted s) = inl s
parse_options zero args (continues s) = if ltb s.index (length args) then inr e2big else inl s
parse_options (suc rounds) args (continues s) = parse_options rounds args (parse_round args s)

abbrev pub index_or_end : List (List ℕ) → ℕ → ℕ
index_or_end args index = if ltb index (length args) then index else length args

unfoldable pub select_mode : List (List ℕ) → Bool → Parsing → Invocation
select_mode args stdin_is_tty s =
    let argc = length args in
    if s.command
    then record {
      options = s.options;
      mode = command_mode;
      source_index = s.index;
      parameter_zero_index = index_or_end args (s.index + 1);
      positional_index = index_or_end args (s.index + 2);
    }
    else if not s.standard_input && ltb s.index argc
    then record {
      options = s.options;
      mode = file_mode;
      source_index = s.index;
      parameter_zero_index = s.index;
      positional_index = s.index + 1;
    }
    else if not s.standard_input && s.index == argc && stdin_is_tty
    then record {
      options = s.options;
      mode = interactive_mode;
      source_index = s.index;
      parameter_zero_index = argc;
      positional_index = argc;
    }
    else record {
      options = s.options;
      mode = stdin_mode;
      source_index = s.index;
      parameter_zero_index = argc;
      positional_index = s.index;
    }

abbrev pub parsed_options : List (List ℕ) → Bool → Parsing ⊎ Errno → Invocation ⊎ Errno
parsed_options args stdin_is_tty (inr e) = inr e
parsed_options args stdin_is_tty (inl s) =
    if s.command && leb (length args) s.index
    then inr einval
    else inl (select_mode args stdin_is_tty s)

unfoldable pub invocation_parse : List (List ℕ) → Bool → Invocation ⊎ Errno
unfolding parse_options select_mode
invocation_parse args stdin_is_tty =
    if length args == 0
    then inr einval
    else if ltb argument_cap (length args)
    then inr e2big
    else parsed_options args stdin_is_tty (
        parse_options argument_cap args (
          continues (record {
            options = options_initialize false;
            command = false;
            standard_input = false;
            index = 1;
          })))
