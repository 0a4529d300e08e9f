-- ===== src/Options/Tests.antt =====
-- src/shell_options.c on concrete options.
use gsh.Prelude.{◌+◌, ◌≤◌, true, ◌==◌, bytes_eq, length, ascii, ◌≡◌, refl}
use gsh.Options.{
  ShellOptions, option_flag_cap, options_initialize, options_flags, update_name, update_letter,
}
use gsh.Options.Answers.{Answers, update_name-Answers, update_letter-Answers}
use gsh.Options.Flags.{options_flags_bound}

abbrev fresh : ShellOptions
unfolding options_initialize
fresh = options_initialize true

update_name-Answers_example :
    Answers fresh
      (λ d. bytes_eq d.name (ascii "pipefail"))
      true
      (update_name fresh (ascii "pipefail") true)
update_name-Answers_example = update_name-Answers fresh (ascii "pipefail") true

update_letter-Answers_example :
    Answers fresh (λ d. d.letter == b'C') true (update_letter fresh b'C' true)
update_letter-Answers_example = update_letter-Answers fresh b'C' true refl

abbrev busy : ShellOptions
busy = record {
  enabled = 0x40001FFF;
  getopts_index = 1;
  getopts_offset = 1;
  getopts_optind_generation = 0;
}

options_flags_bound_example : length (options_flags busy) + 1 ≤ option_flag_cap
options_flags_bound_example = options_flags_bound busy

busy_flags : options_flags busy ≡ ascii "abCefhinuvx"
unfolding options_flags
busy_flags = refl
