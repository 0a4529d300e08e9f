-- ===== src/SetBuiltin/Tests.antt =====
-- src/builtin_set.c on concrete words.
use gsh.Prelude.{ℕ, true, List, [], ◌∷◌, ascii, ◌≡◌, refl}
use gsh.Positionals.{PositionalStore, positional_version}
use gsh.Options.{ShellOptions, descriptors, options_validate, update_letter, update_name, update}
use gsh.SetBuiltin.{set_mutates_positionals, SetState, listed, builtin_set, invalid_option_name}
use gsh.SetBuiltin.Atomic.{builtin_set_refused, builtin_set-valid}
use gsh.SetBuiltin.Mutates.{builtin_set-spares}
use gsh.SetBuiltin.Command.{script, replay}
use gsh.SetBuiltin.Restore.{Restores, replay-Restores}

abbrev no_parameters : PositionalStore
no_parameters = record {
  version = positional_version;
  count = 0;
  start = 0;
  text_used = 0;
  offsets = [];
  text = [];
}

abbrev options_of : ℕ → ShellOptions
options_of enabled = record {
  enabled = enabled;
  getopts_index = 1;
  getopts_offset = 1;
  getopts_optind_generation = 0;
}

abbrev at_start : SetState
at_start = record { options = options_of 0x40000000; positionals = no_parameters }

-- `set -e -o pipefial x`: the first option is dropped with the rest.
abbrev misspelled : List (List ℕ)
misspelled = ascii "-e" ∷ ascii "-o" ∷ ascii "pipefial" ∷ ascii "x" ∷ []

misspelled_result : (builtin_set misspelled at_start).1 ≡ invalid_option_name
unfolding builtin_set update_letter update_name update
misspelled_result = refl

builtin_set_refused_example : (builtin_set misspelled at_start).0 ≡ at_start
unfolding builtin_set update_letter update_name update
builtin_set_refused_example = builtin_set_refused misspelled at_start refl

builtin_set-valid_example :
    options_validate (builtin_set (ascii "-eu" ∷ ascii "+C" ∷ []) at_start).0.options ≡ true
unfolding options_validate
builtin_set-valid_example = builtin_set-valid (ascii "-eu" ∷ ascii "+C" ∷ []) at_start refl

set_eu : (builtin_set (ascii "-eu" ∷ []) at_start).0.options.enabled ≡ 0x40001008
unfolding builtin_set update_letter update_name update
set_eu = refl

abbrev listed_from : SetState
listed_from = record { options = options_of 0x1008; positionals = no_parameters }

replay-Restores_example :
    (builtin_set (ascii "+o" ∷ []) listed_from
      ≡ (listed_from, listed (script (options_of 0x1008) descriptors)))
    × Restores (options_of 0x1008) at_start (replay (options_of 0x1008) descriptors at_start)
replay-Restores_example = replay-Restores listed_from at_start

builtin_set-spares_example :
    (builtin_set (ascii "-o" ∷ ascii "pipefail" ∷ ascii "+x" ∷ []) at_start).0.positionals
    ≡ no_parameters
unfolding set_mutates_positionals
builtin_set-spares_example =
    builtin_set-spares (ascii "-o" ∷ ascii "pipefail" ∷ ascii "+x" ∷ []) at_start refl
