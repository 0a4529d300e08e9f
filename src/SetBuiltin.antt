-- ===== src/SetBuiltin.antt =====
-- src/builtin_set.c: the `set` builtin on the options and the positional parameters. A word is the
-- list of its bytes. The listing of the variables is not modelled, and a listing is the bytes that
-- it hands to its output while that accepts them.
pub mod Atomic
pub mod Mutates
pub mod Command
pub mod Restore
mod Tests
use gsh.Prelude.{
  ℕ, zero, suc, Bool, true, false, ◌&&◌, ◌||◌, not, List, [], ◌∷◌, ◌++◌, Option, none, some, ◌==◌,
  if◌then◌else◌, drop, get_or, bytes_eq, ascii,
}
use gsh.Options.{
  ShellOptions, OptionDescriptor, descriptors, options_enabled, update_letter, update_name,
}
use gsh.Positionals.{PositionalStore, Outcome, done, failed, positionals_assign}

-- the result of `gsh_builtin_set`: what it lists, or the message with which it fails
pub data SetResult : Type 0 where
  finished lists_variables invalid_option invalid_option_name limit_exceeded : SetResult
  listed : List ℕ → SetResult

unfoldable pub option_line : ShellOptions → Bool → OptionDescriptor → List ℕ
option_line o reusable d =
    let enabled = options_enabled o d.bit in
    if reusable
    then (if enabled then ascii "set -o " else ascii "set +o ") ++ (d.name ++ ascii "\n")
    else d.name ++ (if enabled then ascii "\ton\n" else ascii "\toff\n")

unfoldable pub list_options : ShellOptions → Bool → List OptionDescriptor → List ℕ
unfolding option_line
list_options o reusable [] = []
list_options o reusable (d ∷ table) = option_line o reusable d ++ list_options o reusable table

unfoldable pub update_letters : ShellOptions → List ℕ → Bool → Option ShellOptions
update_letters o [] enable = some o
update_letters o (letter ∷ letters) enable =
    elim (if letter == b'o' then none else update_letter o letter enable) [
      | none ↦ none
      | some next ↦ update_letters next letters enable
    ]

-- What the loop does with a word, by the tests at its head.
pub data WordKind : Type 0 where
  end_of_options operand named lettered : WordKind

unfoldable pub kind_of : List ℕ → WordKind
kind_of argument =
    let first = get_or argument 0 0 in
    if bytes_eq argument (ascii "--")
    then end_of_options
    else if not (first == b'-') && not (first == b'+') || get_or argument 1 0 == 0
    then operand
    else if bytes_eq (drop 1 argument) (ascii "o")
    then named
    else lettered

-- What the loop leaves: the options, the words that replace the positional parameters, and `report`.
pub data Words : Type 0 where
  words : ShellOptions → Option (List (List ℕ)) → ℕ → Words
  invalid : SetResult → Words

abbrev pub enables : List ℕ → Bool
enables argument = get_or argument 0 0 == b'-'

abbrev pub report_of : List ℕ → ℕ
report_of argument = if enables argument then 1 else 2

unfoldable pub scan_words : List (List ℕ) → ShellOptions → ℕ → Words
unfolding kind_of update_letters
scan_words [] next report = words next none report
scan_words (argument ∷ []) next report = elim (kind_of argument) [
  | end_of_options ↦ words next (some []) report
  | operand ↦ words next (some (argument ∷ [])) report
  | named ↦ words next none (report_of argument)
  | lettered ↦ elim (update_letters next (drop 1 argument) (enables argument)) [
    | none ↦ invalid invalid_option
    | some after ↦ words after none report
  ]
]
scan_words (argument ∷ (name ∷ rest)) next report = elim (kind_of argument) [
  | end_of_options ↦ words next (some (name ∷ rest)) report
  | operand ↦ words next (some (argument ∷ (name ∷ rest))) report
  | named ↦ elim (bytes_eq name (ascii "--")) [
    | true ↦ scan_words (name ∷ rest) next (report_of argument)
    | false ↦ elim (update_name next name (enables argument)) [
      | none ↦ invalid invalid_option_name
      | some after ↦ scan_words rest after report
    ]
  ]
  | lettered ↦ elim (update_letters next (drop 1 argument) (enables argument)) [
    | none ↦ invalid invalid_option
    | some after ↦ scan_words (name ∷ rest) after report
  ]
]

pub record SetState : Type 0 where
  pub options : ShellOptions
  pub positionals : PositionalStore

abbrev pub report_on : ShellOptions → ℕ → SetResult
report_on o report =
    if report == 0 then finished else listed (list_options o (report == 2) descriptors)

-- the last lines of `gsh_builtin_set`, behind the assignment of the positional parameters
unfoldable pub finish_set :
    SetState → ShellOptions → ℕ → PositionalStore × Outcome → SetState × SetResult
unfolding list_options
finish_set s next report (positionals, done) =
    (record { options = next; positionals = positionals }, report_on next report)
finish_set s next report (positionals, failed _) =
    (record s { positionals = positionals }, limit_exceeded)

unfoldable pub commit : SetState → Words → SetState × SetResult
unfolding finish_set
commit s (invalid message) = (s, message)
commit s (words next none report) = finish_set s next report (s.positionals, done)
commit s (words next (some values) report) =
    finish_set s next report (positionals_assign s.positionals values)

-- The words behind the builtin's name.
unfoldable pub builtin_set : List (List ℕ) → SetState → SetState × SetResult
unfolding commit scan_words
builtin_set [] s = (s, lists_variables)
builtin_set (argument ∷ arguments) s = commit s (scan_words (argument ∷ arguments) s.options 0)

-- `gsh_builtin_set_mutates_positionals`
unfoldable pub set_mutates_positionals : List (List ℕ) → Bool
unfolding kind_of
set_mutates_positionals [] = false
set_mutates_positionals (argument ∷ []) = elim (kind_of argument) [
  | end_of_options ↦ true
  | operand ↦ true
  | named ↦ false
  | lettered ↦ false
]
set_mutates_positionals (argument ∷ (name ∷ rest)) = elim (kind_of argument) [
  | end_of_options ↦ true
  | operand ↦ true
  | named ↦ elim (bytes_eq name (ascii "--")) [
    | true ↦ set_mutates_positionals (name ∷ rest)
    | false ↦ set_mutates_positionals rest
  ]
  | lettered ↦ set_mutates_positionals (name ∷ rest)
]
