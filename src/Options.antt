-- ===== src/Options.antt =====
-- src/shell_options.c and src/shell_options.h: the options of the shell as bits of one word. A name
-- is the list of its bytes; pointers are not null.
pub mod Update
pub mod Table
pub mod Answers
pub mod Flags
mod Tests
use gsh.Prelude.{
  ℕ, zero, suc, ◌+◌, ◌-◌, ◌^◌, Bool, true, false, ◌&&◌, ◌||◌, not, List, [], ◌∷◌, ◌++◌, Option,
  none, some, ltb, leb, ◌==◌, if◌then◌else◌, length, bytes_eq, ascii,
}
use gsh.Prelude.Bits.{bit_and, bit_or, complement}
use mathlib.Core.List.{foldl}
use gsh.Positionals.{positional_cap, positional_text_cap}

abbrev pub option_flag_cap : ℕ
option_flag_cap = 16

abbrev pub noclobber : ℕ
noclobber = 2 ^ 0

abbrev pub noglob : ℕ
noglob = 2 ^ 1

abbrev pub allexport : ℕ
allexport = 2 ^ 2

abbrev pub nounset : ℕ
nounset = 2 ^ 3

abbrev pub pipefail : ℕ
pipefail = 2 ^ 4

abbrev pub hashall : ℕ
hashall = 2 ^ 5

abbrev pub noexec : ℕ
noexec = 2 ^ 6

abbrev pub nolog : ℕ
nolog = 2 ^ 7

abbrev pub ignoreeof : ℕ
ignoreeof = 2 ^ 8

abbrev pub notify : ℕ
notify = 2 ^ 9

abbrev pub verbose : ℕ
verbose = 2 ^ 10

abbrev pub xtrace : ℕ
xtrace = 2 ^ 11

abbrev pub errexit : ℕ
errexit = 2 ^ 12

abbrev pub interactive : ℕ
interactive = 2 ^ 30

pub record ShellOptions : Type 0 where
  pub enabled : ℕ
  pub getopts_index : ℕ
  pub getopts_offset : ℕ
  pub getopts_optind_generation : ℕ

pub record OptionDescriptor : Type 0 where
  pub name : List ℕ
  pub bit : ℕ
  pub letter : ℕ

abbrev descriptor : List ℕ → ℕ → ℕ → OptionDescriptor
descriptor name bit letter = record { name = name; bit = bit; letter = letter }

abbrev pub descriptors : List OptionDescriptor
descriptors =
    descriptor (ascii "allexport") allexport b'a'
    ∷ descriptor (ascii "errexit") errexit b'e'
    ∷ descriptor (ascii "hashall") hashall b'h'
    ∷ descriptor (ascii "ignoreeof") ignoreeof 0
    ∷ descriptor (ascii "noclobber") noclobber b'C'
    ∷ descriptor (ascii "noexec") noexec b'n'
    ∷ descriptor (ascii "noglob") noglob b'f'
    ∷ descriptor (ascii "nolog") nolog 0
    ∷ descriptor (ascii "notify") notify b'b'
    ∷ descriptor (ascii "nounset") nounset b'u'
    ∷ descriptor (ascii "pipefail") pipefail 0
    ∷ descriptor (ascii "verbose") verbose b'v'
    ∷ descriptor (ascii "xtrace") xtrace b'x'
    ∷ []

unfoldable pub options_initialize : Bool → ShellOptions
options_initialize is_interactive = record {
  enabled = if is_interactive then interactive else 0;
  getopts_index = 1;
  getopts_offset = 1;
  getopts_optind_generation = 0;
}

unfoldable pub options_enabled : ShellOptions → ℕ → Bool
options_enabled o option = not (bit_and o.enabled option == 0)

-- the bits of `known` in `gsh_options_validate`
abbrev pub known_options : List ℕ
known_options =
    noglob ∷ allexport ∷ nounset ∷ pipefail ∷ hashall ∷ noexec ∷ nolog ∷ ignoreeof ∷ notify
    ∷ verbose ∷ xtrace ∷ errexit ∷ interactive ∷ []

abbrev pub known : ℕ
known = foldl bit_or noclobber known_options

unfoldable pub options_validate : ShellOptions → Bool
options_validate o =
    bit_and o.enabled (complement 32 known) == 0
    && leb 1 o.getopts_index
    && leb o.getopts_index (positional_cap + 1)
    && leb 1 o.getopts_offset
    && leb o.getopts_offset positional_text_cap

unfoldable pub update : ShellOptions → OptionDescriptor → Bool → ShellOptions
update o d enable =
    if enable
    then record o { enabled = bit_or o.enabled d.bit }
    else record o { enabled = bit_and o.enabled (complement 32 d.bit) }

-- The loops of the two functions below: `update` at the first entry that fits, and `none` is
-- `EINVAL`.
unfoldable pub update_first :
    (OptionDescriptor → Bool) → List OptionDescriptor → ShellOptions → Bool → Option ShellOptions
update_first fits [] o enable = none
update_first fits (d ∷ table) o enable =
    if fits d then some (update o d enable) else update_first fits table o enable

unfoldable pub update_letter : ShellOptions → ℕ → Bool → Option ShellOptions
unfolding update_first
update_letter o letter enable = update_first (λ d. d.letter == letter) descriptors o enable

unfoldable pub update_name : ShellOptions → List ℕ → Bool → Option ShellOptions
unfolding update_first
update_name o name enable = update_first (λ d. bytes_eq d.name name) descriptors o enable

-- the inner loop of `gsh_options_flags`
unfoldable pub letter_flags : ShellOptions → ℕ → List OptionDescriptor → List ℕ
unfolding options_enabled
letter_flags o letter [] = []
letter_flags o letter (d ∷ table) =
    let rest = letter_flags o letter table in
    if d.letter == letter && options_enabled o d.bit then letter ∷ rest else rest

-- one round of the outer loop
unfoldable pub flags_at : ShellOptions → ℕ → List ℕ
unfolding letter_flags
flags_at o letter =
    let named = letter_flags o letter descriptors in
    if letter == b'i' && options_enabled o interactive then b'i' ∷ named else named

unfoldable pub flags_in : ShellOptions → List ℕ → List ℕ
unfolding flags_at
flags_in o [] = []
flags_in o (letter ∷ order) = flags_at o letter ++ flags_in o order

-- The bytes before the terminator.
unfoldable pub options_flags : ShellOptions → List ℕ
unfolding flags_in
options_flags o = flags_in o (ascii "abCefhimnuvx")
