-- ===== src/Options/Flags.antt =====
-- src/shell_options.c: `gsh_options_flags` stays within its buffer.
use gsh.Prelude.{
  ℕ, ◌+◌, ◌≤◌, List, [], ◌∷◌, ◌==◌, if◌then◌else◌, length, length-append, ascii, arith,
}
use gsh.Options.{
  ShellOptions, OptionDescriptor, descriptors, option_flag_cap, letter_flags, flags_at, flags_in,
  options_flags,
}

-- How many entries of the table have the letter.
lettered_count : ℕ → List OptionDescriptor → ℕ
lettered_count letter [] = 0
lettered_count letter (d ∷ table) =
    (if d.letter == letter then 1 else 0) + lettered_count letter table

-- The most that the letters of `order` can print.
printable : List ℕ → ℕ
printable [] = 0
printable (letter ∷ order) =
    (if letter == b'i' then 1 else 0) + lettered_count letter descriptors + printable order

letter_flags_bound :
    (o : ShellOptions) (letter : ℕ) (table : List OptionDescriptor)
    → length (letter_flags o letter table) ≤ lettered_count letter table
unfolding letter_flags lettered_count
letter_flags_bound o letter [] = omega arith
letter_flags_bound o letter (d ∷ table) = grind (arith, letter_flags_bound o letter table)

flags_at_bound :
    (o : ShellOptions) (letter : ℕ)
    → length (flags_at o letter)
      ≤ (if letter == b'i' then 1 else 0) + lettered_count letter descriptors
unfolding flags_at
flags_at_bound o letter = grind (arith, letter_flags_bound o letter descriptors)

flags_in_bound : (o : ShellOptions) (order : List ℕ) → length (flags_in o order) ≤ printable order
unfolding flags_in printable
flags_in_bound o [] = omega arith
flags_in_bound o (letter ∷ order) = omega (
  arith,
  length-append (flags_at o letter) (flags_in o order),
  flags_at_bound o letter,
  flags_in_bound o order,
)

-- Whatever the options are, the flags and their terminator fit the buffer.
pub options_flags_bound : (o : ShellOptions) → length (options_flags o) + 1 ≤ option_flag_cap
unfolding options_flags printable lettered_count
options_flags_bound o = omega (arith, flags_in_bound o (ascii "abCefhimnuvx"))
