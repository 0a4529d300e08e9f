-- ===== src/SetBuiltin/Command.antt =====
-- src/builtin_set.c: the listing of `set +o` as commands, and what one command does.
use gsh.Prelude.{
  ℕ, Bool, true, false, ◌&&◌, ◌||◌, not, List, [], ◌∷◌, ◌++◌, none, some, Option-cases, Bool-cases,
  ◌≡◌, refl, sym, ap, inl, inr, bytes_eq, ascii, if◌then◌else◌, All, all, all-All,
}
use mathlib.Core.Path.{subst}
use gsh.Options.{
  ShellOptions, OptionDescriptor, descriptors, interactive, options_enabled, update_name,
}
use gsh.Options.Answers.{Answers, update_name-Answers}
use gsh.SetBuiltin.{words, option_line, list_options, scan_words, SetState, commit, builtin_set}

-- Words with a blank between them, as a line.
abbrev pub spell : List (List ℕ) → List ℕ
spell [] = ascii "\n"
spell (word ∷ []) = word ++ ascii "\n"
spell (word ∷ (next ∷ rest)) = word ++ (ascii " " ++ spell (next ∷ rest))

-- The words behind `set` in the line of one option.
abbrev pub command_of : ShellOptions → OptionDescriptor → List (List ℕ)
command_of o d = (if options_enabled o d.bit then ascii "-o" else ascii "+o") ∷ (d.name ∷ [])

abbrev pub script : ShellOptions → List OptionDescriptor → List ℕ
script o [] = []
script o (d ∷ table) = spell (ascii "set" ∷ command_of o d) ++ script o table

option_line-spell :
    (o : ShellOptions) (d : OptionDescriptor)
    → option_line o true d ≡ spell (ascii "set" ∷ command_of o d)
unfolding option_line
option_line-spell o d = elim (Bool-cases (options_enabled o d.bit)) [
  | inl e ↦ rw e refl
  | inr e ↦ rw e refl
]

pub list_options-script :
    (o : ShellOptions) (table : List OptionDescriptor) → list_options o true table ≡ script o table
unfolding list_options
list_options-script o [] = refl
list_options-script o (d ∷ table) = rw (option_line-spell o d, list_options-script o table) refl

-- The commands of the listing, one after the other.
abbrev pub replay : ShellOptions → List OptionDescriptor → SetState → SetState
replay o [] s = s
replay o (d ∷ table) s = replay o table (builtin_set (command_of o d) s).0

-- One command sets the options with its name to what `o` has.
pub record Stepped (o : ShellOptions) (d : OptionDescriptor) (s after : SetState) : Type 0 where
  pub options :
      All
        (λ e. options_enabled after.options e.bit ≡ (
          if bytes_eq e.name d.name
          then options_enabled o d.bit
          else options_enabled s.options e.bit))
        descriptors
  pub interactive_kept :
      options_enabled after.options interactive ≡ options_enabled s.options interactive
  pub positionals_kept : after.positionals ≡ s.positionals

abbrev pub any_named : List ℕ → List OptionDescriptor → Bool
any_named name [] = false
any_named name (d ∷ table) = bytes_eq name d.name || any_named name table

abbrev pub is_listed : OptionDescriptor → Bool
is_listed d =
    not (bytes_eq d.name (ascii "--")) && not (all (λ e. not (bytes_eq e.name d.name)) descriptors)

pub descriptors_listed : All (λ d. is_listed d ≡ true) descriptors
descriptors_listed = all-All is_listed descriptors refl

none_named :
    (named : OptionDescriptor → Bool) (table : List OptionDescriptor)
    → All (λ e. named e ≡ false) table
    → all (λ e. not (named e)) table ≡ true
none_named named [] h = refl
none_named named (e ∷ table) h = rw (h.0, none_named named table h.1) refl

scan_option :
    (o : ShellOptions) (name : List ℕ) (on : Bool) (after : ShellOptions)
    → bytes_eq name (ascii "--") ≡ false
    → update_name o name on ≡ some after
    → scan_words ((if on then ascii "-o" else ascii "+o") ∷ (name ∷ [])) o 0 ≡ words after none 0
unfolding scan_words
scan_option o name true after other e = rw (scan_words, other, e) refl
scan_option o name false after other e = rw (scan_words, other, e) refl

set_option :
    (s : SetState) (name : List ℕ) (on : Bool) (after : ShellOptions)
    → bytes_eq name (ascii "--") ≡ false
    → update_name s.options name on ≡ some after
    → (builtin_set ((if on then ascii "-o" else ascii "+o") ∷ (name ∷ [])) s).0
      ≡ record s { options = after }
unfolding builtin_set commit
set_option s name on after other e =
    ap (λ w. (commit s w).0) (scan_option s.options name on after other e)

abbrev same_name : OptionDescriptor → OptionDescriptor → Bool
same_name d e = bytes_eq e.name d.name

contradiction : {b : Bool} → b ≡ true → b ≡ false → ⊥
contradiction p q = cc

neither : (a b : Bool) → not a && not b ≡ true → (a ≡ false) × (b ≡ false)
neither true b h = absurd (cc)
neither false true h = absurd (cc)
neither false false h = (refl, refl)

pub command_step :
    (o : ShellOptions) (d : OptionDescriptor) (s : SetState)
    → is_listed d ≡ true
    → Stepped o d s (builtin_set (command_of o d) s).0
command_step o d s listed =
    let facts =
      neither (bytes_eq d.name (ascii "--")) (all (λ e. not (same_name d e)) descriptors) listed in
    elim (Option-cases (update_name s.options d.name (options_enabled o d.bit))) [
      | inl e ↦
          let missing : Answers s.options (same_name d) (options_enabled o d.bit) none =
            subst (Answers s.options (same_name d) (options_enabled o d.bit)) e
              (update_name-Answers s.options d.name (options_enabled o d.bit)) in
          absurd (contradiction (none_named (same_name d) descriptors missing) facts.1)
      | inr (after, e) ↦
          let u : Answers s.options (same_name d) (options_enabled o d.bit) (some after) =
            subst (Answers s.options (same_name d) (options_enabled o d.bit)) e
              (update_name-Answers s.options d.name (options_enabled o d.bit)) in
          let other : bytes_eq d.name (ascii "--") ≡ false = facts.0 in
          subst (Stepped o d s) (sym (set_option s d.name (options_enabled o d.bit) after other e))
            (record {
              options = u.options;
              interactive_kept = u.interactive_kept;
              positionals_kept = refl;
            })
    ]
