-- ===== src/Options/Answers.antt =====
-- src/shell_options.c: what `gsh_options_update_letter` and `gsh_options_update_name` do to every
-- option, and that they keep a valid store valid.
use gsh.Prelude.{
  ℕ, Bool, true, false, ◌||◌, List, [], ◌∷◌, Option, none, some, ◌==◌, ==_iff, Bool-cases, bytes_eq,
  bytes_eq_iff, if◌then◌else◌, ◌≡◌, refl, sym, ap, ◌∙◌, inl, inr, arith, All, any, All-map,
  All-map2,
}
use gsh.Prelude.Bits.{complement, bit_or-disjoint, bit_and-disjoint}
use gsh.Options.{
  ShellOptions, OptionDescriptor, descriptors, interactive, known, options_enabled,
  options_validate, update, update_first, update_letter, update_name, options_initialize,
}
use gsh.Options.Update.{enabled-update}
use gsh.Options.Table.{IsBit, IsEntry, descriptors-IsEntry}

-- The table has an entry that `named` selects; the options that it selects are `enable`, and all else
-- is as it was.
pub record Updates (o : ShellOptions) (named : OptionDescriptor → Bool) (enable : Bool)
    (after : ShellOptions) : Type 0 where
  pub in_table : any named descriptors ≡ true
  pub options :
      All
        (λ e. options_enabled after e.bit ≡ (if named e then enable else options_enabled o e.bit))
        descriptors
  pub interactive_kept : options_enabled after interactive ≡ options_enabled o interactive
  pub index_kept : after.getopts_index ≡ o.getopts_index
  pub offset_kept : after.getopts_offset ≡ o.getopts_offset
  pub generation_kept : after.getopts_optind_generation ≡ o.getopts_optind_generation

-- `none` when nothing is selected
abbrev pub Answers : ShellOptions → (OptionDescriptor → Bool) → Bool → Option ShellOptions → Type 0
Answers o named enable none = All (λ e. named e ≡ false) descriptors
Answers o named enable (some after) = Updates o named enable after

enabled-IsBit :
    (o : ShellOptions) (d : OptionDescriptor) (enable : Bool) (n : ℕ)
    → IsEntry d
    → IsBit n
    → options_enabled (update o d enable) n ≡ (if n == d.bit then enable else options_enabled o n)
enabled-IsBit o d enable n entry b =
    ap (options_enabled (update o d enable)) b.weight
    ∙ enabled-update o d enable entry.bit.place b.place entry.bit.weight entry.bit.below b.below
    ∙ ap (λ n. if n == d.bit then enable else options_enabled o n) (sym b.weight)

update-valid :
    (o : ShellOptions) (d : OptionDescriptor) (enable : Bool)
    → IsEntry d
    → options_validate o ≡ true
    → options_validate (update o d enable) ≡ true
unfolding options_validate update
update-valid o d true entry h =
    let kept = bit_or-disjoint o.enabled d.bit (complement 32 known) in
    ground (arith, kept, entry.is_known)
update-valid o d false entry h =
    let kept = bit_and-disjoint o.enabled (complement 32 d.bit) (complement 32 known) in
    ground (arith, kept)

getopts_kept :
    (o : ShellOptions) (d : OptionDescriptor) (enable : Bool)
    → ((update o d enable).getopts_index ≡ o.getopts_index)
      × ((update o d enable).getopts_offset ≡ o.getopts_offset)
      × ((update o d enable).getopts_optind_generation ≡ o.getopts_optind_generation)
unfolding update
getopts_kept o d true = (refl, refl, refl)
getopts_kept o d false = (refl, refl, refl)

interactive-IsBit : IsBit interactive
interactive-IsBit = record { place = 30; below = omega arith; weight = refl }

update-Updates :
    (o : ShellOptions) (named : OptionDescriptor → Bool) (enable : Bool) (d : OptionDescriptor)
    → IsEntry d
    → any named descriptors ≡ true
    → All (λ e. (e.bit == d.bit) ≡ named e) descriptors
    → Updates o named enable (update o d enable)
update-Updates o named enable d entry hit agree = record {
  in_table = hit;
  options =
      All-map2 {P = IsEntry} {Q = λ e. (e.bit == d.bit) ≡ named e}
        {R = λ e.
          options_enabled (update o d enable) e.bit
          ≡ (if named e then enable else options_enabled o e.bit)}
        descriptors
        (λ e (other : IsEntry e) same.
          enabled-IsBit o d enable e.bit entry other.bit
          ∙ ap (λ b. if b then enable else options_enabled o e.bit) same)
        descriptors-IsEntry agree;
  interactive_kept =
      enabled-IsBit o d enable interactive entry interactive-IsBit
      ∙ ap (λ b. if b then enable else options_enabled o interactive) entry.not_interactive;
  index_kept = (getopts_kept o d enable).0;
  offset_kept = (getopts_kept o d enable).1;
  generation_kept = (getopts_kept o d enable).2;
}

-- The loop over what is left of the table, when the entries before it do not fit.
update_first-Answers :
    (named : OptionDescriptor → Bool) (table : List OptionDescriptor) (o : ShellOptions)
    (enable : Bool)
    → All IsEntry table
    → All (λ d. named d ≡ true → All (λ e. (e.bit == d.bit) ≡ named e) descriptors) table
    → (All (λ e. named e ≡ false) table → All (λ e. named e ≡ false) descriptors)
    → (any named table ≡ true → any named descriptors ≡ true)
    → Answers o named enable (update_first named table o enable)
unfolding update_first
update_first-Answers named [] o enable entries agree gather found = gather tt
update_first-Answers named (d ∷ table) o enable entries agree gather found =
    elim (Bool-cases (named d)) [
      | inl hit ↦ rw hit (
          update-Updates o named enable d entries.0 (found (ap (λ b. b || any named table) hit))
            (agree.0 hit))
      | inr miss ↦ rw miss (
          update_first-Answers named table o enable entries.1 agree.1 (λ rest. gather (miss, rest))
            (λ behind. found (ap (λ b. b || any named table) miss ∙ behind)))
    ]

Agrees : (OptionDescriptor → Bool) → OptionDescriptor → Type 0
Agrees named d = named d ≡ true → All (λ e. (e.bit == d.bit) ≡ named e) descriptors

-- A name of the table makes its option `enable` and leaves every other one, the interactive flag and
-- the state of getopts as they are. Any other name is refused.
pub update_name-Answers :
    (o : ShellOptions) (name : List ℕ) (enable : Bool)
    → Answers o (λ d. bytes_eq d.name name) enable (update_name o name enable)
unfolding update_name Agrees
update_name-Answers o name enable =
    let agree : All (Agrees (λ d. bytes_eq d.name name)) descriptors =
      All-map {P = IsEntry} {Q = Agrees (λ d. bytes_eq d.name name)} descriptors
        (λ d entry hit.
          All-map {P = λ e. (e.bit == d.bit) ≡ bytes_eq e.name d.name}
            {Q = λ e. (e.bit == d.bit) ≡ bytes_eq e.name name} descriptors
            (λ e p. p ∙ ap (bytes_eq e.name) ((bytes_eq_iff d.name name).0 hit)) entry.by_name)
        descriptors-IsEntry in
    update_first-Answers (λ d. bytes_eq d.name name) descriptors o enable descriptors-IsEntry agree
      (λ none_fits. none_fits) (λ fits. fits)

-- A letter of the table, other than NUL, makes its option `enable` and leaves every other one, the
-- interactive flag and the state of getopts as they are. Any other letter but NUL is refused.
pub update_letter-Answers :
    (o : ShellOptions) (letter : ℕ) (enable : Bool)
    → (letter == 0) ≡ false
    → Answers o (λ d. d.letter == letter) enable (update_letter o letter enable)
unfolding update_letter Agrees
update_letter-Answers o letter enable given =
    let agree : All (Agrees (λ d. d.letter == letter)) descriptors =
      All-map {P = IsEntry} {Q = Agrees (λ d. d.letter == letter)} descriptors
        (λ d entry hit.
          let found : d.letter ≡ letter = (==_iff _ _).0 hit in
          All-map {P = λ e. (d.letter == 0) ≡ false → (e.bit == d.bit) ≡ (e.letter == d.letter)}
            {Q = λ e. (e.bit == d.bit) ≡ (e.letter == letter)} descriptors
            (λ e p. p (ap (λ l. l == 0) found ∙ given) ∙ ap (λ l. e.letter == l) found)
            entry.by_letter)
        descriptors-IsEntry in
    update_first-Answers (λ d. d.letter == letter) descriptors o enable descriptors-IsEntry agree
      (λ none_fits. none_fits) (λ fits. fits)

-- What an update returns is valid if the store was.
abbrev pub StaysValid : Option ShellOptions → Type 0
StaysValid none = Unit
StaysValid (some after) = options_validate after ≡ true

update_first-StaysValid :
    (named : OptionDescriptor → Bool) (table : List OptionDescriptor) (o : ShellOptions)
    (enable : Bool)
    → All IsEntry table
    → options_validate o ≡ true
    → StaysValid (update_first named table o enable)
unfolding update_first
update_first-StaysValid named [] o enable entries h = tt
update_first-StaysValid named (d ∷ table) o enable entries h = elim (Bool-cases (named d)) [
  | inl hit ↦ rw hit (update-valid o d enable entries.0 h)
  | inr miss ↦ rw miss (update_first-StaysValid named table o enable entries.1 h)
]

pub update_name-StaysValid :
    (o : ShellOptions) (name : List ℕ) (enable : Bool)
    → options_validate o ≡ true
    → StaysValid (update_name o name enable)
unfolding update_name
update_name-StaysValid o name enable h =
    update_first-StaysValid (λ d. bytes_eq d.name name) descriptors o enable descriptors-IsEntry h

pub update_letter-StaysValid :
    (o : ShellOptions) (letter : ℕ) (enable : Bool)
    → options_validate o ≡ true
    → StaysValid (update_letter o letter enable)
unfolding update_letter
update_letter-StaysValid o letter enable h =
    update_first-StaysValid (λ d. d.letter == letter) descriptors o enable descriptors-IsEntry h

pub options_initialize-valid :
    (is_interactive : Bool) → options_validate (options_initialize is_interactive) ≡ true
unfolding options_validate options_initialize
options_initialize-valid true = refl
options_initialize-valid false = refl
