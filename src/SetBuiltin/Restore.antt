-- ===== src/SetBuiltin/Restore.antt =====
-- src/builtin_set.c: the listing of `set +o`, and what its commands do when they run.
use gsh.Prelude.{
  ascii, Bool, true, false, ◌||◌, List, [], ◌∷◌, ◌≡◌, refl, sym, ap, ◌∙◌, bytes_eq, ◌==◌, ==_iff,
  if◌then◌else◌, All, All-map, All-map2, all-All,
}
use gsh.Options.{ShellOptions, OptionDescriptor, descriptors, interactive, options_enabled}
use gsh.Options.Table.{IsEntry, descriptors-IsEntry}
use gsh.SetBuiltin.{kind_of, SetState, listed, scan_words, finish_set, commit, builtin_set}
use gsh.SetBuiltin.Command.{
  command_of, script, list_options-script, replay, any_named, is_listed, descriptors_listed,
  command_step,
}

chosen :
    (same others mine now before : Bool)
    → now ≡ (if same then mine else before)
    → (if others then mine else now) ≡ (if same || others then mine else before)
chosen true true mine now before h = refl
chosen true false mine now before h = h
chosen false true mine now before h = refl
chosen false false mine now before h = h

-- Replaying a part of the table sets its options to what `o` has.
record Replayed (o : ShellOptions) (table : List OptionDescriptor) (s after : SetState)
    : Type 0 where
  options :
      All
        (λ e. options_enabled after.options e.bit ≡ (
          if any_named e.name table
          then options_enabled o e.bit
          else options_enabled s.options e.bit))
        descriptors
  interactive_kept :
      options_enabled after.options interactive ≡ options_enabled s.options interactive
  positionals_kept : after.positionals ≡ s.positionals

same_option :
    (o : ShellOptions) (e d : OptionDescriptor) (same : Bool)
    → (e.bit == d.bit) ≡ same
    → (b : Bool)
    → (if same then options_enabled o d.bit else b) ≡ (if same then options_enabled o e.bit else b)
same_option o e d true h b = ap (options_enabled o) (sym ((==_iff e.bit d.bit).0 h))
same_option o e d false h b = refl

replay-Replayed :
    (o : ShellOptions) (table : List OptionDescriptor) (s : SetState)
    → All IsEntry table
    → All (λ d. is_listed d ≡ true) table
    → Replayed o table s (replay o table s)
replay-Replayed o [] s entries in_table = record {
  options =
      All-map {P = IsEntry}
        {Q = λ e. options_enabled s.options e.bit ≡ options_enabled s.options e.bit} descriptors
        (λ e _. refl) descriptors-IsEntry;
  interactive_kept = refl;
  positionals_kept = refl;
}
replay-Replayed o (d ∷ table) s entries in_table =
    let step = command_step o d s in_table.0 in
    let next = (builtin_set (command_of o d) s).0 in
    let after = replay o table next in
    let rest = replay-Replayed o table next entries.1 in_table.1 in
    let moved : All
        (λ e. options_enabled next.options e.bit ≡ (
          if bytes_eq e.name d.name
          then options_enabled o e.bit
          else options_enabled s.options e.bit))
        descriptors =
      All-map2
        {P = λ e. options_enabled next.options e.bit ≡ (
          if bytes_eq e.name d.name
          then options_enabled o d.bit
          else options_enabled s.options e.bit)}
        {Q = λ e. (e.bit == d.bit) ≡ bytes_eq e.name d.name}
        {R = λ e. options_enabled next.options e.bit ≡ (
          if bytes_eq e.name d.name
          then options_enabled o e.bit
          else options_enabled s.options e.bit)}
        descriptors
        (λ e p q.
          p ∙ same_option o e d (bytes_eq e.name d.name) q (options_enabled s.options e.bit))
        step.options entries.0.by_name in
    record {
      options =
          All-map2
            {P = λ e. options_enabled next.options e.bit ≡ (
              if bytes_eq e.name d.name
              then options_enabled o e.bit
              else options_enabled s.options e.bit)}
            {Q = λ e. options_enabled after.options e.bit ≡ (
              if any_named e.name table
              then options_enabled o e.bit
              else options_enabled next.options e.bit)}
            {R = λ e. options_enabled after.options e.bit ≡ (
              if bytes_eq e.name d.name || any_named e.name table
              then options_enabled o e.bit
              else options_enabled s.options e.bit)}
            descriptors
            (λ e p q. q ∙ chosen (bytes_eq e.name d.name) (any_named e.name table) _ _ _ p) moved
            rest.options;
      interactive_kept = rest.interactive_kept ∙ step.interactive_kept;
      positionals_kept = rest.positionals_kept ∙ step.positionals_kept;
    }

descriptors_named : All (λ e. any_named e.name descriptors ≡ true) descriptors
descriptors_named = all-All (λ e. any_named e.name descriptors) descriptors refl

-- What `s` becomes when the script that lists the options of `o` runs.
pub record Restores (o : ShellOptions) (s after : SetState) : Type 0 where
  pub options : All (λ e. options_enabled after.options e.bit ≡ options_enabled o e.bit) descriptors
  pub interactive_kept :
      options_enabled after.options interactive ≡ options_enabled s.options interactive
  pub positionals_kept : after.positionals ≡ s.positionals

restored : (o : ShellOptions) (s : SetState) → Restores o s (replay o descriptors s)
restored o s =
    let after = replay o descriptors s in
    let all_replayed = replay-Replayed o descriptors s descriptors-IsEntry descriptors_listed in
    record {
      options =
          All-map2
            {P = λ e. options_enabled after.options e.bit ≡ (
              if any_named e.name descriptors
              then options_enabled o e.bit
              else options_enabled s.options e.bit)}
            {Q = λ e. any_named e.name descriptors ≡ true}
            {R = λ e. options_enabled after.options e.bit ≡ options_enabled o e.bit} descriptors
            (λ e p q.
              p
              ∙ ap (λ b. if b then options_enabled o e.bit else options_enabled s.options e.bit) q)
            all_replayed.options descriptors_named;
      interactive_kept = all_replayed.interactive_kept;
      positionals_kept = all_replayed.positionals_kept;
    }

-- What `set +o` prints is a script: it spells one `set` command for each option, with the value that
-- the option has, and printing it changes nothing. Running these commands on any options gives every
-- option the value that it had when it was listed, and leaves the interactive flag and the positional
-- parameters as they are.
pub replay-Restores :
    (from s : SetState)
    → (builtin_set (ascii "+o" ∷ []) from ≡ (from, listed (script from.options descriptors)))
      × Restores from.options s (replay from.options descriptors s)
unfolding builtin_set commit scan_words finish_set kind_of
replay-Restores from s = (
  ap (λ text. (from, listed text)) (list_options-script from.options descriptors),
  restored from.options s,
)
