-- ===== src/SetBuiltin/Mutates.antt =====
-- src/builtin_set.c: the test that tells in advance whether `set` replaces the positional parameters.
use gsh.Prelude.{
  ℕ, Bool, true, false, List, [], ◌∷◌, none, some, Option-cases, Bool-cases, ◌≡◌, refl, inl, inr,
  drop, bytes_eq, ascii,
}
use gsh.Options.{ShellOptions, update_name}
use gsh.SetBuiltin.{
  Words, words, invalid, kind_of, enables, report_of, update_letters, scan_words, SetState, commit,
  builtin_set, set_mutates_positionals,
}
use gsh.SetBuiltin.Atomic.{WordKind-cases, is_end, is_operand, is_named, is_lettered}

-- What the test says of the words that the scan leaves.
abbrev Foretold : Words → Bool → Type 0
Foretold (words next none report) mutates = mutates ≡ false
Foretold (words next (some values) report) mutates = mutates ≡ true
Foretold (invalid message) mutates = Unit

scan_words-Foretold :
    (arguments : List (List ℕ)) (next : ShellOptions) (report : ℕ)
    → Foretold (scan_words arguments next report) (set_mutates_positionals arguments)
unfolding scan_words set_mutates_positionals
scan_words-Foretold [] next report = refl
scan_words-Foretold (argument ∷ []) next report = elim (WordKind-cases (kind_of argument)) [
  | is_end e ↦ rw (set_mutates_positionals, Foretold, e) refl
  | is_operand e ↦ rw (set_mutates_positionals, Foretold, e) refl
  | is_named e ↦ rw (set_mutates_positionals, Foretold, e) refl
  | is_lettered e ↦ elim (Option-cases (update_letters next (drop 1 argument) (enables argument))) [
    | inl f ↦ rw (set_mutates_positionals, Foretold, e, f) tt
    | inr (after, f) ↦ rw (set_mutates_positionals, Foretold, e, f) refl
  ]
]
scan_words-Foretold (argument ∷ (name ∷ rest)) next report =
    elim (WordKind-cases (kind_of argument)) [
      | is_end e ↦ rw (set_mutates_positionals, Foretold, e) refl
      | is_operand e ↦ rw (set_mutates_positionals, Foretold, e) refl
      | is_named e ↦ elim (Bool-cases (bytes_eq name (ascii "--"))) [
        | inl lone ↦
            rw (set_mutates_positionals, Foretold, e, lone)
              (scan_words-Foretold (name ∷ rest) next (report_of argument))
        | inr with_name ↦ elim (Option-cases (update_name next name (enables argument))) [
          | inl f ↦ rw (set_mutates_positionals, Foretold, e, with_name, f) tt
          | inr (after, f) ↦
              rw (set_mutates_positionals, Foretold, e, with_name, f)
                (scan_words-Foretold rest after report)
        ]
      ]
      | is_lettered e ↦
          elim (Option-cases (update_letters next (drop 1 argument) (enables argument))) [
            | inl f ↦ rw (set_mutates_positionals, Foretold, e, f) tt
            | inr (after, f) ↦
                rw (set_mutates_positionals, Foretold, e, f)
                  (scan_words-Foretold (name ∷ rest) after report)
          ]
    ]

commit-Foretold :
    (s : SetState) (w : Words) (mutates : Bool)
    → Foretold w mutates
    → mutates ≡ false
    → (commit s w).0.positionals ≡ s.positionals
unfolding commit
commit-Foretold s (invalid message) mutates told h = refl
commit-Foretold s (words next none report) mutates told h = refl
commit-Foretold s (words next (some values) report) mutates told h = absurd (cc)

-- If `gsh_builtin_set_mutates_positionals` says no, `set` with these words leaves the positional
-- parameters as they are, whether the words are refused or not.
pub builtin_set-spares :
    (arguments : List (List ℕ)) (s : SetState)
    → set_mutates_positionals arguments ≡ false
    → (builtin_set arguments s).0.positionals ≡ s.positionals
unfolding builtin_set
builtin_set-spares [] s h = refl
builtin_set-spares (argument ∷ arguments) s h =
    commit-Foretold s (scan_words (argument ∷ arguments) s.options 0)
      (set_mutates_positionals (argument ∷ arguments))
      (scan_words-Foretold (argument ∷ arguments) s.options 0) h
