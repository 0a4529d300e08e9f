-- ===== src/SetBuiltin/Atomic.antt =====
-- src/builtin_set.c: `set` changes all that its words say or nothing.
use gsh.Prelude.{
  ℕ, Bool, true, false, List, [], ◌∷◌, Option, none, some, Option-cases, Bool-cases, ◌≡◌, refl, ap,
  inl, inr, arith, ltb, length, drop, bytes_eq, ascii, ◌==◌,
}
use mathlib.Core.Path.{subst}
use gsh.Positionals.{
  PositionalStore, Outcome, done, failed, positionals_assign, measure, assign_measured,
  positional_cap,
}
use gsh.Options.{ShellOptions, options_validate, update_letter, update_name}
use gsh.Options.Answers.{StaysValid, update_name-StaysValid, update_letter-StaysValid}
use gsh.SetBuiltin.{
  SetResult, finished, lists_variables, listed, Words, words, invalid, WordKind, end_of_options,
  operand, named, lettered, kind_of, enables, report_of, update_letters, scan_words, SetState,
  finish_set, commit, builtin_set, report_on,
}

abbrev pub refuses : SetResult → Bool
refuses finished = false
refuses lists_variables = false
refuses (listed text) = false
refuses _ = true

-- A failed assignment leaves the store as it was.
abbrev Spared : PositionalStore → PositionalStore × Outcome → Type 0
Spared s (after, done) = Unit
Spared s (after, failed e) = after ≡ s

assign_measured-Spared :
    (s : PositionalStore) (values : List (List ℕ)) (sizes : Option (List ℕ))
    → Spared s (assign_measured s values sizes)
unfolding assign_measured
assign_measured-Spared s values none = refl
assign_measured-Spared s values (some sizes) = tt

assign-Spared :
    (s : PositionalStore) (values : List (List ℕ)) → Spared s (positionals_assign s values)
unfolding positionals_assign
assign-Spared s values = elim (Bool-cases (ltb positional_cap (length values))) [
  | inl many ↦ rw many refl
  | inr few ↦ rw few (assign_measured-Spared s values (measure 0 values))
]

report_on_accepts : (o : ShellOptions) (report : ℕ) → refuses (report_on o report) ≡ false
report_on_accepts o report = elim (Bool-cases (report == 0)) [
  | inl e ↦ rw e refl
  | inr e ↦ rw e refl
]

finish_set_refused :
    (s : SetState) (next : ShellOptions) (report : ℕ) (r : PositionalStore × Outcome)
    → Spared s.positionals r
    → refuses (finish_set s next report r).1 ≡ true
    → (finish_set s next report r).0 ≡ s
unfolding finish_set
finish_set_refused s next report (positionals, done) spared h =
    absurd (ground (arith, h, report_on_accepts next report))
finish_set_refused s next report (positionals, failed e) spared h =
    ap (λ (p : PositionalStore). record s { positionals = p }) spared

commit_refused : (s : SetState) (w : Words) → refuses (commit s w).1 ≡ true → (commit s w).0 ≡ s
unfolding commit
commit_refused s (invalid message) h = refl
commit_refused s (words next none report) h =
    finish_set_refused s next report (s.positionals, done) tt h
commit_refused s (words next (some values) report) h =
    finish_set_refused s next report _ (assign-Spared s.positionals values) h

-- An invocation that fails, on an option, a name or the positional parameters, changes neither the
-- options nor the positional parameters, whatever its other words were.
pub builtin_set_refused :
    (arguments : List (List ℕ)) (s : SetState)
    → refuses (builtin_set arguments s).1 ≡ true
    → (builtin_set arguments s).0 ≡ s
unfolding builtin_set
builtin_set_refused [] s h = refl
builtin_set_refused (argument ∷ arguments) s h =
    commit_refused s (scan_words (argument ∷ arguments) s.options 0) h

abbrev ValidWords : Words → Type 0
ValidWords (words next values report) = options_validate next ≡ true
ValidWords (invalid message) = Unit

updated-valid :
    (o : Option ShellOptions) (after : ShellOptions)
    → o ≡ some after
    → StaysValid o
    → options_validate after ≡ true
updated-valid o after e v = subst StaysValid e v

update_letters-StaysValid :
    (o : ShellOptions) (letters : List ℕ) (enable : Bool)
    → options_validate o ≡ true
    → StaysValid (update_letters o letters enable)
unfolding update_letters
update_letters-StaysValid o [] enable h = h
update_letters-StaysValid o (letter ∷ letters) enable h = elim (Bool-cases (letter == b'o')) [
  | inl e ↦ rw (StaysValid, e) tt
  | inr e ↦ elim (Option-cases (update_letter o letter enable)) [
    | inl f ↦ rw (StaysValid, e, f) tt
    | inr (after, f) ↦
        let valid = updated-valid _ after f (update_letter-StaysValid o letter enable h) in
        rw (StaysValid, e, f) (update_letters-StaysValid after letters enable valid)
  ]
]

-- The kind of a word, with the equation.
pub data KindIs (k : WordKind) : Type 0 where
  is_end : k ≡ end_of_options → KindIs k
  is_operand : k ≡ operand → KindIs k
  is_named : k ≡ named → KindIs k
  is_lettered : k ≡ lettered → KindIs k

pub WordKind-cases : (k : WordKind) → KindIs k
WordKind-cases end_of_options = is_end refl
WordKind-cases operand = is_operand refl
WordKind-cases named = is_named refl
WordKind-cases lettered = is_lettered refl

scan_words-ValidWords :
    (arguments : List (List ℕ)) (next : ShellOptions) (report : ℕ)
    → options_validate next ≡ true
    → ValidWords (scan_words arguments next report)
unfolding scan_words
scan_words-ValidWords [] next report h = h
scan_words-ValidWords (argument ∷ []) next report h = elim (WordKind-cases (kind_of argument)) [
  | is_end e ↦ rw (ValidWords, e) h
  | is_operand e ↦ rw (ValidWords, e) h
  | is_named e ↦ rw (ValidWords, e) h
  | is_lettered e ↦ elim (Option-cases (update_letters next (drop 1 argument) (enables argument))) [
    | inl f ↦ rw (ValidWords, e, f) tt
    | inr (after, f) ↦
        rw (ValidWords, e, f)
          (updated-valid _ after f
            (update_letters-StaysValid next (drop 1 argument) (enables argument) h))
  ]
]
scan_words-ValidWords (argument ∷ (name ∷ rest)) next report h =
    elim (WordKind-cases (kind_of argument)) [
      | is_end e ↦ rw (ValidWords, e) h
      | is_operand e ↦ rw (ValidWords, e) h
      | is_named e ↦ elim (Bool-cases (bytes_eq name (ascii "--"))) [
        | inl lone ↦
            rw (ValidWords, e, lone)
              (scan_words-ValidWords (name ∷ rest) next (report_of argument) h)
        | inr with_name ↦ elim (Option-cases (update_name next name (enables argument))) [
          | inl f ↦ rw (ValidWords, e, with_name, f) tt
          | inr (after, f) ↦
              let valid =
                updated-valid _ after f (update_name-StaysValid next name (enables argument) h) in
              rw (ValidWords, e, with_name, f) (scan_words-ValidWords rest after report valid)
        ]
      ]
      | is_lettered e ↦
          elim (Option-cases (update_letters next (drop 1 argument) (enables argument))) [
            | inl f ↦ rw (ValidWords, e, f) tt
            | inr (after, f) ↦
                let letters =
                  update_letters-StaysValid next (drop 1 argument) (enables argument) h in
                rw (ValidWords, e, f)
                  (scan_words-ValidWords (name ∷ rest) after report
                    (updated-valid _ after f letters))
          ]
    ]

commit-valid :
    (s : SetState) (w : Words)
    → options_validate s.options ≡ true
    → ValidWords w
    → options_validate (commit s w).0.options ≡ true
unfolding commit finish_set
commit-valid s (invalid message) h v = h
commit-valid s (words next none report) h v = v
commit-valid s (words next (some values) report) h v =
    finish_set-valid (positionals_assign s.positionals values)
  where
    finish_set-valid :
        (r : PositionalStore × Outcome)
        → options_validate (finish_set s next report r).0.options ≡ true
    finish_set-valid (positionals, done) = v
    finish_set-valid (positionals, failed e) = h

-- Options that are valid stay valid, whatever the words are and whether they are refused or not.
pub builtin_set-valid :
    (arguments : List (List ℕ)) (s : SetState)
    → options_validate s.options ≡ true
    → options_validate (builtin_set arguments s).0.options ≡ true
unfolding builtin_set
builtin_set-valid [] s h = h
builtin_set-valid (argument ∷ arguments) s h =
    commit-valid s (scan_words (argument ∷ arguments) s.options 0) h
      (scan_words-ValidWords (argument ∷ arguments) s.options 0 h)
