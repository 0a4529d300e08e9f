-- ===== src/Jobs/Matches.antt =====
-- src/background_jobs.c: how many entries a text matches.
use gsh.Prelude.{
  ℕ, zero, suc, ◌+◌, ◌≤◌, ◌<◌, Bool, true, false, ◌&&◌, Bool-cases, List, [], ◌∷◌, if◌then◌else◌,
  length, get_or, ◌≡◌, refl, sym, ap, ◌∙◌, inl, inr, arith,
}
use gsh.Jobs.{Entry}
use gsh.Jobs.Table.{blank_entry}
use gsh.Jobs.Specs.{command_matches, match_entries}

-- How many entries have a property, and the id of the last that has it.
abbrev pub count : (Entry → Bool) → List Entry → ℕ
count p [] = 0
count p (e ∷ es) = if p e then suc (count p es) else count p es

abbrev pub last_id : (Entry → Bool) → List Entry → ℕ → ℕ
last_id p [] d = d
last_id p (e ∷ es) d = last_id p es (if p e then e.job_id else d)

abbrev pub named : List ℕ → Bool → Entry → Bool
named text substring e = e.known && command_matches e text substring

pub match_entries_lem :
    (text : List ℕ) (substring : Bool) (es : List Entry) (matches d : ℕ)
    → match_entries text substring es matches d
      ≡ (matches + count (named text substring) es, last_id (named text substring) es d)
unfolding match_entries
match_entries_lem text substring [] matches d = ap (λ n. (n, d)) (omega arith)
match_entries_lem text substring (e ∷ es) matches d = elim (Bool-cases (named text substring e)) [
  | inl p ↦ rw p (
      match_entries_lem text substring es (matches + 1) e.job_id
      ∙ ap (λ n. (n, last_id (named text substring) es e.job_id)) (omega arith))
  | inr p ↦ rw p (match_entries_lem text substring es matches d)
]

pub count-zero :
    (p : Entry → Bool) (es : List Entry) (i : ℕ)
    → count p es ≡ 0
    → i < length es
    → p (get_or es i blank_entry) ≡ false
count-zero p [] i none_ h = absurd (omega arith)
count-zero p (e ∷ es) zero none_ h = elim (Bool-cases (p e)) [
  | inl q ↦ absurd (ground (arith, none_, q))
  | inr q ↦ q
]
count-zero p (e ∷ es) (suc i) none_ h = count-zero p es i (ground (arith, none_)) (omega arith)

last_id-zero : (p : Entry → Bool) (es : List Entry) (d : ℕ) → count p es ≡ 0 → last_id p es d ≡ d
last_id-zero p [] d none_ = refl
last_id-zero p (e ∷ es) d none_ = elim (Bool-cases (p e)) [
  | inl q ↦ absurd (ground (arith, none_, q))
  | inr q ↦ rw q (last_id-zero p es d (rw q at none_))
]

-- The one entry with the property.
pub record Only (p : Entry → Bool) (es : List Entry) (id : ℕ) : Type 0 where
  pub index : ℕ
  pub inside : index < length es
  pub has : p (get_or es index blank_entry) ≡ true
  pub its_id : (get_or es index blank_entry).job_id ≡ id
  pub unique : (j : ℕ) → j < length es → p (get_or es j blank_entry) ≡ true → j ≡ index

pub count-Only :
    (p : Entry → Bool) (es : List Entry) (d : ℕ) → count p es ≡ 1 → Only p es (last_id p es d)
count-Only p [] d one = absurd (omega arith)
count-Only p (e ∷ es) d one = elim (Bool-cases (p e)) [
  | inl q ↦
      let none_ : count p es ≡ 0 = ground (arith, one, q) in
      rw q (record {
        index = 0;
        inside = omega arith;
        has = q;
        its_id = sym (last_id-zero p es e.job_id none_);
        unique = only_first none_;
      })
  | inr q ↦
      let rest = count-Only p es d (rw q at one) in
      rw q (record {
        index = suc rest.index;
        inside = omega (arith, rest.inside);
        has = rest.has;
        its_id = rest.its_id;
        unique = later rest.index q rest.unique;
      })
]
  where
    only_first :
        count p es ≡ 0
        → (j : ℕ) → j < suc (length es)
        → p (get_or (e ∷ es) j blank_entry) ≡ true
        → j ≡ 0
    only_first none_ zero h k = refl
    only_first none_ (suc j) h k = absurd (cc (count-zero p es j none_ (omega arith), k))

    later :
        (index : ℕ)
        → p e ≡ false
        → ((j : ℕ) → j < length es → p (get_or es j blank_entry) ≡ true → j ≡ index)
        → (j : ℕ) → j < suc (length es)
        → p (get_or (e ∷ es) j blank_entry) ≡ true
        → j ≡ suc index
    later index q unique zero h k = absurd (cc (q, k))
    later index q unique (suc j) h k = ap suc (unique j (omega arith) k)

-- Two entries with the property.
pub record Two (p : Entry → Bool) (es : List Entry) : Type 0 where
  pub first : ℕ
  pub second : ℕ
  pub apart : first < second
  pub inside : second < length es
  pub first_has : p (get_or es first blank_entry) ≡ true
  pub second_has : p (get_or es second blank_entry) ≡ true

-- Some entry with the property.
record Some (p : Entry → Bool) (es : List Entry) : Type 0 where
  index : ℕ
  inside : index < length es
  has : p (get_or es index blank_entry) ≡ true

count-Some : (p : Entry → Bool) (es : List Entry) → 1 ≤ count p es → Some p es
count-Some p [] some_ = absurd (omega arith)
count-Some p (e ∷ es) some_ = elim (Bool-cases (p e)) [
  | inl q ↦ record { index = 0; inside = omega arith; has = q }
  | inr q ↦
      let rest = count-Some p es (rw q at some_) in
      record { index = suc rest.index; inside = omega (arith, rest.inside); has = rest.has }
]

pub count-Two : (p : Entry → Bool) (es : List Entry) → 2 ≤ count p es → Two p es
count-Two p [] two = absurd (omega arith)
count-Two p (e ∷ es) two = elim (Bool-cases (p e)) [
  | inl q ↦
      let rest = count-Some p es (ground (arith, two, q)) in
      record {
        first = 0;
        second = suc rest.index;
        apart = omega arith;
        inside = omega (arith, rest.inside);
        first_has = q;
        second_has = rest.has;
      }
  | inr q ↦
      let rest = count-Two p es (rw q at two) in
      record {
        first = suc rest.first;
        second = suc rest.second;
        apart = omega (arith, rest.apart);
        inside = omega (arith, rest.inside);
        first_has = rest.first_has;
        second_has = rest.second_has;
      }
]
