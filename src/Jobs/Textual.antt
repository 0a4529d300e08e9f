-- ===== src/Jobs/Textual.antt =====
-- src/background_jobs.c: the jobs that a text names.
use gsh.Prelude.{
  ℕ, zero, suc, ◌+◌, ◌<◌, Bool, true, false, List, some, if◌then◌else◌, length, get_or, length-take,
  ◌≡◌, refl, sym, ap, ◌∙◌, arith,
}
use mathlib.Core.Path.{subst}
use gsh.Jobs.{JobspecStatus, ok, missing, ambiguous, invalid, Entry, BackgroundTable}
use gsh.Jobs.Table.{blank_entry, entry_at, used_entries}
use gsh.Jobs.Release.{entry_for_id}
use gsh.Jobs.Specs.{match_entries, status_of, resolve_textual}
use gsh.Jobs.Slots.{get_or-take}
use gsh.Jobs.Reported.{TableIsValid, not_overfull}
use gsh.Jobs.Found.{entry_for_id_known}
use gsh.Jobs.Matches.{
  count, last_id, named, match_entries_lem, count-zero, Only, count-Only, Two, count-Two,
}

-- The job that a text names in a table.
pub record NamesOnly (t : BackgroundTable) (p : Entry → Bool) (id : ℕ) : Type 0 where
  pub index : ℕ
  pub inside : index < t.used
  pub has : p (entry_at t index) ≡ true
  pub found : entry_for_id t id ≡ some index
  pub unique : (j : ℕ) → j < t.used → p (entry_at t j) ≡ true → j ≡ index

pub record NamesTwo (t : BackgroundTable) (p : Entry → Bool) : Type 0 where
  pub first : ℕ
  pub second : ℕ
  pub apart : first < second
  pub inside : second < t.used
  pub first_has : p (entry_at t first) ≡ true
  pub second_has : p (entry_at t second) ≡ true

-- What each status says.
abbrev pub TextAnswer : BackgroundTable → (Entry → Bool) → JobspecStatus × ℕ → Type 0
TextAnswer t p (ok, id) = NamesOnly t p id
TextAnswer t p (missing, id) = (j : ℕ) → j < t.used → p (entry_at t j) ≡ false
TextAnswer t p (ambiguous, id) = NamesTwo t p
TextAnswer t p (invalid, id) = ⊥

used_size : (t : BackgroundTable) → TableIsValid t → length (used_entries t) ≡ t.used
used_size t v = omega (arith, length-take t.used t.entries, v.slots, v.few)

used_entry :
    (t : BackgroundTable) (p : Entry → Bool) (j : ℕ)
    → j < t.used
    → p (get_or (used_entries t) j blank_entry) ≡ p (entry_at t j)
used_entry t p j h = ap p (get_or-take t.used j t.entries blank_entry h)

names_only :
    (t : BackgroundTable) (text : List ℕ) (substring : Bool) (id : ℕ)
    → TableIsValid t
    → Only (named text substring) (used_entries t) id
    → NamesOnly t (named text substring) id
names_only t text substring id v only =
    let p = named text substring in
    let inside : only.index < t.used = omega (arith, only.inside, used_size t v) in
    let has = sym (used_entry t p only.index inside) ∙ only.has in
    let its_id =
      sym
        (ap (λ (e : Entry). e.job_id) (get_or-take t.used only.index t.entries blank_entry inside))
      ∙ only.its_id in
    record {
      index = only.index;
      inside = inside;
      has = has;
      found = entry_for_id_known t id only.index v inside (ground (arith, has)) its_id;
      unique = λ j h k. only.unique j (omega (arith, h, used_size t v)) (used_entry t p j h ∙ k);
    }

names_two :
    (t : BackgroundTable) (p : Entry → Bool)
    → TableIsValid t
    → Two p (used_entries t)
    → NamesTwo t p
names_two t p v two =
    let inside : two.second < t.used = omega (arith, two.inside, used_size t v) in
    record {
      first = two.first;
      second = two.second;
      apart = two.apart;
      inside = inside;
      first_has = sym (used_entry t p two.first (omega (arith, two.apart, inside))) ∙ two.first_has;
      second_has = sym (used_entry t p two.second inside) ∙ two.second_has;
    }

status_of_many : (n id : ℕ) → status_of (suc (suc n), id) ≡ (ambiguous, id)
unfolding status_of
status_of_many n id = ground arith

-- The status, from the number of jobs that have the text.
status_of-Answer :
    (t : BackgroundTable) (text : List ℕ) (substring : Bool) (old n : ℕ)
    → TableIsValid t
    → count (named text substring) (used_entries t) ≡ n
    → TextAnswer t
        (named text substring)
        (status_of (n, last_id (named text substring) (used_entries t) old))
unfolding status_of
status_of-Answer t text substring old zero v counted =
    let p = named text substring in
    λ j h.
      sym (used_entry t p j h)
      ∙ count-zero p (used_entries t) j counted (omega (arith, h, used_size t v))
status_of-Answer t text substring old (suc zero) v counted =
    names_only t text substring _ v (count-Only (named text substring) (used_entries t) old counted)
status_of-Answer t text substring old (suc (suc n)) v counted =
    let p = named text substring in
    subst (TextAnswer t p) (sym (status_of_many n (last_id p (used_entries t) old)))
      (names_two t p v (count-Two p (used_entries t) (omega (arith, counted))))

-- A text that is looked up in a valid table either names the one known job whose command it matches,
-- whose id is the answer and which a lookup of that id finds; or it is missing, and matches no known
-- job's command; or it is ambiguous, and matches the commands of two known jobs. It is never
-- invalid.
pub resolve_textual-Answer :
    (t : BackgroundTable) (text : List ℕ) (substring : Bool) (old : ℕ)
    → TableIsValid t
    → TextAnswer t (named text substring) (resolve_textual t text substring old)
unfolding resolve_textual
resolve_textual-Answer t text substring old v =
    let p = named text substring in
    let es = used_entries t in
    let answer = status_of-Answer t text substring old (count p es) v refl in
    let start : 0 + count p es ≡ count p es = omega arith in
    let matched =
      match_entries_lem text substring es 0 old ∙ ap (λ (n : ℕ). (n, last_id p es old)) start in
    subst
      (λ b.
        TextAnswer t p
          (if b then (invalid, old) else status_of (match_entries text substring es 0 old)))
      (sym (not_overfull t v)) (subst (λ m. TextAnswer t p (status_of m)) (sym matched) answer)
