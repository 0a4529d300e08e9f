-- ===== src/Jobs/Slots.antt =====
-- src/background_jobs.c: the slots of the table, of which the first `used` are in use.
use gsh.Prelude.{
  ℕ, zero, suc, ◌≤◌, ◌<◌, Bool, true, false, Bool-cases, List, [], ◌∷◌, none, some, Option-cases,
  ◌⊎◌, ◌==◌, ==_iff, length, get_or, set, take, length-set, get_or-set_self, get_or-set_ne, ◌≡◌,
  ◌≢◌, refl, sym, ap, ◌∙◌, inl, inr, arith,
}
use mathlib.Core.Path.{subst}
use gsh.Jobs.{Entry, background_cap, member_cap}
use gsh.Jobs.Table.{find_index, blank_entry}
use gsh.Jobs.Marked.{EntryIsValid}

pub get_or-take {ℓ} :
    {A : Type ℓ} (n i : ℕ) (xs : List A) (d : A) → i < n → get_or (take n xs) i d ≡ get_or xs i d
get_or-take zero i xs d h = absurd (omega arith)
get_or-take (suc n) i [] d h = refl
get_or-take (suc n) zero (x ∷ xs) d h = refl
get_or-take (suc n) (suc i) (x ∷ xs) d h = get_or-take n i xs d (omega arith)

-- The index that `find_index` returns is in the list, and what stands there has the property.
abbrev pub Hit {ℓ} : {A : Type ℓ} → (A → Bool) → List A → A → ℕ → Type 0
Hit p xs d i = (i < length xs) × (p (get_or xs i d) ≡ true)

pub find_index-Hit {ℓ} :
    {A : Type ℓ} (p : A → Bool) (xs : List A) (d : A) (i : ℕ)
    → find_index p xs ≡ some i
    → Hit p xs d i
unfolding find_index
find_index-Hit p [] d i h = absurd (cc)
find_index-Hit p (x ∷ xs) d i h = elim (Bool-cases (p x)) [
  | inl here ↦
      let first : some 0 ≡ some i = rw here at h in
      let start : Hit p (x ∷ xs) d 0 = (omega arith, here) in
      subst (Hit p (x ∷ xs) d) (cc first) start
  | inr other ↦ elim (Option-cases (find_index p xs)) [
    | inl missing ↦ absurd (cc (rw (other, missing) at h))
    | inr (j, found) ↦
        let next : some (suc j) ≡ some i = rw (other, found) at h in
        let rest = find_index-Hit p xs d j found in
        let later : Hit p (x ∷ xs) d (suc j) = (omega (arith, rest.0), rest.1) in
        subst (Hit p (x ∷ xs) d) (cc next) later
  ]
]

-- Where it returns nothing, nothing in the list has the property.
pub find_index-none {ℓ} :
    {A : Type ℓ} (p : A → Bool) (xs : List A) (d : A) (i : ℕ)
    → find_index p xs ≡ none
    → i < length xs
    → p (get_or xs i d) ≡ false
unfolding find_index
find_index-none p [] d i h k = absurd (omega arith)
find_index-none p (x ∷ xs) d zero h k = elim (Bool-cases (p x)) [
  | inl here ↦ absurd (cc (rw here at h))
  | inr other ↦ other
]
find_index-none p (x ∷ xs) d (suc i) h k = elim (Bool-cases (p x)) [
  | inl here ↦ absurd (cc (rw here at h))
  | inr other ↦ elim (Option-cases (find_index p xs)) [
    | inl missing ↦ find_index-none p xs d i missing (omega arith)
    | inr (j, found) ↦ absurd (cc (rw (other, found) at h))
  ]
]

-- The entries that are in use count their members, and no two have the same id, which is not 0.
pub record ValidSlots (es : List Entry) (used : ℕ) : Type 0 where
  pub slots : length es ≡ background_cap
  pub few : used ≤ background_cap
  pub rooms :
      (i : ℕ) → i < background_cap → length (get_or es i blank_entry).member_states ≡ member_cap
  pub valid :
      (i : ℕ)
      → i < used
      → (get_or es i blank_entry).known ≡ true
      → EntryIsValid (get_or es i blank_entry)
  pub ids_nonzero :
      (i : ℕ)
      → i < used
      → (get_or es i blank_entry).known ≡ true
      → 1 ≤ (get_or es i blank_entry).job_id
  pub ids_apart :
      (i j : ℕ)
      → i < used
      → j < used
      → (get_or es i blank_entry).known ≡ true
      → (get_or es j blank_entry).known ≡ true
      → (get_or es i blank_entry).job_id ≡ (get_or es j blank_entry).job_id
      → i ≡ j

-- Fewer slots in use.
pub fewer-ValidSlots :
    {es : List Entry} {used : ℕ} (less : ℕ) → ValidSlots es used → less ≤ used → ValidSlots es less
fewer-ValidSlots less v h = record {
  slots = v.slots;
  few = omega (arith, v.few);
  rooms = v.rooms;
  valid = λ i k known. v.valid i (omega arith) known;
  ids_nonzero = λ i k known. v.ids_nonzero i (omega arith) known;
  ids_apart = λ i j k l p q e. v.ids_apart i j (omega arith) (omega arith) p q e;
}

-- A new entry that, if it is known, is valid and has an id that no other known entry has.
pub record Fits (es : List Entry) (used index : ℕ) (e : Entry) : Type 0 where
  pub room : length e.member_states ≡ member_cap
  pub valid : e.known ≡ true → EntryIsValid e
  pub id_nonzero : e.known ≡ true → 1 ≤ e.job_id
  pub id_apart :
      (j : ℕ)
      → j < used
      → j ≢ index
      → e.known ≡ true
      → (get_or es j blank_entry).known ≡ true
      → e.job_id ≢ (get_or es j blank_entry).job_id

-- A slot after a write: the one that was written, or one that is as before.
slot-cases :
    (es : List Entry) (index : ℕ) (e : Entry) (i : ℕ)
    → index < length es
    → ((i ≡ index) × (get_or (set es index e) i blank_entry ≡ e))
      ⊎ ((i ≢ index) × (get_or (set es index e) i blank_entry ≡ get_or es i blank_entry))
slot-cases es index e i h = elim (Bool-cases (index == i)) [
  | inl p ↦
      let same = (==_iff index i).0 p in
      inl (
        sym same,
        ap (λ n. get_or (set es index e) n blank_entry) (sym same)
            ∙ get_or-set_self es index e blank_entry h,
      )
  | inr p ↦
      let apart : index ≢ i = λ same. cc ((==_iff index i).1 same, p) in
      inr (λ same. apart (sym same), get_or-set_ne es e blank_entry apart)
]

is_known : {x y : Entry} → x ≡ y → x.known ≡ true → y.known ≡ true
is_known same k = sym (ap (λ (x : Entry). x.known) same) ∙ k

-- Putting it in a slot in use, or in the next one.
module _ {es : List Entry} {used : ℕ} (index now : ℕ) (e : Entry) (v : ValidSlots es used)
    (at_ : index < now) (cap_ : now ≤ background_cap)
    (older : (j : ℕ) → j < now → j ≢ index → j < used) (f : Fits es used index e) where
  inside : index < length es
  inside = omega (arith, v.slots, at_, cap_)

  put_ids_apart :
      (i j : ℕ)
      → i < now
      → j < now
      → (get_or (set es index e) i blank_entry).known ≡ true
      → (get_or (set es index e) j blank_entry).known ≡ true
      → (get_or (set es index e) i blank_entry).job_id
        ≡ (get_or (set es index e) j blank_entry).job_id
      → i ≡ j
  put_ids_apart i j k l p q same = elim (slot-cases es index e i inside) [
    | inl (here, x) ↦ elim (slot-cases es index e j inside) [
      | inl (there, y) ↦ here ∙ sym there
      | inr (apart, y) ↦ absurd (
          f.id_apart j (older j l apart) apart (is_known x p) (is_known y q)
            (sym (ap (λ (z : Entry). z.job_id) x) ∙ same ∙ ap (λ (z : Entry). z.job_id) y))
    ]
    | inr (apart, x) ↦ elim (slot-cases es index e j inside) [
      | inl (there, y) ↦ absurd (
          f.id_apart i (older i k apart) apart (is_known y q) (is_known x p)
            (sym (ap (λ (z : Entry). z.job_id) y) ∙ sym same ∙ ap (λ (z : Entry). z.job_id) x))
      | inr (apart', y) ↦
          v.ids_apart i j (older i k apart) (older j l apart') (is_known x p) (is_known y q)
            (sym (ap (λ (z : Entry). z.job_id) x) ∙ same ∙ ap (λ (z : Entry). z.job_id) y)
    ]
  ]

  pub put-ValidSlots : ValidSlots (set es index e) now
  put-ValidSlots = record {
    slots = length-set es index e ∙ v.slots;
    few = cap_;
    rooms = λ i k. elim (slot-cases es index e i inside) [
      | inl (_, x) ↦ ap (λ (z : Entry). length z.member_states) x ∙ f.room
      | inr (_, x) ↦ ap (λ (z : Entry). length z.member_states) x ∙ v.rooms i k
    ];
    valid = λ i k p. elim (slot-cases es index e i inside) [
      | inl (_, x) ↦ subst EntryIsValid (sym x) (f.valid (is_known x p))
      | inr (apart, x) ↦ subst EntryIsValid (sym x) (v.valid i (older i k apart) (is_known x p))
    ];
    ids_nonzero = λ i k p. elim (slot-cases es index e i inside) [
      | inl (_, x) ↦ subst (λ (z : Entry). 1 ≤ z.job_id) (sym x) (f.id_nonzero (is_known x p))
      | inr (apart, x) ↦
          subst (λ (z : Entry). 1 ≤ z.job_id) (sym x)
            (v.ids_nonzero i (older i k apart) (is_known x p))
    ];
    ids_apart = put_ids_apart;
  }
