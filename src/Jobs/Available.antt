-- ===== src/Jobs/Available.antt =====
-- src/background_jobs.c: the slot that `available_entry` finds for a new job.
use gsh.Prelude.{
  ℕ, ◌+◌, ◌≤◌, ◌<◌, Bool, true, false, Option, none, some, ltb, if◌then◌else◌, ◌⊎◌, ◌≡◌, ◌≢◌, refl,
  sym, ap, ◌∙◌, inl, inr, arith, Errno, eagain, einval, length, length-take,
}
use mathlib.Core.Path.{subst}
use gsh.Jobs.{BackgroundTable, background_cap}
use gsh.Jobs.Table.{
  find_index, is_active, entry_at, blank_entry, used_entries, overfull, entry_reclaimable,
  available_entry,
}
use gsh.Jobs.Reported.{found_entry}
use gsh.Jobs.Slots.{get_or-take, find_index-none}

-- Every entry of the table is taken, and none of them may be reclaimed.
abbrev pub IsFull : BackgroundTable → Type 0
IsFull t =
    (t.used ≡ background_cap) × ((j : ℕ) → j < t.used → entry_reclaimable (entry_at t j) ≡ false)

-- A slot that holds no active entry.
abbrev pub FreeSlot : BackgroundTable → BackgroundTable × (ℕ ⊎ Errno) → Type 0
FreeSlot t (t', inl index) =
    (t' ≡ record t { used = t'.used })
    × (t.used ≤ t'.used)
    × (index < t'.used)
    × ((j : ℕ) → j < t.used → is_active (entry_at t j) ≡ true → index ≢ j)
FreeSlot t (t', inr e) = (t' ≡ t) × (e ≡ eagain) × IsFull t

if-FreeSlot :
    (t : BackgroundTable) (x y : BackgroundTable × (ℕ ⊎ Errno)) (test : Bool)
    → (test ≡ true → FreeSlot t x)
    → (test ≡ false → FreeSlot t y)
    → FreeSlot t (if test then x else y)
if-FreeSlot t x y true p q = p refl
if-FreeSlot t x y false p q = q refl

chosen-FreeSlot :
    (t : BackgroundTable) (old : Option ℕ)
    → t.used ≤ background_cap
    → (old ≡ none → (j : ℕ) → j < t.used → entry_reclaimable (entry_at t j) ≡ false)
    → ((index : ℕ)
        → old ≡ some index
        → (index < t.used) × (entry_reclaimable (entry_at t index) ≡ true))
    → FreeSlot t (elim old [
      | some index ↦ (t, inl index)
      | none ↦
          if ltb t.used background_cap
          then (record t { used = t.used + 1 }, inl t.used)
          else (t, inr eagain)
    ])
unfolding entry_reclaimable
chosen-FreeSlot t none few taken inside =
    if-FreeSlot t (record t { used = t.used + 1 }, inl t.used) (t, inr eagain)
      (ltb t.used background_cap)
      (λ _. (refl, omega arith, omega arith, λ j h active same. omega (arith, h, same)))
      (λ p. (refl, refl, (ground (arith, p, few), taken refl)))
chosen-FreeSlot t (some index) few taken inside =
    let at_ = inside index refl in
    (
      refl,
      omega arith,
      at_.0,
      λ j h active same.
          let reclaimed = subst (λ n. entry_reclaimable (entry_at t n) ≡ true) same at_.1 in
          ground (arith, active, reclaimed),
    )

pub available_entry-FreeSlot :
    (t : BackgroundTable)
    → t.used ≤ background_cap
    → length t.entries ≡ background_cap
    → FreeSlot t (available_entry t)
unfolding available_entry
available_entry-FreeSlot t few slots =
    if-FreeSlot t (t, inr einval) _ (overfull t) (λ p. absurd (ground (arith, p, few)))
      (λ _.
        chosen-FreeSlot t (find_index entry_reclaimable (used_entries t)) few
          (λ missing j inside.
            let reach : j < length (used_entries t) =
              omega (arith, inside, length-take t.used t.entries, slots, few) in
            ap entry_reclaimable (sym (get_or-take t.used j t.entries blank_entry inside))
            ∙ find_index-none entry_reclaimable (used_entries t) blank_entry j missing reach)
          (λ index found. found_entry t entry_reclaimable index found))
