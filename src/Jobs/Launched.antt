-- ===== src/Jobs/Launched.antt =====
-- src/background_jobs.c: launching a job keeps the table valid, under an id that no known job has.
use gsh.Prelude.{
  ℕ, zero, suc, ◌+◌, ◌≤◌, ◌<◌, Bool, true, false, ◌&&◌, not, Bool-cases, Option, none, some,
  Option-cases, ltb, ◌==◌, if◌then◌else◌, length, length-take, ◌⊎◌, ◌≡◌, ◌≢◌, refl, sym, ap, ◌∙◌,
  inl, inr, arith, Errno, eagain,
}
use mathlib.Core.Path.{subst}
use gsh.Jobs.{BackgroundTable, background_cap, member_cap}
use gsh.Jobs.Table.{
  find_index, is_some, blank_entry, entry_at, used_entries, overfull, has_job_id, job_id_in_use,
  bump_job_id, next_job_id_in, assign_job_id, entry_reclaimable, available_entry, check_members,
  Launch, fill_entry, launch_at, launch_available, launch_assigned, launch_refused, add_job,
}
use gsh.Jobs.Entries.{fill_entry-IsValid}
use gsh.Jobs.Marked.{EntryIsValid}
use gsh.Jobs.Slots.{get_or-take, find_index-none, ValidSlots, put-ValidSlots}
use gsh.Jobs.Reported.{TableIsValid, found_entry}

-- The id that was found, if one was, is not 0 and not in use.
abbrev pub FreshId : BackgroundTable × Option ℕ → Type 0
FreshId (t, none) = TableIsValid t
FreshId (t, some id) = TableIsValid t × (1 ≤ id) × (job_id_in_use t id ≡ false)

if-FreshId :
    (x y : BackgroundTable × Option ℕ) (test : Bool)
    → (test ≡ true → FreshId x)
    → (test ≡ false → FreshId y)
    → FreshId (if test then x else y)
if-FreshId x y true p q = p refl
if-FreshId x y false p q = q refl

pub next_job_id_in-FreshId :
    (rounds : ℕ) (t : BackgroundTable) → TableIsValid t → FreshId (next_job_id_in rounds t)
unfolding next_job_id_in
next_job_id_in-FreshId zero t v = v
next_job_id_in-FreshId (suc rounds) t v =
    if-FreshId _ _ (not (t.next_job_id == 0) && not (job_id_in_use (bump_job_id t) t.next_job_id))
      (λ p. (v, ground (arith, p), ground (arith, p)))
      (λ p. next_job_id_in-FreshId rounds (bump_job_id t) v)

-- A slot for the new entry, or an error that changes nothing.
abbrev HasSlot : BackgroundTable → BackgroundTable × (ℕ ⊎ Errno) → Type 0
HasSlot t (t', inl index) =
    (t'.entries ≡ t.entries)
    × (index < t'.used)
    × (t'.used ≤ background_cap)
    × ((j : ℕ) → j < t'.used → j ≢ index → j < t.used)
HasSlot t (t', inr e) = TableIsValid t'

if-HasSlot :
    (t : BackgroundTable) (x y : BackgroundTable × (ℕ ⊎ Errno)) (test : Bool)
    → (test ≡ true → HasSlot t x)
    → (test ≡ false → HasSlot t y)
    → HasSlot t (if test then x else y)
if-HasSlot t x y true p q = p refl
if-HasSlot t x y false p q = q refl

-- The slot, from what the search for an old entry found.
chosen-HasSlot :
    (t : BackgroundTable) (old : Option ℕ)
    → TableIsValid t
    → ((index : ℕ) → old ≡ some index → index < t.used)
    → HasSlot t (elim old [
      | some index ↦ (t, inl index)
      | none ↦
          if ltb t.used background_cap
          then (record t { used = t.used + 1 }, inl t.used)
          else (t, inr eagain)
    ])
chosen-HasSlot t none v inside =
    if-HasSlot t (record t { used = t.used + 1 }, inl t.used) (t, inr eagain)
      (ltb t.used background_cap)
      (λ room. (refl, omega arith, ground (arith, room), λ j h apart. ground (arith, apart)))
      (λ full. v)
chosen-HasSlot t (some index) v inside = (refl, inside index refl, v.few, λ j h apart. h)

available_entry-HasSlot : (t : BackgroundTable) → TableIsValid t → HasSlot t (available_entry t)
unfolding available_entry
available_entry-HasSlot t v =
    if-HasSlot t _ _ (overfull t) (λ refused. v)
      (λ fits.
        chosen-HasSlot t (find_index entry_reclaimable (used_entries t)) v
          (λ index found. (found_entry t entry_reclaimable index found).0))

not_found : (o : Option ℕ) → is_some o ≡ false → o ≡ none
not_found none h = refl
not_found (some i) h = absurd (cc)

unused_id :
    (t : BackgroundTable) (id j : ℕ)
    → TableIsValid t
    → job_id_in_use t id ≡ false
    → j < t.used
    → (entry_at t j).known ≡ true
    → id ≢ (entry_at t j).job_id
unfolding job_id_in_use
unused_id t id j v free h known same =
    let nowhere : find_index (has_job_id id) (used_entries t) ≡ none =
      not_found (find_index (has_job_id id) (used_entries t)) (ground (arith, free)) in
    let inside : j < length (used_entries t) =
      omega (arith, length-take t.used t.entries, v.slots, v.few) in
    let other = find_index-none (has_job_id id) (used_entries t) blank_entry j nowhere inside in
    let there : has_job_id id (entry_at t j) ≡ false =
      ap (has_job_id id) (sym (get_or-take t.used j t.entries blank_entry h)) ∙ other in
    ground (arith, there, known, same)

-- The entry that is launched, in the slot that was found.
launch_at-valid :
    (t t' : BackgroundTable) (launch : Launch) (assigned index : ℕ)
    → TableIsValid t
    → 1 ≤ assigned
    → job_id_in_use t assigned ≡ false
    → HasSlot t (t', inl index)
    → 1 ≤ length launch.members
    → length launch.members ≤ member_cap
    → TableIsValid (launch_at t' launch assigned index)
unfolding launch_at fill_entry
launch_at-valid t t' launch assigned index v positive free slot some_ few =
    let before = subst (λ es. ValidSlots es t.used) (sym slot.0) v in
    let inside : index < background_cap = omega (arith, slot.1, slot.2) in
    let room = before.rooms index inside in
    let e = fill_entry (entry_at t' index) launch assigned t'.next_sequence in
    let valid : EntryIsValid e =
      fill_entry-IsValid (entry_at t' index) launch assigned t'.next_sequence room some_ few in
    put-ValidSlots index t'.used e before slot.1 slot.2 slot.3 (record {
      room = valid.room;
      valid = λ k. valid;
      id_nonzero = λ k. positive;
      id_apart = λ j h apart k known.
          unused_id (record t { entries = t'.entries }) assigned j before
            (subst (λ es. job_id_in_use (record t { entries = es }) assigned ≡ false) (sym slot.0)
              free)
            h known;
    })

launch_available-valid :
    (t : BackgroundTable) (launch : Launch) (assigned : ℕ) (slot : BackgroundTable × (ℕ ⊎ Errno))
    → TableIsValid t
    → 1 ≤ assigned
    → job_id_in_use t assigned ≡ false
    → HasSlot t slot
    → 1 ≤ length launch.members
    → length launch.members ≤ member_cap
    → TableIsValid (launch_available launch assigned slot).0
unfolding launch_available
launch_available-valid t launch assigned (t', inl index) v positive free slot some_ few =
    launch_at-valid t t' launch assigned index v positive free slot some_ few
launch_available-valid t launch assigned (t', inr e) v positive free slot some_ few = slot

pub launch_assigned-valid :
    (launch : Launch) (new : BackgroundTable × Option ℕ)
    → FreshId new
    → 1 ≤ length launch.members
    → length launch.members ≤ member_cap
    → TableIsValid (launch_assigned launch new).0
unfolding launch_assigned
launch_assigned-valid launch (t, none) v some_ few = v
launch_assigned-valid launch (t, some assigned) fresh some_ few =
    launch_available-valid t launch assigned (available_entry t) fresh.0 fresh.1 fresh.2
      (available_entry-HasSlot t fresh.0) some_ few

pub add_job-valid :
    (t : BackgroundTable) (launch : Launch) → TableIsValid t → TableIsValid (add_job t launch).0
unfolding add_job assign_job_id
add_job-valid t launch v = elim (Bool-cases (launch_refused t launch)) [
  | inl p ↦ rw p v
  | inr p ↦ elim (Option-cases (check_members t launch.members)) [
    | inl fine ↦
        rw (p, fine)
          (launch_assigned-valid launch (next_job_id_in (background_cap + 1) t)
            (next_job_id_in-FreshId (background_cap + 1) t v) (ground (arith, p))
            (ground (arith, p)))
    | inr (e, refused) ↦ rw (p, refused) v
  ]
]
