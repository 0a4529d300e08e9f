-- ===== src/Jobs/Reported.antt =====
-- src/background_jobs.c: the report of a process keeps the table valid.
use gsh.Prelude.{
  ℕ, ◌<◌, Bool, true, false, Bool-cases, some, Option-cases, ltb, ◌==◌, if◌then◌else◌, length,
  get_or, take, length-take, ◌≡◌, refl, sym, ap, ◌∙◌, inl, inr, arith,
}
use mathlib.Core.Path.{subst}
use gsh.Jobs.{WaitMacros, Entry, BackgroundTable, member_cap}
use gsh.Jobs.Table.{
  find_index, blank_entry, entry_at, put_entry, used_entries, overfull, has_member,
}
use gsh.Jobs.Pipeline.{is_terminal}
use gsh.Jobs.Ending.{terminate_member-finish}
use gsh.Jobs.Update.{
  mark_member, all_members_stopped, stop_member, continue_member, count_terminated,
  record_terminated, finish_entry, terminate_member, update_entry, make_current, member_index,
  update_at, update_member, becomes_current,
}
use gsh.Jobs.Entries.{update_entry-IsValid}
use gsh.Jobs.Marked.{EntryIsValid}
use gsh.Jobs.Slots.{get_or-take, find_index-Hit, ValidSlots, put-ValidSlots}

abbrev pub TableIsValid : BackgroundTable → Type 0
TableIsValid t = ValidSlots t.entries t.used

-- What a loop over the used entries finds.
pub found_entry :
    (t : BackgroundTable) (p : Entry → Bool) (index : ℕ)
    → find_index p (used_entries t) ≡ some index
    → (index < t.used) × (p (entry_at t index) ≡ true)
found_entry t p index h =
    let hit = find_index-Hit p (used_entries t) blank_entry index h in
    let inside : index < t.used = omega (arith, hit.0, length-take t.used t.entries) in
    (inside, ap p (sym (get_or-take t.used index t.entries blank_entry inside)) ∙ hit.1)

-- An entry that takes another's place, known only if that was, with its id.
pub record Replaces (old e : Entry) : Type 0 where
  pub room : length e.member_states ≡ member_cap
  pub valid : e.known ≡ true → EntryIsValid e
  pub known : e.known ≡ true → old.known ≡ true
  pub same_id : e.job_id ≡ old.job_id

pub put-valid :
    (t : BackgroundTable) (index : ℕ) (e : Entry)
    → TableIsValid t
    → index < t.used
    → Replaces (entry_at t index) e
    → TableIsValid (put_entry t index e)
put-valid t index e v inside r =
    put-ValidSlots index t.used e v inside v.few (λ j h _. h)
      (record {
        room = r.room;
        valid = r.valid;
        id_nonzero = λ k. omega (arith, r.same_id, v.ids_nonzero index inside (r.known k));
        id_apart = λ j h apart k p same.
            apart (sym (v.ids_apart index j inside h (r.known k) p (sym r.same_id ∙ same)));
      })

pub make_current-valid :
    (t : BackgroundTable) (job_id : ℕ) → TableIsValid t → TableIsValid (make_current t job_id)
unfolding make_current
make_current-valid t job_id v = elim (Bool-cases (t.current_job_id == job_id)) [
  | inl p ↦ rw p v
  | inr p ↦ rw p v
]

-- The entry is known, and has its id, as before.
record SameId (e after : Entry) : Type 0 where
  same_known : after.known ≡ e.known
  same_id : after.job_id ≡ e.job_id

kept : (e : Entry) → SameId e e
kept e = record { same_known = refl; same_id = refl }

SameId-trans : {e f g : Entry} → SameId e f → SameId f g → SameId e g
SameId-trans p q = record {
  same_known = q.same_known ∙ p.same_known;
  same_id = q.same_id ∙ p.same_id;
}

if-SameId :
    {e x y : Entry} (test : Bool) → SameId e x → SameId e y → SameId e (if test then x else y)
if-SameId true p q = p
if-SameId false p q = q

stop_member-SameId : (e : Entry) (member : ℕ) → SameId e (stop_member e member)
unfolding stop_member
stop_member-SameId e member =
    if-SameId (all_members_stopped (mark_member e member 1))
      (record { same_known = refl; same_id = refl }) (record { same_known = refl; same_id = refl })

count_terminated-SameId : (e : Entry) (member : ℕ) → SameId e (count_terminated e member)
unfolding count_terminated
count_terminated-SameId e member =
    if-SameId (get_or e.member_states member 0 == 2) (kept e)
      (record { same_known = refl; same_id = refl })

record_terminated-SameId :
    (w : WaitMacros) (e : Entry) (member st : ℕ) → SameId e (record_terminated w e member st)
unfolding record_terminated
record_terminated-SameId w e member st =
    if-SameId (ltb member e.pipeline_status.command_count)
      (record { same_known = refl; same_id = refl }) (kept e)

finish_entry-SameId : (e : Entry) → SameId e (finish_entry e)
unfolding finish_entry
finish_entry-SameId e =
    if-SameId (e.remaining == 0) (record { same_known = refl; same_id = refl }) (kept e)

terminate_member-SameId :
    (w : WaitMacros) (e : Entry) (member st : ℕ) → SameId e (terminate_member w e member st)
terminate_member-SameId w e member st =
    let counted = count_terminated e member in
    let recorded = record_terminated w counted member st in
    subst (SameId e) (sym (terminate_member-finish w e member st)) (
      SameId-trans (count_terminated-SameId e member) (
        SameId-trans (record_terminated-SameId w counted member st) (finish_entry-SameId recorded)))

update_entry-SameId :
    (w : WaitMacros) (e : Entry) (member st : ℕ) → SameId e (update_entry w e member st)
unfolding update_entry continue_member
update_entry-SameId w e member st = if-SameId (w.stopped st) (stop_member-SameId e member) (
    if-SameId (w.continued st) (record { same_known = refl; same_id = refl })
      (if-SameId (is_terminal w st) (terminate_member-SameId w e member st) (kept e)))

-- The kernel reports nothing of a process that has ended.
abbrev pub Reportable : BackgroundTable → ℕ → Type 0
Reportable t pid =
    (index : ℕ)
    → find_index (has_member pid) (used_entries t) ≡ some index
    → let e = entry_at t index in (get_or e.member_states (member_index e pid) 0 == 2) ≡ false

member_inside :
    (e : Entry) (pid : ℕ) → has_member pid e ≡ true → member_index e pid < e.member_count
member_inside e pid h =
    elim (Option-cases (find_index (λ p. p == pid) (take e.member_count e.members))) [
      | inl missing ↦ absurd (ground (arith, h, missing))
      | inr (j, found) ↦
          let hit = find_index-Hit (λ p. p == pid) (take e.member_count e.members) 0 j found in
          rw found (omega (arith, hit.0, length-take e.member_count e.members))
    ]

update_at-valid :
    (w : WaitMacros) (t : BackgroundTable) (index pid st : ℕ)
    → TableIsValid t
    → index < t.used
    → has_member pid (entry_at t index) ≡ true
    → (get_or (entry_at t index).member_states (member_index (entry_at t index) pid) 0 == 2) ≡ false
    → TableIsValid (update_at w t index (member_index (entry_at t index) pid) st)
unfolding update_at
update_at-valid w t index pid st v inside has live =
    let e = entry_at t index in
    let member = member_index e pid in
    let known : e.known ≡ true = ground (arith, has) in
    let kept =
      update_entry-IsValid w e member st (v.valid index inside known)
        (record { inside = member_inside e pid has; not_ended = live }) in
    let same = update_entry-SameId w e member st in
    let put = put-valid t index (update_entry w e member st) v inside (record {
      room = kept.room;
      valid = λ _. kept;
      known = λ _. known;
      same_id = same.same_id;
    }) in
    elim (Bool-cases (becomes_current w e member st)) [
      | inl p ↦
          rw p (make_current-valid (put_entry t index (update_entry w e member st)) e.job_id put)
      | inr p ↦ rw p put
    ]

pub not_overfull : (t : BackgroundTable) → TableIsValid t → overfull t ≡ false
not_overfull t v = ground (arith, v.few)

pub update_member-valid :
    (w : WaitMacros) (t : BackgroundTable) (pid st : ℕ)
    → TableIsValid t
    → Reportable t pid
    → TableIsValid (update_member w t pid st).0
unfolding update_member
update_member-valid w t pid st v alive =
    elim (Option-cases (find_index (has_member pid) (used_entries t))) [
      | inl missing ↦ rw (not_overfull t v, missing) v
      | inr (index, found) ↦
          let at_ = found_entry t (has_member pid) index found in
          rw (not_overfull t v, found)
            (update_at-valid w t index pid st v at_.0 at_.1 (alive index found))
    ]
