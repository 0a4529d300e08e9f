-- ===== src/Jobs/Released.antt =====
-- src/background_jobs.c: what forgets a job or changes its state keeps the table valid.
use gsh.Prelude.{
  ℕ, zero, suc, ◌≤◌, ◌<◌, Bool, true, false, ◌&&◌, ◌||◌, Bool-cases, List, [], ◌∷◌, some,
  Option-cases, ◌==◌, length, get_or, ◌≡◌, refl, ap, ◌∙◌, inl, inr, arith,
}
use gsh.Jobs.{Entry, BackgroundTable}
use gsh.Jobs.Table.{
  find_index, is_some, is_active, blank_entry, entry_at, put_entry, used_entries, overfull,
  has_job_id, is_done_state,
}
use gsh.Jobs.Release.{
  entry_for_id, trim_used, trim, clear_command, refresh_current_jobs, background_consume,
  forget_entries, consume_all_if_done, with_entry, mark_notified, continue_entry, stop_entry,
  continue_job, stop_job, remove_job, resume_at, remove_at, notify_at, removed_entry,
  consumed_entry,
}
use gsh.Jobs.Entries.{continue_entry-IsValid, stop_entry-IsValid}
use gsh.Jobs.Marked.{EntryIsValid}
use gsh.Jobs.Slots.{fewer-ValidSlots}
use gsh.Jobs.Reported.{TableIsValid, found_entry, put-valid, make_current-valid, not_overfull}

trim_used_bound : (es : List Entry) (used : ℕ) (d : Entry) → trim_used es used d ≤ used
unfolding trim_used
trim_used_bound es zero d = omega arith
trim_used_bound es (suc used) d = grind (arith, trim_used_bound es used d)

-- An entry that is forgotten.
forgotten-valid :
    (t : BackgroundTable) (index : ℕ) (e d : Entry)
    → TableIsValid t
    → index < t.used
    → e.known ≡ false
    → e.member_states ≡ (entry_at t index).member_states
    → e.job_id ≡ (entry_at t index).job_id
    → TableIsValid (refresh_current_jobs (trim (put_entry t index e) d))
unfolding refresh_current_jobs
forgotten-valid t index e d v inside unknown states id =
    let put = put-valid t index e v inside (record {
      room = ap length states ∙ v.rooms index (omega (arith, inside, v.few));
      valid = λ k. absurd (cc);
      known = λ k. absurd (cc);
      same_id = id;
    }) in
    fewer-ValidSlots (trim_used (put_entry t index e).entries t.used d) put
      (trim_used_bound (put_entry t index e).entries t.used d)

pub consume-valid :
    (t : BackgroundTable) (pid : ℕ) → TableIsValid t → TableIsValid (background_consume t pid).0
unfolding background_consume clear_command
consume-valid t pid v =
    let wanted = λ (e : Entry). e.known && e.pid == pid && e.is_done in
    elim (Option-cases
      (find_index (λ (e : Entry). e.known && e.pid == pid && e.is_done) (used_entries t))) [
        | inl missing ↦ rw (not_overfull t v, missing) v
        | inr (index, found) ↦
            let at_ = found_entry t wanted index found in
            rw (not_overfull t v, found)
              (forgotten-valid t index (consumed_entry (entry_at t index)) (entry_at t index) v
                at_.0 refl refl refl)
      ]

found_by_id :
    (t : BackgroundTable) (job_id index : ℕ)
    → entry_for_id t job_id ≡ some index
    → (index < t.used) × (has_job_id job_id (entry_at t index) ≡ true)
unfolding entry_for_id
found_by_id t job_id index h = elim (Bool-cases (job_id == 0 || overfull t)) [
  | inl p ↦ absurd (cc (rw p at h))
  | inr p ↦ found_entry t (has_job_id job_id) index (rw p at h)
]

-- An operation on the entry with an id.
with_entry-valid :
    (t : BackgroundTable) (job_id : ℕ) (change : ℕ → Entry → BackgroundTable × Bool)
    → TableIsValid t
    → ((index : ℕ)
        → index < t.used
        → (entry_at t index).known ≡ true
        → TableIsValid (change index (entry_at t index)).0)
    → TableIsValid (with_entry t job_id change).0
with_entry-valid t job_id change v each = elim (Option-cases (entry_for_id t job_id)) [
  | inl missing ↦ rw (with_entry, missing) v
  | inr (index, found) ↦
      let at_ = found_by_id t job_id index found in
      let known : (entry_at t index).known ≡ true = ground (arith, at_.1) in
      rw (with_entry, found) (each index at_.0 known)
]

pub remove_job-valid :
    (t : BackgroundTable) (job_id : ℕ) → TableIsValid t → TableIsValid (remove_job t job_id).0
unfolding remove_job clear_command
remove_job-valid t job_id v = with_entry-valid t job_id (remove_at t) v (λ index inside known.
    forgotten-valid t index (removed_entry (entry_at t index)) (entry_at t index) v inside refl refl
      refl)

pub mark_notified-valid :
    (t : BackgroundTable) (job_id : ℕ) → TableIsValid t → TableIsValid (mark_notified t job_id).0
unfolding mark_notified
mark_notified-valid t job_id v = with_entry-valid t job_id (notify_at t) v (λ index inside known.
    let e = entry_at t index in
    let old = v.valid index inside known in
    put-valid t index (record e { notified = true }) v inside
      (record {
        room = old.room;
        valid = λ k. record {
          room = old.room;
          within = old.within;
          counts = old.counts;
          done_iff = old.done_iff;
          done_same = old.done_same;
        };
        known = λ k. known;
        same_id = refl;
      }))

continue_entry_id : (e : Entry) → (continue_entry e).job_id ≡ e.job_id
unfolding continue_entry
continue_entry_id e = refl

stop_entry_id : (e : Entry) → (stop_entry e).job_id ≡ e.job_id
unfolding stop_entry
stop_entry_id e = refl

-- A change of state that keeps an entry valid, its id and that it is known.
resume_at-valid :
    (t : BackgroundTable) (job_id : ℕ) (change : Entry → Entry) (index : ℕ)
    → ((e : Entry) → EntryIsValid e → is_done_state e.state ≡ false → EntryIsValid (change e))
    → ((e : Entry) → (change e).job_id ≡ e.job_id)
    → TableIsValid t
    → index < t.used
    → (entry_at t index).known ≡ true
    → TableIsValid (resume_at t job_id change index (entry_at t index)).0
resume_at-valid t job_id change index keeps same v inside known =
    let e = entry_at t index in
    elim (Bool-cases (is_done_state e.state)) [
      | inl p ↦ rw p v
      | inr active ↦
          let new = keeps e (v.valid index inside known) active in
          let put =
            put-valid t index (change e) v inside (record {
              room = new.room;
              valid = λ k. new;
              known = λ k. known;
              same_id = same e;
            }) in
          rw active (make_current-valid (put_entry t index (change e)) job_id put)
    ]

pub continue_job-valid :
    (t : BackgroundTable) (job_id : ℕ) → TableIsValid t → TableIsValid (continue_job t job_id).0
unfolding continue_job
continue_job-valid t job_id v =
    with_entry-valid t job_id (resume_at t job_id continue_entry) v (λ index.
      resume_at-valid t job_id continue_entry index continue_entry-IsValid continue_entry_id v)

pub stop_job-valid :
    (t : BackgroundTable) (job_id : ℕ) → TableIsValid t → TableIsValid (stop_job t job_id).0
unfolding stop_job
stop_job-valid t job_id v =
    with_entry-valid t job_id (resume_at t job_id stop_entry) v
      (λ index. resume_at-valid t job_id stop_entry index stop_entry-IsValid stop_entry_id v)

-- Forgetting all entries at once.
forget_entries-length : (n : ℕ) (es : List Entry) → length (forget_entries n es) ≡ length es
unfolding forget_entries
forget_entries-length zero es = refl
forget_entries-length (suc n) [] = refl
forget_entries-length (suc n) (e ∷ es) = ap suc (forget_entries-length n es)

forget_entries_states :
    (n i : ℕ) (es : List Entry)
    → (get_or (forget_entries n es) i blank_entry).member_states
      ≡ (get_or es i blank_entry).member_states
unfolding forget_entries
forget_entries_states zero i es = refl
forget_entries_states (suc n) i [] = refl
forget_entries_states (suc n) zero (e ∷ es) = refl
forget_entries_states (suc n) (suc i) (e ∷ es) = forget_entries_states n i es

pub consume_all-valid :
    (t : BackgroundTable) → TableIsValid t → TableIsValid (consume_all_if_done t).0
unfolding consume_all_if_done
consume_all-valid t v =
    elim (Bool-cases (overfull t || is_some (find_index is_active (used_entries t)))) [
      | inl p ↦ rw p v
      | inr p ↦ rw p (record {
        slots = forget_entries-length t.used t.entries ∙ v.slots;
        few = omega arith;
        rooms = λ i h. ap length (forget_entries_states t.used i t.entries) ∙ v.rooms i h;
        valid = λ i h. absurd (omega arith);
        ids_nonzero = λ i h. absurd (omega arith);
        ids_apart = λ i j h. absurd (omega arith);
      })
    ]
