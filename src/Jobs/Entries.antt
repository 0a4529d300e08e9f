-- ===== src/Jobs/Entries.antt =====
-- src/background_jobs.c: an entry counts its members that have not ended, and is done when none is
-- left.
use gsh.Prelude.{
  ℕ, ◌+◌, ◌≤◌, false, Bool-cases, ltb, ◌==◌, if◌then◌else◌, length, set, take, drop, replicate,
  length-append, length-replicate, length-drop, ◌≡◌, refl, sym, ap, ap₂, ◌∙◌, inl, inr, arith,
}
use gsh.Jobs.{WaitMacros, Entry, JobState, running, stopped, member_cap}
use gsh.Jobs.Pipeline.{is_terminal}
use gsh.Jobs.Table.{is_done_state, Launch, fill_entry}
use gsh.Jobs.Update.{
  count_terminated, record_terminated, finish_entry, terminate_member, update_entry,
}
use gsh.Jobs.Release.{change_members, continue_entry, stop_entry}
use gsh.Jobs.Marked.{
  marked_count, marked_room, some_left, active_state, not_done, stop_member-IsValid,
  continue_member-IsValid, unfinished, EntryIsValid, IsRunning, unfinished-map,
  unfinished-replicate, length-map_first,
}

-- What `finish_entry` starts from: a member has just ended.
pub record HasEnded (before : Entry) (member : ℕ) (after : Entry) : Type 0 where
  pub states : after.member_states ≡ set before.member_states member 2
  pub same_count : after.member_count ≡ before.member_count
  pub one_less : after.remaining + 1 ≡ before.remaining
  pub same_state : after.state ≡ before.state
  pub same_done : after.is_done ≡ before.is_done

finish_entry-IsValid :
    (before after : Entry) (member : ℕ)
    → EntryIsValid before
    → IsRunning before member
    → HasEnded before member after
    → EntryIsValid (finish_entry after)
unfolding finish_entry
finish_entry-IsValid before after member v r h =
    let kept_room : length after.member_states ≡ member_cap =
      ap length h.states ∙ marked_room member v r 2 in
    let kept_within : after.member_count ≤ member_cap = omega (arith, h.same_count, v.within) in
    let same_members : unfinished (take after.member_count after.member_states)
        ≡ unfinished (take before.member_count (set before.member_states member 2)) =
      ap₂ (λ n ss. unfinished (take n ss)) h.same_count h.states in
    let kept_counts : after.remaining ≡ unfinished (take after.member_count after.member_states) =
      omega (arith, h.one_less, marked_count member v r 2, same_members) in
    let active : is_done_state after.state ≡ false =
      ap is_done_state h.same_state ∙ active_state member v r in
    elim (Bool-cases (after.remaining == 0)) [
      | inl none_left ↦ rw none_left (record {
        room = kept_room;
        within = kept_within;
        counts = kept_counts;
        done_iff = sym none_left;
        done_same = refl;
      })
      | inr some_ ↦ rw some_ (record {
        room = kept_room;
        within = kept_within;
        counts = kept_counts;
        done_iff = active ∙ sym some_;
        done_same = h.same_done ∙ not_done member v r ∙ sym active;
      })
    ]

-- The entry that `finish_entry` is given.
abbrev pub ended_entry : WaitMacros → Entry → ℕ → ℕ → Entry
ended_entry w e member st = record_terminated w (count_terminated e member) member st

pub ended_entry-HasEnded :
    (w : WaitMacros) (e : Entry) (member st : ℕ)
    → EntryIsValid e
    → IsRunning e member
    → HasEnded e member (ended_entry w e member st)
unfolding count_terminated record_terminated
ended_entry-HasEnded w e member st v r =
    let positive = some_left member v r in
    rw r.not_ended (elim (Bool-cases (ltb member e.pipeline_status.command_count)) [
      | inl command ↦ rw command (record {
        states = refl;
        same_count = refl;
        one_less = omega arith;
        same_state = refl;
        same_done = refl;
      })
      | inr helper ↦ rw helper (record {
        states = refl;
        same_count = refl;
        one_less = omega arith;
        same_state = refl;
        same_done = refl;
      })
    ])

pub terminate_member-IsValid :
    (w : WaitMacros) (e : Entry) (member st : ℕ)
    → EntryIsValid e
    → IsRunning e member
    → EntryIsValid (terminate_member w e member st)
unfolding terminate_member
terminate_member-IsValid w e member st v r =
    finish_entry-IsValid e (ended_entry w e member st) member v r
      (ended_entry-HasEnded w e member st v r)

-- A report of a member that has not ended keeps the entry's counts true.
pub update_entry-IsValid :
    (w : WaitMacros) (e : Entry) (member st : ℕ)
    → EntryIsValid e
    → IsRunning e member
    → EntryIsValid (update_entry w e member st)
unfolding update_entry
update_entry-IsValid w e member st v r = elim (Bool-cases (w.stopped st)) [
  | inl p ↦ rw p (stop_member-IsValid member v r)
  | inr p ↦ elim (Bool-cases (w.continued st)) [
    | inl q ↦ rw (p, q) (continue_member-IsValid member v r)
    | inr q ↦ elim (Bool-cases (is_terminal w st)) [
      | inl t ↦ rw (p, q, t) (terminate_member-IsValid w e member st v r)
      | inr t ↦ rw (p, q, t) v
    ]
  ]
]

-- A job that has been launched.
pub fill_entry-IsValid :
    (e : Entry) (launch : Launch) (assigned sequence : ℕ)
    → length e.member_states ≡ member_cap
    → 1 ≤ length launch.members
    → length launch.members ≤ member_cap
    → EntryIsValid (fill_entry e launch assigned sequence)
unfolding fill_entry
fill_entry-IsValid e launch assigned sequence room some_ few =
    let members = length launch.members in
    record {
      room =
          length-append (replicate members 0) (drop members e.member_states)
          ∙ omega (arith, length-replicate {A = ℕ} members 0, length-drop members e.member_states);
      within = few;
      counts = sym (unfinished-replicate members (drop members e.member_states));
      done_iff = ground arith;
      done_same = refl;
    }

changed-IsValid :
    (e : Entry) (f : ℕ → ℕ) (state : JobState)
    → EntryIsValid e
    → ((s : ℕ) → (f s == 2) ≡ (s == 2))
    → is_done_state e.state ≡ false
    → is_done_state state ≡ false
    → EntryIsValid (record (change_members f e) { state = state; notified = false })
changed-IsValid e f state v same active after = record {
  room = length-map_first f e.member_count e.member_states ∙ v.room;
  within = v.within;
  counts = v.counts ∙ sym (unfinished-map f e.member_count e.member_states same);
  done_iff = after ∙ sym active ∙ v.done_iff;
  done_same = v.done_same ∙ active ∙ sym after;
}

pub continue_entry-IsValid :
    (e : Entry) → EntryIsValid e → is_done_state e.state ≡ false → EntryIsValid (continue_entry e)
unfolding continue_entry
continue_entry-IsValid e v active =
    changed-IsValid e (λ s. if s == 1 then 0 else s) running v (λ s. ground arith) active refl

pub stop_entry-IsValid :
    (e : Entry) → EntryIsValid e → is_done_state e.state ≡ false → EntryIsValid (stop_entry e)
unfolding stop_entry
stop_entry-IsValid e v active =
    changed-IsValid e (λ s. if s == 2 then s else 1) stopped v (λ s. ground arith) active refl
