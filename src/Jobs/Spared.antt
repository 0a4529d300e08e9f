-- ===== src/Jobs/Spared.antt =====
-- src/background_jobs.c: what a launch adds, and what it leaves as it was.
use gsh.Prelude.{
  ℕ, zero, suc, ◌+◌, ◌≤◌, ◌<◌, Bool, true, false, ◌&&◌, not, Bool-cases, Option, none, some, ◌==◌,
  if◌then◌else◌, get_or, set, get_or-set_self, get_or-set_ne, ◌⊎◌, ◌≡◌, refl, sym, ap, ◌∙◌, inl,
  inr, arith, Errno, length,
}
use mathlib.Core.Path.{subst}
use gsh.Jobs.{Entry, BackgroundTable, background_cap}
use gsh.Jobs.Table.{
  is_active, entry_at, blank_entry, bump_job_id, next_job_id_in, job_id_in_use, assign_job_id,
  available_entry, check_members, Launch, fill_entry, launch_at, launch_available, launch_assigned,
  launch_refused, add_job,
}
use gsh.Jobs.Release.{entry_for_id}
use gsh.Jobs.Reported.{TableIsValid}
use gsh.Jobs.Launched.{next_job_id_in-FreshId, launch_assigned-valid}
use gsh.Jobs.Filled.{Holds, fill_entry-Holds}
use gsh.Jobs.Available.{IsFull, FreeSlot, available_entry-FreeSlot}
use gsh.Jobs.Refusals.{
  Refusal, bad_member, no_id, full, IsTaken, candidate, Checked, refused-bad_launch,
  check_members-Checked, next_job_id_in-IsTaken,
}
use gsh.Jobs.Found.{entry_for_id_known}

-- Only the next id has changed.
abbrev SameJobs : BackgroundTable → BackgroundTable → Type 0
SameJobs t t' = t' ≡ record t { next_job_id = t'.next_job_id }

next_job_id_in-SameJobs :
    (rounds : ℕ) (t : BackgroundTable) → SameJobs t (next_job_id_in rounds t).0
unfolding next_job_id_in
next_job_id_in-SameJobs zero t = refl
next_job_id_in-SameJobs (suc rounds) t =
    elim (Bool-cases
      (not (t.next_job_id == 0) && not (job_id_in_use (bump_job_id t) t.next_job_id))) [
        | inl p ↦ rw (SameJobs, p) refl
        | inr p ↦ rw (SameJobs, p) (next_job_id_in-SameJobs rounds (bump_job_id t))
      ]

-- The job that was launched, in the table after the launch.
pub record IsLaunched (t : BackgroundTable) (launch : Launch) (t' : BackgroundTable) (id : ℕ)
    : Type 0 where
  pub index : ℕ
  pub found : entry_for_id t' id ≡ some index
  pub holds : Holds launch id t.next_sequence (entry_at t' index)
  pub current : t'.current_job_id ≡ id
  pub previous : t'.previous_job_id ≡ t.current_job_id
  pub spared :
      (j : ℕ)
      → j < t.used
      → is_active (entry_at t j) ≡ true
      → (j < t'.used) × (entry_at t' j ≡ entry_at t j)

-- What `gsh_background_add_job` answers: the new job, or an error that leaves all but the next id.
abbrev pub LaunchAnswer : BackgroundTable → Launch → BackgroundTable × (ℕ ⊎ Errno) → Type 0
LaunchAnswer t launch (t', inl id) = IsLaunched t launch t' id
LaunchAnswer t launch (t', inr e) = SameJobs t t' × Refusal t launch e

-- The table with the id and the slot that were found.
abbrev prepared : BackgroundTable → ℕ → ℕ → BackgroundTable
prepared t next used = record t { next_job_id = next; used = used }

launch_at-IsLaunched :
    (t : BackgroundTable) (launch : Launch) (next used id index : ℕ)
    → TableIsValid t
    → TableIsValid (launch_at (prepared t next used) launch id index)
    → FreeSlot (prepared t next t.used) (prepared t next used, inl index)
    → IsLaunched t launch (launch_at (prepared t next used) launch id index) id
unfolding launch_at fill_entry
launch_at-IsLaunched t launch next used id index v after slot =
    let e = fill_entry (entry_at t index) launch id t.next_sequence in
    let written : get_or (set t.entries index e) index blank_entry ≡ e =
      get_or-set_self t.entries index e blank_entry (omega (arith, slot.2, after.few, v.slots)) in
    record {
      index = index;
      found =
          entry_for_id_known (launch_at (prepared t next used) launch id index) id index after
            slot.2 (ap (λ (x : Entry). x.known) written) (ap (λ (x : Entry). x.job_id) written);
      holds =
          subst (Holds launch id t.next_sequence) (sym written)
            (fill_entry-Holds (entry_at t index) launch id t.next_sequence);
      current = refl;
      previous = refl;
      spared = λ j h active.
          (omega (arith, h, slot.1), get_or-set_ne t.entries e blank_entry (slot.3 j h active));
    }

launch_available-Answer :
    (t t1 : BackgroundTable) (launch : Launch) (id : ℕ) (slot : BackgroundTable × (ℕ ⊎ Errno))
    → TableIsValid t
    → SameJobs t t1
    → FreeSlot t1 slot
    → TableIsValid (launch_available launch id slot).0
    → LaunchAnswer t launch (launch_available launch id slot)
unfolding launch_available
launch_available-Answer t t1 launch id (t2, inl index) v same slot after =
    let equal : t2 ≡ prepared t t1.next_job_id t2.used =
      slot.0 ∙ ap (λ (x : BackgroundTable). prepared x x.next_job_id t2.used) same in
    let slot_in_t = subst (λ x. FreeSlot x (t2, inl index)) same slot in
    subst (λ x. LaunchAnswer t launch (launch_at x launch id index, inl id)) (sym equal)
      (launch_at-IsLaunched t launch t1.next_job_id t2.used id index v
        (subst (λ x. TableIsValid (launch_at x launch id index)) equal after)
        (subst (λ x. FreeSlot (prepared t t1.next_job_id t.used) (x, inl index)) equal slot_in_t))
launch_available-Answer t t1 launch id (t2, inr e) v same slot after = (
  subst (SameJobs t) (sym slot.0) same,
  subst (Refusal t launch) (sym slot.1) (full (subst IsFull same slot.2)),
)

launch_assigned-Answer :
    (t : BackgroundTable) (launch : Launch) (new : BackgroundTable × Option ℕ)
    → TableIsValid t
    → SameJobs t new.0
    → (new.1 ≡ none → (k : ℕ) → k ≤ background_cap → IsTaken t (candidate k t.next_job_id))
    → TableIsValid (launch_assigned launch new).0
    → LaunchAnswer t launch (launch_assigned launch new)
unfolding launch_assigned
launch_assigned-Answer t launch (t1, none) v same missing after = (same, no_id (missing refl))
launch_assigned-Answer t launch (t1, some id) v same missing after =
    launch_available-Answer t t1 launch id (available_entry t1) v same
      (available_entry-FreeSlot t1 (subst (λ x. x.used ≤ background_cap) (sym same) v.few)
        (subst (λ x. length x.entries ≡ background_cap) (sym same) v.slots))
      after

if-Answer :
    (t : BackgroundTable) (launch : Launch) (x y : BackgroundTable × (ℕ ⊎ Errno)) (test : Bool)
    → (test ≡ true → LaunchAnswer t launch x)
    → (test ≡ false → LaunchAnswer t launch y)
    → LaunchAnswer t launch (if test then x else y)
if-Answer t launch x y true p q = p refl
if-Answer t launch x y false p q = q refl

-- The error of a member that is refused, or the answer.
members-Answer :
    (t : BackgroundTable) (launch : Launch) (error : Option Errno)
    (x : BackgroundTable × (ℕ ⊎ Errno))
    → Checked t launch.members error
    → LaunchAnswer t launch x
    → LaunchAnswer t launch (elim error [ some e ↦ (t, inr e) | none ↦ x ])
members-Answer t launch none x h p = p
members-Answer t launch (some e) x h p = (refl, bad_member e h)

-- A launch into a valid table either is refused and changes nothing but the next job id, and then it
-- asks for what no launch may have, one of its processes is invalid or in use, the next 129 ids are
-- taken or every entry is; or it gives an id under which a lookup finds the new job, running in the
-- background, with the processes, the group, the command, the origin and the options of the launch
-- and the next sequence number; the new job is the current one and the one that was current is the
-- previous one; and every job that is known and not done keeps its place and its entry.
pub add_job-Answer :
    (t : BackgroundTable) (launch : Launch)
    → TableIsValid t
    → LaunchAnswer t launch (add_job t launch)
unfolding add_job assign_job_id
add_job-Answer t launch v =
    if-Answer t launch _ _ (launch_refused t launch)
      (λ p. (refl, refused-bad_launch t launch v.few p))
      (λ p.
        let new = next_job_id_in (background_cap + 1) t in
        let after =
          launch_assigned-valid launch new (next_job_id_in-FreshId (background_cap + 1) t v)
            (ground (arith, p)) (ground (arith, p)) in
        members-Answer t launch (check_members t launch.members) (launch_assigned launch new)
          (check_members-Checked t launch.members v.few)
          (launch_assigned-Answer t launch new v (next_job_id_in-SameJobs (background_cap + 1) t)
            (λ missing k inside.
              next_job_id_in-IsTaken (background_cap + 1) t v.few missing k (omega arith))
            after))
