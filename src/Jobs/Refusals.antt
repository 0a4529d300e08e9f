-- ===== src/Jobs/Refusals.antt =====
-- src/background_jobs.c: why `gsh_background_add_job` refuses a launch, apart from how it looks.
use gsh.Prelude.{
  ℕ, zero, suc, ◌+◌, ◌%◌, ◌^◌, ◌≤◌, ◌<◌, ◌&&◌, not, Bool, true, false, Bool-cases, List, [], ◌∷◌,
  Option, none, some, Option-cases, ◌==◌, if◌then◌else◌, ==_iff, ◌⊎◌, ◌≡◌, ◌≢◌, refl, ap, inl, inr,
  arith, Errno, eagain, eexist, einval, length,
}
use gsh.Jobs.{Entry, BackgroundTable, member_cap, command_cap, background_cap}
use gsh.Jobs.Table.{
  find_index, is_some, used_entries, entry_at, has_job_id, has_member, bump_job_id, next_job_id_in,
  job_id_in_use, member_in_use, check_members, Launch, launch_refused,
}
use gsh.Jobs.Reported.{found_entry}
use gsh.Jobs.Available.{IsFull}

-- What a caller may ask for.
pub record IsAcceptable (launch : Launch) : Type 0 where
  pub pgid : launch.pgid ≢ 0
  pub status_pid : launch.status_pid ≢ 0
  pub some_member : 1 ≤ length launch.members
  pub few_members : length launch.members ≤ member_cap
  pub some_command : 1 ≤ launch.command_count
  pub few_commands : launch.command_count ≤ length launch.members
  pub short_command : length launch.command < command_cap

-- An entry in use has the property.
pub record UsedBy (t : BackgroundTable) (p : Entry → Bool) : Type 0 where
  pub index : ℕ
  pub inside : index < t.used
  pub holds : p (entry_at t index) ≡ true

-- A process that is invalid or belongs to a known job, with its error.
pub data BadMember (t : BackgroundTable) : List ℕ → Errno → Type 0 where
  no_process : (pid : ℕ) (pids : List ℕ) → pid ≡ 0 → BadMember t (pid ∷ pids) einval
  used_process :
      (pid : ℕ) (pids : List ℕ) → UsedBy t (has_member pid) → BadMember t (pid ∷ pids) eexist
  behind : (pid : ℕ) (pids : List ℕ) (e : Errno) → BadMember t pids e → BadMember t (pid ∷ pids) e

-- The ids in the order in which they are given out: 32 bits, without 0.
abbrev next_id : ℕ → ℕ
next_id id = if (id + 1) % 2 ^ 32 == 0 then 1 else (id + 1) % 2 ^ 32

abbrev pub candidate : ℕ → ℕ → ℕ
candidate zero id = id
candidate (suc k) id = candidate k (next_id id)

abbrev pub IsTaken : BackgroundTable → ℕ → Type 0
IsTaken t id = (id ≡ 0) ⊎ UsedBy t (has_job_id id)

-- Why a launch is refused: it asks for what no launch may have, a process of it is invalid or in use,
-- the next 129 ids are taken, or every entry is.
pub data Refusal (t : BackgroundTable) (launch : Launch) : Errno → Type 0 where
  bad_launch : ¬ (IsAcceptable launch) → Refusal t launch einval
  bad_member : (e : Errno) → BadMember t launch.members e → Refusal t launch e
  no_id :
      ((k : ℕ) → k ≤ background_cap → IsTaken t (candidate k t.next_job_id))
      → Refusal t launch eagain
  full : IsFull t → Refusal t launch eagain

pub refused-bad_launch :
    (t : BackgroundTable) (launch : Launch)
    → t.used ≤ background_cap
    → launch_refused t launch ≡ true
    → Refusal t launch einval
refused-bad_launch t launch few h = bad_launch (λ a. ground (
  arith, h, few, a.pgid, a.status_pid, a.some_member, a.few_members, a.some_command, a.few_commands,
  a.short_command,
))

some-UsedBy :
    (t : BackgroundTable) (p : Entry → Bool)
    → is_some (find_index p (used_entries t)) ≡ true
    → UsedBy t p
some-UsedBy t p h = elim (Option-cases (find_index p (used_entries t))) [
  | inl missing ↦ absurd (cc (h, ap is_some missing))
  | inr (index, found) ↦
      let at_ = found_entry t p index found in
      record { index = index; inside = at_.0; holds = at_.1 }
]

member_in_use-UsedBy :
    (t : BackgroundTable) (pid : ℕ)
    → t.used ≤ background_cap
    → member_in_use t pid ≡ true
    → UsedBy t (has_member pid)
unfolding member_in_use
member_in_use-UsedBy t pid few h = some-UsedBy t (has_member pid) (ground (arith, h, few))

job_id_in_use-UsedBy :
    (t : BackgroundTable) (id : ℕ)
    → t.used ≤ background_cap
    → job_id_in_use t id ≡ true
    → UsedBy t (has_job_id id)
unfolding job_id_in_use
job_id_in_use-UsedBy t id few h = some-UsedBy t (has_job_id id) (ground (arith, h, few))

-- What the loop over the processes finds wrong.
abbrev pub Checked : BackgroundTable → List ℕ → Option Errno → Type 0
Checked t pids none = Unit
Checked t pids (some e) = BadMember t pids e

if-Checked :
    (t : BackgroundTable) (pids : List ℕ) (x y : Option Errno) (test : Bool)
    → (test ≡ true → Checked t pids x)
    → (test ≡ false → Checked t pids y)
    → Checked t pids (if test then x else y)
if-Checked t pids x y true p q = p refl
if-Checked t pids x y false p q = q refl

Checked-cons :
    (t : BackgroundTable) (pid : ℕ) (pids : List ℕ) (o : Option Errno)
    → Checked t pids o
    → Checked t (pid ∷ pids) o
Checked-cons t pid pids none c = tt
Checked-cons t pid pids (some e) c = behind pid pids e c

pub check_members-Checked :
    (t : BackgroundTable) (pids : List ℕ)
    → t.used ≤ background_cap
    → Checked t pids (check_members t pids)
unfolding check_members
check_members-Checked t [] few = tt
check_members-Checked t (pid ∷ pids) few =
    if-Checked t (pid ∷ pids) (some einval) _ (pid == 0)
      (λ p. no_process pid pids ((==_iff pid 0).0 p))
      (λ _.
        if-Checked t (pid ∷ pids) (some eexist) (check_members t pids) (member_in_use t pid)
          (λ p. used_process pid pids (member_in_use-UsedBy t pid few p))
          (λ _. Checked-cons t pid pids (check_members t pids) (check_members-Checked t pids few)))

-- Only the next id differs.
unbumped : (t : BackgroundTable) (id : ℕ) → IsTaken (bump_job_id t) id → IsTaken t id
unbumped t id (inl zero_id) = inl zero_id
unbumped t id (inr u) = inr (record { index = u.index; inside = u.inside; holds = u.holds })

refused-IsTaken :
    (t : BackgroundTable) (id : ℕ)
    → t.used ≤ background_cap
    → (not (id == 0) && not (job_id_in_use t id)) ≡ false
    → IsTaken t id
refused-IsTaken t id few h = elim (Bool-cases (id == 0)) [
  | inl p ↦ inl ((==_iff id 0).0 p)
  | inr p ↦ inr (job_id_in_use-UsedBy t id few (ground (arith, h, p)))
]

-- The ids that the loop has looked at when it finds none.
pub next_job_id_in-IsTaken :
    (rounds : ℕ) (t : BackgroundTable)
    → t.used ≤ background_cap
    → (next_job_id_in rounds t).1 ≡ none
    → (k : ℕ) → k < rounds
    → IsTaken t (candidate k t.next_job_id)
unfolding next_job_id_in
next_job_id_in-IsTaken zero t few h k inside = absurd (omega (arith, inside))
next_job_id_in-IsTaken (suc rounds) t few h zero inside =
    elim (Bool-cases
      (not (t.next_job_id == 0) && not (job_id_in_use (bump_job_id t) t.next_job_id))) [
        | inl p ↦ absurd (cc (rw p at h))
        | inr p ↦ unbumped t t.next_job_id (refused-IsTaken (bump_job_id t) t.next_job_id few p)
      ]
next_job_id_in-IsTaken (suc rounds) t few h (suc k) inside =
    elim (Bool-cases
      (not (t.next_job_id == 0) && not (job_id_in_use (bump_job_id t) t.next_job_id))) [
        | inl p ↦ absurd (cc (rw p at h))
        | inr p ↦
            unbumped t (candidate (suc k) t.next_job_id)
              (next_job_id_in-IsTaken rounds (bump_job_id t) few (rw p at h) k (omega arith))
      ]
