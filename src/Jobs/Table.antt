-- ===== src/Jobs/Table.antt =====
-- src/background_jobs.c: the table's counts, its free entries and ids, and `gsh_background_add_job`.
use gsh.Prelude.{
  ℕ, zero, suc, ◌⊎◌, inl, inr, ◌+◌, ◌%◌, ◌^◌, Bool, true, false, ◌&&◌, ◌||◌, not, List, [], ◌∷◌,
  ◌++◌, Option, none, some, ltb, leb, ◌==◌, if◌then◌else◌, length, get_or, set, take, drop,
  replicate, Errno, einval, eagain, eexist,
}
use mathlib.Core.Option
use gsh.Jobs.{
  JobState, running, done, JobOrigin, async_list, Entry, BackgroundTable, background_cap,
  member_cap, command_cap,
}
use gsh.Jobs.Pipeline.{pipeline_initialize}

unfoldable pub table_initialize : BackgroundTable → BackgroundTable
table_initialize t = record t {
  used = 0;
  next_job_id = 1;
  current_job_id = 0;
  previous_job_id = 0;
  next_sequence = 1;
}

abbrev pub is_done_state : JobState → Bool
is_done_state done = true
is_done_state _ = false

-- the entries that the loops go over
abbrev pub used_entries : BackgroundTable → List Entry
used_entries t = take t.used t.entries

abbrev pub overfull : BackgroundTable → Bool
overfull t = ltb background_cap t.used

-- A loop that returns at the first entry with a property: its index.
unfoldable pub find_index {ℓ} : {A : Type ℓ} → (A → Bool) → List A → Option ℕ
find_index p [] = none
find_index p (x ∷ xs) = if p x then some 0 else Option.map suc (find_index p xs)

abbrev pub is_some {ℓ} : {A : Type ℓ} → Option A → Bool
is_some none = false
is_some (some a) = true

unfoldable pub entry_reclaimable : Entry → Bool
entry_reclaimable e = not e.known || is_done_state e.state && (e.notified || e.consumed)

unfoldable pub has_capacity : BackgroundTable → Bool
unfolding find_index entry_reclaimable
has_capacity t =
    if overfull t
    then false
    else if ltb t.used background_cap
    then true
    else is_some (find_index entry_reclaimable (used_entries t))

abbrev pub is_active : Entry → Bool
is_active e = e.known && not (is_done_state e.state)

unfoldable pub active_in : List Entry → ℕ
active_in [] = 0
active_in (e ∷ es) = if is_active e then suc (active_in es) else active_in es

unfoldable pub active_count : BackgroundTable → ℕ
unfolding active_in
active_count t = if overfull t then 0 else active_in (used_entries t)

abbrev pub has_job_id : ℕ → Entry → Bool
has_job_id job_id e = e.known && e.job_id == job_id

unfoldable pub job_id_in_use : BackgroundTable → ℕ → Bool
unfolding find_index
job_id_in_use t job_id = overfull t || is_some (find_index (has_job_id job_id) (used_entries t))

-- `table->next_job_id++` with the step over 0
abbrev pub bump_job_id : BackgroundTable → BackgroundTable
bump_job_id t =
    let next = (t.next_job_id + 1) % 2 ^ 32 in
    record t { next_job_id = if next == 0 then 1 else next }

-- The loop of `next_job_id`, with the rounds that are left.
unfoldable pub next_job_id_in : ℕ → BackgroundTable → BackgroundTable × Option ℕ
unfolding job_id_in_use
next_job_id_in zero t = (t, none)
next_job_id_in (suc rounds) t =
    let rest = next_job_id_in rounds (bump_job_id t) in
    if not (t.next_job_id == 0) && not (job_id_in_use (bump_job_id t) t.next_job_id)
    then (bump_job_id t, some t.next_job_id)
    else rest

unfoldable pub assign_job_id : BackgroundTable → BackgroundTable × Option ℕ
unfolding next_job_id_in
assign_job_id t = next_job_id_in (background_cap + 1) t

-- The index of the entry, with `used` raised when it is a new one.
unfoldable pub available_entry : BackgroundTable → BackgroundTable × (ℕ ⊎ Errno)
unfolding find_index entry_reclaimable
available_entry t =
    if overfull t then (t, inr einval) else elim (find_index entry_reclaimable (used_entries t)) [
      | some index ↦ (t, inl index)
      | none ↦
          if ltb t.used background_cap
          then (record t { used = t.used + 1 }, inl t.used)
          else (t, inr eagain)
    ]

abbrev pub has_member : ℕ → Entry → Bool
has_member pid e = e.known && is_some (find_index (λ p. p == pid) (take e.member_count e.members))

unfoldable pub member_in_use : BackgroundTable → ℕ → Bool
unfolding find_index
member_in_use t pid = overfull t || is_some (find_index (has_member pid) (used_entries t))

-- the loop over the members: what is wrong with the first that is refused
unfoldable pub check_members : BackgroundTable → List ℕ → Option Errno
unfolding member_in_use
check_members t [] = none
check_members t (pid ∷ pids) =
    if pid == 0
    then some einval
    else if member_in_use t pid
    then some eexist
    else check_members t pids

-- What `gsh_background_add_job` is called with; `members` and `command` have `member_count` and
-- `command_length` elements.
pub record Launch : Type 0 where
  pub pgid : ℕ
  pub status_pid : ℕ
  pub members : List ℕ
  pub command_count : ℕ
  pub pipefail : Bool
  pub command : List ℕ
  pub origin : JobOrigin

unfoldable pub fill_entry : Entry → Launch → ℕ → ℕ → Entry
unfolding pipeline_initialize
fill_entry e launch assigned sequence =
    let member_count = length launch.members in
    record e {
      pid = launch.status_pid;
      pgid = launch.pgid;
      status_pid = launch.status_pid;
      members = launch.members ++ drop member_count e.members;
      member_states = replicate member_count 0 ++ drop member_count e.member_states;
      member_count = member_count;
      remaining = member_count;
      wait_status = 0;
      job_id = assigned;
      sequence = sequence;
      state = running;
      origin = launch.origin;
      known = true;
      is_done = false;
      foreground = false;
      terminal_owned = false;
      notified = false;
      consumed = false;
      pipeline_status = pipeline_initialize launch.command_count launch.pipefail;
      command = launch.command ++ (0 ∷ drop (length launch.command + 1) e.command);
      command_length = length launch.command;
    }

-- memory for an entry, which stands for a read out of bounds
abbrev pub blank_entry : Entry
blank_entry = record {
  pid = 0;
  pgid = 0;
  status_pid = 0;
  members = [];
  member_states = [];
  member_count = 0;
  remaining = 0;
  wait_status = 0;
  job_id = 0;
  sequence = 0;
  state = running;
  origin = async_list;
  known = false;
  is_done = false;
  foreground = false;
  terminal_owned = false;
  notified = false;
  consumed = false;
  pipeline_status = pipeline_initialize 0 false;
  command_length = 0;
  command = [];
}

abbrev pub entry_at : BackgroundTable → ℕ → Entry
entry_at t index = get_or t.entries index blank_entry

abbrev pub put_entry : BackgroundTable → ℕ → Entry → BackgroundTable
put_entry t index e = record t { entries = set t.entries index e }

-- the end of `gsh_background_add_job`, with the entry found
unfoldable pub launch_at : BackgroundTable → Launch → ℕ → ℕ → BackgroundTable
unfolding fill_entry
launch_at t launch assigned index =
    let next = (t.next_sequence + 1) % 2 ^ 64 in
    record (put_entry t index (fill_entry (entry_at t index) launch assigned t.next_sequence)) {
      next_sequence = if next == 0 then 1 else next;
      previous_job_id = t.current_job_id;
      current_job_id = assigned;
    }

unfoldable pub launch_available :
    Launch → ℕ → BackgroundTable × (ℕ ⊎ Errno) → BackgroundTable × (ℕ ⊎ Errno)
unfolding launch_at
launch_available launch assigned (t, inl index) = (launch_at t launch assigned index, inl assigned)
launch_available launch assigned (t, inr e) = (t, inr e)

unfoldable pub launch_assigned : Launch → BackgroundTable × Option ℕ → BackgroundTable × (ℕ ⊎ Errno)
unfolding available_entry launch_available
launch_assigned launch (t, none) = (t, inr eagain)
launch_assigned launch (t, some assigned) = launch_available launch assigned (available_entry t)

-- the guard of `gsh_background_add_job`
abbrev pub launch_refused : BackgroundTable → Launch → Bool
launch_refused t launch =
    launch.pgid == 0
    || launch.status_pid == 0
    || length launch.members == 0
    || ltb member_cap (length launch.members)
    || launch.command_count == 0
    || ltb (length launch.members) launch.command_count
    || leb command_cap (length launch.command)
    || overfull t

-- The job id, or `errno`.
unfoldable pub add_job : BackgroundTable → Launch → BackgroundTable × (ℕ ⊎ Errno)
unfolding check_members assign_job_id launch_assigned
add_job t launch =
    if launch_refused t launch then (t, inr einval) else elim (check_members t launch.members) [
      | some e ↦ (t, inr e)
      | none ↦ launch_assigned launch (assign_job_id t)
    ]

unfoldable pub background_add : BackgroundTable → ℕ → BackgroundTable × (ℕ ⊎ Errno)
unfolding add_job
background_add t pid = add_job t (record {
  pgid = pid;
  status_pid = pid;
  members = pid ∷ [];
  command_count = 1;
  pipefail = false;
  command = [];
  origin = async_list;
})
