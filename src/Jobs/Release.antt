-- ===== src/Jobs/Release.antt =====
-- src/background_jobs.c: lookups in the table, and the operations that change or forget a job.
use gsh.Prelude.{
  ℕ, zero, suc, ◌+◌, Bool, true, false, ◌&&◌, ◌||◌, not, List, [], ◌∷◌, ◌++◌, map, Option, none,
  some, ltb, ◌==◌, if◌then◌else◌, get_or, take, drop, replicate,
}
use gsh.Jobs.{running, stopped, Entry, BackgroundTable}
use gsh.Jobs.Table.{
  is_done_state, used_entries, overfull, find_index, is_some, is_active, has_job_id, has_member,
  entry_at, put_entry,
}
use gsh.Jobs.Update.{make_current}

-- The index of the entry that `gsh_background_entry_for_id` returns.
unfoldable pub entry_for_id : BackgroundTable → ℕ → Option ℕ
unfolding find_index
entry_for_id t job_id =
    if job_id == 0 || overfull t then none else find_index (has_job_id job_id) (used_entries t)

unfoldable pub entry_for_pid : BackgroundTable → ℕ → Option ℕ
unfolding find_index
entry_for_pid t pid =
    if pid == 0 || overfull t
    then none
    else find_index (λ e. e.known && (e.pid == pid || e.pgid == pid) || has_member pid e)
        (used_entries t)

-- `done`, and the wait status if it is done
unfoldable pub background_get : BackgroundTable → ℕ → Option (Bool × Option ℕ)
unfolding find_index
background_get t pid =
    if overfull t then none else elim (find_index (λ e. e.known && e.pid == pid) (used_entries t)) [
      | none ↦ none
      | some index ↦
          let e = entry_at t index in
          some (e.is_done, if e.is_done then some e.wait_status else none)
    ]

unfoldable pub job_pid : BackgroundTable → ℕ → Option ℕ
unfolding find_index
job_pid t job_id =
    if overfull t then none else elim (find_index (has_job_id job_id) (used_entries t)) [
      | none ↦ none
      | some index ↦ some (entry_at t index).pid
    ]

unfoldable pub pids_where : (Entry → Bool) → List Entry → List ℕ
pids_where p [] = []
pids_where p (e ∷ es) = if p e then e.pid ∷ pids_where p es else pids_where p es

unfoldable pub snapshot : BackgroundTable → List ℕ
unfolding pids_where
snapshot t = if overfull t then [] else pids_where (λ e. e.known) (used_entries t)

unfoldable pub live_snapshot : BackgroundTable → List ℕ
unfolding pids_where
live_snapshot t = if overfull t then [] else pids_where is_active (used_entries t)

-- the variables of the loop of `refresh_current_jobs`
pub record Newest : Type 0 where
  pub newest : ℕ
  pub prior : ℕ
  pub current : ℕ
  pub previous : ℕ

unfoldable pub see_entry : Newest → Entry → Newest
see_entry n e =
    if not e.known
    then n
    else if ltb n.newest e.sequence
    then record n {
      prior = n.newest;
      previous = n.current;
      newest = e.sequence;
      current = e.job_id;
    }
    else if ltb n.prior e.sequence
    then record n { prior = e.sequence; previous = e.job_id }
    else n

unfoldable pub newest_in : Newest → List Entry → Newest
unfolding see_entry
newest_in n [] = n
newest_in n (e ∷ es) = newest_in (see_entry n e) es

unfoldable pub refresh_current_jobs : BackgroundTable → BackgroundTable
unfolding newest_in
refresh_current_jobs t =
    let n =
      newest_in (record { newest = 0; prior = 0; current = 0; previous = 0 }) (used_entries t) in
    record t { current_job_id = n.current; previous_job_id = n.previous }

-- `while (table->used != 0 && !table->entries[table->used - 1U].known) table->used--`
unfoldable pub trim_used : List Entry → ℕ → Entry → ℕ
trim_used entries zero d = zero
trim_used entries (suc used) d =
    if (get_or entries used d).known then suc used else trim_used entries used d

abbrev pub trim : BackgroundTable → Entry → BackgroundTable
trim t d = record t { used = trim_used t.entries t.used d }

unfoldable pub clear_command : Entry → Entry
clear_command e = record e {
  command = replicate (e.command_length + 1) 0 ++ drop (e.command_length + 1) e.command;
  command_length = 0;
}

abbrev pub consumed_entry : Entry → Entry
consumed_entry e = record (clear_command e) { consumed = true; known = false }

-- The wait status of the job that ends, or `none` for false.
unfoldable pub background_consume : BackgroundTable → ℕ → BackgroundTable × Option ℕ
unfolding find_index clear_command trim_used refresh_current_jobs
background_consume t pid =
    if overfull t
    then (t, none)
    else elim (find_index (λ e. e.known && e.pid == pid && e.is_done) (used_entries t)) [
      | none ↦ (t, none)
      | some index ↦
          let e = entry_at t index in
          (refresh_current_jobs (trim (put_entry t index (consumed_entry e)) e), some e.wait_status)
    ]

unfoldable pub forget_entries : ℕ → List Entry → List Entry
forget_entries zero es = es
forget_entries (suc n) [] = []
forget_entries (suc n) (e ∷ es) =
    record e { known = false; consumed = true; command_length = 0 } ∷ forget_entries n es

unfoldable pub consume_all_if_done : BackgroundTable → BackgroundTable × Bool
unfolding find_index forget_entries
consume_all_if_done t =
    if overfull t || is_some (find_index is_active (used_entries t)) then (t, false) else (
      record t {
        entries = forget_entries t.used t.entries;
        used = 0;
        current_job_id = 0;
        previous_job_id = 0;
      },
      true,
    )

-- An operation on the entry with an id; `none` when there is none, or the entry refuses.
abbrev pub with_entry :
    BackgroundTable → ℕ → (ℕ → Entry → BackgroundTable × Bool) → BackgroundTable × Bool
with_entry t job_id change = elim (entry_for_id t job_id) [
  | none ↦ (t, false)
  | some index ↦ change index (entry_at t index)
]

abbrev pub notify_at : BackgroundTable → ℕ → Entry → BackgroundTable × Bool
notify_at t index e = (put_entry t index (record e { notified = true }), true)

unfoldable pub mark_notified : BackgroundTable → ℕ → BackgroundTable × Bool
unfolding entry_for_id
mark_notified t job_id = with_entry t job_id (notify_at t)

-- A change of the states of the members that the entry has.
abbrev pub change_members : (ℕ → ℕ) → Entry → Entry
change_members f e = record e {
  member_states =
      map f (take e.member_count e.member_states) ++ drop e.member_count e.member_states;
}

unfoldable pub continue_entry : Entry → Entry
continue_entry e = record (change_members (λ s. if s == 1 then 0 else s) e) {
  state = running;
  notified = false;
}

unfoldable pub stop_entry : Entry → Entry
stop_entry e = record (change_members (λ s. if s == 2 then s else 1) e) {
  state = stopped;
  notified = false;
}

abbrev pub resume_at : BackgroundTable → ℕ → (Entry → Entry) → ℕ → Entry → BackgroundTable × Bool
resume_at t job_id change index e =
    if is_done_state e.state
    then (t, false)
    else (make_current (put_entry t index (change e)) job_id, true)

unfoldable pub continue_job : BackgroundTable → ℕ → BackgroundTable × Bool
unfolding entry_for_id continue_entry make_current
continue_job t job_id = with_entry t job_id (resume_at t job_id continue_entry)

unfoldable pub stop_job : BackgroundTable → ℕ → BackgroundTable × Bool
unfolding entry_for_id stop_entry make_current
stop_job t job_id = with_entry t job_id (resume_at t job_id stop_entry)

abbrev pub removed_entry : Entry → Entry
removed_entry e = record (clear_command e) { known = false }

abbrev pub remove_at : BackgroundTable → ℕ → Entry → BackgroundTable × Bool
remove_at t index e = (refresh_current_jobs (trim (put_entry t index (removed_entry e)) e), true)

unfoldable pub remove_job : BackgroundTable → ℕ → BackgroundTable × Bool
unfolding entry_for_id clear_command trim_used refresh_current_jobs
remove_job t job_id = with_entry t job_id (remove_at t)

unfoldable pub marker : BackgroundTable → ℕ → ℕ
marker t job_id =
    if t.current_job_id == job_id then b'+' else if t.previous_job_id == job_id then b'-' else b' '
