-- ===== src/Jobs/Update.antt =====
-- src/background_jobs.c: what the table does with the wait status of a process.
use gsh.Prelude.{
  ℕ, ◌-◌, ◌*◌, Bool, true, false, ◌&&◌, not, Option, none, some, ltb, ◌==◌, if◌then◌else◌, get_or,
  set, take,
}
use gsh.Jobs.{WaitMacros, running, stopped, done, Entry, BackgroundTable}
use gsh.Jobs.Pipeline.{is_terminal, pipeline_record, pipeline_result}
use gsh.Jobs.Table.{find_index, is_some, has_member, used_entries, overfull, entry_at, put_entry}

unfoldable pub all_members_stopped : Entry → Bool
unfolding find_index
all_members_stopped e =
    not (e.remaining == 0)
    && not (is_some (find_index (λ s. s == 0) (take e.member_count e.member_states)))

abbrev pub mark_member : Entry → ℕ → ℕ → Entry
mark_member e member mark = record e { member_states = set e.member_states member mark }

-- the branch of a stopped process
unfoldable pub stop_member : Entry → ℕ → Entry
unfolding all_members_stopped
stop_member e member =
    let marked = mark_member e member 1 in
    if all_members_stopped marked
    then record marked { state = stopped; notified = false }
    else marked

-- the branch of a process that goes on
unfoldable pub continue_member : Entry → ℕ → Entry
continue_member e member = record (mark_member e member 0) { state = running; notified = false }

unfoldable pub count_terminated : Entry → ℕ → Entry
count_terminated e member =
    if get_or e.member_states member 0 == 2
    then e
    else record (mark_member e member 2) { remaining = e.remaining - 1 }

unfoldable pub record_terminated : WaitMacros → Entry → ℕ → ℕ → Entry
unfolding pipeline_record
record_terminated m e member wait_status =
    if ltb member e.pipeline_status.command_count
    then record e { pipeline_status = (pipeline_record m e.pipeline_status member wait_status).0 }
    else e

abbrev pub final_status : Option ℕ → ℕ
final_status none = 125 * 256
final_status (some wait_status) = wait_status

unfoldable pub finish_entry : Entry → Entry
unfolding pipeline_result
finish_entry e =
    if e.remaining == 0
    then record e {
      state = done;
      is_done = true;
      notified = false;
      wait_status = final_status (pipeline_result e.pipeline_status);
    }
    else e

-- the branch of a process that has ended
unfoldable pub terminate_member : WaitMacros → Entry → ℕ → ℕ → Entry
unfolding count_terminated record_terminated finish_entry
terminate_member m e member wait_status =
    finish_entry (record_terminated m (count_terminated e member) member wait_status)

-- The chain of tests on the status.
unfoldable pub update_entry : WaitMacros → Entry → ℕ → ℕ → Entry
update_entry m e member wait_status =
    if m.stopped wait_status
    then stop_member e member
    else if m.continued wait_status
    then continue_member e member
    else if is_terminal m wait_status
    then terminate_member m e member wait_status
    else e

-- `table->previous_job_id = table->current_job_id` and so on, if the job is not the current one
unfoldable pub make_current : BackgroundTable → ℕ → BackgroundTable
make_current t job_id =
    if t.current_job_id == job_id
    then t
    else record t { previous_job_id = t.current_job_id; current_job_id = job_id }

-- A job becomes the current one when the last of its processes stops.
abbrev pub becomes_current : WaitMacros → Entry → ℕ → ℕ → Bool
becomes_current m e member wait_status =
    m.stopped wait_status && all_members_stopped (mark_member e member 1)

abbrev pub index_or_zero : Option ℕ → ℕ
index_or_zero none = 0
index_or_zero (some index) = index

abbrev pub member_index : Entry → ℕ → ℕ
member_index e pid = index_or_zero (find_index (λ p. p == pid) (take e.member_count e.members))

unfoldable pub update_at : WaitMacros → BackgroundTable → ℕ → ℕ → ℕ → BackgroundTable
update_at m t index member wait_status =
    let e = entry_at t index in
    let updated = put_entry t index (update_entry m e member wait_status) in
    if becomes_current m e member wait_status then make_current updated e.job_id else updated

unfoldable pub update_member : WaitMacros → BackgroundTable → ℕ → ℕ → BackgroundTable × Bool
unfolding find_index
update_member m t pid wait_status =
    if overfull t then (t, false) else elim (find_index (has_member pid) (used_entries t)) [
      | none ↦ (t, false)
      | some index ↦ (update_at m t index (member_index (entry_at t index) pid) wait_status, true)
    ]

unfoldable pub background_record : WaitMacros → BackgroundTable → ℕ → ℕ → BackgroundTable × Bool
background_record m t pid wait_status = update_member m t pid wait_status
