-- ===== src/Jobs/Pipeline.antt =====
-- src/background_jobs.c: the accumulator of the statuses of a pipeline's commands.
use gsh.Prelude.{
  ℕ, ◌+◌, Bool, true, false, ◌&&◌, ◌||◌, not, Option, none, some, ltb, leb, ◌==◌, if◌then◌else◌,
}
use gsh.Jobs.{WaitMacros, PipelineStatus}

unfoldable pub wait_status_nonzero : WaitMacros → ℕ → Bool
wait_status_nonzero m wait_status =
    m.signaled wait_status || m.exited wait_status && not (m.exit_status wait_status == 0)

abbrev pub is_terminal : WaitMacros → ℕ → Bool
is_terminal m wait_status = m.exited wait_status || m.signaled wait_status

unfoldable pub pipeline_initialize : ℕ → Bool → PipelineStatus
pipeline_initialize command_count pipefail = record {
  command_count = command_count;
  rightmost_nonzero = 0;
  selected_wait_status = 0;
  last_wait_status = 0;
  pipefail = pipefail;
  selected_known = false;
  last_known = false;
}

-- the two updates of `gsh_pipeline_status_record` behind its guard
unfoldable pub record_last : PipelineStatus → ℕ → ℕ → PipelineStatus
record_last s command_index wait_status =
    if command_index + 1 == s.command_count
    then record s { last_wait_status = wait_status; last_known = true }
    else s

unfoldable pub record_selected : WaitMacros → PipelineStatus → ℕ → ℕ → PipelineStatus
unfolding wait_status_nonzero
record_selected m s command_index wait_status =
    if s.pipefail
      && wait_status_nonzero m wait_status
      && (not s.selected_known || ltb s.rightmost_nonzero command_index)
    then record s {
      selected_wait_status = wait_status;
      rightmost_nonzero = command_index;
      selected_known = true;
    }
    else s

-- The status, and whether it was recorded.
unfoldable pub pipeline_record : WaitMacros → PipelineStatus → ℕ → ℕ → PipelineStatus × Bool
unfolding record_last record_selected
pipeline_record m s command_index wait_status =
    if s.command_count == 0 || leb s.command_count command_index || not (is_terminal m wait_status)
    then (s, false)
    else (
      record_selected m (record_last s command_index wait_status) command_index wait_status,
      true,
    )

unfoldable pub pipeline_result : PipelineStatus → Option ℕ
pipeline_result s =
    if s.command_count == 0 || not s.last_known
    then none
    else some
        (if s.pipefail && s.selected_known then s.selected_wait_status else s.last_wait_status)
