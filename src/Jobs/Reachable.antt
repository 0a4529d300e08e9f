-- ===== src/Jobs/Reachable.antt =====
-- src/background_jobs.c: the tables that a run of the shell reaches, each operation a step.
use gsh.Prelude.{ℕ, length, get_or, ◌<◌, ◌≡◌, arith}
use gsh.Jobs.{WaitMacros, BackgroundTable, background_cap, member_cap}
use gsh.Jobs.Table.{blank_entry, table_initialize, Launch, add_job}
use gsh.Jobs.Update.{update_member}
use gsh.Jobs.Release.{
  background_consume, consume_all_if_done, mark_notified, continue_job, stop_job, remove_job,
}
use gsh.Jobs.Reported.{TableIsValid, Reportable, update_member-valid}
use gsh.Jobs.Released.{
  consume-valid, remove_job-valid, mark_notified-valid, continue_job-valid, stop_job-valid,
  consume_all-valid,
}
use gsh.Jobs.Launched.{add_job-valid}

-- One call of an operation that changes the table, whatever it returns. The kernel reports only
-- processes that have not ended.
pub data Step (w : WaitMacros) : BackgroundTable → BackgroundTable → Type 0 where
  launched : {t : BackgroundTable} (launch : Launch) → Step w t (add_job t launch).0
  reported :
      {t : BackgroundTable} (pid st : ℕ) → Reportable t pid → Step w t (update_member w t pid st).0
  consumed : {t : BackgroundTable} (pid : ℕ) → Step w t (background_consume t pid).0
  consumed_all : {t : BackgroundTable} → Step w t (consume_all_if_done t).0
  notified : {t : BackgroundTable} (job_id : ℕ) → Step w t (mark_notified t job_id).0
  resumed : {t : BackgroundTable} (job_id : ℕ) → Step w t (continue_job t job_id).0
  suspended : {t : BackgroundTable} (job_id : ℕ) → Step w t (stop_job t job_id).0
  removed : {t : BackgroundTable} (job_id : ℕ) → Step w t (remove_job t job_id).0

-- The memory of a table: the arrays have the sizes that the header declares.
pub record IsMemory (t : BackgroundTable) : Type 0 where
  pub slots : length t.entries ≡ background_cap
  pub rooms :
      (i : ℕ)
      → i < background_cap
      → length (get_or t.entries i blank_entry).member_states ≡ member_cap

pub data Reachable (w : WaitMacros) : BackgroundTable → Type 0 where
  initialized : {t : BackgroundTable} → IsMemory t → Reachable w (table_initialize t)
  then_step : {t t' : BackgroundTable} → Reachable w t → Step w t t' → Reachable w t'

initialize-valid : (t : BackgroundTable) → IsMemory t → TableIsValid (table_initialize t)
unfolding table_initialize
initialize-valid t m = record {
  slots = m.slots;
  few = omega arith;
  rooms = m.rooms;
  valid = λ i h. absurd (omega arith);
  ids_nonzero = λ i h. absurd (omega arith);
  ids_apart = λ i j h. absurd (omega arith);
}

step-valid :
    (w : WaitMacros) (t t' : BackgroundTable) → Step w t t' → TableIsValid t → TableIsValid t'
step-valid w t _ (launched launch) v = add_job-valid t launch v
step-valid w t _ (reported pid st alive) v = update_member-valid w t pid st v alive
step-valid w t _ (consumed pid) v = consume-valid t pid v
step-valid w t _ consumed_all v = consume_all-valid t v
step-valid w t _ (notified job_id) v = mark_notified-valid t job_id v
step-valid w t _ (resumed job_id) v = continue_job-valid t job_id v
step-valid w t _ (suspended job_id) v = stop_job-valid t job_id v
step-valid w t _ (removed job_id) v = remove_job-valid t job_id v

-- Every table that a run reaches from the initialization, by launches, reports of processes that
-- have not ended, consumption, notification, resumption, suspension and removal of jobs in any
-- order, is valid: at most 128 entries are in use; each known one counts exactly its members that
-- have not ended, and is in state done exactly when it counts none; its id is not 0, and no two
-- known entries have the same id.
pub Reachable-valid : (w : WaitMacros) (t : BackgroundTable) → Reachable w t → TableIsValid t
Reachable-valid w _ (initialized {t} m) = initialize-valid t m
Reachable-valid w _ (then_step {t} {t'} r s) = step-valid w t t' s (Reachable-valid w t r)
