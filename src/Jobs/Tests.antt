-- ===== src/Jobs/Tests.antt =====
-- src/background_jobs.c on a pipeline of two commands, with the wait statuses of Linux.
use gsh.Prelude.{
  ℕ, zero, suc, ◌/◌, ◌%◌, ◌<◌, true, false, ◌&&◌, not, [], ◌∷◌, some, ◌==◌, length, get_or,
  replicate, length-replicate, ascii, ◌≡◌, refl, arith,
}
use gsh.Jobs.{WaitMacros, Entry, BackgroundTable, done, async_list, background_cap, member_cap}
use gsh.Jobs.Pipeline.{wait_status_nonzero, pipeline_initialize, pipeline_result}
use gsh.Jobs.Table.{blank_entry, table_initialize, Launch, fill_entry, add_job}
use gsh.Jobs.Reports.{pipeline_result_lem}
use gsh.Jobs.Choice.{record_all}
use gsh.Jobs.Ending.{end_members-done}
use gsh.Jobs.Terminated.{IsWaitMacros, end_members}
use gsh.Jobs.Release.{mark_notified}
use gsh.Jobs.Reported.{TableIsValid}
use gsh.Jobs.Spared.{LaunchAnswer, add_job-Answer}
use gsh.Jobs.Specs.{resolve_textual}
use gsh.Jobs.Textual.{TextAnswer, resolve_textual-Answer}
use gsh.Jobs.Matches.{named}
use gsh.Jobs.Reachable.{Reachable, initialized, then_step, launched, notified, Reachable-valid}

abbrev linux : WaitMacros
linux = record {
  exited = λ st. st % 128 == 0;
  exit_status = λ st. st / 256 % 256;
  signaled = λ st. not (st % 128 == 0) && not (st % 128 == 127);
  stopped = λ st. st % 256 == 127;
  continued = λ st. st == 65535;
}

linux-IsWaitMacros : IsWaitMacros linux
linux-IsWaitMacros = record {
  not_stopped = λ st h. ground (arith, h);
  not_continued = λ st h. ground (arith, h);
}

-- the first command fails with 3, and ends last
pipeline_result_lem_example :
    pipeline_result (record_all linux (pipeline_initialize 2 true) ((0, 768) ∷ ((1, 0) ∷ [])))
    ≡ some 768
unfolding wait_status_nonzero
pipeline_result_lem_example =
    pipeline_result_lem linux 1 true ((0, 768) ∷ ((1, 0) ∷ []))
      (omega arith, refl, refl, (omega arith, refl, refl, tt))

abbrev roomy : Entry
roomy = record blank_entry { member_states = replicate member_cap 0 }

abbrev both : Launch
both = record {
  pgid = 50;
  status_pid = 51;
  members = 50 ∷ (51 ∷ []);
  command_count = 2;
  pipefail = true;
  command = ascii "a | b";
  origin = async_list;
}

end_members-done_example :
    let after = end_members linux (fill_entry roomy both 1 1) ((0, 768) ∷ ((1, 0) ∷ [])) in
    (after.state ≡ done) × (after.is_done ≡ true) × (after.wait_status ≡ 768)
unfolding fill_entry wait_status_nonzero
end_members-done_example =
    end_members-done linux roomy both 1 1 1 0 768 0 ((1, 0) ∷ []) linux-IsWaitMacros
      (length-replicate {A = ℕ} member_cap 0) (omega arith) refl
      (
        record { inside = omega arith; not_ended = refl },
        refl,
        refl,
        (record { inside = omega arith; not_ended = refl }, refl, refl, tt),
      )
      refl refl

abbrev memory : BackgroundTable
memory = record {
  entries = replicate background_cap roomy;
  used = 7;
  next_job_id = 0;
  current_job_id = 0;
  previous_job_id = 0;
  next_sequence = 0;
}

rooms_of :
    (n i : ℕ) → i < n → length (get_or (replicate n roomy) i blank_entry).member_states ≡ member_cap
rooms_of zero i h = absurd (omega arith)
rooms_of (suc n) zero h = length-replicate {A = ℕ} member_cap 0
rooms_of (suc n) (suc i) h = rooms_of n i (omega arith)

-- launched, then told to the user
abbrev after_two : BackgroundTable
after_two = (mark_notified (add_job (table_initialize memory) both).0 1).0

after_two-Reachable : Reachable linux after_two
after_two-Reachable =
    then_step
      (then_step
        (initialized {t = memory} (record {
          slots = length-replicate {A = Entry} background_cap roomy;
          rooms = rooms_of background_cap;
        }))
        (launched both))
      (notified 1)

Reachable-valid_example : TableIsValid after_two
Reachable-valid_example = Reachable-valid linux after_two after_two-Reachable

add_job-Answer_example : LaunchAnswer after_two both (add_job after_two both)
add_job-Answer_example =
    add_job-Answer after_two both (Reachable-valid linux after_two after_two-Reachable)

resolve_textual-Answer_example :
    TextAnswer after_two
      (named (ascii "a |") false)
      (resolve_textual after_two (ascii "a |") false 0)
resolve_textual-Answer_example =
    resolve_textual-Answer after_two (ascii "a |") false 0
      (Reachable-valid linux after_two after_two-Reachable)
