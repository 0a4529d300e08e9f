-- ===== src/Jobs/Terminated.antt =====
-- src/background_jobs.c: what the end of a process does to its job.
use gsh.Prelude.{
  ℕ, ◌+◌, ◌-◌, true, false, Bool-cases, [], ◌∷◌, ltb, ◌==◌, if◌then◌else◌, get_or, set, ◌≡◌, refl,
  ◌∙◌, inl, inr, arith,
}
use gsh.Jobs.{WaitMacros, PipelineStatus, Entry}
use gsh.Jobs.Pipeline.{is_terminal, pipeline_record}
use gsh.Jobs.Update.{
  mark_member, count_terminated, record_terminated, finish_entry, terminate_member, update_entry,
}
use gsh.Jobs.Entries.{ended_entry, ended_entry-HasEnded}
use gsh.Jobs.Marked.{EntryIsValid, IsRunning}
use gsh.Jobs.Choice.{Reports, record_all}

-- What <sys/wait.h> says of a process that has ended: it has not stopped and does not go on.
pub record IsWaitMacros (w : WaitMacros) : Type 0 where
  pub not_stopped : (st : ℕ) → is_terminal w st ≡ true → w.stopped st ≡ false
  pub not_continued : (st : ℕ) → is_terminal w st ≡ true → w.continued st ≡ false

-- The entry when the processes of the reports have ended, the latest first.
abbrev pub end_members : WaitMacros → Entry → Reports → Entry
end_members w e [] = e
end_members w e ((member, st) ∷ rs) = update_entry w (end_members w e rs) member st

-- The reports of commands; the processes behind them are helpers.
abbrev pub command_reports : ℕ → Reports → Reports
command_reports count [] = []
command_reports count ((i, st) ∷ rs) =
    if ltb i count then (i, st) ∷ command_reports count rs else command_reports count rs

pub update_entry-terminal :
    (w : WaitMacros) (e : Entry) (member st : ℕ)
    → IsWaitMacros w
    → is_terminal w st ≡ true
    → update_entry w e member st ≡ terminate_member w e member st
unfolding update_entry
update_entry-terminal w e member st laws t =
    rw (laws.not_stopped st t, laws.not_continued st t, t) refl

record_count :
    (w : WaitMacros) (s : PipelineStatus) (i st : ℕ)
    → (pipeline_record w s i st).0.command_count ≡ s.command_count
unfolding pipeline_record
record_count w s i st = ground arith

pub record_all_count :
    (w : WaitMacros) (s : PipelineStatus) (rs : Reports)
    → (record_all w s rs).command_count ≡ s.command_count
record_all_count w s [] = refl
record_all_count w s ((i, st) ∷ rs) =
    record_count w (record_all w s rs) i st ∙ record_all_count w s rs

-- What `terminate_member` does to the entry, whether it is the last member or not.
pub record Terminated (w : WaitMacros) (e : Entry) (member st : ℕ) (after : Entry) : Type 0 where
  pub states : after.member_states ≡ set e.member_states member 2
  pub same_count : after.member_count ≡ e.member_count
  pub one_less : after.remaining + 1 ≡ e.remaining
  pub pipeline : after.pipeline_status ≡ (
      if ltb member e.pipeline_status.command_count
      then (pipeline_record w e.pipeline_status member st).0
      else e.pipeline_status)

pub finish_entry_rest :
    (e : Entry)
    → let after = finish_entry e in
      (after.member_states ≡ e.member_states)
      × (after.member_count ≡ e.member_count)
      × (after.remaining ≡ e.remaining)
      × (after.pipeline_status ≡ e.pipeline_status)
unfolding finish_entry
finish_entry_rest e = elim (Bool-cases (e.remaining == 0)) [
  | inl p ↦ rw p (refl, refl, refl, refl)
  | inr p ↦ rw p (refl, refl, refl, refl)
]

ended_pipeline :
    (w : WaitMacros) (e : Entry) (member st : ℕ)
    → (ended_entry w e member st).pipeline_status ≡ (
        if ltb member e.pipeline_status.command_count
        then (pipeline_record w e.pipeline_status member st).0
        else e.pipeline_status)
unfolding count_terminated record_terminated
ended_pipeline w e member st = elim (Bool-cases (get_or e.member_states member 0 == 2)) [
  | inl p ↦ rw p (pipeline_of e)
  | inr p ↦ rw p (pipeline_of (record (mark_member e member 2) { remaining = e.remaining - 1 }))
]
  where
    pipeline_of :
        (f : Entry)
        → (if ltb member f.pipeline_status.command_count
            then record f { pipeline_status = (pipeline_record w f.pipeline_status member st).0 }
            else f).pipeline_status
          ≡ (if ltb member f.pipeline_status.command_count
              then (pipeline_record w f.pipeline_status member st).0
              else f.pipeline_status)
    pipeline_of f = elim (Bool-cases (ltb member f.pipeline_status.command_count)) [
      | inl q ↦ rw q refl
      | inr q ↦ rw q refl
    ]

pub terminate_member-Terminated :
    (w : WaitMacros) (e : Entry) (member st : ℕ)
    → EntryIsValid e
    → IsRunning e member
    → Terminated w e member st (terminate_member w e member st)
unfolding terminate_member
terminate_member-Terminated w e member st v r =
    let ended = ended_entry w e member st in
    let h = ended_entry-HasEnded w e member st v r in
    let f = finish_entry_rest ended in
    record {
      states = f.0 ∙ h.states;
      same_count = f.1 ∙ h.same_count;
      one_less = omega (arith, f.2, h.one_less);
      pipeline = f.3 ∙ ended_pipeline w e member st;
    }
