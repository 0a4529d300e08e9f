-- ===== src/Jobs/Ending.antt =====
-- src/background_jobs.c: a job whose processes have all ended is done, with the status of its
-- pipeline.
use gsh.Prelude.{
  ℕ, suc, ◌+◌, ◌≤◌, Bool, true, false, Bool-cases, [], ◌∷◌, none, some, ltb, ltb→lt, ◌==◌, ==_iff,
  if◌then◌else◌, length, get_or, get_or-set_ne, ◌≡◌, ◌≢◌, refl, sym, ap, ◌∙◌, inl, inr, arith,
}
use mathlib.Core.Path.{subst}
use gsh.Jobs.{WaitMacros, PipelineStatus, Entry, done, member_cap}
use gsh.Jobs.Pipeline.{is_terminal, pipeline_initialize, pipeline_record, pipeline_result}
use gsh.Jobs.Table.{Launch, fill_entry}
use gsh.Jobs.Update.{final_status, finish_entry, terminate_member, update_entry}
use gsh.Jobs.Entries.{ended_entry, terminate_member-IsValid, fill_entry-IsValid}
use gsh.Jobs.Marked.{EntryIsValid, IsRunning}
use gsh.Jobs.Reports.{pipeline_result_lem}
use gsh.Jobs.Choice.{Reports, status_of, AreReports, record_all, expected, rightmost}
use gsh.Jobs.Terminated.{
  IsWaitMacros, end_members, command_reports, update_entry-terminal, record_all_count,
  finish_entry_rest, terminate_member-Terminated,
}

-- The members of the reports are different ones that have not ended, and each status is of a
-- process that has.
abbrev pub AreEndings : WaitMacros → Entry → Reports → Type 0
AreEndings w e [] = Unit
AreEndings w e ((i, st) ∷ rs) =
    IsRunning e i × (is_terminal w st ≡ true) × (status_of i rs ≡ none) × AreEndings w e rs

record Progress (w : WaitMacros) (e : Entry) (rs : Reports) (after : Entry) : Type 0 where
  valid : EntryIsValid after
  same_count : after.member_count ≡ e.member_count
  left : after.remaining + length rs ≡ e.remaining
  others :
      (i : ℕ) → status_of i rs ≡ none → get_or after.member_states i 0 ≡ get_or e.member_states i 0
  pipeline :
      after.pipeline_status
      ≡ record_all w e.pipeline_status (command_reports e.pipeline_status.command_count rs)

status_of-cons_none :
    (i j st : ℕ) (rs : Reports)
    → status_of j ((i, st) ∷ rs) ≡ none
    → (i ≢ j) × (status_of j rs ≡ none)
status_of-cons_none i j st rs h = elim (Bool-cases (i == j)) [
  | inl e ↦ absurd (cc (rw e at h))
  | inr e ↦ (λ same. absurd (cc ((==_iff i j).1 same)), rw e at h)
]

step_commands :
    (w : WaitMacros) (s : PipelineStatus) (i st : ℕ) (rs : Reports)
    → let before = record_all w s (command_reports s.command_count rs) in
      (if ltb i before.command_count then (pipeline_record w before i st).0 else before)
      ≡ record_all w s (command_reports s.command_count ((i, st) ∷ rs))
step_commands w s i st rs =
    let same = record_all_count w s (command_reports s.command_count rs) in
    elim (Bool-cases (ltb i s.command_count)) [
      | inl p ↦ rw (same, p) refl
      | inr p ↦ rw (same, p) refl
    ]

step-Progress :
    (w : WaitMacros) (e before : Entry) (i st : ℕ) (rs : Reports)
    → IsWaitMacros w
    → Progress w e rs before
    → IsRunning e i
    → is_terminal w st ≡ true
    → status_of i rs ≡ none
    → Progress w e ((i, st) ∷ rs) (update_entry w before i st)
step-Progress w e before i st rs laws p r t fresh =
    let live : IsRunning before i = record {
      inside = omega (arith, p.same_count, r.inside);
      not_ended = ap (λ s. s == 2) (p.others i fresh) ∙ r.not_ended;
    } in
    let ended = terminate_member-Terminated w before i st p.valid live in
    rw (update_entry-terminal w before i st laws t) (record {
      valid = terminate_member-IsValid w before i st p.valid live;
      same_count = ended.same_count ∙ p.same_count;
      left = omega (arith, ended.one_less, p.left);
      others = λ j h.
          let apart = status_of-cons_none i j st rs h in
          ap (λ ss. get_or ss j 0) ended.states
          ∙ get_or-set_ne before.member_states 2 0 apart.0
          ∙ p.others j apart.1;
      pipeline =
          ended.pipeline
          ∙ ap
              (λ (s : PipelineStatus).
                if ltb i s.command_count then (pipeline_record w s i st).0 else s)
              p.pipeline
          ∙ step_commands w e.pipeline_status i st rs;
    })

end_members-Progress :
    (w : WaitMacros) (e : Entry) (rs : Reports)
    → IsWaitMacros w
    → EntryIsValid e
    → AreEndings w e rs
    → Progress w e rs (end_members w e rs)
end_members-Progress w e [] laws v a = record {
  valid = v;
  same_count = refl;
  left = omega arith;
  others = λ i h. refl;
  pipeline = refl;
}
end_members-Progress w e ((i, st) ∷ rs) laws v a =
    step-Progress w e (end_members w e rs) i st rs laws (end_members-Progress w e rs laws v a.3) a.0
      a.1 a.2

command_reports-AreReports :
    (w : WaitMacros) (e : Entry) (count : ℕ) (rs : Reports)
    → AreEndings w e rs
    → AreReports w count (command_reports count rs)
command_reports-AreReports w e count [] a = tt
command_reports-AreReports w e count ((i, st) ∷ rs) a = elim (Bool-cases (ltb i count)) [
  | inl p ↦
      rw p (ltb→lt i count p, a.1, still_fresh rs a.2, command_reports-AreReports w e count rs a.3)
  | inr p ↦ rw p (command_reports-AreReports w e count rs a.3)
]
  where
    still_fresh :
        (others : Reports)
        → status_of i others ≡ none
        → status_of i (command_reports count others) ≡ none
    still_fresh [] h = refl
    still_fresh ((j, st') ∷ others) h =
        let apart = status_of-cons_none j i st' others h in
        let other : (j == i) ≡ false = ground (arith, apart.0) in
        elim (Bool-cases (ltb j count)) [
          | inl q ↦ rw (q, other) (still_fresh others apart.1)
          | inr q ↦ rw q (still_fresh others apart.1)
        ]

-- What a done entry says.
record Ended (e : Entry) : Type 0 where
  state : e.state ≡ done
  flag : e.is_done ≡ true
  status : e.wait_status ≡ final_status (pipeline_result e.pipeline_status)

finished-Ended : (e : Entry) → e.remaining ≡ 0 → Ended (finish_entry e)
unfolding finish_entry
finished-Ended e h =
    let none_left : (e.remaining == 0) ≡ true = ground arith in
    rw none_left (record { state = refl; flag = refl; status = refl })

pub terminate_member-finish :
    (w : WaitMacros) (e : Entry) (member st : ℕ)
    → terminate_member w e member st ≡ finish_entry (ended_entry w e member st)
unfolding terminate_member
terminate_member-finish w e member st = refl

terminated-Ended :
    (w : WaitMacros) (e : Entry) (member st : ℕ)
    → (terminate_member w e member st).remaining ≡ 0
    → Ended (terminate_member w e member st)
terminated-Ended w e member st h =
    let ended = ended_entry w e member st in
    let same = terminate_member-finish w e member st in
    let left = sym (finish_entry_rest ended).2 ∙ ap (λ (f : Entry). f.remaining) (sym same) ∙ h in
    subst Ended (sym same) (finished-Ended ended left)

last_ending-Ended :
    (w : WaitMacros) (job : Entry) (i st : ℕ) (rs : Reports)
    → IsWaitMacros w
    → EntryIsValid job
    → AreEndings w job ((i, st) ∷ rs)
    → length rs + 1 ≡ job.remaining
    → Ended (end_members w job ((i, st) ∷ rs))
last_ending-Ended w job i st rs laws v a all_ =
    let before = end_members w job rs in
    let same = update_entry-terminal w before i st laws a.1 in
    let p = end_members-Progress w job ((i, st) ∷ rs) laws v a in
    let left : (terminate_member w before i st).remaining ≡ 0 =
      ap (λ (f : Entry). f.remaining) (sym same) ∙ omega (arith, p.left, all_) in
    subst Ended (sym same) (terminated-Ended w before i st left)

-- The status of a pipeline whose last command has ended.
initial_count :
    (w : WaitMacros) (n : ℕ) (pipefail : Bool) (rs : Reports)
    → let s = pipeline_initialize (suc n) pipefail in
      record_all w s (command_reports s.command_count rs)
      ≡ record_all w s (command_reports (suc n) rs)
unfolding pipeline_initialize
initial_count w n pipefail rs = refl

pipeline_status_lem :
    (w : WaitMacros) (job : Entry) (pipefail : Bool) (n last : ℕ) (rs : Reports)
    → IsWaitMacros w
    → EntryIsValid job
    → job.pipeline_status ≡ pipeline_initialize (suc n) pipefail
    → AreEndings w job rs
    → let commands = command_reports (suc n) rs in
      status_of n commands ≡ some last
      → pipeline_result (end_members w job rs).pipeline_status
        ≡ some (if pipefail then rightmost w commands (suc n) last else last)
pipeline_status_lem w job pipefail n last rs laws v fresh a known =
    let commands = command_reports (suc n) rs in
    let p = end_members-Progress w job rs laws v a in
    let replayed : (end_members w job rs).pipeline_status
        ≡ record_all w (pipeline_initialize (suc n) pipefail) commands =
      p.pipeline
      ∙ ap (λ (s : PipelineStatus). record_all w s (command_reports s.command_count rs)) fresh
      ∙ initial_count w n pipefail rs in
    ap pipeline_result replayed
    ∙ pipeline_result_lem w n pipefail commands (command_reports-AreReports w job (suc n) rs a)
    ∙ ap (expected w (suc n) pipefail commands) known

launched :
    (e : Entry) (launch : Launch) (assigned sequence : ℕ)
    → let job = fill_entry e launch assigned sequence in
      (job.remaining ≡ length launch.members)
      × (job.pipeline_status ≡ pipeline_initialize launch.command_count launch.pipefail)
unfolding fill_entry
launched e launch assigned sequence = (refl, refl)

-- A job that was just launched, when every one of its processes has ended, in whatever order and
-- the latest first: the job is done, and its status is that of the last command, or with `pipefail`
-- that of the rightmost command that failed, if any did.
pub end_members-done :
    (w : WaitMacros) (e : Entry) (launch : Launch) (assigned sequence n i st last : ℕ)
    (rs : Reports)
    → let job = fill_entry e launch assigned sequence in
      let after = end_members w job ((i, st) ∷ rs) in
      let commands = command_reports (suc n) ((i, st) ∷ rs) in
      IsWaitMacros w
      → length e.member_states ≡ member_cap
      → length launch.members ≤ member_cap
      → launch.command_count ≡ suc n
      → AreEndings w job ((i, st) ∷ rs)
      → length rs + 1 ≡ length launch.members
      → status_of n commands ≡ some last
      → (after.state ≡ done)
        × (after.is_done ≡ true)
        × (after.wait_status
            ≡ (if launch.pipefail then rightmost w commands (suc n) last else last))
end_members-done w e launch assigned sequence n i st last rs laws room few count a all_ known =
    let job = fill_entry e launch assigned sequence in
    let v = fill_entry-IsValid e launch assigned sequence room (omega (arith, all_)) few in
    let fresh = launched e launch assigned sequence in
    let left = all_ ∙ sym fresh.0 in
    let ended = last_ending-Ended w job i st rs laws v a left in
    let start = fresh.1 ∙ ap (λ c. pipeline_initialize c launch.pipefail) count in
    let status =
      pipeline_status_lem w job launch.pipefail n last ((i, st) ∷ rs) laws v start a known in
    (ended.state, ended.flag, ended.status ∙ ap final_status status)
