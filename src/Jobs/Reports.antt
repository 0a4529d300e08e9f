-- ===== src/Jobs/Reports.antt =====
-- src/background_jobs.c: what the accumulator of a pipeline gives, in whatever order the commands
-- end.
use gsh.Prelude.{
  ℕ, zero, suc, ◌-◌, ◌<◌, Bool, true, false, ◌&&◌, ◌||◌, not, Bool-cases, [], ◌∷◌, none, some, ltb,
  ◌==◌, ==_iff, if◌then◌else◌, ◌≡◌, refl, sym, ap, ◌∙◌, inl, inr, arith,
}
use mathlib.Core.Path.{subst}
use gsh.Jobs.{WaitMacros, PipelineStatus}
use gsh.Jobs.Pipeline.{
  wait_status_nonzero, is_terminal, pipeline_initialize, record_last, record_selected,
  pipeline_record, pipeline_result,
}
use gsh.Jobs.Choice.{
  Reports, status_of, AreReports, record_all, rightmost, expected, record_step, Choice, step-Choice,
}

-- The accumulator after the reports.
record Tracks (m : WaitMacros) (count : ℕ) (pipefail : Bool) (rs : Reports) (s : PipelineStatus)
    : Type 0 where
  counted : s.command_count ≡ count
  same_option : s.pipefail ≡ pipefail
  last :
      (if s.last_known then some s.last_wait_status else none)
      ≡ (if count == 0 then none else status_of (count - 1) rs)
  choice :
      (pipefail ≡ true)
      → Choice m count rs s.selected_known s.rightmost_nonzero s.selected_wait_status

initialize-Tracks :
    (m : WaitMacros) (count : ℕ) (pipefail : Bool)
    → Tracks m count pipefail [] (pipeline_initialize count pipefail)
unfolding pipeline_initialize
initialize-Tracks m count pipefail = record {
  counted = refl;
  same_option = refl;
  last = ground arith;
  choice = λ _ i. refl;
}

record_last-Tracks :
    (m : WaitMacros) (count : ℕ) (pipefail : Bool) (rs : Reports) (s : PipelineStatus) (i st : ℕ)
    → Tracks m count pipefail rs s
    → i < count
    → (if (record_last s i st).last_known then some (record_last s i st).last_wait_status else none)
      ≡ (if count == 0 then none else status_of (count - 1) ((i, st) ∷ rs))
unfolding record_last
record_last-Tracks m count pipefail rs s i st t h = ground (arith, t.last, t.counted)

record_selected_rest :
    (m : WaitMacros) (s : PipelineStatus) (i st : ℕ)
    → let after = record_selected m s i st in
      (after.command_count ≡ s.command_count)
      × (after.pipefail ≡ s.pipefail)
      × (after.last_known ≡ s.last_known)
      × (after.last_wait_status ≡ s.last_wait_status)
unfolding record_selected
record_selected_rest m s i st = ground arith

record_last_rest :
    (s : PipelineStatus) (i st : ℕ)
    → let after = record_last s i st in
      (after.command_count ≡ s.command_count)
      × (after.pipefail ≡ s.pipefail)
      × (after.selected_known ≡ s.selected_known)
      × (after.rightmost_nonzero ≡ s.rightmost_nonzero)
      × (after.selected_wait_status ≡ s.selected_wait_status)
unfolding record_last
record_last_rest s i st = ground arith

-- Whether a status is selected, with `pipefail` on.
abbrev hits : WaitMacros → PipelineStatus → ℕ → ℕ → Bool
hits m s i st = wait_status_nonzero m st && (not s.selected_known || ltb s.rightmost_nonzero i)

record_selected_lem :
    (m : WaitMacros) (s : PipelineStatus) (i st : ℕ)
    → s.pipefail ≡ true
    → let after = record_selected m s i st in
      (after.selected_known ≡ s.selected_known || hits m s i st)
      × (after.rightmost_nonzero ≡ (if hits m s i st then i else s.rightmost_nonzero))
      × (after.selected_wait_status ≡ (if hits m s i st then st else s.selected_wait_status))
unfolding record_selected
record_selected_lem m s i st on = ground arith

record_selected-Choice :
    (m : WaitMacros) (count : ℕ) (rs : Reports) (s : PipelineStatus) (i st : ℕ)
    → s.pipefail ≡ true
    → Choice m count rs s.selected_known s.rightmost_nonzero s.selected_wait_status
    → i < count
    → status_of i rs ≡ none
    → let after = record_selected m s i st in
      Choice m count
        ((i, st) ∷ rs)
        after.selected_known
        after.rightmost_nonzero
        after.selected_wait_status
record_selected-Choice m count rs s i st on c h fresh =
    let f = record_selected_lem m s i st on in
    rw (f.0, f.1, f.2)
      (step-Choice m count rs s.selected_known s.rightmost_nonzero s.selected_wait_status i st c h
        fresh (hits m s i st) refl)

step-Tracks :
    (m : WaitMacros) (count : ℕ) (pipefail : Bool) (rs : Reports) (s : PipelineStatus) (i st : ℕ)
    → Tracks m count pipefail rs s
    → i < count
    → is_terminal m st ≡ true
    → status_of i rs ≡ none
    → Tracks m count pipefail ((i, st) ∷ rs) (pipeline_record m s i st).0
step-Tracks m count pipefail rs s i st t h ended fresh =
    let l = record_last s i st in
    let kept = record_last_rest s i st in
    let rest = record_selected_rest m l i st in
    let last = record_last-Tracks m count pipefail rs s i st t h in
    rw (record_step m s i st (omega (arith, t.counted)) ended) (record {
      counted = rest.0 ∙ kept.0 ∙ t.counted;
      same_option = rest.1 ∙ kept.1 ∙ t.same_option;
      last = rw (rest.2, rest.3) last;
      choice = λ on.
          let before : Choice m count rs l.selected_known l.rightmost_nonzero
              l.selected_wait_status =
            rw (kept.2, kept.3, kept.4) (t.choice on) in
          record_selected-Choice m count rs l i st (kept.1 ∙ t.same_option ∙ on) before h fresh;
    })

record_all-Tracks :
    (m : WaitMacros) (count : ℕ) (pipefail : Bool) (rs : Reports)
    → AreReports m count rs
    → Tracks m count pipefail rs (record_all m (pipeline_initialize count pipefail) rs)
record_all-Tracks m count pipefail [] a = initialize-Tracks m count pipefail
record_all-Tracks m count pipefail ((i, st) ∷ rs) a =
    step-Tracks m count pipefail rs _ i st (record_all-Tracks m count pipefail rs a.3) a.0 a.1 a.2

rightmost-Choice :
    (m : WaitMacros) (rs : Reports) (known : Bool) (k sel count n last : ℕ)
    → Choice m count rs known k sel
    → (known ≡ true → k < n)
    → rightmost m rs n last ≡ (if known then sel else last)
rightmost-Choice m rs false k sel count zero last c h = refl
rightmost-Choice m rs true k sel count zero last c h = absurd (omega (arith, h refl))
rightmost-Choice m rs false k sel count (suc n) last c h =
    rw (c n) (rightmost-Choice m rs false k sel count n last c (λ e. absurd (cc)))
rightmost-Choice m rs true k sel count (suc n) last c h = elim (Bool-cases (k == n)) [
  | inl here ↦
      let same : k ≡ n = (==_iff k n).0 here in
      let found : status_of n rs ≡ some sel = ap (λ j. status_of j rs) (sym same) ∙ c.1 in
      rw found (rw c.2 refl)
  | inr below ↦
      let lt : k < n = ground (arith, h refl) in
      rw (c.3 n lt) (rightmost-Choice m rs true k sel count n last c (λ _. lt))
]

Choice-within :
    (m : WaitMacros) (count : ℕ) (rs : Reports) (known : Bool) (k sel : ℕ)
    → Choice m count rs known k sel
    → known ≡ true
    → k < count
Choice-within m count rs false k sel c h = absurd (cc)
Choice-within m count rs true k sel c h = c.0

last_report :
    (rs : Reports) (n count : ℕ)
    → n ≡ suc count
    → (if n == 0 then none else status_of (n - 1) rs) ≡ status_of count rs
last_report rs n count e =
    let before : n - 1 ≡ count = omega arith in
    let positive : (n == 0) ≡ false = ground arith in rw (positive, before) refl

chosen_status :
    (m : WaitMacros) (count : ℕ) (rs : Reports) (pipefail known : Bool) (k sel last : ℕ)
    → (pipefail ≡ true → Choice m count rs known k sel)
    → (if pipefail && known then sel else last)
      ≡ (if pipefail then rightmost m rs count last else last)
chosen_status m count rs false known k sel last c = refl
chosen_status m count rs true known k sel last c = sym (
    rightmost-Choice m rs known k sel count count last (c refl)
      (Choice-within m count rs known k sel (c refl)))

result-Tracks :
    (m : WaitMacros) (count : ℕ) (pipefail : Bool) (rs : Reports) (s : PipelineStatus)
    → Tracks m (suc count) pipefail rs s
    → pipeline_result s ≡ expected m (suc count) pipefail rs (status_of count rs)
unfolding pipeline_result
result-Tracks m count pipefail rs s t =
    let at_last : (if s.last_known then some s.last_wait_status else none) ≡ status_of count rs =
      t.last ∙ last_report rs (suc count) count refl in
    elim (Bool-cases s.last_known) [
      | inl ended ↦
          let report : some s.last_wait_status ≡ status_of count rs =
            sym (ap (λ b. if b then some s.last_wait_status else none) ended) ∙ at_last in
          let chosen =
            chosen_status m (suc count) rs pipefail s.selected_known s.rightmost_nonzero
              s.selected_wait_status s.last_wait_status t.choice in
          subst (λ r. pipeline_result s ≡ expected m (suc count) pipefail rs r) report
            (ground (arith, ended, t.counted, t.same_option, chosen))
      | inr running ↦
          let report : none ≡ status_of count rs =
            sym (ap (λ b. if b then some s.last_wait_status else none) running) ∙ at_last in
          subst (λ r. pipeline_result s ≡ expected m (suc count) pipefail rs r) report
            (ground (arith, running))
    ]

-- Whatever commands of a pipeline have ended and in whatever order, `gsh_pipeline_status_result`
-- gives nothing until the last command has ended, and then the last command's status, or with
-- `pipefail` the status of the rightmost command that failed, if any did.
pub pipeline_result_lem :
    (m : WaitMacros) (count : ℕ) (pipefail : Bool) (rs : Reports)
    → AreReports m (suc count) rs
    → pipeline_result (record_all m (pipeline_initialize (suc count) pipefail) rs)
      ≡ expected m (suc count) pipefail rs (status_of count rs)
pipeline_result_lem m count pipefail rs a =
    result-Tracks m count pipefail rs _ (record_all-Tracks m (suc count) pipefail rs a)
