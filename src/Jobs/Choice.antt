-- ===== src/Jobs/Choice.antt =====
-- src/background_jobs.c: which status the accumulator of a pipeline selects.
use gsh.Prelude.{
  ℕ, zero, suc, ◌<◌, Bool, true, false, ◌&&◌, ◌||◌, not, Bool-cases, List, [], ◌∷◌, Option, none,
  some, ltb, ◌==◌, ==_iff, if◌then◌else◌, ◌≡◌, refl, sym, ap, ◌∙◌, inl, inr, arith,
}
use gsh.Jobs.{WaitMacros, PipelineStatus}
use gsh.Jobs.Pipeline.{
  wait_status_nonzero, is_terminal, record_last, record_selected, pipeline_record,
}

-- The commands that have ended, with their wait statuses, the latest first.
abbrev pub Reports : Type 0
Reports = List (ℕ × ℕ)

abbrev pub status_of : ℕ → Reports → Option ℕ
status_of index [] = none
status_of index ((i, st) ∷ rs) = if i == index then some st else status_of index rs

-- Each report is of another command of the pipeline, with the status of a process that has ended.
abbrev pub AreReports : WaitMacros → ℕ → Reports → Type 0
AreReports m count [] = Unit
AreReports m count ((i, st) ∷ rs) =
    (i < count) × (is_terminal m st ≡ true) × (status_of i rs ≡ none) × AreReports m count rs

abbrev pub record_all : WaitMacros → PipelineStatus → Reports → PipelineStatus
record_all m s [] = s
record_all m s ((i, st) ∷ rs) = (pipeline_record m (record_all m s rs) i st).0

abbrev or_else : Option ℕ → ℕ → ℕ
or_else none d = d
or_else (some st) d = st

abbrev pub fails : WaitMacros → Option ℕ → Bool
fails m none = false
fails m (some st) = wait_status_nonzero m st

-- The status of the rightmost of the first `n` commands that failed, or `last`.
abbrev pub rightmost : WaitMacros → Reports → ℕ → ℕ → ℕ
rightmost m rs zero last = last
rightmost m rs (suc n) last =
    if fails m (status_of n rs) then or_else (status_of n rs) last else rightmost m rs n last

-- What the shell promises: nothing before the last command has ended, then its status, or with
-- `pipefail` that of the rightmost command that failed.
abbrev pub expected : WaitMacros → ℕ → Bool → Reports → Option ℕ → Option ℕ
expected m count pipefail rs none = none
expected m count pipefail rs (some last) =
    some (if pipefail then rightmost m rs count last else last)

-- The guard lets a report through.
pub record_step :
    (m : WaitMacros) (s : PipelineStatus) (i st : ℕ)
    → i < s.command_count
    → is_terminal m st ≡ true
    → (pipeline_record m s i st).0 ≡ record_selected m (record_last s i st) i st
unfolding pipeline_record
record_step m s i st h t = ground arith

-- What the accumulator has selected: no command failed, or `k` is the rightmost that did.
abbrev pub Choice : WaitMacros → ℕ → Reports → Bool → ℕ → ℕ → Type 0
Choice m count rs false k st = (i : ℕ) → fails m (status_of i rs) ≡ false
Choice m count rs true k st =
    (k < count)
    × (status_of k rs ≡ some st)
    × (wait_status_nonzero m st ≡ true)
    × ((i : ℕ) → k < i → fails m (status_of i rs) ≡ false)

-- The latest report counts for its own command only.
status_of-same : (i st : ℕ) (rs : Reports) → status_of i ((i, st) ∷ rs) ≡ some st
status_of-same i st rs = ground arith

status_of-other :
    (i j st : ℕ) (rs : Reports) → (i == j) ≡ false → status_of j ((i, st) ∷ rs) ≡ status_of j rs
status_of-other i j st rs h = rw h refl

fails-cons :
    (m : WaitMacros) (i j st : ℕ) (rs : Reports)
    → wait_status_nonzero m st ≡ false
    → fails m (status_of j rs) ≡ false
    → fails m (status_of j ((i, st) ∷ rs)) ≡ false
fails-cons m i j st rs ok_ h = elim (Bool-cases (i == j)) [ inl e ↦ rw e ok_ | inr e ↦ rw e h ]

-- A command that failed, to the right of all that did.
choose-Choice :
    (m : WaitMacros) (count : ℕ) (rs : Reports) (i st : ℕ)
    → i < count
    → wait_status_nonzero m st ≡ true
    → ((j : ℕ) → i < j → fails m (status_of j rs) ≡ false)
    → Choice m count ((i, st) ∷ rs) true i st
choose-Choice m count rs i st h bad right = (
  h,
  status_of-same i st rs,
  bad,
  λ j lt. ap (fails m) (status_of-other i j st rs (ground arith)) ∙ right j lt,
)

pub step-Choice :
    (m : WaitMacros) (count : ℕ) (rs : Reports) (known : Bool) (k sel i st : ℕ)
    → Choice m count rs known k sel
    → i < count
    → status_of i rs ≡ none
    → (hit : Bool) → (wait_status_nonzero m st && (not known || ltb k i)) ≡ hit
    → Choice m count ((i, st) ∷ rs) (known || hit) (if hit then i else k) (if hit then st else sel)
step-Choice m count rs false k sel i st c h fresh true e =
    choose-Choice m count rs i st h (ground (arith, e)) (λ j lt. c j)
step-Choice m count rs false k sel i st c h fresh false e =
    λ j. fails-cons m i j st rs (ground (arith, e)) (c j)
step-Choice m count rs true k sel i st c h fresh true e =
    choose-Choice m count rs i st h (ground (arith, e)) (λ j lt. c.3 j (ground (arith, e)))
step-Choice m count rs true k sel i st c h fresh false e =
    let apart : (i == k) ≡ false = elim (Bool-cases (i == k)) [
      | inl here ↦
          let same : i ≡ k = (==_iff i k).0 here in
          absurd (cc (sym fresh ∙ ap (λ n. status_of n rs) same ∙ c.1))
      | inr other ↦ other
    ] in
    (
      c.0,
      status_of-other i k st rs apart ∙ c.1,
      c.2,
      λ j lt. elim (Bool-cases (i == j)) [
        | inl here ↦ let fine : wait_status_nonzero m st ≡ false = ground (arith, e) in rw here fine
        | inr other ↦ rw other (c.3 j lt)
      ],
    )
