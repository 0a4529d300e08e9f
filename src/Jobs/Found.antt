-- ===== src/Jobs/Found.antt =====
-- src/background_jobs.c: what a lookup by id finds in a valid table.
use gsh.Prelude.{
  ℕ, ◌<◌, ◌||◌, true, false, length, length-take, some, Option-cases, ◌==◌, ◌≡◌, sym, ap, ◌∙◌, inl,
  inr, arith,
}
use gsh.Jobs.{BackgroundTable}
use gsh.Jobs.Table.{find_index, has_job_id, overfull, used_entries, blank_entry, entry_at}
use gsh.Jobs.Release.{entry_for_id}
use gsh.Jobs.Slots.{get_or-take, find_index-none}
use gsh.Jobs.Reported.{TableIsValid, found_entry}

-- A known entry is the one that a lookup of its id finds.
pub entry_for_id_known :
    (t : BackgroundTable) (job_id index : ℕ)
    → TableIsValid t
    → index < t.used
    → (entry_at t index).known ≡ true
    → (entry_at t index).job_id ≡ job_id
    → entry_for_id t job_id ≡ some index
unfolding entry_for_id
entry_for_id_known t job_id index v inside known same =
    let has : has_job_id job_id (entry_at t index) ≡ true = ground (arith, known, same) in
    let guard : (job_id == 0 || overfull t) ≡ false =
      ground (arith, same, v.ids_nonzero index inside known, v.few) in
    elim (Option-cases (find_index (has_job_id job_id) (used_entries t))) [
      | inl missing ↦
          let reach : index < length (used_entries t) =
            omega (arith, inside, length-take t.used t.entries, v.slots, v.few) in
          let there =
            ap (has_job_id job_id) (sym (get_or-take t.used index t.entries blank_entry inside))
            ∙ find_index-none (has_job_id job_id) (used_entries t) blank_entry index missing
                reach in
          absurd (cc (has, there))
      | inr (other, found) ↦
          let at_ = found_entry t (has_job_id job_id) other found in
          let equal : other ≡ index =
            v.ids_apart other index at_.0 inside (ground (arith, at_.1)) known
              (ground (arith, at_.1, same)) in
          rw guard (found ∙ ap some equal)
    ]
