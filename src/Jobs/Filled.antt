-- ===== src/Jobs/Filled.antt =====
-- src/background_jobs.c: what `gsh_background_add_job` writes into the entry that it takes.
use gsh.Prelude.{
  ℕ, zero, suc, true, false, List, [], ◌∷◌, ◌++◌, length, take, get_or, replicate, ◌≡◌, refl, ap,
}
use gsh.Jobs.{Entry, running}
use gsh.Jobs.Table.{Launch, fill_entry}

take-append : (xs ys : List ℕ) → take (length xs) (xs ++ ys) ≡ xs
take-append [] ys = refl
take-append (x ∷ xs) ys = ap (◌∷◌ x) (take-append xs ys)

get_or-append : (xs ys : List ℕ) (y d : ℕ) → get_or (xs ++ (y ∷ ys)) (length xs) d ≡ y
get_or-append [] ys y d = refl
get_or-append (x ∷ xs) ys y d = get_or-append xs ys y d

take-replicate : (n : ℕ) (ys : List ℕ) → take n (replicate n 0 ++ ys) ≡ replicate n 0
take-replicate zero ys = refl
take-replicate (suc n) ys = ap (◌∷◌ 0) (take-replicate n ys)

-- The entry of a job that was launched as `launch` asks and has run no further: its processes are all
-- alive, its command ends in a NUL, and no status is known.
pub record Holds (launch : Launch) (id sequence : ℕ) (e : Entry) : Type 0 where
  pub pid : e.pid ≡ launch.status_pid
  pub pgid : e.pgid ≡ launch.pgid
  pub status_pid : e.status_pid ≡ launch.status_pid
  pub member_count : e.member_count ≡ length launch.members
  pub members : take e.member_count e.members ≡ launch.members
  pub member_states : take e.member_count e.member_states ≡ replicate e.member_count 0
  pub remaining : e.remaining ≡ e.member_count
  pub wait_status : e.wait_status ≡ 0
  pub job_id : e.job_id ≡ id
  pub sequence_eq : e.sequence ≡ sequence
  pub state : e.state ≡ running
  pub origin : e.origin ≡ launch.origin
  pub known : e.known ≡ true
  pub not_done : e.is_done ≡ false
  pub background : (e.foreground ≡ false) × (e.terminal_owned ≡ false)
  pub not_reported : (e.notified ≡ false) × (e.consumed ≡ false)
  pub command_count : e.pipeline_status.command_count ≡ launch.command_count
  pub pipefail : e.pipeline_status.pipefail ≡ launch.pipefail
  pub nothing_known :
      (e.pipeline_status.selected_known ≡ false)
      × (e.pipeline_status.last_known ≡ false)
      × (e.pipeline_status.rightmost_nonzero ≡ 0)
  pub command_length : e.command_length ≡ length launch.command
  pub command : take e.command_length e.command ≡ launch.command
  pub terminated : get_or e.command e.command_length 1 ≡ 0

pub fill_entry-Holds :
    (e : Entry) (launch : Launch) (id sequence : ℕ)
    → Holds launch id sequence (fill_entry e launch id sequence)
unfolding fill_entry
fill_entry-Holds e launch id sequence = record {
  pid = refl;
  pgid = refl;
  status_pid = refl;
  member_count = refl;
  members = take-append launch.members _;
  member_states = take-replicate (length launch.members) _;
  remaining = refl;
  wait_status = refl;
  job_id = refl;
  sequence_eq = refl;
  state = refl;
  origin = refl;
  known = refl;
  not_done = refl;
  background = (refl, refl);
  not_reported = (refl, refl);
  command_count = refl;
  pipefail = refl;
  nothing_known = (refl, refl, refl);
  command_length = refl;
  command = take-append launch.command _;
  terminated = get_or-append launch.command _ 0 1;
}
