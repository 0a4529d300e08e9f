-- ===== src/Jobs.antt =====
-- src/background_jobs.h: the table of background jobs. Pointers are not null. A `pid_t` is a number;
-- the negative ones, which the guards refuse as they refuse 0, are left out. A wait status is the
-- number that the kernel gave, and is read only through the macros of <sys/wait.h>.
pub mod Pipeline
pub mod Table
pub mod Update
pub mod Release
pub mod Specs
pub mod Choice
pub mod Reports
pub mod Marked
pub mod Entries
pub mod Terminated
pub mod Ending
pub mod Slots
pub mod Reported
pub mod Released
pub mod Launched
pub mod Reachable
pub mod Available
pub mod Refusals
pub mod Filled
pub mod Spared
pub mod Found
pub mod Matches
pub mod Textual
mod Tests
use gsh.Prelude.{ℕ, Bool, List}

-- The macros of <sys/wait.h>, which are not code of the repository.
pub record WaitMacros : Type 0 where
  pub exited : ℕ → Bool
  pub exit_status : ℕ → ℕ
  pub signaled : ℕ → Bool
  pub stopped : ℕ → Bool
  pub continued : ℕ → Bool

abbrev pub background_cap : ℕ
background_cap = 128

abbrev pub member_cap : ℕ
member_cap = 64

abbrev pub command_cap : ℕ
command_cap = 4096

pub data JobState : Type 0 where
  running stopped done : JobState

pub data JobOrigin : Type 0 where
  classic managed async_list evaluator : JobOrigin

pub data JobspecStatus : Type 0 where
  ok missing ambiguous invalid : JobspecStatus

pub record PipelineStatus : Type 0 where
  pub command_count : ℕ
  pub rightmost_nonzero : ℕ
  pub selected_wait_status : ℕ
  pub last_wait_status : ℕ
  pub pipefail : Bool
  pub selected_known : Bool
  pub last_known : Bool

pub record Entry : Type 0 where
  pub pid : ℕ
  pub pgid : ℕ
  pub status_pid : ℕ
  pub members : List ℕ
  pub member_states : List ℕ
  pub member_count : ℕ
  pub remaining : ℕ
  pub wait_status : ℕ
  pub job_id : ℕ
  pub sequence : ℕ
  pub state : JobState
  pub origin : JobOrigin
  pub known : Bool
  pub is_done : Bool
  pub foreground : Bool
  pub terminal_owned : Bool
  pub notified : Bool
  pub consumed : Bool
  pub pipeline_status : PipelineStatus
  pub command_length : ℕ
  pub command : List ℕ

pub record BackgroundTable : Type 0 where
  pub entries : List Entry
  pub used : ℕ
  pub next_job_id : ℕ
  pub current_job_id : ℕ
  pub previous_job_id : ℕ
  pub next_sequence : ℕ
