-- ===== src/History/Ring.antt =====
-- The ring keeps its invariant, and refines the abstract history.
use gsh.Prelude.{
  take-append_take, ℕ, ◌+◌, ◌%◌, ◌^◌, ◌≤◌, ◌<◌, List, [], ◌∷◌, length, get_or, set, take, drop,
  tabulate, get_or-set_self, get_or-set_ne, length-take, length-drop, length-append, ◌≡◌, ◌≢◌,
  arith,
}
use gsh.History.{HistoryStore, history_cap, entry_cap, physical_index, write_entry}
use gsh.History.Log.{Log}

-- The slots are all there, and each holds a command with its terminator.
pub record IsValid (s : HistoryStore) : Type 0 where
  pub slots : length s.entries ≡ history_cap
  pub sizes : length s.lengths ≡ history_cap
  pub start_lt : s.start < history_cap
  pub count_le : s.count ≤ history_cap
  pub count-lt-next : s.count < s.next_event
  pub next_lt : s.next_event < 2 ^ 64
  pub fits :
      (i : ℕ)
      → i < history_cap
      → (get_or s.lengths i 0 < entry_cap) × (length (get_or s.entries i []) ≡ entry_cap)

abbrev pub text_in : List ℕ → List (List ℕ) → ℕ → List ℕ
text_in lengths entries slot = take (get_or lengths slot 0) (get_or entries slot [])

-- the command that is `i` places behind the oldest
abbrev pub command_at : HistoryStore → ℕ → List ℕ
command_at s i = text_in s.lengths s.entries ((s.start + i) % history_cap)

abbrev pub log_of : HistoryStore → Log
log_of s = record { commands = tabulate (command_at s) s.count; next = s.next_event }

pub physical_index_lem :
    (s : HistoryStore) (i : ℕ)
    → s.start < history_cap
    → i ≤ history_cap
    → physical_index s i ≡ (s.start + i) % history_cap
unfolding physical_index
physical_index_lem s i h k = omega arith

take-write_entry :
    (entry command : List ℕ) (n : ℕ)
    → n ≤ length command
    → take n (write_entry entry command n) ≡ take n command
unfolding write_entry
take-write_entry entry command n h = take-append_take n command _ h

pub length-write_entry :
    (entry command : List ℕ) (n : ℕ)
    → n ≤ length command
    → n < length entry
    → length (write_entry entry command n) ≡ length entry
unfolding write_entry
length-write_entry entry command n h k = omega (
  arith,
  length-append (take n command) (0 ∷ drop (n + 1) entry),
  length-take n command,
  length-drop (n + 1) entry,
)

-- One slot written: its text is the command, and the other slots keep theirs.
module _ (lengths : List ℕ) (entries : List (List ℕ)) (slot : ℕ) (command : List ℕ) (n : ℕ) where
  abbrev pub written_lengths : List ℕ
  written_lengths = set lengths slot (n % 2 ^ 16)

  abbrev pub written_entries : List (List ℕ)
  written_entries = set entries slot (write_entry (get_or entries slot []) command n)

  pub text_in-written :
      slot < length lengths
      → slot < length entries
      → n < entry_cap
      → n ≤ length command
      → text_in written_lengths written_entries slot ≡ take n command
  text_in-written h k m w =
      let size : n % 2 ^ 16 ≡ n = omega arith in
      rw
        (
          get_or-set_self lengths slot (n % 2 ^ 16) 0 h,
          get_or-set_self entries slot (write_entry (get_or entries slot []) command n) [] k,
          size,
        )
        (take-write_entry (get_or entries slot []) command n w)

  pub text_in-other :
      (i : ℕ) → slot ≢ i → text_in written_lengths written_entries i ≡ text_in lengths entries i
  text_in-other i h = rw (
    get_or-set_ne lengths (n % 2 ^ 16) 0 h,
    get_or-set_ne entries (write_entry (get_or entries slot []) command n) [] h,
  )
