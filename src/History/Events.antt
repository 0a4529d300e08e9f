-- ===== src/History/Events.antt =====
-- The lookups of the history, by event number and by position from the newest, against the
-- abstract history.
use gsh.Prelude.{
  ℕ, ◌-◌, ◌<◌, ◌&&◌, List, [], ltb, leb, if◌then◌else◌, length, take, get_or, Option, some, none,
  length-tabulate, get_or-tabulate, ◌≡◌, sym, ap, ◌∙◌, arith,
}
use gsh.History.{HistoryStore, physical_index, from_newest, oldest_event, history_event}
use gsh.History.Log.{Log}
use gsh.History.Ring.{IsValid, command_at, log_of, physical_index_lem}

-- The bytes that a returned pointer and `*length` stand for.
abbrev pub text_of : Option (List ℕ × ℕ) → Option (List ℕ)
text_of none = none
text_of (some (entry, size)) = some (take size entry)

-- The event before all that are kept.
abbrev pub first_event : Log → ℕ
first_event g = g.next - length g.commands

-- The command of an event, if the event is kept.
abbrev pub event_in : Log → ℕ → Option (List ℕ)
event_in g event =
    if leb (first_event g) event && ltb event g.next
    then some (get_or g.commands (event - first_event g) [])
    else none

-- The command at a position from the newest.
abbrev pub newest_in : Log → ℕ → Option (List ℕ)
newest_in g position =
    if ltb position (length g.commands)
    then some (get_or g.commands (length g.commands - position - 1) [])
    else none

-- The slot of a place in the ring holds the command of that place.
module _ {s : HistoryStore} (v : IsValid s) where
  slot-command :
      (i : ℕ)
      → i < s.count
      → take (get_or s.lengths (physical_index s i) 0) (get_or s.entries (physical_index s i) [])
        ≡ get_or (log_of s).commands i []
  slot-command i h =
      ap (λ p. take (get_or s.lengths p 0) (get_or s.entries p []))
        (physical_index_lem s i v.start_lt (omega (arith, v.count_le)))
      ∙ sym (get_or-tabulate (command_at s) s.count i [] h)

  length-commands : length (log_of s).commands ≡ s.count
  length-commands = length-tabulate (command_at s) s.count

  -- `gsh_history_event` returns the command of the event in the abstract history, and null for an
  -- event that is no longer or not yet there.
  pub history_event_lem : (event : ℕ) → text_of (history_event s event) ≡ event_in (log_of s) event
  unfolding history_event oldest_event
  history_event_lem event =
      rw length-commands
        (ground (arith, slot-command (event - (s.next_event - s.count)), v.count-lt-next))

  -- `gsh_history_from_newest` counts the commands of the abstract history back from the newest.
  pub from_newest_lem :
      (position : ℕ) → text_of (from_newest s position) ≡ newest_in (log_of s) position
  unfolding from_newest
  from_newest_lem position =
      rw length-commands (ground (arith, slot-command (s.count - position - 1), v.count_le))
