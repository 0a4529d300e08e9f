-- ===== src/History/Log.antt =====
-- The abstract history: the commands that are kept, oldest first, and the number of the next event.
-- It knows of no ring, no slots and no lengths.
use gsh.Prelude.{
  einval, eoverflow, ℕ, ◌+◌, Bool, false, ◌&&◌, ◌||◌, List, [], ◌∷◌, ◌++◌, ltb, leb, ◌==◌,
  if◌then◌else◌, length, drop, bytes_eq, u64_max,
}
use gsh.History.{Added, added, unchanged, failed, history_cap, entry_cap}

pub record Log : Type 0 where
  pub commands : List (List ℕ)
  pub next : ℕ

-- The last command is `command`.
unfoldable pub last_is : List (List ℕ) → List ℕ → Bool
last_is [] command = false
last_is (c ∷ []) command = bytes_eq c command
last_is (c ∷ (d ∷ rest)) command = last_is (d ∷ rest) command

-- The newest 1024 of a list that has one more at most.
unfoldable pub keep : List (List ℕ) → List (List ℕ)
keep commands = if ltb history_cap (length commands) then drop 1 commands else commands

unfoldable pub log_add : Log → List ℕ → Bool → Log × Added
log_add g command deduplicate =
    if length command == 0 || leb entry_cap (length command)
    then (g, failed einval)
    else if deduplicate && last_is g.commands command
    then (g, unchanged)
    else if g.next == u64_max
    then (g, failed eoverflow)
    else (record { commands = keep (g.commands ++ (command ∷ [])); next = g.next + 1 }, added)
