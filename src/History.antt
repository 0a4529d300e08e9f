-- ===== src/History.antt =====
-- src/history_store.c and src/history_store.h: the command history, a ring of 1024 slots of 4096
-- bytes. A function that updates `*store` returns the new store with what it returns; a pointer to
-- a slot with its `*length` is the slot's bytes with the length. Pointers are not null. A command
-- is a list of bytes, of which the first `length` are read.

pub mod Log
pub mod Ring
pub mod Add
pub mod Refine
pub mod Events
pub mod Search
pub mod Prefix
pub mod Fresh
mod Tests
use gsh.Prelude.{
  Errno, einval, eoverflow, enoent, ℕ, zero, suc, ◌+◌, ◌-◌, ◌%◌, ◌^◌, Bool, true, false, ◌&&◌, ◌||◌,
  not, List, [], ◌∷◌, ◌++◌, Option, none, some, ltb, leb, ◌==◌, if◌then◌else◌, length, get_or, set,
  take, drop, replicate, bytes_eq, add_size, sub_size, u64_max, map,
}

abbrev pub history_cap : ℕ
history_cap = 1024

abbrev pub entry_cap : ℕ
entry_cap = 4096

pub record HistoryStore : Type 0 where
  pub lengths : List ℕ
  pub start : ℕ
  pub count : ℕ
  pub next_event : ℕ
  pub entries : List (List ℕ)

-- `memset(..., 0, ...)` over an array of numbers
abbrev pub zeroed : List ℕ → List ℕ
zeroed bytes = replicate (length bytes) 0

unfoldable pub initialize : HistoryStore → HistoryStore
initialize s = record s { lengths = zeroed s.lengths; start = 0; count = 0; next_event = 1 }

unfoldable pub clear : HistoryStore → HistoryStore
clear s = record {
  lengths = zeroed s.lengths;
  start = 0;
  count = 0;
  next_event = 1;
  entries = map zeroed s.entries;
}

unfoldable pub physical_index : HistoryStore → ℕ → ℕ
physical_index s chronological = add_size s.start chronological % history_cap

-- what `gsh_history_add` returns: 1, 0, or -1 with `errno`
pub data Added : Type 0 where
  added unchanged : Added
  failed : Errno → Added

-- `memcpy(entry, command, length); entry[length] = '\0';`
unfoldable pub write_entry : List ℕ → List ℕ → ℕ → List ℕ
write_entry entry command length = take length command ++ (0 ∷ drop (length + 1) entry)

-- the command is the latest one: `memcmp` over `length` bytes
unfoldable pub is_latest : HistoryStore → List ℕ → ℕ → Bool
unfolding physical_index
is_latest s command length =
    let latest = physical_index s (s.count - 1) in
    get_or s.lengths latest 0 == length
    && bytes_eq (take length (get_or s.entries latest [])) (take length command)

-- the end of `gsh_history_add`, at the slot that it has chosen
abbrev pub store_at : HistoryStore → ℕ → List ℕ → ℕ → HistoryStore
store_at s slot command length = record s {
  entries = set s.entries slot (write_entry (get_or s.entries slot []) command length);
  lengths = set s.lengths slot (length % 2 ^ 16);
  next_event = (s.next_event + 1) % 2 ^ 64;
}

unfoldable pub history_add : HistoryStore → List ℕ → ℕ → Bool → HistoryStore × Added
history_add s command length deduplicate =
    if length == 0
      || leb entry_cap length
      || ltb history_cap s.count
      || s.next_event == 0
      || leb s.next_event s.count
    then (s, failed einval)
    else if deduplicate && not (s.count == 0) && is_latest s command length
    then (s, unchanged)
    else if s.next_event == u64_max
    then (s, failed eoverflow)
    else if ltb s.count history_cap
    then (
      store_at (record s { count = add_size s.count 1 }) (physical_index s s.count) command length,
      added,
    )
    else (
      store_at (record s { start = add_size s.start 1 % history_cap }) s.start command length,
      added,
    )

-- a slot's bytes and `*length`
abbrev slot_of : HistoryStore → ℕ → List ℕ × ℕ
slot_of s slot = (get_or s.entries slot [], get_or s.lengths slot 0)

unfoldable pub from_newest : HistoryStore → ℕ → Option (List ℕ × ℕ)
from_newest s position =
    if leb s.count position || ltb history_cap s.count
    then none
    else some (slot_of s (physical_index s (s.count - position - 1)))

-- the `for` of `contains` over the offsets, with the bytes from the offset on
unfoldable pub contains_from : ℕ → List ℕ → List ℕ → Bool
contains_from zero text query = bytes_eq (take (length query) text) query
contains_from (suc more) text query =
    bytes_eq (take (length query) text) query || contains_from more (drop 1 text) query

-- The query's length is `length query`, since callers pass it so.
unfoldable pub contains : List ℕ → ℕ → List ℕ → Bool
unfolding contains_from
contains text text_length query =
    if length query == 0
    then true
    else if ltb text_length (length query)
    then false
    else contains_from (text_length - length query) text query

abbrev pub entry_contains : Option (List ℕ × ℕ) → List ℕ → Bool
entry_contains none query = false
entry_contains (some (entry, length)) query = contains entry length query

-- The `for` over the candidates, with the rounds that are left; `none` is `ENOENT`.
unfoldable pub search_from : ℕ → HistoryStore → List ℕ → ℕ → Option ℕ
search_from zero s query candidate = none
search_from (suc rounds) s query candidate =
    let rest = search_from rounds s query (candidate + 1) in
    if entry_contains (from_newest s candidate) query then some candidate else rest

pub data Found : Type 0 where
  found : ℕ → Found
  missing : Errno → Found

abbrev pub found_or : Option ℕ → Found
found_or none = missing enoent
found_or (some position) = found position

unfoldable pub search_reverse : HistoryStore → List ℕ → ℕ → Found
unfolding search_from
search_reverse s query before =
    if leb entry_cap (length query) || ltb s.count before || ltb history_cap s.count
    then missing einval
    else found_or (search_from (s.count - before) s query before)

unfoldable pub oldest_event : HistoryStore → ℕ
oldest_event s = if s.count == 0 || leb s.next_event s.count then 0 else s.next_event - s.count

unfoldable pub newest_event : HistoryStore → ℕ
newest_event s = if s.count == 0 || s.next_event == 0 then 0 else s.next_event - 1

unfoldable pub history_event : HistoryStore → ℕ → Option (List ℕ × ℕ)
history_event s event =
    let oldest = oldest_event s in
    if oldest == 0 || ltb event oldest || leb s.next_event event
    then none
    else some (slot_of s (physical_index s (event - oldest)))

abbrev pub entry_begins : Option (List ℕ × ℕ) → List ℕ → Bool
entry_begins none prefix = false
entry_begins (some (entry, size)) prefix =
    leb (length prefix) size && bytes_eq (take (length prefix) entry) prefix

-- The `for` over `checked`, with the rounds that are left. `candidate--` runs only at a candidate
-- that is not below `oldest`, which is not 0.
unfoldable pub find_from : ℕ → HistoryStore → List ℕ → ℕ → ℕ → Option ℕ
find_from zero s prefix oldest candidate = none
find_from (suc rounds) s prefix oldest candidate =
    let rest = find_from rounds s prefix oldest (candidate - 1) in
    if ltb candidate oldest
    then none
    else if entry_begins (history_event s candidate) prefix
    then some candidate
    else rest

unfoldable pub find_prefix : HistoryStore → List ℕ → ℕ → Found
unfolding find_from
find_prefix s prefix before_event =
    let oldest = oldest_event s in
    if leb entry_cap (length prefix) || oldest == 0
    then missing einval
    else found_or (
        find_from s.count s prefix oldest
          (if leb s.next_event before_event then s.next_event - 1 else before_event))
