-- ===== src/History/Tests.antt =====
-- The theorems on the history at concrete stores.
use gsh.Prelude.{ℕ, List, [], ◌∷◌, ◌≡◌, refl, true, arith}
use gsh.History.{
  HistoryStore, history_cap, entry_cap, initialize, clear, history_add, history_event, from_newest,
  search_reverse, find_prefix,
}
use gsh.History.Log.{log_add}
use gsh.History.Ring.{IsValid, log_of}
use gsh.History.Refine.{Agrees, history_add_refines}
use gsh.History.Events.{text_of, event_in, newest_in, history_event_lem, from_newest_lem}
use gsh.History.Prefix.{Latest, find_prefix-Latest}
use gsh.History.Search.{Newest, search_reverse-Newest}
use gsh.History.Fresh.{
  IsAllocated, IsFresh, zero_store, zero_store-IsAllocated, initialize-IsFresh, clear-IsFresh,
}

abbrev memory : HistoryStore
memory = zero_store history_cap entry_cap

abbrev ls : List ℕ
ls = b'l' ∷ b's' ∷ []

memory-IsAllocated : IsAllocated memory
memory-IsAllocated = zero_store-IsAllocated history_cap entry_cap refl refl

initialize-IsFresh_example : IsFresh (initialize memory)
initialize-IsFresh_example = initialize-IsFresh memory-IsAllocated

clear-IsFresh_example : IsFresh (clear memory)
clear-IsFresh_example = clear-IsFresh memory-IsAllocated

abbrev empty : HistoryStore
empty = initialize memory

empty-IsValid : IsValid empty
empty-IsValid = (initialize-IsFresh memory-IsAllocated).valid

history_add_refines_example : Agrees (history_add empty ls 2 true) (log_add (log_of empty) ls true)
history_add_refines_example = history_add_refines ls 2 true empty-IsValid (omega arith)

abbrev with_ls : HistoryStore
with_ls = (history_add empty ls 2 true).0

with_ls-IsValid : IsValid with_ls
with_ls-IsValid = (history_add_refines ls 2 true empty-IsValid (omega arith)).valid

history_event_lem_example : text_of (history_event with_ls 1) ≡ event_in (log_of with_ls) 1
history_event_lem_example = history_event_lem with_ls-IsValid 1

from_newest_lem_example : text_of (from_newest with_ls 0) ≡ newest_in (log_of with_ls) 0
from_newest_lem_example = from_newest_lem with_ls-IsValid 0

search_reverse-Newest_example :
    Newest (log_of with_ls) (b's' ∷ []) 0 (search_reverse with_ls (b's' ∷ []) 0)
search_reverse-Newest_example =
    search_reverse-Newest (b's' ∷ []) 0 with_ls-IsValid (omega arith) (omega arith)

find_prefix-Latest_example :
    Latest (log_of with_ls) (b'l' ∷ []) 9 (find_prefix with_ls (b'l' ∷ []) 9)
unfolding history_add initialize
find_prefix-Latest_example =
    find_prefix-Latest (b'l' ∷ []) 9 with_ls-IsValid (omega arith) (omega arith)
