-- ===== src/History/Search.antt =====
-- The searches of the history: they find the newest command that fits, and nothing only if there
-- is none.
use gsh.Prelude.{
  enoent, ℕ, zero, suc, ◌+◌, ◌-◌, ◌≤◌, ◌<◌, true, false, ◌&&◌, ◌||◌, List, [], ◌∷◌, ltb, leb, ◌==◌,
  length, take, drop, get_or, some, length-tabulate, Bool-cases, Option-cases, bytes_eq,
  bytes_eq_iff, length-take, drop_next, take-drop-take, ◌≡◌, refl, sym, ap, ◌∙◌, inl, inr, arith,
}
use gsh.History.{
  HistoryStore, history_cap, entry_cap, physical_index, from_newest, contains_from, contains,
  entry_contains, search_from, Found, found, missing, search_reverse, found_or,
}
use gsh.History.Log.{Log}
use gsh.History.Ring.{IsValid, command_at, log_of}
use gsh.History.Events.{text_of, newest_in, from_newest_lem}

-- `query` stands in `text` at `offset`.
abbrev pub OccursAt : List ℕ → List ℕ → ℕ → Type 0
OccursAt text query offset =
    (offset + length query ≤ length text) × (take (length query) (drop offset text) ≡ query)

-- The offsets from `start` on, `more` of them behind it.
contains_from_sound :
    (more : ℕ) (text query : List ℕ)
    → contains_from more text query ≡ true
    → (offset : ℕ) × (offset ≤ more) × (take (length query) (drop offset text) ≡ query)
unfolding contains_from
contains_from_sound zero text query h = (0, omega arith, (bytes_eq_iff _ query).0 h)
contains_from_sound (suc more) text query h =
    elim (Bool-cases (bytes_eq (take (length query) text) query)) [
      | inl here ↦ (0, omega arith, (bytes_eq_iff _ query).0 here)
      | inr other ↦
          let (offset, le, eq) = contains_from_sound more (drop 1 text) query (rw other at h) in
          (suc offset, omega arith, ap (take (length query)) (sym (drop_next offset text)) ∙ eq)
    ]

contains_from_complete :
    (more : ℕ) (text query : List ℕ) (offset : ℕ)
    → offset ≤ more
    → take (length query) (drop offset text) ≡ query
    → contains_from more text query ≡ true
unfolding contains_from
contains_from_complete zero text query zero h e = (bytes_eq_iff _ query).1 e
contains_from_complete zero text query (suc offset) h e = absurd (omega arith)
contains_from_complete (suc more) text query zero h e = rw ((bytes_eq_iff _ query).1 e)
contains_from_complete (suc more) text query (suc offset) h e =
    let rest =
      contains_from_complete more (drop 1 text) query offset (omega arith)
        (ap (take (length query)) (drop_next offset text) ∙ e) in
    rw rest (ground arith)

contains_cases :
    (text : List ℕ) (n : ℕ) (query : List ℕ)
    → 0 < length query
    → contains text n query ≡ (leb (length query) n && contains_from (n - length query) text query)
unfolding contains
contains_cases text n query h = ground arith

-- `contains` over a text of `n` bytes decides whether the query stands in it.
contains_sound :
    (text : List ℕ) (n : ℕ) (query : List ℕ)
    → n ≤ length text
    → contains text n query ≡ true
    → (offset : ℕ) × OccursAt (take n text) query offset
unfolding contains
contains_sound text n [] h e = (0, (omega arith, refl))
contains_sound text n (q ∷ qs) h e =
    let both = sym (contains_cases text n (q ∷ qs) (omega arith)) ∙ e in
    let fits : length (q ∷ qs) ≤ n = ground (arith, both) in
    let (offset, le, eq) =
      contains_from_sound (n - length (q ∷ qs)) text (q ∷ qs) (ground (arith, both)) in
    (
      offset,
      (
        omega (arith, length-take n text),
        take-drop-take offset n (length (q ∷ qs)) text (omega arith) ∙ eq,
      ),
    )

contains_complete :
    (text : List ℕ) (n : ℕ) (query : List ℕ) (offset : ℕ)
    → n ≤ length text
    → OccursAt (take n text) query offset
    → contains text n query ≡ true
unfolding contains
contains_complete text n [] offset h o = refl
contains_complete text n (q ∷ qs) offset h o =
    let inside : offset + length (q ∷ qs) ≤ n = omega (arith, o.0, length-take n text) in
    let found_ =
      contains_from_complete (n - length (q ∷ qs)) text (q ∷ qs) offset (omega arith)
        (sym (take-drop-take offset n (length (q ∷ qs)) text inside) ∙ o.1) in
    contains_cases text n (q ∷ qs) (omega arith) ∙ rw found_ (ground arith)

-- The command at a position from the newest holds the query.
abbrev pub HoldsAt : Log → List ℕ → ℕ → Type 0
HoldsAt g query position =
    (command : List ℕ) × (newest_in g position ≡ some command)
    × ((offset : ℕ) × OccursAt command query offset)

HoldsAt-lt :
    (g : Log) (query : List ℕ) (position : ℕ)
    → HoldsAt g query position
    → position < length g.commands
HoldsAt-lt g query position h = ground (arith, h.1)

-- The answer of a search that starts at the position `before`.
abbrev pub Newest : Log → List ℕ → ℕ → Found → Type 0
Newest g query before (found position) =
    (before ≤ position)
    × HoldsAt g query position
    × ((other : ℕ) → before ≤ other → other < position → ¬ (HoldsAt g query other))
Newest g query before (missing e) =
    (e ≡ enoent) × ((other : ℕ) → before ≤ other → ¬ (HoldsAt g query other))

physical_index-lt : (s : HistoryStore) (i : ℕ) → physical_index s i < history_cap
unfolding physical_index
physical_index-lt s i = omega arith

from_newest-fits :
    {s : HistoryStore} (position : ℕ) {entry : List ℕ} {size : ℕ}
    → IsValid s
    → from_newest s position ≡ some (entry, size)
    → size ≤ length entry
unfolding from_newest
from_newest-fits {s} position v e =
    let slot = physical_index s (s.count - position - 1) in
    let inside : slot < history_cap = physical_index-lt s _ in
    let (low, high) = v.fits slot inside in
    let fits : get_or s.lengths slot 0 ≤ length (get_or s.entries slot []) = omega arith in
    ground (arith, fits)

-- The test of the loop decides whether the command at the position holds the query.
module _ {s : HistoryStore} (v : IsValid s) (query : List ℕ) where
  entry_contains_sound :
      (position : ℕ)
      → entry_contains (from_newest s position) query ≡ true
      → HoldsAt (log_of s) query position
  entry_contains_sound position h = elim (Option-cases (from_newest s position)) [
    | inl e ↦ absurd (cc (rw e at h))
    | inr ((entry, size), e) ↦ (
      take size entry,
      sym (from_newest_lem v position) ∙ ap text_of e,
      contains_sound entry size query (from_newest-fits position v e) (rw e at h),
    )
  ]

  entry_contains_complete :
      (position : ℕ)
      → HoldsAt (log_of s) query position
      → entry_contains (from_newest s position) query ≡ true
  entry_contains_complete position (command, is_command, (offset, occurs)) =
      elim (Option-cases (from_newest s position)) [
        | inl e ↦
            let nothing = sym (ap text_of e) ∙ from_newest_lem v position ∙ is_command in
            absurd (cc nothing)
        | inr ((entry, size), e) ↦
            let same : some (take size entry) ≡ some command =
              sym (ap text_of e) ∙ from_newest_lem v position ∙ is_command in
            let same_ : take size entry ≡ command = cc same in
            rw e (
              contains_complete entry size query offset (from_newest-fits position v e)
                (rw same_ occurs))
      ]

  -- The loop from `candidate` on, when no position from `before` up to it holds the query.
  search_from_lem :
      (rounds before candidate : ℕ)
      → candidate + rounds ≡ s.count
      → before ≤ candidate
      → ((other : ℕ) → before ≤ other → other < candidate → ¬ (HoldsAt (log_of s) query other))
      → Newest (log_of s) query before (found_or (search_from rounds s query candidate))
  unfolding search_from
  search_from_lem zero before candidate e le none_ = (
    refl,
    λ other h holds.
        let inside = HoldsAt-lt (log_of s) query other holds in
        none_ other h (omega (arith, length-tabulate (command_at s) s.count)) holds,
  )
  search_from_lem (suc rounds) before candidate e le none_ =
      elim (Bool-cases (entry_contains (from_newest s candidate) query)) [
        | inl here ↦ rw here (le, entry_contains_sound candidate here, none_)
        | inr other_ ↦ rw other_ (
            search_from_lem rounds before (candidate + 1) (omega arith) (omega arith)
              (λ other h k holds. elim (Bool-cases (other == candidate)) [
                | inl same ↦
                    let at : other ≡ candidate = ground arith in
                    absurd (cc (entry_contains_complete candidate (rw at at holds), other_))
                | inr ne ↦ none_ other h (ground arith) holds
              ]))
      ]

-- For a query and a start in range `gsh_history_search_reverse` finds the newest command, from the
-- position `before` on, that the query stands in, and returns `ENOENT` only if there is none.
pub search_reverse-Newest :
    {s : HistoryStore} (query : List ℕ) (before : ℕ)
    → IsValid s
    → length query < entry_cap
    → before ≤ s.count
    → Newest (log_of s) query before (search_reverse s query before)
unfolding search_reverse
search_reverse-Newest {s} query before v small start =
    let open_ : (leb entry_cap (length query) || ltb s.count before || ltb history_cap s.count)
        ≡ false =
      ground (arith, v.count_le) in
    rw open_ (
      search_from_lem v query (s.count - before) before before (omega arith) (omega arith)
        (λ other h k _. absurd (omega arith)))
