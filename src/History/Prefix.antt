-- ===== src/History/Prefix.antt =====
-- src/history_store.c: the search for a command by its beginning, as `!` and `fc` use it.
use gsh.Prelude.{
  ℕ, zero, suc, ◌+◌, ◌-◌, ◌≤◌, ◌<◌, ◌||◌, true, false, Bool-cases, List, ltb, leb, ◌==◌,
  if◌then◌else◌, length, take, some, Option-cases, bytes_eq, bytes_eq_iff, length-take,
  take-drop-take, length-tabulate, ◌≡◌, refl, sym, ap, ◌∙◌, inl, inr, arith, enoent,
}
use gsh.History.{
  HistoryStore, Found, found, missing, found_or, entry_cap, history_event, oldest_event,
  entry_begins, find_from, find_prefix,
}
use gsh.History.Log.{Log}
use gsh.History.Ring.{IsValid, log_of, command_at}
use gsh.History.Events.{text_of, event_in, history_event_lem}

-- The command of an event that is kept begins with the prefix.
abbrev pub BeginsAt : Log → List ℕ → ℕ → Type 0
BeginsAt g prefix event =
    (command : List ℕ) × (event_in g event ≡ some command) × (take (length prefix) command ≡ prefix)

-- The answer of a search back from the event `before`.
abbrev pub Latest : Log → List ℕ → ℕ → Found → Type 0
Latest g prefix before (found event) =
    (event ≤ before)
    × BeginsAt g prefix event
    × ((other : ℕ) → event < other → other ≤ before → ¬ (BeginsAt g prefix other))
Latest g prefix before (missing e) =
    (e ≡ enoent) × ((other : ℕ) → other ≤ before → ¬ (BeginsAt g prefix other))

begins_sound :
    (entry : List ℕ) (size : ℕ) (prefix : List ℕ)
    → entry_begins (some (entry, size)) prefix ≡ true
    → take (length prefix) (take size entry) ≡ prefix
begins_sound entry size prefix h =
    let fits : length prefix ≤ size = ground (arith, h) in
    let same : bytes_eq (take (length prefix) entry) prefix ≡ true = ground (arith, h) in
    take-drop-take 0 size (length prefix) entry (omega (arith, fits)) ∙ (bytes_eq_iff _ _).0 same

begins_complete :
    (entry : List ℕ) (size : ℕ) (prefix : List ℕ)
    → take (length prefix) (take size entry) ≡ prefix
    → entry_begins (some (entry, size)) prefix ≡ true
begins_complete entry size prefix h =
    let fits : length prefix ≤ size =
      omega (
        arith,
        ap length h,
        length-take (length prefix) (take size entry),
        length-take size entry,
      ) in
    let same : bytes_eq (take (length prefix) entry) prefix ≡ true =
      (bytes_eq_iff _ _).1
        (sym (take-drop-take 0 size (length prefix) entry (omega (arith, fits))) ∙ h) in
    rw same (ground arith)

-- The test of the loop decides whether the command of the event begins with the prefix.
module _ {s : HistoryStore} (v : IsValid s) (prefix : List ℕ) where
  event_begins_sound :
      (event : ℕ)
      → entry_begins (history_event s event) prefix ≡ true
      → BeginsAt (log_of s) prefix event
  event_begins_sound event h = elim (Option-cases (history_event s event)) [
    | inl e ↦ absurd (cc (rw e at h))
    | inr ((entry, size), e) ↦ (
      take size entry,
      sym (history_event_lem v event) ∙ ap text_of e,
      begins_sound entry size prefix (rw e at h),
    )
  ]

  event_begins_complete :
      (event : ℕ)
      → BeginsAt (log_of s) prefix event
      → entry_begins (history_event s event) prefix ≡ true
  event_begins_complete event (command, is_command, begins) =
      elim (Option-cases (history_event s event)) [
        | inl e ↦
            let nothing = sym (ap text_of e) ∙ history_event_lem v event ∙ is_command in
            absurd (cc nothing)
        | inr ((entry, size), e) ↦
            let same : some (take size entry) ≡ some command =
              sym (ap text_of e) ∙ history_event_lem v event ∙ is_command in
            let same_ : take size entry ≡ command = cc same in
            rw e (begins_complete entry size prefix (rw same_ begins))
      ]

  BeginsAt-kept :
      (event : ℕ)
      → BeginsAt (log_of s) prefix event
      → (s.next_event - s.count ≤ event) × (event < s.next_event)
  BeginsAt-kept event b = ground (arith, b.1, length-tabulate (command_at s) s.count)

  -- The loop from `candidate` down, when no event above it and up to `before` begins so.
  find_from_lem :
      (rounds before candidate : ℕ)
      → 1 ≤ s.next_event - s.count
      → candidate < s.next_event - s.count + rounds
      → candidate ≤ before
      → ((other : ℕ) → candidate < other → other ≤ before → ¬ (BeginsAt (log_of s) prefix other))
      → Latest
          (log_of s)
          prefix
          before
          (found_or (find_from rounds s prefix (s.next_event - s.count) candidate))
  unfolding find_from
  find_from_lem zero before candidate pos lt le none_ = (
    refl,
    λ other h b. elim (Bool-cases (ltb candidate other)) [
      | inl above ↦ none_ other (ground arith) h b
      | inr below ↦ let kept = BeginsAt-kept other b in absurd (ground (arith, kept))
    ],
  )
  find_from_lem (suc rounds) before candidate pos lt le none_ =
      elim (Bool-cases (ltb candidate (s.next_event - s.count))) [
        | inl out ↦ rw out (
          refl,
          λ other h b. elim (Bool-cases (ltb candidate other)) [
            | inl above ↦ none_ other (ground arith) h b
            | inr below ↦ let kept = BeginsAt-kept other b in absurd (ground (arith, kept))
          ],
        )
        | inr kept ↦ elim (Bool-cases (entry_begins (history_event s candidate) prefix)) [
          | inl here ↦ rw (kept, here) (le, event_begins_sound candidate here, none_)
          | inr other_ ↦
              rw (kept, other_)
                (find_from_lem rounds before (candidate - 1) pos (ground arith) (ground arith)
                  (λ other h k b. elim (Bool-cases (other == candidate)) [
                    | inl same ↦
                        let at : other ≡ candidate = ground arith in
                        absurd (cc (event_begins_complete candidate (rw at at b), other_))
                    | inr ne ↦ none_ other (ground arith) k b
                  ]))
        ]
      ]

-- In a history that is not empty, with a prefix shorter than an entry, `gsh_history_find_prefix` finds
-- the latest event, up to `before_event`, whose command begins with the prefix, and returns `ENOENT`
-- only if there is none.
pub find_prefix-Latest :
    {s : HistoryStore} (prefix : List ℕ) (before_event : ℕ)
    → IsValid s
    → length prefix < entry_cap
    → 0 < s.count
    → Latest (log_of s) prefix before_event (find_prefix s prefix before_event)
unfolding find_prefix oldest_event
find_prefix-Latest {s} prefix before_event v small filled =
    let first : (if s.count == 0 || leb s.next_event s.count then 0 else s.next_event - s.count)
        ≡ s.next_event - s.count =
      ground (arith, v.count-lt-next) in
    let open_ : (leb entry_cap (length prefix) || s.next_event - s.count == 0) ≡ false =
      ground (arith, v.count-lt-next) in
    rw (first, open_)
      (elim (Bool-cases (leb s.next_event before_event)) [
        | inl beyond ↦ rw beyond (
            find_from_lem v prefix s.count before_event (s.next_event - 1)
              (omega (arith, v.count-lt-next)) (omega (arith, v.count-lt-next)) (ground arith)
              (λ other h k b.
                let kept = BeginsAt-kept v prefix other b in absurd (omega (arith, kept))))
        | inr within ↦ rw within (
            find_from_lem v prefix s.count before_event before_event
              (omega (arith, v.count-lt-next)) (ground (arith, v.count-lt-next)) (omega arith)
              (λ other h k _. absurd (omega arith)))
      ])
