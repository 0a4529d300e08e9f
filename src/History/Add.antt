-- ===== src/History/Add.antt =====
-- `gsh_history_add` keeps the invariant of the ring, and does to the commands that it holds what
-- `log_add` does to the abstract history.
use gsh.Prelude.{
  ℕ, zero, suc, ◌+◌, ◌-◌, ◌%◌, ◌^◌, ◌≤◌, ◌<◌, Bool, true, false, ◌&&◌, ◌||◌, not, List, [], ◌∷◌,
  ◌++◌, ltb, leb, ◌==◌, length, get_or, set, take, bytes_eq, bytes_eq_iff, tabulate, tabulate_ext,
  tabulate-suc, length-set, get_or-set_self, get_or-set_ne, length-take, length-append, Bool-cases,
  ◌≡◌, ◌≢◌, refl, sym, ap, ap₂, ◌∙◌, inl, inr, arith,
}
use gsh.History.{
  HistoryStore, history_cap, entry_cap, physical_index, write_entry, is_latest, store_at,
}
use gsh.History.Log.{last_is, keep}
use gsh.History.Ring.{
  IsValid, text_in, command_at, length-write_entry, text_in-written, text_in-other,
}

-- A command of `n` bytes is written to `slot` of a valid store.
module _ {s : HistoryStore} (v : IsValid s) (command : List ℕ) (n : ℕ) (small : n < entry_cap)
    (held : n ≤ length command) where
  written-fits :
      (slot i : ℕ)
      → slot < history_cap
      → i < history_cap
      → (get_or (set s.lengths slot (n % 2 ^ 16)) i 0 < entry_cap)
        × (length
              (get_or (set s.entries slot (write_entry (get_or s.entries slot []) command n)) i [])
            ≡ entry_cap)
  written-fits slot i h k = elim (Bool-cases (slot == i)) [
    | inl same ↦
        let e : slot ≡ i = ground arith in
        rw (← e) (
          rw
            (
              get_or-set_self s.lengths slot (n % 2 ^ 16) 0 (omega (arith, v.sizes)),
              get_or-set_self s.entries slot (write_entry (get_or s.entries slot []) command n) []
                  (omega (arith, v.slots)),
            )
            (
              omega arith,
              length-write_entry (get_or s.entries slot []) command n held
                    (omega (arith, (v.fits slot h).1))
                  ∙ (v.fits slot h).1,
            ))
    | inr other ↦
        let ne : slot ≢ i = ground arith in
        rw
          (
            get_or-set_ne s.lengths (n % 2 ^ 16) 0 ne,
            get_or-set_ne s.entries (write_entry (get_or s.entries slot []) command n) [] ne,
          )
          (v.fits i k)
  ]

  -- The store with `start` and `count` that fit is valid again.
  pub store_at-IsValid :
      (start count slot : ℕ)
      → slot < history_cap
      → start < history_cap
      → count ≤ history_cap
      → count < s.next_event + 1
      → s.next_event + 1 < 2 ^ 64
      → IsValid (store_at (record s { start = start; count = count }) slot command n)
  store_at-IsValid start count slot h a b c d = record {
    slots = length-set s.entries slot _ ∙ v.slots;
    sizes = length-set s.lengths slot _ ∙ v.sizes;
    start_lt = a;
    count_le = b;
    count-lt-next = omega arith;
    next_lt = omega arith;
    fits = λ i k. written-fits slot i h k;
  }

  -- The text of the slot that was written, and of the others.
  command_at-written :
      (start count slot i : ℕ)
      → slot < history_cap
      → slot ≡ (start + i) % history_cap
      → command_at (store_at (record s { start = start; count = count }) slot command n) i
        ≡ take n command
  command_at-written start count slot i h e = rw (← e) (
      text_in-written s.lengths s.entries slot command n (omega (arith, v.sizes))
        (omega (arith, v.slots)) small held)

  command_at-other :
      (start count slot i : ℕ)
      → slot ≢ (start + i) % history_cap
      → command_at (store_at (record s { start = start; count = count }) slot command n) i
        ≡ text_in s.lengths s.entries ((start + i) % history_cap)
  command_at-other start count slot i ne =
      text_in-other s.lengths s.entries slot command n ((start + i) % history_cap) ne

  -- With room, the command goes behind the newest.
  pub commands_room :
      s.count < history_cap
      → tabulate
          (command_at (
            store_at
              (record s { start = s.start; count = suc s.count })
              ((s.start + s.count) % history_cap)
              command
              n))
          (suc s.count)
        ≡ tabulate (command_at s) s.count ++ (take n command ∷ [])
  commands_room room =
      tabulate-suc _ s.count
      ∙ ap₂ (λ xs x. xs ++ (x ∷ []))
          (tabulate_ext _ (command_at s) s.count (λ i k.
            command_at-other s.start (suc s.count) ((s.start + s.count) % history_cap) i
              (omega (arith, v.start_lt))))
          (command_at-written s.start (suc s.count) ((s.start + s.count) % history_cap) s.count
            (omega arith) refl)

  -- A full ring loses its oldest command.
  pub commands_full :
      (m : ℕ)
      → suc m ≡ history_cap
      → tabulate
          (command_at (
            store_at
              (record s { start = (s.start + 1) % history_cap; count = s.count })
              s.start
              command
              n))
          (suc m)
        ≡ tabulate (λ i. command_at s (suc i)) m ++ (take n command ∷ [])
  commands_full m e =
      tabulate-suc _ m
      ∙ ap₂ (λ xs x. xs ++ (x ∷ []))
          (tabulate_ext _ (λ i. command_at s (suc i)) m
            (λ i k.
              command_at-other ((s.start + 1) % history_cap) s.count s.start i
                (omega (arith, v.start_lt))
              ∙ ap (text_in s.lengths s.entries) (omega (arith, v.start_lt))))
          (command_at-written ((s.start + 1) % history_cap) s.count s.start m v.start_lt
            (omega (arith, v.start_lt)))

last_is-append : (xs : List (List ℕ)) (c d : List ℕ) → last_is (xs ++ (c ∷ [])) d ≡ bytes_eq c d
unfolding last_is
last_is-append [] c d = refl
last_is-append (x ∷ []) c d = refl
last_is-append (x ∷ (y ∷ xs)) c d = last_is-append (y ∷ xs) c d

-- Comparing lengths and then bytes is comparing texts.
same_text :
    (entry command : List ℕ) (m n : ℕ)
    → m ≤ length entry
    → n ≤ length command
    → (m == n && bytes_eq (take n entry) (take n command))
      ≡ bytes_eq (take m entry) (take n command)
same_text entry command m n h k = elim (Bool-cases (m == n)) [
  | inl same ↦ let e : m ≡ n = ground arith in rw (same, e) refl
  | inr other ↦ elim (Bool-cases (bytes_eq (take m entry) (take n command))) [
    | inl eq ↦
        let texts = (bytes_eq_iff (take m entry) (take n command)).0 eq in
        let sizes : m ≡ n =
          omega (arith, ap length texts, length-take m entry, length-take n command) in
        absurd (ground arith)
    | inr ne ↦ rw (other, ne) refl
  ]
]

is_latest_lem :
    {s : HistoryStore} (command : List ℕ) (n m : ℕ)
    → IsValid s
    → n ≤ length command
    → s.count ≡ suc m
    → is_latest s command n ≡ last_is (tabulate (command_at s) s.count) (take n command)
unfolding is_latest
is_latest_lem {s} command n m v h e =
    let slot = (s.start + m) % history_cap in
    let place : physical_index s (s.count - 1) ≡ slot = omega (arith, v.start_lt, v.count_le) in
    rw place (
      same_text (get_or s.entries slot []) command (get_or s.lengths slot 0) n
        (omega (arith, v.fits slot (omega arith))) h
      ∙ sym (
          ap (λ k. last_is (tabulate (command_at s) k) (take n command)) e
          ∙ ap (λ xs. last_is xs (take n command)) (tabulate-suc (command_at s) m)
          ∙ last_is-append (tabulate (command_at s) m) (command_at s m) (take n command)))

-- The test for a repeated command, on the ring and on the abstract history.
pub repeated_lem :
    {s : HistoryStore} (command : List ℕ) (n : ℕ) (deduplicate : Bool)
    → IsValid s
    → n ≤ length command
    → (deduplicate && not (s.count == 0) && is_latest s command n)
      ≡ (deduplicate && last_is (tabulate (command_at s) s.count) (take n command))
repeated_lem {s} command n false v h = refl
repeated_lem {s} command n true v h = by_count s.count refl
  where
    by_count :
        (k : ℕ)
        → s.count ≡ k
        → (not (s.count == 0) && is_latest s command n)
          ≡ last_is (tabulate (command_at s) s.count) (take n command)
    by_count zero e = rw e (unfold last_is in refl)
    by_count (suc m) e =
        let some_ : not (s.count == 0) ≡ true = ground (arith, e) in
        rw some_ (is_latest_lem command n m v h e)

-- What the guards of `gsh_history_add` come to on a valid store.
pub guard_lem :
    {s : HistoryStore} (command : List ℕ) (n : ℕ)
    → IsValid s
    → n ≤ length command
    → (n == 0
        || leb entry_cap n
        || ltb history_cap s.count
        || s.next_event == 0
        || leb s.next_event s.count)
      ≡ (length (take n command) == 0 || leb entry_cap (length (take n command)))
guard_lem {s} command n v h = ground (arith, length-take n command, v.count_le, v.count-lt-next)

pub keep_room :
    (xs : List (List ℕ)) (c : List ℕ)
    → length xs < history_cap
    → keep (xs ++ (c ∷ [])) ≡ xs ++ (c ∷ [])
unfolding keep
keep_room xs c h = ground (arith, length-append xs (c ∷ []))

pub keep_full :
    (x : List ℕ) (xs : List (List ℕ)) (c : List ℕ)
    → suc (length xs) ≡ history_cap
    → keep ((x ∷ xs) ++ (c ∷ [])) ≡ xs ++ (c ∷ [])
unfolding keep
keep_full x xs c h = ground (arith, length-append xs (c ∷ []))
