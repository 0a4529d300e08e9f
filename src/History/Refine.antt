-- ===== src/History/Refine.antt =====
-- `gsh_history_add` on the ring and `log_add` on the abstract history are one operation.
use gsh.Prelude.{
  einval, eoverflow, ℕ, suc, ◌+◌, ◌-◌, ◌%◌, ◌^◌, ◌≤◌, ◌<◌, Bool, true, false, ◌&&◌, ◌||◌, List, [],
  ◌∷◌, ◌++◌, ltb, leb, ◌==◌, if◌then◌else◌, length, take, tabulate, length-tabulate, length-take,
  Bool-cases, ◌≡◌, refl, ltb→lt, sym, ap, ◌∙◌, inl, inr, arith, u64_max, add_size,
}
use gsh.History.{
  HistoryStore, history_cap, entry_cap, physical_index, store_at, history_add, Added, added,
  unchanged, failed,
}
use gsh.History.Log.{Log, last_is, keep, log_add}
use gsh.History.Ring.{IsValid, command_at, log_of, physical_index_lem}
use gsh.History.Add.{
  store_at-IsValid, commands_room, commands_full, repeated_lem, guard_lem, keep_room, keep_full,
}

-- A step of the ring agrees with one of the abstract history.
pub record Agrees (r : HistoryStore × Added) (g : Log × Added) : Type 0 where
  pub valid : IsValid r.0
  pub commands_eq : (log_of r.0).commands ≡ g.0.commands
  pub next_eq : r.0.next_event ≡ g.0.next
  pub result_eq : r.1 ≡ g.1

if-Agrees :
    (b : Bool) (r r' : HistoryStore × Added) (g g' : Log × Added)
    → (b ≡ true → Agrees r g)
    → (b ≡ false → Agrees r' g')
    → Agrees (if b then r else r') (if b then g else g')
if-Agrees true r r' g g' p q = p refl
if-Agrees false r r' g g' p q = q refl

-- The last branch: the command goes into the ring.
module _ {s : HistoryStore} (v : IsValid s) (command : List ℕ) (n : ℕ) (small : n < entry_cap)
    (held : n ≤ length command) (fresh : s.next_event + 1 < 2 ^ 64) where
  abbrev appended : Log
  appended = record {
    commands = keep (tabulate (command_at s) s.count ++ (take n command ∷ []));
    next = s.next_event + 1;
  }

  into_room :
      s.count < history_cap
      → Agrees
          (
            store_at (record s { count = add_size s.count 1 }) (physical_index s s.count) command n,
            added,
          )
          (appended, added)
  into_room room =
      let counted : add_size s.count 1 ≡ suc s.count = omega arith in
      let place = physical_index_lem s s.count v.start_lt (omega arith) in
      rw (counted, place)
        (record {
          valid =
              store_at-IsValid v command n small held s.start (suc s.count) _ (omega arith)
                v.start_lt room (omega (arith, v.count-lt-next)) fresh;
          commands_eq =
              commands_room v command n small held room
              ∙ sym (keep_room _ _ (omega (arith, length-tabulate (command_at s) s.count)));
          next_eq = omega arith;
          result_eq = refl;
        })

  into_full :
      (m : ℕ)
      → s.count ≡ suc m
      → suc m ≡ history_cap
      → Agrees
          (
            store_at (record s { start = add_size s.start 1 % history_cap }) s.start command n,
            added,
          )
          (appended, added)
  into_full m e full =
      let moved : add_size s.start 1 % history_cap ≡ (s.start + 1) % history_cap =
        omega (arith, v.start_lt) in
      rw moved (record {
        valid =
            store_at-IsValid v command n small held ((s.start + 1) % history_cap) s.count s.start
              v.start_lt (omega arith) v.count_le (omega (arith, v.count-lt-next)) fresh;
        commands_eq =
            ap (tabulate _) e
            ∙ commands_full v command n small held m full
            ∙ sym (
                ap (λ k. keep (tabulate (command_at s) k ++ (take n command ∷ []))) e
                ∙ keep_full (command_at s 0) (tabulate (λ i. command_at s (suc i)) m)
                    (take n command)
                    (omega (arith, length-tabulate (λ i. command_at s (suc i)) m)));
        next_eq = omega arith;
        result_eq = refl;
      })

  stored :
      Agrees
        (if ltb s.count history_cap
          then (
            store_at (record s { count = add_size s.count 1 }) (physical_index s s.count) command n,
            added,
          )
          else (
            store_at (record s { start = add_size s.start 1 % history_cap }) s.start command n,
            added,
          ))
        (appended, added)
  stored = elim (Bool-cases (ltb s.count history_cap)) [
    | inl room ↦ rw room (into_room (ltb→lt _ _ room))
    | inr full ↦
        rw full (into_full (s.count - 1) (ground (arith, v.count_le)) (ground (arith, v.count_le)))
  ]

stays : {s : HistoryStore} (r : Added) → IsValid s → Agrees (s, r) (log_of s, r)
stays r v = record { valid = v; commands_eq = refl; next_eq = refl; result_eq = refl }

-- On a valid store `gsh_history_add` keeps the invariant, returns what the abstract history returns,
-- and leaves the ring holding its commands and its next event: a command is refused when it is
-- empty or too long, passed over when it repeats the newest and that is asked for, refused with
-- EOVERFLOW when the events have run out, and else goes behind the newest, where a full ring loses
-- its oldest.
pub history_add_refines :
    {s : HistoryStore} (command : List ℕ) (n : ℕ) (deduplicate : Bool)
    → IsValid s
    → n ≤ length command
    → Agrees (history_add s command n deduplicate) (log_add (log_of s) (take n command) deduplicate)
unfolding history_add log_add
history_add_refines {s} command n deduplicate v h =
    let text = take n command in
    rw (guard_lem command n v h, repeated_lem command n deduplicate v h)
      (if-Agrees (length text == 0 || leb entry_cap (length text)) _ _ _ _
        (λ _. stays (failed einval) v)
        λ sized.
          if-Agrees (deduplicate && last_is (tabulate (command_at s) s.count) text) _ _ _ _
            (λ _. stays unchanged v)
            λ _.
              if-Agrees (s.next_event == u64_max) _ _ _ _ (λ _. stays (failed eoverflow) v)
                λ fresh.
                  let small : n < entry_cap = ground (arith, length-take n command) in
                  let room_left : s.next_event + 1 < 2 ^ 64 = ground (arith, v.next_lt) in
                  stored v command n small h room_left)
