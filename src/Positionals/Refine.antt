-- ===== src/Positionals/Refine.antt =====
-- A positional store stands for the list of its parameters: assigning, shifting, reading and
-- validating against that list.
use gsh.Prelude.{
  ℕ, ◌+◌, ◌%◌, ◌^◌, ◌≤◌, true, false, List, none, some, ltb, leb, if◌then◌else◌, length, replicate,
  length-replicate, Bool-cases, ◌≡◌, refl, sym, ◌∙◌, arith, inl, inr, e2big,
}
use gsh.Positionals.Assign.{AreTexts, total, sizes_of, IsAllocated, fill-Filled, measure_lem}
use gsh.Positionals.{
  PositionalStore, positional_cap, positional_text_cap, Outcome, done, failed,
  positionals_initialize, measure, fill, positionals_assign, positionals_view, positionals_validate,
}
use gsh.Positionals.Holds.{Holds, AllPlaced-at, view-Holds, validate-Holds, initialize-Holds}

-- What fits the store, in number and in bytes.
pub record Fits (vs : List (List ℕ)) : Type 0 where
  pub number : length vs ≤ positional_cap
  pub bytes : total vs ≤ positional_text_cap

-- What an operation of the store answers.
pub record Becomes (r : PositionalStore × Outcome) (vs : List (List ℕ)) : Type 0 where
  pub holds : Holds r.0 vs
  pub accepted : r.1 ≡ done

-- Assigning strings that fit makes any allocated store stand for exactly these strings.
pub assign-Becomes :
    {s : PositionalStore} (vs : List (List ℕ))
    → IsAllocated s
    → AreTexts vs
    → Fits vs
    → Becomes (positionals_assign s vs) vs
unfolding positionals_assign positionals_initialize
assign-Becomes {s} vs a t f =
    let few : ltb positional_cap (length vs) ≡ false = ground (arith, f.number) in
    let sizes : measure 0 vs ≡ some (sizes_of vs) =
      measure_lem vs 0 (omega arith) t ∙ ground (arith, f.bytes) in
    let fresh = initialize-Holds a in
    let none_used : (positionals_initialize s).text_used + total vs ≤ positional_text_cap =
      omega (arith, f.bytes) in
    let filled =
      fill-Filled vs (positionals_initialize s) 0 fresh.allocated (omega (arith, f.number))
        none_used in
    let end = fill (positionals_initialize s) 0 vs (sizes_of vs) in
    let count : length vs % 2 ^ 32 ≡ length vs = omega (arith, f.number) in
    rw few (
      rw sizes (record {
        holds = record {
          allocated = record { slots = filled.allocated.slots; room = filled.allocated.room };
          versioned = filled.same_version;
          counted = count;
          window = omega (arith, filled.same_start, f.number);
          used = omega (arith, filled.used, f.bytes);
          placed =
              AllPlaced-at vs end 0 end.start end.start (length vs % 2 ^ 32) (sym filled.same_start)
                filled.placed;
          texts = t;
        };
        accepted = refl;
      }))

-- Strings that do not fit, in number or in bytes, are refused with `E2BIG` and change nothing.
pub assign_refused :
    (s : PositionalStore) (vs : List (List ℕ))
    → AreTexts vs
    → ¬ (Fits vs)
    → positionals_assign s vs ≡ (s, failed e2big)
unfolding positionals_assign
assign_refused s vs t big = elim (Bool-cases (ltb positional_cap (length vs))) [
  | inl many ↦ rw many
  | inr few ↦
      let none_ : measure 0 vs ≡ none = measure_lem vs 0 (omega arith) t ∙ too_long few in
      rw few (rw none_)
]
  where
    too_long :
        ltb positional_cap (length vs) ≡ false
        → (if leb (0 + total vs) positional_text_cap then some (sizes_of vs) else none) ≡ none
    too_long few = elim (Bool-cases (leb (0 + total vs) positional_text_cap)) [
      | inl fits ↦ absurd (big (record { number = ground arith; bytes = ground arith }))
      | inr no_ ↦ rw no_
    ]

-- Reading back what was assigned gives the same strings, however the store was before, and the
-- store passes its validation.
pub view-assign :
    {s : PositionalStore} (vs : List (List ℕ))
    → IsAllocated s
    → AreTexts vs
    → Fits vs
    → (positionals_view (positionals_assign s vs).0 ≡ vs)
      × (positionals_validate (positionals_assign s vs).0 ≡ true)
      × ((positionals_assign s vs).1 ≡ done)
view-assign vs a t f =
    let b = assign-Becomes vs a t f in (view-Holds b.holds, validate-Holds b.holds, b.accepted)

-- Memory for a store, of `slots` offsets and `room` bytes.
pub zero_store : ℕ → ℕ → PositionalStore
zero_store slots room = record {
  version = 0;
  count = 0;
  start = 0;
  text_used = 0;
  offsets = replicate slots 0;
  text = replicate room 0;
}

pub zero_store-IsAllocated :
    (slots room : ℕ)
    → slots ≡ positional_cap
    → room ≡ positional_text_cap
    → IsAllocated (zero_store slots room)
unfolding zero_store
zero_store-IsAllocated slots room h k = record {
  slots = length-replicate slots 0 ∙ h;
  room = length-replicate room 0 ∙ k;
}
