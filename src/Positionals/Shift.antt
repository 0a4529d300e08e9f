-- ===== src/Positionals/Shift.antt =====
-- src/builtin_shift.c: the operand of `shift`, and the shift of the store.
use gsh.Prelude.{
  ℕ, zero, suc, ◌+◌, ◌*◌, ◌/◌, size_mod, ◌-◌, ◌%◌, ◌^◌, ◌≤◌, ◌<◌, Bool, true, false, ◌&&◌, not,
  List, [], ◌∷◌, Option, none, some, ltb, leb, ◌==◌, if◌then◌else◌, length, drop, length-drop,
  Bool-cases, ◌≡◌, refl, lt→ltb, arith, inl, inr, einval,
}
use gsh.Positionals.{
  PositionalStore, Outcome, done, failed, positionals_shift, parse_amount, Shifted, shifted,
  invalid_count, exceeds_parameters, shift_by, builtin_shift, reported,
}
use gsh.Positionals.Refine.{Becomes}
use gsh.Positionals.Holds.{Holds, AllPlaced-drop, AllPlaced-at, AreTexts-drop, initialize-Holds}

drop-all {ℓ} : {A : Type ℓ} (n : ℕ) (xs : List A) → length xs ≤ n → drop n xs ≡ []
drop-all zero [] h = refl
drop-all zero (x ∷ xs) h = absurd (omega arith)
drop-all (suc n) [] h = refl
drop-all (suc n) (x ∷ xs) h = drop-all n xs (omega arith)

-- Shifting by at most the number of parameters drops that many from the front.
pub shift-Becomes :
    {s : PositionalStore} {vs : List (List ℕ)} (n : ℕ)
    → Holds s vs
    → n ≤ s.count
    → Becomes (positionals_shift s n) (drop n vs)
unfolding positionals_shift
shift-Becomes {s} {vs} n h le = elim (Bool-cases (n == s.count)) [
  | inl all ↦
      let gone : drop n vs ≡ [] = drop-all n vs (ground (arith, h.counted)) in
      let fits : ltb s.count n ≡ false = ground arith in
      rw fits (rw all (rw gone (record { holds = initialize-Holds h.allocated; accepted = refl })))
  | inr some_ ↦
      let fits : ltb s.count n ≡ false = ground arith in
      let moved : (s.start + n % 2 ^ 32) % 2 ^ 32 ≡ s.start + n = omega (arith, h.window) in
      let left : (s.count + 2 ^ 32 - n % 2 ^ 32) % 2 ^ 32 ≡ s.count - n = omega (arith, h.window) in
      rw fits (
        rw some_ (
          rw (moved, left)
            (record {
              holds = record {
                allocated = record { slots = h.allocated.slots; room = h.allocated.room };
                versioned = h.versioned;
                counted = omega (arith, h.counted, length-drop n vs);
                window = omega (arith, h.window);
                used = h.used;
                placed =
                    AllPlaced-at (drop n vs) s (s.start + n) (s.start + n) (s.start + n)
                      (s.count - n) refl (AllPlaced-drop n vs s s.start h.placed);
                texts = AreTexts-drop n vs h.texts;
              };
              accepted = refl;
            })))
]

-- The decimal value of digits behind `amount`.
abbrev pub decimal : ℕ → List ℕ → ℕ
decimal amount [] = amount
decimal amount (c ∷ cs) = decimal (amount * 10 + (c - b'0')) cs

abbrev pub all_digits : List ℕ → Bool
all_digits [] = true
all_digits (c ∷ cs) = leb b'0' c && leb c b'9' && all_digits cs

decimal-le : (amount : ℕ) (cs : List ℕ) → amount ≤ decimal amount cs
decimal-le amount [] = omega arith
decimal-le amount (c ∷ cs) = omega (arith, decimal-le (amount * 10 + (c - b'0')) cs)

-- The loop over the operand accepts exactly the digits whose decimal value a `size_t` holds, and
-- finds that value: its test before each step rules out every wrap-around and nothing else.
pub parse_amount_lem :
    (amount : ℕ) (cs : List ℕ)
    → amount < size_mod
    → parse_amount amount cs ≡ (
        if all_digits cs && ltb (decimal amount cs) size_mod
        then some (decimal amount cs)
        else none)
unfolding parse_amount
parse_amount_lem amount [] h = ground arith
parse_amount_lem amount (c ∷ cs) h = elim (Bool-cases (leb b'0' c && leb c b'9')) [
  | inr other ↦ ground arith
  | inl digit ↦ elim (Bool-cases (ltb ((size_mod - 1 - (c - b'0')) / 10) amount)) [
    | inl big ↦ let over = decimal-le (amount * 10 + (c - b'0')) cs in ground arith
    | inr fits ↦
        let next : (amount * 10 + (c - b'0')) % size_mod ≡ amount * 10 + (c - b'0') =
          ground arith in
        let ih = parse_amount_lem (amount * 10 + (c - b'0')) cs (ground arith) in
        rw next (rw ih (ground arith))
  ]
]

-- Shifting by more than the number of parameters is refused and changes nothing.
shift_refused :
    (s : PositionalStore) (n : ℕ) → s.count < n → positionals_shift s n ≡ (s, failed einval)
unfolding positionals_shift
shift_refused s n h = rw (lt→ltb s.count n h)

-- What the builtin leaves: the parameters, and what it returns.
pub record Leaves (r : PositionalStore × Shifted) (vs : List (List ℕ)) (result : Shifted)
    : Type 0 where
  pub holds : Holds r.0 vs
  pub returned : r.1 ≡ result

reported-Leaves :
    (r : PositionalStore × Outcome) (vs : List (List ℕ))
    → Becomes r vs
    → Leaves (reported r) vs shifted
reported-Leaves (s, done) vs b = record { holds = b.holds; returned = refl }
reported-Leaves (s, failed e) vs b = absurd (cc b.accepted)

-- What `shift` by `n` is to leave of the parameters `vs`.
abbrev pub shift_list : List (List ℕ) → ℕ → List (List ℕ) × Shifted
shift_list vs n = if leb n (length vs) then (drop n vs, shifted) else (vs, exceeds_parameters)

shift_by-Leaves :
    {s : PositionalStore} {vs : List (List ℕ)} (n : ℕ)
    → Holds s vs
    → Leaves (shift_by s (some n)) (shift_list vs n).0 (shift_list vs n).1
unfolding shift_by
shift_by-Leaves {s} {vs} n h = elim (Bool-cases (leb n (length vs))) [
  | inl few ↦ rw few (
      reported-Leaves (positionals_shift s n) (drop n vs)
        (shift-Becomes n h (ground (arith, h.counted))))
  | inr many ↦
      let refused = shift_refused s n (ground (arith, h.counted)) in
      rw many (rw refused (record { holds = h; returned = refl }))
]

-- The operand of `shift` by the specification: 1 when there is none, else a decimal number that a
-- `size_t` holds.
abbrev pub shift_count : List (List ℕ) → Option ℕ
shift_count [] = some 1
shift_count (operand ∷ []) =
    if not (length operand == 0) && all_digits operand && ltb (decimal 0 operand) size_mod
    then some (decimal 0 operand)
    else none
shift_count (_ ∷ (_ ∷ _)) = none

-- What the builtin is to leave and return for what its operands mean.
abbrev pub shift_spec : List (List ℕ) → Option ℕ → List (List ℕ) × Shifted
shift_spec vs none = (vs, invalid_count)
shift_spec vs (some n) = shift_list vs n

-- `shift` drops as many parameters as its operand says, one without an operand. It refuses more
-- operands than one, an operand that is empty, not decimal or too large for a `size_t`, and a
-- number above that of the parameters, and then keeps the parameters.
pub builtin_shift-Leaves :
    {s : PositionalStore} {vs : List (List ℕ)} (operands : List (List ℕ))
    → Holds s vs
    → let (left, result) = shift_spec vs (shift_count operands) in
      Leaves (builtin_shift operands s) left result
unfolding builtin_shift shift_by
builtin_shift-Leaves [] h = shift_by-Leaves 1 h
builtin_shift-Leaves {s} {vs} (operand ∷ []) h = elim (Bool-cases (length operand == 0)) [
  | inl empty ↦ rw empty (record { holds = h; returned = refl })
  | inr some_ ↦
      let parsed = parse_amount_lem 0 operand (omega arith) in
      rw some_ (
        rw parsed (elim (Bool-cases (all_digits operand && ltb (decimal 0 operand) size_mod)) [
          | inl good ↦ rw good (shift_by-Leaves (decimal 0 operand) h)
          | inr bad ↦ rw bad (record { holds = h; returned = refl })
        ]))
]
builtin_shift-Leaves (_ ∷ (_ ∷ _)) h = record { holds = h; returned = refl }
