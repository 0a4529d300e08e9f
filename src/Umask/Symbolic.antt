-- ===== src/Umask/Symbolic.antt =====
-- src/builtin_umask.c: the clauses that `umask -S` prints, read.
use gsh.Prelude.{
  all_below, all_below_lem, ℕ, suc, ◌+◌, ◌-◌, ◌*◌, ◌/◌, ◌%◌, ◌<◌, Bool, true, false, List, [], ◌∷◌,
  ◌++◌, Option, none, some, ◌==◌, ==_iff, if◌then◌else◌, length, ◌≡◌, refl, arith,
}
use gsh.Umask.{
  apply_operation, permissions_at, Clause, run_operations, read_clause, read_who, run_clauses,
}

-- What `=` does to the digit of each class.
pub set_user :
    all_below 8 (λ p. all_below 512 (λ i. apply_operation b'=' i 1 p == i % 64 + (7 - p) * 64))
    ≡ true
unfolding apply_operation
set_user = refl

pub set_group :
    all_below 8
      (λ p. all_below 512 (λ i. apply_operation b'=' i 2 p == i / 64 * 64 + (7 - p) * 8 + i % 8))
    ≡ true
unfolding apply_operation
set_group = refl

pub set_other :
    all_below 8 (λ p. all_below 512 (λ i. apply_operation b'=' i 4 p == i / 8 * 8 + (7 - p))) ≡ true
unfolding apply_operation
set_other = refl

-- A test of two numbers.
pub all_below_two :
    (m n : ℕ) (f g : ℕ → ℕ → ℕ) (p i : ℕ)
    → all_below m (λ p. all_below n (λ i. f i p == g i p)) ≡ true
    → p < m
    → i < n
    → f i p ≡ g i p
all_below_two m n f g p i all_ h k = (==_iff (f i p) (g i p)).0 (
    all_below_lem n (λ i. f i p == g i p) i
      (all_below_lem m (λ p. all_below n (λ i. f i p == g i p)) p all_ h) k)

-- The permissions that are let through, and their number.
abbrev pub permission_text : Bool → Bool → Bool → List ℕ
permission_text r w x =
    let execute = if x then b'x' ∷ [] else [] in
    let write = if w then b'w' ∷ execute else execute in if r then b'r' ∷ write else write

abbrev pub permission_value : Bool → Bool → Bool → ℕ
permission_value r w x = (if r then 4 else 0) + (if w then 2 else 0) + (if x then 1 else 0)

-- What follows a clause: nothing, or a comma and other clauses.
abbrev pub follow : Option (List ℕ) → List ℕ
follow none = []
follow (some rest) = b',' ∷ rest

permissions_at_text :
    (initial mask : ℕ) (r w x : Bool) (tail : Option (List ℕ))
    → permissions_at initial mask (permission_text r w x ++ follow tail)
      ≡ (permission_value r w x, follow tail)
unfolding permissions_at
permissions_at_text initial mask true true true none = refl
permissions_at_text initial mask true true true (some rest) = refl
permissions_at_text initial mask true true false none = refl
permissions_at_text initial mask true true false (some rest) = refl
permissions_at_text initial mask true false true none = refl
permissions_at_text initial mask true false true (some rest) = refl
permissions_at_text initial mask true false false none = refl
permissions_at_text initial mask true false false (some rest) = refl
permissions_at_text initial mask false true true none = refl
permissions_at_text initial mask false true true (some rest) = refl
permissions_at_text initial mask false true false none = refl
permissions_at_text initial mask false true false (some rest) = refl
permissions_at_text initial mask false false true none = refl
permissions_at_text initial mask false false true (some rest) = refl
permissions_at_text initial mask false false false none = refl
permissions_at_text initial mask false false false (some rest) = refl

-- One `=` with permissions, and nothing after it.
run_operations_text :
    (fuel initial who mask : ℕ) (r w x : Bool) (tail : Option (List ℕ))
    → run_operations (suc (suc fuel)) initial who (record {
      mask = mask;
      action = false;
      cursor = b'=' ∷ (permission_text r w x ++ follow tail);
    })
      ≡ (record {
        mask = apply_operation b'=' mask who (permission_value r w x);
        action = true;
        cursor = follow tail;
      })
unfolding run_operations
run_operations_text fuel initial who mask r w x none =
    rw (permissions_at_text initial mask r w x none) refl
run_operations_text fuel initial who mask r w x (some rest) =
    rw (permissions_at_text initial mask r w x (some rest)) refl

-- A clause of each class.
module _ (initial mask : ℕ) (r w x : Bool) (tail : Option (List ℕ)) where
  abbrev pub clause_of : ℕ → Clause
  clause_of who = record {
    mask = apply_operation b'=' mask who (permission_value r w x);
    action = true;
    cursor = follow tail;
  }

  pub read_user :
      read_clause initial mask (b'u' ∷ (b'=' ∷ (permission_text r w x ++ follow tail)))
      ≡ clause_of 1
  unfolding read_clause read_who
  read_user =
      run_operations_text (length (permission_text r w x ++ follow tail)) initial 1 mask r w x tail

  pub read_group :
      read_clause initial mask (b'g' ∷ (b'=' ∷ (permission_text r w x ++ follow tail)))
      ≡ clause_of 2
  unfolding read_clause read_who
  read_group =
      run_operations_text (length (permission_text r w x ++ follow tail)) initial 2 mask r w x tail

  pub read_other :
      read_clause initial mask (b'o' ∷ (b'=' ∷ (permission_text r w x ++ follow tail)))
      ≡ clause_of 4
  unfolding read_clause read_who
  read_other =
      run_operations_text (length (permission_text r w x ++ follow tail)) initial 4 mask r w x tail

-- The rounds of the loop over the clauses.
pub run_clauses_last :
    (rounds initial mask after : ℕ) (cursor : List ℕ)
    → read_clause initial mask cursor ≡ (record { mask = after; action = true; cursor = [] })
    → run_clauses (suc rounds) initial mask cursor ≡ some after
unfolding run_clauses
run_clauses_last rounds initial mask after cursor read = rw read refl

pub run_clauses_next :
    (rounds initial mask after byte : ℕ) (cursor rest : List ℕ)
    → read_clause initial mask cursor
      ≡ (record { mask = after; action = true; cursor = b',' ∷ (byte ∷ rest) })
    → run_clauses (suc rounds) initial mask cursor ≡ run_clauses rounds initial after (byte ∷ rest)
unfolding run_clauses
run_clauses_next rounds initial mask after byte cursor rest read =
    let goes_on : (suc (suc (length rest)) == 0) ≡ false = ground arith in
    let more : (suc (suc (length rest)) == 1) ≡ false = ground arith in
    rw (read, goes_on, more) refl
