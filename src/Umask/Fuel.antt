-- ===== src/Umask/Fuel.antt =====
-- src/builtin_umask.c: the loop over the operations of a clause ends.
use gsh.Prelude.{
  ℕ, zero, suc, ◌+◌, ◌≤◌, Bool, true, false, Bool-cases, List, [], ◌∷◌, if◌then◌else◌, length,
  get_or, drop, ◌≡◌, refl, inl, inr, arith,
}
use gsh.Prelude.Bits.{bit_or}
use gsh.Umask.{
  Clause, is_permission, permission_of, read_permissions, copies_class, permissions_at,
  is_operation, run_operations, is_who, who_of, read_who, all_or, read_clause,
}

read_permissions_bound :
    (initial permissions : ℕ) (cursor : List ℕ)
    → length (read_permissions initial permissions cursor).1 ≤ length cursor
unfolding read_permissions
read_permissions_bound initial permissions [] = omega arith
read_permissions_bound initial permissions (byte ∷ bytes) = elim (Bool-cases (is_permission byte)) [
  | inl p ↦
      let rest =
        read_permissions_bound initial (bit_or permissions (permission_of initial byte)) bytes in
      rw p (omega (arith, rest))
  | inr p ↦ rw p (omega arith)
]

length-drop_one : (cursor : List ℕ) → length (drop 1 cursor) ≤ length cursor
length-drop_one [] = omega arith
length-drop_one (byte ∷ bytes) = omega arith

permissions_at_bound :
    (initial mask : ℕ) (cursor : List ℕ)
    → length (permissions_at initial mask cursor).1 ≤ length cursor
unfolding permissions_at
permissions_at_bound initial mask cursor = elim (Bool-cases (copies_class cursor)) [
  | inl p ↦ rw p (length-drop_one cursor)
  | inr p ↦ rw p (read_permissions_bound initial 0 cursor)
]

if-Stops :
    (x y : Clause) (test : Bool)
    → (test ≡ true → is_operation (get_or x.cursor 0 0) ≡ false)
    → (test ≡ false → is_operation (get_or y.cursor 0 0) ≡ false)
    → is_operation (get_or (if test then x else y).cursor 0 0) ≡ false
if-Stops x y true p q = p refl
if-Stops x y false p q = q refl

run_operations_stops :
    (fuel initial who : ℕ) (c : Clause)
    → length c.cursor ≤ fuel
    → is_operation (get_or (run_operations fuel initial who c).cursor 0 0) ≡ false
unfolding run_operations
run_operations_stops zero initial who c h = at_end c.cursor h
  where
    at_end : (cursor : List ℕ) → length cursor ≤ 0 → is_operation (get_or cursor 0 0) ≡ false
    at_end [] h = refl
    at_end (byte ∷ bytes) h = absurd (omega arith)
run_operations_stops (suc fuel) initial who c h =
    if-Stops _ c (is_operation (get_or c.cursor 0 0))
      (λ operation. run_operations_stops fuel initial who _ (
        omega (
          arith,
          permissions_at_bound initial c.mask (drop 1 c.cursor),
          shorter c.cursor operation,
          h,
        )))
      (λ other. other)
  where
    shorter :
        (cursor : List ℕ)
        → is_operation (get_or cursor 0 0) ≡ true
        → length (drop 1 cursor) + 1 ≤ length cursor
    shorter [] operation = absurd (cc)
    shorter (byte ∷ bytes) operation = omega arith

read_who_bound : (who : ℕ) (cursor : List ℕ) → length (read_who who cursor).1 ≤ length cursor
unfolding read_who
read_who_bound who [] = omega arith
read_who_bound who (byte ∷ bytes) = elim (Bool-cases (is_who byte)) [
  | inl p ↦ let rest = read_who_bound (bit_or who (who_of byte)) bytes in rw p (omega (arith, rest))
  | inr p ↦ rw p (omega arith)
]

-- The loop over the operations of a clause stops for its own condition, not for want of the fuel,
-- one round for each byte: whatever the clause, no operation stands where it stopped.
pub read_clause_stops :
    (initial mask : ℕ) (cursor : List ℕ)
    → is_operation (get_or (read_clause initial mask cursor).cursor 0 0) ≡ false
unfolding read_clause
read_clause_stops initial mask cursor =
    run_operations_stops (length cursor) initial (all_or (read_who 0 cursor).0)
      (record { mask = mask; action = false; cursor = (read_who 0 cursor).1 })
      (read_who_bound 0 cursor)
