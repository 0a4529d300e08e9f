-- ===== src/Umask.antt =====
-- src/builtin_umask.c: the operands of `umask` and what it prints. A `mode_t` has 32 bits; a text is
-- the list of its bytes before the terminator. `umask(2)` keeps the nine permission bits of what it
-- is given and returns what was in force.
pub mod Command
pub mod Octal
pub mod Fuel
pub mod Symbolic
pub mod Clauses
pub mod Kept
pub mod Replay
mod Tests
use gsh.Prelude.{
  ℕ, zero, suc, ◌+◌, ◌-◌, ◌*◌, ◌/◌, ◌%◌, ◌^◌, Bool, true, false, not, ◌&&◌, ◌||◌, List, [], ◌∷◌,
  ◌++◌, Option, none, some, ltb, leb, ◌==◌, if◌then◌else◌, length, get_or, drop, replicate,
  bytes_eq, ascii,
}
use gsh.Prelude.Bits.{bit_and, bit_or, complement}

abbrev pub text_cap : ℕ
text_cap = 64

-- `if ((who & bit) != 0) bits |= value`
abbrev pub add_for : ℕ → ℕ → ℕ → ℕ → ℕ
add_for who bit value bits = if not (bit_and who bit == 0) then bit_or bits value else bits

-- 0700, 0070 and 0007
unfoldable pub who_bits : ℕ → ℕ
who_bits who = add_for who 4 7 (add_for who 2 56 (add_for who 1 448 0))

unfoldable pub permission_bits : ℕ → ℕ → ℕ
permission_bits who permissions =
    add_for who 4 permissions
      (add_for who 2 (permissions * 2 ^ 3) (add_for who 1 (permissions * 2 ^ 6) 0))

-- The loop over the digits, from the value so far; the guard on it is 0777.
unfoldable pub octal_in : ℕ → List ℕ → Option ℕ
octal_in value [] = some value
octal_in value (byte ∷ bytes) =
    let rest = octal_in ((value * 8 + (byte - b'0')) % 2 ^ 32) bytes in
    if ltb byte b'0' || ltb b'7' byte || ltb 511 value then none else rest

abbrev pub within_modes : Option ℕ → Option ℕ
within_modes none = none
within_modes (some value) = if ltb 4095 value then none else some value

unfoldable pub parse_octal : List ℕ → Option ℕ
unfolding octal_in
parse_octal text = if length text == 0 then none else within_modes (octal_in 0 text)

abbrev pub is_who : ℕ → Bool
is_who byte = byte == b'u' || byte == b'g' || byte == b'o' || byte == b'a'

abbrev pub who_of : ℕ → ℕ
who_of byte = if byte == b'u' then 1 else if byte == b'g' then 2 else if byte == b'o' then 4 else 7

-- The loop over the classes: those that were read, and the cursor.
unfoldable pub read_who : ℕ → List ℕ → ℕ × List ℕ
read_who who [] = (who, [])
read_who who (byte ∷ bytes) =
    let rest = read_who (bit_or who (who_of byte)) bytes in
    if is_who byte then rest else (who, byte ∷ bytes)

abbrev pub is_operation : ℕ → Bool
is_operation byte = byte == b'+' || byte == b'-' || byte == b'='

-- The permissions are those of a class.
abbrev pub copies_class : List ℕ → Bool
copies_class cursor =
    let byte = get_or cursor 0 0 in
    let next = get_or cursor 1 0 in
    (byte == b'u' || byte == b'g' || byte == b'o')
    && (next == 0 || next == b',' || next == b'+' || next == b'-' || next == b'=')

abbrev pub class_shift : ℕ → ℕ
class_shift byte = if byte == b'u' then 6 else if byte == b'g' then 3 else 0

abbrev pub is_permission : ℕ → Bool
is_permission byte =
    byte == b'r' || byte == b'w' || byte == b'x' || byte == b'X' || byte == b's' || byte == b't'

-- the mask of the execute bits is 0111
abbrev pub permission_of : ℕ → ℕ → ℕ
permission_of initial byte =
    if byte == b'r'
    then 4
    else if byte == b'w'
    then 2
    else if byte == b'x' || byte == b'X' && not (bit_and (complement 32 initial) 73 == 0)
    then 1
    else 0

unfoldable pub read_permissions : ℕ → ℕ → List ℕ → ℕ × List ℕ
read_permissions initial permissions [] = (permissions, [])
read_permissions initial permissions (byte ∷ bytes) =
    let rest = read_permissions initial (bit_or permissions (permission_of initial byte)) bytes in
    if is_permission byte then rest else (permissions, byte ∷ bytes)

-- What stands behind an operation: the permissions, and the cursor.
unfoldable pub permissions_at : ℕ → ℕ → List ℕ → ℕ × List ℕ
unfolding read_permissions
permissions_at initial mask cursor =
    if copies_class cursor
    then (bit_and (complement 32 mask / 2 ^ class_shift (get_or cursor 0 0)) 7, drop 1 cursor)
    else read_permissions initial 0 cursor

unfoldable pub apply_operation : ℕ → ℕ → ℕ → ℕ → ℕ
unfolding who_bits permission_bits
apply_operation operation mask who permissions =
    let bits = permission_bits who permissions in
    let allowed = who_bits who in
    if operation == b'+'
    then bit_and mask (complement 32 bits)
    else if operation == b'-'
    then bit_or mask bits
    else bit_or (bit_and mask (complement 32 allowed)) (bit_and allowed (complement 32 bits))

-- The mask, whether an operation was read, and the cursor.
pub record Clause : Type 0 where
  pub mask : ℕ
  pub action : Bool
  pub cursor : List ℕ

-- The loop over the operations of a clause, with fuel for each byte.
unfoldable pub run_operations : ℕ → ℕ → ℕ → Clause → Clause
unfolding permissions_at apply_operation
run_operations zero initial who c = c
run_operations (suc fuel) initial who c =
    let operation = get_or c.cursor 0 0 in
    let read = permissions_at initial c.mask (drop 1 c.cursor) in
    let rest = run_operations fuel initial who (record {
      mask = apply_operation operation c.mask who read.0;
      action = true;
      cursor = read.1;
    }) in
    if is_operation operation then rest else c

abbrev pub all_or : ℕ → ℕ
all_or who = if who == 0 then 7 else who

unfoldable pub read_clause : ℕ → ℕ → List ℕ → Clause
unfolding read_who run_operations
read_clause initial mask cursor =
    let read = read_who 0 cursor in
    run_operations (length cursor) initial (all_or read.0)
      (record { mask = mask; action = false; cursor = read.1 })

-- The loop over the clauses, with the rounds that are left.
unfoldable pub run_clauses : ℕ → ℕ → ℕ → List ℕ → Option ℕ
unfolding read_clause
run_clauses zero initial mask cursor = none
run_clauses (suc rounds) initial mask cursor =
    let c = read_clause initial mask cursor in
    let later = run_clauses rounds initial c.mask (drop 1 c.cursor) in
    if not c.action
    then none
    else if length c.cursor == 0
    then some c.mask
    else if not (get_or c.cursor 0 0 == b',') || length c.cursor == 1
    then none
    else later

unfoldable pub parse_symbolic : List ℕ → ℕ → Option ℕ
unfolding run_clauses
parse_symbolic text initial =
    if length text == 0 then none else run_clauses text_cap initial initial text
