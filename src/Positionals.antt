-- ===== src/Positionals.antt =====
-- src/positional_parameters.c and src/positional_parameters.h: the positional parameters, as C
-- strings behind one another in one buffer, with the offset of each. A string argument is the list
-- of its bytes before the terminator; the arguments do not lie in the store itself. Pointers are
-- not null.
pub mod Bytes
pub mod Assign
pub mod Holds
pub mod Refine
pub mod Shift
mod Tests
use gsh.Prelude.{
  ℕ, zero, suc, ◌+◌, ◌*◌, ◌/◌, size_mod, ◌-◌, ◌%◌, ◌^◌, Bool, true, false, ◌&&◌, ◌||◌, not, List,
  [], ◌∷◌, ◌++◌, Option, none, some, ltb, leb, ◌==◌, if◌then◌else◌, length, get_or, set, take, drop,
  tabulate, Errno, einval, e2big,
}
use mathlib.Core.Option

abbrev pub positional_cap : ℕ
positional_cap = 128

abbrev pub positional_text_cap : ℕ
positional_text_cap = 16384

abbrev pub positional_version : ℕ
positional_version = 1

pub record PositionalStore : Type 0 where
  pub version : ℕ
  pub count : ℕ
  pub start : ℕ
  pub text_used : ℕ
  pub offsets : List ℕ
  pub text : List ℕ

-- 0, or -1 with `errno`
pub data Outcome : Type 0 where
  done : Outcome
  failed : Errno → Outcome

unfoldable pub positionals_initialize : PositionalStore → PositionalStore
positionals_initialize s = record s {
  version = positional_version;
  count = 0;
  start = 0;
  text_used = 0;
}

-- `strnlen`: the bytes before the terminator, at most `n`.
unfoldable pub strnlen : List ℕ → ℕ → ℕ
strnlen [] n = 0
strnlen (c ∷ cs) zero = 0
strnlen (c ∷ cs) (suc n) = if c == 0 then 0 else suc (strnlen cs n)

-- The first loop of `gsh_positionals_assign`: the lengths, or `none` when the text does not fit.
unfoldable pub measure : ℕ → List (List ℕ) → Option (List ℕ)
measure used [] = some []
measure used (value ∷ values) =
    let remaining = positional_text_cap - used in
    let size = strnlen value remaining in
    let rest = measure (used + (size + 1)) values in
    if size == remaining then none else Option.map (λ sizes. size ∷ sizes) rest

-- `memcpy(text + at, bytes, size)`
unfoldable pub copy_into : List ℕ → ℕ → List ℕ → ℕ → List ℕ
copy_into text at bytes size = take at text ++ (take size bytes ++ drop (at + size) text)

-- one round of the second loop
unfoldable pub store_value : PositionalStore → ℕ → List ℕ → ℕ → PositionalStore
store_value s index value size = record s {
  offsets = set s.offsets index (s.text_used % 2 ^ 16);
  text = copy_into s.text s.text_used (value ++ (0 ∷ [])) (size + 1);
  text_used = (s.text_used + (size + 1)) % 2 ^ 32;
}

unfoldable pub fill : PositionalStore → ℕ → List (List ℕ) → List ℕ → PositionalStore
fill s index (value ∷ values) (size ∷ sizes) =
    fill (store_value s index value size) (suc index) values sizes
fill s index _ _ = s

-- the end of `gsh_positionals_assign`, on what the first loop found
unfoldable pub assign_measured :
    PositionalStore → List (List ℕ) → Option (List ℕ) → PositionalStore × Outcome
assign_measured s values none = (s, failed e2big)
assign_measured s values (some sizes) = (
  record (fill (positionals_initialize s) 0 values sizes) { count = length values % 2 ^ 32 },
  done,
)

unfoldable pub positionals_assign : PositionalStore → List (List ℕ) → PositionalStore × Outcome
unfolding assign_measured
positionals_assign s values =
    if ltb positional_cap (length values)
    then (s, failed e2big)
    else assign_measured s values (measure 0 values)

unfoldable pub positionals_shift : PositionalStore → ℕ → PositionalStore × Outcome
positionals_shift s amount =
    if ltb s.count amount
    then (s, failed einval)
    else if amount == s.count
    then (positionals_initialize s, done)
    else (
      record s {
        start = (s.start + amount % 2 ^ 32) % 2 ^ 32;
        count = (s.count + 2 ^ 32 - amount % 2 ^ 32) % 2 ^ 32;
      },
      done,
    )

-- the bytes that a reader of the C string sees
unfoldable pub c_string : List ℕ → List ℕ
c_string [] = []
c_string (c ∷ cs) = if c == 0 then [] else c ∷ c_string cs

abbrev pub string_at : PositionalStore → ℕ → List ℕ
string_at s index = c_string (drop (get_or s.offsets index 0) s.text)

unfoldable pub positionals_view : PositionalStore → List (List ℕ)
positionals_view s = tabulate (λ index. string_at s (s.start + index)) s.count

-- `memchr(bytes, '\0', n) != NULL`
unfoldable pub has_nul : List ℕ → ℕ → Bool
has_nul bytes zero = false
has_nul [] (suc n) = false
has_nul (c ∷ cs) (suc n) = c == 0 || has_nul cs n

-- the test of the loop of `gsh_positionals_validate` at one parameter
unfoldable pub offset_valid : PositionalStore → ℕ → Bool
unfolding has_nul
offset_valid s index =
    let offset = get_or s.offsets (s.start + index) 0 in
    ltb offset s.text_used && has_nul (drop offset s.text) (s.text_used - offset)

-- The loop, from `index` on, with the rounds that are left.
unfoldable pub offsets_valid : ℕ → PositionalStore → ℕ → Bool
offsets_valid zero s index = true
offsets_valid (suc rounds) s index = offset_valid s index && offsets_valid rounds s (suc index)

unfoldable pub positionals_validate : PositionalStore → Bool
positionals_validate s =
    s.version == positional_version
    && leb s.count positional_cap
    && leb s.start (positional_cap - s.count)
    && leb s.text_used positional_text_cap
    && offsets_valid s.count s 0

-- src/builtin_shift.c, the loop over the operand, from the amount read so far: `none` is the
-- message "invalid shift count".
unfoldable pub parse_amount : ℕ → List ℕ → Option ℕ
parse_amount amount [] = some amount
parse_amount amount (byte ∷ bytes) =
    let digit = byte - b'0' in
    let rest = parse_amount ((amount * 10 + digit) % size_mod) bytes in
    if ltb byte b'0' || ltb b'9' byte
    then none
    else if ltb ((size_mod - 1 - digit) / 10) amount
    then none
    else rest

-- what `gsh_builtin_shift` returns: 0, or the status of an error with one of its two messages
pub data Shifted : Type 0 where
  shifted invalid_count exceeds_parameters : Shifted

abbrev pub reported : PositionalStore × Outcome → PositionalStore × Shifted
reported (s, done) = (s, shifted)
reported (s, failed _) = (s, exceeds_parameters)

unfoldable pub shift_by : PositionalStore → Option ℕ → PositionalStore × Shifted
shift_by s none = (s, invalid_count)
shift_by s (some amount) = reported (positionals_shift s amount)

-- The operands of the builtin, behind its name.
unfoldable pub builtin_shift : List (List ℕ) → PositionalStore → PositionalStore × Shifted
unfolding shift_by
builtin_shift [] s = shift_by s (some 1)
builtin_shift (operand ∷ []) s =
    if length operand == 0 then (s, invalid_count) else shift_by s (parse_amount 0 operand)
builtin_shift (_ ∷ (_ ∷ _)) s = (s, invalid_count)
