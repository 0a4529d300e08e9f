-- ===== src/Umask/Command.antt =====
-- src/builtin_umask.c: what `umask` prints, and its arguments.
use gsh.Prelude.{
  ℕ, zero, suc, ◌+◌, ◌-◌, ◌*◌, ◌/◌, ◌%◌, Bool, true, false, List, [], ◌∷◌, ◌++◌, Option, none, some,
  ltb, leb, ◌==◌, if◌then◌else◌, length, get_or, replicate, bytes_eq, ascii,
}
use gsh.Prelude.Bits.{bit_and}
use gsh.Umask.{parse_octal, parse_symbolic}

-- `r`, `w` and `x` where the mask lets them through
unfoldable pub group_text : ℕ → List (ℕ × ℕ) → List ℕ
group_text mask [] = []
group_text mask ((bit, name) ∷ bits) =
    if bit_and mask bit == 0 then name ∷ group_text mask bits else group_text mask bits

abbrev pub group_bits : ℕ → List (ℕ × ℕ)
group_bits scale = (4 * scale, b'r') ∷ ((2 * scale, b'w') ∷ ((scale, b'x') ∷ []))

unfoldable pub symbolic_text : ℕ → List ℕ
unfolding group_text
symbolic_text mask =
    ascii "u="
    ++ group_text mask (group_bits 64)
    ++ (ascii ",g="
        ++ group_text mask (group_bits 8)
        ++ (ascii ",o=" ++ group_text mask (group_bits 1)))

-- `%o` of a number of 32 bits, whose digits are at most eleven
unfoldable pub octal_digits : ℕ → ℕ → List ℕ → List ℕ
octal_digits zero n digits = digits
octal_digits (suc fuel) n digits =
    let digit = n % 8 + b'0' in
    let more = octal_digits fuel (n / 8) (digit ∷ digits) in
    if ltb n 8 then digit ∷ digits else more

-- `%04o`
unfoldable pub octal_text : ℕ → List ℕ
unfolding octal_digits
octal_text mask =
    let digits = octal_digits 11 mask [] in replicate (4 - length digits) b'0' ++ digits

abbrev pub mask_text : Bool → ℕ → List ℕ
mask_text symbolic mask = if symbolic then symbolic_text mask else octal_text mask

-- What the builtin returns: 0, the bytes that it prints, or the status of an error with a message.
pub data UmaskResult : Type 0 where
  finished invalid_option too_many_operands invalid_mask cannot_format : UmaskResult
  printed : List ℕ → UmaskResult

unfoldable pub report_mask : ℕ → Bool → UmaskResult
unfolding symbolic_text octal_text
report_mask mask symbolic =
    let output = mask_text symbolic mask ++ ascii "\n" in
    if leb 64 (length output) then cannot_format else printed output

-- The mask in force after `umask(mask)`.
abbrev pub set_umask : ℕ → ℕ
set_umask mask = mask % 512

-- The loop over the options: whether `-S` was one, and the operands.
unfoldable pub scan_options : Bool → List (List ℕ) → Option (Bool × List (List ℕ))
scan_options symbolic [] = some (symbolic, [])
scan_options symbolic (word ∷ words) =
    let rest = scan_options true words in
    if bytes_eq word (ascii "--")
    then some (symbolic, words)
    else if bytes_eq word (ascii "-S")
    then rest
    else if get_or word 0 0 == b'-'
    then none
    else some (symbolic, word ∷ words)

unfoldable pub parse_mask : List ℕ → ℕ → Option ℕ
parse_mask operand current = elim (parse_octal operand) [
  | some changed ↦ some changed
  | none ↦ parse_symbolic operand current
]

abbrev pub change_mask : ℕ → Option ℕ → ℕ × UmaskResult
change_mask current none = (current, invalid_mask)
change_mask current (some changed) = (set_umask changed, finished)

unfoldable pub run_operands : Bool → List (List ℕ) → ℕ → ℕ × UmaskResult
unfolding report_mask parse_mask
run_operands symbolic [] mask = (set_umask mask, report_mask mask symbolic)
run_operands symbolic (operand ∷ []) mask = change_mask (set_umask mask) (parse_mask operand mask)
run_operands symbolic (_ ∷ (_ ∷ _)) mask = (mask, too_many_operands)

abbrev pub run_scanned : ℕ → Option (Bool × List (List ℕ)) → ℕ × UmaskResult
run_scanned mask none = (mask, invalid_option)
run_scanned mask (some (symbolic, operands)) = run_operands symbolic operands mask

-- The mask in force and the arguments behind the name: the new mask, and what is returned.
unfoldable pub builtin_umask : List (List ℕ) → ℕ → ℕ × UmaskResult
unfolding scan_options run_operands
builtin_umask words mask = run_scanned mask (scan_options false words)
