-- ===== src/Json/Strings.antt =====
-- src/llm_json.c: the reader of a string. An index into the text is what is left of it from there.
use gsh.Prelude.{
  ℕ, zero, suc, ◌+◌, ◌-◌, ◌*◌, ◌/◌, ◌^◌, ◌&&◌, ◌||◌, not, List, [], ◌∷◌, ◌++◌, Option, none, some,
  ltb, leb, ◌==◌, if◌then◌else◌, length, get_or, drop,
}
use gsh.Prelude.Bits.{bit_and, bit_or}

unfoldable pub hexadecimal_value : ℕ → Option ℕ
hexadecimal_value byte =
    if leb b'0' byte && leb byte b'9'
    then some (byte - b'0')
    else if leb b'a' byte && leb byte b'f'
    then some (byte - b'a' + 10)
    else if leb b'A' byte && leb byte b'F'
    then some (byte - b'A' + 10)
    else none

-- The loop over the digits that are left: the value, and the text behind them.
unfoldable pub hex_digits : ℕ → ℕ → List ℕ → Option (ℕ × List ℕ)
unfolding hexadecimal_value
hex_digits zero value json = some (value, json)
hex_digits (suc left) value [] = none
hex_digits (suc left) value (byte ∷ json) = elim (hexadecimal_value byte) [
  | none ↦ none
  | some digit ↦ hex_digits left (value * 16 + digit) json
]

unfoldable pub decode_hex_quad : List ℕ → Option (ℕ × List ℕ)
unfolding hex_digits
decode_hex_quad json = if ltb (length json) 4 then none else hex_digits 4 0 json

abbrev pub tail_byte : ℕ → ℕ
tail_byte value = bit_or 0x80 (bit_and value 0x3f)

unfoldable pub utf8 : ℕ → List ℕ
utf8 value =
    if leb value 0x7f
    then value ∷ []
    else if leb value 0x7ff
    then bit_or 0xc0 (value / 2 ^ 6) ∷ (tail_byte value ∷ [])
    else if leb value 0xffff
    then bit_or 0xe0 (value / 2 ^ 12) ∷ (tail_byte (value / 2 ^ 6) ∷ (tail_byte value ∷ []))
    else bit_or 0xf0 (value / 2 ^ 18)
      ∷ (tail_byte (value / 2 ^ 12) ∷ (tail_byte (value / 2 ^ 6) ∷ (tail_byte value ∷ [])))

unfoldable pub write_utf8 : ℕ → ℕ → List ℕ → Option (List ℕ)
unfolding utf8
write_utf8 capacity value output =
    if ltb 0x10ffff value || leb 0xd800 value && leb value 0xdfff
    then none
    else if leb capacity (length output + length (utf8 value))
    then none
    else some (output ++ utf8 value)

-- The output so far with what was decoded, and the text that is left.
abbrev pub with_rest : Option (List ℕ) → List ℕ → Option (List ℕ × List ℕ)
with_rest none json = none
with_rest (some output) json = some (output, json)

-- the second half of a surrogate pair
abbrev pub join_low : ℕ → ℕ → Option (ℕ × List ℕ) → List ℕ → Option (List ℕ × List ℕ)
join_low capacity high none output = none
join_low capacity high (some (low, json)) output =
    if ltb low 0xdc00 || ltb 0xdfff low
    then none
    else with_rest
        (write_utf8 capacity (0x10000 + (high - 0xd800) * 2 ^ 10 + (low - 0xdc00)) output) json

abbrev pub join_quad : ℕ → Option (ℕ × List ℕ) → List ℕ → Option (List ℕ × List ℕ)
join_quad capacity none output = none
join_quad capacity (some (value, json)) output =
    if leb 0xd800 value && leb value 0xdbff
    then (if ltb (length json) 6 || not (get_or json 0 0 == b'\\') || not (get_or json 1 0 == b'u')
        then none
        else join_low capacity value (decode_hex_quad (drop 2 json)) output)
    else with_rest (write_utf8 capacity value output) json

unfoldable pub decode_unicode_escape : ℕ → List ℕ → List ℕ → Option (List ℕ × List ℕ)
unfolding decode_hex_quad write_utf8
decode_unicode_escape capacity json output = join_quad capacity (decode_hex_quad json) output

unfoldable pub plain_escape : ℕ → Option ℕ
plain_escape byte =
    if byte == b'n'
    then some 10
    else if byte == b'r'
    then some 13
    else if byte == b't'
    then some 9
    else if byte == b'b'
    then some 8
    else if byte == b'f'
    then some 12
    else if byte == b'"' || byte == b'\\' || byte == b'/'
    then some byte
    else none

abbrev pub append_plain : Option ℕ → List ℕ → List ℕ → Option (List ℕ × List ℕ)
append_plain none json output = none
append_plain (some byte) json output = some (output ++ (byte ∷ []), json)

unfoldable pub decode_escape : ℕ → List ℕ → List ℕ → Option (List ℕ × List ℕ)
unfolding decode_unicode_escape plain_escape
decode_escape capacity [] output = none
decode_escape capacity (byte ∷ json) output =
    if byte == b'u'
    then decode_unicode_escape capacity json output
    else if leb capacity (length output + 1)
    then none
    else append_plain (plain_escape byte) json output

-- One round of the loop of `gsh_json_get_string`, behind its test.
unfoldable pub read_byte : ℕ → ℕ → List ℕ → List ℕ → Option (List ℕ × List ℕ)
unfolding decode_escape
read_byte capacity byte json output =
    if byte == b'\\'
    then decode_escape capacity json output
    else if ltb byte 0x20 || leb capacity (length output + 1)
    then none
    else some (output ++ (byte ∷ []), json)

-- The loop, with fuel for each byte; what it is given is what the round before it left.
unfoldable pub read_string : ℕ → ℕ → Option (List ℕ × List ℕ) → Option (List ℕ)
unfolding read_byte
read_string fuel capacity none = none
read_string fuel capacity (some (output, [])) = none
read_string zero capacity (some (output, byte ∷ json)) = none
read_string (suc fuel) capacity (some (output, byte ∷ json)) =
    let rest = read_string fuel capacity (read_byte capacity byte json output) in
    if byte == b'"' then some output else rest

-- What `gsh_json_get_string` does at the value.
unfoldable pub read_value : ℕ → List ℕ → Option (List ℕ)
unfolding read_string
read_value capacity [] = none
read_value capacity (byte ∷ json) =
    if byte == b'"' then read_string (length json) capacity (some ([], json)) else none
