-- ===== src/Json/Decoded.antt =====
-- src/llm_json.c: the escapes that are written, read.
use gsh.Prelude.{
  ℕ, suc, ◌+◌, ◌*◌, ◌/◌, ◌%◌, ◌<◌, Bool, true, false, ◌||◌, ◌&&◌, List, [], ◌∷◌, ◌++◌, ltb, leb,
  ◌==◌, ==_iff, all_below, all_below_lem, Option, none, some, length, ◌≡◌, refl, ap, ◌∙◌, arith,
}
use gsh.Json.{hexadecimal}
use gsh.Json.Strings.{
  hexadecimal_value, hex_digits, decode_hex_quad, utf8, write_utf8, decode_unicode_escape,
  plain_escape, decode_escape, read_byte, read_string,
}
use gsh.Json.Written.{is_escaped}

abbrev is_value : ℕ → Option ℕ → Bool
is_value d none = false
is_value d (some v) = v == d

is_value_lem : (d : ℕ) (o : Option ℕ) → is_value d o ≡ true → o ≡ some d
is_value_lem d none h = absurd (cc)
is_value_lem d (some v) h = ap some ((==_iff v d).0 h)

all_digits : all_below 16 (λ d. is_value d (hexadecimal_value (hexadecimal d))) ≡ true
unfolding hexadecimal_value
all_digits = refl

hexadecimal_value_digit : (d : ℕ) → d < 16 → hexadecimal_value (hexadecimal d) ≡ some d
hexadecimal_value_digit d h =
    is_value_lem d (hexadecimal_value (hexadecimal d))
      (all_below_lem 16 (λ d. is_value d (hexadecimal_value (hexadecimal d))) d all_digits h)

hex_digits_next :
    (left value d : ℕ) (json : List ℕ)
    → d < 16
    → hex_digits (suc left) value (hexadecimal d ∷ json) ≡ hex_digits left (value * 16 + d) json
unfolding hex_digits
hex_digits_next left value d json h = rw (hex_digits, hexadecimal_value_digit d h) refl

hex_digits_done : (value : ℕ) (json : List ℕ) → hex_digits 0 value json ≡ some (value, json)
unfolding hex_digits
hex_digits_done value json = refl

decode_hex_quad_byte :
    (byte : ℕ) (json : List ℕ)
    → byte < 32
    → decode_hex_quad
        (b'0' ∷ (b'0' ∷ (hexadecimal (byte / 16 % 16) ∷ (hexadecimal (byte % 16) ∷ json))))
      ≡ some (byte, json)
unfolding decode_hex_quad
decode_hex_quad_byte byte json h =
    let fits : ltb (suc (suc (suc (suc (length json))))) 4 ≡ false = ground arith in
    let value : ((0 * 16 + 0) * 16 + 0) * 16 + byte / 16 % 16 ≡ byte / 16 = omega arith in
    let whole : (((0 * 16 + 0) * 16 + 0) * 16 + byte / 16 % 16) * 16 + byte % 16 ≡ byte =
      omega arith in
    let digits =
      hex_digits_next 3 0 0
        (b'0' ∷ (hexadecimal (byte / 16 % 16) ∷ (hexadecimal (byte % 16) ∷ json))) (omega arith)
      ∙ hex_digits_next 2 (0 * 16 + 0) 0
          (hexadecimal (byte / 16 % 16) ∷ (hexadecimal (byte % 16) ∷ json)) (omega arith)
      ∙ hex_digits_next 1 ((0 * 16 + 0) * 16 + 0) (byte / 16 % 16) (hexadecimal (byte % 16) ∷ json)
          (omega arith)
      ∙ hex_digits_next 0 (((0 * 16 + 0) * 16 + 0) * 16 + byte / 16 % 16) (byte % 16) json
          (omega arith)
      ∙ hex_digits_done ((((0 * 16 + 0) * 16 + 0) * 16 + byte / 16 % 16) * 16 + byte % 16) json
      ∙ ap (λ (v : ℕ). some (v, json)) whole in
    rw fits digits

write_utf8_byte :
    (capacity byte : ℕ) (output : List ℕ)
    → byte < 32
    → length output + 1 < capacity
    → write_utf8 capacity byte output ≡ some (output ++ (byte ∷ []))
unfolding write_utf8 utf8
write_utf8_byte capacity byte output h room =
    let low : leb byte 0x7f ≡ true = ground (arith, h) in
    let inside : (ltb 0x10ffff byte || leb 0xd800 byte && leb byte 0xdfff) ≡ false =
      ground (arith, h) in
    let fits : leb capacity (length output + 1) ≡ false = ground (arith, room) in
    rw (inside, low, fits) refl

pub decode_control :
    (capacity byte : ℕ) (json output : List ℕ)
    → byte < 32
    → length output + 1 < capacity
    → decode_escape capacity
        (b'u' ∷ (b'0' ∷ (b'0' ∷ (hexadecimal (byte / 16 % 16) ∷ (hexadecimal (byte % 16) ∷ json)))))
        output
      ≡ some (output ++ (byte ∷ []), json)
unfolding decode_escape decode_unicode_escape
decode_control capacity byte json output h room =
    let single : (leb 0xd800 byte && leb byte 0xdbff) ≡ false = ground (arith, h) in
    rw (decode_hex_quad_byte byte json h, single, write_utf8_byte capacity byte output h room) refl

pub decode_plain :
    (capacity letter byte : ℕ) (json output : List ℕ)
    → (letter == b'u') ≡ false
    → plain_escape letter ≡ some byte
    → length output + 1 < capacity
    → decode_escape capacity (letter ∷ json) output ≡ some (output ++ (byte ∷ []), json)
unfolding decode_escape
decode_plain capacity letter byte json output other plain room =
    let fits : leb capacity (length output + 1) ≡ false = ground (arith, room) in
    rw (other, fits, plain) refl

-- One round of the reader at an escape, and at any other byte.
pub read_escaped :
    (fuel capacity : ℕ) (json output : List ℕ) (after : List ℕ × List ℕ)
    → decode_escape capacity json output ≡ some after
    → read_string (suc fuel) capacity (some (output, b'\\' ∷ json))
      ≡ read_string fuel capacity (some after)
unfolding read_string read_byte
read_escaped fuel capacity json output after decoded = ap (read_string fuel capacity) decoded

pub read_plain :
    (fuel capacity byte : ℕ) (json output : List ℕ)
    → is_escaped byte ≡ false
    → length output + 1 < capacity
    → read_string (suc fuel) capacity (some (output, byte ∷ json))
      ≡ read_string fuel capacity (some (output ++ (byte ∷ []), json))
unfolding read_string read_byte
read_plain fuel capacity byte json output plain room =
    let fits : leb capacity (length output + 1) ≡ false = ground (arith, room) in
    let quote : (byte == b'"') ≡ false = ground (arith, plain) in
    let slash : (byte == b'\\') ≡ false = ground (arith, plain) in
    let low : ltb byte 0x20 ≡ false = ground (arith, plain) in rw (quote, slash, low, fits) refl
