-- ===== src/Json/Within.antt =====
-- src/llm_json.c: the reader of a string stays within the output and reads forward.
use gsh.Prelude.{
  ℕ, zero, suc, ◌+◌, ◌-◌, ◌*◌, ◌^◌, ◌≤◌, ◌<◌, Bool, true, false, ◌||◌, ◌&&◌, not, Bool-cases, List,
  [], ◌∷◌, ◌++◌, length-append, ltb, leb, ◌==◌, Option, none, some, Option-cases, if◌then◌else◌,
  length, get_or, drop, ◌≡◌, refl, sym, inl, inr, arith,
}
use mathlib.Core.Path.{subst}
use gsh.Json.Reader.{at_value, locate_value, get_string}
use gsh.Json.Strings.{
  hexadecimal_value, hex_digits, decode_hex_quad, utf8, write_utf8, with_rest, join_low, join_quad,
  decode_unicode_escape, plain_escape, append_plain, decode_escape, read_byte, read_string,
  read_value,
}

-- The output with its terminator fits, and the text behind is no longer than `size`.
abbrev pub Within : ℕ → ℕ → Option (List ℕ × List ℕ) → Type 0
Within capacity size none = Unit
Within capacity size (some (output, json)) = (length output < capacity) × (length json ≤ size)

if-Within :
    (capacity size : ℕ) (x y : Option (List ℕ × List ℕ)) (test : Bool)
    → (test ≡ true → Within capacity size x)
    → (test ≡ false → Within capacity size y)
    → Within capacity size (if test then x else y)
if-Within capacity size x y true p q = p refl
if-Within capacity size x y false p q = q refl

-- The text behind the digits.
abbrev Behind : ℕ → Option (ℕ × List ℕ) → Type 0
Behind size none = Unit
Behind size (some (value, json)) = length json ≤ size

hex_digits-Behind :
    (left value size : ℕ) (json : List ℕ)
    → length json ≤ size
    → Behind size (hex_digits left value json)
unfolding hex_digits
hex_digits-Behind zero value size json h = h
hex_digits-Behind (suc left) value size [] h = tt
hex_digits-Behind (suc left) value size (byte ∷ json) h =
    elim (Option-cases (hexadecimal_value byte)) [
      | inl missing ↦
          subst
            (λ o.
              Behind size (elim o [ none ↦ none | some d ↦ hex_digits left (value * 16 + d) json ]))
            (sym missing) tt
      | inr (d, found) ↦
          subst
            (λ o.
              Behind size (elim o [ none ↦ none | some d ↦ hex_digits left (value * 16 + d) json ]))
            (sym found) (hex_digits-Behind left (value * 16 + d) size json (omega (arith, h)))
    ]

decode_hex_quad-Behind :
    (size : ℕ) (json : List ℕ) → length json ≤ size → Behind size (decode_hex_quad json)
unfolding decode_hex_quad
decode_hex_quad-Behind size json h = elim (Bool-cases (ltb (length json) 4)) [
  | inl p ↦ rw (Behind, p) tt
  | inr p ↦
      subst (λ b. Behind size (if b then none else hex_digits 4 0 json)) (sym p)
        (hex_digits-Behind 4 0 size json h)
]

write_utf8-Within :
    (capacity value size : ℕ) (output json : List ℕ)
    → length json ≤ size
    → Within capacity size (with_rest (write_utf8 capacity value output) json)
unfolding write_utf8
write_utf8-Within capacity value size output json h =
    elim (Bool-cases (ltb 0x10ffff value || leb 0xd800 value && leb value 0xdfff)) [
      | inl p ↦
          subst (λ b. Within capacity size (with_rest (if b then none else rest) json)) (sym p) tt
      | inr p ↦
          subst (λ b. Within capacity size (with_rest (if b then none else rest) json)) (sym p)
            (fitting (leb capacity (length output + length (utf8 value))) refl)
    ]
  where
    rest : Option (List ℕ)
    rest =
        if leb capacity (length output + length (utf8 value))
        then none
        else some (output ++ utf8 value)

    fitting :
        (test : Bool)
        → leb capacity (length output + length (utf8 value)) ≡ test
        → Within capacity size (with_rest (if test then none else some (output ++ utf8 value)) json)
    fitting true p = tt
    fitting false p = (ground (arith, p, length-append output (utf8 value)), h)

join_low-Within :
    (capacity high size : ℕ) (low : Option (ℕ × List ℕ)) (output : List ℕ)
    → Behind size low
    → Within capacity size (join_low capacity high low output)
join_low-Within capacity high size none output b = tt
join_low-Within capacity high size (some (low, json)) output b =
    if-Within capacity size none _ (ltb low 0xdc00 || ltb 0xdfff low) (λ _. tt)
      (λ _.
        write_utf8-Within capacity (0x10000 + (high - 0xd800) * 2 ^ 10 + (low - 0xdc00)) size output
          json b)

length-drop_two : (json : List ℕ) → length (drop 2 json) ≤ length json
length-drop_two [] = omega arith
length-drop_two (a ∷ []) = omega arith
length-drop_two (a ∷ (b ∷ json)) = omega arith

join_quad-Within :
    (capacity size : ℕ) (quad : Option (ℕ × List ℕ)) (output : List ℕ)
    → Behind size quad
    → Within capacity size (join_quad capacity quad output)
join_quad-Within capacity size none output b = tt
join_quad-Within capacity size (some (value, json)) output b =
    if-Within capacity size _ _ (leb 0xd800 value && leb value 0xdbff)
      (λ _.
        if-Within capacity size none _
          (ltb (length json) 6 || not (get_or json 0 0 == b'\\') || not (get_or json 1 0 == b'u'))
          (λ _. tt)
          (λ _.
            join_low-Within capacity value size (decode_hex_quad (drop 2 json)) output
              (decode_hex_quad-Behind size (drop 2 json) (omega (arith, b, length-drop_two json)))))
      (λ _. write_utf8-Within capacity value size output json b)

decode_escape-Within :
    (capacity size : ℕ) (json output : List ℕ)
    → length json ≤ size
    → Within capacity size (decode_escape capacity json output)
unfolding decode_escape decode_unicode_escape
decode_escape-Within capacity size [] output h = tt
decode_escape-Within capacity size (byte ∷ json) output h =
    if-Within capacity size _ _ (byte == b'u')
      (λ _.
        join_quad-Within capacity size (decode_hex_quad json) output
          (decode_hex_quad-Behind size json (omega (arith, h))))
      (λ _.
        if-Within capacity size none _ (leb capacity (length output + 1)) (λ _. tt)
          (λ room. plain (plain_escape byte) room))
  where
    plain :
        (o : Option ℕ)
        → leb capacity (length output + 1) ≡ false
        → Within capacity size (append_plain o json output)
    plain none room = tt
    plain (some b) room = (ground (arith, room, length-append output (b ∷ [])), omega (arith, h))

read_byte-Within :
    (capacity byte size : ℕ) (json output : List ℕ)
    → length json ≤ size
    → Within capacity size (read_byte capacity byte json output)
unfolding read_byte
read_byte-Within capacity byte size json output h =
    if-Within capacity size _ _ (byte == b'\\')
      (λ _. decode_escape-Within capacity size json output h)
      (λ _.
        if-Within capacity size none (some (output ++ (byte ∷ []), json))
          (ltb byte 0x20 || leb capacity (length output + 1)) (λ _. tt)
          (λ room. (ground (arith, room, length-append output (byte ∷ [])), h)))

-- What was read, with its terminator, is in the output.
abbrev pub OutputFits : ℕ → Option (List ℕ) → Type 0
OutputFits capacity none = Unit
OutputFits capacity (some output) = length output < capacity

if-OutputFits :
    (capacity : ℕ) (x y : Option (List ℕ)) (test : Bool)
    → OutputFits capacity x
    → OutputFits capacity y
    → OutputFits capacity (if test then x else y)
if-OutputFits capacity x y true p q = p
if-OutputFits capacity x y false p q = q

read_string-OutputFits :
    (fuel capacity size : ℕ) (before : Option (List ℕ × List ℕ))
    → Within capacity size before
    → OutputFits capacity (read_string fuel capacity before)
unfolding read_string
read_string-OutputFits fuel capacity size none w = tt
read_string-OutputFits fuel capacity size (some (output, [])) w = tt
read_string-OutputFits zero capacity size (some (output, byte ∷ json)) w = tt
read_string-OutputFits (suc fuel) capacity size (some (output, byte ∷ json)) w =
    if-OutputFits capacity (some output) _ (byte == b'"') w.0 (
      read_string-OutputFits fuel capacity (length json) (read_byte capacity byte json output)
        (read_byte-Within capacity byte (length json) json output (omega arith)))

-- The loop over a string as the source runs it, without a bound on its rounds: what it returns from
-- what the round before it left.
pub data Reads (capacity : ℕ) : Option (List ℕ × List ℕ) → Option (List ℕ) → Type 0 where
  refused : Reads capacity none none
  ended : (output : List ℕ) → Reads capacity (some (output, [])) none
  closed :
      (byte : ℕ) (output json : List ℕ)
      → (byte == b'"') ≡ true
      → Reads capacity (some (output, byte ∷ json)) (some output)
  goes_on :
      (byte : ℕ) (output json : List ℕ) (result : Option (List ℕ))
      → (byte == b'"') ≡ false
      → Reads capacity (read_byte capacity byte json output) result
      → Reads capacity (some (output, byte ∷ json)) result

read_string_ends :
    (fuel capacity size : ℕ) (before : Option (List ℕ × List ℕ))
    → Within capacity size before
    → size ≤ fuel
    → Reads capacity before (read_string fuel capacity before)
unfolding read_string
read_string_ends fuel capacity size none w h = refused
read_string_ends fuel capacity size (some (output, [])) w h = ended output
read_string_ends zero capacity size (some (output, byte ∷ json)) w h =
    absurd (omega (arith, w.1, h))
read_string_ends (suc fuel) capacity size (some (output, byte ∷ json)) w h =
    elim (Bool-cases (byte == b'"')) [
      | inl p ↦ rw p (closed byte output json p)
      | inr p ↦ rw p (
          goes_on byte output json _ p (
            read_string_ends fuel capacity (length json) (read_byte capacity byte json output)
              (read_byte-Within capacity byte (length json) json output (omega arith))
              (omega (arith, w.1, h))))
    ]

-- The loop over a string ends: into an output that is not empty, with a round for each byte of the
-- text, `read_string` returns what the loop of the source returns, which no fuel bounds.
pub read_string-Reads :
    (capacity : ℕ) (json : List ℕ)
    → 1 ≤ capacity
    → Reads capacity (some ([], json)) (read_string (length json) capacity (some ([], json)))
read_string-Reads capacity json room =
    read_string_ends (length json) capacity (length json) (some ([], json)) (room, omega arith)
      (omega arith)

read_value-OutputFits :
    (capacity : ℕ) (json : List ℕ) → 1 ≤ capacity → OutputFits capacity (read_value capacity json)
unfolding read_value
read_value-OutputFits capacity [] room = tt
read_value-OutputFits capacity (byte ∷ json) room =
    if-OutputFits capacity (read_string (length json) capacity (some ([], json))) none
      (byte == b'"')
      (read_string-OutputFits (length json) capacity (length json) (some ([], json))
        (room, omega arith))
      tt

at_value-OutputFits :
    (capacity : ℕ) (json : Option (List ℕ))
    → 1 ≤ capacity
    → OutputFits capacity (at_value json (read_value capacity))
at_value-OutputFits capacity none room = tt
at_value-OutputFits capacity (some json) room = read_value-OutputFits capacity json room

-- Whatever the text and the key, a string that `gsh_json_get_string` gives lies in the output with its
-- terminator.
pub get_string-OutputFits :
    (json key : List ℕ) (capacity : ℕ) → OutputFits capacity (get_string json key capacity)
unfolding get_string
get_string-OutputFits json key capacity = elim (Bool-cases (capacity == 0)) [
  | inl p ↦ rw (OutputFits, p) tt
  | inr p ↦
      subst
        (λ b.
          OutputFits capacity
            (if b then none else at_value (locate_value json key) (read_value capacity)))
        (sym p) (at_value-OutputFits capacity (locate_value json key) (ground (arith, p)))
]
