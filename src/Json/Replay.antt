-- ===== src/Json/Replay.antt =====
-- src/llm_json.c: a string that was written, read again.
use gsh.Prelude.{
  ℕ, zero, suc, ◌+◌, ◌/◌, ◌%◌, ◌≤◌, ◌<◌, Bool, true, false, ◌||◌, Bool-cases, List, [], ◌∷◌, ◌++◌,
  append_assoc, append-nil, length-append, ◌==◌, ==_iff, some, if◌then◌else◌, length, drop, ascii,
  ◌≡◌, refl, sym, ap, ◌∙◌, inl, inr, arith,
}
use gsh.Json.{JsonWriter, hexadecimal, escape, write_string}
use gsh.Json.Strings.{plain_escape, read_string, read_value}
use gsh.Json.Written.{is_escaped, encode_byte, encode, write_string-written}
use gsh.Json.Decoded.{decode_control, decode_plain, read_escaped, read_plain}

-- What is read at the escape of a byte.
module _ (fuel capacity byte : ℕ) (tail output : List ℕ) (room : length output + 1 < capacity) where
  abbrev Reads : List ℕ → Type 0
  Reads bytes =
      read_string (suc fuel) capacity (some (output, bytes ++ tail))
      ≡ read_string fuel capacity (some (output ++ (byte ∷ []), tail))

  letter-Reads :
      (letter : ℕ)
      → (letter == b'u') ≡ false
      → plain_escape letter ≡ some byte
      → Reads (b'\\' ∷ (letter ∷ []))
  letter-Reads letter other plain =
      read_escaped fuel capacity (letter ∷ tail) output (output ++ (byte ∷ []), tail)
        (decode_plain capacity letter byte tail output other plain room)

  control-Reads :
      byte < 32
      → Reads (ascii "\\u00" ++ (hexadecimal (byte / 16 % 16) ∷ (hexadecimal (byte % 16) ∷ [])))
  control-Reads h =
      read_escaped fuel capacity
        (b'u' ∷ (b'0' ∷ (b'0' ∷ (hexadecimal (byte / 16 % 16) ∷ (hexadecimal (byte % 16) ∷ tail)))))
        output (output ++ (byte ∷ []), tail) (decode_control capacity byte tail output h room)

  if-Reads :
      (x y : List ℕ) (test : Bool)
      → (test ≡ true → Reads x)
      → (test ≡ false → Reads y)
      → Reads (if test then x else y)
  if-Reads x y true p q = p refl
  if-Reads x y false p q = q refl

  itself : (byte == b'"' || byte == b'\\') ≡ true → plain_escape byte ≡ some byte
  unfolding plain_escape
  itself p = elim (Bool-cases (byte == b'"')) [
    | inl q ↦ letter_of b'"' q refl
    | inr q ↦ letter_of b'\\' (ground (arith, p, q)) refl
  ]
    where
      letter_of :
          (letter : ℕ)
          → (byte == letter) ≡ true
          → plain_escape letter ≡ some letter
          → plain_escape byte ≡ some byte
      letter_of letter same known =
          let equal = (==_iff byte letter).0 same in
          ap plain_escape equal ∙ known ∙ ap some (sym equal)

  escape-Reads : is_escaped byte ≡ true → Reads (escape byte)
  unfolding escape plain_escape
  escape-Reads h =
      if-Reads _ _ (byte == b'"' || byte == b'\\')
        (λ p. letter-Reads byte (ground (arith, p)) (itself p))
        (λ p.
          if-Reads _ _ (byte == 10)
            (λ q. letter-Reads b'n' refl (ap some (sym ((==_iff byte 10).0 q))))
            (λ q.
              if-Reads _ _ (byte == 13)
                (λ r. letter-Reads b'r' refl (ap some (sym ((==_iff byte 13).0 r))))
                (λ r.
                  if-Reads _ _ (byte == 9)
                    (λ s. letter-Reads b't' refl (ap some (sym ((==_iff byte 9).0 s))))
                    (λ s. control-Reads (ground (arith, h, p))))))

  encode_byte-Reads : Reads (encode_byte byte)
  encode_byte-Reads =
      if-Reads _ _ (is_escaped byte) escape-Reads
        (λ plain. read_plain fuel capacity byte tail output plain room)

escape_bound : (byte : ℕ) → 1 ≤ length (escape byte)
unfolding escape
escape_bound byte = ground arith

length-encode : (text : List ℕ) → length text ≤ length (encode text)
length-encode [] = omega arith
length-encode (byte ∷ bytes) =
    omega (
      arith,
      length-append (encode_byte byte) (encode bytes),
      length-encode bytes,
      encode_byte_bound,
    )
  where
    encode_byte_bound : 1 ≤ length (encode_byte byte)
    encode_byte_bound = elim (Bool-cases (is_escaped byte)) [
      | inl p ↦ rw p (escape_bound byte)
      | inr p ↦ rw p (omega arith)
    ]

read_encoded :
    (fuel capacity : ℕ) (text rest output : List ℕ)
    → length text < fuel
    → length output + length text < capacity
    → read_string fuel capacity (some (output, encode text ++ (b'"' ∷ rest)))
      ≡ some (output ++ text)
unfolding read_string
read_encoded zero capacity text rest output h room = absurd (omega arith)
read_encoded (suc fuel) capacity [] rest output h room = ap some (sym (append-nil output))
read_encoded (suc fuel) capacity (byte ∷ bytes) rest output h room =
    ap (λ bs. read_string (suc fuel) capacity (some (output, bs)))
      (append_assoc (encode_byte byte) (encode bytes) (b'"' ∷ rest))
    ∙ encode_byte-Reads fuel capacity byte (encode bytes ++ (b'"' ∷ rest)) output
        (omega (arith, room))
    ∙ read_encoded fuel capacity bytes rest (output ++ (byte ∷ [])) (omega (arith, h))
        (omega (arith, room, length-append output (byte ∷ [])))
    ∙ ap some (append_assoc output (byte ∷ []) bytes)

drop_appended : (xs ys : List ℕ) → drop (length xs) (xs ++ ys) ≡ ys
drop_appended [] ys = refl
drop_appended (x ∷ xs) ys = drop_appended xs ys

read_value-quoted :
    (capacity : ℕ) (text rest : List ℕ)
    → length text < capacity
    → read_value capacity (b'"' ∷ (encode text ++ (b'"' ∷ rest))) ≡ some text
unfolding read_value
read_value-quoted capacity text rest room =
    read_encoded (length (encode text ++ (b'"' ∷ rest))) capacity text rest []
      (omega (arith, length-encode text, length-append (encode text) (b'"' ∷ rest)))
      (omega (arith, room))

-- What `gsh_json_write_string` appends, when it succeeds, `gsh_json_get_string` reads back at that
-- place as the same bytes, whatever follows it, into an output that holds them and a terminator.
pub read_value-write_string :
    (w : JsonWriter) (text rest : List ℕ) (capacity : ℕ)
    → (write_string w text).1 ≡ true
    → length text < capacity
    → read_value capacity (drop (length w.written) (write_string w text).0.written ++ rest)
      ≡ some text
read_value-write_string w text rest capacity done room =
    let whole =
      write_string-written w text done
      ∙ append_assoc w.written (b'"' ∷ []) (encode text ++ (b'"' ∷ [])) in
    let value : drop (length w.written) (write_string w text).0.written
        ≡ b'"' ∷ (encode text ++ (b'"' ∷ [])) =
      ap (drop (length w.written)) whole ∙ drop_appended w.written _ in
    ap (λ json. read_value capacity (json ++ rest)) value
    ∙ ap (λ json. read_value capacity (b'"' ∷ json)) (append_assoc (encode text) (b'"' ∷ []) rest)
    ∙ read_value-quoted capacity text rest room
