-- ===== src/Json.antt =====
-- src/llm_json.c: the writer of JSON. A writer that was initialized with memory is the bytes that it
-- has written, before the terminator, with the capacity; a text is the list of its bytes.
pub mod Strings
pub mod Reader
pub mod Written
pub mod Decoded
pub mod Bounds
pub mod Within
pub mod Replay
mod Tests
use gsh.Prelude.{
  ℕ, zero, suc, ◌+◌, sub_size, ◌/◌, ◌%◌, Bool, true, false, ◌&&◌, ◌||◌, List, [], ◌∷◌, ◌++◌, ltb,
  leb, ◌==◌, if◌then◌else◌, length, get_or, ascii,
}

abbrev pub scan_cap : ℕ
scan_cap = 1048576

pub record JsonWriter : Type 0 where
  pub written : List ℕ
  pub capacity : ℕ
  pub failed : Bool

unfoldable pub writer_initialize : ℕ → JsonWriter
writer_initialize capacity = record { written = []; capacity = capacity; failed = capacity == 0 }

abbrev pub fail : JsonWriter → JsonWriter × Bool
fail w = (record w { failed = true }, false)

unfoldable pub write_bytes : JsonWriter → List ℕ → JsonWriter × Bool
write_bytes w text =
    if w.failed || leb (sub_size w.capacity (length w.written)) (length text)
    then fail w
    else (record w { written = w.written ++ text }, true)

abbrev pub hexadecimal : ℕ → ℕ
hexadecimal digit = get_or (ascii "0123456789abcdef") digit 0

-- the bytes that `write_escape` hands on
unfoldable pub escape : ℕ → List ℕ
escape byte =
    if byte == b'"' || byte == b'\\'
    then b'\\' ∷ (byte ∷ [])
    else if byte == 10
    then ascii "\\n"
    else if byte == 13
    then ascii "\\r"
    else if byte == 9
    then ascii "\\t"
    else ascii "\\u00" ++ (hexadecimal (byte / 16 % 16) ∷ (hexadecimal (byte % 16) ∷ []))

unfoldable pub write_escape : JsonWriter → ℕ → JsonWriter × Bool
unfolding write_bytes escape
write_escape w byte = write_bytes w (escape byte)

unfoldable pub write_byte : JsonWriter → ℕ → JsonWriter × Bool
unfolding write_escape
write_byte w byte =
    if ltb byte 0x20 || byte == b'"' || byte == b'\\'
    then write_escape w byte
    else write_bytes w (byte ∷ [])

-- The loop over the text, with the rounds that are left, and what follows it.
unfoldable pub write_from : ℕ → JsonWriter × Bool → List ℕ → JsonWriter × Bool
unfolding write_byte
write_from rounds (w, false) text = (w, false)
write_from rounds (w, true) [] = write_bytes w (ascii "\"")
write_from zero (w, true) (byte ∷ bytes) = fail w
write_from (suc rounds) (w, true) (byte ∷ bytes) = write_from rounds (write_byte w byte) bytes

unfoldable pub write_string : JsonWriter → List ℕ → JsonWriter × Bool
unfolding write_from
write_string w text = write_from scan_cap (write_bytes w (ascii "\"")) text
