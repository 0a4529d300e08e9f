-- ===== src/Json/Reader.antt =====
-- src/llm_json.c: the reader of JSON. An index into the text is what is left of the text from there.
use gsh.Prelude.{
  ℕ, zero, suc, ◌+◌, Bool, true, false, ◌&&◌, ◌||◌, not, List, [], ◌∷◌, Option, none, some, ltb,
  ◌==◌, if◌then◌else◌, length, get_or, drop, take, bytes_eq, sub_size,
}
use mathlib.Core.Option
use gsh.Json.{scan_cap}
use gsh.Json.Strings.{read_value}

abbrev pub is_blank : ℕ → Bool
is_blank byte = byte == b' ' || byte == 9 || byte == 13 || byte == 10

unfoldable pub skip_blank : List ℕ → List ℕ
skip_blank [] = []
skip_blank (byte ∷ json) = let rest = skip_blank json in if is_blank byte then rest else byte ∷ json

-- The bytes of a string before its closing quote, and the text from the quote.
unfoldable pub scan_key : Bool → List ℕ → List ℕ × List ℕ
scan_key escaped [] = ([], [])
scan_key escaped (byte ∷ json) =
    let rest = scan_key (not escaped && byte == b'\\') json in
    if escaped || not (byte == b'"') then (byte ∷ rest.0, rest.1) else ([], byte ∷ json)

-- One round of the loop of `locate_value` at a quote: the value, or where the next round starts.
unfoldable pub locate_at : List ℕ → List ℕ → Option (List ℕ) × List ℕ
unfolding skip_blank scan_key
locate_at key json =
    let scanned = scan_key false json in
    let behind = skip_blank (drop 1 scanned.1) in
    let value = skip_blank (drop 1 behind) in
    if length scanned.1 == 0 || not (bytes_eq scanned.0 key)
    then (none, drop 1 scanned.1)
    else if length behind == 0 || not (get_or behind 0 0 == b':')
    then (none, drop 2 behind)
    else if length value == 0
    then (none, [])
    else (some value, [])

abbrev pub locate_round : List ℕ → ℕ → List ℕ → Option (List ℕ) × List ℕ
locate_round key byte json = if byte == b'"' then locate_at key json else (none, json)

-- The loop, with fuel for each byte, from what the round before it found and where it stopped.
unfoldable pub locate_from : ℕ → List ℕ → Option (List ℕ) × List ℕ → Option (List ℕ)
unfolding locate_at
locate_from fuel key (some value, json) = some value
locate_from fuel key (none, []) = none
locate_from zero key (none, byte ∷ json) = none
locate_from (suc fuel) key (none, byte ∷ json) = locate_from fuel key (locate_round key byte json)

unfoldable pub locate_value : List ℕ → List ℕ → Option (List ℕ)
unfolding locate_from
locate_value json key =
    if ltb scan_cap (length json) then none else locate_from (length json) key (none, json)

abbrev pub at_value {ℓ} : {A : Type ℓ} → Option (List ℕ) → (List ℕ → Option A) → Option A
at_value none read = none
at_value (some json) read = read json

unfoldable pub get_string : List ℕ → List ℕ → ℕ → Option (List ℕ)
unfolding locate_value read_value
get_string json key capacity =
    if capacity == 0 then none else at_value (locate_value json key) (read_value capacity)

-- the variables of the loop of `scan_composite`
pub record Scan : Type 0 where
  pub depth : ℕ
  pub in_string : Bool
  pub escaped : Bool

-- What a byte that does not end the value does to them.
unfoldable pub scan_step : ℕ → ℕ → Scan → ℕ → Scan
scan_step opening closing s byte =
    if s.in_string
    then record s {
      in_string = s.escaped || not (byte == b'"');
      escaped = not s.escaped && byte == b'\\';
    }
    else if byte == b'"'
    then record s { in_string = true }
    else if byte == opening
    then record s { depth = s.depth + 1 }
    else if byte == closing
    then record s { depth = sub_size s.depth 1 }
    else s

abbrev pub scan_ends : ℕ → ℕ → Scan → ℕ → Bool
scan_ends opening closing s byte =
    not s.in_string
    && not (byte == b'"')
    && not (byte == opening)
    && byte == closing
    && sub_size s.depth 1 == 0

-- The loop, with the rounds that are left: how many bytes it reads up to the end.
unfoldable pub scan_from : ℕ → ℕ → ℕ → Scan → List ℕ → Option ℕ
unfolding scan_step
scan_from rounds opening closing s [] = none
scan_from zero opening closing s (byte ∷ json) = none
scan_from (suc rounds) opening closing s (byte ∷ json) =
    let rest = scan_from rounds opening closing (scan_step opening closing s byte) json in
    if scan_ends opening closing s byte then some 1 else Option.map suc rest

-- The bytes of the object or the array.
unfoldable pub scan_composite : List ℕ → Option (List ℕ)
unfolding scan_from
scan_composite [] = none
scan_composite (opening ∷ json) =
    if opening == b'{' || opening == b'['
    then at_value
        (elim (scan_from scan_cap opening (if opening == b'{' then b'}' else b']')
          (record { depth = 0; in_string = false; escaped = false }) (opening ∷ json)) [
            | none ↦ none
            | some n ↦ some (take n (opening ∷ json))
          ])
        some
    else none

unfoldable pub get_object : List ℕ → List ℕ → Option (List ℕ)
unfolding locate_value scan_composite
get_object json key = at_value (locate_value json key) scan_composite
