-- ===== src/Json/Written.antt =====
-- src/llm_json.c: the bytes of a string that was written.
use gsh.Prelude.{
  ℕ, zero, suc, sub_size, Bool, true, false, ◌||◌, Bool-cases, List, [], ◌∷◌, ◌++◌, append_assoc,
  ltb, leb, ◌==◌, if◌then◌else◌, length, ascii, ◌≡◌, refl, sym, ap, ◌∙◌, inl, inr,
}
use gsh.Json.{
  JsonWriter, scan_cap, write_bytes, escape, write_escape, write_byte, write_from, write_string,
}

-- A string between its quotes.
abbrev pub is_escaped : ℕ → Bool
is_escaped byte = ltb byte 0x20 || byte == b'"' || byte == b'\\'

abbrev pub encode_byte : ℕ → List ℕ
encode_byte byte = if is_escaped byte then escape byte else byte ∷ []

abbrev pub encode : List ℕ → List ℕ
encode [] = []
encode (byte ∷ bytes) = encode_byte byte ++ encode bytes

-- A write that succeeds appends the bytes.
write_bytes-written :
    (w : JsonWriter) (text : List ℕ)
    → (write_bytes w text).1 ≡ true
    → (write_bytes w text).0.written ≡ w.written ++ text
unfolding write_bytes
write_bytes-written w text h =
    elim (Bool-cases (w.failed || leb (sub_size w.capacity (length w.written)) (length text))) [
      | inl p ↦ absurd (cc (rw p at h))
      | inr p ↦ rw p refl
    ]

pub write_byte_lem :
    (w : JsonWriter) (byte : ℕ) → write_byte w byte ≡ write_bytes w (encode_byte byte)
unfolding write_byte write_escape
write_byte_lem w byte = elim (Bool-cases (is_escaped byte)) [
  | inl p ↦ rw p refl
  | inr p ↦ rw p refl
]

write_from-written :
    (rounds : ℕ) (before : JsonWriter × Bool) (text prefix : List ℕ)
    → (before.1 ≡ true → before.0.written ≡ prefix)
    → (write_from rounds before text).1 ≡ true
    → (write_from rounds before text).0.written ≡ prefix ++ (encode text ++ (b'"' ∷ []))
unfolding write_from
write_from-written rounds (w, false) text prefix start h = absurd (cc)
write_from-written rounds (w, true) [] prefix start h =
    write_bytes-written w (ascii "\"") h ∙ ap (λ xs. xs ++ (b'"' ∷ [])) (start refl)
write_from-written zero (w, true) (byte ∷ bytes) prefix start h = absurd (cc)
write_from-written (suc rounds) (w, true) (byte ∷ bytes) prefix start h =
    write_from-written rounds (write_byte w byte) bytes (prefix ++ encode_byte byte) (next start) h
    ∙ append_assoc prefix (encode_byte byte) (encode bytes ++ (b'"' ∷ []))
    ∙ ap (λ xs. prefix ++ xs) (sym (append_assoc (encode_byte byte) (encode bytes) (b'"' ∷ [])))
  where
    next :
        ((true ≡ true) → w.written ≡ prefix)
        → (write_byte w byte).1 ≡ true
        → (write_byte w byte).0.written ≡ prefix ++ encode_byte byte
    next start done =
        ap (λ (p : JsonWriter × Bool). p.0.written) (write_byte_lem w byte)
        ∙ write_bytes-written w (encode_byte byte)
            (sym (ap (λ (p : JsonWriter × Bool). p.1) (write_byte_lem w byte)) ∙ done)
        ∙ ap (λ xs. xs ++ encode_byte byte) (start refl)

pub write_string-written :
    (w : JsonWriter) (text : List ℕ)
    → (write_string w text).1 ≡ true
    → (write_string w text).0.written ≡ (w.written ++ (b'"' ∷ [])) ++ (encode text ++ (b'"' ∷ []))
unfolding write_string
write_string-written w text h =
    write_from-written scan_cap (write_bytes w (ascii "\"")) text (w.written ++ (b'"' ∷ []))
      (write_bytes-written w (ascii "\"")) h
