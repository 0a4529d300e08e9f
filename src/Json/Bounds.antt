-- ===== src/Json/Bounds.antt =====
-- src/llm_json.c: the writer stays within its memory.
use gsh.Prelude.{
  ℕ, zero, suc, sub_size, ◌<◌, Bool, true, false, ◌||◌, Bool-cases, List, [], ◌∷◌, length-append,
  leb, length, ascii, ◌≡◌, refl, sym, ◌∙◌, inl, inr, arith,
}
use mathlib.Core.Path.{subst}
use gsh.Json.{JsonWriter, scan_cap, write_bytes, write_byte, write_from, write_string}
use gsh.Json.Written.{encode_byte, write_byte_lem}

-- The bytes and their terminator are in the memory.
abbrev pub Fits : JsonWriter → Type 0
Fits w = length w.written < w.capacity

-- What a write leaves: a writer that fits, of the same capacity, which has failed if the write says
-- so.
pub record Leaves (w : JsonWriter) (after : JsonWriter × Bool) : Type 0 where
  pub fits : Fits after.0
  pub same_capacity : after.0.capacity ≡ w.capacity
  pub failure : after.1 ≡ false → after.0.failed ≡ true
  pub sticky : w.failed ≡ true → (after.1 ≡ false) × (after.0.written ≡ w.written)

write_bytes-Leaves : (w : JsonWriter) (text : List ℕ) → Fits w → Leaves w (write_bytes w text)
unfolding write_bytes
write_bytes-Leaves w text h =
    elim (Bool-cases (w.failed || leb (sub_size w.capacity (length w.written)) (length text))) [
      | inl p ↦ rw p (record {
        fits = h;
        same_capacity = refl;
        failure = λ _. refl;
        sticky = λ _. (refl, refl);
      })
      | inr p ↦ rw p (record {
        fits = ground (arith, p, h, length-append w.written text);
        same_capacity = refl;
        failure = λ e. absurd (cc (e));
        sticky = λ e. absurd (ground (arith, e, p));
      })
    ]

write_from-Leaves :
    (rounds : ℕ) (w : JsonWriter) (before : JsonWriter × Bool) (text : List ℕ)
    → Leaves w before
    → Leaves w (write_from rounds before text)
unfolding write_from
write_from-Leaves rounds w (x, false) text l = l
write_from-Leaves rounds w (x, true) [] l = then_bytes (ascii "\"")
  where
    then_bytes : (text : List ℕ) → Leaves w (write_bytes x text)
    then_bytes text =
        let next = write_bytes-Leaves x text l.fits in
        record {
          fits = next.fits;
          same_capacity = next.same_capacity ∙ l.same_capacity;
          failure = next.failure;
          sticky = λ e. absurd (cc ((l.sticky e).0));
        }
write_from-Leaves zero w (x, true) (byte ∷ bytes) l = record {
  fits = l.fits;
  same_capacity = l.same_capacity;
  failure = λ _. refl;
  sticky = λ e. (refl, (l.sticky e).1);
}
write_from-Leaves (suc rounds) w (x, true) (byte ∷ bytes) l =
    let next =
      subst (Leaves x) (sym (write_byte_lem x byte))
        (write_bytes-Leaves x (encode_byte byte) l.fits) in
    write_from-Leaves rounds w (write_byte x byte) bytes (record {
      fits = next.fits;
      same_capacity = next.same_capacity ∙ l.same_capacity;
      failure = next.failure;
      sticky = λ e. absurd (cc ((l.sticky e).0));
    })

-- A string that is written into a writer whose bytes and terminator are in its memory leaves them
-- there, and the capacity as it was, even where the memory is too short; if the write returns false
-- then the writer has failed, and a write into a writer that had failed before returns false and
-- leaves its bytes as they were.
pub write_string-Leaves : (w : JsonWriter) (text : List ℕ) → Fits w → Leaves w (write_string w text)
unfolding write_string
write_string-Leaves w text h =
    write_from-Leaves scan_cap w (write_bytes w (ascii "\"")) text
      (write_bytes-Leaves w (ascii "\"") h)
