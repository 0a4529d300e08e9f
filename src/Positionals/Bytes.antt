-- ===== src/Positionals/Bytes.antt =====
-- C strings in a buffer, and what `memcpy` does to it.
use gsh.Prelude.{
  ℕ, zero, suc, ◌+◌, ◌≤◌, ◌<◌, true, List, [], ◌∷◌, ◌++◌, length, take, drop, take-append_take,
  drop-append_take, take-length_append, take-length, length-take, length-drop, length-append, ◌≡◌,
  ◌≢◌, refl, sym, ap, ◌∙◌, arith, append_assoc, take-append-drop,
}
use gsh.Positionals.{copy_into, c_string, has_nul}

-- Bytes of a C string.
abbrev pub IsText : List ℕ → Type 0
IsText [] = Unit
IsText (c ∷ cs) = (c ≢ 0) × IsText cs

c_string-append : (v rest : List ℕ) → IsText v → c_string (v ++ (0 ∷ rest)) ≡ v
unfolding c_string
c_string-append [] rest t = refl
c_string-append (c ∷ cs) rest t = ground (arith, c_string-append cs rest t.1)

-- A buffer that begins with the bytes of a string and its terminator holds the string.
pub c_string-take :
    (v bytes : List ℕ) → IsText v → take (length v + 1) bytes ≡ v ++ (0 ∷ []) → c_string bytes ≡ v
c_string-take v bytes t h =
    ap c_string (sym (take-append-drop (length v + 1) bytes))
    ∙ ap (λ b. c_string (b ++ drop (length v + 1) bytes)) h
    ∙ ap c_string (append_assoc v (0 ∷ []) (drop (length v + 1) bytes))
    ∙ c_string-append v (drop (length v + 1) bytes) t

-- What is copied stands where it was copied to, and what stands before it stays.
pub copy_into_below :
    (text : List ℕ) (at : ℕ) (bytes : List ℕ) (size : ℕ)
    → at ≤ length text
    → take at (copy_into text at bytes size) ≡ take at text
unfolding copy_into
copy_into_below text at bytes size h = take-append_take at text _ h

pub copy_into_at :
    (text : List ℕ) (at : ℕ) (bytes : List ℕ)
    → at ≤ length text
    → take (length bytes) (drop at (copy_into text at bytes (length bytes))) ≡ bytes
unfolding copy_into
copy_into_at text at bytes h =
    ap (take (length bytes)) (
      drop-append_take at text _ h
      ∙ ap (λ b. b ++ drop (at + length bytes) text) (take-length bytes))
    ∙ take-length_append bytes _

pub length-copy_into :
    (text : List ℕ) (at : ℕ) (bytes : List ℕ)
    → at + length bytes ≤ length text
    → length (copy_into text at bytes (length bytes)) ≡ length text
unfolding copy_into
length-copy_into text at bytes h = omega (
  arith,
  length-append (take at text) (take (length bytes) bytes ++ drop (at + length bytes) text),
  length-append (take (length bytes) bytes) (drop (at + length bytes) text),
  length-take at text,
  length-take (length bytes) bytes,
  length-drop (at + length bytes) text,
)

-- A string and its terminator have a NUL.
pub has_nul-string :
    (v bytes : List ℕ) (n : ℕ)
    → take (suc (length v)) bytes ≡ v ++ (0 ∷ [])
    → length v < n
    → has_nul bytes n ≡ true
unfolding has_nul
has_nul-string [] [] n h k = absurd (cc h)
has_nul-string (c ∷ cs) [] n h k = absurd (cc h)
has_nul-string v (b ∷ bytes) zero h k = absurd (omega arith)
has_nul-string [] (b ∷ bytes) (suc n) h k = ground (arith, h)
has_nul-string (c ∷ cs) (b ∷ bytes) (suc n) h k =
    let tails : take (suc (length cs)) bytes ≡ cs ++ (0 ∷ []) = cc h in
    ground (arith, has_nul-string cs bytes n tails (omega arith))
