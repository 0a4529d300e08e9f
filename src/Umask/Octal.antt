-- ===== src/Umask/Octal.antt =====
-- src/builtin_umask.c: the octal form of a mask, printed and read.
use gsh.Prelude.{
  ℕ, suc, ◌+◌, ◌-◌, ◌*◌, ◌/◌, ◌%◌, ◌^◌, ◌<◌, ◌≤◌, true, false, Bool-cases, List, [], ◌∷◌, ◌++◌,
  some, ltb, length, replicate, ◌≡◌, refl, ap, ◌∙◌, inl, inr, arith,
}
use gsh.Umask.{octal_in, parse_octal}
use gsh.Umask.Command.{octal_digits, octal_text}

abbrev pub octal_digit : ℕ → ℕ
octal_digit n = n % 8 + b'0'

octal_digits_last :
    (fuel n : ℕ) (digits : List ℕ)
    → n < 8
    → octal_digits (suc fuel) n digits ≡ octal_digit n ∷ digits
unfolding octal_digits
octal_digits_last fuel n digits h = let p : ltb n 8 ≡ true = ground (arith, h) in rw p refl

octal_digits_more :
    (fuel n : ℕ) (digits : List ℕ)
    → 8 ≤ n
    → octal_digits (suc fuel) n digits ≡ octal_digits fuel (n / 8) (octal_digit n ∷ digits)
unfolding octal_digits
octal_digits_more fuel n digits h = let p : ltb n 8 ≡ false = ground (arith, h) in rw p refl

four :
    {a b c d a' b' c' d' : ℕ}
    → a ≡ a'
    → b ≡ b'
    → c ≡ c'
    → d ≡ d'
    → a ∷ (b ∷ (c ∷ (d ∷ []))) ≡ a' ∷ (b' ∷ (c' ∷ (d' ∷ [])))
four p q r s = cc

abbrev padded : List ℕ → List ℕ
padded digits = replicate (4 - length digits) b'0' ++ digits

-- A mask below 010000 is printed as its four digits.
pub octal_text_digits :
    (m : ℕ)
    → m < 4096
    → octal_text m
      ≡ octal_digit (m / 512)
        ∷ (octal_digit (m / 64) ∷ (octal_digit (m / 8) ∷ (octal_digit m ∷ [])))
unfolding octal_text
octal_text_digits m h = elim (Bool-cases (ltb m 8)) [
  | inl one ↦
      ap padded (octal_digits_last 10 m [] (ground (arith, one)))
      ∙ four (ground (arith, one)) (ground (arith, one)) (ground (arith, one)) refl
  | inr p ↦ elim (Bool-cases (ltb m 64)) [
    | inl two ↦
        ap padded (
          octal_digits_more 10 m [] (ground (arith, p))
          ∙ octal_digits_last 9 (m / 8) _ (ground (arith, two)))
        ∙ four (ground (arith, two)) (ground (arith, two)) refl refl
    | inr q ↦ elim (Bool-cases (ltb m 512)) [
      | inl three ↦
          ap padded (
            octal_digits_more 10 m [] (ground (arith, p))
            ∙ octal_digits_more 9 (m / 8) _ (ground (arith, q))
            ∙ octal_digits_last 8 (m / 8 / 8) _ (ground (arith, three)))
          ∙ four (ground (arith, three)) (omega arith) refl refl
      | inr r ↦
          ap padded (
            octal_digits_more 10 m [] (ground (arith, p))
            ∙ octal_digits_more 9 (m / 8) _ (ground (arith, q))
            ∙ octal_digits_more 8 (m / 8 / 8) _ (ground (arith, r))
            ∙ octal_digits_last 7 (m / 8 / 8 / 8) _ (omega arith))
          ∙ four (omega arith) (omega arith) refl refl
    ]
  ]
]

octal_in_digit :
    (value d : ℕ) (bytes : List ℕ)
    → value ≤ 511
    → octal_in value (octal_digit d ∷ bytes) ≡ octal_in (value * 8 + d % 8) bytes
unfolding octal_in
octal_in_digit value d bytes h =
    let low : ltb (octal_digit d) b'0' ≡ false = ground arith in
    let high : ltb b'7' (octal_digit d) ≡ false = ground arith in
    let room : ltb 511 value ≡ false = ground (arith, h) in
    let next : (value * 8 + (octal_digit d - b'0')) % 2 ^ 32 ≡ value * 8 + d % 8 =
      omega (arith, h) in
    rw (low, high, room, next) refl

octal_in_four :
    (m : ℕ)
    → m < 4096
    → octal_in 0 (
        octal_digit (m / 512)
        ∷ (octal_digit (m / 64) ∷ (octal_digit (m / 8) ∷ (octal_digit m ∷ []))))
      ≡ some m
unfolding octal_in
octal_in_four m h =
    let total : (((0 * 8 + m / 512 % 8) * 8 + m / 64 % 8) * 8 + m / 8 % 8) * 8 + m % 8 ≡ m =
      omega arith in
    octal_in_digit 0 (m / 512) (octal_digit (m / 64) ∷ (octal_digit (m / 8) ∷ (octal_digit m ∷ [])))
      (omega arith)
    ∙ octal_in_digit (0 * 8 + m / 512 % 8) (m / 64) (octal_digit (m / 8) ∷ (octal_digit m ∷ []))
        (omega arith)
    ∙ octal_in_digit ((0 * 8 + m / 512 % 8) * 8 + m / 64 % 8) (m / 8) (octal_digit m ∷ [])
        (omega arith)
    ∙ octal_in_digit (((0 * 8 + m / 512 % 8) * 8 + m / 64 % 8) * 8 + m / 8 % 8) m [] (omega arith)
    ∙ ap some total

pub parse_octal-octal_text : (m : ℕ) → m < 4096 → parse_octal (octal_text m) ≡ some m
unfolding parse_octal
parse_octal-octal_text m h =
    let room : ltb 4095 m ≡ false = ground (arith, h) in
    rw (octal_text_digits m h, octal_in_four m h, room) refl
