-- ===== src/Prelude/Bits.antt =====
-- The bits of native numbers: `test_bit` of `bit_and`, `bit_or` and powers of two.
use Prim.Native.Nat.{
  ℕ, zero, suc, ◌+◌, ◌-◌, ◌*◌, ◌/◌, ◌%◌, ◌^◌, ◌≤◌, ◌<◌, min, max, digits, bit_and-bitwise,
  bit_or-bitwise,
}
pub use Prim.Native.Nat.{bit_and, bit_or}
use mathlib.Core.Path.{◌≡◌, refl, sym, ap, ◌∙◌}
use native.Mathlib.Omega.{arith}
use gsh.Prelude.Tests.{◌==◌, if◌then◌else◌}
use native.Mathlib.Nat.{pow-suc}

-- The bit of weight 2 ^ k, as a number.
abbrev pub test_bit : ℕ → ℕ → ℕ
test_bit zero n = n % 2
test_bit (suc k) n = test_bit k (n / 2)

pub test_bit_bound : (k n : ℕ) → test_bit k n < 2
test_bit_bound zero n = omega arith
test_bit_bound (suc k) n = test_bit_bound k (n / 2)

pub test_bit-zero : (k : ℕ) → test_bit k 0 ≡ 0
test_bit-zero zero = refl
test_bit-zero (suc k) = test_bit-zero k

-- An operation that works on every bit alone, and is `rest` where the first number has ended.
module _ (rest : ℕ → ℕ) (op : ℕ → ℕ → ℕ)
    (at_end : (k b : ℕ) → test_bit k (rest b) ≡ op 0 (test_bit k b))
    (op_bound : (x y : ℕ) → x < 2 → y < 2 → op x y < 2) where
  ended : (k b : ℕ) → test_bit k (rest b) ≡ op (test_bit k 0) (test_bit k b)
  ended k b = at_end k b ∙ ap (λ x. op x (test_bit k b)) (sym (test_bit-zero k))

  test_bit-digits :
      (n k a b : ℕ) → a ≤ n → test_bit k (digits rest op n a b) ≡ op (test_bit k a) (test_bit k b)
  test_bit-digits zero k zero b h = ended k b
  test_bit-digits zero k (suc a) b h = absurd (omega arith)
  test_bit-digits (suc n) k zero b h = ended k b
  test_bit-digits (suc n) zero (suc a) b h =
      let bound = op_bound (suc a % 2) (b % 2) (omega arith) (omega arith) in omega (arith, bound)
  test_bit-digits (suc n) (suc k) (suc a) b h =
      let higher = digits rest op n (suc a / 2) (b / 2) in
      let bound = op_bound (suc a % 2) (b % 2) (omega arith) (omega arith) in
      let half : (higher * 2 + op (suc a % 2) (b % 2)) / 2 ≡ higher = omega (arith, bound) in
      ap (test_bit k) half ∙ test_bit-digits n k (suc a / 2) (b / 2) (omega arith)

pub test_bit-bit_and : (k a b : ℕ) → test_bit k (bit_and a b) ≡ min (test_bit k a) (test_bit k b)
test_bit-bit_and k a b =
    ap (test_bit k) (bit_and-bitwise a b)
    ∙ test_bit-digits _ min (λ k b. test_bit-zero k ∙ omega arith) (λ x y p q. omega arith) a k a b
        (omega arith)

pub test_bit-bit_or : (k a b : ℕ) → test_bit k (bit_or a b) ≡ max (test_bit k a) (test_bit k b)
test_bit-bit_or k a b =
    ap (test_bit k) (bit_or-bitwise a b)
    ∙ test_bit-digits _ max (λ k b. omega arith) (λ x y p q. omega arith) a k a b (omega arith)

-- Numbers with the same bits are equal.
bits_ext : (n a b : ℕ) → a ≤ n → b ≤ n → ((k : ℕ) → test_bit k a ≡ test_bit k b) → a ≡ b
bits_ext zero a b p q same = omega arith
bits_ext (suc n) a b p q same =
    let lowest = same 0 in
    let higher = bits_ext n (a / 2) (b / 2) (omega arith) (omega arith) (λ k. same (suc k)) in
    omega (arith, lowest, higher)

pub test_bit_ext : (a b : ℕ) → ((k : ℕ) → test_bit k a ≡ test_bit k b) → a ≡ b
test_bit_ext a b same = bits_ext (a + b) a b (omega arith) (omega arith) same

bit_and_half : (a b : ℕ) → bit_and a b / 2 ≡ bit_and (a / 2) (b / 2)
bit_and_half a b =
    test_bit_ext _ _ λ k. test_bit-bit_and (suc k) a b ∙ sym (test_bit-bit_and k (a / 2) (b / 2))

pub bit_and_none : (a : ℕ) → bit_and a 0 ≡ 0
bit_and_none a =
    test_bit_ext _ _ λ k. let none = test_bit-zero k in omega (arith, test_bit-bit_and k a 0, none)

-- A mask of one bit.
pub bit_and-power : (k a : ℕ) → bit_and a (2 ^ k) ≡ test_bit k a * 2 ^ k
bit_and-power zero a =
    let higher = bit_and_half a 1 ∙ bit_and_none (a / 2) in
    omega (arith, higher, test_bit-bit_and 0 a 1)
bit_and-power (suc k) a =
    let half : 2 ^ suc k / 2 ≡ 2 ^ k = omega (arith, pow-suc 2 k) in
    let lowest = test_bit-bit_and 0 a (2 ^ suc k) in
    let higher =
      bit_and_half a (2 ^ suc k) ∙ ap (λ b. bit_and (a / 2) b) half ∙ bit_and-power k (a / 2) in
    let scale = ap (λ (q : ℕ). test_bit k (a / 2) * q) (pow-suc 2 k) in
    omega (arith, higher, lowest, scale, pow-suc 2 k)

-- The bits of a power of two.
pub test_bit-power : (j k : ℕ) → test_bit j (2 ^ k) ≡ (if j == k then 1 else 0)
test_bit-power zero zero = refl
test_bit-power zero (suc k) = grind (arith, pow-suc 2 k)
test_bit-power (suc j) zero = test_bit-zero j ∙ ground arith
test_bit-power (suc j) (suc k) =
    let half : 2 ^ suc k / 2 ≡ 2 ^ k = omega (arith, pow-suc 2 k) in
    ap (test_bit j) half ∙ test_bit-power j k ∙ ground arith

-- `~ n` in `w` bits
abbrev pub complement : ℕ → ℕ → ℕ
complement w n = 2 ^ w - 1 - n

pub test_bit-complement :
    (j w n : ℕ) → j < w → n < 2 ^ w → test_bit j (complement w n) ≡ 1 - test_bit j n
test_bit-complement j zero n p q = absurd (omega arith)
test_bit-complement zero (suc w) n p q = omega (arith, pow-suc 2 w)
test_bit-complement (suc j) (suc w) n p q =
    let half : complement (suc w) n / 2 ≡ complement w (n / 2) = omega (arith, pow-suc 2 w) in
    ap (test_bit j) half
    ∙ test_bit-complement j w (n / 2) (omega arith) (omega (arith, pow-suc 2 w))

-- Masks that are disjoint from `m`.
pub bit_or-disjoint : (a b m : ℕ) → bit_and a m ≡ 0 → bit_and b m ≡ 0 → bit_and (bit_or a b) m ≡ 0
bit_or-disjoint a b m p q = test_bit_ext _ _ λ k.
    let left = sym (test_bit-bit_and k a m) ∙ ap (test_bit k) p in
    let right = sym (test_bit-bit_and k b m) ∙ ap (test_bit k) q in
    let none = test_bit-zero k in
    omega (arith, test_bit-bit_and k (bit_or a b) m, test_bit-bit_or k a b, left, right, none)

pub bit_and-disjoint : (a b m : ℕ) → bit_and a m ≡ 0 → bit_and (bit_and a b) m ≡ 0
bit_and-disjoint a b m p = test_bit_ext _ _ λ k.
    let left = sym (test_bit-bit_and k a m) ∙ ap (test_bit k) p in
    let none = test_bit-zero k in
    omega (arith, test_bit-bit_and k (bit_and a b) m, test_bit-bit_and k a b, left, none)
