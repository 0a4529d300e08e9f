-- ===== src/Options/Update.antt =====
-- src/shell_options.c: `update` changes the bit of its descriptor and no other.
use gsh.Prelude.{
  ℕ, zero, suc, ◌*◌, ◌^◌, ◌≤◌, ◌<◌, Bool, true, false, not, if◌then◌else◌, ◌==◌, ◌≡◌, refl, ap, ◌∙◌,
  arith,
}
use gsh.Prelude.Bits.{
  test_bit, test_bit_bound, complement, test_bit-bit_and, test_bit-bit_or, bit_and-power,
  test_bit-power, test_bit-complement,
}
use native.Mathlib.Nat.{pow-suc}
use gsh.Options.{ShellOptions, OptionDescriptor, options_enabled, update}

power_pos : (k : ℕ) → 1 ≤ 2 ^ k
power_pos zero = omega arith
power_pos (suc k) = omega (arith, power_pos k, pow-suc 2 k)

power_mono : (j k : ℕ) → j < k → 2 ^ suc j ≤ 2 ^ k
power_mono j zero h = absurd (omega arith)
power_mono zero (suc k) h = omega (arith, power_pos k, pow-suc 2 k)
power_mono (suc j) (suc k) h =
    omega (arith, power_mono j k (omega arith), pow-suc 2 (suc j), pow-suc 2 k)

-- `m` is `b * p`, for a bit `b` and a positive `p`.
masked_is_zero : (b p m : ℕ) → b < 2 → 1 ≤ p → m ≡ b * p → (m == 0) ≡ (b == 0)
masked_is_zero zero p m h q e = ground arith
masked_is_zero (suc zero) p m h q e = ground arith
masked_is_zero (suc (suc b)) p m h q e = absurd (omega arith)

enabled-bit :
    (o : ShellOptions) (k : ℕ) → options_enabled o (2 ^ k) ≡ not (test_bit k o.enabled == 0)
unfolding options_enabled
enabled-bit o k = ap not (
    masked_is_zero (test_bit k o.enabled) (2 ^ k) _ (test_bit_bound k o.enabled) (power_pos k)
      (bit_and-power k o.enabled))

power_eq : (j k : ℕ) → (2 ^ j == 2 ^ k) ≡ (j == k)
power_eq j k =
    let before = power_mono j k in
    let after = power_mono k j in
    grind (arith, before, after, power_pos j, power_pos k, pow-suc 2 j, pow-suc 2 k)

-- The bit `j` after `update` of the option with the bit `k`.
test_bit-update :
    (o : ShellOptions) (d : OptionDescriptor) (enable : Bool) (k j : ℕ)
    → d.bit ≡ 2 ^ k
    → k < 32
    → j < 32
    → test_bit j (update o d enable).enabled
      ≡ (if j == k then (if enable then 1 else 0) else test_bit j o.enabled)
unfolding update
test_bit-update o d true k j b p q =
    let bound = test_bit_bound j o.enabled in
    let power = ap (test_bit j) b ∙ test_bit-power j k in
    grind (arith, test_bit-bit_or j o.enabled d.bit, power, bound)
test_bit-update o d false k j b p q =
    let bound = test_bit_bound j o.enabled in
    let power = ap (test_bit j) b ∙ test_bit-power j k in
    let small : d.bit < 2 ^ 32 = omega (arith, power_mono k 32 p, pow-suc 2 k, power_pos k) in
    let flipped = test_bit-complement j 32 d.bit q small in
    grind (arith, test_bit-bit_and j o.enabled (complement 32 d.bit), flipped, power, bound)

test_select :
    (c enable : Bool) (t : ℕ)
    → not ((if c then (if enable then 1 else 0) else t) == 0) ≡ (if c then enable else not (t == 0))
test_select true true t = refl
test_select true false t = refl
test_select false enable t = refl

-- Every option is as before, but that of the descriptor, which is `enable`.
pub enabled-update :
    (o : ShellOptions) (d : OptionDescriptor) (enable : Bool) (k j : ℕ)
    → d.bit ≡ 2 ^ k
    → k < 32
    → j < 32
    → options_enabled (update o d enable) (2 ^ j)
      ≡ (if 2 ^ j == d.bit then enable else options_enabled o (2 ^ j))
enabled-update o d enable k j b p q =
    let after = enabled-bit (update o d enable) j in
    let before = enabled-bit o j in
    let bits = test_bit-update o d enable k j b p q in
    let same = ap (λ (n : ℕ). 2 ^ j == n) b ∙ power_eq j k in
    after ∙ ap (λ t. not (t == 0)) bits ∙ test_select (j == k) enable _ ∙ rw (same, before) refl
