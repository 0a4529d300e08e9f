-- ===== src/Options/Table.antt =====
-- src/shell_options.c: the entries of `descriptors` have bits of their own.
use gsh.Prelude.{
  ℕ, zero, suc, ◌^◌, ◌<◌, Bool, true, false, ◌&&◌, ◌||◌, not, ◌==◌, ==_iff, Bool-cases, bytes_eq,
  ◌≡◌, refl, sym, ap, ◌∙◌, inl, inr, arith, All, all, All-map, all-All,
}
use gsh.Prelude.Bits.{bit_and, complement}
use gsh.Options.{OptionDescriptor, descriptors, interactive, known}

pub record IsBit (n : ℕ) : Type 0 where
  pub place : ℕ
  pub below : place < 32
  pub weight : n ≡ 2 ^ place

-- `n` is one of 2 ^ 0, …, 2 ^ (w - 1).
is_bit_below : ℕ → ℕ → Bool
is_bit_below zero n = false
is_bit_below (suc w) n = n == 2 ^ w || is_bit_below w n

is_bit_below-IsBit : (w n : ℕ) → w < 33 → is_bit_below w n ≡ true → IsBit n
unfolding is_bit_below
is_bit_below-IsBit zero n h e = absurd (cc)
is_bit_below-IsBit (suc w) n h e = elim (Bool-cases (n == 2 ^ w)) [
  | inl here ↦ record { place = w; below = omega arith; weight = (==_iff _ _).0 here }
  | inr other ↦
      is_bit_below-IsBit w n (omega arith) (sym (ap (λ b. b || is_bit_below w n) other) ∙ e)
]

same : Bool → Bool → Bool
same true b = b
same false b = not b

same_sound : (a b : Bool) → same a b ≡ true → a ≡ b
unfolding same
same_sound true true h = refl
same_sound true false h = absurd (cc)
same_sound false true h = absurd (cc)
same_sound false false h = refl

both : (a b : Bool) → a && b ≡ true → (a ≡ true) × (b ≡ true)
both true b h = (refl, h)
both false b h = absurd (cc)

-- What holds of an entry beside all others.
stands_apart : OptionDescriptor → Bool
stands_apart d = same (interactive == d.bit) false && bit_and d.bit (complement 32 known) == 0

names_agree : OptionDescriptor → OptionDescriptor → Bool
names_agree d e = same (e.bit == d.bit) (bytes_eq e.name d.name)

letters_agree : OptionDescriptor → OptionDescriptor → Bool
letters_agree d e = d.letter == 0 || same (e.bit == d.bit) (e.letter == d.letter)

entry_is_good : OptionDescriptor → Bool
entry_is_good d =
    is_bit_below 32 d.bit
    && stands_apart d
    && all (names_agree d) descriptors
    && all (letters_agree d) descriptors

all_good : all entry_is_good descriptors ≡ true
unfolding entry_is_good is_bit_below same stands_apart names_agree letters_agree
all_good = refl

pub record IsEntry (d : OptionDescriptor) : Type 0 where
  pub bit : IsBit d.bit
  pub not_interactive : (interactive == d.bit) ≡ false
  pub is_known : bit_and d.bit (complement 32 known) ≡ 0
  pub by_name : All (λ e. (e.bit == d.bit) ≡ bytes_eq e.name d.name) descriptors
  pub by_letter :
      All (λ e. (d.letter == 0) ≡ false → (e.bit == d.bit) ≡ (e.letter == d.letter)) descriptors

entry_is_good-IsEntry : (d : OptionDescriptor) → entry_is_good d ≡ true → IsEntry d
unfolding entry_is_good stands_apart names_agree letters_agree
entry_is_good-IsEntry d h =
    let names = all (names_agree d) descriptors in
    let letters = all (letters_agree d) descriptors in
    let first = both (is_bit_below 32 d.bit && stands_apart d && names) letters h in
    let second = both (is_bit_below 32 d.bit && stands_apart d) names first.0 in
    let third = both (is_bit_below 32 d.bit) (stands_apart d) second.0 in
    let mask =
      both (same (interactive == d.bit) false) (bit_and d.bit (complement 32 known) == 0) third.1 in
    record {
      bit = is_bit_below-IsBit 32 d.bit (omega arith) third.0;
      not_interactive = same_sound _ _ mask.0;
      is_known = (==_iff _ _).0 mask.1;
      by_name =
          All-map {Q = λ e. (e.bit == d.bit) ≡ bytes_eq e.name d.name} descriptors
            (λ e. same_sound _ _) (all-All (names_agree d) descriptors second.1);
      by_letter =
          All-map {Q = λ e. (d.letter == 0) ≡ false → (e.bit == d.bit) ≡ (e.letter == d.letter)}
            descriptors
            (λ e (p : letters_agree d e ≡ true) named.
              same_sound _ _
                (sym (ap (λ b. b || same (e.bit == d.bit) (e.letter == d.letter)) named) ∙ p))
            (all-All (letters_agree d) descriptors first.1);
    }

pub descriptors-IsEntry : All IsEntry descriptors
descriptors-IsEntry =
    All-map descriptors entry_is_good-IsEntry (all-All entry_is_good descriptors all_good)
