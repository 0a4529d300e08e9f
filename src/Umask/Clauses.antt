-- ===== src/Umask/Clauses.antt =====
-- src/builtin_umask.c: the symbolic form of a mask, printed and read.
use gsh.Prelude.{
  all_below, all_below_lem, ℕ, suc, ◌+◌, ◌-◌, ◌*◌, ◌/◌, ◌%◌, ◌<◌, Bool, true, false, List, ◌∷◌,
  ◌++◌, append-nil, none, some, ◌==◌, ==_iff, length, ascii, ◌≡◌, refl, sym, ap, ◌∙◌, arith,
}
use gsh.Prelude.Bits.{bit_and}
use gsh.Umask.{text_cap, apply_operation, run_clauses, parse_symbolic}
use gsh.Umask.Command.{group_bits, group_text, symbolic_text}
use gsh.Umask.Symbolic.{
  all_below_two, permission_text, permission_value, follow, set_user, set_group, set_other,
  read_user, read_group, read_other, run_clauses_last, run_clauses_next,
}

-- A permission that the mask lets through.
abbrev pub lets : ℕ → ℕ → Bool
lets mask bit = bit_and mask bit == 0

group_text_lem :
    (mask scale : ℕ)
    → group_text mask (group_bits scale)
      ≡ permission_text (lets mask (4 * scale)) (lets mask (2 * scale)) (lets mask scale)
unfolding group_text
group_text_lem mask scale = refl

abbrev value_at : ℕ → ℕ → ℕ
value_at mask scale =
    permission_value (lets mask (4 * scale)) (lets mask (2 * scale)) (lets mask scale)

user_digit : all_below 512 (λ m. value_at m 64 == 7 - m / 64) ≡ true
user_digit = refl

group_digit : all_below 512 (λ m. value_at m 8 == 7 - m / 8 % 8) ≡ true
group_digit = refl

other_digit : all_below 512 (λ m. value_at m 1 == 7 - m % 8) ≡ true
other_digit = refl

-- The three clauses of the text.
abbrev pub other_text : ℕ → List ℕ
other_text m = permission_text (lets m 4) (lets m 2) (lets m 1) ++ follow none

abbrev pub group_rest : ℕ → List ℕ
group_rest m =
    permission_text (lets m 32) (lets m 16) (lets m 8)
    ++ follow (some (b'o' ∷ (b'=' ∷ other_text m)))

abbrev pub user_rest : ℕ → List ℕ
user_rest m =
    permission_text (lets m 256) (lets m 128) (lets m 64)
    ++ follow (some (b'g' ∷ (b'=' ∷ group_rest m)))

pub symbolic_text_lem : (m : ℕ) → symbolic_text m ≡ b'u' ∷ (b'=' ∷ user_rest m)
unfolding symbolic_text group_text
symbolic_text_lem m =
    ap
      (λ (last : List ℕ).
        ascii "u="
        ++ group_text m (group_bits 64)
        ++ (ascii ",g=" ++ group_text m (group_bits 8) ++ (ascii ",o=" ++ last)))
      (sym (append-nil (group_text m (group_bits 1))))

digit_of : (m : ℕ) (f g : ℕ → ℕ) → all_below 512 (λ m. f m == g m) ≡ true → m < 512 → f m ≡ g m
digit_of m f g all_ h = (==_iff (f m) (g m)).0 (all_below_lem 512 (λ m. f m == g m) m all_ h)

-- The mask after each clause.
abbrev after_user : ℕ → ℕ → ℕ
after_user m initial = apply_operation b'=' initial 1 (value_at m 64)

abbrev after_group : ℕ → ℕ → ℕ
after_group m initial = apply_operation b'=' (after_user m initial) 2 (value_at m 8)

abbrev after_other : ℕ → ℕ → ℕ
after_other m initial = apply_operation b'=' (after_group m initial) 4 (value_at m 1)

after_other_lem : (m initial : ℕ) → m < 512 → initial < 512 → after_other m initial ≡ m
after_other_lem m initial h k =
    let user = digit_of m (λ m. value_at m 64) (λ m. 7 - m / 64) user_digit h in
    let group = digit_of m (λ m. value_at m 8) (λ m. 7 - m / 8 % 8) group_digit h in
    let other = digit_of m (λ m. value_at m 1) (λ m. 7 - m % 8) other_digit h in
    let one =
      all_below_two 8 512 (λ i p. apply_operation b'=' i 1 p) (λ i p. i % 64 + (7 - p) * 64)
        (value_at m 64) initial set_user (omega (arith, user)) k in
    let two =
      all_below_two 8 512 (λ i p. apply_operation b'=' i 2 p)
        (λ i p. i / 64 * 64 + (7 - p) * 8 + i % 8) (value_at m 8) (after_user m initial) set_group
        (omega (arith, group)) (omega (arith, one, user)) in
    let three =
      all_below_two 8 512 (λ i p. apply_operation b'=' i 4 p) (λ i p. i / 8 * 8 + (7 - p))
        (value_at m 1) (after_group m initial) set_other (omega (arith, other))
        (omega (arith, two, one, user, group)) in
    omega (arith, one, two, three, user, group, other)

run_clauses_text :
    (m initial : ℕ)
    → run_clauses text_cap initial initial (b'u' ∷ (b'=' ∷ user_rest m))
      ≡ some (after_other m initial)
run_clauses_text m initial =
    run_clauses_next 63 initial initial (after_user m initial) b'g' (b'u' ∷ (b'=' ∷ user_rest m))
      (b'=' ∷ group_rest m)
      (read_user initial initial (lets m 256) (lets m 128) (lets m 64)
        (some (b'g' ∷ (b'=' ∷ group_rest m))))
    ∙ run_clauses_next 62 initial (after_user m initial) (after_group m initial) b'o'
        (b'g' ∷ (b'=' ∷ group_rest m)) (b'=' ∷ other_text m)
        (read_group initial (after_user m initial) (lets m 32) (lets m 16) (lets m 8)
          (some (b'o' ∷ (b'=' ∷ other_text m))))
    ∙ run_clauses_last 61 initial (after_group m initial) (after_other m initial)
        (b'o' ∷ (b'=' ∷ other_text m))
        (read_other initial (after_group m initial) (lets m 4) (lets m 2) (lets m 1) none)

parse_symbolic_cons :
    (byte initial : ℕ) (text : List ℕ)
    → parse_symbolic (byte ∷ text) initial ≡ run_clauses text_cap initial initial (byte ∷ text)
unfolding parse_symbolic
parse_symbolic_cons byte initial text =
    let some_ : (suc (length text) == 0) ≡ false = ground arith in rw some_ refl

pub parse_symbolic-symbolic_text :
    (m initial : ℕ) → m < 512 → initial < 512 → parse_symbolic (symbolic_text m) initial ≡ some m
parse_symbolic-symbolic_text m initial h k =
    ap (λ text. parse_symbolic text initial) (symbolic_text_lem m)
    ∙ parse_symbolic_cons b'u' initial (b'=' ∷ user_rest m)
    ∙ run_clauses_text m initial
    ∙ ap some (after_other_lem m initial h k)
