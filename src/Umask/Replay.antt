-- ===== src/Umask/Replay.antt =====
-- src/builtin_umask.c: what `umask` prints, read by `umask` again.
use gsh.Prelude.{
  ℕ, suc, ◌/◌, ◌%◌, ◌<◌, ◌≤◌, Bool, true, false, List, [], ◌∷◌, ◌++◌, none, some, ◌==◌, leb,
  if◌then◌else◌, length, length-append, ascii, ◌≡◌, refl, sym, ap, ◌∙◌, arith,
}
use gsh.Umask.{parse_octal, octal_in, parse_symbolic}
use gsh.Umask.Command.{
  symbolic_text, octal_text, mask_text, finished, printed, report_mask, parse_mask, scan_options,
  run_operands, builtin_umask,
}
use gsh.Umask.Octal.{octal_digit, octal_text_digits, parse_octal-octal_text}
use gsh.Umask.Symbolic.{permission_text, follow}
use gsh.Umask.Clauses.{
  lets, user_rest, group_rest, other_text, symbolic_text_lem, parse_symbolic-symbolic_text,
}

scan_options_operand :
    (byte : ℕ) (text : List ℕ)
    → (byte == b'-') ≡ false
    → scan_options false ((byte ∷ text) ∷ []) ≡ some (false, (byte ∷ text) ∷ [])
unfolding scan_options
scan_options_operand byte text h = rw h refl

builtin_umask_operand :
    (byte other m : ℕ) (text : List ℕ)
    → (byte == b'-') ≡ false
    → parse_mask (byte ∷ text) other ≡ some m
    → m < 512
    → builtin_umask ((byte ∷ text) ∷ []) other ≡ (m, finished)
unfolding builtin_umask run_operands
builtin_umask_operand byte other m text plain parsed h =
    let kept : m % 512 ≡ m = omega (arith, h) in
    rw (scan_options_operand byte text plain, parsed, kept) refl

abbrev octal_rest : ℕ → List ℕ
octal_rest m = octal_digit (m / 64) ∷ (octal_digit (m / 8) ∷ (octal_digit m ∷ []))

parse_mask_octal :
    (m other : ℕ) (text : List ℕ) → parse_octal text ≡ some m → parse_mask text other ≡ some m
unfolding parse_mask
parse_mask_octal m other text parsed = rw (parse_mask, parsed) refl

read_octal : (m other : ℕ) → m < 512 → builtin_umask (octal_text m ∷ []) other ≡ (m, finished)
read_octal m other h =
    let digits = octal_text_digits m (omega (arith, h)) in
    let parsed = ap parse_octal (sym digits) ∙ parse_octal-octal_text m (omega (arith, h)) in
    ap (λ text. builtin_umask (text ∷ []) other) digits
    ∙ builtin_umask_operand (octal_digit (m / 512)) other m (octal_rest m) (ground arith)
        (parse_mask_octal m other (octal_digit (m / 512) ∷ octal_rest m) parsed) h

not_octal : (text : List ℕ) → parse_octal (b'u' ∷ text) ≡ none
unfolding parse_octal octal_in
not_octal text = let some_ : (suc (length text) == 0) ≡ false = ground arith in rw some_ refl

parse_mask_symbolic :
    (other : ℕ) (text : List ℕ)
    → parse_mask (b'u' ∷ text) other ≡ parse_symbolic (b'u' ∷ text) other
unfolding parse_mask
parse_mask_symbolic other text = rw (parse_mask, not_octal text) refl

read_symbolic :
    (m other : ℕ)
    → m < 512
    → other < 512
    → builtin_umask (symbolic_text m ∷ []) other ≡ (m, finished)
read_symbolic m other h k =
    let text = symbolic_text_lem m in
    let parsed =
      parse_mask_symbolic other (b'=' ∷ user_rest m)
      ∙ ap (λ text. parse_symbolic text other) (sym text)
      ∙ parse_symbolic-symbolic_text m other h k in
    ap (λ text. builtin_umask (text ∷ []) other) text
    ∙ builtin_umask_operand b'u' other m (b'=' ∷ user_rest m) refl parsed h

permission_text_bound : (r w x : Bool) → length (permission_text r w x) ≤ 3
permission_text_bound true true true = omega arith
permission_text_bound true true false = omega arith
permission_text_bound true false true = omega arith
permission_text_bound true false false = omega arith
permission_text_bound false true true = omega arith
permission_text_bound false true false = omega arith
permission_text_bound false false true = omega arith
permission_text_bound false false false = omega arith

mask_text_bound : (symbolic : Bool) (m : ℕ) → m < 512 → length (mask_text symbolic m) ≤ 17
mask_text_bound false m h = rw (octal_text_digits m (omega (arith, h))) (omega arith)
mask_text_bound true m h =
    let user = permission_text (lets m 256) (lets m 128) (lets m 64) in
    let group = permission_text (lets m 32) (lets m 16) (lets m 8) in
    let other = permission_text (lets m 4) (lets m 2) (lets m 1) in
    rw (symbolic_text_lem m) (
      omega (
        arith,
        length-append user (follow (some (b'g' ∷ (b'=' ∷ group_rest m)))),
        length-append group (follow (some (b'o' ∷ (b'=' ∷ other_text m)))),
        length-append other [],
        permission_text_bound (lets m 256) (lets m 128) (lets m 64),
        permission_text_bound (lets m 32) (lets m 16) (lets m 8),
        permission_text_bound (lets m 4) (lets m 2) (lets m 1),
      ))

not_full : (n : ℕ) → n ≤ 18 → leb 64 n ≡ false
not_full n h = ground (arith, h)

report_mask_lem :
    (symbolic : Bool) (m : ℕ)
    → m < 512
    → report_mask m symbolic ≡ printed (mask_text symbolic m ++ ascii "\n")
unfolding report_mask
report_mask_lem symbolic m h =
    let fits : leb 64 (length (mask_text symbolic m ++ ascii "\n")) ≡ false =
      not_full (length (mask_text symbolic m ++ ascii "\n")) (
        omega (
          arith,
          length-append (mask_text symbolic m) (ascii "\n"),
          mask_text_bound symbolic m h,
        )) in
    rw fits refl

report_run :
    (symbolic : Bool) (m : ℕ)
    → m < 512
    → builtin_umask (if symbolic then ascii "-S" ∷ [] else []) m
      ≡ (m, printed (mask_text symbolic m ++ ascii "\n"))
unfolding builtin_umask scan_options run_operands
report_run true m h =
    let kept : m % 512 ≡ m = omega (arith, h) in rw (kept, report_mask_lem true m h) refl
report_run false m h =
    let kept : m % 512 ≡ m = omega (arith, h) in rw (kept, report_mask_lem false m h) refl

read_back :
    (symbolic : Bool) (m other : ℕ)
    → m < 512
    → other < 512
    → builtin_umask (mask_text symbolic m ∷ []) other ≡ (m, finished)
read_back true m other h k = read_symbolic m other h k
read_back false m other h k = read_octal m other h

-- `umask` and `umask -S` print the mask in force, keep it, and succeed; and `umask` with the text
-- that either of them printed, without its newline, puts that mask in force again, whatever mask was
-- in force meanwhile.
pub builtin_umask_replay :
    (symbolic : Bool) (m other : ℕ)
    → m < 512
    → other < 512
    → (builtin_umask (if symbolic then ascii "-S" ∷ [] else []) m
        ≡ (m, printed (mask_text symbolic m ++ ascii "\n")))
      × (builtin_umask (mask_text symbolic m ∷ []) other ≡ (m, finished))
builtin_umask_replay symbolic m other h k =
    (report_run symbolic m h, read_back symbolic m other h k)
