-- ===== src/Lexer/Limit.antt =====
-- The limit on nested contexts, where the scanner of a word goes on behind it.
use gsh.Prelude.{
  ℕ, suc, Bool, true, false, ◌||◌, ◌∷◌, ◌≡◌, refl, sym, ap, arith, ◌==◌, ascii, if◌then◌else◌,
  length,
}
use mathlib.Core.Path.{subst}
use gsh.Lexer.{
  Lexer, limit, double, dollar_single, parameter, command, arithmetic, ContextKind, ContextStack,
  Scan, scanned, refused, context_cap, starts_with, push_context, advance_one,
}
use gsh.Lexer.Position.{advance_one_frame}
use gsh.Lexer.Word.{
  or_else, push_and_advance, begin_substitution, substitute_or_advance, scan_quoted_word_byte,
}

-- A substitution stands before the lexer.
abbrev pub opens : Lexer → Bool
opens l =
    starts_with l (ascii "$((")
    || starts_with l (ascii "$(")
    || starts_with l (ascii "${")
    || starts_with l (ascii "$'")

-- The lexer has moved over one byte, and nothing else of its place or input has changed.
pub record Stepped (l after : Lexer) : Type 0 where
  pub input_eq : after.input ≡ l.input
  pub size_eq : after.size ≡ l.size
  pub offset_eq : after.offset ≡ (advance_one l).offset
  pub line_eq : after.line ≡ (advance_one l).line
  pub column_eq : after.column ≡ (advance_one l).column

-- The `$` was taken as plain text; a substitution that stands there is in the status.
pub record TakenAsText (l : Lexer) (stack : ContextStack) (s : Scan) : Type 0 where
  pub goes_on : s.result ≡ true
  pub same_stack : s.stack ≡ stack
  pub stepped : Stepped l s.lexer
  pub limited : opens l ≡ true → (s.lexer.status ≡ limit) × (s.lexer.error_offset ≡ l.offset)
  pub unlimited : opens l ≡ false → s.lexer ≡ advance_one l

abbrev limited_at : Lexer → Lexer
limited_at l = record l { status = limit; error_offset = l.offset }

full_push :
    (l : Lexer) (stack : ContextStack) (context : ContextKind) (n : ℕ)
    → length stack ≡ context_cap
    → push_and_advance l stack context n ≡ refused (limited_at l) stack
unfolding push_and_advance push_context
full_push l stack context n full = rw full refl

same_branches :
    (a b c d : Bool) (x y : Scan)
    → (if a then x else if b then x else if c then x else if d then x else y)
      ≡ (if a || b || c || d then x else y)
same_branches true b c d x y = refl
same_branches false true c d x y = refl
same_branches false false true d x y = refl
same_branches false false false true x y = refl
same_branches false false false false x y = refl

-- When the stack is full, a substitution is refused, and the lexer says so.
full_substitution :
    (l : Lexer) (stack : ContextStack)
    → length stack ≡ context_cap
    → begin_substitution l stack
      ≡ (if opens l then refused (limited_at l) stack else refused l stack)
unfolding begin_substitution
full_substitution l stack full =
    rw
      (
        full_push l stack arithmetic 3 full,
        full_push l stack command 2 full,
        full_push l stack parameter 2 full,
        full_push l stack dollar_single 2 full,
      )
      (same_branches (starts_with l (ascii "$((")) (starts_with l (ascii "$("))
        (starts_with l (ascii "${")) (starts_with l (ascii "$'")) (refused (limited_at l) stack)
        (refused l stack))

advance_one-limited_at :
    (l : Lexer)
    → Stepped l (advance_one (limited_at l))
      × ((advance_one (limited_at l)).status ≡ limit)
      × ((advance_one (limited_at l)).error_offset ≡ l.offset)
unfolding advance_one
advance_one-limited_at l = (
  record {
    input_eq = ground arith;
    size_eq = ground arith;
    offset_eq = ground arith;
    line_eq = ground arith;
    column_eq = ground arith;
  },
  ground arith,
  ground arith,
)

advance_one-Stepped : (l : Lexer) → Stepped l (advance_one l)
advance_one-Stepped l = record {
  input_eq = (advance_one_frame l).0;
  size_eq = (advance_one_frame l).1;
  offset_eq = refl;
  line_eq = refl;
  column_eq = refl;
}

-- what the scanner does with a refused substitution
over_dollar : Scan → Scan
over_dollar s = or_else s (λ l stack. scanned (advance_one l) stack)

refused-TakenAsText :
    (l : Lexer) (stack : ContextStack) (test : Bool)
    → opens l ≡ test
    → TakenAsText l stack
        (over_dollar (if test then refused (limited_at l) stack else refused l stack))
unfolding over_dollar
refused-TakenAsText l stack true e =
    let moved = advance_one-limited_at l in
    record {
      goes_on = refl;
      same_stack = refl;
      stepped = moved.0;
      limited = λ _. (moved.1, moved.2);
      unlimited = λ other. absurd (cc (e, other));
    }
refused-TakenAsText l stack false e = record {
  goes_on = refl;
  same_stack = refl;
  stepped = advance_one-Stepped l;
  limited = λ other. absurd (cc (e, other));
  unlimited = λ _. refl;
}

quoted_dollar :
    (l : Lexer) (below : ContextStack)
    → scan_quoted_word_byte l (double ∷ below) double b'$'
      ≡ over_dollar (begin_substitution l (double ∷ below))
unfolding scan_quoted_word_byte substitute_or_advance over_dollar
quoted_dollar l below =
    let more : (suc (length below) == 0) ≡ false = ground arith in
    ap
      (λ empty.
        if empty
        then refused l (double ∷ below)
        else over_dollar (begin_substitution l (double ∷ below)))
      more

-- Inside double quotes with 128 contexts open, the scanner takes a `$` as plain text, whatever stands
-- behind it: it goes on with the contexts that it had, one byte further. If a substitution stands
-- there then the status has become the limit, with the offset of the `$`; otherwise the lexer is what
-- `advance_one` makes of it.
pub scan_quoted_word_byte-TakenAsText :
    (l : Lexer) (below : ContextStack)
    → length (double ∷ below) ≡ context_cap
    → TakenAsText l (double ∷ below) (scan_quoted_word_byte l (double ∷ below) double b'$')
scan_quoted_word_byte-TakenAsText l below full =
    subst (TakenAsText l (double ∷ below)) (sym (quoted_dollar l below)) (
      subst (λ s. TakenAsText l (double ∷ below) (over_dollar s))
        (sym (full_substitution l (double ∷ below) full))
        (refused-TakenAsText l (double ∷ below) (opens l) refl))
