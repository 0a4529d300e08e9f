-- ===== src/Lexer/Scanned.antt =====
-- The parts of a round of the word scanner stay in the input and go on by a byte at least.
use gsh.Prelude.{
  ℕ, suc, ◌+◌, ◌≤◌, ◌<◌, [], ◌∷◌, ◌≡◌, refl, ◌∙◌, arith, ◌==◌, if◌then◌else◌, ltb, Bool, true,
  false, not, ◌&&◌, Bool-cases, inl, inr, ltb→lt, length,
}
use gsh.Lexer.{
  limit, Lexer, ContextKind, single, double, dollar_single, backquote, parameter, command,
  arithmetic, parenthesis, ContextStack, advance_one, advance_count, Scan, scanned, refused,
  push_context, pop_context, starts_with, context_cap,
}
use gsh.Lexer.Position.{
  IsValid, Moves, Moves-trans, Moves-weaken, stay-Moves, status-Moves, advance_one-Moves,
  advance_count-Moves, starts_with-le,
}
use gsh.Lexer.Word.{
  push_and_advance, begin_substitution, consume_escape, substitute_or_advance, or_else,
  scan_plain_word_byte, scan_in_quotes, scan_closing, is_parameter, is_parenthesized, is_arithmetic,
}

and_right : (a b : Bool) → (a && b) ≡ true → b ≡ true
and_right a b h = ground arith

-- A call that returns true has gone on; one that returns false stands where it stood.
pub record Scanned (l : Lexer) (s : Scan) : Type 0 where
  pub moves : Moves 0 l s.lexer
  pub progress : s.result ≡ true → l.offset < s.lexer.offset
  pub stuck : s.result ≡ false → s.lexer.offset ≡ l.offset

scanned-Scanned :
    {l l' : Lexer} (stack : ContextStack) → Moves 1 l l' → Scanned l (scanned l' stack)
scanned-Scanned stack m = record {
  moves = Moves-weaken 0 m (omega arith);
  progress = λ _. omega (arith, m.far);
  stuck = λ h. cc;
}

refused-Scanned :
    {l : Lexer} (s : Scan)
    → Moves 0 l s.lexer
    → s.lexer.offset ≡ l.offset
    → s.result ≡ false
    → Scanned l s
refused-Scanned s m e r = record { moves = m; progress = λ h. cc; stuck = λ _. e }

-- To split on a test of the code.
pub if-Scanned :
    {l : Lexer} (b : Bool) {s t : Scan}
    → (b ≡ true → Scanned l s)
    → (b ≡ false → Scanned l t)
    → Scanned l (if b then s else t)
if-Scanned true p q = p refl
if-Scanned false p q = q refl

push_and_advance-Scanned :
    {l : Lexer} (stack : ContextStack) (context : ContextKind) (n : ℕ)
    → IsValid l
    → l.offset + suc n ≤ l.size
    → Scanned l (push_and_advance l stack context (suc n))
unfolding push_and_advance push_context
push_and_advance-Scanned {l} stack context n v h = elim (Bool-cases (length stack == context_cap)) [
  | inl full ↦ rw full (
      refused-Scanned (refused (record l { status = limit; error_offset = l.offset }) stack)
        (status-Moves limit l.offset v) refl refl)
  | inr room ↦ rw room (
      scanned-Scanned (context ∷ stack)
        (Moves-weaken 1 (advance_count-Moves (suc n) v h) (omega arith)))
]

pub begin_substitution-Scanned :
    {l : Lexer} (stack : ContextStack) → IsValid l → Scanned l (begin_substitution l stack)
unfolding begin_substitution
begin_substitution-Scanned {l} stack v =
    if-Scanned (starts_with l (b'$' ∷ b'(' ∷ b'(' ∷ []))
      (λ h. push_and_advance-Scanned stack arithmetic 2 v (starts_with-le _ v h))
      λ _.
        if-Scanned (starts_with l (b'$' ∷ b'(' ∷ []))
          (λ h. push_and_advance-Scanned stack command 1 v (starts_with-le _ v h))
          λ _.
            if-Scanned (starts_with l (b'$' ∷ b'{' ∷ []))
              (λ h. push_and_advance-Scanned stack parameter 1 v (starts_with-le _ v h))
              λ _.
                if-Scanned (starts_with l (b'$' ∷ b'\'' ∷ []))
                  (λ h. push_and_advance-Scanned stack dollar_single 1 v (starts_with-le _ v h))
                  λ _. refused-Scanned (refused l stack) (stay-Moves v) refl refl

consume_escape-Moves : {l : Lexer} → IsValid l → l.offset < l.size → Moves 1 l (consume_escape l)
unfolding consume_escape
consume_escape-Moves {l} v h =
    let one = advance_one-Moves v h in
    elim (Bool-cases (ltb (advance_one l).offset (advance_one l).size)) [
      | inl more ↦
          rw more (Moves-trans 1 one (advance_one-Moves one.valid (ltb→lt _ _ more)) (omega arith))
      | inr done ↦ rw done one
    ]

-- What follows a call that returned false runs where the call stood.
pub or_else-Scanned :
    {l : Lexer} (s : Scan) (otherwise : Lexer → ContextStack → Scan)
    → Scanned l s
    → ((l' : Lexer) → Moves 0 l l' → l'.offset ≡ l.offset → Scanned l' (otherwise l' s.stack))
    → Scanned l (or_else s otherwise)
or_else-Scanned {l} s otherwise p after =
    if-Scanned s.result (λ _. p)
      λ no_.
        let q = after s.lexer p.moves (p.stuck no_) in
        record {
          moves = Moves-trans 0 p.moves q.moves (omega arith);
          progress = λ h. omega (arith, q.progress h, p.moves.far);
          stuck = λ h. q.stuck h ∙ p.stuck no_;
        }

pub at_end :
    {l l' : Lexer} → Moves 0 l l' → l'.offset ≡ l.offset → l.offset < l.size → l'.offset < l'.size
at_end m e h = omega (arith, m.size_same)

advance_one-Scanned :
    {l : Lexer} (stack : ContextStack)
    → IsValid l
    → l.offset < l.size
    → Scanned l (scanned (advance_one l) stack)
advance_one-Scanned stack v h = scanned-Scanned stack (advance_one-Moves v h)

pub refused_here-Scanned :
    {l : Lexer} (stack : ContextStack) → IsValid l → Scanned l (refused l stack)
refused_here-Scanned {l} stack v = refused-Scanned (refused l stack) (stay-Moves v) refl refl

-- The section's lexer stands before a byte of its input.
module _ {l : Lexer} (v : IsValid l) (h : l.offset < l.size) where
  pub push_one-Scanned :
      (stack : ContextStack) (context : ContextKind)
      → Scanned l (push_and_advance l stack context 1)
  push_one-Scanned stack context = push_and_advance-Scanned stack context 0 v (omega arith)

  pub escape-Scanned : (stack : ContextStack) → Scanned l (scanned (consume_escape l) stack)
  escape-Scanned stack = scanned-Scanned stack (consume_escape-Moves v h)

  one-Scanned : (stack : ContextStack) → Scanned l (scanned (advance_one l) stack)
  one-Scanned stack = scanned-Scanned stack (advance_one-Moves v h)

  substitute_or_advance-Scanned :
      (stack : ContextStack) (byte : ℕ) → Scanned l (substitute_or_advance l stack byte)
  unfolding substitute_or_advance
  substitute_or_advance-Scanned stack byte =
      if-Scanned (byte == b'$')
        (λ _.
          or_else-Scanned (begin_substitution l stack)
            (λ l' stack'. scanned (advance_one l') stack') (begin_substitution-Scanned stack v)
            (λ l' m e. advance_one-Scanned _ m.valid (at_end m e h)))
        (λ _. one-Scanned stack)

  pub scan_plain_word_byte-Scanned :
      (stack : ContextStack) (byte : ℕ) → Scanned l (scan_plain_word_byte l stack byte)
  unfolding scan_plain_word_byte
  scan_plain_word_byte-Scanned stack byte =
      if-Scanned (not (length stack == 0)) (λ _. refused_here-Scanned stack v)
        λ _.
          if-Scanned (byte == b'\\') (λ _. escape-Scanned stack)
            λ _.
              if-Scanned (byte == b'\'') (λ _. push_one-Scanned stack single)
                λ _.
                  if-Scanned (byte == b'"') (λ _. push_one-Scanned stack double)
                    λ _.
                      if-Scanned (byte == 0x60) (λ _. push_one-Scanned stack backquote)
                        λ _. substitute_or_advance-Scanned stack byte

  in_double-Scanned :
      (stack : ContextStack) (byte : ℕ) → Scanned l (scan_in_quotes double l stack byte)
  unfolding scan_in_quotes
  in_double-Scanned stack byte =
      if-Scanned (byte == b'"') (λ _. one-Scanned _)
        λ _.
          if-Scanned (byte == b'\\') (λ _. escape-Scanned stack)
            λ _.
              if-Scanned (byte == 0x60) (λ _. push_one-Scanned stack backquote)
                λ _. substitute_or_advance-Scanned stack byte

  pub scan_in_quotes-Scanned :
      (context : ContextKind) (stack : ContextStack) (byte : ℕ)
      → Scanned l (scan_in_quotes context l stack byte)
  unfolding scan_in_quotes
  scan_in_quotes-Scanned single stack byte = one-Scanned _
  scan_in_quotes-Scanned dollar_single stack byte =
      if-Scanned (byte == b'\\') (λ _. escape-Scanned stack) (λ _. one-Scanned _)
  scan_in_quotes-Scanned backquote stack byte =
      if-Scanned (byte == b'\\') (λ _. escape-Scanned stack) (λ _. one-Scanned _)
  scan_in_quotes-Scanned _ stack byte = in_double-Scanned stack byte

  pub scan_closing-Scanned :
      (stack : ContextStack) (context : ContextKind) (byte : ℕ)
      → Scanned l (scan_closing l stack context byte)
  unfolding scan_closing
  scan_closing-Scanned stack context byte =
      if-Scanned (is_parameter context && byte == b'}') (λ _. one-Scanned _)
        λ _.
          if-Scanned (is_parenthesized context && byte == b'(')
            (λ _. push_one-Scanned stack parenthesis)
            λ _.
              if-Scanned (is_parenthesized context && byte == b')') (λ _. one-Scanned _)
                λ _. if-Scanned (is_arithmetic context && starts_with l (b')' ∷ b')' ∷ [])) two λ _.
                  if-Scanned (is_arithmetic context && byte == b'(')
                    (λ _. push_one-Scanned stack parenthesis) λ _. one-Scanned stack
    where
      two :
          (is_arithmetic context && starts_with l (b')' ∷ b')' ∷ [])) ≡ true
          → Scanned l (scanned (advance_count l 2) (pop_context stack))
      two t = scanned-Scanned _ (
          Moves-weaken 1
            (advance_count-Moves 2 v (
              starts_with-le (b')' ∷ b')' ∷ []) v
                (and_right (is_arithmetic context) (starts_with l (b')' ∷ b')' ∷ [])) t)))
            (omega arith))
