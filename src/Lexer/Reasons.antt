-- ===== src/Lexer/Reasons.antt =====
-- When the scanner of a word returns false, the lexer's status says why.
use gsh.Prelude.{
  ℕ, zero, suc, [], ◌∷◌, ◌≡◌, ◌≢◌, refl, sym, arith, ◌==◌, if◌then◌else◌, ltb, Bool, true, false,
  Option, some, none, length,
}
use mathlib.Core.Path.{subst}
use gsh.Lexer.{
  ok, Lexer, ContextKind, single, double, dollar_single, backquote, parenthesis, ContextStack,
  byte_at, Scan, push_context,
}
use gsh.Lexer.Word.{
  push_and_advance, begin_substitution, substitute_or_advance, scan_plain_word_byte, scan_in_quotes,
  scan_quoted_word_byte, scan_closing, scan_nested_word_byte, is_quoted, Round, next, return,
  round_of, ends_word, scan_byte, scan_round, scan_word_from, scan_word,
}
use gsh.Lexer.Position.{IsValid}
use gsh.Lexer.Progress.{scan_word_within}

abbrev HasReason : Scan → Type 0
HasReason s = s.result ≡ false → s.lexer.status ≢ ok

push_and_advance-HasReason :
    (l : Lexer) (stack : ContextStack) (context : ContextKind) (n : ℕ)
    → HasReason (push_and_advance l stack context n)
unfolding push_and_advance push_context
push_and_advance-HasReason l stack context n = ground arith

substitute_or_advance-true :
    (l : Lexer) (stack : ContextStack) (byte : ℕ)
    → (substitute_or_advance l stack byte).result ≡ true
unfolding substitute_or_advance
substitute_or_advance-true l stack byte = ground arith

scan_plain-HasReason : (l : Lexer) (byte : ℕ) → HasReason (scan_plain_word_byte l [] byte)
unfolding scan_plain_word_byte
scan_plain-HasReason l byte = ground (
  arith,
  push_and_advance-HasReason l [] single 1,
  push_and_advance-HasReason l [] double 1,
  push_and_advance-HasReason l [] backquote 1,
  substitute_or_advance-true l [] byte,
)

in_double-HasReason :
    (l : Lexer) (stack : ContextStack) (byte : ℕ) → HasReason (scan_in_quotes double l stack byte)
unfolding scan_in_quotes
in_double-HasReason l stack byte =
    ground (
      arith,
      push_and_advance-HasReason l stack backquote 1,
      substitute_or_advance-true l stack byte,
    )

scan_in_quotes-HasReason :
    (context : ContextKind) (l : Lexer) (stack : ContextStack) (byte : ℕ)
    → HasReason (scan_in_quotes context l stack byte)
unfolding scan_in_quotes
scan_in_quotes-HasReason single l stack byte = ground arith
scan_in_quotes-HasReason dollar_single l stack byte = ground arith
scan_in_quotes-HasReason backquote l stack byte = ground arith
scan_in_quotes-HasReason _ l stack byte = in_double-HasReason l stack byte

scan_closing-HasReason :
    (l : Lexer) (stack : ContextStack) (context : ContextKind) (byte : ℕ)
    → HasReason (scan_closing l stack context byte)
unfolding scan_closing
scan_closing-HasReason l stack context byte =
    ground (arith, push_and_advance-HasReason l stack parenthesis 1)

scan_nested-HasReason :
    (l : Lexer) (context top : ContextKind) (below : ContextStack) (byte : ℕ)
    → HasReason (scan_nested_word_byte l (top ∷ below) context byte)
unfolding scan_nested_word_byte
scan_nested-HasReason l context top below byte =
    let stack = top ∷ below in
    let s = begin_substitution l stack in
    ground (
      arith,
      push_and_advance-HasReason l stack single 1,
      push_and_advance-HasReason l stack double 1,
      push_and_advance-HasReason l stack backquote 1,
      scan_closing-HasReason l stack context byte,
      scan_closing-HasReason s.lexer s.stack context byte,
    )

abbrev pub Reasoned : Round → Type 0
Reasoned (next l stack) = Unit
Reasoned (return l result) = result ≡ false → l.status ≢ ok

round_of-Reasoned : (s : Scan) → HasReason s → Reasoned (round_of s)
round_of-Reasoned s h = ground (arith, h)

if-Reasoned :
    (b : Bool) (r t : Round)
    → (b ≡ true → Reasoned r)
    → (b ≡ false → Reasoned t)
    → Reasoned (if b then r else t)
if-Reasoned true r t p q = p refl
if-Reasoned false r t p q = q refl

scan_quoted-HasReason :
    (l : Lexer) (context top : ContextKind) (below : ContextStack) (byte : ℕ)
    → HasReason (scan_quoted_word_byte l (top ∷ below) context byte)
unfolding scan_quoted_word_byte
scan_quoted-HasReason l context top below byte =
    ground (arith, scan_in_quotes-HasReason context l (top ∷ below) byte)

scan_byte-Reasoned :
    (l : Lexer) (stack : ContextStack) (byte : ℕ) → Reasoned (scan_byte l stack byte)
unfolding scan_byte
scan_byte-Reasoned l [] byte =
    if-Reasoned (ends_word l byte) _ _ (λ _ e. absurd (cc e))
      (λ _. round_of-Reasoned _ (scan_plain-HasReason l byte))
scan_byte-Reasoned l (context ∷ below) byte =
    if-Reasoned (is_quoted context) _ _
      (λ _. round_of-Reasoned _ (scan_quoted-HasReason l context context below byte))
      (λ _. round_of-Reasoned _ (scan_nested-HasReason l context context below byte))

scan_round-Reasoned : (l : Lexer) (stack : ContextStack) → Reasoned (scan_round l stack)
unfolding scan_round
scan_round-Reasoned l stack =
    if-Reasoned (ltb l.offset l.size) _ _
      (λ _.
        if-Reasoned (byte_at l == 0) _ _ (λ _ _. ground arith)
          (λ _. scan_byte-Reasoned l stack (byte_at l)))
      (λ _. if-Reasoned (length stack == 0) _ _ (λ _ e. absurd (cc e)) (λ _ _. ground arith))

abbrev pub Told : Option (Lexer × Bool) → Type 0
Told none = Unit
Told (some (l, result)) = result ≡ false → l.status ≢ ok

pub scan_word_from-Told :
    (fuel : ℕ) (l : Lexer) (stack : ContextStack) → Told (scan_word_from fuel l stack)
unfolding scan_word_from
scan_word_from-Told zero l stack = tt
scan_word_from-Told (suc fuel) l stack =
    after (scan_round l stack) (scan_round-Reasoned l stack) (scan_word_from-Told fuel)
  where
    after :
        (r : Round)
        → Reasoned r
        → ((l' : Lexer) (stack' : ContextStack) → Told (scan_word_from fuel l' stack'))
        → Told (elim r [
          | next l' stack' ↦ scan_word_from fuel l' stack'
          | return l' result ↦ some (l', result)
        ])
    after (next l' stack') m ih = ih l' stack'
    after (return l' result) m ih = m

pub scan_word-Told : {l : Lexer} → IsValid l → Told (scan_word l)
scan_word-Told {l} v = subst Told (sym (scan_word_within v)) (scan_word_from-Told (suc l.size) l [])
