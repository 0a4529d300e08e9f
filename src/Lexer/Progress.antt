-- ===== src/Lexer/Progress.antt =====
-- The scanner of a word stays in its input and goes on by a byte at least in every round, so that
-- the fuel of `scan_word` suffices.
use gsh.Prelude.{
  ℕ, zero, suc, ◌+◌, ◌<◌, [], ◌∷◌, ◌≡◌, refl, sym, inl, inr, Bool-cases, arith, ◌==◌, if◌then◌else◌,
  ltb, Bool, true, false, Option, some, none, ltb→lt, length,
}
use mathlib.Core.Path.{subst}
use gsh.Lexer.{
  incomplete, invalid, Lexer, ContextKind, single, double, backquote, ContextStack, byte_at, Scan,
}
use gsh.Lexer.Position.{IsValid, Moves, Moves-trans, stay-Moves, status-Moves}
use gsh.Lexer.Word.{
  begin_substitution, scan_quoted_word_byte, scan_closing, scan_nested_word_byte, is_quoted, Round,
  next, return, round_of, ends_word, scan_byte, scan_round, scan_word_from, scan_word,
}
use gsh.Lexer.Scanned.{
  scan_closing-Scanned, push_one-Scanned, escape-Scanned, scan_in_quotes-Scanned,
  scan_plain_word_byte-Scanned, Scanned, if-Scanned, begin_substitution-Scanned, or_else-Scanned,
  at_end, refused_here-Scanned,
}

scan_nested_word_byte-Scanned :
    {l : Lexer} (stack : ContextStack) (context : ContextKind) (byte : ℕ)
    → IsValid l
    → l.offset < l.size
    → Scanned l (scan_nested_word_byte l stack context byte)
unfolding scan_nested_word_byte
scan_nested_word_byte-Scanned {l} stack context byte v h =
    if-Scanned (length stack == 0) (λ _. refused_here-Scanned stack v)
      λ _.
        if-Scanned (byte == b'\\') (λ _. escape-Scanned v h stack)
          λ _.
            if-Scanned (byte == b'\'') (λ _. push_one-Scanned v h stack single)
              λ _.
                if-Scanned (byte == b'"') (λ _. push_one-Scanned v h stack double)
                  λ _.
                    if-Scanned (byte == 0x60) (λ _. push_one-Scanned v h stack backquote)
                      λ _.
                        if-Scanned (byte == b'$')
                          (λ _.
                            or_else-Scanned (begin_substitution l stack)
                              (λ l' stack'. scan_closing l' stack' context byte)
                              (begin_substitution-Scanned stack v)
                              (λ l' m e.
                                scan_closing-Scanned m.valid (at_end m e h) _ context byte))
                          (λ _. scan_closing-Scanned v h stack context byte)

scan_quoted_word_byte-Scanned :
    {l : Lexer} (stack : ContextStack) (context : ContextKind) (byte : ℕ)
    → IsValid l
    → l.offset < l.size
    → Scanned l (scan_quoted_word_byte l stack context byte)
unfolding scan_quoted_word_byte
scan_quoted_word_byte-Scanned stack context byte v h =
    if-Scanned (length stack == 0) (λ _. refused_here-Scanned stack v)
      (λ _. scan_in_quotes-Scanned v h context stack byte)

-- A round that goes on has moved by a byte at least; one that returns has moved inside the input.
abbrev pub Rounded : Lexer → Round → Type 0
Rounded l (next l' stack) = Moves 1 l l'
Rounded l (return l' result) = Moves 0 l l'

if-Rounded :
    (l : Lexer) (b : Bool) (r t : Round)
    → (b ≡ true → Rounded l r)
    → (b ≡ false → Rounded l t)
    → Rounded l (if b then r else t)
if-Rounded l true r t p q = p refl
if-Rounded l false r t p q = q refl

round_of-Rounded : {l : Lexer} (s : Scan) → Scanned l s → Rounded l (round_of s)
round_of-Rounded {l} s p = if-Rounded l s.result _ _ on (λ _. p.moves)
  where
    on : s.result ≡ true → Moves 1 l s.lexer
    on h = record {
      valid = p.moves.valid;
      input_eq = p.moves.input_eq;
      size_same = p.moves.size_same;
      far = omega (arith, p.progress h);
    }

scan_byte-Rounded :
    {l : Lexer} (stack : ContextStack) (byte : ℕ)
    → IsValid l
    → l.offset < l.size
    → Rounded l (scan_byte l stack byte)
unfolding scan_byte
scan_byte-Rounded {l} [] byte v h =
    if-Rounded l (ends_word l byte) _ _ (λ _. stay-Moves v)
      (λ _. round_of-Rounded _ (scan_plain_word_byte-Scanned v h [] byte))
scan_byte-Rounded {l} (context ∷ below) byte v h =
    if-Rounded l (is_quoted context) _ _
      (λ _. round_of-Rounded _ (scan_quoted_word_byte-Scanned (context ∷ below) context byte v h))
      (λ _. round_of-Rounded _ (scan_nested_word_byte-Scanned (context ∷ below) context byte v h))

pub scan_round-Rounded :
    {l : Lexer} (stack : ContextStack) → IsValid l → Rounded l (scan_round l stack)
unfolding scan_round
scan_round-Rounded {l} stack v =
    if-Rounded l (ltb l.offset l.size) _ _
      (λ more.
        if-Rounded l (byte_at l == 0) _ _ (λ _. status-Moves invalid l.offset v)
          (λ _. scan_byte-Rounded stack (byte_at l) v (ltb→lt _ _ more)))
      (λ _.
        if-Rounded l (length stack == 0) _ _ (λ _. stay-Moves v)
          (λ _. status-Moves incomplete l.offset v))

-- The word's scanner has returned, inside the input and not before `l`.
abbrev pub Ended : Lexer → Option (Lexer × Bool) → Type 0
Ended l none = ⊥
Ended l (some (l', result)) = Moves 0 l l'

Ended-trans : {l m : Lexer} (o : Option (Lexer × Bool)) → Moves 1 l m → Ended m o → Ended l o
Ended-trans none p q = q
Ended-trans (some (l', result)) p q = Moves-trans 0 p q (omega arith)

-- What a round leaves, the rounds behind it end, if `fuel` rounds end from any lexer further on.
Round-Ended :
    (fuel : ℕ) {l : Lexer}
    → IsValid l
    → l.size < l.offset + suc fuel
    → ((l' : Lexer) (stack' : ContextStack)
        → IsValid l'
        → l'.size < l'.offset + fuel
        → Ended l' (scan_word_from fuel l' stack'))
    → (r : Round) → Rounded l r
    → Ended l (elim r [
      | next l' stack' ↦ scan_word_from fuel l' stack'
      | return l' result ↦ some (l', result)
    ])
Round-Ended fuel v h ih (next l' stack') m =
    Ended-trans (scan_word_from fuel l' stack') m
      (ih l' stack' m.valid (omega (arith, m.far, m.size_same)))
Round-Ended fuel v h ih (return l' result) m = m

pub scan_word_from-Ended :
    (fuel : ℕ) {l : Lexer} (stack : ContextStack)
    → IsValid l
    → l.size < l.offset + fuel
    → Ended l (scan_word_from fuel l stack)
unfolding scan_word_from
scan_word_from-Ended zero stack v h = absurd (omega (arith, v.offset_le))
scan_word_from-Ended (suc fuel) {l} stack v h =
    Round-Ended fuel v h (λ l' stack' w k. scan_word_from-Ended fuel {l = l'} stack' w k)
      (scan_round l stack) (scan_round-Rounded stack v)

-- The guard of `scan_word` holds of a lexer that stands in its input.
pub scan_word_within : {l : Lexer} → IsValid l → scan_word l ≡ scan_word_from (suc l.size) l []
unfolding scan_word
scan_word_within {l} v = elim (Bool-cases (ltb l.size l.offset)) [
  | inl p ↦ absurd (ground (arith, p, v.offset_le))
  | inr p ↦ rw p refl
]

pub scan_word-Ended : {l : Lexer} → IsValid l → Ended l (scan_word l)
scan_word-Ended {l} v =
    subst (Ended l) (sym (scan_word_within v))
      (scan_word_from-Ended (suc l.size) [] v (omega arith))
