-- ===== src/Lexer/Quotes.antt =====
-- A text in single quotes is one word, whatever shell syntax it holds.
use gsh.Prelude.{
  ℕ, zero, suc, ◌+◌, ◌-◌, ◌≡◌, refl, ap, ◌∙◌, arith, ◌&&◌, not, Bool, true, false, take, is_prefix,
  List, [], ◌∷◌, ◌++◌, some, none, length, length-drop, length-append,
}
use gsh.Lexer.{
  word, ok, Token, Lexer, single, OperatorDefinition, advance_one, advance_count, operator_at,
  push_context, operators, starts_with, operator_in,
}
use gsh.Lexer.Position.{IsValid, offset-advance_count}
use gsh.Lexer.Word.{
  ends_word, scan_plain_word_byte, push_and_advance, scan_word, scan_round, scan_byte, next,
}
use gsh.Lexer.Trivia.{AtToken, goes_on}
use gsh.Lexer.Next.{
  accepted, finish_word, operator_or_word, next_token, is_ok, skip_trivia, lexer_next, token_here,
  advance_while, skip_blanks, is_blank, at_continuation, at_comment,
}
use gsh.Lexer.Progress.{scan_word_within}
use gsh.Lexer.Rounds.{
  ahead, Quotable, Ahead, ahead-cons, scan_word_from-next, scan_word_from-return, fuel_eq,
  rounds-Quoted, EndsWord, end_round,
}

-- No operator of the table begins with `c`.
abbrev no_head : ℕ → List OperatorDefinition → Bool
no_head c [] = true
no_head c (o ∷ table) = not (is_prefix (take 1 o.text) (c ∷ [])) && no_head c table

starts_with-head :
    (l : Lexer) {c : ℕ} {r : List ℕ} (text : List ℕ)
    → ahead l ≡ c ∷ r
    → is_prefix (take 1 text) (c ∷ []) ≡ false
    → starts_with l text ≡ false
unfolding starts_with
starts_with-head l [] h k = absurd (cc k)
starts_with-head l (d ∷ text) h k = rw h (ground arith)

operator_in-none :
    (table : List OperatorDefinition) (l : Lexer) {c : ℕ} {r : List ℕ}
    → ahead l ≡ c ∷ r
    → no_head c table ≡ true
    → operator_in table l ≡ none
unfolding operator_in
operator_in-none [] l h k = refl
operator_in-none (o ∷ table) l h k =
    rw (starts_with-head l o.text h (ground arith)) (operator_in-none table l h (ground arith))

operator_at-none :
    (l : Lexer) {c : ℕ} {r : List ℕ}
    → ahead l ≡ c ∷ r
    → no_head c operators ≡ true
    → operator_at l ≡ none
unfolding operator_at
operator_at-none l h k = operator_in-none operators l h k

-- The opening quote is no blank, no operator and no NUL.
opening_round :
    {l : Lexer} {r : List ℕ}
    → Ahead l b'\'' r
    → operator_at l ≡ none
    → scan_round l [] ≡ next (advance_one l) (single ∷ [])
unfolding scan_round scan_byte ends_word scan_plain_word_byte push_and_advance push_context
    advance_count
opening_round {l} {r} a none_ = ground (arith, a.byte_eq, a.within)

-- `scan_word` over a text in single quotes, with the end of a word behind it.
scan_word_quoted :
    {l : Lexer} (body rest : List ℕ)
    → IsValid l
    → ahead l ≡ b'\'' ∷ (body ++ (b'\'' ∷ rest))
    → Quotable body
    → EndsWord rest
    → operator_at l ≡ none
    → (scan_word l ≡ some (advance_count l (length body + 2), true))
      × ((advance_count l (length body + 2)).offset ≡ l.offset + (length body + 2))
unfolding advance_count
scan_word_quoted {l} body rest v h q e none_ =
    let a = ahead-cons v h in
    let inside = rounds-Quoted body [] a.valid a.ahead_eq q in
    let left : length body + 2 + length rest ≡ l.size - l.offset = omega (
      arith,
      ap length h,
      length-drop l.offset l.input,
      length-append body (b'\'' ∷ rest),
      v.size_eq,
    ) in
    let k = l.size - (length body + 2) in
    let count : length body + 2 ≡ suc (suc (length body)) = omega arith in
    (
      scan_word_within v
          ∙ rw count (
              fuel_eq _ (suc (suc (length body) + suc k)) _ _ (omega arith) (
                scan_word_from-next _ _ _ (opening_round a none_)
                ∙ inside.runs (suc k)
                ∙ scan_word_from-return k _ _ (end_round rest inside.valid inside.ahead_eq e))),
      offset-advance_count (length body + 2) v (omega arith),
    )

advance_while-stay :
    (n : ℕ) (test : ℕ → Bool) (l : Lexer) → goes_on test l ≡ false → advance_while n test l ≡ l
unfolding advance_while
advance_while-stay zero test l h = refl
advance_while-stay (suc n) test l h = rw (h, advance_while)

skip_blanks-stay : (l : Lexer) → goes_on is_blank l ≡ false → skip_blanks l ≡ l
unfolding skip_blanks
skip_blanks-stay l h = advance_while-stay l.size is_blank l h

skip_trivia_done :
    (steps : ℕ) (l : Lexer)
    → at_continuation (skip_blanks l) ≡ false
    → at_comment (skip_blanks l) ≡ false
    → skip_trivia (suc steps) l ≡ (skip_blanks l, true)
unfolding skip_trivia
skip_trivia_done steps l a b = rw (a, skip_trivia) (rw (b, skip_trivia))

skip_trivia-stay : (steps : ℕ) {l : Lexer} → AtToken l → skip_trivia (suc steps) l ≡ (l, true)
skip_trivia-stay steps {l} a =
    let e = skip_blanks-stay l a.no_blank in
    skip_trivia_done steps l (ap at_continuation e ∙ a.no_continuation)
      (ap at_comment e ∙ a.no_comment)
    ∙ ap (λ m. (m, true)) e

quote-AtToken : {l : Lexer} {r : List ℕ} → Ahead l b'\'' r → AtToken l
quote-AtToken {l} a = record {
  no_blank = ground (arith, a.byte_eq);
  no_continuation = ground (arith, a.byte_eq);
  no_comment = ground (arith, a.byte_eq);
}

-- With nothing to skip the token begins at the lexer.
lexer_next-stay :
    {l : Lexer} (old : Token) → l.status ≡ ok → AtToken l → lexer_next l old ≡ next_token l old
unfolding lexer_next
lexer_next-stay {l} old s a = rw (ap is_ok s) (rw (skip_trivia-stay 1048576 a))

next_token_quoted :
    {l m : Lexer} {r : List ℕ} (old : Token) (n : ℕ)
    → Ahead l b'\'' r
    → operator_at l ≡ none
    → scan_word l ≡ some (m, true)
    → m.offset ≡ l.offset + suc n
    → next_token l old ≡ some (accepted m (record (token_here l word) { end = m.offset }))
unfolding next_token operator_or_word finish_word
next_token_quoted {l} {m} old n a none_ scans moved = ground (arith, a.byte_eq, a.within)

-- Before a text in single quotes, with the end of the input, a blank or a newline behind it, the
-- scanner accepts one word that spans the quotes and all between them. The text may hold any bytes
-- but NUL and the quote itself.
pub lexer_next-quoted :
    {l : Lexer} (old : Token) (body rest : List ℕ)
    → IsValid l
    → l.status ≡ ok
    → ahead l ≡ b'\'' ∷ (body ++ (b'\'' ∷ rest))
    → Quotable body
    → EndsWord rest
    → lexer_next l old
      ≡ some (record {
        lexer = advance_count l (length body + 2);
        token = record {
          kind = word;
          begin = l.offset;
          end = l.offset + (length body + 2);
          line = l.line;
          column = l.column;
        };
        status = ok;
      })
lexer_next-quoted {l} old body rest v s h q e =
    let a = ahead-cons v h in
    let none_ = operator_at-none l h refl in
    let (scans, moved) = scan_word_quoted body rest v h q e none_ in
    lexer_next-stay old s (quote-AtToken a)
    ∙ next_token_quoted old (length body + 1) a none_ scans (omega arith)
    ∙ (λ i. some (record {
      lexer = advance_count l (length body + 2);
      token = record (token_here l word) { end = moved i };
      status = ok;
    }))
