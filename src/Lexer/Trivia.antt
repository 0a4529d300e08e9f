-- ===== src/Lexer/Trivia.antt =====
-- Blanks, line continuations and comments: the loop of `gsh_lexer_next` before a token.
use gsh.Prelude.{
  ℕ, zero, suc, ◌+◌, ◌≤◌, ◌<◌, ◌≡◌, refl, arith, ◌&&◌, ltb, Bool, true, false, Bool-cases, inl, inr,
}
use gsh.Lexer.{Lexer, byte_at, advance_count}
use gsh.Lexer.Position.{
  IsValid, Moves, Moves-trans, stay-Moves, advance_one-Moves, advance_count-Moves,
}
use gsh.Lexer.Next.{
  advance_while, is_blank, is_comment, skip_blanks, skip_comment, at_continuation, at_comment,
  skip_trivia,
}

abbrev pub goes_on : (ℕ → Bool) → Lexer → Bool
goes_on test l = ltb l.offset l.size && test (byte_at l)

goes_on-lt : (test : ℕ → Bool) (l : Lexer) → goes_on test l ≡ true → l.offset < l.size
goes_on-lt test l h = ground arith

-- With a round for each byte that is left the loop ends by its test, inside the input.
pub advance_while_lem :
    (n : ℕ) (test : ℕ → Bool) {l : Lexer}
    → IsValid l
    → l.size ≤ l.offset + n
    → Moves 0 l (advance_while n test l) × (goes_on test (advance_while n test l) ≡ false)
unfolding advance_while
advance_while_lem zero test {l} v h = (stay-Moves v, ground arith)
advance_while_lem (suc n) test {l} v h = elim (Bool-cases (goes_on test l)) [
  | inl more ↦
      let one = advance_one-Moves v (goes_on-lt test l more) in
      let (m, stop) = advance_while_lem n test one.valid (omega (arith, one.far, one.size_same)) in
      rw (more, advance_while) (Moves-trans 0 one m (omega arith), stop)
  | inr stop ↦ rw (stop, advance_while) (stay-Moves v, stop)
]

advance_while-Moves_one :
    (n : ℕ) (test : ℕ → Bool) {l : Lexer}
    → IsValid l
    → l.size ≤ l.offset + n
    → goes_on test l ≡ true
    → Moves 1 l (advance_while n test l)
unfolding advance_while
advance_while-Moves_one zero test {l} v h more = absurd (omega (arith, goes_on-lt test l more))
advance_while-Moves_one (suc n) test {l} v h more =
    let one = advance_one-Moves v (goes_on-lt test l more) in
    let (m, _) = advance_while_lem n test one.valid (omega (arith, one.far, one.size_same)) in
    rw (more, advance_while) (Moves-trans 1 one m (omega arith))

skip_blanks_lem :
    {l : Lexer} → IsValid l → Moves 0 l (skip_blanks l) × (goes_on is_blank (skip_blanks l) ≡ false)
unfolding skip_blanks
skip_blanks_lem {l} v = advance_while_lem l.size is_blank v (omega arith)

skip_comment-Moves : {l : Lexer} → IsValid l → at_comment l ≡ true → Moves 1 l (skip_comment l)
unfolding skip_comment
skip_comment-Moves {l} v h =
    advance_while-Moves_one l.size is_comment v (omega arith) (ground arith)

continuation-Moves :
    {l : Lexer} → IsValid l → at_continuation l ≡ true → Moves 2 l (advance_count l 2)
continuation-Moves {l} v h = advance_count-Moves 2 v (ground arith)

-- The lexer stands at the end, or at a byte with which a token begins.
pub record AtToken (l : Lexer) : Type 0 where
  pub no_blank : goes_on is_blank l ≡ false
  pub no_continuation : at_continuation l ≡ false
  pub no_comment : at_comment l ≡ false

-- The loop over trivia, with `broke`, whether it ended before its cap on steps.
pub record Skipped (steps : ℕ) (l : Lexer) (r : Lexer × Bool) : Type 0 where
  pub moves : Moves 0 l r.0
  pub at_token : r.1 ≡ true → AtToken r.0
  pub broke : l.size < l.offset + steps → r.1 ≡ true

Skipped-step :
    {i j steps : ℕ} {l m n : Lexer} (r : Lexer × Bool)
    → Moves i l m
    → Moves (suc j) m n
    → Skipped steps n r
    → Skipped (suc steps) l r
Skipped-step r p q s = record {
  moves = Moves-trans 0 p (Moves-trans 0 q s.moves (omega arith)) (omega arith);
  at_token = s.at_token;
  broke = λ h. s.broke (omega (arith, p.far, q.far, p.size_same, q.size_same));
}

pub skip_trivia-Skipped :
    (steps : ℕ) {l : Lexer} → IsValid l → Skipped steps l (skip_trivia steps l)
unfolding skip_trivia
skip_trivia-Skipped zero {l} v = record {
  moves = stay-Moves v;
  at_token = λ h. absurd (cc h);
  broke = λ h. absurd (omega (arith, v.offset_le));
}
skip_trivia-Skipped (suc steps) {l} v =
    let (m, no_blank) = skip_blanks_lem v in
    elim (Bool-cases (at_continuation (skip_blanks l))) [
      | inl a ↦
          let two = continuation-Moves m.valid a in
          rw (a, skip_trivia) (Skipped-step _ m two (skip_trivia-Skipped steps two.valid))
      | inr a ↦
          rw (a, skip_trivia)
            (elim (Bool-cases (at_comment (skip_blanks l))) [
              | inl b ↦
                  let some_ = skip_comment-Moves m.valid b in
                  rw (b, skip_trivia)
                    (Skipped-step _ m some_ (skip_trivia-Skipped steps some_.valid))
              | inr b ↦
                  rw (b, skip_trivia)
                    (record {
                      moves = m;
                      at_token =
                          λ _. record { no_blank = no_blank; no_continuation = a; no_comment = b };
                      broke = λ _. refl;
                    })
            ])
    ]

-- When the input has fewer bytes left than the loop has steps, the loop over blanks, line
-- continuations and comments ends before its cap, in the input and before a token.
pub skip_trivia-AtToken :
    (steps : ℕ) {l : Lexer}
    → IsValid l
    → l.size < l.offset + steps
    → ((skip_trivia steps l).1 ≡ true)
      × AtToken (skip_trivia steps l).0
      × Moves 0 l (skip_trivia steps l).0
skip_trivia-AtToken steps v h =
    let s = skip_trivia-Skipped steps v in (s.broke h, s.at_token (s.broke h), s.moves)
