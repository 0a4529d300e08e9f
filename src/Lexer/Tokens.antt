-- ===== src/Lexer/Tokens.antt =====
-- What `gsh_lexer_next` answers: it always returns, and a token that it accepts is where it says.
use gsh.Prelude.{
  ℕ, ◌+◌, ◌≤◌, ◌<◌, ◌^◌, ◌≡◌, ◌≢◌, refl, sym, ap, ◌∙◌, arith, if◌then◌else◌, ◌==◌, not, Bool, true,
  false, List, Option, some, none, length,
}
use gsh.Lexer.{
  eof, word, newline, LexStatus, ok, invalid, limit, Token, Lexer, OperatorDefinition, byte_at,
  trivia_step_cap, operator_at,
}
use gsh.Lexer.Position.{
  IsValid, Moves, Moves-trans, Moves-weaken, stay-Moves, status-Moves, advance_one-Moves,
  advance_count-Moves, starts_with-le, line_at, column_at,
}
use gsh.Lexer.Word.{scan_word}
use gsh.Lexer.Progress.{Ended, scan_word-Ended}
use gsh.Lexer.Reasons.{Told, scan_word-Told}
use gsh.Lexer.Munch.{is_eof, operator_at-Entry}
use gsh.Lexer.Trivia.{skip_trivia-Skipped}
use gsh.Lexer.Next.{
  Next, failed, accepted, finish_word, operator_or_word, next_token, is_ok, skip_trivia, lexer_init,
  lexer_next, token_here,
}

-- A token of the input behind `l`: from `begin` to `end`, where the new lexer stands, at the line
-- and column of its first byte; empty only at the end of the input.
pub record IsToken (l : Lexer) (r : Next) : Type 0 where
  pub starts : l.offset ≤ r.token.begin
  pub ends : r.token.end ≡ r.lexer.offset
  pub filled : is_eof r.token.kind ≡ false → r.token.begin < r.token.end
  pub at_eof : is_eof r.token.kind ≡ true → (r.token.begin ≡ l.size) × (r.token.end ≡ l.size)
  pub line_eq : r.token.line ≡ line_at l.input r.token.begin
  pub column_eq : r.token.column ≡ column_at l.input r.token.begin

abbrev pub Answers : Lexer → Option Next → Type 0
Answers l none = ⊥
Answers l (some r) = Moves 0 l r.lexer × (r.status ≡ ok → IsToken l r)

if-Answers :
    (l : Lexer) (b : Bool) (r t : Option Next)
    → (b ≡ true → Answers l r)
    → (b ≡ false → Answers l t)
    → Answers l (if b then r else t)
if-Answers l true r t p q = p refl
if-Answers l false r t p q = q refl

-- A token that stands at the lexer itself.
record Here (l : Lexer) (t : Token) : Type 0 where
  begin_eq : t.begin ≡ l.offset
  line_eq : t.line ≡ l.line
  column_eq : t.column ≡ l.column
  not_eof : is_eof t.kind ≡ false

failed-Answers :
    {l m : Lexer} (s : LexStatus) (t : Token)
    → Moves 0 l m
    → s ≢ ok
    → Answers l (some (failed s m t))
failed-Answers {l} {m} s t p h =
    (Moves-trans 0 p (status-Moves s m.offset p.valid) (omega arith), λ e. absurd (h e))

accepted-Answers :
    {l m : Lexer} (t : Token)
    → IsValid l
    → Here l t
    → Moves 0 l m
    → l.offset < m.offset
    → Answers l (some (accepted m t))
accepted-Answers {l} t v h p far = (
  p,
  λ _. record {
    starts = omega (arith, h.begin_eq);
    ends = refl;
    filled = λ _. omega (arith, h.begin_eq);
    at_eof = λ e. absurd (cc (e, h.not_eof));
    line_eq = h.line_eq ∙ v.line_eq ∙ ap (line_at l.input) (sym h.begin_eq);
    column_eq = h.column_eq ∙ v.column_eq ∙ ap (column_at l.input) (sym h.begin_eq);
  },
)

finish_word-Answers :
    {l : Lexer} (t : Token) (o : Option (Lexer × Bool))
    → IsValid l
    → Here l t
    → Ended l o
    → Told o
    → Answers l (finish_word t o)
unfolding finish_word
finish_word-Answers t none v h e told = e
finish_word-Answers t (some (m, false)) v h e told = (e, λ fine. absurd (told refl fine))
finish_word-Answers {l} t (some (m, true)) v h e told =
    if-Answers l (m.offset == t.begin) _ _ (λ _. failed-Answers invalid _ e (λ c. cc c))
      (λ other. accepted-Answers t v h e (ground (arith, h.begin_eq, e.far)))

operator_or_word-Answers :
    {l : Lexer} (o : Option OperatorDefinition) (t : Token)
    → IsValid l
    → operator_at l ≡ o
    → t.begin ≡ l.offset
    → t.line ≡ l.line
    → t.column ≡ l.column
    → Answers l (operator_or_word o l t)
unfolding operator_or_word
operator_or_word-Answers {l} none t v e b i c =
    finish_word-Answers (record t { kind = word }) (scan_word l) v
      (record { begin_eq = b; line_eq = i; column_eq = c; not_eof = refl }) (scan_word-Ended v)
      (scan_word-Told v)
operator_or_word-Answers {l} (some o) t v e b i c =
    let (long, kind, there) = operator_at-Entry l e in
    let m = advance_count-Moves (length o.text) v (starts_with-le o.text v there) in
    accepted-Answers (record t { kind = o.kind }) v
      (record { begin_eq = b; line_eq = i; column_eq = c; not_eof = kind })
      (Moves-weaken 0 m (omega arith)) (omega (arith, m.far))

at_end-Answers :
    {l : Lexer} (t : Token)
    → IsValid l
    → l.offset ≡ l.size
    → Answers l (some (record { lexer = l; token = token_here l eof; status = ok }))
at_end-Answers t v h = (
  stay-Moves v,
  λ _. record {
    starts = omega arith;
    ends = refl;
    filled = λ e. absurd (cc e);
    at_eof = λ _. (h, h);
    line_eq = v.line_eq;
    column_eq = v.column_eq;
  },
)

next_token-Answers : {l : Lexer} (old : Token) → IsValid l → Answers l (next_token l old)
unfolding next_token
next_token-Answers {l} old v =
    if-Answers l (l.offset == l.size) _ _ (λ h. at_end-Answers old v (ground arith))
      λ more.
        if-Answers l (byte_at l == 0) _ _ (λ _. failed-Answers invalid _ (stay-Moves v) (λ c. cc c))
          λ _.
            if-Answers l (byte_at l == b'\n') _ _
              (λ _.
                let one = advance_one-Moves v (ground (arith, v.offset_le)) in
                accepted-Answers (token_here l newline) v
                  (record { begin_eq = refl; line_eq = refl; column_eq = refl; not_eof = refl })
                  (Moves-weaken 0 one (omega arith)) (omega (arith, one.far)))
              (λ _.
                operator_or_word-Answers (operator_at l) (token_here l old.kind) v refl refl refl
                  refl)

IsToken-after : {l m : Lexer} (r : Next) → Moves 0 l m → IsToken m r → IsToken l r
IsToken-after {l} {m} r p t = record {
  starts = omega (arith, p.far, t.starts);
  ends = t.ends;
  filled = t.filled;
  at_eof = λ e. rw (← p.size_same) (t.at_eof e);
  line_eq = rw (← p.input_eq) t.line_eq;
  column_eq = rw (← p.input_eq) t.column_eq;
}

Answers-after : {l m : Lexer} (o : Option Next) → Moves 0 l m → Answers m o → Answers l o
Answers-after none p a = a
Answers-after (some r) p a = (Moves-trans 0 p a.0 (omega arith), λ e. IsToken-after r p (a.1 e))

is_ok-lem : (s : LexStatus) → is_ok s ≡ false → s ≢ ok
is_ok-lem s h e = cc (h, e)

-- `gsh_lexer_next` always returns. It leaves a valid lexer on the same input, no further back, and
-- what it accepts is a token behind the old offset that ends where the new lexer stands, that is
-- empty exactly at the end of the input, and that carries the line and the column of its first byte.
pub lexer_next-Answers : {l : Lexer} (old : Token) → IsValid l → Answers l (lexer_next l old)
unfolding lexer_next
lexer_next-Answers {l} old v =
    if-Answers l (not (is_ok l.status)) _ _
      (λ h. (stay-Moves v, λ e. absurd (is_ok-lem l.status (ground arith) e)))
      λ _.
        let s = skip_trivia-Skipped trivia_step_cap v in
        if-Answers l (skip_trivia trivia_step_cap l).1 _ _
          (λ _.
            Answers-after (next_token (skip_trivia trivia_step_cap l).0 old) s.moves
              (next_token-Answers old s.moves.valid))
          (λ _. failed-Answers limit old s.moves (λ c. cc c))

-- A new lexer is valid, on an input that has a byte to spare in a `size_t`.
pub lexer_init-IsValid :
    (input : List ℕ) (size : ℕ)
    → size ≡ length input
    → size + 1 < 2 ^ 64
    → IsValid (lexer_init input size)
unfolding lexer_init
lexer_init-IsValid input size e h = record {
  size_eq = e;
  size_lt = h;
  offset_le = omega arith;
  line_eq = refl;
  column_eq = refl;
}
