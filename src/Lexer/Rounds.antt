-- ===== src/Lexer/Rounds.antt =====
-- The rounds of the word scanner inside single quotes.
use gsh.Prelude.{
  ℕ, zero, suc, ◌+◌, ◌<◌, ◌≡◌, ◌≢◌, ap, ◌∙◌, arith, if◌then◌else◌, ◌==◌, Bool, true, ◌⊎◌, get_or,
  drop, List, [], ◌∷◌, ◌++◌, Option, some, length, length-drop,
}
use gsh.Lexer.{Lexer, single, ContextStack, byte_at, advance_one, advance_count, pop_context}
use gsh.Lexer.Position.{IsValid, advance_one-Moves, advance_one_frame, offset-advance_one}
use gsh.Lexer.Word.{
  ends_word, scan_word_from, scan_round, scan_byte, scan_quoted_word_byte, next, return,
}

-- the bytes that the lexer has not read
abbrev pub ahead : Lexer → List ℕ
ahead l = drop l.offset l.input

-- Neither the end of a C string nor the closing quote.
abbrev pub Quotable : List ℕ → Type 0
Quotable [] = Unit
Quotable (c ∷ cs) = (c ≢ 0) × (c ≢ b'\'') × Quotable cs

drop-cons :
    (n : ℕ) (xs : List ℕ) {c : ℕ} {r : List ℕ}
    → drop n xs ≡ c ∷ r
    → (get_or xs n 0 ≡ c) × (n < length xs) × (drop (suc n) xs ≡ r)
drop-cons zero [] h = absurd (cc h)
drop-cons (suc n) [] h = absurd (cc h)
drop-cons zero (x ∷ xs) h = (ground arith, omega arith, ground arith)
drop-cons (suc n) (x ∷ xs) h = let (a, b, c) = drop-cons n xs h in (a, omega arith, c)

-- The next byte, and what is ahead behind it.
pub record Ahead (l : Lexer) (c : ℕ) (r : List ℕ) : Type 0 where
  pub valid : IsValid (advance_one l)
  pub byte_eq : byte_at l ≡ c
  pub within : l.offset < l.size
  pub ahead_eq : ahead (advance_one l) ≡ r

pub ahead-cons : {l : Lexer} {c : ℕ} {r : List ℕ} → IsValid l → ahead l ≡ c ∷ r → Ahead l c r
ahead-cons {l} {c} {r} v h =
    let (byte, inside, rest) = drop-cons l.offset l.input h in
    let within : l.offset < l.size = omega (arith, v.size_eq) in
    record {
      valid = (advance_one-Moves v within).valid;
      byte_eq = byte;
      within = within;
      ahead_eq = rw (offset-advance_one v within, (advance_one_frame l).0) rest;
    }

-- A round inside single quotes, at a byte that is not a NUL.
quoted_round :
    {l : Lexer} {c : ℕ} {r : List ℕ} (below : ContextStack)
    → Ahead l c r
    → c ≢ 0
    → scan_round l (single ∷ below)
      ≡ next (advance_one l) (if c == b'\'' then below else single ∷ below)
unfolding scan_round scan_byte scan_quoted_word_byte pop_context
quoted_round {l} {c} below a h = ground (arith, a.byte_eq, a.within, h)

pub scan_word_from-next :
    (fuel : ℕ) (l : Lexer) (stack : ContextStack) {l' : Lexer} {stack' : ContextStack}
    → scan_round l stack ≡ next l' stack'
    → scan_word_from (suc fuel) l stack ≡ scan_word_from fuel l' stack'
unfolding scan_word_from
scan_word_from-next fuel l stack e = rw (e, scan_word_from)

pub scan_word_from-return :
    (fuel : ℕ) (l : Lexer) (stack : ContextStack) {l' : Lexer} {result : Bool}
    → scan_round l stack ≡ return l' result
    → scan_word_from (suc fuel) l stack ≡ some (l', result)
unfolding scan_word_from
scan_word_from-return fuel l stack e = rw (e, scan_word_from)

-- What the rounds over the quoted bytes and the closing quote do, with `fuel` rounds behind them.
pub record Quoted (n : ℕ) (rest : List ℕ) (l : Lexer) (below : ContextStack) : Type 0 where
  pub runs :
      (fuel : ℕ)
      → scan_word_from (suc n + fuel) l (single ∷ below)
        ≡ scan_word_from fuel (advance_count l (suc n)) below
  pub valid : IsValid (advance_count l (suc n))
  pub ahead_eq : ahead (advance_count l (suc n)) ≡ rest

pub fuel_eq :
    (f g : ℕ) (l : Lexer) (stack : ContextStack) {o : Option (Lexer × Bool)}
    → f ≡ g
    → scan_word_from g l stack ≡ o
    → scan_word_from f l stack ≡ o
fuel_eq f g l stack e h = rw e h

quoted_round_on :
    {l : Lexer} {c : ℕ} {r : List ℕ} (below : ContextStack)
    → Ahead l c r
    → c ≢ 0
    → c ≢ b'\''
    → scan_round l (single ∷ below) ≡ next (advance_one l) (single ∷ below)
quoted_round_on {c = c} below a h k = quoted_round below a h ∙ ground arith

pub rounds-Quoted :
    (body : List ℕ) {rest : List ℕ} {l : Lexer} (below : ContextStack)
    → IsValid l
    → ahead l ≡ body ++ (b'\'' ∷ rest)
    → Quotable body
    → Quoted (length body) rest l below
unfolding advance_count
rounds-Quoted [] {l = l} below v h q =
    let a = ahead-cons v h in
    record {
      runs = λ fuel.
          fuel_eq _ (suc fuel) _ _ (omega arith)
            (scan_word_from-next fuel _ _ (quoted_round below a (λ e. absurd (omega arith))));
      valid = a.valid;
      ahead_eq = a.ahead_eq;
    }
rounds-Quoted (c ∷ cs) {l = l} below v h q =
    let a = ahead-cons v h in
    let more = rounds-Quoted cs below a.valid a.ahead_eq q.2 in
    record {
      runs = λ fuel. fuel_eq _ (suc (suc (length cs) + fuel)) _ _ (omega arith) (
          scan_word_from-next (suc (length cs) + fuel) _ _ (quoted_round_on below a q.0 q.1)
          ∙ more.runs fuel);
      valid = more.valid;
      ahead_eq = more.ahead_eq;
    }

-- what may stand behind a word
abbrev pub EndsWord : List ℕ → Type 0
EndsWord [] = Unit
EndsWord (c ∷ _) = (c ≡ b' ') ⊎ (c ≡ b'\t') ⊎ (c ≡ b'\n')

pub end_round :
    {l : Lexer} (rest : List ℕ)
    → IsValid l
    → ahead l ≡ rest
    → EndsWord rest
    → scan_round l [] ≡ return l true
unfolding scan_round scan_byte ends_word
end_round {l} [] v h e = ground (arith, length-drop l.offset l.input, ap length h, v.size_eq)
end_round {l} (c ∷ r) v h e = let a = ahead-cons v h in ground (arith, a.byte_eq, a.within)
