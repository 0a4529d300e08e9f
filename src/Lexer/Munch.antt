-- ===== src/Lexer/Munch.antt =====
-- The operator table: `operator_at` finds the longest operator that stands before the lexer.
use gsh.Prelude.{
  ℕ, ◌≤◌, ◌<◌, List, [], ◌∷◌, ◌≡◌, arith, Bool, true, false, Bool-cases, inl, inr, Option, some,
  none, length, ascii,
}
use mathlib.Core.Path.{subst}
use gsh.Lexer.{
  TokenKind, eof, word, newline, and_if, or_if, dsemi, semi_and, dless, dgreat, lessand, greatand,
  lessgreat, dlessdash, clobber, ampersand, semicolon, pipe, lparen, rparen, less, great, Lexer,
  OperatorDefinition, operators, starts_with, operator_in, operator_at,
}

abbrev pub AllOperators : (OperatorDefinition → Type 0) → List OperatorDefinition → Type 0
AllOperators P [] = Unit
AllOperators P (o ∷ table) = P o × AllOperators P table

-- Each entry is at least as long as those behind it.
abbrev Descending : List OperatorDefinition → Type 0
Descending [] = Unit
Descending (o ∷ table) = AllOperators (λ p. length p.text ≤ length o.text) table × Descending table

-- The kinds of tokens that are operators, and how the shell spells them.
abbrev pub is_operator : TokenKind → Bool
is_operator eof = false
is_operator word = false
is_operator newline = false
is_operator _ = true

abbrev pub spelling : TokenKind → List ℕ
spelling eof = []
spelling word = []
spelling newline = []
spelling and_if = ascii "&&"
spelling or_if = ascii "||"
spelling dsemi = ascii ";;"
spelling semi_and = ascii ";&"
spelling dless = ascii "<<"
spelling dgreat = ascii ">>"
spelling lessand = ascii "<&"
spelling greatand = ascii ">&"
spelling lessgreat = ascii "<>"
spelling dlessdash = ascii "<<-"
spelling clobber = ascii ">|"
spelling ampersand = ascii "&"
spelling semicolon = ascii ";"
spelling pipe = ascii "|"
spelling lparen = ascii "("
spelling rparen = ascii ")"
spelling less = ascii "<"
spelling great = ascii ">"

-- `o` is an operator with its spelling, which stands before `l`, and no longer operator does.
pub record IsLongest (l : Lexer) (o : OperatorDefinition) : Type 0 where
  pub operator : is_operator o.kind ≡ true
  pub spelled : o.text ≡ spelling o.kind
  pub matches : starts_with l (spelling o.kind) ≡ true
  pub longest :
      (k : TokenKind)
      → is_operator k ≡ true
      → starts_with l (spelling k) ≡ true
      → length (spelling k) ≤ length (spelling o.kind)

abbrev pub Found : Lexer → Option OperatorDefinition → Type 0
Found l none = (k : TokenKind) → is_operator k ≡ true → starts_with l (spelling k) ≡ false
Found l (some o) = IsLongest l o

-- `o` is in the table and stands before `l`, and no entry of the table that does is longer.
record Longest (l : Lexer) (table : List OperatorDefinition) (o : OperatorDefinition) : Type 0 where
  matches : starts_with l o.text ≡ true
  operator : is_operator o.kind ≡ true
  spelled : o.text ≡ spelling o.kind
  longest : AllOperators (λ p. starts_with l p.text ≡ true → length p.text ≤ length o.text) table

abbrev Looked : Lexer → List OperatorDefinition → Option OperatorDefinition → Type 0
Looked l table none = AllOperators (λ p. starts_with l p.text ≡ false) table
Looked l table (some o) = Longest l table o

abbrev Spelled : OperatorDefinition → Type 0
Spelled o = (is_operator o.kind ≡ true) × (o.text ≡ spelling o.kind)

All-forget :
    (l : Lexer) (n : ℕ) (table : List OperatorDefinition)
    → AllOperators (λ p. length p.text ≤ n) table
    → AllOperators (λ p. starts_with l p.text ≡ true → length p.text ≤ n) table
All-forget l n [] h = tt
All-forget l n (p ∷ table) h = (λ _. h.0, All-forget l n table h.1)

Looked-cons :
    (l : Lexer) (o : OperatorDefinition) (table : List OperatorDefinition)
    (r : Option OperatorDefinition)
    → starts_with l o.text ≡ false
    → Looked l table r
    → Looked l (o ∷ table) r
Looked-cons l o table none h f = (h, f)
Looked-cons l o table (some p) h f = record {
  matches = f.matches;
  operator = f.operator;
  spelled = f.spelled;
  longest = (λ e. cc, f.longest);
}

operator_in-Looked :
    (table : List OperatorDefinition) (l : Lexer)
    → Descending table
    → AllOperators Spelled table
    → Looked l table (operator_in table l)
unfolding operator_in
operator_in-Looked [] l d s = tt
operator_in-Looked (o ∷ table) l d s = elim (Bool-cases (starts_with l o.text)) [
  | inl here ↦ rw here (record {
    matches = here;
    operator = s.0.0;
    spelled = s.0.1;
    longest = (λ _. omega arith, All-forget l (length o.text) table d.0);
  })
  | inr other ↦
      rw other
        (Looked-cons l o table (operator_in table l) other (operator_in-Looked table l d.1 s.1))
]

operators-Descending : Descending operators
operators-Descending = omega arith

operators-Spelled : AllOperators Spelled operators
operators-Spelled = ground arith

-- What is so of the text of every entry is so of the spelling of every operator.
operators-all :
    (P : List ℕ → Type 0)
    → AllOperators (λ o. P o.text) operators
    → (k : TokenKind) → is_operator k ≡ true
    → P (spelling k)
operators-all P h eof op = absurd cc
operators-all P h word op = absurd cc
operators-all P h newline op = absurd cc
operators-all P h dlessdash op = h.0
operators-all P h and_if op = h.1.0
operators-all P h or_if op = h.1.1.0
operators-all P h dsemi op = h.1.1.1.0
operators-all P h semi_and op = h.1.1.1.1.0
operators-all P h dless op = h.1.1.1.1.1.0
operators-all P h dgreat op = h.1.1.1.1.1.1.0
operators-all P h lessand op = h.1.1.1.1.1.1.1.0
operators-all P h greatand op = h.1.1.1.1.1.1.1.1.0
operators-all P h lessgreat op = h.1.1.1.1.1.1.1.1.1.0
operators-all P h clobber op = h.1.1.1.1.1.1.1.1.1.1.0
operators-all P h ampersand op = h.1.1.1.1.1.1.1.1.1.1.1.0
operators-all P h semicolon op = h.1.1.1.1.1.1.1.1.1.1.1.1.0
operators-all P h pipe op = h.1.1.1.1.1.1.1.1.1.1.1.1.1.0
operators-all P h lparen op = h.1.1.1.1.1.1.1.1.1.1.1.1.1.1.0
operators-all P h rparen op = h.1.1.1.1.1.1.1.1.1.1.1.1.1.1.1.0
operators-all P h less op = h.1.1.1.1.1.1.1.1.1.1.1.1.1.1.1.1.0
operators-all P h great op = h.1.1.1.1.1.1.1.1.1.1.1.1.1.1.1.1.1.0

Looked-Found : (l : Lexer) (r : Option OperatorDefinition) → Looked l operators r → Found l r
Looked-Found l none h = operators-all (λ text. starts_with l text ≡ false) h
Looked-Found l (some o) h = record {
  operator = h.operator;
  spelled = h.spelled;
  matches = subst (λ text. starts_with l text ≡ true) h.spelled h.matches;
  longest =
      subst
        (λ spelled.
          (k : TokenKind)
          → is_operator k ≡ true
          → starts_with l (spelling k) ≡ true
          → length (spelling k) ≤ length spelled)
        h.spelled
        (operators-all (λ text. starts_with l text ≡ true → length text ≤ length o.text) h.longest);
}

-- `operator_at` returns an operator of the shell with the text that spells it, which stands at the
-- offset, and no operator of the shell that stands there is longer; or it returns nothing, and then
-- no operator of the shell stands there.
pub operator_at-Found : (l : Lexer) → Found l (operator_at l)
unfolding operator_at
operator_at-Found l =
    Looked-Found l (operator_in operators l)
      (operator_in-Looked operators l operators-Descending operators-Spelled)

abbrev pub is_eof : TokenKind → Bool
is_eof eof = true
is_eof _ = false

abbrev Entry : OperatorDefinition → Type 0
Entry o = (0 < length o.text) × (is_eof o.kind ≡ false)

operator_in-Entry :
    (table : List OperatorDefinition) (l : Lexer) {o : OperatorDefinition}
    → AllOperators Entry table
    → operator_in table l ≡ some o
    → Entry o × (starts_with l o.text ≡ true)
unfolding operator_in
operator_in-Entry [] l a h = absurd (cc h)
operator_in-Entry (p ∷ table) l {o} a h = elim (Bool-cases (starts_with l p.text)) [
  | inl here ↦ ground (arith, a.0)
  | inr other ↦ operator_in-Entry table l a.1 (rw (other, operator_in) at h)
]

operators-Entry : AllOperators Entry operators
operators-Entry = ground arith

-- A table entry is not empty, and is not the end of the input.
pub operator_at-Entry :
    (l : Lexer) {o : OperatorDefinition}
    → operator_at l ≡ some o
    → (0 < length o.text) × (is_eof o.kind ≡ false) × (starts_with l o.text ≡ true)
unfolding operator_at
operator_at-Entry l h =
    let (e, s) = operator_in-Entry operators l operators-Entry h in (e.0, e.1, s)
