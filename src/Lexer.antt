-- ===== src/Lexer.antt =====
-- src/posix_lexer.c and src/posix_lexer.h: the incremental token scanner of the shell language.
-- This file has the types, the cursor and the operator table; Word has the scanner of one word, Next
-- the entry points. A function that updates `*lexer` returns the new lexer. The context stack is a
-- list, its top first. The guards against null pointers are left out: arguments are not null.
pub mod Word
pub mod Next
pub mod Position
pub mod Scanned
pub mod Progress
pub mod Reasons
pub mod Munch
pub mod Trivia
pub mod Tokens
pub mod Rounds
pub mod Quotes
pub mod Limit
mod Tests
use gsh.Prelude.{
  ℕ, zero, suc, ◌+◌, ◌*◌, Bool, true, false, not, ◌&&◌, ◌||◌, List, [], ◌∷◌, Option, none, some,
  ltb, leb, ◌==◌, if◌then◌else◌, length, get_or, drop, is_prefix, add_size, sub_size,
}

pub data TokenKind : Type 0 where
  eof word newline and_if or_if dsemi semi_and dless dgreat lessand greatand : TokenKind
  lessgreat dlessdash clobber ampersand semicolon pipe lparen rparen less great : TokenKind

pub data LexStatus : Type 0 where
  ok incomplete invalid limit : LexStatus

pub record Token : Type 0 where
  pub kind : TokenKind
  pub begin : ℕ
  pub end : ℕ
  pub line : ℕ
  pub column : ℕ

-- `size` is the field `length` of `gsh_lexer`.
pub record Lexer : Type 0 where
  pub input : List ℕ
  pub size : ℕ
  pub offset : ℕ
  pub line : ℕ
  pub column : ℕ
  pub status : LexStatus
  pub error_offset : ℕ

pub data ContextKind : Type 0 where
  single double dollar_single backquote parameter command arithmetic parenthesis : ContextKind

abbrev pub ContextStack : Type 0
ContextStack = List ContextKind

abbrev pub context_cap : ℕ
context_cap = 128

abbrev pub trivia_step_cap : ℕ
trivia_step_cap = 1024 * 1024 + 1

-- The length of an operator is that of its text.
pub record OperatorDefinition : Type 0 where
  pub text : List ℕ
  pub kind : TokenKind

-- `lexer->input[lexer->offset]`
abbrev pub byte_at : Lexer → ℕ
byte_at l = get_or l.input l.offset 0

unfoldable pub advance_one : Lexer → Lexer
advance_one l =
    if byte_at l == b'\n'
    then record l { offset = add_size l.offset 1; line = add_size l.line 1; column = 1 }
    else record l { offset = add_size l.offset 1; column = add_size l.column 1 }

unfoldable pub advance_count : Lexer → ℕ → Lexer
advance_count l zero = l
advance_count l (suc count) = advance_count (advance_one l) count

-- what a function returns that updates `*lexer` and `*stack`
pub record Scan : Type 0 where
  pub lexer : Lexer
  pub stack : ContextStack
  pub result : Bool

abbrev pub scanned : Lexer → ContextStack → Scan
scanned l stack = record { lexer = l; stack = stack; result = true }

abbrev pub refused : Lexer → ContextStack → Scan
refused l stack = record { lexer = l; stack = stack; result = false }

unfoldable pub push_context : Lexer → ContextStack → ContextKind → Scan
push_context l stack context =
    if length stack == context_cap
    then refused (record l { status = limit; error_offset = l.offset }) stack
    else scanned l (context ∷ stack)

unfoldable pub pop_context : ContextStack → ContextStack
pop_context [] = []
pop_context (_ ∷ stack) = stack

unfoldable pub starts_with : Lexer → List ℕ → Bool
starts_with l text =
    leb (length text) (sub_size l.size l.offset) && is_prefix text (drop l.offset l.input)

abbrev op : List ℕ → TokenKind → OperatorDefinition
op text kind = record { text = text; kind = kind }

abbrev pub operators : List OperatorDefinition
operators =
    op (b'<' ∷ b'<' ∷ b'-' ∷ []) dlessdash
    ∷ op (b'&' ∷ b'&' ∷ []) and_if
    ∷ op (b'|' ∷ b'|' ∷ []) or_if
    ∷ op (b';' ∷ b';' ∷ []) dsemi
    ∷ op (b';' ∷ b'&' ∷ []) semi_and
    ∷ op (b'<' ∷ b'<' ∷ []) dless
    ∷ op (b'>' ∷ b'>' ∷ []) dgreat
    ∷ op (b'<' ∷ b'&' ∷ []) lessand
    ∷ op (b'>' ∷ b'&' ∷ []) greatand
    ∷ op (b'<' ∷ b'>' ∷ []) lessgreat
    ∷ op (b'>' ∷ b'|' ∷ []) clobber
    ∷ op (b'&' ∷ []) ampersand
    ∷ op (b';' ∷ []) semicolon
    ∷ op (b'|' ∷ []) pipe
    ∷ op (b'(' ∷ []) lparen
    ∷ op (b')' ∷ []) rparen
    ∷ op (b'<' ∷ []) less
    ∷ op (b'>' ∷ []) great
    ∷ []

-- the loop of `operator_at` from one entry of the table on
unfoldable pub operator_in : List OperatorDefinition → Lexer → Option OperatorDefinition
operator_in [] l = none
operator_in (o ∷ table) l = if starts_with l o.text then some o else operator_in table l

unfoldable pub operator_at : Lexer → Option OperatorDefinition
unfolding operator_in starts_with
operator_at l = operator_in operators l
