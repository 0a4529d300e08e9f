-- ===== src/Lexer/Word.antt =====
-- src/posix_lexer.c, from `begin_substitution` to `scan_word`: one word with its nested quotes and
-- substitutions. The `while` of `scan_word` takes fuel, and is `none` when the fuel runs out.
use gsh.Prelude.{
  ℕ, zero, suc, Bool, true, false, not, ◌&&◌, ◌||◌, [], ◌∷◌, Option, none, some, ltb, ◌==◌,
  if◌then◌else◌, length,
}
use gsh.Lexer.{
  LexStatus, incomplete, invalid, Lexer, ContextKind, single, double, dollar_single, backquote,
  parameter, command, arithmetic, parenthesis, ContextStack, byte_at, advance_one, advance_count,
  Scan, scanned, refused, push_context, pop_context, starts_with, operator_at,
}

-- `if (!push_context(...)) return false;` then `advance_count(lexer, n); return true;`
unfoldable pub push_and_advance : Lexer → ContextStack → ContextKind → ℕ → Scan
push_and_advance l stack context n =
    let s = push_context l stack context in
    if s.result then scanned (advance_count s.lexer n) s.stack else s

unfoldable pub begin_substitution : Lexer → ContextStack → Scan
begin_substitution l stack =
    if starts_with l (b'$' ∷ b'(' ∷ b'(' ∷ [])
    then push_and_advance l stack arithmetic 3
    else if starts_with l (b'$' ∷ b'(' ∷ [])
    then push_and_advance l stack command 2
    else if starts_with l (b'$' ∷ b'{' ∷ [])
    then push_and_advance l stack parameter 2
    else if starts_with l (b'$' ∷ b'\'' ∷ [])
    then push_and_advance l stack dollar_single 2
    else refused l stack

unfoldable pub consume_escape : Lexer → Lexer
consume_escape l = let l' = advance_one l in if ltb l'.offset l'.size then advance_one l' else l'

-- what follows when a call returns false: it runs on the lexer that the call left
abbrev pub or_else : Scan → (Lexer → ContextStack → Scan) → Scan
or_else s otherwise = if s.result then s else otherwise s.lexer s.stack

-- `else if (byte != '$' || !begin_substitution(lexer, stack)) advance_one(lexer);`
-- A refused `begin_substitution` may have changed the lexer.
unfoldable pub substitute_or_advance : Lexer → ContextStack → ℕ → Scan
substitute_or_advance l stack byte =
    if byte == b'$'
    then or_else (begin_substitution l stack) (λ l' stack'. scanned (advance_one l') stack')
    else scanned (advance_one l) stack

-- 0x60 is the back quote.
unfoldable pub scan_plain_word_byte : Lexer → ContextStack → ℕ → Scan
scan_plain_word_byte l stack byte =
    if not (length stack == 0)
    then refused l stack
    else if byte == b'\\'
    then scanned (consume_escape l) stack
    else if byte == b'\''
    then push_and_advance l stack single 1
    else if byte == b'"'
    then push_and_advance l stack double 1
    else if byte == 0x60
    then push_and_advance l stack backquote 1
    else substitute_or_advance l stack byte

-- a byte inside quotes that end at `close`
abbrev pub until : Lexer → ContextStack → ℕ → ℕ → Scan
until l stack byte close =
    scanned (advance_one l) (if byte == close then pop_context stack else stack)

unfoldable pub scan_in_quotes : ContextKind → Lexer → ContextStack → ℕ → Scan
scan_in_quotes single l stack byte = until l stack byte b'\''
scan_in_quotes dollar_single l stack byte =
    if byte == b'\\' then scanned (consume_escape l) stack else until l stack byte b'\''
scan_in_quotes backquote l stack byte =
    if byte == b'\\' then scanned (consume_escape l) stack else until l stack byte 0x60
scan_in_quotes _ l stack byte =
    if byte == b'"'
    then scanned (advance_one l) (pop_context stack)
    else if byte == b'\\'
    then scanned (consume_escape l) stack
    else if byte == 0x60
    then push_and_advance l stack backquote 1
    else substitute_or_advance l stack byte

unfoldable pub scan_quoted_word_byte : Lexer → ContextStack → ContextKind → ℕ → Scan
unfolding scan_in_quotes
scan_quoted_word_byte l stack context byte =
    if length stack == 0 then refused l stack else scan_in_quotes context l stack byte

-- The tests on `context`, as the C code orders them.
abbrev pub is_parameter : ContextKind → Bool
is_parameter parameter = true
is_parameter _ = false

abbrev pub is_parenthesized : ContextKind → Bool
is_parenthesized command = true
is_parenthesized parenthesis = true
is_parenthesized _ = false

abbrev pub is_arithmetic : ContextKind → Bool
is_arithmetic arithmetic = true
is_arithmetic _ = false

abbrev pub is_quoted : ContextKind → Bool
is_quoted single = true
is_quoted dollar_single = true
is_quoted backquote = true
is_quoted double = true
is_quoted _ = false

-- the tests of `scan_nested_word_byte` behind the one for `$`
unfoldable pub scan_closing : Lexer → ContextStack → ContextKind → ℕ → Scan
scan_closing l stack context byte =
    if is_parameter context && byte == b'}'
    then scanned (advance_one l) (pop_context stack)
    else if is_parenthesized context && byte == b'('
    then push_and_advance l stack parenthesis 1
    else if is_parenthesized context && byte == b')'
    then scanned (advance_one l) (pop_context stack)
    else if is_arithmetic context && starts_with l (b')' ∷ b')' ∷ [])
    then scanned (advance_count l 2) (pop_context stack)
    else if is_arithmetic context && byte == b'('
    then push_and_advance l stack parenthesis 1
    else scanned (advance_one l) stack

unfoldable pub scan_nested_word_byte : Lexer → ContextStack → ContextKind → ℕ → Scan
unfolding scan_closing
scan_nested_word_byte l stack context byte =
    if length stack == 0
    then refused l stack
    else if byte == b'\\'
    then scanned (consume_escape l) stack
    else if byte == b'\''
    then push_and_advance l stack single 1
    else if byte == b'"'
    then push_and_advance l stack double 1
    else if byte == 0x60
    then push_and_advance l stack backquote 1
    else if byte == b'$'
    then or_else (begin_substitution l stack) (λ l' stack'. scan_closing l' stack' context byte)
    else scan_closing l stack context byte

abbrev pub fail : LexStatus → Lexer → Lexer
fail status l = record l { status = status; error_offset = l.offset }

-- what one round of the `while` of `scan_word` does: go on, or return
pub data Round : Type 0 where
  next : Lexer → ContextStack → Round
  return : Lexer → Bool → Round

abbrev pub round_of : Scan → Round
round_of s = if s.result then next s.lexer s.stack else return s.lexer false

abbrev pub is_some {ℓ} : {A : Type ℓ} → Option A → Bool
is_some none = false
is_some (some _) = true

-- the bytes that end a word outside every context
unfoldable pub ends_word : Lexer → ℕ → Bool
ends_word l byte = byte == b' ' || byte == b'\t' || byte == b'\n' || is_some (operator_at l)

-- the round at `byte`, by the top of the stack
unfoldable pub scan_byte : Lexer → ContextStack → ℕ → Round
scan_byte l [] byte =
    if ends_word l byte then return l true else round_of (scan_plain_word_byte l [] byte)
scan_byte l (context ∷ below) byte =
    if is_quoted context
    then round_of (scan_quoted_word_byte l (context ∷ below) context byte)
    else round_of (scan_nested_word_byte l (context ∷ below) context byte)

unfoldable pub scan_round : Lexer → ContextStack → Round
scan_round l stack =
    if ltb l.offset l.size
    then (if byte_at l == 0 then return (fail invalid l) false else scan_byte l stack (byte_at l))
    else if length stack == 0
    then return l true
    else return (fail incomplete l) false

unfoldable pub scan_word_from : ℕ → Lexer → ContextStack → Option (Lexer × Bool)
scan_word_from zero l stack = none
scan_word_from (suc fuel) l stack = elim (scan_round l stack) [
  | next l' stack' ↦ scan_word_from fuel l' stack'
  | return l' result ↦ some (l', result)
]

-- A round advances by a byte at least, so the bytes that are left, and one more round, suffice.
unfoldable pub scan_word : Lexer → Option (Lexer × Bool)
scan_word l = if ltb l.size l.offset then some (l, false) else scan_word_from (suc l.size) l []
