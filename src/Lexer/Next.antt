-- ===== src/Lexer/Next.antt =====
-- src/posix_lexer.c: `gsh_lexer_init` and `gsh_lexer_next`.
use gsh.Prelude.{
  ℕ, zero, suc, Bool, true, false, not, ◌&&◌, ◌||◌, List, Option, none, some, ltb, ◌==◌,
  if◌then◌else◌, length, get_or, add_size,
}
use gsh.Lexer.{
  TokenKind, eof, word, newline, LexStatus, ok, invalid, limit, Token, Lexer, trivia_step_cap,
  OperatorDefinition, byte_at, advance_one, advance_count, operator_at,
}
use gsh.Lexer.Word.{scan_word}

unfoldable pub lexer_init : List ℕ → ℕ → Lexer
lexer_init input size = record {
  input = input;
  size = size;
  offset = 0;
  line = 1;
  column = 1;
  status = ok;
  error_offset = 0;
}

-- `while (lexer->offset < lexer->length && test(byte)) advance_one(lexer);` in at most `n` rounds
unfoldable pub advance_while : ℕ → (ℕ → Bool) → Lexer → Lexer
advance_while zero test l = l
advance_while (suc n) test l = elim (ltb l.offset l.size && test (byte_at l)) [
  | true ↦ advance_while n test (advance_one l)
  | false ↦ l
]

abbrev pub is_blank : ℕ → Bool
is_blank c = c == b' ' || c == b'\t'

abbrev pub is_comment : ℕ → Bool
is_comment c = not (c == b'\n')

-- As many rounds as there are bytes suffice for a loop that advances by one.
unfoldable pub skip_blanks : Lexer → Lexer
unfolding advance_while
skip_blanks l = advance_while l.size is_blank l

unfoldable pub skip_comment : Lexer → Lexer
unfolding advance_while
skip_comment l = advance_while l.size is_comment l

abbrev pub at_continuation : Lexer → Bool
at_continuation l =
    ltb (add_size l.offset 1) l.size
    && byte_at l == b'\\'
    && get_or l.input (add_size l.offset 1) 0 == b'\n'

abbrev pub at_comment : Lexer → Bool
at_comment l = ltb l.offset l.size && byte_at l == b'#'

-- The `for` over `trivia_step`, with the steps that are left, and whether it broke before the cap.
unfoldable pub skip_trivia : ℕ → Lexer → Lexer × Bool
skip_trivia zero l = (l, false)
skip_trivia (suc steps) l =
    let l' = skip_blanks l in
    elim (at_continuation l') [
      | true ↦ skip_trivia steps (advance_count l' 2)
      | false ↦ elim (at_comment l') [
        | true ↦ skip_trivia steps (skip_comment l')
        | false ↦ (l', true)
      ]
    ]

-- `*lexer`, `*token` and the value returned
pub record Next : Type 0 where
  pub lexer : Lexer
  pub token : Token
  pub status : LexStatus

-- `lexer->status = s; lexer->error_offset = lexer->offset; return lexer->status;`
abbrev pub failed : LexStatus → Lexer → Token → Next
failed s l t = record {
  lexer = record l { status = s; error_offset = l.offset };
  token = t;
  status = s;
}

abbrev pub accepted : Lexer → Token → Next
accepted l t = record { lexer = l; token = record t { end = l.offset }; status = ok }

-- the end of `gsh_lexer_next`, on what `scan_word` returns
unfoldable pub finish_word : Token → Option (Lexer × Bool) → Option Next
finish_word t none = none
finish_word t (some (l, false)) = some (record { lexer = l; token = t; status = l.status })
finish_word t (some (l, true)) =
    if l.offset == t.begin
    then some (failed invalid l (record t { end = l.offset }))
    else some (accepted l t)

-- the token at a byte that is none of the operators, or at an operator
unfoldable pub operator_or_word : Option OperatorDefinition → Lexer → Token → Option Next
operator_or_word none l t = finish_word (record t { kind = word }) (scan_word l)
operator_or_word (some o) l t =
    some (accepted (advance_count l (length o.text)) (record t { kind = o.kind }))

-- `token->begin`, `end`, `line` and `column` as they are set before the token is read
abbrev pub token_here : Lexer → TokenKind → Token
token_here l kind = record {
  kind = kind;
  begin = l.offset;
  end = l.offset;
  line = l.line;
  column = l.column;
}

-- `gsh_lexer_next` behind its loop over trivia
unfoldable pub next_token : Lexer → Token → Option Next
unfolding operator_or_word finish_word
next_token l old =
    let t = token_here l old.kind in
    if l.offset == l.size
    then some (record { lexer = l; token = record t { kind = eof }; status = ok })
    else if byte_at l == 0
    then some (failed invalid l t)
    else if byte_at l == b'\n'
    then some (accepted (advance_one l) (record t { kind = newline }))
    else operator_or_word (operator_at l) l t

abbrev pub is_ok : LexStatus → Bool
is_ok ok = true
is_ok _ = false

-- `none` means that the fuel of `scan_word` ran out.
unfoldable pub lexer_next : Lexer → Token → Option Next
lexer_next l old =
    if not (is_ok l.status)
    then some (record { lexer = l; token = old; status = l.status })
    else let (l', broke) = skip_trivia trivia_step_cap l in
      if broke then next_token l' old else some (failed limit l' old)
