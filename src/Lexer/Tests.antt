-- ===== src/Lexer/Tests.antt =====
-- Runs of the scanner on small inputs, and its theorems at them.
use Prim.Native.Char.{code}
use Prim.Native.String.{String}
use gsh.Prelude.{
  ℕ, zero, suc, true, List, [], ◌∷◌, ◌++◌, inl, Option, none, some, ◌≡◌, refl, length, arith,
  replicate,
}
use gsh.Lexer.{
  Lexer, Token, TokenKind, eof, word, dlessdash, LexStatus, ok, limit, advance_one, advance_count,
  operator_at, starts_with, single, double, ContextStack, push_context, pop_context,
}
use gsh.Lexer.Word.{
  scan_word, scan_word_from, scan_round, scan_byte, scan_quoted_word_byte, scan_plain_word_byte,
  scan_nested_word_byte, begin_substitution, push_and_advance, substitute_or_advance, ends_word,
  consume_escape,
}
use gsh.Lexer.Next.{
  Next, lexer_next, skip_trivia, next_token, skip_blanks, skip_comment, operator_or_word,
  finish_word,
}
use gsh.Lexer.Position.{IsValid, Moves}
use gsh.Lexer.Munch.{Found, operator_at-Found}
use gsh.Lexer.Trivia.{AtToken, skip_trivia-AtToken}
use gsh.Lexer.Tokens.{Answers, lexer_next-Answers}
use gsh.Lexer.Quotes.{lexer_next-quoted}
use gsh.Lexer.Limit.{TakenAsText, scan_quoted_word_byte-TakenAsText}

abbrev codes : String → List ℕ
codes String.[] = []
codes (String.◌∷◌ c s) = code c ∷ codes s

abbrev blank_token : Token
blank_token = record { kind = eof; begin = 0; end = 0; line = 0; column = 0 }

abbrev lexer_over : List ℕ → Lexer
lexer_over input = record {
  input = input;
  size = length input;
  offset = 0;
  line = 1;
  column = 1;
  status = ok;
  error_offset = 0;
}

abbrev lexer_on : String → Lexer
lexer_on s = lexer_over (codes s)

abbrev summary : Option Next → Option (TokenKind × ℕ × ℕ × ℕ × LexStatus)
summary none = none
summary (some r) = some (r.token.kind, r.token.begin, r.token.end, r.token.line, r.status)

lexer_next_runs :
    (summary (lexer_next (lexer_on " # c\n") blank_token) ≡ some (TokenKind.newline, 4, 5, 1, ok))
    × (summary (lexer_next (lexer_on "a$(b \"c)\" )d e") blank_token) ≡ some (word, 0, 12, 1, ok))
    × (summary (lexer_next (lexer_on "\\\n<<-x") blank_token) ≡ some (dlessdash, 2, 5, 2, ok))
    × (summary (lexer_next (lexer_on "'a") blank_token)
        ≡ some (word, 0, 0, 1, LexStatus.incomplete))
unfolding lexer_next next_token skip_trivia skip_blanks skip_comment advance_one advance_count
    operator_at operator_or_word finish_word scan_word scan_word_from scan_round scan_byte ends_word
    scan_plain_word_byte scan_quoted_word_byte scan_nested_word_byte substitute_or_advance
    begin_substitution push_and_advance push_context pop_context consume_escape starts_with
lexer_next_runs = (refl, refl, refl, refl)

abbrev sample : Lexer
sample = lexer_on "'a b' | c"

sample-IsValid : IsValid sample
sample-IsValid = omega arith

lexer_next-Answers_example : Answers sample (lexer_next sample blank_token)
lexer_next-Answers_example = lexer_next-Answers blank_token sample-IsValid

abbrev indented : Lexer
indented = lexer_on " \t# c\n"

indented-IsValid : IsValid indented
indented-IsValid = omega arith

skip_trivia-AtToken_example :
    ((skip_trivia 9 indented).1 ≡ true)
    × AtToken (skip_trivia 9 indented).0
    × Moves 0 indented (skip_trivia 9 indented).0
skip_trivia-AtToken_example = skip_trivia-AtToken 9 indented-IsValid (omega arith)

operator_at-Found_example : Found (lexer_on "<<-x") (operator_at (lexer_on "<<-x"))
operator_at-Found_example = operator_at-Found (lexer_on "<<-x")

lexer_next-quoted_example :
    lexer_next sample blank_token
    ≡ some (record {
      lexer = advance_count sample 5;
      token = record { kind = word; begin = 0; end = 5; line = 1; column = 1 };
      status = ok;
    })
lexer_next-quoted_example =
    lexer_next-quoted blank_token (codes "a b") (codes " | c") sample-IsValid refl refl
      (omega arith) (inl refl)

abbrev deep : ContextStack
deep = replicate 127 single

scan_quoted_word_byte-TakenAsText_example :
    TakenAsText
      (lexer_on "$(a)")
      (double ∷ deep)
      (scan_quoted_word_byte (lexer_on "$(a)") (double ∷ deep) double b'$')
scan_quoted_word_byte-TakenAsText_example =
    scan_quoted_word_byte-TakenAsText (lexer_on "$(a)") deep refl

-- 127 command substitutions and a double quote: the `$(` behind them is past the limit.
abbrev nest : ℕ → List ℕ → List ℕ
nest zero inner = inner
nest (suc n) inner = b'$' ∷ b'(' ∷ (nest n inner ++ (b')' ∷ []))

abbrev past_limit : Option Next → Option (LexStatus × LexStatus × ℕ)
past_limit none = none
past_limit (some r) = some (r.status, r.lexer.status, r.token.end)

-- The token is accepted, up to its last byte, and the status of the lexer is the limit.
past_limit_accepted :
    past_limit (lexer_next (lexer_over (nest 127 (codes "\"$(\""))) blank_token)
    ≡ some (ok, limit, 385)
unfolding lexer_next_runs
past_limit_accepted = refl
