-- ===== src/Lexer/Position.antt =====
-- Where a lexer stands in its input: what every move of the cursor keeps, and how far it goes.
-- The reference for `line` and `column` reads the bytes before the offset.
use gsh.Prelude.{
  ℕ, zero, suc, ◌+◌, ◌≤◌, ◌<◌, List, [], ◌∷◌, ◌++◌, ◌≡◌, refl, ◌∙◌, arith, ◌==◌, if◌then◌else◌,
  true, ap, length, get_or, take, take-suc, length-take, size_mod,
}
use gsh.Lexer.{Lexer, LexStatus, advance_one, advance_count, starts_with}

abbrev pub newlines : List ℕ → ℕ
newlines [] = 0
newlines (c ∷ cs) = (if c == b'\n' then 1 else 0) + newlines cs

-- how many bytes stand behind the last newline, `n` of them before the list
abbrev pub since_newline : ℕ → List ℕ → ℕ
since_newline n [] = n
since_newline n (c ∷ cs) = since_newline (if c == b'\n' then 0 else n + 1) cs

newlines-append : (xs ys : List ℕ) → newlines (xs ++ ys) ≡ newlines xs + newlines ys
newlines-append [] ys = omega arith
newlines-append (x ∷ xs) ys = omega (arith, newlines-append xs ys)

since_newline-append :
    (n : ℕ) (xs ys : List ℕ) → since_newline n (xs ++ ys) ≡ since_newline (since_newline n xs) ys
since_newline-append n [] ys = refl
since_newline-append n (x ∷ xs) ys = since_newline-append (if x == b'\n' then 0 else n + 1) xs ys

newlines-le : (xs : List ℕ) → newlines xs ≤ length xs
newlines-le [] = omega arith
newlines-le (x ∷ xs) = ground (arith, newlines-le xs)

since_newline-le : (n : ℕ) (xs : List ℕ) → since_newline n xs ≤ n + length xs
since_newline-le n [] = omega arith
since_newline-le n (x ∷ xs) = ground (arith, since_newline-le 0 xs, since_newline-le (n + 1) xs)

abbrev pub line_at : List ℕ → ℕ → ℕ
line_at input offset = 1 + newlines (take offset input)

abbrev pub column_at : List ℕ → ℕ → ℕ
column_at input offset = 1 + since_newline 0 (take offset input)

-- The offset is inside the input, and line and column are those of the offset.
pub record IsValid (l : Lexer) : Type 0 where
  pub size_eq : l.size ≡ length l.input
  pub size_lt : l.size + 1 < size_mod
  pub offset_le : l.offset ≤ l.size
  pub line_eq : l.line ≡ line_at l.input l.offset
  pub column_eq : l.column ≡ column_at l.input l.offset

-- From `l` to `l'` the cursor moved over `n` bytes or more, on the same input.
pub record Moves (n : ℕ) (l l' : Lexer) : Type 0 where
  pub valid : IsValid l'
  pub input_eq : l'.input ≡ l.input
  pub size_same : l'.size ≡ l.size
  pub far : l.offset + n ≤ l'.offset

line_at-suc :
    (xs : List ℕ) (n : ℕ)
    → n < length xs
    → line_at xs (suc n) ≡ line_at xs n + (if get_or xs n 0 == b'\n' then 1 else 0)
line_at-suc xs n h =
    omega (arith, ap newlines (take-suc n xs 0 h), newlines-append (take n xs) (get_or xs n 0 ∷ []))

column_at-suc :
    (xs : List ℕ) (n : ℕ)
    → n < length xs
    → column_at xs (suc n) ≡ (if get_or xs n 0 == b'\n' then 1 else column_at xs n + 1)
column_at-suc xs n h = ground (
  arith,
  ap (since_newline 0) (take-suc n xs 0 h),
  since_newline-append 0 (take n xs) (get_or xs n 0 ∷ []),
)

line_at-le : (xs : List ℕ) (n : ℕ) → line_at xs n ≤ n + 1
line_at-le xs n = omega (arith, newlines-le (take n xs), length-take n xs)

column_at-le : (xs : List ℕ) (n : ℕ) → column_at xs n ≤ n + 1
column_at-le xs n = omega (arith, since_newline-le 0 (take n xs), length-take n xs)

pub offset-advance_one :
    {l : Lexer} → IsValid l → l.offset < l.size → (advance_one l).offset ≡ suc l.offset
unfolding advance_one
offset-advance_one {l} v h = ground arith

-- The line and the column that one more byte gives.
advance_one_place :
    {l : Lexer}
    → IsValid l
    → l.offset < l.size
    → ((advance_one l).line ≡ line_at l.input (suc l.offset))
      × ((advance_one l).column ≡ column_at l.input (suc l.offset))
unfolding advance_one
advance_one_place {l} v h =
    let within : l.offset < length l.input = omega arith in
    ground (
      arith,
      line_at-suc l.input l.offset within,
      column_at-suc l.input l.offset within,
      line_at-le l.input l.offset,
      column_at-le l.input l.offset,
    )

pub advance_one_frame :
    (l : Lexer) → ((advance_one l).input ≡ l.input) × ((advance_one l).size ≡ l.size)
unfolding advance_one
advance_one_frame l = ground arith

pub advance_one-Moves : {l : Lexer} → IsValid l → l.offset < l.size → Moves 1 l (advance_one l)
advance_one-Moves {l} v h =
    let moved = offset-advance_one v h in
    let (same_input, same_size) = advance_one_frame l in
    record {
      valid = record {
        size_eq = rw (same_input, same_size) v.size_eq;
        size_lt = omega arith;
        offset_le = omega arith;
        line_eq = rw (same_input, moved) (advance_one_place v h).0;
        column_eq = rw (same_input, moved) (advance_one_place v h).1;
      };
      input_eq = same_input;
      size_same = same_size;
      far = omega arith;
    }

pub Moves-trans :
    {i j : ℕ} {l m n : Lexer} (k : ℕ) → Moves i l m → Moves j m n → k ≤ i + j → Moves k l n
Moves-trans k p q h = record {
  valid = q.valid;
  input_eq = q.input_eq ∙ p.input_eq;
  size_same = q.size_same ∙ p.size_same;
  far = omega arith;
}

pub Moves-weaken : {i : ℕ} {l m : Lexer} (k : ℕ) → Moves i l m → k ≤ i → Moves k l m
Moves-weaken k p h = record {
  valid = p.valid;
  input_eq = p.input_eq;
  size_same = p.size_same;
  far = omega arith;
}

-- `lexer->status = s; lexer->error_offset = e;` moves nothing.
pub status-Moves :
    {l : Lexer} (s : LexStatus) (e : ℕ)
    → IsValid l
    → Moves 0 l (record l { status = s; error_offset = e })
status-Moves s e v = record {
  valid = record {
    size_eq = v.size_eq;
    size_lt = v.size_lt;
    offset_le = v.offset_le;
    line_eq = v.line_eq;
    column_eq = v.column_eq;
  };
  input_eq = refl;
  size_same = refl;
  far = omega arith;
}

pub stay-Moves : {l : Lexer} → IsValid l → Moves 0 l l
stay-Moves v = record { valid = v; input_eq = refl; size_same = refl; far = omega arith }

pub advance_count-Moves :
    (n : ℕ) {l : Lexer} → IsValid l → l.offset + n ≤ l.size → Moves n l (advance_count l n)
unfolding advance_count
advance_count-Moves zero v h = stay-Moves v
advance_count-Moves (suc n) {l} v h =
    let one = advance_one-Moves v (omega arith) in
    let moved = offset-advance_one v (omega arith) in
    Moves-trans (suc n) one (advance_count-Moves n one.valid (omega (arith, one.size_same)))
      (omega arith)

pub offset-advance_count :
    (n : ℕ) {l : Lexer}
    → IsValid l
    → l.offset + n ≤ l.size
    → (advance_count l n).offset ≡ l.offset + n
unfolding advance_count
offset-advance_count zero v h = omega arith
offset-advance_count (suc n) {l} v h =
    let one = advance_one-Moves v (omega arith) in
    let moved = offset-advance_one v (omega arith) in
    omega (arith, offset-advance_count n one.valid (omega (arith, one.size_same)))

pub advance_one_status : (l : Lexer) → (advance_one l).status ≡ l.status
unfolding advance_one
advance_one_status l = ground arith

pub advance_count_status : (n : ℕ) (l : Lexer) → (advance_count l n).status ≡ l.status
unfolding advance_count
advance_count_status zero l = refl
advance_count_status (suc n) l = advance_count_status n (advance_one l) ∙ advance_one_status l

-- A text that the lexer stands before is within the input.
pub starts_with-le :
    {l : Lexer} (text : List ℕ)
    → IsValid l
    → starts_with l text ≡ true
    → l.offset + length text ≤ l.size
unfolding starts_with
starts_with-le text v h = ground arith
