-- ===== src/Invocation/Parsers.antt =====
-- src/shell_invocation.c: the option parsers stay within the arguments and keep the options valid.
use gsh.Prelude.{
  ℕ, zero, suc, ◌+◌, ◌<◌, Bool, true, false, ◌&&◌, ◌||◌, not, List, [], ◌∷◌, Option, none, some,
  ◌⊎◌, inl, inr, ltb, leb, ◌==◌, if◌then◌else◌, length, get_or, bytes_eq, ascii, Errno, einval,
  e2big, ◌≡◌, refl, arith,
}
use gsh.Options.{ShellOptions, options_validate, update_letter, update_name}
use gsh.Options.Answers.{StaysValid, update_letter-StaysValid, update_name-StaysValid}
use gsh.Invocation.{
  Parsing, with_options, apply_named_option, apply_short_option, apply_rest, parse_letters,
  parse_option_word, Round, halted, continues, refused, step_index, after_word, parse_round,
  parse_options,
}

-- The index is below a bound and the options are valid.
abbrev pub Good : ℕ → Parsing → Type 0
Good bound s = (s.index < bound) × (options_validate s.options ≡ true)

abbrev pub AllGood : ℕ → Parsing ⊎ Errno → Type 0
AllGood bound (inl s) = Good bound s
AllGood bound (inr e) = Unit

abbrev GoodRound : ℕ → Round → Type 0
GoodRound argc (halted s) = Good (argc + 1) s
GoodRound argc (continues s) = Good (argc + 1) s
GoodRound argc (refused e) = Unit

if-AllGood :
    (bound : ℕ) (x y : Parsing ⊎ Errno) (test : Bool)
    → (test ≡ true → AllGood bound x)
    → (test ≡ false → AllGood bound y)
    → AllGood bound (if test then x else y)
if-AllGood bound x y true p q = p refl
if-AllGood bound x y false p q = q refl

if-GoodRound :
    (argc : ℕ) (x y : Round) (test : Bool)
    → (test ≡ true → GoodRound argc x)
    → (test ≡ false → GoodRound argc y)
    → GoodRound argc (if test then x else y)
if-GoodRound argc x y true p q = p refl
if-GoodRound argc x y false p q = q refl

with_options-Good :
    (bound : ℕ) (s : Parsing) (updated : Option ShellOptions)
    → s.index < bound
    → StaysValid updated
    → AllGood bound (with_options s updated)
with_options-Good bound s none h v = tt
with_options-Good bound s (some options) h v = (h, v)

apply_named_option-Good :
    (bound : ℕ) (s : Parsing) (enabled : Bool) (name : List ℕ)
    → Good bound s
    → AllGood bound (apply_named_option s enabled name)
unfolding apply_named_option
apply_named_option-Good bound s enabled name g =
    if-AllGood bound (inr einval) _ (length name == 0) (λ _. tt)
      (λ _.
        with_options-Good bound s (update_name s.options name enabled) g.0
          (update_name-StaysValid s.options name enabled g.1))

apply_short_option-Good :
    (bound : ℕ) (s : Parsing) (option : ℕ) (enabled : Bool)
    → Good bound s
    → AllGood bound (apply_short_option s option enabled)
unfolding apply_short_option
apply_short_option-Good bound s option enabled g =
    if-AllGood bound (inr einval) _ ((option == b'c' || option == b's') && not enabled) (λ _. tt)
      (λ _.
        if-AllGood bound (inl (record s { command = true })) _ (option == b'c') (λ _. g)
          (λ _.
            if-AllGood bound (inl (record s { standard_input = true })) _ (option == b's') (λ _. g)
              (λ _.
                with_options-Good bound s (update_letter s.options option enabled) g.0
                  (update_letter-StaysValid s.options option enabled g.1))))

apply_rest-Good :
    (args : List (List ℕ)) (s : Parsing) (enabled : Bool) (bytes : List ℕ)
    → Good (length args) s
    → AllGood (length args) (apply_rest args s enabled bytes)
unfolding apply_rest
apply_rest-Good args s enabled [] g =
    if-AllGood (length args) _ (inr einval) (ltb (s.index + 1) (length args))
      (λ inside.
        apply_named_option-Good (length args) (step_index s) enabled (get_or args (s.index + 1) [])
          (ground (arith, inside), g.1))
      (λ _. tt)
apply_rest-Good args s enabled (byte ∷ bytes) g =
    apply_named_option-Good (length args) s enabled (byte ∷ bytes) g

parse_letters-Good :
    (rounds : ℕ) (args : List (List ℕ)) (enabled : Bool) (before : Parsing ⊎ Errno) (word : List ℕ)
    → AllGood (length args) before
    → AllGood (length args) (parse_letters rounds args enabled before word)
unfolding parse_letters
parse_letters-Good rounds args enabled (inr e) word g = tt
parse_letters-Good rounds args enabled (inl s) [] g = g
parse_letters-Good zero args enabled (inl s) (byte ∷ bytes) g = tt
parse_letters-Good (suc rounds) args enabled (inl s) (byte ∷ bytes) g =
    if-AllGood (length args) _ _ (byte == b'o') (λ _. apply_rest-Good args s enabled bytes g)
      (λ _.
        parse_letters-Good rounds args enabled (apply_short_option s byte enabled) bytes
          (apply_short_option-Good (length args) s byte enabled g))

parse_option_word-Good :
    (args : List (List ℕ)) (s : Parsing)
    → Good (length args) s
    → AllGood (length args) (parse_option_word args s)
unfolding parse_option_word
parse_option_word-Good args s g = by_word (get_or args s.index [])
  where
    by_word :
        (word : List ℕ)
        → AllGood (length args) (elim word [
          | [] ↦ inl s
          | byte ∷ bytes ↦ parse_letters 15 args (byte == b'-') (inl s) bytes
        ])
    by_word [] = g
    by_word (byte ∷ bytes) = parse_letters-Good 15 args (byte == b'-') (inl s) bytes g

after_word-Good :
    (argc : ℕ) (parsed : Parsing ⊎ Errno) → AllGood argc parsed → GoodRound argc (after_word parsed)
after_word-Good argc (inr e) g = tt
after_word-Good argc (inl s) g =
    if-GoodRound argc (halted (step_index s)) (continues (step_index s)) s.command
      (λ _. (omega (arith, g.0), g.1)) (λ _. (omega (arith, g.0), g.1))

parse_round-Good :
    (args : List (List ℕ)) (s : Parsing)
    → Good (length args + 1) s
    → GoodRound (length args) (parse_round args s)
unfolding parse_round
parse_round-Good args s g =
    let argc = length args in
    if-GoodRound argc (halted s) _ (leb argc s.index) (λ _. g)
      (λ more.
        let inside : s.index < argc = ground (arith, more) in
        if-GoodRound argc (halted (step_index s)) _ (bytes_eq (get_or args s.index []) (ascii "--"))
          (λ _. (omega (arith, inside), g.1))
          (λ _.
            if-GoodRound argc (halted (record s { index = s.index + 1; standard_input = true })) _
              (bytes_eq (get_or args s.index []) (ascii "-")) (λ _. (omega (arith, inside), g.1))
              (λ _.
                if-GoodRound argc (halted s) _
                  (not (get_or (get_or args s.index []) 0 0 == b'-')
                      && not (get_or (get_or args s.index []) 0 0 == b'+')
                    || leb (length (get_or args s.index [])) 1)
                  (λ _. g)
                  (λ _.
                    after_word-Good argc (parse_option_word args s)
                      (parse_option_word-Good args s (inside, g.1))))))

pub parse_options-Good :
    (rounds : ℕ) (args : List (List ℕ)) (r : Round)
    → GoodRound (length args) r
    → AllGood (length args + 1) (parse_options rounds args r)
unfolding parse_options
parse_options-Good rounds args (refused e) g = tt
parse_options-Good rounds args (halted s) g = g
parse_options-Good zero args (continues s) g =
    if-AllGood (length args + 1) (inr e2big) (inl s) (ltb s.index (length args)) (λ _. tt) (λ _. g)
parse_options-Good (suc rounds) args (continues s) g =
    parse_options-Good rounds args (parse_round args s) (parse_round-Good args s g)
