-- ===== src/Invocation/Within.antt =====
-- src/shell_invocation.c: what an accepted command line gives lies within the arguments.
use gsh.Prelude.{
  ℕ, ◌+◌, ◌≤◌, ◌<◌, Bool, true, false, ◌&&◌, not, List, ◌⊎◌, inl, inr, ltb, leb, ◌==◌,
  if◌then◌else◌, length, Errno, einval, e2big, ◌≡◌, refl, arith,
}
use gsh.Options.{options_validate, options_initialize}
use gsh.Options.Answers.{options_initialize-valid}
use gsh.Invocation.{
  argument_cap, command_mode, file_mode, Invocation, Parsing, continues, select_mode,
  parsed_options, invocation_parse,
}
use gsh.Invocation.Parsers.{Good, AllGood, parse_options-Good}

-- What the shell starts from: a command and a script are arguments, and the positional parameters
-- begin inside the arguments or at their end.
pub record IsStart (argc : ℕ) (i : Invocation) : Type 0 where
  pub valid : options_validate i.options ≡ true
  pub command_inside : i.mode ≡ command_mode → i.source_index < argc
  pub file_inside : i.mode ≡ file_mode → i.source_index < argc
  pub zero_within : i.parameter_zero_index ≤ argc
  pub positional_within : i.positional_index ≤ argc

abbrev pub Answers : ℕ → Invocation ⊎ Errno → Type 0
Answers argc (inl i) = IsStart argc i
Answers argc (inr e) = Unit

if-IsStart :
    (argc : ℕ) (x y : Invocation) (test : Bool)
    → (test ≡ true → IsStart argc x)
    → (test ≡ false → IsStart argc y)
    → IsStart argc (if test then x else y)
if-IsStart argc x y true p q = p refl
if-IsStart argc x y false p q = q refl

select_mode-IsStart :
    (args : List (List ℕ)) (stdin_is_tty : Bool) (s : Parsing)
    → Good (length args + 1) s
    → (s.command && leb (length args) s.index) ≡ false
    → IsStart (length args) (select_mode args stdin_is_tty s)
unfolding select_mode
select_mode-IsStart args stdin_is_tty s g given =
    let argc = length args in
    if-IsStart argc _ _ s.command
      (λ command. record {
        valid = g.1;
        command_inside = λ _. ground (arith, command, given);
        file_inside = λ e. absurd (cc (e));
        zero_within = ground arith;
        positional_within = ground arith;
      })
      (λ _.
        if-IsStart argc _ _ (not s.standard_input && ltb s.index argc)
          (λ file. record {
            valid = g.1;
            command_inside = λ e. absurd (cc (e));
            file_inside = λ _. ground (arith, file);
            zero_within = ground (arith, file);
            positional_within = ground (arith, file);
          })
          (λ _.
            if-IsStart argc _ _ (not s.standard_input && s.index == argc && stdin_is_tty)
              (λ _. record {
                valid = g.1;
                command_inside = λ e. absurd (cc (e));
                file_inside = λ e. absurd (cc (e));
                zero_within = omega arith;
                positional_within = omega arith;
              })
              (λ _. record {
                valid = g.1;
                command_inside = λ e. absurd (cc (e));
                file_inside = λ e. absurd (cc (e));
                zero_within = omega arith;
                positional_within = omega (arith, g.0);
              })))

-- Whatever the arguments, what `gsh_invocation_parse` accepts has valid options; in the modes of a
-- command and of a file the source is one of the arguments; and the indices of parameter zero and of
-- the positional parameters are within the arguments or at their end.
pub invocation_parse-Answers :
    (args : List (List ℕ)) (stdin_is_tty : Bool)
    → Answers (length args) (invocation_parse args stdin_is_tty)
unfolding invocation_parse
invocation_parse-Answers args stdin_is_tty =
    if-Answers (inr einval) _ (length args == 0) (λ _. tt)
      (λ some_.
        if-Answers (inr e2big) _ (ltb argument_cap (length args)) (λ _. tt)
          (λ _. parsed _ (
            parse_options-Good argument_cap args
              (continues (record {
                options = options_initialize false;
                command = false;
                standard_input = false;
                index = 1;
              }))
              (ground (arith, some_), options_initialize-valid false))))
  where
    if-Answers :
        (x y : Invocation ⊎ Errno) (test : Bool)
        → (test ≡ true → Answers (length args) x)
        → (test ≡ false → Answers (length args) y)
        → Answers (length args) (if test then x else y)
    if-Answers x y true p q = p refl
    if-Answers x y false p q = q refl

    parsed :
        (result : Parsing ⊎ Errno)
        → AllGood (length args + 1) result
        → Answers (length args) (parsed_options args stdin_is_tty result)
    parsed (inr e) g = tt
    parsed (inl s) g =
        if-Answers (inr einval) _ (s.command && leb (length args) s.index) (λ _. tt)
          (λ given. select_mode-IsStart args stdin_is_tty s g given)
