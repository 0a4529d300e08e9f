-- ===== src/Umask/Tests.antt =====
-- src/builtin_umask.c on concrete masks.
use gsh.Prelude.{◌++◌, true, false, [], ◌∷◌, get_or, ascii, some, ◌≡◌, refl, arith}
use gsh.Umask.{parse_octal, is_operation, read_clause, parse_symbolic}
use gsh.Umask.Command.{
  mask_text, symbolic_text, UmaskResult, finished, printed, invalid_mask, builtin_umask,
}
use gsh.Umask.Replay.{builtin_umask_replay}
use gsh.Umask.Kept.{builtin_umask_kept}
use gsh.Umask.Fuel.{read_clause_stops}

-- 022
builtin_umask_replay_example :
    (builtin_umask (ascii "-S" ∷ []) 18 ≡ (18, printed (mask_text true 18 ++ ascii "\n")))
    × (builtin_umask (mask_text true 18 ∷ []) 63 ≡ (18, finished))
builtin_umask_replay_example = builtin_umask_replay true 18 63 (omega arith) (omega arith)

text_of : mask_text true 18 ≡ ascii "u=rwx,g=rx,o=rx"
unfolding symbolic_text
text_of = refl

-- `g+w,o-x` lets the group write and keeps the others from executing
symbolic_change : parse_symbolic (ascii "g+w,o-x") 18 ≡ some 3
unfolding parse_symbolic
symbolic_change = refl

-- 08
abbrev bad : UmaskResult
bad = invalid_mask

is_bad : (builtin_umask (ascii "08" ∷ []) 18).1 ≡ bad
unfolding builtin_umask parse_symbolic parse_octal
is_bad = refl

builtin_umask_kept_example : (builtin_umask (ascii "08" ∷ []) 18).0 ≡ 18
builtin_umask_kept_example =
    builtin_umask_kept (ascii "08" ∷ []) 18 (omega arith) (λ same. cc (is_bad, same))

read_clause_stops_example :
    is_operation (get_or (read_clause 18 18 (ascii "g+w-x,o=r")).cursor 0 0) ≡ false
read_clause_stops_example = read_clause_stops 18 18 (ascii "g+w-x,o=r")
