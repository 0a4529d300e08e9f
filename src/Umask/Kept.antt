-- ===== src/Umask/Kept.antt =====
-- src/builtin_umask.c: the errors of the builtin keep the mask.
use gsh.Prelude.{ℕ, ◌<◌, Bool, false, List, [], ◌∷◌, Option, none, some, ◌≡◌, ◌≢◌, refl, arith}
use gsh.Umask.Command.{
  finished, parse_mask, change_mask, set_umask, scan_options, run_operands, run_scanned,
  builtin_umask,
}

run_operands_kept :
    (symbolic : Bool) (operands : List (List ℕ)) (mask : ℕ)
    → mask < 512
    → (run_operands symbolic operands mask).1 ≢ finished
    → (run_operands symbolic operands mask).0 ≡ mask
unfolding run_operands
run_operands_kept symbolic [] mask h other = omega (arith, h)
run_operands_kept symbolic (operand ∷ []) mask h other = changed (parse_mask operand mask) other
  where
    changed :
        (read : Option ℕ)
        → (change_mask (set_umask mask) read).1 ≢ finished
        → (change_mask (set_umask mask) read).0 ≡ mask
    changed none other = omega (arith, h)
    changed (some m) other = absurd (other refl)
run_operands_kept symbolic (_ ∷ (_ ∷ _)) mask h other = refl

-- Whatever the arguments of `umask`, if it does not set a mask, because it prints or because of an
-- error, then the mask in force stays what it was.
pub builtin_umask_kept :
    (words : List (List ℕ)) (mask : ℕ)
    → mask < 512
    → (builtin_umask words mask).1 ≢ finished
    → (builtin_umask words mask).0 ≡ mask
unfolding builtin_umask
builtin_umask_kept words mask h other = scanned (scan_options false words) other
  where
    scanned :
        (read : Option (Bool × List (List ℕ)))
        → (run_scanned mask read).1 ≢ finished
        → (run_scanned mask read).0 ≡ mask
    scanned none other = refl
    scanned (some (symbolic, operands)) other = run_operands_kept symbolic operands mask h other
