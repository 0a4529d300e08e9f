-- ===== src/Prelude/Ranges.antt =====
-- Tests of all numbers below a bound.
use Prim.Native.Nat.{ℕ, zero, suc, ◌<◌}
use mathlib.Core.Path.{◌≡◌, ap, ◌∙◌}
use mathlib.Core.Logic.{inl, inr}
use mathlib.Core.Bool.{Bool, true, ◌&&◌}
use native.Mathlib.Omega.{arith}
use gsh.Prelude.Tests.{Bool-cases, ◌==◌, ==_iff}

-- A test of all numbers below a bound.
abbrev pub all_below : ℕ → (ℕ → Bool) → Bool
all_below zero test = true
all_below (suc n) test = test n && all_below n test

pub all_below_lem :
    (n : ℕ) (test : ℕ → Bool) (i : ℕ) → all_below n test ≡ true → i < n → test i ≡ true
all_below_lem zero test i all_ h = absurd (omega arith)
all_below_lem (suc n) test i all_ h = elim (Bool-cases (i == n)) [
  | inl last ↦ ap test ((==_iff i n).0 last) ∙ ground (arith, all_)
  | inr other ↦ all_below_lem n test i (ground (arith, all_)) (ground (arith, h, other))
]
