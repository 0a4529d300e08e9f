-- ===== src/Positionals/Tests.antt =====
-- The theorems on the positional parameters at concrete strings.
use gsh.Prelude.{ℕ, List, [], ◌∷◌, ◌≡◌, refl, true, arith, some, e2big, zero, suc}
use gsh.Positionals.{
  PositionalStore, positional_cap, positional_text_cap, done, failed, positionals_assign,
  positionals_view, positionals_validate, parse_amount, builtin_shift, shifted,
}
use gsh.Positionals.Assign.{AreTexts, IsAllocated}
use gsh.Positionals.Holds.{Holds}
use gsh.Positionals.Refine.{
  Fits, zero_store, zero_store-IsAllocated, assign-Becomes, assign_refused, view-assign,
}
use gsh.Positionals.Shift.{Leaves, parse_amount_lem, builtin_shift-Leaves}

abbrev memory : PositionalStore
memory = zero_store positional_cap positional_text_cap

memory-IsAllocated : IsAllocated memory
memory-IsAllocated = zero_store-IsAllocated positional_cap positional_text_cap refl refl

abbrev arguments : List (List ℕ)
arguments = (b'l' ∷ b's' ∷ []) ∷ [] ∷ (b'-' ∷ b'l' ∷ []) ∷ []

arguments-AreTexts : AreTexts arguments
arguments-AreTexts = omega arith

arguments-Fits : Fits arguments
arguments-Fits = omega arith

view-assign_example :
    (positionals_view (positionals_assign memory arguments).0 ≡ arguments)
    × (positionals_validate (positionals_assign memory arguments).0 ≡ true)
    × ((positionals_assign memory arguments).1 ≡ done)
view-assign_example = view-assign arguments memory-IsAllocated arguments-AreTexts arguments-Fits

-- 129 empty strings
abbrev empties : ℕ → List (List ℕ)
empties zero = []
empties (suc n) = [] ∷ empties n

many-AreTexts : (n : ℕ) → AreTexts (empties n)
many-AreTexts zero = tt
many-AreTexts (suc n) = (tt, many-AreTexts n)

many-not-Fits : ¬ (Fits (empties 129))
many-not-Fits f = absurd (omega (arith, f.number))

assign_refused_example : positionals_assign memory (empties 129) ≡ (memory, failed e2big)
assign_refused_example = assign_refused memory (empties 129) (many-AreTexts 129) many-not-Fits

abbrev assigned : PositionalStore
assigned = (positionals_assign memory arguments).0

assigned-Holds : Holds assigned arguments
assigned-Holds =
    (assign-Becomes arguments memory-IsAllocated arguments-AreTexts arguments-Fits).holds

builtin_shift-Leaves_example :
    Leaves (builtin_shift ((b'2' ∷ []) ∷ []) assigned) ((b'-' ∷ b'l' ∷ []) ∷ []) shifted
builtin_shift-Leaves_example = builtin_shift-Leaves ((b'2' ∷ []) ∷ []) assigned-Holds

parse_amount_lem_example : parse_amount 0 (b'1' ∷ b'0' ∷ []) ≡ some 10
parse_amount_lem_example = parse_amount_lem 0 (b'1' ∷ b'0' ∷ []) (omega arith)
