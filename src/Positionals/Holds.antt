-- ===== src/Positionals/Holds.antt =====
-- The store as the list of strings that it stands for.
use gsh.Prelude.{
  ℕ, zero, suc, ◌+◌, ◌-◌, ◌≤◌, true, List, [], ◌∷◌, length, get_or, take, drop, tabulate,
  tabulate_ext, ◌≡◌, refl, ap, ap₂, ◌∙◌, arith,
}
use gsh.Positionals.Bytes.{IsText, c_string-take, has_nul-string}
use gsh.Positionals.Assign.{AreTexts, IsAllocated, Placed, AllPlaced}
use gsh.Positionals.{
  PositionalStore, positional_cap, positional_text_cap, positional_version, positionals_initialize,
  string_at, positionals_view, offset_valid, offsets_valid, positionals_validate,
}

-- The store is well formed, and its parameters are `vs`.
pub record Holds (s : PositionalStore) (vs : List (List ℕ)) : Type 0 where
  pub allocated : IsAllocated s
  pub versioned : s.version ≡ positional_version
  pub counted : s.count ≡ length vs
  pub window : s.start + s.count ≤ positional_cap
  pub used : s.text_used ≤ positional_text_cap
  pub placed : AllPlaced s s.start vs
  pub texts : AreTexts vs

string_at-Placed :
    {s : PositionalStore} (index : ℕ) (v : List ℕ)
    → IsText v
    → Placed s index v
    → string_at s index ≡ v
string_at-Placed index v t p = c_string-take v _ t p.bytes

-- The window of the store does not matter to the strings.
pub AllPlaced-at :
    (vs : List (List ℕ)) (s : PositionalStore) (i j start count : ℕ)
    → i ≡ j
    → AllPlaced s i vs
    → AllPlaced (record s { start = start; count = count }) j vs
AllPlaced-at [] s i j start count e p = tt
AllPlaced-at (v ∷ vs) s i j start count e p = (
  rw (← e) (record { inside = p.0.inside; bytes = p.0.bytes }),
  AllPlaced-at vs s (suc i) (suc j) start count (ap suc e) p.1,
)

view-AllPlaced :
    (vs : List (List ℕ)) (s : PositionalStore) (index : ℕ)
    → AreTexts vs
    → AllPlaced s index vs
    → tabulate (λ i. string_at s (index + i)) (length vs) ≡ vs
view-AllPlaced [] s index t p = refl
view-AllPlaced (v ∷ vs) s index t p =
    ap₂ ◌∷◌ (ap (string_at s) (omega arith) ∙ string_at-Placed index v t.0 p.0) (
      tabulate_ext _ (λ i. string_at s (suc index + i)) (length vs)
        (λ i h. ap (string_at s) (omega arith))
      ∙ view-AllPlaced vs s (suc index) t.1 p.1)

-- Reading a store's parameters gives the list that it stands for.
pub view-Holds : {s : PositionalStore} {vs : List (List ℕ)} → Holds s vs → positionals_view s ≡ vs
unfolding positionals_view
view-Holds {s} {vs} h =
    ap (tabulate (λ i. string_at s (s.start + i))) h.counted
    ∙ view-AllPlaced vs s s.start h.texts h.placed

offset_valid-Placed :
    (s : PositionalStore) (index : ℕ) (v : List ℕ)
    → Placed s (s.start + index) v
    → offset_valid s index ≡ true
unfolding offset_valid
offset_valid-Placed s index v p =
    let at = get_or s.offsets (s.start + index) 0 in
    let one_more : suc (length v) ≡ length v + 1 = omega arith in
    let nul =
      has_nul-string v (drop at s.text) (s.text_used - at)
        (ap (λ k. take k (drop at s.text)) one_more ∙ p.bytes) (omega (arith, p.inside)) in
    ground (arith, nul, p.inside)

offsets_valid-AllPlaced :
    (vs : List (List ℕ)) (s : PositionalStore) (index : ℕ)
    → AllPlaced s (s.start + index) vs
    → offsets_valid (length vs) s index ≡ true
unfolding offsets_valid
offsets_valid-AllPlaced [] s index p = refl
offsets_valid-AllPlaced (v ∷ vs) s index p =
    let here = offset_valid-Placed s index v p.0 in
    let e : suc (s.start + index) ≡ s.start + suc index = omega arith in
    rw here (offsets_valid-AllPlaced vs s (suc index) (rw e at p.1))

-- A store that stands for a list of parameters passes its validation.
pub validate-Holds :
    {s : PositionalStore} {vs : List (List ℕ)} → Holds s vs → positionals_validate s ≡ true
unfolding positionals_validate
validate-Holds {s} {vs} h =
    let placed = AllPlaced-at vs s s.start (s.start + 0) s.start s.count (omega arith) h.placed in
    let all = ap (λ k. offsets_valid k s 0) h.counted ∙ offsets_valid-AllPlaced vs s 0 placed in
    ground (arith, all, h.versioned, h.window, h.used)

pub AllPlaced-drop :
    (n : ℕ) (vs : List (List ℕ)) (s : PositionalStore) (index : ℕ)
    → AllPlaced s index vs
    → AllPlaced s (index + n) (drop n vs)
AllPlaced-drop zero vs s index p =
    AllPlaced-at vs s index (index + 0) s.start s.count (omega arith) p
AllPlaced-drop (suc n) [] s index p = tt
AllPlaced-drop (suc n) (v ∷ vs) s index p =
    AllPlaced-at (drop n vs) s (suc index + n) (index + suc n) s.start s.count (omega arith)
      (AllPlaced-drop n vs s (suc index) p.1)

pub AreTexts-drop : (n : ℕ) (vs : List (List ℕ)) → AreTexts vs → AreTexts (drop n vs)
AreTexts-drop zero vs t = t
AreTexts-drop (suc n) [] t = tt
AreTexts-drop (suc n) (v ∷ vs) t = AreTexts-drop n vs t.1

pub initialize-Holds : {s : PositionalStore} → IsAllocated s → Holds (positionals_initialize s) []
unfolding positionals_initialize
initialize-Holds a = record {
  allocated = record { slots = a.slots; room = a.room };
  versioned = refl;
  counted = refl;
  window = omega arith;
  used = omega arith;
  placed = tt;
  texts = tt;
}
