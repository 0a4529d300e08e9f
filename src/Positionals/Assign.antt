-- ===== src/Positionals/Assign.antt =====
-- Assigning positional parameters and reading them back.
use gsh.Prelude.{
  ℕ, zero, suc, ◌+◌, ◌-◌, ◌%◌, ◌^◌, ◌≤◌, ◌<◌, List, [], ◌∷◌, ◌++◌, none, some, leb, if◌then◌else◌,
  length, get_or, set, take, drop, take-drop-take, length-set, get_or-set_self, get_or-set_ne,
  length-append, Bool-cases, ◌≡◌, refl, sym, ap, ◌∙◌, inl, inr, arith, min,
}
use gsh.Positionals.Bytes.{IsText, copy_into_below, copy_into_at, length-copy_into}
use gsh.Positionals.{
  PositionalStore, positional_cap, positional_text_cap, strnlen, measure, copy_into, store_value,
  fill,
}

abbrev pub AreTexts : List (List ℕ) → Type 0
AreTexts [] = Unit
AreTexts (v ∷ vs) = IsText v × AreTexts vs

-- The bytes that the values take with their terminators.
abbrev pub total : List (List ℕ) → ℕ
total [] = 0
total (v ∷ vs) = length v + 1 + total vs

abbrev pub sizes_of : List (List ℕ) → List ℕ
sizes_of [] = []
sizes_of (v ∷ vs) = length v ∷ sizes_of vs

-- The arrays have their sizes.
pub record IsAllocated (s : PositionalStore) : Type 0 where
  pub slots : length s.offsets ≡ positional_cap
  pub room : length s.text ≡ positional_text_cap

strnlen_lem : (v : List ℕ) (n : ℕ) → IsText v → strnlen v n ≡ min (length v) n
unfolding strnlen
strnlen_lem [] n t = omega arith
strnlen_lem (c ∷ cs) zero t = omega arith
strnlen_lem (c ∷ cs) (suc n) t = ground (arith, strnlen_lem cs n t.1)

-- The first loop accepts exactly what fits, and finds the lengths.
pub measure_lem :
    (vs : List (List ℕ)) (used : ℕ)
    → used ≤ positional_text_cap
    → AreTexts vs
    → measure used vs
      ≡ (if leb (used + total vs) positional_text_cap then some (sizes_of vs) else none)
unfolding measure
measure_lem [] used h t = ground arith
measure_lem (v ∷ vs) used h t = elim (Bool-cases (leb (positional_text_cap - used) (length v))) [
  | inl big ↦
      let size : strnlen v (positional_text_cap - used) ≡ positional_text_cap - used =
        strnlen_lem v (positional_text_cap - used) t.0 ∙ ground arith in
      rw size (ground arith)
  | inr small ↦
      let size : strnlen v (positional_text_cap - used) ≡ length v =
        strnlen_lem v (positional_text_cap - used) t.0 ∙ ground arith in
      let ih = measure_lem vs (used + (length v + 1)) (ground arith) t.1 in
      rw size (rw ih (ground arith))
]

-- The parameter `index` of the store is the string `v`, with its terminator inside the text.
pub record Placed (s : PositionalStore) (index : ℕ) (v : List ℕ) : Type 0 where
  pub inside : get_or s.offsets index 0 + (length v + 1) ≤ s.text_used
  pub bytes : take (length v + 1) (drop (get_or s.offsets index 0) s.text) ≡ v ++ (0 ∷ [])

abbrev pub AllPlaced : PositionalStore → ℕ → List (List ℕ) → Type 0
AllPlaced s index [] = Unit
AllPlaced s index (v ∷ vs) = Placed s index v × AllPlaced s (suc index) vs

-- What the second loop does, from `s` to `t`, with the values `vs` from `index` on.
pub record Filled (s t : PositionalStore) (index : ℕ) (vs : List (List ℕ)) : Type 0 where
  pub allocated : IsAllocated t
  pub used : t.text_used ≡ s.text_used + total vs
  pub text_kept : (k : ℕ) → k ≤ s.text_used → take k t.text ≡ take k s.text
  pub offsets_kept : (i : ℕ) → i < index → get_or t.offsets i 0 ≡ get_or s.offsets i 0
  pub placed : AllPlaced t index vs
  pub same_version : t.version ≡ s.version
  pub same_start : t.start ≡ s.start

-- One round.
module _ (s : PositionalStore) (index : ℕ) (v : List ℕ) (a : IsAllocated s)
    (h : index < positional_cap) (fits : s.text_used + (length v + 1) ≤ positional_text_cap) where
  sized : length v + 1 ≡ length (v ++ (0 ∷ []))
  sized = omega (arith, length-append v (0 ∷ []))

  stored-Filled : Filled s (store_value s index v (length v)) index (v ∷ [])
  unfolding store_value
  stored-Filled =
      let written = copy_into s.text s.text_used (v ++ (0 ∷ [])) (length (v ++ (0 ∷ []))) in
      let here : get_or (set s.offsets index (s.text_used % 2 ^ 16)) index 0 ≡ s.text_used =
        get_or-set_self s.offsets index (s.text_used % 2 ^ 16) 0 (omega (arith, a.slots))
        ∙ omega arith in
      rw sized (record {
        allocated = record {
          slots = length-set s.offsets index (s.text_used % 2 ^ 16) ∙ a.slots;
          room =
              length-copy_into s.text s.text_used (v ++ (0 ∷ [])) (omega (arith, sized, a.room))
              ∙ a.room;
        };
        used = omega (arith, sized);
        text_kept = λ k le.
            sym (take-drop-take 0 s.text_used k written (omega arith))
            ∙ ap (take k) (copy_into_below s.text s.text_used _ _ (omega (arith, a.room)))
            ∙ take-drop-take 0 s.text_used k s.text (omega arith);
        offsets_kept = λ i lt. get_or-set_ne s.offsets (s.text_used % 2 ^ 16) 0 (omega arith);
        placed = (
          record {
            inside = omega (arith, here, sized);
            bytes =
                ap (λ o. take (length v + 1) (drop o written)) here
                ∙ ap (λ k. take k (drop s.text_used written)) sized
                ∙ copy_into_at s.text s.text_used (v ++ (0 ∷ [])) (omega (arith, a.room));
          },
          tt,
        );
        same_version = refl;
        same_start = refl;
      })

-- What a later round leaves of a parameter that an earlier one stored.
Placed-kept :
    {s t : PositionalStore} {n : ℕ} {vs : List (List ℕ)} (index : ℕ) (v : List ℕ)
    → index < n
    → Filled s t n vs
    → Placed s index v
    → Placed t index v
Placed-kept {s} {t} index v lt f p =
    let at = get_or s.offsets index 0 in
    let same = f.offsets_kept index lt in
    record {
      inside = omega (arith, same, f.used, p.inside);
      bytes =
          ap (λ o. take (length v + 1) (drop o t.text)) same
          ∙ sym (take-drop-take at s.text_used (length v + 1) t.text p.inside)
          ∙ ap (λ b. take (length v + 1) (drop at b)) (f.text_kept s.text_used (omega arith))
          ∙ take-drop-take at s.text_used (length v + 1) s.text p.inside
          ∙ p.bytes;
    }

Filled-cons :
    {s t u : PositionalStore} (index : ℕ) (v : List ℕ) (vs : List (List ℕ))
    → Filled s t index (v ∷ [])
    → Filled t u (suc index) vs
    → Filled s u index (v ∷ vs)
Filled-cons {s} {t} {u} index v vs f g = record {
  allocated = g.allocated;
  used = omega (arith, f.used, g.used);
  text_kept = λ k h. g.text_kept k (omega (arith, f.used)) ∙ f.text_kept k h;
  offsets_kept = λ i h. g.offsets_kept i (omega arith) ∙ f.offsets_kept i h;
  placed = (Placed-kept index v (omega arith) g f.placed.0, g.placed);
  same_version = g.same_version ∙ f.same_version;
  same_start = g.same_start ∙ f.same_start;
}

-- The second loop stores every value that the first has measured, and disturbs nothing before.
pub fill-Filled :
    (vs : List (List ℕ)) (s : PositionalStore) (index : ℕ)
    → IsAllocated s
    → index + length vs ≤ positional_cap
    → s.text_used + total vs ≤ positional_text_cap
    → Filled s (fill s index vs (sizes_of vs)) index vs
unfolding fill
fill-Filled [] s index a h k = record {
  allocated = a;
  used = omega arith;
  text_kept = λ k h. refl;
  offsets_kept = λ i h. refl;
  placed = tt;
  same_version = refl;
  same_start = refl;
}
fill-Filled (v ∷ vs) s index a h k =
    let one = stored-Filled s index v a (omega arith) (omega arith) in
    Filled-cons index v vs one (
      fill-Filled vs (store_value s index v (length v)) (suc index) one.allocated (omega arith)
        (omega (arith, one.used)))
