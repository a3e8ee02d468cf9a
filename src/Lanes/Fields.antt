-- ===== src/Lanes/Fields.antt =====
-- The values of a cron field (`expandField` of src/lane-watch.ts).
use front_desk_scheduler.Base.{
  ℕ, zero, suc, ◌+◌, ◌-◌, ◌*◌, ◌≤◌, ◌<◌, ◌≡◌, ◌↔◌, refl, subst, Bool, true, false, Option, none,
  some, List, [], ◌∷◌, All, append-All, leb, ltb, ◌==◌, split_on, to_number, arith, Bool-cases, inl,
  inr, Text,
}
use front_desk_scheduler.Lanes.{
  values_from, values, holds, in_bounds, with_step, bounds_of, expand_part, append_values,
  expand_parts, expand_field,
}

-- At least `lowest` and at most `highest`.
abbrev pub IsWithin : ℕ → ℕ → ℕ → Type 0
IsWithin lowest highest v = (lowest ≤ v) × (v ≤ highest)

values_from-All :
    (lowest highest : ℕ) (fuel v hi step : ℕ)
    → lowest ≤ v
    → hi ≤ highest
    → All (IsWithin lowest highest) (values_from fuel v hi step)
unfolding values_from
values_from-All lowest highest zero v hi step h k = tt
values_from-All lowest highest (suc fuel) v hi step h k = elim (Bool-cases (leb v hi)) [
  | inl e ↦
      rw e
        ((h, ground arith), values_from-All lowest highest fuel (v + step) hi step (omega arith) k)
  | inr e ↦ rw e tt
]

module _ (lowest highest : ℕ) where
  abbrev AllWithin : Option (List ℕ) → Type 0
  AllWithin none = Unit
  AllWithin (some vs) = All (IsWithin lowest highest) vs

  in_bounds-within : (step : ℕ) (o : Option (ℕ × ℕ)) → AllWithin (in_bounds lowest highest step o)
  unfolding values
  in_bounds-within step none = tt
  in_bounds-within step (some (lo, hi)) = elim (Bool-cases (ltb lo lowest)) [
    | inl e ↦ rw e tt
    | inr e ↦ rw e (elim (Bool-cases (ltb highest hi)) [
      | inl f ↦ rw f tt
      | inr f ↦ rw f (elim (Bool-cases (ltb hi lo)) [
        | inl g ↦ rw g tt
        | inr g ↦ rw g (
            values_from-All lowest highest (suc (hi - lo)) lo hi step (ground arith) (ground arith))
      ])
    ])
  ]

  with_step-within :
      (range : Text) (stepped : Bool) (o : Option ℕ)
      → AllWithin (with_step range stepped o lowest highest)
  with_step-within range stepped none = tt
  with_step-within range stepped (some step) = elim (Bool-cases (step == 0)) [
    | inl e ↦ rw e tt
    | inr e ↦ rw e (in_bounds-within step (bounds_of range stepped lowest highest))
  ]

  expand_part-within : (parts : List Text) → AllWithin (expand_part parts lowest highest)
  unfolding expand_part
  expand_part-within [] = tt
  expand_part-within (range ∷ []) = with_step-within range false (some 1)
  expand_part-within (range ∷ step ∷ more) = with_step-within range true (to_number step)

  append_values-within :
      (o q : Option (List ℕ)) → AllWithin o → AllWithin q → AllWithin (append_values o q)
  append_values-within (some vs) (some ws) h k = append-All _ vs ws h k
  append_values-within (some vs) none h k = tt
  append_values-within none q h k = tt

  expand_parts-within : (ps : List Text) → AllWithin (expand_parts ps lowest highest)
  unfolding expand_parts
  expand_parts-within [] = tt
  expand_parts-within (p ∷ ps) =
      append_values-within (expand_part (split_on b'/' p) lowest highest)
        (expand_parts ps lowest highest) (expand_part-within (split_on b'/' p))
        (expand_parts-within ps)

  -- Whatever a cron field says, the values that it expands to lie within the bounds of the field.
  pub expand_field-IsWithin :
      (field : Text) (vs : List ℕ)
      → expand_field field lowest highest ≡ some vs
      → All (IsWithin lowest highest) vs
  unfolding expand_field
  expand_field-IsWithin field vs e = subst AllWithin e (expand_parts-within (split_on b',' field))

one_less :
    (lo hi step v k : ℕ)
    → (lo == v) ≡ false
    → v ≡ lo + k * step
    → v ≤ hi
    → (j : ℕ) × (v ≡ lo + step + j * step) × (v ≤ hi)
one_less lo hi step v zero apart e b = absurd (ground (arith, apart, e))
one_less lo hi step v (suc j) apart e b = (j, omega (arith, e), b)

-- Enough fuel: the loop adds `v` exactly when it is `lo` and a number of steps, and not past `hi`.
values_from_iff :
    (fuel lo hi step v : ℕ)
    → 0 < step
    → hi < lo + fuel
    → (holds (values_from fuel lo hi step) v ≡ true) ↔ ((k : ℕ) × (v ≡ lo + k * step) × (v ≤ hi))
unfolding values_from holds
values_from_iff zero lo hi step v h enough =
    ((λ e. ground arith), (λ (k, e, b). ground (arith, e, b)))
values_from_iff (suc fuel) lo hi step v h enough = elim (Bool-cases (leb lo hi)) [
  | inr e ↦ rw e ((λ x. ground arith), (λ (k, f, b). ground (arith, e, f, b)))
  | inl e ↦
      let (there, back) = values_from_iff fuel (lo + step) hi step v h (omega arith) in
      rw e (elim (Bool-cases (lo == v)) [
        | inl same ↦ rw same ((λ x. (0, (ground (arith, same)), (ground arith))), (λ x. refl))
        | inr apart ↦ rw apart (
          (λ x. let (k, f, b) = there x in (k + 1, omega (arith, f), b)),
          (λ (k, f, b). back (one_less lo hi step v k apart f b)),
        )
      ])
]

-- The loop of a range ends, and has added exactly the values from `lo` on in steps, up to `hi`.
pub values_iff :
    (lo hi step v : ℕ)
    → 0 < step
    → (holds (values lo hi step) v ≡ true) ↔ ((k : ℕ) × (v ≡ lo + k * step) × (v ≤ hi))
unfolding values
values_iff lo hi step v h = values_from_iff (suc (hi - lo)) lo hi step v h (omega arith)
