-- ===== src/Reaper/Candidates.antt =====
-- What `candidateIds` (src/reaper.ts) enumerates.
use mathlib.Core.Bool.{false≢true}
use front_desk_scheduler.Base.{
  ◌≡◌, ◌≢◌, ◌↔◌, ◌⊎◌, refl, ap, sym, inl, inr, String, true, false, ◌&&◌, ◌||◌, not, none, some,
  List, [], ◌∷◌, ◌++◌, All, =ₛ_iff, =ₛ_refl, arith, Bool-cases, has_text, subst,
}
use front_desk_scheduler.World.Unique.{Distinct}
use front_desk_scheduler.Reaper.{
  QueryAnswer, rows, missing_claims, failure, distinct_from, union_of, candidate_ids,
}

has_text-append :
    (k : String) (xs ys : List String) → has_text k (xs ++ ys) ≡ has_text k xs || has_text k ys
unfolding has_text
has_text-append k [] ys = refl
has_text-append k (x ∷ xs) ys = ground (arith, has_text-append k xs ys)

has_text-distinct_from :
    (k : String) (seen is : List String)
    → has_text k (distinct_from seen is) ≡ has_text k is && not (has_text k seen)
unfolding has_text distinct_from
has_text-distinct_from k seen [] = refl
has_text-distinct_from k seen (i ∷ is) =
    let same = λ (e : i ≡ k). ap (λ j. has_text j seen) e in
    ground (
      arith,
      has_text-distinct_from k seen is,
      has_text-distinct_from k (i ∷ seen) is,
      =ₛ_iff i k,
      same,
    )

absent : (k : String) (xs : List String) → has_text k xs ≡ false → All (λ j. k ≢ j) xs
unfolding has_text
absent k [] h = tt
absent k (x ∷ xs) h = ((λ e. ground (arith, h, =ₛ_iff x k, sym e)), absent k xs (ground (arith, h)))

not_again : (i : String) (seen is : List String) → has_text i (distinct_from (i ∷ seen) is) ≡ false
unfolding has_text
not_again i seen is = ground (arith, has_text-distinct_from i (i ∷ seen) is, =ₛ_refl i)

distinct_from-Distinct : (seen is : List String) → Distinct (distinct_from seen is)
unfolding distinct_from
distinct_from-Distinct seen [] = tt
distinct_from-Distinct seen (i ∷ is) = elim (Bool-cases (has_text i seen)) [
  | inl e ↦ rw e (distinct_from-Distinct seen is)
  | inr e ↦ rw e (
    absent i (distinct_from (i ∷ seen) is) (not_again i seen is),
    distinct_from-Distinct (i ∷ seen) is,
  )
]

-- The answer lists the item.
abbrev pub Lists : String → QueryAnswer → Type 0
Lists k (rows ids) = has_text k ids ≡ true
Lists k missing_claims = ⊥
Lists k failure = ⊥

-- A set of candidates, seen from one item.
abbrev IsUnion : String → QueryAnswer → QueryAnswer → QueryAnswer → List String → Type 0
IsUnion k a b c ids = Distinct ids × ((has_text k ids ≡ true) ↔ (Lists k a ⊎ Lists k b ⊎ Lists k c))

union_of-IsUnion :
    (k : String) (a b c : QueryAnswer) (ids : List String)
    → union_of a b c ≡ some ids
    → IsUnion k a b c ids
unfolding has_text
union_of-IsUnion k (rows a) (rows b) (rows c) ids e =
    subst
      (λ o. elim o as (λ _. Type 0) [
        | none ↦ Unit
        | some s ↦ IsUnion k (rows a) (rows b) (rows c) s
      ])
      e (distinct_from-Distinct [] (a ++ b ++ c), (there, back))
  where
    found :
        has_text k (distinct_from [] (a ++ b ++ c)) ≡ (has_text k a || has_text k b) || has_text k c
    found = ground (
      arith,
      has_text-distinct_from k [] (a ++ b ++ c),
      has_text-append k (a ++ b) c,
      has_text-append k a b,
    )

    there :
        has_text k (distinct_from [] (a ++ b ++ c)) ≡ true
        → Lists k (rows a) ⊎ Lists k (rows b) ⊎ Lists k (rows c)
    there h = ground (arith, found, h)

    back :
        (Lists k (rows a) ⊎ Lists k (rows b) ⊎ Lists k (rows c))
        → has_text k (distinct_from [] (a ++ b ++ c)) ≡ true
    back h = ground (arith, found, h)
union_of-IsUnion k missing_claims b c ids e = ground arith
union_of-IsUnion k failure b c ids e = ground arith
union_of-IsUnion k (rows a) missing_claims c ids e = ground arith
union_of-IsUnion k (rows a) failure c ids e = ground arith
union_of-IsUnion k (rows a) (rows b) missing_claims ids e = ground arith
union_of-IsUnion k (rows a) (rows b) failure ids e = ground arith

-- The candidates of a sweep that gets as far are each listed once, and are the items that some
-- query lists; a missing claims table counts as an empty answer.
pub candidate_ids-union :
    (a b c : QueryAnswer) (ids : List String) (k : String)
    → candidate_ids a b c ≡ some ids
    → Distinct ids × ((has_text k ids ≡ true) ↔ (Lists k a ⊎ Lists k b ⊎ Lists k c))
unfolding candidate_ids has_text
candidate_ids-union a b (rows c) ids k e = union_of-IsUnion k a b (rows c) ids e
candidate_ids-union a b failure ids k e = union_of-IsUnion k a b failure ids e
candidate_ids-union a b missing_claims ids k e =
    let u = union_of-IsUnion k a b (rows []) ids e in
    (
      u.0,
      (
        (λ h. elim (u.1.0 h) [
          | inl x ↦ inl x
          | inr y ↦ elim y [ inl z ↦ inr (inl z) | inr z ↦ absurd (false≢true z) ]
        ]),
        (λ h. u.1.1 (elim h [
          | inl x ↦ inl x
          | inr y ↦ elim y [ inl z ↦ inr (inl z) | inr z ↦ elim z [ ] ]
        ])),
      ),
    )
