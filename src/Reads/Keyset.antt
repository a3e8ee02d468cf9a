-- ===== src/Reads/Keyset.antt =====
-- The cursor condition of `readPaged` (src/dolthub.ts) is the order of the key columns, one after the
-- other.
use front_desk_scheduler.Base.{
  ◌≡◌, refl, sym, ap, ◌∙◌, String, Bool, true, false, false≢true, ◌&&◌, ◌||◌, Option, none, some,
  List, [], ◌∷◌, ◌++◌, map, every, any, filterb, All, ◌=ₛ◌, =ₛ_iff, arith, middle-All, both_true,
  Bool-cases, inl, inr,
}
use front_desk_scheduler.Reads.{Clause, clauses_from}

-- The order of the texts in a column.
pub record IsOrder (lt : String → String → Bool) : Type 0 where
  pub flips : (a b : String) → lt a b ≡ true → lt b a ≡ false

module _ {R : Type 0} (column : R → String → String) (lt : String → String → Bool) where
  -- How the database reads a condition, of a row.
  abbrev pub equals : R → String × String → Bool
  equals r (c, v) = column r c =ₛ v

  abbrev pub exceeds : R → String × String → Bool
  exceeds r (c, v) = lt v (column r c)

  abbrev pub clause_holds : R → Clause → Bool
  clause_holds r c = every (equals r) c.eqs && exceeds r c.over

  abbrev pub after_holds : Option (List Clause) → R → Bool
  after_holds none r = true
  after_holds (some cs) r = any (clause_holds r) cs

  -- `ks` comes after `vs`: at the first column where they differ.
  abbrev pub is_after : List String → List String → Bool
  is_after (k ∷ ks) (v ∷ vs) = lt v k || ((k =ₛ v) && is_after ks vs)
  is_after _ _ = false

  abbrev pub key : List String → R → List String
  key columns r = map (column r) columns

  every-snoc :
      (p : String × String → Bool) (xs : List (String × String)) (x : String × String)
      → every p (xs ++ (x ∷ [])) ≡ (every p xs && p x)
  every-snoc p [] x = ground arith
  every-snoc p (y ∷ ys) x = ground (arith, every-snoc p ys x)

  clauses_from-lem :
      (r : R) (eqs : List (String × String)) (cs vs : List String)
      → any (clause_holds r) (clauses_from eqs cs vs)
        ≡ (every (equals r) eqs && is_after (key cs r) vs)
  unfolding clauses_from
  clauses_from-lem r eqs [] vs = ground arith
  clauses_from-lem r eqs (c ∷ cs) [] = ground arith
  clauses_from-lem r eqs (c ∷ cs) (v ∷ vs) =
      ground
        (arith, clauses_from-lem r (eqs ++ ((c, v) ∷ [])) cs vs, every-snoc (equals r) eqs (c, v))

  -- The condition of a cursor holds of exactly the rows that come after it.
  pub clauses_from-is_after :
      (r : R) (cs vs : List String)
      → after_holds (some (clauses_from [] cs vs)) r ≡ is_after (key cs r) vs
  clauses_from-is_after r cs vs = clauses_from-lem r [] cs vs

  module _ (order : IsOrder lt) where
    is_after-flips : (ks vs : List String) → is_after ks vs ≡ true → is_after vs ks ≡ false
    is_after-flips [] vs h = absurd (false≢true h)
    is_after-flips (k ∷ ks) [] h = absurd (false≢true h)
    is_after-flips (k ∷ ks) (v ∷ vs) h = elim (Bool-cases (lt v k)) [
      | inl e ↦
          let f = order.flips v k e in
          elim (Bool-cases (v =ₛ k)) [
            | inl g ↦
                let same : v ≡ k = (=ₛ_iff v k).0 g in
                let back = sym same in absurd (false≢true (sym f ∙ (λ i. lt (back i) (same i)) ∙ e))
            | inr g ↦ rw (f, g) refl
          ]
      | inr e ↦
          let (g, l) = both_true (k =ₛ v) (is_after ks vs) (ground (arith, h, e)) in
          let same : k ≡ v = (=ₛ_iff k v).0 g in
          let back = sym same in
          let f : lt k v ≡ false = (λ i. lt (same i) (back i)) ∙ e in
          let m = is_after-flips ks vs l in ground (arith, f, m)
    ]

    -- The rows stand in the order of their keys, and no two have the same.
    abbrev pub IsAscending : List String → List R → Type 0
    IsAscending cs [] = Unit
    IsAscending cs (r ∷ rs) =
        All (λ q. is_after (key cs q) (key cs r) ≡ true) rs × IsAscending cs rs

    is_after_self : (ks : List String) → is_after ks ks ≡ false
    is_after_self ks = elim (Bool-cases (is_after ks ks)) [
      | inl e ↦ is_after-flips ks ks e
      | inr e ↦ e
    ]

    filterb-All : (p : R → Bool) (rs : List R) → All (λ r. p r ≡ true) rs → filterb p rs ≡ rs
    filterb-All p [] h = refl
    filterb-All p (r ∷ rs) h = rw h.0 (ap (λ x. r ∷ x) (filterb-All p rs h.1))

    -- After a row of the table come exactly those that follow it.
    pub filterb-after :
        (cs : List String) (seen : List R) (r : R) (rest : List R)
        → IsAscending cs (seen ++ (r ∷ rest))
        → filterb (λ q. is_after (key cs q) (key cs r)) (seen ++ (r ∷ rest)) ≡ rest
    filterb-after cs [] r rest h =
        let e = is_after_self (key cs r) in
        rw e (filterb-All (λ q. is_after (key cs q) (key cs r)) rest h.0)
    filterb-after cs (q ∷ seen) r rest h =
        let e = is_after-flips (key cs r) (key cs q) (middle-All _ seen r rest h.0) in
        rw e (filterb-after cs seen r rest h.1)
