-- ===== src/Base/Sort.antt =====
-- `Array.prototype.sort` with a comparator, as the stable insertion sort that every stable sort
-- agrees with, and what a consistent comparator gives.
use Prim.Native.Nat.{Ordering}
use mathlib.Core.Path.{◌≡◌, refl}
use mathlib.Core.Logic.{◌≢◌}
use mathlib.Core.List.{List, [], ◌∷◌, Perm}
use mathlib.Core.List.Perm
use front_desk_scheduler.Base.Lists.{All}

-- The comparator's answer is `gt` where the source's number is positive.
module _ {ℓ} {A : Type ℓ} (cmp : A → A → Ordering) where
  unfoldable pub insert_sorted : A → List A → List A
  insert_sorted x [] = x ∷ []
  insert_sorted x (y ∷ ys) = elim (cmp x y) [
    | Ordering.gt ↦ y ∷ insert_sorted x ys
    | _ ↦ x ∷ y ∷ ys
  ]

  unfoldable pub sort_by : List A → List A
  sort_by [] = []
  sort_by (x ∷ xs) = insert_sorted x (sort_by xs)

  insert_sorted-perm : (x : A) (ys : List A) → Perm (insert_sorted x ys) (x ∷ ys)
  unfolding insert_sorted
  insert_sorted-perm x [] = Perm.refl _
  insert_sorted-perm x (y ∷ ys) = go (cmp x y) (insert_sorted-perm x ys)
    where
      go :
          (o : Ordering)
          → Perm (insert_sorted x ys) (x ∷ ys)
          → Perm (elim o [ Ordering.gt ↦ y ∷ insert_sorted x ys | _ ↦ x ∷ y ∷ ys ]) (x ∷ y ∷ ys)
      go Ordering.gt rest = Perm.trans (Perm.cons y rest) (Perm.swap x y ys)
      go _ rest = Perm.refl _

  pub sort_by-perm : (xs : List A) → Perm (sort_by xs) xs
  unfolding sort_by
  sort_by-perm [] = Perm.refl _
  sort_by-perm (x ∷ xs) =
      Perm.trans (insert_sorted-perm x (sort_by xs)) (Perm.cons x (sort_by-perm xs))

-- `a` may stand before `b`.
abbrev pub Before {ℓ} : {A : Type ℓ} → (A → A → Ordering) → A → A → Type 0
Before cmp a b = cmp a b ≢ Ordering.gt

abbrev pub IsSortedBy {ℓ} : {A : Type ℓ} → (A → A → Ordering) → List A → Type ℓ
IsSortedBy cmp [] = Unit
IsSortedBy cmp (x ∷ xs) = All (Before cmp x) xs × IsSortedBy cmp xs

-- Of three elements, and of two: what a comparator owes its sort.
pub record IsConsistent {ℓ} {A : Type ℓ} (cmp : A → A → Ordering) : Type ℓ where
  pub flips : (a b : A) → cmp a b ≡ Ordering.gt → Before cmp b a
  pub chains : (a b c : A) → Before cmp a b → Before cmp b c → Before cmp a c

module _ {ℓ} {A : Type ℓ} (cmp : A → A → Ordering) where
  Before-All :
      IsConsistent cmp
      → (x y : A) (zs : List A) → Before cmp x y
      → All (Before cmp y) zs
      → All (Before cmp x) zs
  Before-All c x y [] h k = tt
  Before-All c x y (z ∷ zs) h k = (c.chains x y z h k.0, Before-All c x y zs h k.1)

  insert_sorted-All {κ} :
      (P : A → Type κ) (x : A) (ys : List A) → P x → All P ys → All P (insert_sorted cmp x ys)
  unfolding insert_sorted
  insert_sorted-All P x [] h k = (h, tt)
  insert_sorted-All P x (y ∷ ys) h k = go (cmp x y) (insert_sorted-All P x ys h k.1)
    where
      go :
          (o : Ordering)
          → All P (insert_sorted cmp x ys)
          → All P (elim o [ Ordering.gt ↦ y ∷ insert_sorted cmp x ys | _ ↦ x ∷ y ∷ ys ])
      go Ordering.gt rest = (k.0, rest)
      go _ rest = (h, k)

  insert_sorted-IsSortedBy :
      IsConsistent cmp
      → (x : A) (ys : List A) → IsSortedBy cmp ys
      → IsSortedBy cmp (insert_sorted cmp x ys)
  unfolding insert_sorted
  insert_sorted-IsSortedBy c x [] s = (tt, tt)
  insert_sorted-IsSortedBy c x (y ∷ ys) s = go (cmp x y) refl (insert_sorted-IsSortedBy c x ys s.1)
    where
      stays : cmp x y ≢ Ordering.gt → IsSortedBy cmp (x ∷ y ∷ ys)
      stays b = ((b, Before-All c x y ys b s.0), s)

      go :
          (o : Ordering)
          → cmp x y ≡ o
          → IsSortedBy cmp (insert_sorted cmp x ys)
          → IsSortedBy cmp (elim o [ Ordering.gt ↦ y ∷ insert_sorted cmp x ys | _ ↦ x ∷ y ∷ ys ])
      go Ordering.gt e rest = (insert_sorted-All (Before cmp y) x ys (c.flips x y e) s.0, rest)
      go Ordering.lt e rest = stays (λ g. cc)
      go Ordering.eq e rest = stays (λ g. cc)

  pub sort_by-IsSortedBy : IsConsistent cmp → (xs : List A) → IsSortedBy cmp (sort_by cmp xs)
  unfolding sort_by
  sort_by-IsSortedBy c [] = tt
  sort_by-IsSortedBy c (x ∷ xs) =
      insert_sorted-IsSortedBy c x (sort_by cmp xs) (sort_by-IsSortedBy c xs)

  pub sort_by-All {κ} : (P : A → Type κ) (xs : List A) → All P xs → All P (sort_by cmp xs)
  unfolding sort_by
  sort_by-All P [] h = tt
  sort_by-All P (x ∷ xs) h = insert_sorted-All P x (sort_by cmp xs) h.0 (sort_by-All P xs h.1)
