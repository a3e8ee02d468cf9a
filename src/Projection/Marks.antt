-- ===== src/Projection/Marks.antt =====
-- What `watermarks` (src/lease-projection.ts) marks.
use front_desk_scheduler.Base.{
  ℕ, ◌≤◌, ◌<◌, ◌≡◌, refl, sym, ap, subst, ◌∙◌, String, Bool, true, false, Option, none, some, List,
  [], ◌∷◌, All, ltb, ◌=ₛ◌, =ₛ_iff, if◌then◌else◌, arith, Bool-cases, inl, inr,
}
use front_desk_scheduler.Projection.{
  ProjectedRowMark, Mark, at, below, is_above, lookup, put, at_most, at_least, mark_fencing,
  no_marks, Marking, mark_row, mark_rows, reopen, closed_marks, watermarks,
}

module _ {ℓ} {A : Type ℓ} where
  lookup-put :
      (k j : String) (a : A) (m : List (String × A))
      → lookup j (put k a m) ≡ (if k =ₛ j then some a else lookup j m)
  unfolding lookup put
  lookup-put k j a [] = refl
  lookup-put k j a ((i, b) ∷ m) =
      ground (arith, lookup-put k j a m, =ₛ_iff i k, =ₛ_iff i j, =ₛ_iff k j)

-- The finite fencings of the item's rows, and of those among them that are `active`.
abbrev with_fencing : String → ProjectedRowMark → Option ℕ → List ℕ → List ℕ
with_fencing k r none rest = rest
with_fencing k r (some f) rest = if r.item_id =ₛ k then f ∷ rest else rest

abbrev with_open : String → ProjectedRowMark → Option ℕ → List ℕ → List ℕ
with_open k r none rest = rest
with_open k r (some f) rest =
    if r.item_id =ₛ k then (if r.status =ₛ "active" then f ∷ rest else rest) else rest

abbrev pub fencings_of : String → List ProjectedRowMark → List ℕ
fencings_of k [] = []
fencings_of k (r ∷ rs) = with_fencing k r r.fencing (fencings_of k rs)

abbrev pub open_of : String → List ProjectedRowMark → List ℕ
open_of k [] = []
open_of k (r ∷ rs) = with_open k r r.fencing (open_of k rs)

-- The running maximum and minimum.
abbrev largest : Option ℕ → List ℕ → Option ℕ
largest o [] = o
largest o (f ∷ fs) = largest (some (at_least o f)) fs

abbrev smallest : Option ℕ → List ℕ → Option ℕ
smallest o [] = o
smallest o (f ∷ fs) = smallest (some (at_most o f)) fs

-- What the item is marked with, from its largest and its smallest open fencing.
abbrev mark_of : Option ℕ → Option ℕ → Option Mark
mark_of top (some o) = some (below o)
mark_of none none = none
mark_of (some n) none = some (at n)

lookup-reopen :
    (k : String) (open_min : List (String × ℕ)) (marks : List (String × ℕ))
    → lookup k (reopen open_min (closed_marks marks)) ≡ mark_of (lookup k marks) (lookup k open_min)
unfolding lookup reopen closed_marks
lookup-reopen k [] [] = refl
lookup-reopen k [] ((j, n) ∷ marks) = ground (arith, lookup-reopen k [] marks)
lookup-reopen k ((j, n) ∷ open_min) marks = ground (
  arith,
  lookup-reopen k open_min marks,
  lookup-put j k (below n) (reopen open_min (closed_marks marks)),
)

module _ (k : String) (r : ProjectedRowMark) (m : Marking) (rest : List ℕ) where
  mark_fencing-marks :
      (o : Option ℕ)
      → largest (lookup k (mark_fencing r o m).marks) rest
        ≡ largest (lookup k m.marks) (with_fencing k r o rest)
  mark_fencing-marks none = refl
  mark_fencing-marks (some f) =
      let new = at_least (lookup r.item_id m.marks) f in
      rw (lookup-put r.item_id k new m.marks) (elim (Bool-cases (r.item_id =ₛ k)) [
        | inl e ↦ rw e (
            ap (λ i. largest (some (at_least (lookup i m.marks) f)) rest)
              ((=ₛ_iff r.item_id k).0 e))
        | inr e ↦ rw e refl
      ])

  mark_fencing-open_min :
      (o : Option ℕ)
      → smallest (lookup k (mark_fencing r o m).open_min) rest
        ≡ smallest (lookup k m.open_min) (with_open k r o rest)
  mark_fencing-open_min none = refl
  mark_fencing-open_min (some f) = elim (Bool-cases (r.status =ₛ "active")) [
    | inr s ↦ rw s (elim (Bool-cases (r.item_id =ₛ k)) [ inl e ↦ rw e refl | inr e ↦ rw e refl ])
    | inl s ↦
        let new = at_most (lookup r.item_id m.open_min) f in
        rw (s, lookup-put r.item_id k new m.open_min)
          (elim (Bool-cases (r.item_id =ₛ k)) [
            | inl e ↦ rw e (
                ap (λ i. smallest (some (at_most (lookup i m.open_min) f)) rest)
                  ((=ₛ_iff r.item_id k).0 e))
            | inr e ↦ rw e refl
          ])
  ]

mark_rows-marks :
    (k : String) (rows : List ProjectedRowMark) (m : Marking)
    → lookup k (mark_rows rows m).marks ≡ largest (lookup k m.marks) (fencings_of k rows)
unfolding mark_rows mark_row
mark_rows-marks k [] m = refl
mark_rows-marks k (r ∷ rs) m =
    mark_rows-marks k rs (mark_row r m) ∙ mark_fencing-marks k r m (fencings_of k rs) r.fencing

mark_rows-open_min :
    (k : String) (rows : List ProjectedRowMark) (m : Marking)
    → lookup k (mark_rows rows m).open_min ≡ smallest (lookup k m.open_min) (open_of k rows)
unfolding mark_rows mark_row
mark_rows-open_min k [] m = refl
mark_rows-open_min k (r ∷ rs) m =
    mark_rows-open_min k rs (mark_row r m) ∙ mark_fencing-open_min k r m (open_of k rs) r.fencing

-- What the running maximum and minimum are.
abbrev pub is_over : Option Mark → ℕ → Bool
is_over none f = true
is_over (some m) f = is_above f m

-- Above every fencing that the maximum came from.
abbrev Tops : Option ℕ → ℕ → Type 0
Tops none g = Unit
Tops (some n) g = n < g

largest-Tops :
    (g : ℕ) (o : Option ℕ) (fs : List ℕ) → Tops o g → All (λ f. f < g) fs → Tops (largest o fs) g
largest-Tops g o [] h hs = h
largest-Tops g none (f ∷ fs) h hs = largest-Tops g (some f) fs hs.0 hs.1
largest-Tops g (some n) (f ∷ fs) h hs =
    largest-Tops g (some (if ltb n f then f else n)) fs (ground (arith, hs.0)) hs.1

-- At or under the option, which is there.
abbrev Reaches : Option ℕ → ℕ → Type 0
Reaches none f = ⊥
Reaches (some n) f = f ≤ n

largest-Reaches : (o : Option ℕ) (fs : List ℕ) (g : ℕ) → Reaches o g → Reaches (largest o fs) g
largest-Reaches o [] g h = h
largest-Reaches none (f ∷ fs) g h = elim h [ ]
largest-Reaches (some n) (f ∷ fs) g h =
    largest-Reaches (some (if ltb n f then f else n)) fs g (ground arith)

largest-All : (o : Option ℕ) (fs : List ℕ) → All (Reaches (largest o fs)) fs
largest-All o [] = tt
largest-All none (f ∷ fs) = (largest-Reaches (some f) fs f (omega arith), largest-All (some f) fs)
largest-All (some n) (f ∷ fs) =
    let next = if ltb n f then f else n in
    (largest-Reaches (some next) fs f (ground arith), largest-All (some next) fs)

abbrev Floors : Option ℕ → ℕ → Type 0
Floors none f = ⊥
Floors (some n) f = n ≤ f

smallest-Floors : (o : Option ℕ) (fs : List ℕ) (g : ℕ) → Floors o g → Floors (smallest o fs) g
smallest-Floors o [] g h = h
smallest-Floors none (f ∷ fs) g h = elim h [ ]
smallest-Floors (some n) (f ∷ fs) g h =
    smallest-Floors (some (if ltb f n then f else n)) fs g (ground arith)

smallest-All : (o : Option ℕ) (fs : List ℕ) → All (Floors (smallest o fs)) fs
smallest-All o [] = tt
smallest-All none (f ∷ fs) = (smallest-Floors (some f) fs f (omega arith), smallest-All (some f) fs)
smallest-All (some n) (f ∷ fs) =
    let next = if ltb f n then f else n in
    (smallest-Floors (some next) fs f (ground arith), smallest-All (some next) fs)

smallest-Tops :
    (g : ℕ) (o : Option ℕ) (fs : List ℕ) → Tops o g → All (λ f. f < g) fs → Tops (smallest o fs) g
smallest-Tops g o [] h hs = h
smallest-Tops g none (f ∷ fs) h hs = smallest-Tops g (some f) fs hs.0 hs.1
smallest-Tops g (some n) (f ∷ fs) h hs =
    smallest-Tops g (some (if ltb f n then f else n)) fs (ground (arith, hs.0)) hs.1

module _ (k : String) (P : ℕ → Type 0) where
  open_of-step :
      (r : ProjectedRowMark) (o : Option ℕ) (fs os : List ℕ)
      → (All P fs → All P os)
      → All P (with_fencing k r o fs)
      → All P (with_open k r o os)
  open_of-step r none fs os ih h = ih h
  open_of-step r (some f) fs os ih h = elim (Bool-cases (r.item_id =ₛ k)) [
    | inr e ↦ rw e (ih (subst (λ b. All P (if b then f ∷ fs else fs)) e h))
    | inl e ↦
        let both = subst (λ b. All P (if b then f ∷ fs else fs)) e h in
        rw e (elim (Bool-cases (r.status =ₛ "active")) [
          | inl a ↦ rw a (both.0, ih both.1)
          | inr a ↦ rw a (ih both.1)
        ])
  ]

  open_of-All : (rows : List ProjectedRowMark) → All P (fencings_of k rows) → All P (open_of k rows)
  open_of-All [] h = tt
  open_of-All (r ∷ rs) h =
      open_of-step r r.fencing (fencings_of k rs) (open_of k rs) (open_of-All rs) h

lookup-watermarks :
    (k : String) (rows : List ProjectedRowMark)
    → lookup k (watermarks rows)
      ≡ mark_of (largest none (fencings_of k rows)) (smallest none (open_of k rows))
unfolding watermarks lookup
lookup-watermarks k rows =
    let m = mark_rows rows no_marks in
    lookup-reopen k m.open_min m.marks
    ∙ rw (mark_rows-marks k rows no_marks, mark_rows-open_min k rows no_marks) refl

open_over : (top : Option ℕ) (o : Option ℕ) (f : ℕ) → Floors o f → is_over (mark_of top o) f ≡ true
unfolding is_above
open_over top none f h = elim h [ ]
open_over top (some n) f h = ground arith

closed_under : (top : Option ℕ) (f : ℕ) → Reaches top f → is_over (mark_of top none) f ≡ false
unfolding is_above
closed_under none f h = elim h [ ]
closed_under (some n) f h = ground arith

new_over :
    (top : Option ℕ) (o : Option ℕ) (g : ℕ)
    → Tops top g
    → Tops o g
    → is_over (mark_of top o) g ≡ true
unfolding is_above
new_over none none g h k = refl
new_over (some n) none g h k = ground arith
new_over top (some n) g h k = ground arith

All-map : {P Q : ℕ → Type 0} (f : (n : ℕ) → P n → Q n) (ns : List ℕ) → All P ns → All Q ns
All-map f [] h = tt
All-map f (n ∷ ns) (h, hs) = (f n h, All-map f ns hs)

-- The history above an item's watermark holds every interval still open, and every interval
-- granted after those projected.
pub watermarks_reread :
    (k : String) (rows : List ProjectedRowMark) (g : ℕ)
    → All (λ f. f < g) (fencings_of k rows)
    → All (λ f. is_over (lookup k (watermarks rows)) f ≡ true) (open_of k rows)
      × (is_over (lookup k (watermarks rows)) g ≡ true)
watermarks_reread k rows g h =
    let top = largest none (fencings_of k rows) in
    let low = smallest none (open_of k rows) in
    rw (lookup-watermarks k rows) (
      All-map (open_over top low) (open_of k rows) (smallest-All none (open_of k rows)),
      new_over top low g (largest-Tops g none (fencings_of k rows) tt h)
          (smallest-Tops g none (open_of k rows) tt (open_of-All k (λ f. f < g) rows h)),
    )

-- When none of an item's rows is open, none of its projected intervals is read again.
pub watermarks_settled :
    (k : String) (rows : List ProjectedRowMark)
    → open_of k rows ≡ []
    → All (λ f. is_over (lookup k (watermarks rows)) f ≡ false) (fencings_of k rows)
watermarks_settled k rows e =
    let top = largest none (fencings_of k rows) in
    rw (lookup-watermarks k rows) (
      subst
        (λ os. All (λ f. is_over (mark_of top (smallest none os)) f ≡ false) (fencings_of k rows))
        (sym e)
        (All-map (closed_under top) (fencings_of k rows) (largest-All none (fencings_of k rows))))
