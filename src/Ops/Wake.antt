-- ===== src/Ops/Wake.antt =====
-- The wake-up loop of `complete` (src/ops.ts): what it does to each item, and to none else.
use front_desk_scheduler.Base.{
  ℕ, ◌≡◌, refl, ap, ◌∙◌, ◌&&◌, Option, none, some, List, [], ◌∷◌, ◌++◌, map, filterb, arith,
}
use mathlib.Core.List.{append_assoc, append-nil}
use front_desk_scheduler.Policy.{BeadEdge}
use front_desk_scheduler.World.{
  WorkItem, item_of, phase_is_done, edges_satisfied, is_done, is_blocked,
}
use front_desk_scheduler.Ops.{wakes, promote, wake_from}

-- Two lists of items that agree on what is done.
abbrev pub SameDone : List WorkItem → List WorkItem → Type 0
SameDone xs ys = (n : ℕ) → phase_is_done (item_of xs n) ≡ phase_is_done (item_of ys n)

pub edges_satisfied-SameDone :
    (xs ys : List WorkItem)
    → SameDone xs ys
    → (es : List BeadEdge) → edges_satisfied xs es ≡ edges_satisfied ys es
unfolding edges_satisfied
edges_satisfied-SameDone xs ys s [] = refl
edges_satisfied-SameDone xs ys s (e ∷ es) =
    ground (arith, edges_satisfied-SameDone xs ys s es, s e.target_number)

promote_same_done :
    (all : List WorkItem) (c : WorkItem) → is_done (promote all c).phase ≡ is_done c.phase
promote_same_done all c = ground arith

promote_number : (all : List WorkItem) (c : WorkItem) → (promote all c).number ≡ c.number
promote_number all c = ground arith

done_replaced :
    (before rest : List WorkItem) (c p : WorkItem)
    → p.number ≡ c.number
    → is_done p.phase ≡ is_done c.phase
    → SameDone ((before ++ (p ∷ [])) ++ rest) (before ++ (c ∷ rest))
unfolding item_of
done_replaced [] rest c p h k n = ground arith
done_replaced (x ∷ before) rest c p h k n = ground (arith, done_replaced before rest c p h k n)

abbrev pub woken_of : List WorkItem → List WorkItem → List ℕ
woken_of all rest = map (λ i. i.number) (filterb (wakes all) rest)

promote-SameDone :
    (xs ys : List WorkItem) → SameDone xs ys → (c : WorkItem) → wakes xs c ≡ wakes ys c
promote-SameDone xs ys s c =
    ap (λ b. is_blocked c.phase && b) (edges_satisfied-SameDone xs ys s c.edges)

wake_from_lem :
    (all before rest : List WorkItem)
    → SameDone (before ++ rest) all
    → wake_from before rest ≡ (before ++ map (promote all) rest, woken_of all rest)
unfolding wake_from
wake_from_lem all before [] s = ground (arith, append-nil before)
wake_from_lem all before (c ∷ rest) s =
    let items = before ++ (c ∷ rest) in
    let p = promote items c in
    let later = λ (n : ℕ).
      done_replaced before rest c p (promote_number items c) (promote_same_done items c) n ∙ s n in
    let ih = wake_from_lem all (before ++ (p ∷ [])) rest later in
    ground (
      arith,
      ih,
      promote-SameDone items all s c,
      append_assoc before (p ∷ []) (map (promote all) rest),
    )

-- The loop over all items promotes each one by the items as they were when it began.
pub wake_from_all :
    (all : List WorkItem) → wake_from [] all ≡ (map (promote all) all, woken_of all all)
wake_from_all all = wake_from_lem all [] all (λ n. refl)

pub item_of-promote :
    (all is : List WorkItem) (n : ℕ)
    → item_of (map (promote all) is) n
      ≡ elim (item_of is n) [ none ↦ none | some i ↦ some (promote all i) ]
unfolding item_of
item_of-promote all [] n = refl
item_of-promote all (x ∷ is) n = ground (arith, item_of-promote all is n, promote_number all x)

pub numbers-promote :
    (all is : List WorkItem) → map (λ i. i.number) (map (promote all) is) ≡ map (λ i. i.number) is
numbers-promote all [] = refl
numbers-promote all (x ∷ is) = ground (arith, numbers-promote all is)

-- Waking items leaves what is done as it was.
pub all-SameDone : (all : List WorkItem) → SameDone (map (promote all) all) all
all-SameDone all n = go (item_of all n) (item_of-promote all all n)
  where
    go :
        (o : Option WorkItem)
        → item_of (map (promote all) all) n ≡ elim o [ none ↦ none | some i ↦ some (promote all i) ]
        → phase_is_done (item_of (map (promote all) all) n) ≡ phase_is_done o
    go none e = ap phase_is_done e
    go (some i) e = ap phase_is_done e ∙ promote_same_done all i
