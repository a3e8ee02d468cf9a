-- ===== src/Invariants/Acyclic.antt =====
-- `inBlocksCycle` (src/invariants.ts) ends within its fuel, and finds nothing in an acyclic graph.
use front_desk_scheduler.Base.{
  ℕ, zero, suc, ◌<◌, ◌≤◌, ◌≡◌, ◌≢◌, refl, sym, inl, inr, Bool, true, false, not, Option, none, some,
  List, [], ◌∷◌, length, filterb, length-filterb-le, arith, All, Bool-cases, subst,
}
use front_desk_scheduler.Policy.{BeadEdge}
use front_desk_scheduler.World.{World, WorkItem, item_of, is_blocks}
use front_desk_scheduler.Invariants.Cycle.{
  Walk, has, delete, edges_of, visit_edges, leave, visit, nowhere, verdict, enough_fuel,
  in_blocks_cycle,
}

-- Every "blocks" edge leads to a lower rank.
abbrev pub Falls : (ℕ → ℕ) → ℕ → List BeadEdge → Type 0
Falls rank n = All (λ e. is_blocks e.kind ≡ true → rank e.target_number < rank n)

abbrev pub IsAcyclic : (ℕ → ℕ) → List WorkItem → Type 0
IsAcyclic rank items = (n : ℕ) → Falls rank n (edges_of (item_of items n))

abbrev Above : (ℕ → ℕ) → ℕ → List ℕ → Type 0
Above rank n = All (λ m. rank n < rank m)

Above-mono :
    (rank : ℕ → ℕ) (m n : ℕ) (st : List ℕ) → rank m < rank n → Above rank n st → Above rank m st
Above-mono rank m n [] h a = tt
Above-mono rank m n (x ∷ st) h a = (omega (arith, a.0), Above-mono rank m n st h a.1)

Above-has : (rank : ℕ → ℕ) (n : ℕ) (st : List ℕ) → Above rank n st → has n st ≡ false
Above-has rank n [] a = refl
Above-has rank n (x ∷ st) a = ground (arith, a.0, Above-has rank n st a.1)

Above-delete : (rank : ℕ → ℕ) (n : ℕ) (st : List ℕ) → Above rank n st → delete n st ≡ st
Above-delete rank n [] a = refl
Above-delete rank n (x ∷ st) a = ground (arith, a.0, Above-delete rank n st a.1)

-- No cycle was met, and the stack is as before.
abbrev Clean : List ℕ → Option (Bool × Walk) → Type 0
Clean st none = Unit
Clean st (some (b, t)) = (b ≡ false) × (t.stack ≡ st)

visit_edges-Clean :
    (v : ℕ → Walk → Option (Bool × Walk)) (rank : ℕ → ℕ) (n : ℕ) (st : List ℕ)
    → ((m : ℕ) (s : Walk) → rank m < rank n → s.stack ≡ st → Clean st (v m s))
    → (es : List BeadEdge) (s : Walk) → Falls rank n es
    → s.stack ≡ st
    → Clean st (visit_edges v es s)
unfolding visit_edges
visit_edges-Clean v rank n st ok [] s f h = (refl, h)
visit_edges-Clean v rank n st ok (e ∷ es) s f h =
    go (is_blocks e.kind) (v e.target_number s) (λ p. ok e.target_number s (f.0 p) h)
      (λ t q. visit_edges-Clean v rank n st ok es t f.1 q)
  where
    go :
        (b : Bool) (r : Option (Bool × Walk))
        → (b ≡ true → Clean st r)
        → ((t : Walk) → t.stack ≡ st → Clean st (visit_edges v es t))
        → Clean st (elim b [
          | false ↦ visit_edges v es s
          | true ↦ elim r [
            | none ↦ none
            | some (true, t) ↦ some (true, t)
            | some (false, t) ↦ visit_edges v es t
          ]
        ])
    go false r q rest = rest s h
    go true none q rest = tt
    go true (some (true, t)) q rest = cc ((q refl).0)
    go true (some (false, t)) q rest = rest t (q refl).1

leave-Clean :
    (rank : ℕ → ℕ) (n : ℕ) (st : List ℕ) (r : Option (Bool × Walk))
    → Above rank n st
    → Clean (n ∷ st) r
    → Clean st (leave n r)
leave-Clean rank n st none a c = tt
leave-Clean rank n st (some (true, t)) a c = cc (c.0)
leave-Clean rank n st (some (false, t)) a c =
    (refl, rw c.1 (ground (arith, Above-delete rank n st a)))

visit-Clean :
    (items : List WorkItem) (rank : ℕ → ℕ)
    → IsAcyclic rank items
    → (fuel n : ℕ) (s : Walk) → Above rank n s.stack
    → Clean s.stack (visit items fuel n s)
unfolding visit
visit-Clean items rank a zero n s h = tt
visit-Clean items rank a (suc fuel) n s h =
    rw (Above-has rank n s.stack h, visit)
      (elim (Bool-cases (has n s.seen)) [
        | inl old ↦ rw (old, visit) (refl, refl)
        | inr new ↦
            rw (new, visit)
              (leave-Clean rank n s.stack _ h (
                visit_edges-Clean (visit items fuel) rank n (n ∷ s.stack)
                  (deeper (visit-Clean items rank a fuel)) (edges_of (item_of items n)) _ (a n)
                  refl))
      ])
  where
    deeper :
        ((m : ℕ) (t : Walk) → Above rank m t.stack → Clean t.stack (visit items fuel m t))
        → (m : ℕ) (t : Walk) → rank m < rank n
        → t.stack ≡ n ∷ s.stack
        → Clean (n ∷ s.stack) (visit items fuel m t)
    deeper ih m t lower e =
        subst (λ st. Clean st (visit items fuel m t)) e
          (ih m t (subst (Above rank m) (sym e) (lower, Above-mono rank m n s.stack lower h)))

abbrev is_unseen : List ℕ → WorkItem → Bool
is_unseen seen i = not (has i.number seen)

-- The items that the search has not entered.
abbrev unseen : List WorkItem → List ℕ → ℕ
unseen items seen = length (filterb (is_unseen seen) items)

unseen-cons-le :
    (items : List WorkItem) (n : ℕ) (seen : List ℕ) → unseen items (n ∷ seen) ≤ unseen items seen
unseen-cons-le [] n seen = omega arith
unseen-cons-le (i ∷ items) n seen = ground (arith, unseen-cons-le items n seen)

unseen-cons-lt :
    (items : List WorkItem) (n : ℕ) (seen : List ℕ) (i : WorkItem)
    → item_of items n ≡ some i
    → has n seen ≡ false
    → unseen items (n ∷ seen) < unseen items seen
unfolding item_of
unseen-cons-lt [] n seen i e h = cc
unseen-cons-lt (x ∷ items) n seen i e h =
    ground (arith, unseen-cons-lt items n seen i, unseen-cons-le items n seen)

-- The search answered, and entered no fewer items than before.
abbrev Ends : List WorkItem → ℕ → Option (Bool × Walk) → Type 0
Ends items k none = ⊥
Ends items k (some (b, t)) = unseen items t.seen ≤ k

Ends-mono :
    (items : List WorkItem) (j k : ℕ) (r : Option (Bool × Walk))
    → j ≤ k
    → Ends items j r
    → Ends items k r
Ends-mono items j k none h e = e
Ends-mono items j k (some (b, t)) h e = omega arith

visit_edges-Ends :
    (items : List WorkItem) (v : ℕ → Walk → Option (Bool × Walk)) (k : ℕ)
    → ((m : ℕ) (s : Walk) → unseen items s.seen ≤ k → Ends items (unseen items s.seen) (v m s))
    → (es : List BeadEdge) (s : Walk) → unseen items s.seen ≤ k
    → Ends items (unseen items s.seen) (visit_edges v es s)
unfolding visit_edges
visit_edges-Ends items v k ok [] s h = omega arith
visit_edges-Ends items v k ok (e ∷ es) s h =
    go (is_blocks e.kind) (v e.target_number s) (ok e.target_number s h)
      (λ t q. visit_edges-Ends items v k ok es t q)
  where
    go :
        (b : Bool) (r : Option (Bool × Walk))
        → Ends items (unseen items s.seen) r
        → ((t : Walk)
            → unseen items t.seen ≤ k
            → Ends items (unseen items t.seen) (visit_edges v es t))
        → Ends items (unseen items s.seen) (elim b [
          | false ↦ visit_edges v es s
          | true ↦ elim r [
            | none ↦ none
            | some (true, t) ↦ some (true, t)
            | some (false, t) ↦ visit_edges v es t
          ]
        ])
    go false r q rest = rest s h
    go true none q rest = q
    go true (some (true, t)) q rest = q
    go true (some (false, t)) q rest =
        Ends-mono items (unseen items t.seen) (unseen items s.seen) (visit_edges v es t) q
          (rest t (omega arith))

leave-Ends :
    (items : List WorkItem) (k n : ℕ) (r : Option (Bool × Walk))
    → Ends items k r
    → Ends items k (leave n r)
leave-Ends items k n none e = e
leave-Ends items k n (some (true, t)) e = e
leave-Ends items k n (some (false, t)) e = e

visit-Ends :
    (items : List WorkItem) (fuel n : ℕ) (s : Walk)
    → unseen items s.seen < fuel
    → Ends items (unseen items s.seen) (visit items fuel n s)
unfolding visit visit_edges
visit-Ends items zero n s h = absurd (omega arith)
visit-Ends items (suc fuel) n s h = elim (Bool-cases (has n s.stack)) [
  | inl hit ↦ rw (hit, visit) (omega arith)
  | inr miss ↦
      rw (miss, visit)
        (elim (Bool-cases (has n s.seen)) [
          | inl old ↦ rw (old, visit) (omega arith)
          | inr new ↦
              rw (new, visit)
                (leave-Ends items (unseen items s.seen) n _
                  (enter new (item_of items n) refl (λ m t. visit-Ends items fuel m t)))
        ])
]
  where
    t : Walk
    t = record { seen = n ∷ s.seen; stack = n ∷ s.stack }

    enter :
        has n s.seen ≡ false
        → (o : Option WorkItem) → item_of items n ≡ o
        → ((m : ℕ) (u : Walk)
            → unseen items u.seen < fuel
            → Ends items (unseen items u.seen) (visit items fuel m u))
        → Ends items (unseen items s.seen) (visit_edges (visit items fuel) (edges_of o) t)
    enter new none e deeper = unseen-cons-le items n s.seen
    enter new (some i) e deeper =
        let fewer = unseen-cons-lt items n s.seen i e new in
        Ends-mono items (unseen items (n ∷ s.seen)) (unseen items s.seen)
          (visit_edges (visit items fuel) i.edges t) (omega arith)
          (visit_edges-Ends items (visit items fuel) (unseen items (n ∷ s.seen))
            (λ m u k. deeper m u (omega arith)) i.edges t (omega arith))

verdict-Clean : (r : Option (Bool × Walk)) → Clean [] r → verdict r ≡ false
verdict-Clean none c = refl
verdict-Clean (some (b, t)) c = c.0

-- Where every "blocks" edge leads to a lower rank, no item is found to be on a cycle.
pub in_blocks_cycle-IsAcyclic :
    (w : World) (rank : ℕ → ℕ) (id : ℕ) → IsAcyclic rank w.items → in_blocks_cycle w id ≡ false
unfolding in_blocks_cycle
in_blocks_cycle-IsAcyclic w rank id a =
    verdict-Clean (visit w.items (enough_fuel w.items) id nowhere)
      (visit-Clean w.items rank a (enough_fuel w.items) id nowhere tt)

answered : (items : List WorkItem) (k : ℕ) (r : Option (Bool × Walk)) → Ends items k r → r ≢ none
answered items k none e h = e
answered items k (some (b, t)) e h = cc

-- The search from any number answers, where its calls may nest as deep as there are items and one
-- more.
pub visit_total :
    (items : List WorkItem) (id : ℕ) → visit items (enough_fuel items) id nowhere ≢ none
visit_total items id =
    answered items (unseen items []) (visit items (enough_fuel items) id nowhere) (
      visit-Ends items (enough_fuel items) id nowhere
        (omega (arith, length-filterb-le (is_unseen []) items)))
