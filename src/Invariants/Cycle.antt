-- ===== src/Invariants/Cycle.antt =====
-- src/invariants.ts: `inBlocksCycle`, a depth-first search along "blocks" edges. The search takes
-- fuel and answers `none` when that runs out.
use front_desk_scheduler.Base.{
  ℕ, zero, suc, Bool, true, false, not, Option, none, some, List, [], ◌∷◌, ◌==◌, length, any,
  filterb,
}
use front_desk_scheduler.Policy.{BeadEdge}
use front_desk_scheduler.World.{World, WorkItem, item_of, is_blocks}

-- The two sets that the visits share.
pub record Walk : Type 0 where
  pub seen : List ℕ
  pub stack : List ℕ

abbrev pub has : ℕ → List ℕ → Bool
has n = any (λ m. m == n)

abbrev pub delete : ℕ → List ℕ → List ℕ
delete n = filterb (λ m. not (m == n))

abbrev pub edges_of : Option WorkItem → List BeadEdge
edges_of none = []
edges_of (some i) = i.edges

-- The loop over an item's edges, which stops at the first visit that answers `true`.
unfoldable pub visit_edges :
    (ℕ → Walk → Option (Bool × Walk)) → List BeadEdge → Walk → Option (Bool × Walk)
visit_edges visit [] s = some (false, s)
visit_edges visit (e ∷ es) s = elim (is_blocks e.kind) [
  | false ↦ visit_edges visit es s
  | true ↦ elim (visit e.target_number s) [
    | none ↦ none
    | some (true, t) ↦ some (true, t)
    | some (false, t) ↦ visit_edges visit es t
  ]
]

abbrev pub leave : ℕ → Option (Bool × Walk) → Option (Bool × Walk)
leave n none = none
leave n (some (true, t)) = some (true, t)
leave n (some (false, t)) = some (false, record t { stack = delete n t.stack })

unfoldable pub visit : List WorkItem → ℕ → ℕ → Walk → Option (Bool × Walk)
visit items zero n s = none
visit items (suc fuel) n s = elim (has n s.stack) [
  | true ↦ some (true, s)
  | false ↦ elim (has n s.seen) [
    | true ↦ some (false, s)
    | false ↦ leave n (
        visit_edges (visit items fuel) (edges_of (item_of items n))
          (record { seen = n ∷ s.seen; stack = n ∷ s.stack }))
  ]
]

abbrev pub nowhere : Walk
nowhere = record { seen = []; stack = [] }

abbrev pub verdict : Option (Bool × Walk) → Bool
verdict none = false
verdict (some (b, _)) = b

-- One visit for each item, and one more for a target that is no item.
abbrev pub enough_fuel : List WorkItem → ℕ
enough_fuel items = suc (length items)

unfoldable pub in_blocks_cycle : World → ℕ → Bool
in_blocks_cycle w id = verdict (visit w.items (enough_fuel w.items) id nowhere)
