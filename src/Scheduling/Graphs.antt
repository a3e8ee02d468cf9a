-- ===== src/Scheduling/Graphs.antt =====
-- The two readings of the dependency graph in src/scheduling.ts agree: an item's open blockers in
-- `assembleScheduling` are as many as the references that `assembleGraph` lists for it.
use front_desk_scheduler.Base.{
  ◌+◌, ◌≡◌, refl, sym, ap, ◌∙◌, String, Bool, true, false, Option, none, some, List, [], ◌∷◌, map,
  length, length-append, ◌=ₛ◌, =ₛ_iff, if◌then◌else◌, arith, has_text, subst,
}
use front_desk_scheduler.Scheduling.{
  RawItem, RawTypedEdge, SchedulingItem, ids_of, assemble_item, assemble_scheduling, GraphRef,
  Graph, Blocked, ref_by_id, blockers_of, push_blocker, add_edge, graph_edge, graph_from,
  assemble_graph, Tally, tally, empty_tally,
}
use front_desk_scheduler.Scheduling.Blockers.{gates, count_edges}

abbrev ids : List SchedulingItem → List String
ids = map (λ i. i.id)

abbrev is_found : Option GraphRef → Bool
is_found none = false
is_found (some _) = true

ref_found :
    (is : List SchedulingItem) (id : String) → is_found (ref_by_id is id) ≡ has_text id (ids is)
unfolding ref_by_id has_text
ref_found [] id = refl
ref_found (i ∷ is) id = ground (arith, ref_found is id)

length-push_blocker :
    (id j : String) (r : GraphRef) (m : Blocked)
    → length (blockers_of j (push_blocker id r m))
      ≡ (if id =ₛ j then 1 else 0) + length (blockers_of j m)
unfolding blockers_of push_blocker
length-push_blocker id j r [] = ground arith
length-push_blocker id j r ((k, rs) ∷ m) = ground (
  arith,
  length-push_blocker id j r m,
  length-append rs (r ∷ []),
  =ₛ_iff k id,
  =ₛ_iff k j,
  =ₛ_iff id j,
)

-- The graph after one edge, by what its two ends are found to be.
abbrev linked : RawTypedEdge → Graph → Option GraphRef → Option GraphRef → Graph
linked e g from to = elim from [
  | none ↦ g
  | some f ↦ elim to [ none ↦ g | some t ↦ add_edge e f t g ]
]

-- One edge lengthens the list of `id` if it gates it.
graph_edge_counts :
    (is : List SchedulingItem) (id : String) (e : RawTypedEdge) (g : Graph)
    → has_text id (ids is) ≡ true
    → length (blockers_of id (graph_edge is e g).blocked_by)
      ≡ (if gates (ids is) id e then 1 else 0) + length (blockers_of id g.blocked_by)
unfolding graph_edge add_edge
graph_edge_counts is id e g h =
    go (ref_by_id is e.item_id) (ref_found is e.item_id) (ref_by_id is e.dep_item_id)
      (ref_found is e.dep_item_id)
  where
    go :
        (from : Option GraphRef)
        → is_found from ≡ has_text e.item_id (ids is)
        → (to : Option GraphRef) → is_found to ≡ has_text e.dep_item_id (ids is)
        → length (blockers_of id (linked e g from to).blocked_by)
          ≡ (if gates (ids is) id e then 1 else 0) + length (blockers_of id g.blocked_by)
    go none p to q = ground (arith, =ₛ_iff e.item_id id)
    go (some f) p none q = ground (arith, =ₛ_iff e.item_id id)
    go (some f) p (some t) q =
        ground (arith, =ₛ_iff e.item_id id, length-push_blocker e.item_id id t g.blocked_by)

graph_from_counts :
    (is : List SchedulingItem) (id : String) (es : List RawTypedEdge) (g : Graph)
    → has_text id (ids is) ≡ true
    → length (blockers_of id (graph_from is es g).blocked_by)
      ≡ count_edges (gates (ids is) id) es + length (blockers_of id g.blocked_by)
unfolding graph_from
graph_from_counts is id [] g h = omega arith
graph_from_counts is id (e ∷ es) g h =
    ground (arith, graph_edge_counts is id e g h, graph_from_counts is id es (graph_edge is e g) h)

ids-assemble_item :
    (t : Tally) (leased : List String) (rs : List RawItem)
    → ids (map (assemble_item t leased) rs) ≡ ids_of rs
unfolding assemble_item
ids-assemble_item t leased [] = refl
ids-assemble_item t leased (r ∷ rs) = ap (◌∷◌ r.item_id) (ids-assemble_item t leased rs)

-- The graph lists for an item of the set as many blockers as there are blocking edges from it to
-- rows of the set.
pub assemble_graph-assemble_scheduling :
    (items : List RawItem) (edges : List RawTypedEdge) (leased : List String) (id : String)
    → has_text id (ids_of items) ≡ true
    → length
        (blockers_of id (assemble_graph (assemble_scheduling items edges leased) edges).blocked_by)
      ≡ count_edges (gates (ids_of items) id) edges
unfolding assemble_graph assemble_scheduling blockers_of
assemble_graph-assemble_scheduling items edges leased id h =
    graph_from_counts is id edges _ (subst (λ x. has_text id x ≡ true) (sym same) h)
    ∙ rw same (omega arith)
  where
    is : List SchedulingItem
    is = map (assemble_item (tally (ids_of items) edges empty_tally) leased) items

    same : ids is ≡ ids_of items
    same = ids-assemble_item (tally (ids_of items) edges empty_tally) leased items
