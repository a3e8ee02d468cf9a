-- ===== src/Scheduling/Blockers.antt =====
-- What the counts of `assembleScheduling` (src/scheduling.ts) count.
use front_desk_scheduler.Base.{
  ℕ, ◌+◌, ◌≡◌, refl, String, Bool, ◌&&◌, List, [], ◌∷◌, map, length, filterb, ◌=ₛ◌, arith, count_of,
  count_of-bump, has_text,
}
use front_desk_scheduler.Scheduling.{
  RawItem, RawTypedEdge, SchedulingItem, is_blocker_kind, Tally, tally_edge, tally, empty_tally,
  ids_of, assemble_item, assemble_scheduling,
}

-- The edges that gate `id`: of a blocking kind, from `id`, to something that is open.
abbrev pub gates : List String → String → RawTypedEdge → Bool
gates open_ids id e =
    is_blocker_kind e.edge_type && ((e.item_id =ₛ id) && has_text e.dep_item_id open_ids)

-- The edges by which `id` holds something open back.
abbrev pub holds_back : List String → String → RawTypedEdge → Bool
holds_back open_ids id e =
    is_blocker_kind e.edge_type && ((e.dep_item_id =ₛ id) && has_text e.item_id open_ids)

abbrev pub count_edges : (RawTypedEdge → Bool) → List RawTypedEdge → ℕ
count_edges p es = length (filterb p es)

pub tally_counts :
    (open_ids : List String) (id : String) (es : List RawTypedEdge) (t : Tally)
    → (count_of id (tally open_ids es t).open_blockers
        ≡ count_edges (gates open_ids id) es + count_of id t.open_blockers)
      × (count_of id (tally open_ids es t).unblocks
          ≡ count_edges (holds_back open_ids id) es + count_of id t.unblocks)
unfolding tally tally_edge
tally_counts open_ids id [] t = (omega arith, omega arith)
tally_counts open_ids id (e ∷ es) t =
    let ih = tally_counts open_ids id es (tally_edge open_ids e t) in
    (
      ground (arith, ih, count_of-bump e.item_id id t.open_blockers),
      ground (arith, ih, count_of-bump e.dep_item_id id t.unblocks),
    )

-- Each item is assembled from its row: its open blockers are the blocking edges from it to rows
-- of the set, and what it unblocks the blocking edges to it from rows of the set.
abbrev pub IsAssembled :
    List RawItem → List RawTypedEdge → List String → RawItem → SchedulingItem → Type 0
IsAssembled items edges leased r i =
    (i.id ≡ r.item_id)
    × (i.open_blockers ≡ count_edges (gates (ids_of items) r.item_id) edges)
    × (i.unblocks ≡ count_edges (holds_back (ids_of items) r.item_id) edges)
    × (i.leased ≡ has_text r.item_id leased)

abbrev pub AllAssembled :
    (RawItem → SchedulingItem → Type 0) → List RawItem → List SchedulingItem → Type 0
AllAssembled P [] [] = Unit
AllAssembled P (r ∷ rs) (i ∷ is) = P r i × AllAssembled P rs is
AllAssembled P [] (i ∷ is) = ⊥
AllAssembled P (r ∷ rs) [] = ⊥

assembled :
    (items : List RawItem) (edges : List RawTypedEdge) (leased : List String) (rs : List RawItem)
    → AllAssembled
        (IsAssembled items edges leased)
        rs
        (map (assemble_item (tally (ids_of items) edges empty_tally) leased) rs)
unfolding assemble_item count_of
assembled items edges leased [] = tt
assembled items edges leased (r ∷ rs) =
    let counts = tally_counts (ids_of items) r.item_id edges empty_tally in
    ((refl, omega (arith, counts), omega (arith, counts), refl), assembled items edges leased rs)

-- The items are assembled from the rows in their order. Each one's open blockers are the blocking
-- edges from it to rows of the set, what it unblocks the blocking edges to it from rows of the
-- set, and it is leased exactly when its id is among the leased ones.
pub assemble_scheduling_counts :
    (items : List RawItem) (edges : List RawTypedEdge) (leased : List String)
    → AllAssembled (IsAssembled items edges leased) items (assemble_scheduling items edges leased)
unfolding assemble_scheduling
assemble_scheduling_counts items edges leased = assembled items edges leased items
