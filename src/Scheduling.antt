-- ===== src/Scheduling.antt =====
-- src/scheduling.ts: the ready-rule computation. A row is as it is once its numbers are coerced;
-- effort and value are whole numbers.
pub mod Blockers
pub mod Graphs
use front_desk_scheduler.Base.{
  ℕ, String, Bool, true, false, ◌&&◌, ◌||◌, not, Option, none, some, List, [], ◌∷◌, ◌++◌, map,
  filterb, ◌=ₛ◌, if◌then◌else◌, Text, codes, split_on, trim, to_number, Counts, count_of, bump,
  has_text,
}

pub record RawItem : Type 0 where
  pub item_id : String
  pub number : Option ℕ
  pub title : String
  pub repository : String
  pub status : String
  pub kind : String
  pub effort : ℕ
  pub value : ℕ
  pub depends_on : String
  pub needs : Option String
  pub age_days : Option ℕ

pub record RawEdge : Type 0 where
  pub item_id : String
  pub dep_item_id : String

pub record RawTypedEdge : Type 0 where
  pub item_id : String
  pub dep_item_id : String
  pub edge_type : String

pub record SchedulingItem : Type 0 where
  pub id : String
  pub number : ℕ
  pub title : String
  pub repository : String
  pub status : String
  pub kind : String
  pub effort : ℕ
  pub value : ℕ
  pub depends_on : List (Option ℕ)
  pub needs : List Text
  pub open_blockers : ℕ
  pub unblocks : ℕ
  pub age_days : ℕ
  pub leased : Bool

unfoldable pub as_blocking_edges : List RawEdge → List RawTypedEdge
as_blocking_edges =
    map λ e. record { item_id = e.item_id; dep_item_id = e.dep_item_id; edge_type = "blocks" }

-- `BLOCKER_KINDS`.
unfoldable pub is_blocker_kind : String → Bool
is_blocker_kind k = (k =ₛ "blocks") || (k =ₛ "parent-child")

pub record Tally : Type 0 where
  pub open_blockers : Counts
  pub unblocks : Counts

-- One edge of the loop over `edges`.
unfoldable pub tally_edge : List String → RawTypedEdge → Tally → Tally
tally_edge open_ids e t = if not (is_blocker_kind e.edge_type) then t else record {
  open_blockers =
      if has_text e.dep_item_id open_ids then bump e.item_id t.open_blockers else t.open_blockers;
  unblocks = if has_text e.item_id open_ids then bump e.dep_item_id t.unblocks else t.unblocks;
}

unfoldable pub tally : List String → List RawTypedEdge → Tally → Tally
tally open_ids [] t = t
tally open_ids (e ∷ es) t = tally open_ids es (tally_edge open_ids e t)

abbrev pub empty_tally : Tally
empty_tally = record { open_blockers = []; unblocks = [] }

abbrev pub or_zero : Option ℕ → ℕ
or_zero none = 0
or_zero (some n) = n

-- `depends_on ? depends_on.split(",").map(Number) : []`.
unfoldable pub parse_depends_on : String → List (Option ℕ)
parse_depends_on s = if s =ₛ "" then [] else map to_number (split_on b',' (codes s))

abbrev pub is_some_text : Text → Bool
is_some_text [] = false
is_some_text (_ ∷ _) = true

unfoldable pub parse_needs : Option String → List Text
parse_needs none = []
parse_needs (some s) =
    if s =ₛ "" then [] else filterb is_some_text (map trim (split_on b',' (codes s)))

abbrev pub ids_of : List RawItem → List String
ids_of = map (λ i. i.item_id)

unfoldable pub assemble_item : Tally → List String → RawItem → SchedulingItem
assemble_item t leased r = record {
  id = r.item_id;
  number = or_zero r.number;
  title = r.title;
  repository = r.repository;
  status = r.status;
  kind = r.kind;
  effort = r.effort;
  value = r.value;
  depends_on = parse_depends_on r.depends_on;
  needs = parse_needs r.needs;
  open_blockers = count_of r.item_id t.open_blockers;
  unblocks = count_of r.item_id t.unblocks;
  age_days = or_zero r.age_days;
  leased = has_text r.item_id leased;
}

unfoldable pub assemble_scheduling :
    List RawItem → List RawTypedEdge → List String → List SchedulingItem
assemble_scheduling items edges leased_ids =
    map (assemble_item (tally (ids_of items) edges empty_tally) leased_ids) items

pub record GraphRef : Type 0 where
  pub number : ℕ
  pub repository : String

pub record GraphEdge : Type 0 where
  pub from : GraphRef
  pub to : GraphRef
  pub kind : String

abbrev pub Blocked : Type 0
Blocked = List (String × List GraphRef)

pub record Graph : Type 0 where
  pub edges : List GraphEdge
  pub blocked_by : Blocked

-- `refById.get(id)`: the last of the items with this id.
unfoldable pub ref_by_id : List SchedulingItem → String → Option GraphRef
ref_by_id [] id = none
ref_by_id (i ∷ is) id = elim (ref_by_id is id) [
  | some r ↦ some r
  | none ↦
      if i.id =ₛ id then some (record { number = i.number; repository = i.repository }) else none
]

-- `blockedBy.get(id) ?? []`.
unfoldable pub blockers_of : String → Blocked → List GraphRef
blockers_of id [] = []
blockers_of id ((j, rs) ∷ m) = if j =ₛ id then rs else blockers_of id m

unfoldable pub push_blocker : String → GraphRef → Blocked → Blocked
push_blocker id r [] = (id, r ∷ []) ∷ []
push_blocker id r ((j, rs) ∷ m) =
    if j =ₛ id then (j, rs ++ (r ∷ [])) ∷ m else (j, rs) ∷ push_blocker id r m

unfoldable pub add_edge : RawTypedEdge → GraphRef → GraphRef → Graph → Graph
add_edge e from to g = record {
  edges = g.edges ++ (record { from = from; to = to; kind = e.edge_type } ∷ []);
  blocked_by =
      if is_blocker_kind e.edge_type then push_blocker e.item_id to g.blocked_by else g.blocked_by;
}

-- One edge of the loop: dropped unless both ends are in the set.
unfoldable pub graph_edge : List SchedulingItem → RawTypedEdge → Graph → Graph
graph_edge items e g = elim (ref_by_id items e.item_id) [
  | none ↦ g
  | some from ↦ elim (ref_by_id items e.dep_item_id) [ none ↦ g | some to ↦ add_edge e from to g ]
]

unfoldable pub graph_from : List SchedulingItem → List RawTypedEdge → Graph → Graph
graph_from items [] g = g
graph_from items (e ∷ es) g = graph_from items es (graph_edge items e g)

unfoldable pub assemble_graph : List SchedulingItem → List RawTypedEdge → Graph
assemble_graph items edges = graph_from items edges (record { edges = []; blocked_by = [] })
