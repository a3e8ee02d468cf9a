-- ===== src/World.antt =====
-- src/contract.ts: the world that the scheduler's operations change, and what is derived from it.
-- An object that the source changes in place is replaced in its list, at the first that matches.
pub mod Lookup
pub mod Unique
use front_desk_scheduler.Base.{
  ℕ, String, Bool, true, false, ◌&&◌, Option, none, some, List, [], ◌∷◌, ◌==◌, ◌=ₛ◌, if◌then◌else◌,
  find, filterb, every, any, length,
}
use front_desk_scheduler.Policy.{
  BeadKind, BeadEdge, BeadEdgeType, parent_child, blocks, related, discovered_from,
}

pub data ItemPhase : Type 0 where
  blocked ready in_progress done : ItemPhase

pub data AgentPhase : Type 0 where
  idle claiming working releasing : AgentPhase

pub record WorkItem : Type 0 where
  pub number : ℕ
  pub title : String
  pub kind : BeadKind
  pub phase : ItemPhase
  pub effort : ℕ
  pub value : ℕ
  pub age_days : ℕ
  pub edges : List BeadEdge
  pub owner_id : Option String

pub record Agent : Type 0 where
  pub id : String
  pub phase : AgentPhase
  pub current_item : Option ℕ
  pub capacity : ℕ

pub record MutBudget : Type 0 where
  pub id : String
  pub capacity_points : ℕ
  pub consumed : ℕ

pub record World : Type 0 where
  pub items : List WorkItem
  pub agents : List Agent
  pub budget : MutBudget
  pub clock : ℕ

abbrev pub is_ready : ItemPhase → Bool
is_ready ready = true
is_ready _ = false

abbrev pub is_blocked : ItemPhase → Bool
is_blocked blocked = true
is_blocked _ = false

abbrev pub is_in_progress : ItemPhase → Bool
is_in_progress in_progress = true
is_in_progress _ = false

abbrev pub is_done : ItemPhase → Bool
is_done done = true
is_done _ = false

abbrev pub is_idle : AgentPhase → Bool
is_idle idle = true
is_idle _ = false

abbrev pub is_none {ℓ} : {A : Type ℓ} → Option A → Bool
is_none none = true
is_none (some _) = false

abbrev pub is_blocks : BeadEdgeType → Bool
is_blocks blocks = true
is_blocks _ = false

-- `items.find((i) => i.number === id)`, over the list of items.
unfoldable pub item_of : List WorkItem → ℕ → Option WorkItem
item_of [] n = none
item_of (i ∷ is) n = if i.number == n then some i else item_of is n

unfoldable pub agent_of : List Agent → String → Option Agent
agent_of [] a = none
agent_of (g ∷ gs) a = if g.id =ₛ a then some g else agent_of gs a

abbrev pub item_by_id : World → ℕ → Option WorkItem
item_by_id w n = item_of w.items n

abbrev pub phase_is_done : Option WorkItem → Bool
phase_is_done none = false
phase_is_done (some i) = is_done i.phase

-- Every item that `edges` names by a `blocks` edge is done.
unfoldable pub edges_satisfied : List WorkItem → List BeadEdge → Bool
edges_satisfied items edges =
    every (λ e. phase_is_done (item_of items e.target_number))
      (filterb (λ e. is_blocks e.kind) edges)

unfoldable pub deps_satisfied : World → WorkItem → Bool
deps_satisfied w item = edges_satisfied w.items item.edges

abbrev pub claimable : World → WorkItem → Bool
claimable w i = is_ready i.phase && (is_none i.owner_id && deps_satisfied w i)

unfoldable pub ready_set : World → List WorkItem
ready_set w = filterb (claimable w) w.items

unfoldable pub unblocks_count : World → ℕ → ℕ
unblocks_count w id =
    length (filterb (λ i. any (λ e. is_blocks e.kind && e.target_number == id) i.edges) w.items)

-- Writing to the object that `find` returned.
unfoldable pub set_item : ℕ → WorkItem → List WorkItem → List WorkItem
set_item n v [] = []
set_item n v (i ∷ is) = if i.number == n then v ∷ is else i ∷ set_item n v is

unfoldable pub set_agent : String → Agent → List Agent → List Agent
set_agent a v [] = []
set_agent a v (g ∷ gs) = if g.id =ₛ a then v ∷ gs else g ∷ set_agent a v gs
