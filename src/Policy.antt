-- ===== src/Policy.antt =====
-- src/policy.ts: the pure policy. Effort, value and age are whole numbers here; a score is a
-- double, and a burn ratio is kept as the two numbers that are divided.
pub mod Score
pub mod Ranking
pub mod Capacity
use front_desk_scheduler.Base.{ℕ, String, Bool, true, false, ◌&&◌, ◌||◌, Option, ◌==◌}

pub data BeadKind : Type 0 where
  epic room door task : BeadKind

pub data BeadState : Type 0 where
  open_ in_progress blocked closed : BeadState

pub data BeadEdgeType : Type 0 where
  parent_child blocks related discovered_from : BeadEdgeType

pub record BeadEdge : Type 0 where
  pub kind : BeadEdgeType
  pub target_number : ℕ

pub record PriorityInput : Type 0 where
  pub number : ℕ
  pub title : String
  pub kind : BeadKind
  pub state : BeadState
  pub effort : ℕ
  pub value : ℕ
  pub open_blockers : ℕ
  pub unblocks : ℕ
  pub budget_id : Option String
  pub age_days : Option ℕ

abbrev pub is_live_state : BeadState → Bool
is_live_state open_ = true
is_live_state in_progress = true
is_live_state _ = false

-- The ready rule: live, with no open blocker.
unfoldable pub is_eligible : PriorityInput → Bool
is_eligible item = is_live_state item.state && item.open_blockers == 0
