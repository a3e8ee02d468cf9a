-- ===== src/Dispatch.antt =====
-- src/scheduler.ts: the adapter from a world to the policy.
pub mod Pick
use front_desk_scheduler.Base.{ℕ, ◌-◌, String, Option, none, some, List, [], ◌∷◌, map}
use front_desk_scheduler.Number.{Double}
use front_desk_scheduler.Policy.{PriorityInput, BeadState}
use front_desk_scheduler.Policy.Score.{RankedItem, prioritize, default_weights}
use front_desk_scheduler.Policy.Capacity.{
  Budget, WindowKind, MeteredUnit, GateDecision, plan_capacity, budget_gate,
}
use front_desk_scheduler.World.{World, WorkItem, ItemPhase, ready_set, unblocks_count}

abbrev pub state_of_phase : ItemPhase → BeadState
state_of_phase ItemPhase.in_progress = BeadState.in_progress
state_of_phase _ = BeadState.open_

unfoldable pub to_priority_input : World → WorkItem → PriorityInput
to_priority_input w item = record {
  number = item.number;
  title = item.title;
  kind = item.kind;
  state = state_of_phase item.phase;
  effort = item.effort;
  value = item.value;
  open_blockers = 0;
  unblocks = unblocks_count w item.number;
  budget_id = none;
  age_days = some item.age_days;
}

-- The policy's input of a ranked item, without its budget.
abbrev pub unranked : {d : Double} → RankedItem d → PriorityInput
unranked r = record (r.input) { budget_id = none }

unfoldable pub ranked_queue : Double → World → List PriorityInput
ranked_queue d w =
    let ready = map (to_priority_input w) (ready_set w) in
    let remaining = w.budget.capacity_points - w.budget.consumed in
    map unranked (prioritize d ready remaining (default_weights d))

abbrev pub first_number : List PriorityInput → Option ℕ
first_number [] = none
first_number (i ∷ _) = some i.number

unfoldable pub next_pick : Double → World → Option ℕ
next_pick d w = first_number (ranked_queue d w)

abbrev pub live_budget : World → Budget
live_budget w = record {
  id = w.budget.id;
  window = record { kind = WindowKind.rolling; duration_hours = 5; label = "5h" };
  capacity_points = w.budget.capacity_points;
  conversion = record { unit = MeteredUnit.tokens; unit_per_point = 50_000 };
}

unfoldable pub gate_for : World → ℕ → GateDecision
gate_for w points = budget_gate (plan_capacity (live_budget w) [] w.budget.consumed) points
