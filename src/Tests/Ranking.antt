-- ===== src/Tests/Ranking.antt =====
-- Runs of the theorems about src/policy.ts, src/scheduler.ts and src/capability.ts.
use front_desk_scheduler.Base.{
  ◌+◌, ◌<◌, ◌≤◌, ◌≡◌, ◌↔◌, ◌⊎◌, refl, true, false, none, List, [], ◌∷◌, All, sort_by, insert_sorted,
}
use front_desk_scheduler.Policy.{PriorityInput, BeadKind, BeadState, is_eligible}
use front_desk_scheduler.Policy.Score.{RankedItem, default_weights, prioritize}
use front_desk_scheduler.Policy.Ranking.{
  fitting_effort, IsCrowdedOut, IsRanked, prioritize-IsRanked, prioritize_greedy,
}
use front_desk_scheduler.Policy.Capacity.{
  Budget, MeteredUnit, WindowKind, plan_capacity, budget_gate, budget_gate_iff,
}
use front_desk_scheduler.World.{ready_set, deps_satisfied, edges_satisfied}
use front_desk_scheduler.Dispatch.{next_pick, ranked_queue, to_priority_input}
use front_desk_scheduler.Dispatch.Pick.{Claimable, next_pick-Claimable}
use front_desk_scheduler.Capability.{ActorCapabilities}
use front_desk_scheduler.Tests.Data.{hundredths, hundredths-IsOrdered, two_items}

abbrev small : PriorityInput
small = record {
  number = 1;
  title = "small";
  kind = BeadKind.task;
  state = BeadState.open_;
  effort = 2;
  value = 3;
  open_blockers = 0;
  unblocks = 1;
  budget_id = none;
  age_days = none;
}

abbrev queue : List PriorityInput
queue =
    small
    ∷ record small { number = 2; effort = 4 }
    ∷ record small { number = 3; open_blockers = 1 }
    ∷ []

prioritize-IsRanked_example :
    IsRanked hundredths (prioritize hundredths queue 5 (default_weights hundredths))
prioritize-IsRanked_example =
    prioritize-IsRanked hundredths hundredths-IsOrdered queue 5 (default_weights hundredths)

abbrev ranked : List (RankedItem hundredths)
ranked = prioritize hundredths queue 5 (default_weights hundredths)

prioritize_greedy_example :
    (fitting_effort hundredths ranked ≤ 5)
    × All
        (λ (r : RankedItem hundredths).
          (r.eligible ≡ is_eligible r.input)
          × ((r.fits_remaining ≡ false) ⊎ (is_eligible r.input ≡ true)))
        ranked
    × All (IsCrowdedOut hundredths 5 (fitting_effort hundredths ranked)) ranked
prioritize_greedy_example = prioritize_greedy hundredths queue 5 (default_weights hundredths)

abbrev week : Budget
week = record {
  id = "week";
  window = record { kind = WindowKind.rolling; duration_hours = 168; label = "week" };
  capacity_points = 10;
  conversion = record { unit = MeteredUnit.tokens; unit_per_point = 1000 };
}

budget_gate_iff_example :
    ((budget_gate (plan_capacity week queue 7) 2).allow ≡ true)
    ↔ ((week.capacity_points ≡ 0) ⊎ (7 + 2 < 10))
budget_gate_iff_example = budget_gate_iff week queue 7 2

next_pick-Claimable_example : Claimable two_items 1
unfolding next_pick ranked_queue prioritize sort_by insert_sorted ready_set deps_satisfied
    edges_satisfied to_priority_input
next_pick-Claimable_example = next_pick-Claimable hundredths two_items 1 refl

abbrev cloud : ActorCapabilities
cloud = record { held = "deno" ∷ []; because = [] }
