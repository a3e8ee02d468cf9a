-- ===== src/Tests/Runs.antt =====
-- Runs of the theorems about src/contract.ts, src/ops.ts, src/invariants.ts and src/sim.ts.
use front_desk_scheduler.Base.{
  ◌+◌, ◌≤◌, ◌≡◌, ◌≢◌, ◌↔◌, refl, true, false, none, some, [], ◌∷◌, any, arith, ◌=ₛ◌, =ₛ_iff,
  if◌then◌else◌,
}
use front_desk_scheduler.World.{
  World, WorkItem, Agent, ItemPhase, AgentPhase, item_of, agent_of, claimable,
}
use front_desk_scheduler.Ops.{racy, safe, commit_claim, apply_spend, complete}
use front_desk_scheduler.Ops.Races.{
  Holds, commit_claim_racy-double, commit_claim_safe_iff, apply_spend_safe, complete_safe_wakes,
}
use front_desk_scheduler.Invariants.{safety_findings, should_be_ready}
use front_desk_scheduler.Invariants.Cycle.{in_blocks_cycle, visit, enough_fuel, nowhere}
use front_desk_scheduler.Invariants.Counting.{names_both}
use front_desk_scheduler.Invariants.Acyclic.{in_blocks_cycle-IsAcyclic, visit_total}
use front_desk_scheduler.Sim.{SimResult, Moved, start, micro_step, run_sim}
use front_desk_scheduler.Sim.Safety.{Inv, micro_step-Inv}
use front_desk_scheduler.Sim.Runs.{deps_of, start-Inv, OnlyDeadlocks, run_sim-safe, run_sim-acyclic}
use front_desk_scheduler.Tests.Data.{
  hundredths, first_item, second_item, free, two_items, options, two_items-IsStartable, by_number,
  two_items-IsAcyclic,
}

run_sim-acyclic_example :
    (r : SimResult) × (run_sim hundredths two_items options ≡ some r)
    × (r.violation ≡ none)
    × (r.steps ≤ 20)
run_sim-acyclic_example =
    run_sim-acyclic hundredths two_items options two_items-IsStartable refl by_number
      two_items-IsAcyclic

run_sim-safe_example :
    (r : SimResult) × (run_sim hundredths two_items options ≡ some r)
    × OnlyDeadlocks r.violation
    × (r.steps ≤ 20)
run_sim-safe_example = run_sim-safe hundredths two_items options two_items-IsStartable refl

micro_step-Inv_example :
    (t : Moved) × (micro_step hundredths safe (start two_items) "ann" ≡ some t)
    × Inv (deps_of two_items) t.0
unfolding start agent_of ◌=ₛ◌
micro_step-Inv_example =
    micro_step-Inv hundredths (deps_of two_items) (start two_items) "ann" (free "ann")
      (start-Inv two_items two_items-IsStartable) refl

-- Ann works on the first item.
abbrev at_work : World
at_work = record two_items {
  items =
      record first_item { phase = ItemPhase.in_progress; owner_id = some "ann" } ∷ second_item ∷ [];
  agents =
      record (free "ann") { phase = AgentPhase.working; current_item = some 1 } ∷ free "bob" ∷ [];
}

abbrev ann : Agent
ann = record (free "ann") { phase = AgentPhase.working; current_item = some 1 }

complete_safe_wakes_example : should_be_ready (complete at_work "ann" safe).0 2 ≡ false
unfolding agent_of ◌=ₛ◌
complete_safe_wakes_example = complete_safe_wakes at_work "ann" ann 1 2 refl refl

commit_claim_racy-double_example :
    let after = (commit_claim (commit_claim two_items "ann" 1 racy).0 "bob" 1 racy).0 in
    Holds after "ann" 1
    × Holds after "bob" 1
    × (any (names_both 1 "ann" "bob") (safety_findings after) ≡ true)
unfolding agent_of item_of ◌=ₛ◌
commit_claim_racy-double_example =
    commit_claim_racy-double two_items "ann" "bob" 1 first_item (free "ann") (free "bob")
      (ground (arith, =ₛ_iff "ann" "bob")) refl refl refl

commit_claim_safe_iff_example : ((commit_claim two_items "bob" 1 safe).1.won ≡ true) ↔ (
    (i : WorkItem) × (g : Agent) × (item_of two_items.items 1 ≡ some i)
    × (agent_of two_items.agents "bob" ≡ some g)
    × (claimable two_items i ≡ true))
commit_claim_safe_iff_example = commit_claim_safe_iff two_items "bob" 1

apply_spend_safe_example :
    ((apply_spend two_items 6 true safe).0.budget.consumed
      ≤ (apply_spend two_items 6 true safe).0.budget.capacity_points)
    × (((apply_spend two_items 6 true safe).1.applied ≡ true) ↔ (0 + 6 ≤ 10))
    × ((apply_spend two_items 6 true safe).0.budget.consumed
        ≡ 0 + (if (apply_spend two_items 6 true safe).1.applied then 6 else 0))
apply_spend_safe_example = apply_spend_safe two_items 6 true (omega arith)

in_blocks_cycle-IsAcyclic_example : in_blocks_cycle two_items 2 ≡ false
in_blocks_cycle-IsAcyclic_example =
    in_blocks_cycle-IsAcyclic two_items by_number 2 two_items-IsAcyclic

visit_total_example : visit two_items.items (enough_fuel two_items.items) 2 nowhere ≢ none
visit_total_example = visit_total two_items.items 2
