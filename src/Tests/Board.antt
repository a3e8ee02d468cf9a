-- ===== src/Tests/Board.antt =====
-- Runs of the theorems about src/scheduling.ts, src/status.ts and src/writeback.ts.
use front_desk_scheduler.Base.{
  ◌<◌, ◌≡◌, ◌↔◌, refl, String, true, false, none, some, List, [], ◌∷◌, ◌=ₛ◌,
}
use front_desk_scheduler.Scheduling.{RawItem, RawTypedEdge, assemble_scheduling}
use front_desk_scheduler.Scheduling.Blockers.{AllAssembled, IsAssembled, assemble_scheduling_counts}
use front_desk_scheduler.Status.{
  todo, in_progress, blocked, done, DerivationInput, is_truthy, derive_status, parse_status,
}
use front_desk_scheduler.Status.Derivation.{IsUnderivable, derive_status_iff}
use front_desk_scheduler.Writeback.{
  BoardItem, DerivationRow, open_blockers_of, count_blockers, by_ref, plan_row, plan_status,
  plan_writeback,
}
use front_desk_scheduler.Writeback.Convergence.{plan_writeback_settles}

abbrev row : String → RawItem
row id = record {
  item_id = id;
  number = some 1;
  title = "a row";
  repository = "o/r";
  status = "Todo";
  kind = "task";
  effort = 1;
  value = 1;
  depends_on = "";
  needs = none;
  age_days = none;
}

abbrev rows : List RawItem
rows = row "a" ∷ row "b" ∷ []

-- `b` waits for `a`, and for a row outside the set.
abbrev edges : List RawTypedEdge
edges =
    record { item_id = "b"; dep_item_id = "a"; edge_type = "blocks" }
    ∷ record { item_id = "b"; dep_item_id = "z"; edge_type = "blocks" }
    ∷ []

assemble_scheduling_counts_example :
    AllAssembled
      (IsAssembled rows edges ("a" ∷ []))
      rows
      (assemble_scheduling rows edges ("a" ∷ []))
assemble_scheduling_counts_example = assemble_scheduling_counts rows edges ("a" ∷ [])

abbrev open_row : DerivationInput
open_row = record {
  origin = "github";
  closed_at = none;
  open_blockers = 2;
  lease_held = some true;
  current = todo;
}

derive_status_iff_example :
    ((derive_status open_row ≡ some done)
      ↔ ((("github" =ₛ "github") ≡ true) × (is_truthy none ≡ true)))
    × ((derive_status open_row ≡ some blocked)
        ↔ ((("github" =ₛ "github") ≡ true) × (is_truthy none ≡ false) × (0 < 2)))
    × ((derive_status open_row ≡ some in_progress) ↔ (
        (("github" =ₛ "github") ≡ true)
        × (is_truthy none ≡ false)
        × (open_row.open_blockers ≡ 0)
        × (open_row.lease_held ≡ some true)))
    × ((derive_status open_row ≡ none) ↔ IsUnderivable open_row)
derive_status_iff_example = derive_status_iff open_row

-- A card that shows Todo, of a row that was closed.
abbrev closed_row : DerivationRow
closed_row = record {
  item_id = "a";
  number = some 1;
  repository = "o/r";
  status = "Todo";
  origin = "github";
  closed_at = some "2026-08-01";
}

abbrev card : String → BoardItem
card status = record { id = "c"; number = 1; repository = "o/r"; status = status }

plan_writeback_settles_example :
    (plan_writeback (closed_row ∷ []) [] (card "Done" ∷ []) (some [])).writes ≡ []
unfolding open_blockers_of count_blockers by_ref plan_row plan_status parse_status derive_status
    is_truthy ◌=ₛ◌
plan_writeback_settles_example =
    plan_writeback_settles (closed_row ∷ []) [] (card "Todo" ∷ []) (card "Done" ∷ []) (some [])
      (refl, tt)
