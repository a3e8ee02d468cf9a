-- ===== src/Writeback.antt =====
-- src/writeback.ts: the plan that makes every card show its derived status. A reference
-- `repository#number` is kept as its two parts, which the text determines.
pub mod Convergence
use front_desk_scheduler.Base.{
  ℕ, String, Bool, true, false, ◌&&◌, not, Option, none, some, List, [], ◌∷◌, ◌++◌, map, filterb,
  ◌==◌, ◌=ₛ◌, if◌then◌else◌, Text, Counts, count_of, bump, has_text,
}
use front_desk_scheduler.Scheduling.{RawTypedEdge, is_blocker_kind, or_zero}
use front_desk_scheduler.Status.{
  Status, status_text, parse_status, DerivationInput, derive_status, is_truthy,
}

-- The fields of src/board.ts's `BoardItem` that a plan reads.
pub record BoardItem : Type 0 where
  pub id : String
  pub number : ℕ
  pub repository : String
  pub status : String

pub record DerivationRow : Type 0 where
  pub item_id : String
  pub number : Option ℕ
  pub repository : String
  pub status : String
  pub origin : String
  pub closed_at : Option String

pub record Ref : Type 0 where
  pub repository : String
  pub number : ℕ

abbrev pub ref_of : String → Option ℕ → Ref
ref_of repository number = record { repository = repository; number = or_zero number }

abbrev pub same_ref : Ref → Ref → Bool
same_ref a b = (a.repository =ₛ b.repository) && a.number == b.number

pub data Because : Type 0 where
  closed_on : Option String → Because
  open_dependencies : ℕ → Because
  lease_holds open_unheld : Because

pub record PlannedWrite : Type 0 where
  pub ref : Ref
  pub item_id : String
  pub from : Status
  pub to : Status
  pub reason : Because

pub data SkipReason : Type 0 where
  unrecognised_status : String → SkipReason
  lease_unreadable not_on_board : SkipReason

pub record SkippedWrite : Type 0 where
  pub ref : Ref
  pub reason : SkipReason

pub record WritebackPlan : Type 0 where
  pub writes : List PlannedWrite
  pub skipped : List SkippedWrite

unfoldable pub open_ids_of : List DerivationRow → List String
open_ids_of rows =
    map (λ r. r.item_id)
      (filterb (λ r. not (r.status =ₛ "Done") && not (is_truthy r.closed_at)) rows)

unfoldable pub count_blockers : List String → List RawTypedEdge → Counts → Counts
count_blockers open_ids [] counts = counts
count_blockers open_ids (e ∷ es) counts = count_blockers open_ids es (
    if not (is_blocker_kind e.edge_type)
    then counts
    else if has_text e.dep_item_id open_ids
    then bump e.item_id counts
    else counts)

unfoldable pub open_blockers_of : List RawTypedEdge → List String → Counts
open_blockers_of edges open_ids = count_blockers open_ids edges []

abbrev pub because : DerivationRow → ℕ → Status → Because
because row open_blockers Status.done = closed_on row.closed_at
because row open_blockers Status.blocked = open_dependencies open_blockers
because row open_blockers Status.in_progress = lease_holds
because row open_blockers Status.todo = open_unheld

-- `byRef.get(ref)`: the last of the cards with this reference.
unfoldable pub by_ref : List BoardItem → Ref → Option BoardItem
by_ref [] ref = none
by_ref (i ∷ is) ref = elim (by_ref is ref) [
  | some j ↦ some j
  | none ↦
      if same_ref (record { repository = i.repository; number = i.number }) ref
      then some i
      else none
]

-- What the loop does for one row.
pub data RowPlan : Type 0 where
  quiet : RowPlan
  skip : SkippedWrite → RowPlan
  write : PlannedWrite → RowPlan

abbrev pub shown : DerivationRow → Option BoardItem → String
shown row none = row.status
shown row (some i) = i.status

abbrev pub held_of : Option (List String) → String → Option Bool
held_of none id = none
held_of (some held) id = some (has_text id held)

abbrev pub input_of : DerivationRow → ℕ → Option (List String) → Status → DerivationInput
input_of row open_blockers lease_held_ids current = record {
  origin = row.origin;
  closed_at = row.closed_at;
  open_blockers = open_blockers;
  lease_held = held_of lease_held_ids row.item_id;
  current = current;
}

abbrev pub same_status : Status → Status → Bool
same_status a b = status_text a =ₛ status_text b

-- The row, once its card shows the status `current`.
unfoldable pub plan_status :
    DerivationRow → ℕ → Option (List String) → Option BoardItem → Status → RowPlan
plan_status row open_blockers lease_held_ids item current =
    let ref = ref_of row.repository row.number in
    elim (derive_status (input_of row open_blockers lease_held_ids current)) [
      | none ↦
          if not (row.origin =ₛ "github")
          then quiet
          else skip (record { ref = ref; reason = lease_unreadable })
      | some to ↦ elim item [
        | none ↦ skip (record { ref = ref; reason = not_on_board })
        | some i ↦
            if same_status current to
            then quiet
            else write (record {
              ref = ref;
              item_id = i.id;
              from = current;
              to = to;
              reason = because row open_blockers to;
            })
      ]
    ]

unfoldable pub plan_row : Counts → Option (List String) → List BoardItem → DerivationRow → RowPlan
plan_row blockers lease_held_ids board row =
    let ref = ref_of row.repository row.number in
    let item = by_ref board ref in
    elim (parse_status (shown row item)) [
      | none ↦ skip (record { ref = ref; reason = unrecognised_status (shown row item) })
      | some current ↦ plan_status row (count_of row.item_id blockers) lease_held_ids item current
    ]

unfoldable pub add_plan : RowPlan → WritebackPlan → WritebackPlan
add_plan quiet p = p
add_plan (skip s) p = record p { skipped = s ∷ p.skipped }
add_plan (write w) p = record p { writes = w ∷ p.writes }

unfoldable pub plan_rows :
    Counts → Option (List String) → List BoardItem → List DerivationRow → WritebackPlan
plan_rows blockers held board [] = record { writes = []; skipped = [] }
plan_rows blockers held board (row ∷ rows) =
    add_plan (plan_row blockers held board row) (plan_rows blockers held board rows)

unfoldable pub plan_writeback :
    List DerivationRow → List RawTypedEdge → List BoardItem → Option (List String) → WritebackPlan
plan_writeback rows edges board lease_held_ids =
    plan_rows (open_blockers_of edges (open_ids_of rows)) lease_held_ids board rows
