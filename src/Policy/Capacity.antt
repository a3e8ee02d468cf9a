-- ===== src/Policy/Capacity.antt =====
-- src/policy.ts: `planCapacity` and `budgetGate`.
use front_desk_scheduler.Base.{
  ℕ, ◌+◌, ◌-◌, ◌*◌, ◌≤◌, ◌<◌, ◌≡◌, ◌↔◌, ◌⊎◌, String, Bool, true, false, ◌||◌, not, List, [], ◌∷◌,
  arith, ltb, leb, ◌==◌, if◌then◌else◌,
}
use front_desk_scheduler.Policy.{PriorityInput}

pub data MeteredUnit : Type 0 where
  tokens agent_hours usage_window_fraction usd : MeteredUnit

pub record ConversionMapping : Type 0 where
  pub unit : MeteredUnit
  pub unit_per_point : ℕ

abbrev pub to_units : ℕ → ConversionMapping → ℕ
to_units points mapping = points * mapping.unit_per_point

pub data WindowKind : Type 0 where
  rolling calendar : WindowKind

pub record UsageWindow : Type 0 where
  pub kind : WindowKind
  pub duration_hours : ℕ
  pub label : String

pub record Budget : Type 0 where
  pub id : String
  pub window : UsageWindow
  pub capacity_points : ℕ
  pub conversion : ConversionMapping

-- A quotient that is only compared: `over a b` is a / b with 0 < b.
pub data Ratio : Type 0 where
  over : ℕ → ℕ → Ratio
  infinite : Ratio

-- `ratio >= num / den`.
abbrev pub at_least : Ratio → ℕ → ℕ → Bool
at_least infinite num den = true
at_least (over a b) num den = leb (num * b) (a * den)

pub data CapacityStatus : Type 0 where
  within at_risk exceeded : CapacityStatus

pub record CapacityReport : Type 0 where
  pub budget : Budget
  pub planned_points : ℕ
  pub planned_fits : Bool
  pub consumed_points : ℕ
  pub remaining_points : ℕ
  pub burn_ratio : Ratio
  pub status : CapacityStatus
  pub planned_units : ℕ

abbrev pub planned_effort : List PriorityInput → ℕ → ℕ
planned_effort [] sum = sum
planned_effort (i ∷ is) sum = planned_effort is (sum + i.effort)

unfoldable pub plan_capacity : Budget → List PriorityInput → ℕ → CapacityReport
plan_capacity budget planned_items consumed_points =
    let planned_points = planned_effort planned_items 0 in
    let planned_fits = leb planned_points budget.capacity_points in
    let burn_ratio =
      if ltb 0 budget.capacity_points
      then over consumed_points budget.capacity_points
      else infinite in
    let over_burn = at_least burn_ratio 1 1 in
    record {
      budget = budget;
      planned_points = planned_points;
      planned_fits = planned_fits;
      consumed_points = consumed_points;
      remaining_points = budget.capacity_points - consumed_points;
      burn_ratio = burn_ratio;
      status =
          if over_burn || not planned_fits
          then exceeded
          else if at_least burn_ratio 8 10
          then at_risk
          else within;
      planned_units = to_units planned_points budget.conversion;
    }

pub record GateDecision : Type 0 where
  pub allow : Bool
  pub reason : String

abbrev pub is_at_risk : CapacityStatus → Bool
is_at_risk at_risk = true
is_at_risk _ = false

unfoldable pub budget_gate : CapacityReport → ℕ → GateDecision
budget_gate report additional_points =
    let projected = report.consumed_points + additional_points in
    if report.budget.capacity_points == 0
    then record { allow = true; reason = "no budget set — fail-open" }
    else if leb report.budget.capacity_points projected
    then record { allow = false; reason = "exhausted — blocking new agent work until reset" }
    else if is_at_risk report.status
    then record { allow = true; reason = "at-risk — proceed but triage soon" }
    else record { allow = true; reason = "healthy" }

-- The gate admits a spend exactly when no budget is set or the spend stays strictly below it.
pub budget_gate_iff :
    (b : Budget) (items : List PriorityInput) (consumed extra : ℕ)
    → ((budget_gate (plan_capacity b items consumed) extra).allow ≡ true)
      ↔ ((b.capacity_points ≡ 0) ⊎ (consumed + extra < b.capacity_points))
unfolding plan_capacity budget_gate
budget_gate_iff b items consumed extra = ((λ e. ground arith), (λ e. ground arith))

-- The report's status: exceeded exactly when the budget is used up, unset or planned beyond, and
-- within bounds exactly when less than four fifths are used and the plan fits.
pub plan_capacity-status :
    (b : Budget) (items : List PriorityInput) (consumed : ℕ)
    → let r = plan_capacity b items consumed in
      ((r.status ≡ exceeded)
        ↔ ((b.capacity_points ≤ consumed) ⊎ (b.capacity_points < r.planned_points)))
      × ((r.status ≡ within)
          ↔ ((10 * consumed < 8 * b.capacity_points) × (r.planned_points ≤ b.capacity_points)))
unfolding plan_capacity
plan_capacity-status b items consumed =
    (((λ e. ground arith), (λ e. ground arith)), ((λ e. ground arith), (λ e. ground arith)))
