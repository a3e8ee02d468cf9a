-- ===== src/Policy/Score.antt =====
-- src/policy.ts: `score` and `prioritize`.
use Prim.Native.Nat.{compare, Ordering}
use front_desk_scheduler.Base.{
  ℕ, ◌-◌, min, max, ◌&&◌, Bool, not, Option, none, some, List, [], ◌∷◌, map, leb, ◌==◌,
  if◌then◌else◌, sort_by,
}
use front_desk_scheduler.Number.{Double}
use front_desk_scheduler.Policy.{BeadKind, epic, room, door, task, PriorityInput, is_eligible}

pub record ScoreWeights (d : Double) : Type 0 where
  pub density : d.carrier
  pub flow : d.carrier
  pub effort_penalty : d.carrier

abbrev pub fallback_kind_weight : BeadKind → ℕ
fallback_kind_weight epic = 3
fallback_kind_weight room = 2
fallback_kind_weight door = 2
fallback_kind_weight task = 1

abbrev pub fallback_age_cap_days : ℕ
fallback_age_cap_days = 180

abbrev pub or_zero : Option ℕ → ℕ
or_zero none = 0
or_zero (some n) = n

pub record RankedItem (d : Double) : Type 0 where
  pub input : PriorityInput
  pub eligible : Bool
  pub score : d.carrier
  pub fits_remaining : Bool

-- The pair `{ item, s }` that is sorted.
pub record Scored (d : Double) : Type 0 where
  pub item : PriorityInput
  pub s : d.carrier

module _ (d : Double) where
  open d use {carrier, of_nat, decimal, add, sub, mul, div, sign}

  abbrev pub default_weights : ScoreWeights d
  default_weights = record { density = of_nat 1; flow = of_nat 2; effort_penalty = decimal 5 2 }

  -- With neither effort nor value: by kind, downstream work and age.
  unfoldable pub fallback_score : PriorityInput → ScoreWeights d → carrier
  fallback_score item weights =
      let age_days = min (or_zero item.age_days) fallback_age_cap_days in
      add (add (of_nat (fallback_kind_weight item.kind)) (mul weights.flow (of_nat item.unblocks)))
        (mul (decimal 2 2) (of_nat age_days))

  unfoldable pub weighted_score : PriorityInput → ScoreWeights d → carrier
  weighted_score item weights =
      let effort = of_nat (max item.effort 1) in
      let density = div (of_nat item.value) effort in
      sub (add (mul weights.density density) (mul weights.flow (of_nat item.unblocks)))
        (mul weights.effort_penalty effort)

  unfoldable pub score : PriorityInput → ScoreWeights d → carrier
  unfolding fallback_score weighted_score
  score item weights =
      if not (is_eligible item)
      then of_nat 0
      else if item.effort == 0 && item.value == 0
      then fallback_score item weights
      else weighted_score item weights

  -- `b.s - a.s || a.item.effort - b.item.effort`.
  unfoldable pub compare_scored : Scored d → Scored d → Ordering
  compare_scored a b = elim (sign (sub b.s a.s)) [
    | Ordering.eq ↦ compare a.item.effort b.item.effort
    | Ordering.lt ↦ Ordering.lt
    | Ordering.gt ↦ Ordering.gt
  ]

  -- The loop that fills the remaining budget from the top of the ranking.
  unfoldable pub rank_from : ℕ → List (Scored d) → List (RankedItem d)
  rank_from budget_left [] = []
  rank_from budget_left (x ∷ rest) =
      let eligible = is_eligible x.item in
      let fits_remaining = eligible && leb x.item.effort budget_left in
      record { input = x.item; eligible = eligible; score = x.s; fits_remaining = fits_remaining }
      ∷ rank_from (if fits_remaining then budget_left - x.item.effort else budget_left) rest

  unfoldable pub scored : List PriorityInput → ScoreWeights d → List (Scored d)
  scored items weights = map (λ item. record { item = item; s = score item weights }) items

  unfoldable pub prioritize : List PriorityInput → ℕ → ScoreWeights d → List (RankedItem d)
  unfolding rank_from scored
  prioritize items remaining_points weights =
      rank_from remaining_points (sort_by compare_scored (scored items weights))
