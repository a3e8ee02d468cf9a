-- ===== src/Lanes/States.antt =====
-- When a lane (`classifyLane` of src/lane-watch.ts) is red.
use front_desk_scheduler.Base.{
  ℕ, ◌+◌, Bool, false, ◌&&◌, ◌||◌, not, [], ◌∷◌, filterb, any, sym, ap, ◌=ₛ◌, ◌-◌, ◌*◌, ◌/◌, ◌≤◌,
  ◌<◌, ◌≡◌, ◌↔◌, refl, String, true, Option, none, some, ◌⊎◌, inl, inr, List, length, ltb, leb,
  ◌==◌, arith, Bool-cases,
}
use front_desk_scheduler.Lease.{Instant}
use front_desk_scheduler.Lanes.{
  LaneRun, LaneObservation, is_countable, is_recent, countable, in_window, failures, classify_age,
  classify_success, classify_observed, classify_lane, is_red,
}

-- The run was neither skipped nor cancelled.
abbrev pub did_run : LaneRun → Bool
did_run r = not (r.conclusion =ₛ "skipped" || r.conclusion =ₛ "cancelled")

abbrev pub succeeded : LaneRun → Bool
succeeded r = r.conclusion =ₛ "success"

-- The time is known, and no longer ago than the tolerance.
abbrev pub is_fresh : ℕ → ℕ → Instant → Bool
is_fresh now tolerance none = false
is_fresh now tolerance (some t) = not (ltb (t + 1000 * tolerance) now)

-- The completed runs within the tolerance.
abbrev pub fresh_runs : LaneObservation → ℕ → ℕ → List LaneRun
fresh_runs obs now tolerance = filterb (λ r. did_run r && is_fresh now tolerance r.at_ms) obs.recent

-- What makes an observed lane red, by its last success: that there was none although a run completed;
-- or that it is older than the tolerance, or that fewer than half of the fresh runs, of three or more,
-- succeeded.
abbrev pub IsBroken : LaneObservation → ℕ → ℕ → Option Instant → Type 0
IsBroken obs now tolerance none = any did_run obs.recent ≡ true
IsBroken obs now tolerance (some none) = ⊥
IsBroken obs now tolerance (some (some t)) =
    (tolerance < (now - t) / 1000)
    ⊎ ((3 ≤ length (fresh_runs obs now tolerance))
        × (2 * length (filterb succeeded (fresh_runs obs now tolerance))
            < length (fresh_runs obs now tolerance)))

failures-succeeded :
    (runs : List LaneRun) → failures runs + length (filterb succeeded runs) ≡ length runs
unfolding failures
failures-succeeded [] = refl
failures-succeeded (r ∷ rs) = elim (Bool-cases (succeeded r)) [
  | inl e ↦ let f = failures-succeeded rs in rw e (ground (arith, f))
  | inr e ↦ let f = failures-succeeded rs in rw e (ground (arith, f))
]

is_countable-did_run : (r : LaneRun) → is_countable r ≡ did_run r
is_countable-did_run r = elim (Bool-cases (r.conclusion =ₛ "skipped")) [
  | inl e ↦ rw e refl
  | inr e ↦ rw e refl
]

is_recent-is_fresh :
    (now tolerance : ℕ) (at : Instant) → is_recent now tolerance at ≡ is_fresh now tolerance at
is_recent-is_fresh now tolerance none = refl
is_recent-is_fresh now tolerance (some t) = ground arith

countable-fresh :
    (now tolerance : ℕ) (runs : List LaneRun)
    → countable (filterb (λ r. is_recent now tolerance r.at_ms) runs)
      ≡ filterb (λ r. did_run r && is_fresh now tolerance r.at_ms) runs
unfolding countable
countable-fresh now tolerance [] = refl
countable-fresh now tolerance (r ∷ rs) =
    rw (sym (is_countable-did_run r), sym (is_recent-is_fresh now tolerance r.at_ms))
      (elim (Bool-cases (is_recent now tolerance r.at_ms)) [
        | inl e ↦ elim (Bool-cases (is_countable r)) [
          | inl f ↦ rw (e, f) (ap (◌∷◌ r) (countable-fresh now tolerance rs))
          | inr f ↦ rw (e, f) (countable-fresh now tolerance rs)
        ]
        | inr e ↦ elim (Bool-cases (is_countable r)) [
          | inl f ↦ rw (e, f) (countable-fresh now tolerance rs)
          | inr f ↦ rw (e, f) (countable-fresh now tolerance rs)
        ]
      ])

recent-fresh :
    (obs : LaneObservation) (now tolerance : ℕ)
    → countable (in_window obs now tolerance) ≡ fresh_runs obs now tolerance
unfolding in_window
recent-fresh obs now tolerance = countable-fresh now tolerance obs.recent

countable-any : (runs : List LaneRun) → (length (countable runs) == 0) ≡ not (any did_run runs)
unfolding countable
countable-any [] = refl
countable-any (r ∷ rs) = rw (sym (is_countable-did_run r)) (elim (Bool-cases (is_countable r)) [
  | inl e ↦ rw e (ground arith)
  | inr e ↦ rw e (countable-any rs)
])

age_iff :
    (runs : List LaneRun) (age_sec tolerance : ℕ)
    → (is_red (classify_age runs age_sec tolerance) ≡ true) ↔ (
        (tolerance < age_sec)
        ⊎ ((3 ≤ length runs) × (2 * length (filterb succeeded runs) < length runs)))
age_iff runs age_sec tolerance =
    let total = failures-succeeded runs in
    elim (Bool-cases (ltb tolerance age_sec)) [
      | inl e ↦ rw e ((λ x. inl (ground (arith, e))), (λ h. refl))
      | inr e ↦ rw e (elim (Bool-cases (leb 3 (length runs))) [
        | inr f ↦ rw f ((λ x. ground arith), (λ h. ground (arith, e, f, h)))
        | inl f ↦ rw f (elim (Bool-cases (ltb (length runs) (2 * failures runs))) [
          | inl g ↦ rw g ((λ x. inr (ground (arith, f), ground (arith, g, total))), (λ h. refl))
          | inr g ↦ rw g ((λ x. ground arith), (λ h. ground (arith, e, g, h, total)))
        ])
      ])
    ]

success_iff :
    (obs : LaneObservation) (now tolerance : ℕ) (o : Option Instant)
    → (is_red (classify_success obs now tolerance o) ≡ true) ↔ IsBroken obs now tolerance o
success_iff obs now tolerance none =
    rw (countable-any obs.recent) (elim (Bool-cases (any did_run obs.recent)) [
      | inl e ↦ rw e ((λ x. refl), (λ h. refl))
      | inr e ↦ rw e ((λ x. ground arith), (λ h. ground (arith, h)))
    ])
success_iff obs now tolerance (some none) = ((λ e. ground arith), (λ e. ground arith))
success_iff obs now tolerance (some (some t)) =
    rw (recent-fresh obs now tolerance)
      (age_iff (fresh_runs obs now tolerance) ((now - t) / 1000) tolerance)

observed_iff :
    (obs : LaneObservation) (now tolerance : ℕ) (o : Option String)
    → (is_red (classify_observed obs now tolerance o) ≡ true)
      ↔ ((o ≡ none) × IsBroken obs now tolerance obs.last_success_ms)
observed_iff obs now tolerance none =
    let (there, back) = success_iff obs now tolerance obs.last_success_ms in
    ((λ e. (refl, there e)), (λ h. back h.1))
observed_iff obs now tolerance (some why) = ((λ e. ground arith), (λ h. ground (arith, h.0)))

-- A lane is red exactly when it could be observed and either never succeeded although one of its
-- runs was neither skipped nor cancelled, or last succeeded longer ago than the tolerance, or
-- succeeded in fewer than half of such runs within the tolerance, of three or more.
pub classify_lane_iff :
    (obs : LaneObservation) (now tolerance : ℕ)
    → (is_red (classify_lane obs now tolerance) ≡ true)
      ↔ ((obs.unknown ≡ none) × IsBroken obs now tolerance obs.last_success_ms)
unfolding classify_lane
classify_lane_iff obs now tolerance = observed_iff obs now tolerance obs.unknown
