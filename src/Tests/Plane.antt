-- ===== src/Tests/Plane.antt =====
-- Runs of the theorems about src/lease-projection.ts, src/reaper.ts, scripts/reap-leases.ts,
-- src/expiry-watch.ts and src/lane-watch.ts.
use front_desk_scheduler.Base.{
  List, ℕ, ◌+◌, ◌≡◌, ◌↔◌, ◌⊎◌, refl, String, true, none, some, [], ◌∷◌, ◌=ₛ◌, All, arith, has_text,
  codes, if◌then◌else◌,
}
use front_desk_scheduler.Lease.{LeaseReferent, LeaseStatus, LeaseHistoryRecord}
use front_desk_scheduler.Projection.{ProjectedRowMark, Upsert, lookup, watermarks}
use front_desk_scheduler.Projection.Marks.{open_of, is_over, watermarks_reread}
use front_desk_scheduler.Reaper.{
  rows, missing_claims, candidate_ids, distinct_from, PrRef, PrProbe, PrState,
}
use front_desk_scheduler.World.Unique.{Distinct}
use front_desk_scheduler.Reaper.Candidates.{Lists, candidate_ids-union}
use front_desk_scheduler.Reaper.Sweep.{Plane, sweep, reap_calls}
use front_desk_scheduler.Reaper.Ledger.{bucketed, IsEarned, sweep_ledger, reap_calls-IsEarned}
use front_desk_scheduler.Lanes.{LaneObservation, classify_lane, is_red}
use front_desk_scheduler.Lanes.States.{IsBroken, classify_lane_iff}

abbrev mark : ℕ → String → ProjectedRowMark
mark f status = record { item_id = "a"; fencing = some f; status = status }

watermarks_reread_example :
    All
      (λ f. is_over (lookup "a" (watermarks (mark 1 "active" ∷ mark 3 "released" ∷ []))) f ≡ true)
      (open_of "a" (mark 1 "active" ∷ mark 3 "released" ∷ []))
    × (is_over (lookup "a" (watermarks (mark 1 "active" ∷ mark 3 "released" ∷ []))) 4 ≡ true)
unfolding ◌=ₛ◌
watermarks_reread_example =
    watermarks_reread "a" (mark 1 "active" ∷ mark 3 "released" ∷ []) 4
      (omega arith, (omega arith, tt))

abbrev pull : LeaseReferent
pull = record { kind = "pr"; id = "o/r#7" }

abbrev grant : ℕ → LeaseHistoryRecord
grant f = record {
  fencing = f;
  agent = "ann";
  decided_at_commit = none;
  granted_at = some 5000;
  ttl_sec = some 60;
  expires_at = some 65000;
  released_at = none;
  effective_status = "expired";
  referent = some pull;
}

abbrev upsert : ℕ → Upsert
upsert f = record {
  item_id = "a";
  agent = "ann";
  fencing = f;
  decided_at_commit = none;
  claimed_at_sec = 5;
  ttl_sec = 60;
  released_at_sec = some 65;
  status = "expired";
  referent = some pull;
}

abbrev bound : LeaseStatus
bound = record {
  holder = some "ann";
  fencing = 3;
  expires_at = some 9000;
  live = true;
  referent = some pull;
}

abbrev pull_ref : PrRef
pull_ref = record { owner = codes "o"; repo = codes "r"; number = 7 }

abbrev merged_pull : PrProbe
merged_pull = record {
  pr_http_status = 200;
  state = some PrState.closed;
  merged = some true;
  repo_http_status = none;
}

abbrev plane : Plane
plane = record {
  fetch_lease_status = λ item. if item =ₛ "a" then some bound else none;
  probe = λ pr. some merged_pull;
  reap_lease_remote = λ item fencing r. some true;
}

reap_calls-IsEarned_example : All (IsEarned plane) (reap_calls plane ("a" ∷ "b" ∷ []))
reap_calls-IsEarned_example = reap_calls-IsEarned plane ("a" ∷ "b" ∷ [])

sweep_ledger_example :
    ((sweep plane ("a" ∷ "b" ∷ [])).polled ≡ 2)
    × ((sweep plane ("a" ∷ "b" ∷ [])).candidates ≡ 2)
    × (bucketed (sweep plane ("a" ∷ "b" ∷ [])) ≡ 2)
    × ((sweep plane ("a" ∷ "b" ∷ [])).live
          + (sweep plane ("a" ∷ "b" ∷ [])).failures
          + (sweep plane ("a" ∷ "b" ∷ [])).skipped.not_live
        ≡ 2)
sweep_ledger_example = sweep_ledger plane ("a" ∷ "b" ∷ [])

abbrev two_ids : List String
two_ids = "a" ∷ "b" ∷ []

abbrev quiet_lane : LaneObservation
quiet_lane = record { last_success_ms = some (some 1000); recent = []; unknown = none }

classify_lane_iff_example :
    (is_red (classify_lane quiet_lane 9000000 3600) ≡ true)
    ↔ ((quiet_lane.unknown ≡ none) × IsBroken quiet_lane 9000000 3600 (some (some 1000)))
classify_lane_iff_example = classify_lane_iff quiet_lane 9000000 3600

candidate_ids-union_example :
    Distinct two_ids
    × ((has_text "b" two_ids ≡ true) ↔ (
        Lists "b" (rows ("a" ∷ [])) ⊎ Lists "b" (rows ("b" ∷ "a" ∷ [])) ⊎ Lists "b" missing_claims))
unfolding candidate_ids distinct_from has_text ◌=ₛ◌
candidate_ids-union_example =
    candidate_ids-union (rows ("a" ∷ [])) (rows ("b" ∷ "a" ∷ [])) missing_claims two_ids "b" refl
