-- ===== src/Reaper/Sweep.antt =====
-- scripts/reap-leases.ts: one sweep over the candidates, against a lease plane and a GitHub that
-- answer, or fail to. The sweep reads eight candidates at a time and counts them in order.
use front_desk_scheduler.Base.{
  ℕ, ◌+◌, String, Bool, true, false, Option, none, some, List, [], ◌∷◌, ◌++◌, length,
}
use front_desk_scheduler.Lease.{LeaseReferent, LeaseStatus}
use front_desk_scheduler.Reaper.{
  PrRef, ReapPlan, not_live, no_referent, unrecognized_kind, malformed_referent, probe_pr,
  plan_reap, PrProbe, ReapVerdict, alive, unobservable, verdict_from_pr_probe, Skipped, SweepReport,
  empty_report,
}

-- What the sweep asks of others; `none` is a request that failed.
pub record Plane : Type 0 where
  pub fetch_lease_status : String → Option LeaseStatus
  pub probe : PrRef → Option PrProbe
  -- `outcome.reaped`.
  pub reap_lease_remote : String → ℕ → LeaseReferent → Option Bool

-- A call of `reapLeaseRemote`.
pub record ReapCall : Type 0 where
  pub item_id : String
  pub fencing : ℕ
  pub referent : LeaseReferent

-- How one candidate settled, once its status was read.
pub data Settled : Type 0 where
  failed : Settled
  skipped : ReapPlan → Settled
  kept : ReapVerdict → Settled
  asked : Bool → Settled

module _ (plane : Plane) where
  abbrev pub settle_asked : Option Bool → Settled
  settle_asked none = failed
  settle_asked (some reaped) = asked reaped

  abbrev pub settle_verdict : String → ℕ → LeaseReferent → ReapVerdict → Settled × List ReapCall
  settle_verdict item fencing r alive = (kept alive, [])
  settle_verdict item fencing r unobservable = (kept unobservable, [])
  settle_verdict item fencing r _ = (
    settle_asked (plane.reap_lease_remote item fencing r),
    record { item_id = item; fencing = fencing; referent = r } ∷ [],
  )

  abbrev pub settle_probe : String → ℕ → LeaseReferent → Option PrProbe → Settled × List ReapCall
  settle_probe item fencing r none = (failed, [])
  settle_probe item fencing r (some p) = settle_verdict item fencing r (verdict_from_pr_probe p)

  abbrev pub settle_plan : String → ReapPlan → Settled × List ReapCall
  settle_plan item (probe_pr pr fencing r) = settle_probe item fencing r (plane.probe pr)
  settle_plan item plan = (skipped plan, [])

  abbrev pub settle_status : String → Option LeaseStatus → Settled × List ReapCall
  settle_status item none = (failed, [])
  settle_status item (some status) = settle_plan item (plan_reap status)

  unfoldable pub settle : String → Settled × List ReapCall
  settle item = settle_status item (plane.fetch_lease_status item)

  abbrev pub count_skip : ReapPlan → Skipped → Skipped
  count_skip not_live s = record s { not_live = s.not_live + 1 }
  count_skip no_referent s = record s { no_referent = s.no_referent + 1 }
  count_skip (unrecognized_kind k) s = record s { unrecognized_kind = s.unrecognized_kind + 1 }
  count_skip (malformed_referent i) s = record s { malformed_referent = s.malformed_referent + 1 }
  count_skip (probe_pr pr f r) s = s

  abbrev pub count_live : ReapPlan → ℕ → ℕ
  count_live not_live n = n
  count_live _ n = n + 1

  -- The ledger after a candidate, `polled` included.
  unfoldable pub count : Settled → SweepReport → SweepReport
  count failed r = record r { polled = r.polled + 1; failures = r.failures + 1 }
  count (skipped plan) r = record r {
    polled = r.polled + 1;
    live = count_live plan r.live;
    skipped = count_skip plan r.skipped;
  }
  count (kept alive) r = record r {
    polled = r.polled + 1;
    live = r.live + 1;
    skipped = record (r.skipped) { alive = r.skipped.alive + 1 };
  }
  count (kept _) r = record r {
    polled = r.polled + 1;
    live = r.live + 1;
    skipped = record (r.skipped) { unobservable = r.skipped.unobservable + 1 };
  }
  count (asked true) r = record r {
    polled = r.polled + 1;
    live = r.live + 1;
    reaped = r.reaped + 1;
  }
  count (asked false) r = record r {
    polled = r.polled + 1;
    live = r.live + 1;
    refused = r.refused + 1;
  }

  unfoldable pub sweep_from : List String → SweepReport → SweepReport
  sweep_from [] r = r
  sweep_from (i ∷ is) r = sweep_from is (count (settle i).0 r)

  unfoldable pub sweep : List String → SweepReport
  sweep ids = sweep_from ids (record empty_report { candidates = length ids })

  unfoldable pub reap_calls : List String → List ReapCall
  reap_calls [] = []
  reap_calls (i ∷ is) = (settle i).1 ++ reap_calls is
