-- ===== src/Reaper/Ledger.antt =====
-- What a sweep (scripts/reap-leases.ts) counts and which leases it asks to reap.
use front_desk_scheduler.Base.{
  ℕ, ◌+◌, ◌≡◌, refl, ◌∙◌, String, Bool, true, false, Option, none, some, List, [], ◌∷◌, length, All,
  append-All, arith,
}
use front_desk_scheduler.Lease.{LeaseReferent, LeaseStatus}
use front_desk_scheduler.Reaper.{
  PrRef, parse_pr_referent, ReapPlan, not_live, no_referent, unrecognized_kind, malformed_referent,
  probe_pr, plan_reap, PrProbe, ReapVerdict, alive, unobservable, verdict_from_pr_probe, collect,
  SweepReport, empty_report,
}
use front_desk_scheduler.Reaper.Verdicts.{IsFinished, verdict_iff, plan_reap_iff}
use front_desk_scheduler.Reaper.Sweep.{
  Plane, ReapCall, Settled, failed, skipped, kept, asked, settle, settle_status, settle_plan,
  settle_probe, settle_verdict, count, sweep_from, sweep, reap_calls,
}

-- The candidates that were counted in some bucket.
abbrev pub bucketed : SweepReport → ℕ
bucketed r =
    r.failures
    + r.reaped
    + r.refused
    + (r.skipped.not_live + r.skipped.no_referent + r.skipped.unrecognized_kind
        + r.skipped.malformed_referent + r.skipped.alive + r.skipped.unobservable)

module _ (plane : Plane) where
  abbrev IsSkip : Settled → Type 0
  IsSkip (skipped (probe_pr pr f r)) = ⊥
  IsSkip _ = Unit

  settle_probe-IsSkip :
      (item : String) (f : ℕ) (r : LeaseReferent) (p : Option PrProbe)
      → IsSkip (settle_probe plane item f r p).0
  settle_probe-IsSkip item f r none = tt
  settle_probe-IsSkip item f r (some p) = go (verdict_from_pr_probe p)
    where
      ask : (o : Option Bool) → IsSkip (elim o [ none ↦ failed | some b ↦ asked b ])
      ask none = tt
      ask (some b) = tt

      go : (v : ReapVerdict) → IsSkip (settle_verdict plane item f r v).0
      go alive = tt
      go unobservable = tt
      go ReapVerdict.merged = ask (plane.reap_lease_remote item f r)
      go ReapVerdict.closed = ask (plane.reap_lease_remote item f r)
      go ReapVerdict.gone = ask (plane.reap_lease_remote item f r)

  settle-IsSkip : (item : String) → IsSkip (settle plane item).0
  unfolding settle
  settle-IsSkip item = from_status (plane.fetch_lease_status item)
    where
      from_plan : (p : ReapPlan) → IsSkip (settle_plan plane item p).0
      from_plan not_live = tt
      from_plan no_referent = tt
      from_plan (unrecognized_kind k) = tt
      from_plan (malformed_referent i) = tt
      from_plan (probe_pr pr f r) = settle_probe-IsSkip item f r (plane.probe pr)

      from_status : (o : Option LeaseStatus) → IsSkip (settle_status plane item o).0
      from_status none = tt
      from_status (some s) = from_plan (plan_reap s)

  -- One more candidate is polled and in one bucket.
  count_lem :
      (s : Settled) (r : SweepReport)
      → IsSkip s
      → ((count plane s r).polled ≡ r.polled + 1)
        × (bucketed (count plane s r) ≡ bucketed r + 1)
        × ((count plane s r).candidates ≡ r.candidates)
        × ((count plane s r).live + (count plane s r).failures + (count plane s r).skipped.not_live
            ≡ r.live + r.failures + r.skipped.not_live + 1)
  unfolding count
  count_lem failed r h = (refl, omega arith, refl, omega arith)
  count_lem (skipped not_live) r h = (refl, omega arith, refl, omega arith)
  count_lem (skipped no_referent) r h = (refl, omega arith, refl, omega arith)
  count_lem (skipped (unrecognized_kind k)) r h = (refl, omega arith, refl, omega arith)
  count_lem (skipped (malformed_referent i)) r h = (refl, omega arith, refl, omega arith)
  count_lem (skipped (probe_pr pr f q)) r h = elim h [ ]
  count_lem (kept alive) r h = (refl, omega arith, refl, omega arith)
  count_lem (kept unobservable) r h = (refl, omega arith, refl, omega arith)
  count_lem (kept ReapVerdict.merged) r h = (refl, omega arith, refl, omega arith)
  count_lem (kept ReapVerdict.closed) r h = (refl, omega arith, refl, omega arith)
  count_lem (kept ReapVerdict.gone) r h = (refl, omega arith, refl, omega arith)
  count_lem (asked true) r h = (refl, omega arith, refl, omega arith)
  count_lem (asked false) r h = (refl, omega arith, refl, omega arith)

  sweep_from-counts :
      (ids : List String) (r : SweepReport)
      → ((sweep_from plane ids r).polled ≡ r.polled + length ids)
        × (bucketed (sweep_from plane ids r) ≡ bucketed r + length ids)
        × ((sweep_from plane ids r).candidates ≡ r.candidates)
        × ((sweep_from plane ids r).live
              + (sweep_from plane ids r).failures
              + (sweep_from plane ids r).skipped.not_live
            ≡ r.live + r.failures + r.skipped.not_live + length ids)
  unfolding sweep_from
  sweep_from-counts [] r = (omega arith, omega arith, refl, omega arith)
  sweep_from-counts (i ∷ is) r =
      let s = (settle plane i).0 in
      let (p, b, c, l) = sweep_from-counts is (count plane s r) in
      let (p1, b1, c1, l1) = count_lem s r (settle-IsSkip i) in
      (omega (arith, p, p1), omega (arith, b, b1), c ∙ c1, omega (arith, l, l1))

  -- Every candidate of a sweep is polled and lands in one bucket of the report, and the live ones
  -- are those that were neither unreadable nor found not live.
  pub sweep_ledger :
      (ids : List String)
      → ((sweep plane ids).polled ≡ length ids)
        × ((sweep plane ids).candidates ≡ length ids)
        × (bucketed (sweep plane ids) ≡ length ids)
        × ((sweep plane ids).live + (sweep plane ids).failures + (sweep plane ids).skipped.not_live
            ≡ length ids)
  unfolding sweep
  sweep_ledger ids =
      let (p, b, c, l) = sweep_from-counts ids (record empty_report { candidates = length ids }) in
      (omega (arith, p), c, omega (arith, b), omega (arith, l))

  -- The call is on evidence: the status read for the item is live and bound, with this fencing
  -- and this referent, and the probe of its pull request found it finished.
  abbrev pub IsEarned : ReapCall → Type 0
  IsEarned c =
      (status : LeaseStatus) × (pr : PrRef) × (p : PrProbe) × (plane.fetch_lease_status c.item_id
        ≡ some status)
      × (status.live ≡ true)
      × (status.fencing ≡ c.fencing)
      × (status.referent ≡ some c.referent)
      × (parse_pr_referent c.referent.id ≡ some pr)
      × (plane.probe pr ≡ some p)
      × IsFinished p

  verdict-IsEarned :
      (item : String) (f : ℕ) (r : LeaseReferent) (v : ReapVerdict)
      → (collect v ≡ true → IsEarned (record { item_id = item; fencing = f; referent = r }))
      → All IsEarned (settle_verdict plane item f r v).1
  verdict-IsEarned item f r alive h = tt
  verdict-IsEarned item f r unobservable h = tt
  verdict-IsEarned item f r ReapVerdict.merged h = (h refl, tt)
  verdict-IsEarned item f r ReapVerdict.closed h = (h refl, tt)
  verdict-IsEarned item f r ReapVerdict.gone h = (h refl, tt)

  probe-IsEarned :
      (item : String) (status : LeaseStatus) (pr : PrRef) (f : ℕ) (r : LeaseReferent)
      → plane.fetch_lease_status item ≡ some status
      → plan_reap status ≡ probe_pr pr f r
      → (o : Option PrProbe) → plane.probe pr ≡ o
      → All IsEarned (settle_probe plane item f r o).1
  probe-IsEarned item status pr f r read plan none e = tt
  probe-IsEarned item status pr f r read plan (some p) e =
      let (live, bound, kind, parsed, same) = (plan_reap_iff status pr f r).0 plan in
      verdict-IsEarned item f r (verdict_from_pr_probe p)
        (λ c. (status, pr, p, read, live, same, bound, parsed, e, (verdict_iff p).0 c))

  plan-IsEarned :
      (item : String) (status : LeaseStatus)
      → plane.fetch_lease_status item ≡ some status
      → (plan : ReapPlan) → plan_reap status ≡ plan
      → All IsEarned (settle_plan plane item plan).1
  plan-IsEarned item status read not_live e = tt
  plan-IsEarned item status read no_referent e = tt
  plan-IsEarned item status read (unrecognized_kind k) e = tt
  plan-IsEarned item status read (malformed_referent i) e = tt
  plan-IsEarned item status read (probe_pr pr f r) e =
      probe-IsEarned item status pr f r read e (plane.probe pr) refl

  status-IsEarned :
      (item : String) (o : Option LeaseStatus)
      → plane.fetch_lease_status item ≡ o
      → All IsEarned (settle_status plane item o).1
  status-IsEarned item none e = tt
  status-IsEarned item (some s) e = plan-IsEarned item s e (plan_reap s) refl

  -- Whatever the lease plane and GitHub answer, a sweep asks to reap only leases that it saw live,
  -- with the fencing and the referent that it saw, and whose pull request it saw closed, or saw
  -- missing from a repository that it could read.
  pub reap_calls-IsEarned : (ids : List String) → All IsEarned (reap_calls plane ids)
  unfolding reap_calls settle
  reap_calls-IsEarned [] = tt
  reap_calls-IsEarned (i ∷ is) =
      append-All IsEarned (settle plane i).1 (reap_calls plane is)
        (status-IsEarned i (plane.fetch_lease_status i) refl) (reap_calls-IsEarned is)
