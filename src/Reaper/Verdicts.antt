-- ===== src/Reaper/Verdicts.antt =====
-- When `planReap` probes and when `verdictFromPrProbe` collects (src/reaper.ts).
use front_desk_scheduler.Base.{
  ℕ, ◌≡◌, ◌↔◌, true, Option, none, some, ◌⊎◌, inl, inr, =ₛ_iff, if◌then◌else◌, arith, Option-cases,
  Bool-cases, not, subst,
}
use front_desk_scheduler.Lease.{LeaseReferent, LeaseStatus}
use front_desk_scheduler.Reaper.{
  PrRef, parse_pr_referent, probe_pr, not_live, plan_referent, plan_reap, PrProbe, PrState, collect,
  verdict_from_pr_probe,
}

-- The pull request was seen closed, or it was not found in a repository that was.
abbrev pub IsFinished : PrProbe → Type 0
IsFinished p =
    ((p.pr_http_status ≡ 200) × (p.state ≡ some PrState.closed))
    ⊎ ((p.pr_http_status ≡ 404) × (p.repo_http_status ≡ some 200))

-- A verdict collects exactly on positive evidence.
pub verdict_iff : (p : PrProbe) → (collect (verdict_from_pr_probe p) ≡ true) ↔ IsFinished p
unfolding verdict_from_pr_probe
verdict_iff p = ((λ e. ground arith), (λ e. ground arith))

plan_referent_iff :
    (status : LeaseStatus) (o : Option LeaseReferent)
    → (pr : PrRef) (fencing : ℕ) (r : LeaseReferent)
    → (plan_referent status o ≡ probe_pr pr fencing r) ↔ (
        (o ≡ some r)
        × (r.kind ≡ "pr")
        × (parse_pr_referent r.id ≡ some pr)
        × (status.fencing ≡ fencing))
plan_referent_iff status none pr fencing r = ((λ e. ground arith), (λ e. ground arith))
plan_referent_iff status (some q) pr fencing r = (
  (λ e. elim (Option-cases (parse_pr_referent q.id)) [
    | inl n ↦ ground (arith, n, =ₛ_iff q.kind "pr")
    | inr (p, h) ↦ ground (arith, h, =ₛ_iff q.kind "pr")
  ]),
  (λ e. ground (arith, =ₛ_iff q.kind "pr")),
)

-- The sweep probes exactly a live lease bound to a readable pull request, and presents the
-- fencing and the referent of the status that it read.
pub plan_reap_iff :
    (status : LeaseStatus) (pr : PrRef) (fencing : ℕ) (r : LeaseReferent)
    → (plan_reap status ≡ probe_pr pr fencing r) ↔ (
        (status.live ≡ true)
        × (status.referent ≡ some r)
        × (r.kind ≡ "pr")
        × (parse_pr_referent r.id ≡ some pr)
        × (status.fencing ≡ fencing))
unfolding plan_reap
plan_reap_iff status pr fencing r = elim (Bool-cases status.live) [
  | inl l ↦
      let (there, back) = plan_referent_iff status status.referent pr fencing r in
      (
        (λ e.
            let found = there (
              subst
                (λ b.
                  (if not b then not_live else plan_referent status status.referent)
                  ≡ probe_pr pr fencing r)
                l e) in
            (l, found.0, found.1, found.2, found.3)),
        (λ h. rw l (back (h.1, h.2, h.3, h.4))),
      )
  | inr l ↦ ((λ e. ground arith), (λ e. ground arith))
]
