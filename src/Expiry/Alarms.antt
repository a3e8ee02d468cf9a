-- ===== src/Expiry/Alarms.antt =====
-- What the expiry monitor (src/expiry-watch.ts) raises an alarm about.
use front_desk_scheduler.Base.{
  ℕ, ◌+◌, ◌≤◌, ◌<◌, ◌≡◌, ◌↔◌, refl, true, none, some, ◌⊎◌, inl, inr, ◌=ₛ◌, =ₛ_iff, arith,
  Option-cases, Bool-cases, if◌then◌else◌, not, subst,
}
use front_desk_scheduler.Lease.{Instant, LeaseReferent, LeaseHistoryRecord}
use front_desk_scheduler.Expiry.{
  not_expired, alarming, in_window, closed_at, classify_expiry, ReaperLiveness, live, silent, never,
  unknown, WatchReport, watch_reasons, watch_verdict,
}

in_window_iff :
    (r : LeaseHistoryRecord) (now window_ms : ℕ) (o : Instant) (t : ℕ) (q : LeaseReferent)
    → (in_window r now window_ms o ≡ alarming t q)
      ↔ ((o ≡ some t) × (now ≤ t + window_ms) × (r.referent ≡ some q))
in_window_iff r now window_ms none t q = ((λ e. ground arith), (λ e. ground arith))
in_window_iff r now window_ms (some s) t q = elim (Option-cases r.referent) [
  | inl n ↦ ((λ e. ground arith), (λ e. ground arith))
  | inr (p, h) ↦ ((λ e. ground arith), (λ e. ground arith))
]

-- An interval is alarming exactly when it reads as expired, closed at most the window's length
-- before `now`, and was bound to a referent; the verdict carries that time and that referent.
pub classify_expiry_iff :
    (r : LeaseHistoryRecord) (now window_ms t : ℕ) (q : LeaseReferent)
    → (classify_expiry r now window_ms ≡ alarming t q) ↔ (
        (r.effective_status ≡ "expired")
        × (closed_at r ≡ some t)
        × (now ≤ t + window_ms)
        × (r.referent ≡ some q))
unfolding classify_expiry
classify_expiry_iff r now window_ms t q =
    let (there, back) = in_window_iff r now window_ms (closed_at r) t q in
    elim (Bool-cases (r.effective_status =ₛ "expired")) [
      | inl x ↦
          let status = (=ₛ_iff r.effective_status "expired").0 x in
          (
            (λ e.
                let found = there (
                  subst
                    (λ b.
                      (if not b then not_expired else in_window r now window_ms (closed_at r))
                      ≡ alarming t q)
                    x e) in
                (status, found.0, found.1, found.2)),
            (λ h. rw x (back (h.1, h.2, h.3))),
          )
      | inr x ↦ ((λ e. ground arith), (λ h. ground (arith, =ₛ_iff r.effective_status "expired")))
    ]

-- The reaper was seen not to be running.
abbrev pub IsDown : ReaperLiveness → Type 0
IsDown (live n) = ⊥
IsDown (silent n) = Unit
IsDown never = Unit
IsDown unknown = ⊥

red_iff :
    (report : WatchReport) (l : ReaperLiveness)
    → report.reaper ≡ l
    → ((watch_verdict report).0 ≡ true)
      ↔ ((0 < report.expired.alarming) ⊎ IsDown l ⊎ (0 < report.failures))
unfolding watch_verdict watch_reasons
red_iff report (live n) e = ((λ h. ground arith), (λ h. ground arith))
red_iff report (silent n) e = ((λ h. ground arith), (λ h. ground arith))
red_iff report never e = ((λ h. ground arith), (λ h. ground arith))
red_iff report unknown e = ((λ h. ground arith), (λ h. ground arith))

-- The monitor is red exactly when a bound lease expired, the reaper was seen not to run, or a
-- candidate could not be read.
pub watch_verdict_iff :
    (report : WatchReport)
    → ((watch_verdict report).0 ≡ true)
      ↔ ((0 < report.expired.alarming) ⊎ IsDown report.reaper ⊎ (0 < report.failures))
watch_verdict_iff report = red_iff report report.reaper refl
