-- ===== src/Expiry.antt =====
-- src/expiry-watch.ts: the monitor of leases that reached their backstop. Times are whole numbers
-- of milliseconds; a difference that would be negative is 0, which every test and clamp of the
-- source takes the same way.
pub mod Alarms
use front_desk_scheduler.Base.{
  ℕ, ◌+◌, ◌-◌, ◌*◌, ◌/◌, String, Bool, true, false, not, Option, none, some, List, [], ◌∷◌, ◌++◌,
  ltb, leb, ◌=ₛ◌, if◌then◌else◌, ◌==◌, length,
}
use front_desk_scheduler.Lease.{Instant, LeaseReferent, LeaseHistoryRecord}

abbrev pub alarm_window_days : ℕ
alarm_window_days = 7

abbrev pub candidate_closed_window_days : ℕ
candidate_closed_window_days = 14

abbrev pub reaper_silence_limit_sec : ℕ
reaper_silence_limit_sec = 3 * 3600

unfoldable pub closed_at : LeaseHistoryRecord → Instant
closed_at r = elim r.released_at [ some t ↦ t | none ↦ r.expires_at ]

abbrev pub bound_referent : LeaseHistoryRecord → Option LeaseReferent
bound_referent r = r.referent

pub data ExpiryVerdict : Type 0 where
  not_expired outside_window : ExpiryVerdict
  ordinary : ℕ → ExpiryVerdict
  alarming : ℕ → LeaseReferent → ExpiryVerdict

abbrev pub expired_at : ℕ → Option LeaseReferent → ExpiryVerdict
expired_at t none = ordinary t
expired_at t (some r) = alarming t r

abbrev pub in_window : LeaseHistoryRecord → ℕ → ℕ → Instant → ExpiryVerdict
in_window r now window_ms none = outside_window
in_window r now window_ms (some t) =
    if ltb window_ms (now - t) then outside_window else expired_at t (bound_referent r)

unfoldable pub classify_expiry : LeaseHistoryRecord → ℕ → ℕ → ExpiryVerdict
unfolding closed_at
classify_expiry r now window_ms =
    if not (r.effective_status =ₛ "expired")
    then not_expired
    else in_window r now window_ms (closed_at r)

pub data ReaperLiveness : Type 0 where
  live silent : ℕ → ReaperLiveness
  never unknown : ReaperLiveness

-- `none`: there was no successful run; `some none`: its time is not a finite number.
unfoldable pub classify_reaper_liveness : Option Instant → ℕ → ℕ → ReaperLiveness
classify_reaper_liveness none now limit_sec = never
classify_reaper_liveness (some none) now limit_sec = unknown
classify_reaper_liveness (some (some t)) now limit_sec =
    let age_sec = (now - t) / 1000 in if ltb limit_sec age_sec then silent age_sec else live age_sec

pub record AlarmDetail : Type 0 where
  pub item_id : String
  pub fencing : ℕ
  pub agent : String
  pub referent : LeaseReferent
  pub closed_at : ℕ
  pub ttl_sec : Instant

pub record ExpiredCounts : Type 0 where
  pub ordinary : ℕ
  pub alarming : ℕ
  pub outside_window : ℕ

pub record WatchReport : Type 0 where
  pub candidates : ℕ
  pub polled : ℕ
  pub intervals : ℕ
  pub expired : ExpiredCounts
  pub alarms : List AlarmDetail
  pub failures : ℕ
  pub reaper : ReaperLiveness
  pub window_days : ℕ

abbrev pub empty_watch_report : WatchReport
empty_watch_report = record {
  candidates = 0;
  polled = 0;
  intervals = 0;
  expired = record { ordinary = 0; alarming = 0; outside_window = 0 };
  alarms = [];
  failures = 0;
  reaper = unknown;
  window_days = alarm_window_days;
}

-- The reasons, each with the numbers that its text carries.
pub data RedReason : Type 0 where
  bound_leases_expired : ℕ → ℕ → RedReason
  reaper_silent : ℕ → RedReason
  reaper_never : RedReason
  unread_candidates : ℕ → RedReason

abbrev pub silence_reasons : ReaperLiveness → List RedReason
silence_reasons (silent age) = reaper_silent age ∷ []
silence_reasons _ = []

abbrev pub never_reasons : ReaperLiveness → List RedReason
never_reasons never = reaper_never ∷ []
never_reasons _ = []

unfoldable pub watch_reasons : WatchReport → List RedReason
watch_reasons report =
    (if ltb 0 report.expired.alarming
      then bound_leases_expired report.expired.alarming report.window_days ∷ []
      else [])
    ++ silence_reasons report.reaper
    ++ never_reasons report.reaper
    ++ (if ltb 0 report.failures then unread_candidates report.failures ∷ [] else [])

unfoldable pub watch_verdict : WatchReport → Bool × List RedReason
watch_verdict report = let reasons = watch_reasons report in (not (length reasons == 0), reasons)

abbrev pub windows_compose : ℕ → ℕ → Bool
windows_compose alarm_days candidate_days = leb alarm_days candidate_days
