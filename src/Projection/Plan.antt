-- ===== src/Projection/Plan.antt =====
-- What `planProjection` (src/lease-projection.ts) plans.
use front_desk_scheduler.Base.{
  ℕ, ◌/◌, ◌≤◌, ◌≡◌, String, Bool, true, false, Option, none, some, List, [], ◌∷◌, All, ltb, leb,
  ◌=ₛ◌,
}
use front_desk_scheduler.Lease.{LeaseHistoryRecord, LeaseReferent, Instant}
use front_desk_scheduler.Projection.{Mark, at, below, Upsert, Planned, accepted, rejected}

-- The seconds of a time that is there.
abbrev pub InSeconds : Option Instant → Option ℕ → Type 0
InSeconds none o = o ≡ none
InSeconds (some none) o = ⊥
InSeconds (some (some ms)) o = o ≡ some (ms / 1000)

-- The time at which the grant ended: its release and, where there was none, its expiry, if it is
-- expired.
abbrev pub ended_at : Option Instant → Instant → Bool → Option Instant
ended_at (some t) expires expired = some t
ended_at none expires true = some expires
ended_at none expires false = none

-- The row is the record's: each of its columns is the record's field, times in seconds.
abbrev pub Tells : String → LeaseHistoryRecord → Upsert → Type 0
Tells item r u =
    (u.item_id ≡ item)
    × (u.agent ≡ r.agent)
    × (u.fencing ≡ r.fencing)
    × (u.decided_at_commit ≡ r.decided_at_commit)
    × InSeconds (some r.granted_at) (some u.claimed_at_sec)
    × (r.ttl_sec ≡ some u.ttl_sec)
    × InSeconds (ended_at r.released_at r.expires_at (r.effective_status =ₛ "expired"))
        u.released_at_sec
    × (u.status ≡ r.effective_status)
    × (u.referent ≡ r.referent)

abbrev TellsPlanned : String → LeaseHistoryRecord → Planned Upsert → Type 0
TellsPlanned item r (rejected e) = Unit
TellsPlanned item r (accepted u) = Tells item r u

-- The rows are the records', one for one.
abbrev pub TellAll : String → List LeaseHistoryRecord → List Upsert → Type 0
TellAll item [] [] = Unit
TellAll item (r ∷ rs) (u ∷ us) = Tells item r u × TellAll item rs us
TellAll item _ _ = ⊥

abbrev DatetimeOf : Option Instant → Planned (Option ℕ) → Type 0
DatetimeOf t (rejected e) = Unit
DatetimeOf t (accepted o) = InSeconds t o

abbrev SameReferent : Option LeaseReferent → Planned (Option LeaseReferent) → Type 0
SameReferent o (rejected e) = Unit
SameReferent o (accepted q) = q ≡ o

abbrev AllTell : String → List LeaseHistoryRecord → Planned (List Upsert) → Type 0
AllTell item rs (rejected e) = Unit
AllTell item rs (accepted us) = TellAll item rs us

-- The fencing is over the mark: strictly over a number, and not under the number that a mark is one
-- below of.
abbrev pub is_due : Mark → LeaseHistoryRecord → Bool
is_due (at m) r = ltb m r.fencing
is_due (below m) r = leb m r.fencing

-- No record has a smaller fencing than one before it.
abbrev pub IsRising : List LeaseHistoryRecord → Type 0
IsRising [] = Unit
IsRising (r ∷ rs) = All (λ (q : LeaseHistoryRecord). r.fencing ≤ q.fencing) rs × IsRising rs
