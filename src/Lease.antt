-- ===== src/Lease.antt =====
-- The records that the lease plane answers with (src/lease-client.ts).
use front_desk_scheduler.Base.{ℕ, String, Bool, Option}

-- A time in milliseconds; `none` is a number that is not finite.
abbrev pub Instant : Type 0
Instant = Option ℕ

pub record LeaseReferent : Type 0 where
  pub kind : String
  pub id : String

pub record LeaseStatus : Type 0 where
  pub holder : Option String
  pub fencing : ℕ
  pub expires_at : Option ℕ
  pub live : Bool
  pub referent : Option LeaseReferent

-- A grant interval. An absent referent and a null one are one value.
pub record LeaseHistoryRecord : Type 0 where
  pub fencing : ℕ
  pub agent : String
  pub decided_at_commit : Option String
  pub granted_at : Instant
  pub ttl_sec : Instant
  pub expires_at : Instant
  pub released_at : Option Instant
  pub effective_status : String
  pub referent : Option LeaseReferent
