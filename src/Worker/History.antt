-- ===== src/Worker/History.antt =====
-- The grant history of worker/lease/src/lease-core.mjs: one record for each grant, folded in with
-- each change of the state.
use front_desk_scheduler.Base.{
  ℕ, String, Bool, true, false, ◌&&◌, ◌||◌, Option, none, some, List, [], ◌∷◌, ◌++◌, map, every,
  length, leb, ◌==◌, if◌then◌else◌, Text, codes, is_digit,
}
use front_desk_scheduler.Worker.{Referent, LeaseState, Seconds, Body}
use front_desk_scheduler.Worker.Decide.{
  Reason, ReleaseStatus, Grant, granted, renewed, bound, let_go,
}

pub data GrantStatus : Type 0 where
  active released completed expired reaped : GrantStatus

pub record GrantRecord : Type 0 where
  pub fencing : ℕ
  pub agent : Option String
  pub decided_at_commit : Option String
  pub granted_at : ℕ
  pub ttl_sec : Option Seconds
  pub expires_at : Option ℕ
  pub released_at : Option ℕ
  pub status : GrantStatus
  pub reason : Reason
  pub referent : Option Referent

-- Thirty-two lower-case letters and digits.
unfoldable pub is_commit : Text → Bool
is_commit cs = length cs == 32 && every (λ c. (leb b'a' c && leb c b'z') || is_digit c) cs

unfoldable pub normalize_decided_at : Option String → Option String
normalize_decided_at none = none
normalize_decided_at (some v) = if is_commit (codes v) then some v else none

abbrev pub is_active : GrantStatus → Bool
is_active active = true
is_active _ = false

-- `h.map((r) => r.fencing === fencing ? change(r) : r)`.
unfoldable pub change_at : ℕ → (GrantRecord → GrantRecord) → List GrantRecord → List GrantRecord
change_at f change h = map (λ r. if r.fencing == f then change r else r) h

-- A grant over a holder that lapsed closes the old record at its own expiry.
abbrev pub lapse : GrantRecord → GrantRecord
lapse r =
    if is_active r.status then record r { status = expired; released_at = r.expires_at } else r

abbrev pub close : GrantStatus → ℕ → GrantRecord → GrantRecord
close st now r = record r { status = st; released_at = some now }

abbrev pub status_of : ReleaseStatus → GrantStatus
status_of ReleaseStatus.released = GrantStatus.released
status_of ReleaseStatus.completed = GrantStatus.completed

abbrev pub opened : Body → LeaseState → Reason → ℕ → GrantRecord
opened q after reason now = record {
  fencing = after.fencing;
  agent = after.holder;
  decided_at_commit = normalize_decided_at q.decided_at_commit;
  granted_at = now;
  ttl_sec = q.ttl_sec;
  expires_at = after.expires_at;
  released_at = none;
  status = active;
  reason = reason;
  referent = none;
}

-- The response of a successful transition tells its type.
unfoldable pub history_step :
    List GrantRecord → Body → LeaseState → LeaseState → Grant → ℕ → List GrantRecord
unfolding change_at normalize_decided_at
history_step h q before after (granted reason agent f t) now =
    change_at before.fencing lapse h ++ (opened q after reason now ∷ [])
history_step h q before after (renewed holder f t) now =
    change_at after.fencing (λ r. record r { expires_at = after.expires_at; ttl_sec = q.ttl_sec }) h
history_step h q before after (bound holder f ref t) now =
    change_at after.fencing
      (λ r. record r {
        expires_at = after.expires_at;
        ttl_sec = q.ttl_sec;
        referent = after.referent;
      })
      h
history_step h q before after (let_go f st) now =
    change_at before.fencing (close (status_of st) now) h
history_step h q before after (Grant.reaped holder f ref) now =
    change_at before.fencing (close GrantStatus.reaped now) h

abbrev pub at_or_past : ℕ → Option ℕ → Bool
at_or_past now none = true
at_or_past now (some t) = leb t now

unfoldable pub effective_status : GrantRecord → ℕ → GrantStatus
effective_status r now =
    if is_active r.status && at_or_past now r.expires_at then expired else r.status
