-- ===== src/Worker/Decide.antt =====
-- The decisions of worker/lease/src/lease-core.mjs: of a state, a request and a time, either the
-- same state with a refusal, or a new state.
use front_desk_scheduler.Base.{
  ℕ, ◌+◌, String, Bool, false, ◌&&◌, not, Option, none, some, ◌==◌, ◌=ₛ◌, if◌then◌else◌, same_text,
  Result, ok, err, ◌>>=◌,
}
use front_desk_scheduler.Worker.{
  Referent, LeaseState, is_live, Fault, bad_agent, bad_status, ttl_ms, validate_referent, Body,
}

pub data Reason : Type 0 where
  held already_held_by_you free expired not_holder stale_fencing not_held no_referent
        referent_mismatch :
      Reason

pub data ReleaseStatus : Type 0 where
  released completed : ReleaseStatus

pub data Refusal : Type 0 where
  claim_denied : Reason → Option String → ℕ → Option ℕ → Refusal
  refused : Reason → Option String → ℕ → Refusal
  mismatched : Option String → ℕ → Referent → Refusal
  not_held_here : ℕ → Refusal

pub data Grant : Type 0 where
  granted : Reason → String → ℕ → ℕ → Grant
  renewed : Option String → ℕ → ℕ → Grant
  bound : Option String → ℕ → Referent → ℕ → Grant
  reaped : Option String → ℕ → Referent → Grant
  let_go : ℕ → ReleaseStatus → Grant

-- The state object is returned as it came (`kept`), or another one takes its place (`moved`).
pub data Decision : Type 0 where
  kept : Refusal → Decision
  moved : LeaseState → Grant → Decision

-- `state.holder === agent`, of a state that has a holder.
abbrev pub is_holder : Option String → Option String → Bool
is_holder (some h) (some a) = h =ₛ a
is_holder _ _ = false

abbrev pub is_token : Option ℕ → ℕ → Bool
is_token none n = false
is_token (some f) n = f == n

abbrev pub read_agent : Option String → Result Fault String
read_agent none = err bad_agent
read_agent (some a) = if a =ₛ "" then err bad_agent else ok a

abbrev pub grant_reason : Option String → Reason
grant_reason none = free
grant_reason (some h) = expired

unfoldable pub claim_with : LeaseState → ℕ → String → ℕ → Decision
claim_with s now agent ms =
    if is_live s now
    then kept (
        claim_denied (if is_holder s.holder (some agent) then already_held_by_you else held)
          s.holder s.fencing s.expires_at)
    else moved
        (record {
          holder = some agent;
          expires_at = some (now + ms);
          fencing = s.fencing + 1;
          referent = none;
        })
        (granted (grant_reason s.holder) agent (s.fencing + 1) (now + ms))

unfoldable pub decide_claim : LeaseState → Body → ℕ → Result Fault Decision
decide_claim s q now = do
  agent ← read_agent q.agent
  ms ← ttl_ms q.ttl_sec
  ok (claim_with s now agent ms)

-- The gate that `renew` and `bind` share: live, held by the caller, with the current token.
unfoldable pub gated : LeaseState → Body → ℕ → Decision → Decision
gated s q now move =
    if not (is_live s now)
    then kept (refused expired s.holder s.fencing)
    else if not (is_holder s.holder q.agent)
    then kept (refused not_holder s.holder s.fencing)
    else if not (is_token q.fencing s.fencing)
    then kept (refused stale_fencing s.holder s.fencing)
    else move

unfoldable pub decide_renew : LeaseState → Body → ℕ → Result Fault Decision
unfolding gated
decide_renew s q now = do
  ms ← ttl_ms q.ttl_sec
  ok (
      gated s q now
        (moved (record s { expires_at = some (now + ms) }) (renewed s.holder s.fencing (now + ms))))

unfoldable pub decide_bind : LeaseState → Body → ℕ → Result Fault Decision
unfolding gated
decide_bind s q now = do
  ms ← ttl_ms q.ttl_sec
  ref ← validate_referent q.referent
  ok (
      gated s q now (
        moved (record s { referent = some ref; expires_at = some (now + ms) })
          (bound s.holder s.fencing ref (now + ms))))

abbrev pub freed : LeaseState → LeaseState
freed s = record { holder = none; expires_at = none; fencing = s.fencing; referent = none }

unfoldable pub same_referent : Referent → Referent → Bool
same_referent a b = same_text a.kind b.kind && same_text a.id b.id

unfoldable pub reap_bound : LeaseState → Referent → Option Referent → Decision
reap_bound s ref none = kept (refused no_referent s.holder s.fencing)
reap_bound s ref (some cur) =
    if not (same_referent cur ref)
    then kept (mismatched s.holder s.fencing cur)
    else moved (freed s) (reaped s.holder s.fencing cur)

unfoldable pub decide_reap : LeaseState → Body → ℕ → Result Fault Decision
decide_reap s q now = do
  ref ← validate_referent q.referent
  ok (
      if not (is_live s now)
      then kept (not_held_here s.fencing)
      else if not (is_token q.fencing s.fencing)
      then kept (refused stale_fencing s.holder s.fencing)
      else reap_bound s ref s.referent)

unfoldable pub read_status : Option String → Result Fault ReleaseStatus
read_status none = ok released
read_status (some t) =
    if t =ₛ "released"
    then ok released
    else if t =ₛ "completed"
    then ok completed
    else err bad_status

unfoldable pub decide_release : LeaseState → Body → ℕ → Result Fault Decision
decide_release s q now = do
  st ← read_status q.status
  ok (
      if not (is_live s now)
      then kept (not_held_here s.fencing)
      else if not (is_holder s.holder q.agent)
      then kept (refused not_holder s.holder s.fencing)
      else if not (is_token q.fencing s.fencing)
      then kept (refused stale_fencing s.holder s.fencing)
      else moved (freed s) (let_go s.fencing st))
