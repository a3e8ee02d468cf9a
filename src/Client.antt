-- ===== src/Client.antt =====
-- src/lease-client.ts: the calls of the lease worker and what their answers are read as. A call goes
-- to the router of the worker and back, unless the request or the answer is lost on the way.
pub mod Reading
pub mod Winning
use front_desk_scheduler.Base.{
  ℕ, String, Bool, true, false, Option, none, some, List, [], ◌∷◌, ◌==◌, if◌then◌else◌, Text,
  Result, ok, err, ◌>>=◌,
}
use front_desk_scheduler.Worker.{Referent, RawReferent, Seconds, Body}
use front_desk_scheduler.Worker.Decide.{
  Reason, ReleaseStatus, Refusal, claim_denied, refused, mismatched, not_held_here, not_held,
  referent_mismatch, Grant, granted, renewed, bound, let_go,
}
use front_desk_scheduler.Worker.Object.{
  Reply, refusal, success, described, bad_request, not_json, not_found, no_body,
}
use front_desk_scheduler.Worker.Auth.{Github, Alias}
use front_desk_scheduler.Worker.Router.{
  RouterRequest, RawBody, Env, Worker, RouterReply, healthy, bad_item_id, no_credentials, bad_alias,
  unauthenticated, answered, handle,
}

pub data LeaseClientError : Type 0 where
  unreachable refused_identity no_fencing : LeaseClientError
  http_status : ℕ → LeaseClientError

-- What happens to one call.
pub data Delivery : Type 0 where
  delivered request_lost reply_lost : Delivery

-- The body of an answer whose status is not an error; `none` is one without the fields that are read.
abbrev pub object_answer : Reply → Result LeaseClientError (Option Reply)
object_answer (bad_request e) = err (http_status 400)
object_answer not_json = err (http_status 400)
object_answer not_found = err (http_status 404)
object_answer r = ok (some r)

unfoldable pub read_answer : RouterReply → Result LeaseClientError (Option Reply)
read_answer healthy = ok none
read_answer bad_item_id = err (http_status 400)
read_answer bad_alias = err (http_status 400)
read_answer no_credentials = err refused_identity
read_answer (unauthenticated e) = err refused_identity
read_answer (answered r) = object_answer r

pub record LeaseGrant : Type 0 where
  pub fencing : ℕ
  pub expires_at : ℕ

pub data LeaseAttempt : Type 0 where
  grant : LeaseGrant → LeaseAttempt
  denied : Option String → Option Reason → LeaseAttempt

abbrev pub refusal_holder : Refusal → Option String
refusal_holder (claim_denied r h f t) = h
refusal_holder (refused r h f) = h
refusal_holder (mismatched h f ref) = h
refusal_holder (not_held_here f) = none

abbrev pub refusal_reason : Refusal → Reason
refusal_reason (claim_denied r h f t) = r
refusal_reason (refused r h f) = r
refusal_reason (mismatched h f ref) = referent_mismatch
refusal_reason (not_held_here f) = not_held

-- A grant without a positive token is not usable.
abbrev pub usable_grant : ℕ → ℕ → Result LeaseClientError LeaseAttempt
usable_grant f t =
    if f == 0 then err no_fencing else ok (grant (record { fencing = f; expires_at = t }))

-- The answers of `/claim`.
unfoldable pub read_claim : Option Reply → Result LeaseClientError LeaseAttempt
read_claim (some (success (granted reason a f t))) = usable_grant f t
read_claim (some (refusal r)) = ok (denied (refusal_holder r) (some (refusal_reason r)))
read_claim _ = ok (denied none none)

-- The answers of `/renew`, `/bind`, `/reap` and `/release`.
unfoldable pub read_renewed : Option Reply → Bool
read_renewed (some (success (renewed h f t))) = true
read_renewed _ = false

unfoldable pub read_bound : Option Reply → Bool
read_bound (some (success (bound h f r t))) = true
read_bound _ = false

unfoldable pub read_reaped : Option Reply → Bool
read_reaped (some (success (Grant.reaped h f r))) = true
read_reaped _ = false

unfoldable pub read_released : Option Reply → Bool
read_released (some (success (let_go f st))) = true
read_released _ = false

-- A bind, a reap or a release as the client reports it: whether it was done, the reason of a refusal,
-- where the answer has one, and the holder that the answer names.
pub record CallOutcome : Type 0 where
  pub done : Bool
  pub reason : Option Reason
  pub holder : Option String

abbrev pub answer_reason : Option Reply → Option Reason
answer_reason (some (refusal r)) = some (refusal_reason r)
answer_reason _ = none

abbrev pub answer_holder : Option Reply → Option String
answer_holder (some (refusal r)) = refusal_holder r
answer_holder (some (success (granted reason a f t))) = some a
answer_holder (some (success (renewed h f t))) = h
answer_holder (some (success (bound h f r t))) = h
answer_holder (some (success (Grant.reaped h f r))) = h
answer_holder (some (described v)) = v.holder
answer_holder _ = none

unfoldable pub read_outcome : (Option Reply → Bool) → Option Reply → CallOutcome
read_outcome is_done a = record {
  done = is_done a;
  reason = if is_done a then none else answer_reason a;
  holder = answer_holder a;
}

module _ (digest : Text → String) (github : ℕ → Github) (env : Env)
    (authorization : Option String) where
  abbrev pub post : String → String → RawBody → RouterRequest
  post path item body = record {
    pathname = path;
    item_id = some item;
    since = none;
    is_post = true;
    authorization = authorization;
    json = some body;
  }

  unfoldable pub call :
      Delivery → ℕ → Worker → RouterRequest → Worker × Result LeaseClientError (Option Reply)
  call request_lost now w q = (w, err unreachable)
  call delivered now w q =
      let (w1, a) = handle digest (github now) env w q now in (w1, read_answer a)
  call reply_lost now w q =
      let (w1, a) = handle digest (github now) env w q now in (w1, err unreachable)

  abbrev pub claim_body : String → Option Seconds → Option String → RawBody
  claim_body agent ttl commit = record {
    alias = Alias.alias agent;
    rest = record no_body { ttl_sec = ttl; decided_at_commit = commit };
  }

  unfoldable pub claim_lease :
      Delivery
      → ℕ
      → String
      → String
      → Option Seconds
      → Option String
      → Worker
      → Worker × Result LeaseClientError LeaseAttempt
  unfolding call read_claim
  claim_lease d now item agent ttl commit w =
      let (w1, r) = call d now w (post "/claim" item (claim_body agent ttl commit)) in
      (w1, r >>= read_claim)

  abbrev pub as_agent : Option String → Alias
  as_agent none = Alias.no_alias
  as_agent (some a) = Alias.alias a

  abbrev pub ask :
      {A : Type 0}
      → Delivery
      → ℕ
      → String
      → String
      → Option String
      → Body
      → Worker
      → (Option Reply → A)
      → Worker × Result LeaseClientError A
  ask d now path item agent body w read =
      let (w1, r) =
        call d now w (post path item (record { alias = as_agent agent; rest = body })) in
      (w1, r >>= (λ a. ok (read a)))

  unfoldable pub renew_lease_remote :
      Delivery
      → ℕ
      → String
      → String
      → ℕ
      → Option Seconds
      → Worker
      → Worker × Result LeaseClientError Bool
  renew_lease_remote d now item agent fencing ttl w =
      ask d now "/renew" item (some agent)
        (record no_body { fencing = some fencing; ttl_sec = ttl }) w read_renewed

  unfoldable pub bind_referent_remote :
      Delivery
      → ℕ
      → String
      → String
      → ℕ
      → RawReferent
      → Option Seconds
      → Worker
      → Worker × Result LeaseClientError CallOutcome
  bind_referent_remote d now item agent fencing ref ttl w =
      ask d now "/bind" item (some agent)
        (record no_body { fencing = some fencing; ttl_sec = ttl; referent = some ref }) w
        (read_outcome read_bound)

  unfoldable pub reap_lease_remote :
      Delivery
      → ℕ
      → String
      → ℕ
      → RawReferent
      → Worker
      → Worker × Result LeaseClientError CallOutcome
  reap_lease_remote d now item fencing ref w =
      ask d now "/reap" item none (record no_body { fencing = some fencing; referent = some ref }) w
        (read_outcome read_reaped)

  unfoldable pub release_lease_detailed :
      Delivery
      → ℕ
      → String
      → String
      → ℕ
      → String
      → Worker
      → Worker × Result LeaseClientError CallOutcome
  release_lease_detailed d now item agent fencing status w =
      ask d now "/release" item (some agent)
        (record no_body { fencing = some fencing; status = some status }) w
        (read_outcome read_released)

  -- What `claimNext` (src/mirror.ts) answers on the lease plane.
  abbrev pub take_or :
      String
      → Worker × Result LeaseClientError LeaseAttempt
      → Worker × Result LeaseClientError (Option (String × ℕ))
      → Worker × Result LeaseClientError (Option (String × ℕ))
  take_or item (w, err e) rest = (w, err e)
  take_or item (w, ok (grant g)) rest = (w, ok (some (item, g.fencing)))
  take_or item (w, ok (denied holder reason)) rest = rest

  -- The ranked items, each with what happens to its call, and when.
  unfoldable pub claim_next :
      String
      → Option Seconds
      → Option String
      → List (String × Delivery × ℕ)
      → Worker
      → Worker × Result LeaseClientError (Option (String × ℕ))
  claim_next agent ttl commit [] w = (w, ok none)
  claim_next agent ttl commit ((item, d, now) ∷ items) w =
      let (w1, a) = claim_lease d now item agent ttl commit w in
      take_or item (w1, a) (claim_next agent ttl commit items w1)
