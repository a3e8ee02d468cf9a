-- ===== src/Worker/Object.antt =====
-- `LeaseObject` of worker/lease/src/index.mjs: one item's storage, and what a request does to it.
-- The object handles one request at a time, so a request is one step. A JSON body is an object.
use front_desk_scheduler.Base.{
  ℕ, String, Bool, false, Option, none, some, List, [], ◌∷◌, map, filterb, ltb, ◌=ₛ◌, if◌then◌else◌,
  codes, to_number, Result, ok, err,
}
use front_desk_scheduler.Worker.{Referent, LeaseState, empty_state, is_live, Fault, Body}
use front_desk_scheduler.Worker.Decide.{
  Refusal, Grant, Decision, kept, moved, decide_claim, decide_renew, decide_bind, decide_reap,
  decide_release,
}
use front_desk_scheduler.Worker.History.{GrantRecord, GrantStatus, history_step, effective_status}

-- What `storage.get` finds under the two keys.
pub record Storage : Type 0 where
  pub state : Option LeaseState
  pub history : Option (List GrantRecord)

abbrev pub or_empty_state : Option LeaseState → LeaseState
or_empty_state none = empty_state
or_empty_state (some s) = s

abbrev pub or_empty_history : Option (List GrantRecord) → List GrantRecord
or_empty_history none = []
or_empty_history (some h) = h

pub data Op : Type 0 where
  claim renew bind reap release : Op

unfoldable pub decide : Op → LeaseState → Body → ℕ → Result Fault Decision
decide claim = decide_claim
decide renew = decide_renew
decide bind = decide_bind
decide reap = decide_reap
decide release = decide_release

pub record View : Type 0 where
  pub holder : Option String
  pub fencing : ℕ
  pub expires_at : Option ℕ
  pub live : Bool
  pub referent : Option Referent

unfoldable pub describe : LeaseState → ℕ → View
describe s now = record {
  holder = if is_live s now then s.holder else none;
  fencing = s.fencing;
  expires_at = s.expires_at;
  live = is_live s now;
  referent = s.referent;
}

pub data Reply : Type 0 where
  refusal : Refusal → Reply
  success : Grant → Reply
  described : View → Reply
  recorded : ℕ → List (GrantRecord × GrantStatus) → Reply
  bad_request : Fault → Reply
  not_json not_found : Reply

-- The two keys are written together, and only when the state object is another one.
abbrev pub store : Storage → Body → ℕ → Decision → Storage × Reply
store st q now (kept r) = (st, refusal r)
store st q now (moved next g) = (
  record {
    state = some next;
    history =
        some (history_step (or_empty_history st.history) q (or_empty_state st.state) next g now);
  },
  success g,
)

abbrev pub settle : Storage → Body → ℕ → Result Fault Decision → Storage × Reply
settle st q now (ok d) = store st q now d
settle st q now (err e) = (st, bad_request e)

unfoldable pub apply_transition : Op → Storage → Body → ℕ → Storage × Reply
apply_transition op st q now = settle st q now (decide op (or_empty_state st.state) q now)

-- `Number(since_fencing ?? 0)`; nothing is greater than NaN.
abbrev pub since_of : Option String → Option ℕ
since_of none = some 0
since_of (some t) = to_number (codes t)

abbrev pub is_above : Option ℕ → ℕ → Bool
is_above none f = false
is_above (some n) f = ltb n f

unfoldable pub history_since :
    Option String → List GrantRecord → ℕ → List (GrantRecord × GrantStatus)
history_since since h now =
    map (λ r. (r, effective_status r now)) (filterb (λ r. is_above (since_of since) r.fencing) h)

pub data Endpoint : Type 0 where
  transition : Op → Endpoint
  status history : Endpoint

unfoldable pub endpoint_of : String → Option Endpoint
endpoint_of p =
    if p =ₛ "/claim"
    then some (transition claim)
    else if p =ₛ "/renew"
    then some (transition renew)
    else if p =ₛ "/bind"
    then some (transition bind)
    else if p =ₛ "/reap"
    then some (transition reap)
    else if p =ₛ "/release"
    then some (transition release)
    else if p =ₛ "/status"
    then some status
    else if p =ₛ "/history"
    then some history
    else none

-- `body` is what `request.json()` gives, `none` where it throws.
pub record Request : Type 0 where
  pub is_post : Bool
  pub pathname : String
  pub body : Option Body
  pub since : Option String

abbrev pub no_body : Body
no_body = record {
  agent = none;
  ttl_sec = none;
  decided_at_commit = none;
  fencing = none;
  referent = none;
  status = none;
}

abbrev pub body_of : Request → Option Body
body_of q = if q.is_post then q.body else some no_body

abbrev pub dispatch : Storage → Option Endpoint → Option String → Body → ℕ → Storage × Reply
dispatch st none since q now = (st, not_found)
dispatch st (some (transition op)) since q now = apply_transition op st q now
dispatch st (some status) since q now = (st, described (describe (or_empty_state st.state) now))
dispatch st (some history) since q now =
    (st, recorded now (history_since since (or_empty_history st.history) now))

abbrev pub answer : Storage → Option Endpoint → Option String → Option Body → ℕ → Storage × Reply
answer st e since none now = (st, not_json)
answer st e since (some q) now = dispatch st e since q now

unfoldable pub fetch : Storage → Request → ℕ → Storage × Reply
fetch st r now = answer st (endpoint_of r.pathname) r.since (body_of r) now

-- The requests that the object handles one after the other, each at its own time.
unfoldable pub serve : Storage → List (Request × ℕ) → Storage × List Reply
serve st [] = (st, [])
serve st ((r, now) ∷ rs) =
    let (st1, a) = fetch st r now in let (st2, rest) = serve st1 rs in (st2, a ∷ rest)
