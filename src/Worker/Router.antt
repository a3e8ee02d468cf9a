-- ===== src/Worker/Router.antt =====
-- The router of worker/lease/src/index.mjs: one object for each canonical item id, and the gate that
-- a write passes before it reaches the object.
use front_desk_scheduler.Base.{
  ℕ, String, Bool, ◌&&◌, ◌||◌, not, Option, none, some, [], ◌∷◌, every, length, ltb, ◌==◌, ◌=ₛ◌,
  if◌then◌else◌, Text, codes, trim, to_lower, same_text, Result, ok, err,
}
use front_desk_scheduler.Worker.{Body, is_blank}
use front_desk_scheduler.Worker.Auth.{
  Github, AuthFault, Cache, authenticate, Alias, no_alias, alias, namespace_agent,
}
use front_desk_scheduler.Worker.Object.{Storage, Reply, no_body, fetch}

-- `none` where a `TypeError` is thrown.
abbrev pub unless_empty : Text → Option Text
unless_empty [] = none
unless_empty (c ∷ cs) = some (c ∷ cs)

unfoldable pub canonical_item_id : Text → Option Text
canonical_item_id t = unless_empty (to_lower (trim t))

unfoldable pub drop_prefix : Text → Text → Option Text
drop_prefix [] t = some t
drop_prefix (c ∷ cs) [] = none
drop_prefix (c ∷ cs) (d ∷ ds) = let rest = drop_prefix cs ds in if c == d then rest else none

abbrev pub is_line_end : ℕ → Bool
is_line_end c = c == 10 || (c == 13 || (c == 8232 || c == 8233))

abbrev pub whole_line : Option Text → Option Text
whole_line none = none
whole_line (some t) =
    if is_blank t || not (every (λ c. not (is_line_end c)) t) then none else some t

-- `/^Bearer (.+)$/`, of a header that may be missing.
unfoldable pub bearer : Option String → Option Text
unfolding drop_prefix
bearer none = none
bearer (some h) = whole_line (drop_prefix (codes "Bearer ") (codes h))

-- A JSON body: its `agent`, and the other fields.
pub record RawBody : Type 0 where
  pub alias : Alias
  pub rest : Body

pub record RouterRequest : Type 0 where
  pub pathname : String
  pub item_id : Option String
  pub since : Option String
  pub is_post : Bool
  pub authorization : Option String
  pub json : Option RawBody

pub record Env : Type 0 where
  pub auth_mode : Option String
  pub allowed_repo : Option String

abbrev pub or_text : Option String → String → String
or_text none d = d
or_text (some t) d = t

-- The objects by their names, and the isolate's cache of positive answers.
pub record Worker : Type 0 where
  pub objects : Text → Storage
  pub cache : Cache

pub data RouterReply : Type 0 where
  healthy bad_item_id no_credentials bad_alias : RouterReply
  unauthenticated : AuthFault → RouterReply
  answered : Reply → RouterReply

abbrev pub agent_of : Alias → Option String
agent_of (alias a) = some a
agent_of _ = none

abbrev pub as_body : Option RawBody → Option Body
as_body none = none
as_body (some b) = some (record b.rest { agent = agent_of b.alias })

-- `request.json().catch(() => ({}))`.
abbrev pub or_no_body : Option RawBody → RawBody
or_no_body none = record { alias = no_alias; rest = no_body }
or_no_body (some b) = b

unfoldable pub put_object : Text → Storage → (Text → Storage) → Text → Storage
put_object name st objects k = if same_text name k then st else objects k

-- `stub.fetch`, with the body that it is given.
abbrev pub forward : Worker → Text → RouterRequest → Option Body → ℕ → Worker × RouterReply
forward w name r body now =
    let (st, a) =
      fetch (w.objects name)
        (record { is_post = r.is_post; pathname = r.pathname; body = body; since = r.since }) now in
    (record w { objects = put_object name st w.objects }, answered a)

abbrev pub forward_as : Worker → Text → RouterRequest → Option String → ℕ → Worker × RouterReply
forward_as w name r none now = (w, bad_alias)
forward_as w name r (some who) now =
    forward w name r (some (record (or_no_body r.json).rest { agent = some who })) now

abbrev pub admit :
    Worker → Text → RouterRequest → ℕ → Cache × Result AuthFault String → Worker × RouterReply
admit w name r now (cache, err e) = (record w { cache = cache }, unauthenticated e)
admit w name r now (cache, ok identity) =
    forward_as (record w { cache = cache }) name r
      (namespace_agent identity (or_no_body r.json).alias) now

abbrev pub auth_cache_max : ℕ
auth_cache_max = 512

abbrev pub default_repo : String
default_repo = "bounded-systems/front-desk-scheduler"

abbrev pub trimmed_cache : Cache → Cache
trimmed_cache c = if ltb auth_cache_max (length c) then [] else c

module _ (digest : Text → String) (g : Github) (env : Env) where
  abbrev pub gate : Worker → Text → RouterRequest → ℕ → Option Text → Worker × RouterReply
  gate w name r now none = (w, no_credentials)
  gate w name r now (some token) = admit w name r now (
      authenticate digest (or_text env.allowed_repo default_repo) g token (trimmed_cache w.cache)
        now)

  abbrev pub route : Worker → Option Text → RouterRequest → ℕ → Worker × RouterReply
  route w none r now = (w, bad_item_id)
  route w (some name) r now =
      if r.is_post && not (or_text env.auth_mode "github" =ₛ "none")
      then gate w name r now (bearer r.authorization)
      else forward w name r (as_body r.json) now

  unfoldable pub handle : Worker → RouterRequest → ℕ → Worker × RouterReply
  handle w r now =
      if r.pathname =ₛ "/health"
      then (w, healthy)
      else route w (canonical_item_id (codes (or_text r.item_id ""))) r now
