-- ===== src/Worker/Auth.antt =====
-- worker/lease/src/auth.mjs: what GitHub says of a token, the cache of the positive answers, and
-- the name that an agent gets. GitHub and the digest of a token are parameters.
use Prim.Native.String.{◌++◌}
use front_desk_scheduler.Base.{
  ℕ, ◌+◌, String, Bool, false, ◌&&◌, not, Option, none, some, List, [], ◌∷◌, any, length, ltb, ◌==◌,
  ◌=ₛ◌, if◌then◌else◌, Text, codes, to_lower, same_text, Result, ok, err,
}

-- `GET /user`: the login, `none` where it is no text; or the status of a failure.
pub data UserAnswer : Type 0 where
  login : Option String → UserAnswer
  no_user : ℕ → UserAnswer

-- `GET /repos/…`: the permissions push, maintain and admin, where they are `true`.
pub data RepoAnswer : Type 0 where
  permissions : Bool → Bool → Bool → RepoAnswer
  unreadable : ℕ → RepoAnswer

-- `GET /installation/repositories`: the full names, where they are texts.
pub data InstallationAnswer : Type 0 where
  repositories : List (Option String) → InstallationAnswer
  no_installation : ℕ → InstallationAnswer

-- What GitHub answers a token about the repository.
pub record Github : Type 0 where
  pub user : Text → UserAnswer
  pub repo : Text → RepoAnswer
  pub installation : Text → InstallationAnswer

pub data AuthFault : Type 0 where
  malformed_token no_login : AuthFault
  cannot_read : ℕ → AuthFault
  no_push : String → AuthFault
  not_covered : AuthFault
  neither : ℕ → ℕ → AuthFault

pub record CacheEntry : Type 0 where
  pub key : String
  pub identity : String
  pub expires : ℕ

abbrev pub Cache : Type 0
Cache = List CacheEntry

unfoldable pub cached : String → Cache → Option CacheEntry
cached k [] = none
cached k (e ∷ es) = if e.key =ₛ k then some e else cached k es

unfoldable pub set_cached : CacheEntry → Cache → Cache
set_cached n [] = n ∷ []
set_cached n (e ∷ es) = if e.key =ₛ n.key then n ∷ es else e ∷ set_cached n es

abbrev pub cache_ttl_ms : ℕ
cache_ttl_ms = 300000

abbrev pub fresh_hit : ℕ → Option CacheEntry → Option String
fresh_hit now none = none
fresh_hit now (some e) = if ltb now e.expires then some e.identity else none

-- `r?.full_name?.toLowerCase() === repo.toLowerCase()`.
abbrev pub is_repo : String → Option String → Bool
is_repo repo none = false
is_repo repo (some n) = same_text (to_lower (codes n)) (to_lower (codes repo))

-- The checks of a user token, once its login is known.
abbrev pub judge_push : String → RepoAnswer → Result AuthFault String
judge_push name (unreadable st) = err (cannot_read st)
judge_push name (permissions push maintain admin) =
    if not push && (not maintain && not admin) then err (no_push name) else ok name

abbrev pub judge_installation : String → ℕ → InstallationAnswer → Result AuthFault String
judge_installation repo st (no_installation st1) = err (neither st st1)
judge_installation repo st (repositories names) =
    if any (is_repo repo) names then ok "gha" else err not_covered

abbrev pub judge : String → UserAnswer → RepoAnswer → InstallationAnswer → Result AuthFault String
judge repo (login none) r i = err no_login
judge repo (login (some name)) r i = if name =ₛ "" then err no_login else judge_push name r
judge repo (no_user st) r i = judge_installation repo st i

-- What GitHub's answers make of a token.
unfoldable pub identify : String → Github → Text → Result AuthFault String
identify repo g token = judge repo (g.user token) (g.repo token) (g.installation token)

abbrev pub remember : String → ℕ → Cache → Result AuthFault String → Cache × Result AuthFault String
remember k now cache (err e) = (cache, err e)
remember k now cache (ok name) =
    (set_cached (record { key = k; identity = name; expires = now + cache_ttl_ms }) cache, ok name)

abbrev pub use_hit :
    Option String → Cache → Cache × Result AuthFault String → Cache × Result AuthFault String
use_hit (some name) cache asked = (cache, ok name)
use_hit none cache asked = asked

-- With the cache that the router gives.
unfoldable pub authenticate :
    (Text → String) → String → Github → Text → Cache → ℕ → Cache × Result AuthFault String
unfolding cached
authenticate digest repo g token cache now =
    if ltb (length token) 4
    then (cache, err malformed_token)
    else use_hit (fresh_hit now (cached (digest token) cache)) cache
        (remember (digest token) now cache (identify repo g token))

-- The agent of a body: not there (or null), of another type, or a text.
pub data Alias : Type 0 where
  no_alias other_alias : Alias
  alias : String → Alias

-- `none` where a `TypeError` is thrown.
unfoldable pub namespace_agent : String → Alias → Option String
namespace_agent identity no_alias = some identity
namespace_agent identity other_alias = none
namespace_agent identity (alias a) =
    if a =ₛ ""
    then some identity
    else if any (λ c. c == b'/') (codes a)
    then none
    else some (identity ++ ("/" ++ a))
