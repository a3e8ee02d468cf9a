-- ===== src/Worker/Gate.antt =====
-- Who may write: the cache of worker/lease/src/auth.mjs, and the gate of the router in
-- worker/lease/src/index.mjs.
use front_desk_scheduler.Base.{
  ℕ, ◌+◌, ◌<◌, ◌≡◌, refl, subst, ◌∙◌, ◌⊎◌, inl, inr, String, true, false, ◌&&◌, not, Option, none,
  some, [], ◌∷◌, length, ltb, ◌=ₛ◌, =ₛ_iff, All, Text, codes, arith, Bool-cases, Result, ok, err,
}
use front_desk_scheduler.Worker.Auth.{
  Github, Github, AuthFault, CacheEntry, Cache, cached, set_cached, fresh_hit, identify, remember,
  use_hit, authenticate, namespace_agent,
}
use front_desk_scheduler.Worker.Identity.{
  IsPusher, IsInstalled, ConfirmsAs, identify-Confirms, IsAgentOf, namespace_agent-IsAgentOf,
}
use front_desk_scheduler.Worker.Object.{Storage, Request, fetch}
use front_desk_scheduler.Worker.Router.{
  canonical_item_id, bearer, RouterRequest, Env, or_text, Worker, or_no_body, put_object,
  forward_as, admit, auth_cache_max, trimmed_cache, default_repo, gate, route, handle,
}

module _ (digest : Text → String) (repo : String) (github : ℕ → Github) where
  -- At the time `t` GitHub confirmed `name` for a token with this digest: as the login of one who may
  -- push, or as an installation of the repository.
  abbrev pub Confirms : String → String → ℕ → Type 0
  Confirms k name t =
      (token : Text) × (digest token ≡ k)
      × (IsPusher (github t) token name ⊎ IsInstalled repo (github t) token name)

  -- An entry was confirmed five minutes before it expires.
  abbrev pub IsConfirmed : CacheEntry → Type 0
  IsConfirmed e = (t : ℕ) × (t + 300000 ≡ e.expires) × Confirms e.key e.identity t

  -- A verdict that is positive was confirmed, less than five minutes ago.
  abbrev pub Vouches : String → ℕ → Result AuthFault String → Type 0
  Vouches k now (err e) = Unit
  Vouches k now (ok name) = (t : ℕ) × (now < t + 300000) × Confirms k name t

  set_cached-All :
      (e : CacheEntry) (c : Cache)
      → IsConfirmed e
      → All IsConfirmed c
      → All IsConfirmed (set_cached e c)
  unfolding set_cached
  set_cached-All e [] h a = (h, tt)
  set_cached-All e (d ∷ c) h a = elim (Bool-cases (d.key =ₛ e.key)) [
    | inl f ↦ rw f (h, a.1)
    | inr f ↦ rw f (a.0, set_cached-All e c h a.1)
  ]

  -- What the cache answers, where it has the key at all.
  abbrev Found : String → Option CacheEntry → Type 0
  Found k none = Unit
  Found k (some e) = (e.key ≡ k) × IsConfirmed e

  cached-Found : (k : String) (c : Cache) → All IsConfirmed c → Found k (cached k c)
  unfolding cached
  cached-Found k [] a = tt
  cached-Found k (d ∷ c) a = elim (Bool-cases (d.key =ₛ k)) [
    | inl f ↦ rw f ((=ₛ_iff d.key k).0 f, a.0)
    | inr f ↦ rw f (cached-Found k c a.1)
  ]

  abbrev VouchesHit : String → ℕ → Option String → Type 0
  VouchesHit k now none = Unit
  VouchesHit k now (some name) = Vouches k now (ok name)

  fresh_hit-Vouches :
      (k : String) (now : ℕ) (o : Option CacheEntry)
      → Found k o
      → VouchesHit k now (fresh_hit now o)
  fresh_hit-Vouches k now none f = tt
  fresh_hit-Vouches k now (some e) f = elim (Bool-cases (ltb now e.expires)) [
    | inl h ↦ rw h (f.1.0, ground (arith, h, f.1.1), (f.1.2.0, f.1.2.1 ∙ f.0, f.1.2.2))
    | inr h ↦ rw h tt
  ]

  remember-Vouches :
      (token : Text) (now : ℕ) (c : Cache) (r : Result AuthFault String)
      → identify repo (github now) token ≡ r
      → All IsConfirmed c
      → All IsConfirmed (remember (digest token) now c r).0
        × Vouches (digest token) now (remember (digest token) now c r).1
  remember-Vouches token now c (err e) h a = (a, tt)
  remember-Vouches token now c (ok name) h a =
      let k : ConfirmsAs repo (github now) token (ok name) =
        subst (ConfirmsAs repo (github now) token) h (identify-Confirms repo (github now) token) in
      (set_cached-All _ c (now, refl, (token, refl, k)) a, (now, omega arith, (token, refl, k)))

  -- The cache stays confirmed, and whoever is identified was confirmed by GitHub less than five
  -- minutes before, with a token of the same digest.
  pub authenticate-Vouches :
      (token : Text) (c : Cache) (now : ℕ)
      → All IsConfirmed c
      → All IsConfirmed (authenticate digest repo (github now) token c now).0
        × Vouches (digest token) now (authenticate digest repo (github now) token c now).1
  unfolding authenticate
  authenticate-Vouches token c now a = elim (Bool-cases (ltb (length token) 4)) [
    | inl h ↦ rw h (a, tt)
    | inr h ↦ rw h (
        go (fresh_hit now (cached (digest token) c)) (
          fresh_hit-Vouches (digest token) now (cached (digest token) c)
            (cached-Found (digest token) c a)))
  ]
    where
      go :
          (o : Option String)
          → VouchesHit (digest token) now o
          → All IsConfirmed
              (use_hit o c (remember (digest token) now c (identify repo (github now) token))).0
            × Vouches
                (digest token)
                now
                (use_hit o c (remember (digest token) now c (identify repo (github now) token))).1
      go none v = remember-Vouches token now c _ refl a
      go (some name) v = (a, v)

trimmed_cache-All {ℓ} : (P : CacheEntry → Type ℓ) (c : Cache) → All P c → All P (trimmed_cache c)
trimmed_cache-All P c a = elim (Bool-cases (ltb auth_cache_max (length c))) [
  | inl h ↦ rw h tt
  | inr h ↦ rw h a
]

module _ (digest : Text → String) (env : Env) (github : ℕ → Github) where
  abbrev repo : String
  repo = or_text env.allowed_repo default_repo

  abbrev IsKept : Cache → Type 0
  IsKept = All (IsConfirmed digest repo github)

  -- The request that an object gets from an agent.
  abbrev pub asked_as : RouterRequest → String → Request
  asked_as r who = record {
    is_post = r.is_post;
    pathname = r.pathname;
    body = some (record (or_no_body r.json).rest { agent = some who });
    since = r.since;
  }

  -- What the objects become under a write: the same as before, or what the one object of the item
  -- makes of the request, under a name that its vouched identity was given.
  abbrev pub Vouched : (Text → Storage) → RouterRequest → ℕ → (Text → Storage) → Type 0
  Vouched objects r now after =
      (after ≡ objects)
      ⊎ ((name : Text) × (token : Text) × (identity : String) × (who : String) × (canonical_item_id
              (codes (or_text r.item_id ""))
            ≡ some name)
          × (bearer r.authorization ≡ some token)
          × Vouches digest repo github (digest token) now (ok identity)
          × IsAgentOf identity (or_no_body r.json).alias who
          × (after ≡ put_object name (fetch (objects name) (asked_as r who) now).0 objects))

  -- Where the deployment does not turn authentication off, and the cache holds only what GitHub
  -- confirmed, it goes on to do so, and a write leaves all objects as they were, or changes only
  -- the object of the item that it names: then GitHub confirmed the identity, for a token of the
  -- same digest as the bearer's, less than five minutes before, as the login of one who may push to the
  -- repository or as an installation of it, and the object sees as agent the identity or, behind it
  -- and a slash, the alias of the body.
  pub handle-Vouched :
      (w : Worker) (r : RouterRequest) (now : ℕ)
      → (or_text env.auth_mode "github" =ₛ "none") ≡ false
      → r.is_post ≡ true
      → IsKept w.cache
      → IsKept (handle digest (github now) env w r now).0.cache
        × Vouched w.objects r now (handle digest (github now) env w r now).0.objects
  unfolding handle
  handle-Vouched w r now m p a = elim (Bool-cases (r.pathname =ₛ "/health")) [
    | inl h ↦ rw h (a, inl refl)
    | inr h ↦ rw h (named (canonical_item_id (codes (or_text r.item_id ""))) refl)
  ]
    where
      under :
          (name token : Text) (identity : String) (c : Cache) (o : Option String)
          → canonical_item_id (codes (or_text r.item_id "")) ≡ some name
          → bearer r.authorization ≡ some token
          → Vouches digest repo github (digest token) now (ok identity)
          → namespace_agent identity (or_no_body r.json).alias ≡ o
          → IsKept c
          → IsKept (forward_as (record w { cache = c }) name r o now).0.cache
            × Vouched w.objects r now (forward_as (record w { cache = c }) name r o now).0.objects
      under name token identity c none e b v n k = (k, inl refl)
      under name token identity c (some who) e b v n k = (
        k,
        inr (name, token, identity, who, e, b, v, namespace_agent-IsAgentOf identity _ who n, refl),
      )

      judged :
          (name token : Text) (c : Cache × Result AuthFault String)
          → canonical_item_id (codes (or_text r.item_id "")) ≡ some name
          → bearer r.authorization ≡ some token
          → IsKept c.0
          → Vouches digest repo github (digest token) now c.1
          → IsKept (admit w name r now c).0.cache
            × Vouched w.objects r now (admit w name r now c).0.objects
      judged name token (c, err f) e b k v = (k, inl refl)
      judged name token (c, ok identity) e b k v = under name token identity c _ e b v refl k

      borne :
          (name : Text) (t : Option Text)
          → canonical_item_id (codes (or_text r.item_id "")) ≡ some name
          → bearer r.authorization ≡ t
          → IsKept (gate digest (github now) env w name r now t).0.cache
            × Vouched w.objects r now (gate digest (github now) env w name r now t).0.objects
      borne name none e b = (a, inl refl)
      borne name (some token) e b =
          let (k, v) =
            authenticate-Vouches digest repo github token (trimmed_cache w.cache) now
              (trimmed_cache-All _ w.cache a) in
          judged name token _ e b k v

      named :
          (o : Option Text)
          → canonical_item_id (codes (or_text r.item_id "")) ≡ o
          → IsKept (route digest (github now) env w o r now).0.cache
            × Vouched w.objects r now (route digest (github now) env w o r now).0.objects
      named none e = (a, inl refl)
      named (some name) e =
          let o : (r.is_post && not (or_text env.auth_mode "github" =ₛ "none")) ≡ true =
            rw (p, m) refl in
          rw o (borne name _ e refl)
