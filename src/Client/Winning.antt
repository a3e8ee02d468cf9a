-- ===== src/Client/Winning.antt =====
-- What a client of src/lease-client.ts takes for a grant.
use front_desk_scheduler.Base.{
  ℕ, ◌+◌, ◌≡◌, refl, sym, subst, String, Bool, true, false, ◌&&◌, not, Option, none, some, ◌==◌,
  ◌=ₛ◌, if◌then◌else◌, Text, codes, same_text_refl, Bool-cases, inl, inr, Result, ok, err, ◌>>=◌,
}
use front_desk_scheduler.Worker.{is_live, Fault, Seconds, Body}
use front_desk_scheduler.Worker.Decide.{Decision, granted}
use front_desk_scheduler.Worker.Object.{
  Storage, or_empty_state, Op, Reply, refusal, success, described, recorded, bad_request, not_json,
  not_found, settle, apply_transition, Endpoint, transition, status, history, Request, body_of,
  endpoint_of, answer, fetch,
}
use front_desk_scheduler.Worker.Outcome.{
  Outcome, faults, keeps, grants, extends, pins, collects, frees, decide-Outcome,
}
use front_desk_scheduler.Worker.Tokens.{token_granted, fencing_of}
use front_desk_scheduler.Worker.Auth.{Github, AuthFault, Cache}
use front_desk_scheduler.Worker.Router.{
  canonical_item_id, bearer, RouterRequest, Env, or_text, Worker, RouterReply, answered, healthy,
  bad_item_id, no_credentials, bad_alias, unauthenticated, as_body, put_object, forward, forward_as,
  admit, gate, route, handle,
}
use front_desk_scheduler.Client.{
  LeaseClientError, Delivery, delivered, request_lost, reply_lost, LeaseAttempt, grant, read_answer,
  read_claim, post, call, claim_body, claim_lease,
}

-- A token was given out by an object: its lease had lapsed or was free, and the token is the next.
abbrev pub Gives : Storage → ℕ → Storage → Option ℕ → Type 0
Gives st now st1 none = Unit
Gives st now st1 (some f) =
    (is_live (or_empty_state st.state) now ≡ false) × (f ≡ fencing_of st + 1) × (fencing_of st1 ≡ f)

settle-Gives :
    (st : Storage) (q : Body) (now : ℕ) (op : Op) (r : Result Fault Decision)
    → Outcome (or_empty_state st.state) q now op r
    → Gives st now (settle st q now r).0 (token_granted (settle st q now r).1)
settle-Gives st q now op _ faults = tt
settle-Gives st q now op _ keeps = tt
settle-Gives st q now _ _ (grants e h p) = (e, refl, refl)
settle-Gives st q now _ _ (extends o p) = tt
settle-Gives st q now _ _ (pins o p) = tt
settle-Gives st q now _ _ (collects c e v) = tt
settle-Gives st q now _ _ (frees o) = tt

fetch-Gives :
    (st : Storage) (r : Request) (now : ℕ)
    → Gives st now (fetch st r now).0 (token_granted (fetch st r now).1)
unfolding fetch apply_transition
fetch-Gives st r now = go (body_of r) (endpoint_of r.pathname)
  where
    go :
        (b : Option Body) (e : Option Endpoint)
        → Gives st now (answer st e r.since b now).0 (token_granted (answer st e r.since b now).1)
    go none e = tt
    go (some q) none = tt
    go (some q) (some status) = tt
    go (some q) (some history) = tt
    go (some q) (some (transition op)) =
        settle-Gives st q now op _ (decide-Outcome (or_empty_state st.state) q now op)

-- The same of the router, for the object of the item.
abbrev GivesAt : Option Text → (Text → Storage) → ℕ → Worker × RouterReply → Type 0
GivesAt none objects now (w, a) = Unit
GivesAt (some name) objects now (w, answered r) =
    Gives (objects name) now (w.objects name) (token_granted r)
GivesAt (some name) objects now (w, _) = Unit

put_object-same :
    (name : Text) (st : Storage) (objects : Text → Storage) → put_object name st objects name ≡ st
unfolding put_object
put_object-same name st objects = rw (same_text_refl name) refl

forward-GivesAt :
    (w : Worker) (name : Text) (r : RouterRequest) (b : Option Body) (now : ℕ)
    → GivesAt (some name) w.objects now (forward w name r b now)
forward-GivesAt w name r b now =
    let q : Request = record {
      is_post = r.is_post;
      pathname = r.pathname;
      body = b;
      since = r.since;
    } in
    let e = put_object-same name (fetch (w.objects name) q now).0 w.objects in
    subst (λ st. Gives (w.objects name) now st (token_granted (fetch (w.objects name) q now).1))
      (sym e) (fetch-Gives (w.objects name) q now)

module _ (digest : Text → String) (env : Env) (github : ℕ → Github) where
  forward_as-GivesAt :
      (w : Worker) (name : Text) (r : RouterRequest) (o : Option String) (now : ℕ)
      → GivesAt (some name) w.objects now (forward_as w name r o now)
  forward_as-GivesAt w name r none now = tt
  forward_as-GivesAt w name r (some who) now = forward-GivesAt w name r _ now

  admit-GivesAt :
      (w : Worker) (name : Text) (r : RouterRequest) (now : ℕ) (c : Cache × Result AuthFault String)
      → GivesAt (some name) w.objects now (admit w name r now c)
  admit-GivesAt w name r now (c, err e) = tt
  admit-GivesAt w name r now (c, ok identity) =
      forward_as-GivesAt (record w { cache = c }) name r _ now

  gate-GivesAt :
      (w : Worker) (name : Text) (r : RouterRequest) (now : ℕ) (t : Option Text)
      → GivesAt (some name) w.objects now (gate digest (github now) env w name r now t)
  gate-GivesAt w name r now none = tt
  gate-GivesAt w name r now (some token) = admit-GivesAt w name r now _

  route-GivesAt :
      (w : Worker) (o : Option Text) (r : RouterRequest) (now : ℕ)
      → GivesAt o w.objects now (route digest (github now) env w o r now)
  route-GivesAt w none r now = tt
  route-GivesAt w (some name) r now =
      go (r.is_post && not (or_text env.auth_mode "github" =ₛ "none"))
    where
      go :
          (b : Bool)
          → GivesAt (some name) w.objects now (
              if b
              then gate digest (github now) env w name r now (bearer r.authorization)
              else forward w name r (as_body r.json) now)
      go true = gate-GivesAt w name r now (bearer r.authorization)
      go false = forward-GivesAt w name r (as_body r.json) now

  -- What a client has for a grant: the object of its item gave it, just then.
  abbrev pub Won :
      String → (Text → Storage) → ℕ → Worker × Result LeaseClientError LeaseAttempt → Type 0
  Won item objects now (w, ok (grant g)) =
      (name : Text) × (canonical_item_id (codes item) ≡ some name)
      × (is_live (or_empty_state (objects name).state) now ≡ false)
      × (g.fencing ≡ fencing_of (objects name) + 1)
      × (fencing_of (w.objects name) ≡ g.fencing)
  Won item objects now (w, _) = Unit

  -- Read as an answer to a claim.
  abbrev decoded : Worker × RouterReply → Worker × Result LeaseClientError LeaseAttempt
  decoded (w, a) = (w, read_answer a >>= read_claim)

  reply-Won :
      (item : String) (name : Text) (objects : Text → Storage) (now : ℕ) (w : Worker) (a : Reply)
      → canonical_item_id (codes item) ≡ some name
      → GivesAt (some name) objects now (w, answered a)
      → Won item objects now (decoded (w, answered a))
  unfolding read_answer read_claim
  reply-Won item name objects now w (refusal r) e g = tt
  reply-Won item name objects now w (described v) e g = tt
  reply-Won item name objects now w (recorded n rs) e g = tt
  reply-Won item name objects now w (bad_request f) e g = tt
  reply-Won item name objects now w not_json e g = tt
  reply-Won item name objects now w not_found e g = tt
  reply-Won item name objects now w (success (granted reason a f t)) e g =
      elim (Bool-cases (f == 0)) [ inl h ↦ rw h tt | inr h ↦ rw h (name, e, g.0, g.1, g.2) ]
  reply-Won item name objects now w (success _) e g = tt

  decoded-Won :
      (item : String) (name : Text) (objects : Text → Storage) (now : ℕ) (p : Worker × RouterReply)
      → canonical_item_id (codes item) ≡ some name
      → GivesAt (some name) objects now p
      → Won item objects now (decoded p)
  unfolding read_answer read_claim
  decoded-Won item name objects now (w, healthy) e g = tt
  decoded-Won item name objects now (w, bad_item_id) e g = tt
  decoded-Won item name objects now (w, bad_alias) e g = tt
  decoded-Won item name objects now (w, no_credentials) e g = tt
  decoded-Won item name objects now (w, unauthenticated f) e g = tt
  decoded-Won item name objects now (w, answered r) e g = reply-Won item name objects now w r e g

  route-Won :
      (item : String) (w : Worker) (o : Option Text) (q : RouterRequest) (now : ℕ)
      → canonical_item_id (codes item) ≡ o
      → Won item w.objects now (decoded (route digest (github now) env w o q now))
  unfolding read_answer
  route-Won item w none q now e = tt
  route-Won item w (some name) q now e =
      decoded-Won item name w.objects now (route digest (github now) env w (some name) q now) e
        (route-GivesAt w (some name) q now)

  -- Whatever happens to a claim's call on the way, what the client takes for a grant was given by the
  -- object of the item, whose lease was not live at that time: its token is the next one, and the
  -- object has stored it.
  pub claim_lease-Won :
      (auth : Option String) (d : Delivery) (now : ℕ) (item agent : String) (ttl : Option Seconds)
      (commit : Option String) (w : Worker)
      → Won item w.objects now (claim_lease digest github env auth d now item agent ttl commit w)
  unfolding claim_lease call handle read_answer
  claim_lease-Won auth request_lost now item agent ttl commit w = tt
  claim_lease-Won auth reply_lost now item agent ttl commit w = tt
  claim_lease-Won auth delivered now item agent ttl commit w = go ("/claim" =ₛ "/health")
    where
      q : RouterRequest
      q =
          post digest github env auth "/claim" item
            (claim_body digest github env auth agent ttl commit)

      go :
          (b : Bool)
          → Won item w.objects now (
              decoded (
                if b
                then (w, healthy)
                else route digest (github now) env w (canonical_item_id (codes item)) q now))
      go true = tt
      go false = route-Won item w (canonical_item_id (codes item)) q now refl
