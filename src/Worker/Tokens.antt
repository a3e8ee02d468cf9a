-- ===== src/Worker/Tokens.antt =====
-- What the replies of worker/lease/src/index.mjs say about the state, and the tokens in them.
use front_desk_scheduler.Base.{
  ℕ, suc, ◌≡◌, refl, sym, subst, Bool, true, false, Option, none, some, List, [], ◌∷◌, arith,
  Result, ok, err,
}
use front_desk_scheduler.Worker.{Fault, Body}
use front_desk_scheduler.Worker.Decide.{granted, Decision, kept, moved}
use front_desk_scheduler.Worker.Object.{
  Storage, or_empty_state, Op, Reply, success, settle, apply_transition, Endpoint, transition,
  status, history, Request, body_of, endpoint_of, answer, fetch, serve,
}
use front_desk_scheduler.Worker.Outcome.{
  Outcome, faults, keeps, grants, extends, pins, collects, frees, decide-Outcome,
}

abbrev pub is_success : Reply → Bool
is_success (success g) = true
is_success _ = false

settle_unchanged :
    (st : Storage) (q : Body) (now : ℕ) (r : Result Fault Decision)
    → is_success (settle st q now r).1 ≡ false
    → (settle st q now r).0 ≡ st
settle_unchanged st q now (err e) h = refl
settle_unchanged st q now (ok (kept r)) h = refl
settle_unchanged st q now (ok (moved s g)) h = ground (arith, h)

-- A request that is not answered with a success leaves what is stored as it was: a body that is
-- not JSON, a fault, an unknown path and a refusal do, and so do the two reads.
pub fetch_unchanged :
    (st : Storage) (r : Request) (now : ℕ)
    → is_success (fetch st r now).1 ≡ false
    → (fetch st r now).0 ≡ st
unfolding fetch apply_transition
fetch_unchanged st r now = go (body_of r) (endpoint_of r.pathname)
  where
    go :
        (b : Option Body) (e : Option Endpoint)
        → is_success (answer st e r.since b now).1 ≡ false
        → (answer st e r.since b now).0 ≡ st
    go none e h = refl
    go (some q) none h = refl
    go (some q) (some status) h = refl
    go (some q) (some history) h = refl
    go (some q) (some (transition op)) h = settle_unchanged st q now _ h

-- The token of a grant, where a reply grants one.
abbrev pub token_granted : Reply → Option ℕ
token_granted (success (granted reason a f t)) = some f
token_granted _ = none

abbrev pub add_token : Option ℕ → List ℕ → List ℕ
add_token none ts = ts
add_token (some t) ts = t ∷ ts

-- The tokens that some replies grant, in their order.
abbrev pub tokens_granted : List Reply → List ℕ
tokens_granted [] = []
tokens_granted (a ∷ rest) = add_token (token_granted a) (tokens_granted rest)

-- The numbers that follow `n`, up to `m`.
abbrev pub IsCount : ℕ → List ℕ → ℕ → Type 0
IsCount n [] m = n ≡ m
IsCount n (t ∷ ts) m = (t ≡ suc n) × IsCount (suc n) ts m

abbrev pub fencing_of : Storage → ℕ
fencing_of st = (or_empty_state st.state).fencing

settle-IsCount :
    (st : Storage) (q : Body) (now : ℕ) (op : Op) (r : Result Fault Decision)
    → Outcome (or_empty_state st.state) q now op r
    → IsCount
        (fencing_of st)
        (add_token (token_granted (settle st q now r).1) [])
        (fencing_of (settle st q now r).0)
settle-IsCount st q now op _ faults = refl
settle-IsCount st q now op _ keeps = refl
settle-IsCount st q now _ _ (grants e h p) = (omega arith, omega arith)
settle-IsCount st q now _ _ (extends o p) = refl
settle-IsCount st q now _ _ (pins o p) = refl
settle-IsCount st q now _ _ (collects c e v) = refl
settle-IsCount st q now _ _ (frees o) = refl

fetch-IsCount :
    (st : Storage) (r : Request) (now : ℕ)
    → IsCount
        (fencing_of st)
        (add_token (token_granted (fetch st r now).1) [])
        (fencing_of (fetch st r now).0)
unfolding fetch apply_transition
fetch-IsCount st r now = go (body_of r) (endpoint_of r.pathname)
  where
    go :
        (b : Option Body) (e : Option Endpoint)
        → IsCount
            (fencing_of st)
            (add_token (token_granted (answer st e r.since b now).1) [])
            (fencing_of (answer st e r.since b now).0)
    go none e = refl
    go (some q) none = refl
    go (some q) (some status) = refl
    go (some q) (some history) = refl
    go (some q) (some (transition op)) =
        settle-IsCount st q now op _ (decide-Outcome (or_empty_state st.state) q now op)

add_token-IsCount :
    (o : Option ℕ) (ts : List ℕ) (k n m : ℕ)
    → IsCount k (add_token o []) n
    → IsCount n ts m
    → IsCount k (add_token o ts) m
add_token-IsCount none ts k n m e c = subst (λ x. IsCount x ts m) (sym e) c
add_token-IsCount (some t) ts k n m e c = (e.0, subst (λ x. IsCount x ts m) (sym e.1) c)

-- No two grants of an item have the same token: the tokens that the object grants, whatever it is
-- asked and at whatever times, are the numbers that follow the fencing it started from, in their
-- order and without a gap, up to the fencing that it stores in the end.
pub serve-IsCount :
    (rs : List (Request × ℕ)) (st : Storage)
    → IsCount (fencing_of st) (tokens_granted (serve st rs).1) (fencing_of (serve st rs).0)
unfolding serve
serve-IsCount [] st = refl
serve-IsCount ((r, now) ∷ rs) st =
    add_token-IsCount (token_granted (fetch st r now).1) _ _ _ _ (fetch-IsCount st r now)
      (serve-IsCount rs (fetch st r now).0)
