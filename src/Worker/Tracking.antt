-- ===== src/Worker/Tracking.antt =====
-- The history of a lease and its state (worker/lease/src/lease-core.mjs, index.mjs) say the same.
use front_desk_scheduler.Base.{
  ℕ, suc, ◌+◌, ◌≤◌, ◌≡◌, refl, sym, ap, ◌∙◌, ◌≢◌, String, true, false, Option, none, some, List, [],
  ◌∷◌, ◌++◌, ◌==◌, if◌then◌else◌, arith, Bool-cases, inl, inr, Result,
}
use front_desk_scheduler.Worker.{Referent, LeaseState, is_live, Fault, Seconds, Body}
use front_desk_scheduler.Worker.Decide.{ReleaseStatus, freed, Decision}
use front_desk_scheduler.Worker.History.{
  GrantStatus, GrantRecord, is_active, change_at, lapse, history_step, close, status_of,
}
use front_desk_scheduler.Worker.Object.{
  Storage, or_empty_state, or_empty_history, Op, settle, apply_transition, Endpoint, transition,
  status, history, Request, body_of, endpoint_of, answer, fetch, serve,
}
use front_desk_scheduler.Worker.Outcome.{
  Outcome, faults, keeps, grants, extends, pins, collects, frees, decide-Outcome,
}

-- The record of the last grant: active, and as the state has it, exactly while there is a holder.
abbrev pub Mirrors : Option String → LeaseState → GrantRecord → Type 0
Mirrors none s r = is_active r.status ≡ false
Mirrors (some a) s r =
    (is_active r.status ≡ true)
    × (r.agent ≡ some a)
    × (r.expires_at ≡ s.expires_at)
    × (r.referent ≡ s.referent)

-- After `n` grants the others are numbered on, up to the state's fencing; all but the last are
-- closed, and the last one mirrors the state.
abbrev pub Tracks : ℕ → LeaseState → List GrantRecord → Type 0
Tracks n s [] = (s.fencing ≡ n) × (s.holder ≡ none)
Tracks n s (r ∷ []) = (r.fencing ≡ suc n) × (s.fencing ≡ suc n) × Mirrors s.holder s r
Tracks n s (r ∷ q ∷ h) =
    (r.fencing ≡ suc n) × (is_active r.status ≡ false) × Tracks (suc n) s (q ∷ h)

Tracks-le :
    (n : ℕ) (s : LeaseState) (r : GrantRecord) (h : List GrantRecord)
    → Tracks n s (r ∷ h)
    → suc n ≤ s.fencing
Tracks-le n s r [] t = omega (arith, t.1)
Tracks-le n s r (q ∷ h) t = omega (arith, Tracks-le (suc n) s q h t.2)

change_hit :
    (f : ℕ) (change : GrantRecord → GrantRecord) (r : GrantRecord)
    → r.fencing ≡ f
    → (if r.fencing == f then change r else r) ≡ change r
change_hit f change r e = ground arith

change_miss :
    (f : ℕ) (change : GrantRecord → GrantRecord) (r : GrantRecord)
    → suc r.fencing ≤ f
    → (if r.fencing == f then change r else r) ≡ r
change_miss f change r e = ground arith

-- A change of the last record alone, along with the state's.
pub change_at-Tracks :
    (change : GrantRecord → GrantRecord) (s s1 : LeaseState)
    → ((r : GrantRecord) → (change r).fencing ≡ r.fencing)
    → s1.fencing ≡ s.fencing
    → s.holder ≢ none
    → ((r : GrantRecord) → Mirrors s.holder s r → Mirrors s1.holder s1 (change r))
    → (n : ℕ) (h : List GrantRecord) → Tracks n s h
    → Tracks n s1 (change_at s.fencing change h)
unfolding change_at
change_at-Tracks change s s1 kept e held step n [] t = absurd (held t.1)
change_at-Tracks change s s1 kept e held step n (r ∷ []) t =
    rw (change_hit s.fencing change r (t.0 ∙ sym t.1)) (kept r ∙ t.0, e ∙ t.1, step r t.2)
change_at-Tracks change s s1 kept e held step n (r ∷ q ∷ h) t =
    rw (change_miss s.fencing change r (omega (arith, t.0, Tracks-le (suc n) s q h t.2)))
      (t.0, t.1, change_at-Tracks change s s1 kept e held step (suc n) (q ∷ h) t.2)

lapse-closed :
    (r : GrantRecord) → ((lapse r).fencing ≡ r.fencing) × (is_active (lapse r).status ≡ false)
lapse-closed r = elim (Bool-cases (is_active r.status)) [
  | inl e ↦ rw e (refl, refl)
  | inr e ↦ rw e (refl, e)
]

-- A grant: the last record lapses, and the new one follows it.
pub grant-Tracks :
    (s s1 : LeaseState) (new : GrantRecord)
    → s1.fencing ≡ suc s.fencing
    → new.fencing ≡ suc s.fencing
    → Mirrors s1.holder s1 new
    → (n : ℕ) (h : List GrantRecord) → Tracks n s h
    → Tracks n s1 (change_at s.fencing lapse h ++ (new ∷ []))
unfolding change_at
grant-Tracks s s1 new e f m n [] t = (f ∙ ap suc t.0, e ∙ ap suc t.0, m)
grant-Tracks s s1 new e f m n (r ∷ []) t =
    let (same, closed) = lapse-closed r in
    rw (change_hit s.fencing lapse r (t.0 ∙ sym t.1))
      (same ∙ t.0, closed, (f ∙ ap suc t.1, e ∙ ap suc t.1, m))
grant-Tracks s s1 new e f m n (r ∷ q ∷ h) t =
    rw (change_miss s.fencing lapse r (omega (arith, t.0, Tracks-le (suc n) s q h t.2)))
      (t.0, t.1, grant-Tracks s s1 new e f m (suc n) (q ∷ h) t.2)

-- What the object stores: nothing yet, or a state and the history of it.
abbrev pub IsTracked : Storage → Type 0
IsTracked st = Tracks 0 (or_empty_state st.state) (or_empty_history st.history)

live-held : (s : LeaseState) (now : ℕ) → is_live s now ≡ true → s.holder ≢ none
unfolding is_live
live-held s now e h = ground (arith, e, h)

extend-Mirrors :
    (o : Option String) (s : LeaseState) (r : GrantRecord) (t : Option ℕ) (ttl : Option Seconds)
    → Mirrors o s r
    → Mirrors o (record s { expires_at = t }) (record r { expires_at = t; ttl_sec = ttl })
extend-Mirrors none s r t ttl m = m
extend-Mirrors (some a) s r t ttl m = (m.0, m.1, refl, m.3)

pin-Mirrors :
    (o : Option String) (s : LeaseState) (r : GrantRecord) (t : Option ℕ) (ttl : Option Seconds)
    (ref : Option Referent)
    → Mirrors o s r
    → Mirrors o
        (record s { referent = ref; expires_at = t })
        (record r { expires_at = t; ttl_sec = ttl; referent = ref })
pin-Mirrors none s r t ttl ref m = m
pin-Mirrors (some a) s r t ttl ref m = (m.0, m.1, refl, refl)

status_of-closed : (st : ReleaseStatus) → is_active (status_of st) ≡ false
status_of-closed ReleaseStatus.released = refl
status_of-closed ReleaseStatus.completed = refl

-- Every outcome keeps the history in step with the state.
settle-Tracks :
    (st : Storage) (q : Body) (now : ℕ) (op : Op) (r : Result Fault Decision)
    → Outcome (or_empty_state st.state) q now op r
    → IsTracked st
    → IsTracked (settle st q now r).0
unfolding history_step
settle-Tracks st q now op _ faults t = t
settle-Tracks st q now op _ keeps t = t
settle-Tracks st q now _ _ (grants {a} {ms} e h p) t =
    grant-Tracks (or_empty_state st.state) _ _ (omega arith) (omega arith) (refl, refl, refl, refl)
      0 (or_empty_history st.history) t
settle-Tracks st q now _ _ (extends {ms} o p) t =
    let s : LeaseState = or_empty_state st.state in
    change_at-Tracks _ s _ (λ r. refl) refl (live-held s now o.0.0)
      (λ r. extend-Mirrors s.holder s r (some (now + ms)) q.ttl_sec) 0 (or_empty_history st.history)
      t
settle-Tracks st q now _ _ (pins {ms} {ref} o p) t =
    let s : LeaseState = or_empty_state st.state in
    change_at-Tracks _ s _ (λ r. refl) refl (live-held s now o.0.0)
      (λ r. pin-Mirrors s.holder s r (some (now + ms)) q.ttl_sec (some ref)) 0
      (or_empty_history st.history) t
settle-Tracks st q now _ _ (collects c e v) t =
    let s : LeaseState = or_empty_state st.state in
    change_at-Tracks (close GrantStatus.reaped now) s (freed s) (λ r. refl) refl
      (live-held s now c.0) (λ r m. refl) 0 (or_empty_history st.history) t
settle-Tracks st q now _ _ (frees {st = st1} o) t =
    let s : LeaseState = or_empty_state st.state in
    change_at-Tracks (close (status_of st1) now) s (freed s) (λ r. refl) refl
      (live-held s now o.0.0) (λ r m. status_of-closed st1) 0 (or_empty_history st.history) t

apply_transition-IsTracked :
    (op : Op) (st : Storage) (q : Body) (now : ℕ)
    → IsTracked st
    → IsTracked (apply_transition op st q now).0
unfolding apply_transition
apply_transition-IsTracked op st q now =
    settle-Tracks st q now op _ (decide-Outcome (or_empty_state st.state) q now op)

-- Whatever is asked of the object, and however its clock runs, the history stays in step with the
-- state.
pub fetch-IsTracked :
    (st : Storage) (r : Request) (now : ℕ) → IsTracked st → IsTracked (fetch st r now).0
unfolding fetch
fetch-IsTracked st r now t = go (body_of r) (endpoint_of r.pathname)
  where
    go : (b : Option Body) (e : Option Endpoint) → IsTracked (answer st e r.since b now).0
    go none e = t
    go (some q) none = t
    go (some q) (some status) = t
    go (some q) (some history) = t
    go (some q) (some (transition op)) = apply_transition-IsTracked op st q now t

-- Whatever the object is asked, one request after the other and at whatever times, its history has
-- a record for each of its grants, numbered from 1 up to the state's fencing; all but the last are
-- closed, and the last is active, with the state's holder, expiry and referent, exactly while the
-- state has a holder.
pub serve-IsTracked :
    (rs : List (Request × ℕ)) (st : Storage) → IsTracked st → IsTracked (serve st rs).0
unfolding serve
serve-IsTracked [] st t = t
serve-IsTracked ((r, now) ∷ rs) st t =
    serve-IsTracked rs (fetch st r now).0 (fetch-IsTracked st r now t)
