-- ===== src/Worker/Reads.antt =====
-- What `/claim`, `/history` and `/status` of worker/lease/src/index.mjs answer.
use front_desk_scheduler.Base.{
  ℕ, suc, ◌+◌, ◌<◌, ◌≡◌, refl, ◌∙◌, String, Bool, true, false, ◌&&◌, not, Option, none, some, List,
  [], ◌∷◌, filterb, length, ltb, leb, ◌==◌, ◌=ₛ◌, if◌then◌else◌, arith, Bool-cases, ◌⊎◌, inl, inr,
  ok, ◌>>=◌,
}
use front_desk_scheduler.Worker.{LeaseState, before_expiry, is_held, is_live, Seconds, ttl_ms, Body}
use front_desk_scheduler.Worker.Decide.{read_agent, claim_with, decide_claim}
use front_desk_scheduler.Worker.History.{
  GrantRecord, GrantStatus, is_active, at_or_past, effective_status,
}
use front_desk_scheduler.Worker.Object.{
  Storage, or_empty_state, or_empty_history, claim, decide, describe, settle, apply_transition,
  history_since,
}
use front_desk_scheduler.Worker.Tracking.{Mirrors, Tracks, IsTracked}
use front_desk_scheduler.Worker.Tokens.{token_granted, fencing_of}

abbrev pub reads_active : GrantRecord × GrantStatus → Bool
reads_active (r, st) = is_active st

abbrev count_active : List GrantRecord → ℕ → ℕ
count_active h now = length (filterb reads_active (history_since none h now))

closed-lem :
    (r : GrantRecord) (now : ℕ)
    → is_active r.status ≡ false
    → is_active (effective_status r now) ≡ false
unfolding effective_status
closed-lem r now e = rw e e

-- The last record reads as the state does.
mirror-lem :
    (s : LeaseState) (r : GrantRecord) (now : ℕ)
    → Mirrors s.holder s r
    → is_active (effective_status r now) ≡ is_live s now
unfolding effective_status is_live
mirror-lem s r now = go s.holder
  where
    timed :
        (t : Option ℕ)
        → is_active (if at_or_past now t then GrantStatus.expired else r.status)
          ≡ (if at_or_past now t then false else is_active r.status)
    timed none = refl
    timed (some t) = elim (Bool-cases (leb t now)) [ inl e ↦ rw e refl | inr e ↦ rw e refl ]

    past : (t : Option ℕ) → (if at_or_past now t then false else true) ≡ before_expiry now t
    past none = refl
    past (some t) = ground arith

    go :
        (o : Option String)
        → Mirrors o s r
        → is_active (
            if is_active r.status && at_or_past now r.expires_at
            then GrantStatus.expired
            else r.status)
          ≡ (is_held o && before_expiry now s.expires_at)
    go none m = rw m m
    go (some a) (e, b, t, ref) = rw e (timed r.expires_at ∙ rw (e, t) (past s.expires_at))

count_cons :
    (r : GrantRecord) (h : List GrantRecord) (now : ℕ)
    → 0 < r.fencing
    → count_active (r ∷ h) now
      ≡ (if is_active (effective_status r now) then 1 else 0) + count_active h now
unfolding history_since
count_cons r h now p =
    let shown : ltb 0 r.fencing ≡ true = ground arith in
    rw shown (elim (Bool-cases (is_active (effective_status r now))) [
      | inl e ↦ rw e (omega arith)
      | inr e ↦ rw e (omega arith)
    ])

free_lem : (s : LeaseState) (now : ℕ) → s.holder ≡ none → is_live s now ≡ false
unfolding is_live
free_lem s now e = rw e refl

count-lem :
    (n : ℕ) (s : LeaseState) (h : List GrantRecord) (now : ℕ)
    → Tracks n s h
    → count_active h now ≡ (if is_live s now then 1 else 0)
unfolding history_since
count-lem n s [] now t = rw (free_lem s now t.1) refl
count-lem n s (r ∷ []) now t =
    let e = count_cons r [] now (omega (arith, t.0)) in
    let m = mirror-lem s r now t.2 in e ∙ rw m (omega arith)
count-lem n s (r ∷ q ∷ h) now t =
    let e = count_cons r (q ∷ h) now (omega (arith, t.0)) in
    let c = closed-lem r now t.1 in e ∙ rw c (omega (arith, count-lem (suc n) s (q ∷ h) now t.2))

-- The two reads agree: of a history that is in step with its state, the records that read as
-- active at a moment are one while `/status` says that the lease is live, and none otherwise.
pub history_since-describe :
    (st : Storage) (now : ℕ)
    → IsTracked st
    → length (filterb reads_active (history_since none (or_empty_history st.history) now))
      ≡ (if (describe (or_empty_state st.state) now).live then 1 else 0)
unfolding describe
history_since-describe st now t =
    count-lem 0 (or_empty_state st.state) (or_empty_history st.history) now t

-- The request names an agent and a time to live that a claim accepts.
abbrev pub names_agent : Option String → Bool
names_agent none = false
names_agent (some a) = not (a =ₛ "")

abbrev pub gives_time : Option Seconds → Bool
gives_time none = false
gives_time (some t) = ltb 0 t.parts

-- A claim that names an agent and gives it time is granted exactly when the lease is not live, and
-- with the next token; any other claim is granted never.
pub decide_claim_iff :
    (st : Storage) (q : Body) (now : ℕ)
    → token_granted (apply_transition claim st q now).1 ≡ (
        if (names_agent q.agent && gives_time q.ttl_sec)
          && not (is_live (or_empty_state st.state) now)
        then some (fencing_of st + 1)
        else none)
unfolding apply_transition decide decide_claim ttl_ms claim_with
decide_claim_iff st q now = go q.agent q.ttl_sec
  where
    s : LeaseState
    s = or_empty_state st.state

    timed :
        (a : String) (t : Seconds)
        → (t.parts == 0 ≡ true) ⊎ (t.parts == 0 ≡ false)
        → (is_live s now ≡ true) ⊎ (is_live s now ≡ false)
        → token_granted (settle st q now (ttl_ms (some t) >>= (λ ms. ok (claim_with s now a ms)))).1
          ≡ (if ltb 0 t.parts && not (is_live s now) then some (fencing_of st + 1) else none)
    timed a t (inl e) l = rw e (let z : ltb 0 t.parts ≡ false = ground arith in rw z refl)
    timed a t (inr e) (inl f) = rw (e, f) (let z : ltb 0 t.parts ≡ true = ground arith in rw z refl)
    timed a t (inr e) (inr f) = rw (e, f) (let z : ltb 0 t.parts ≡ true = ground arith in rw z refl)

    go :
        (o : Option String) (t : Option Seconds)
        → token_granted
            (settle st q now
              (read_agent o >>= (λ a. ttl_ms t >>= (λ ms. ok (claim_with s now a ms))))).1
          ≡ (if (names_agent o && gives_time t) && not (is_live s now)
              then some (fencing_of st + 1)
              else none)
    go none t = refl
    go (some a) none = elim (Bool-cases (a =ₛ "")) [ inl e ↦ rw e refl | inr e ↦ rw e refl ]
    go (some a) (some t) = elim (Bool-cases (a =ₛ "")) [
      | inl e ↦ rw e refl
      | inr e ↦ rw e (timed a t (Bool-cases (t.parts == 0)) (Bool-cases (is_live s now)))
    ]
