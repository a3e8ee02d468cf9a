-- ===== src/Worker/Outcome.antt =====
-- The decisions of worker/lease/src/lease-core.mjs as a step relation: what the state may become,
-- by which operation and under which conditions.
use front_desk_scheduler.Base.{
  ℕ, ◌+◌, ◌≡◌, refl, sym, ap, ◌∙◌, same_text, same_text→≡, both_true, String, true, false, not,
  Option, none, some, ◌=ₛ◌, if◌then◌else◌, Bool-cases, inl, inr, Result, ok, err, ◌>>=◌,
}
use front_desk_scheduler.Worker.{
  Referent, LeaseState, is_live, Fault, ttl_ms, validate_referent, Body,
}
use front_desk_scheduler.Worker.Decide.{
  not_holder, stale_fencing, ReleaseStatus, Refusal, refused, not_held_here, Grant, granted,
  renewed, bound, let_go, Decision, kept, moved, is_holder, is_token, grant_reason, read_agent,
  claim_with, decide_claim, gated, decide_renew, decide_bind, freed, same_referent, reap_bound,
  decide_reap, read_status, decide_release,
}
use front_desk_scheduler.Worker.Object.{Op, claim, renew, bind, reap, release, decide}

-- The lease is live, and the request has its current token.
abbrev pub IsCurrent : LeaseState → Body → ℕ → Type 0
IsCurrent s q now = (is_live s now ≡ true) × (is_token q.fencing s.fencing ≡ true)

-- And the request names the holder.
abbrev pub IsOwner : LeaseState → Body → ℕ → Type 0
IsOwner s q now = IsCurrent s q now × (is_holder s.holder q.agent ≡ true)

same_referent→≡ : (a b : Referent) → same_referent a b ≡ true → a ≡ b
unfolding same_referent
same_referent→≡ a b h =
    let (e, f) = both_true (same_text a.kind b.kind) (same_text a.id b.id) h in
    λ i. record { kind = same_text→≡ a.kind b.kind e i; id = same_text→≡ a.id b.id f i }

pub data Outcome (s : LeaseState) (q : Body) (now : ℕ) : Op → Result Fault Decision → Type 0 where
  faults : {op : Op} {e : Fault} → Outcome s q now op (err e)
  keeps : {op : Op} {r : Refusal} → Outcome s q now op (ok (kept r))
  grants :
      {a : String} {ms : ℕ}
      → is_live s now ≡ false
      → q.agent ≡ some a
      → ttl_ms q.ttl_sec ≡ ok ms
      → Outcome s q now claim (
          ok (
            moved
              (record {
                holder = some a;
                expires_at = some (now + ms);
                fencing = s.fencing + 1;
                referent = none;
              })
              (granted (grant_reason s.holder) a (s.fencing + 1) (now + ms))))
  extends :
      {ms : ℕ}
      → IsOwner s q now
      → ttl_ms q.ttl_sec ≡ ok ms
      → Outcome s q now renew (
          ok (
            moved
              (record s { expires_at = some (now + ms) })
              (renewed s.holder s.fencing (now + ms))))
  pins :
      {ms : ℕ} {ref : Referent}
      → IsOwner s q now
      → ttl_ms q.ttl_sec ≡ ok ms
      → Outcome s q now bind (
          ok (
            moved
              (record s { referent = some ref; expires_at = some (now + ms) })
              (bound s.holder s.fencing ref (now + ms))))
  collects :
      {ref : Referent}
      → IsCurrent s q now
      → s.referent ≡ some ref
      → validate_referent q.referent ≡ ok ref
      → Outcome s q now reap (ok (moved (freed s) (Grant.reaped s.holder s.fencing ref)))
  frees :
      {st : ReleaseStatus}
      → IsOwner s q now
      → Outcome s q now release (ok (moved (freed s) (let_go s.fencing st)))

module _ (s : LeaseState) (q : Body) (now : ℕ) where
  gated-Outcome :
      (op : Op) (move : Decision)
      → (IsOwner s q now → Outcome s q now op (ok move))
      → Outcome s q now op (ok (gated s q now move))
  unfolding gated
  gated-Outcome op move k = elim (Bool-cases (is_live s now)) [
    | inr e ↦ rw e keeps
    | inl e ↦ rw e (elim (Bool-cases (is_holder s.holder q.agent)) [
      | inr f ↦ rw f keeps
      | inl f ↦ rw f (elim (Bool-cases (is_token q.fencing s.fencing)) [
        | inr g ↦ rw g keeps
        | inl g ↦ rw g (k ((e, g), f))
      ])
    ])
  ]

  claim_with-Outcome :
      (a : String) (ms : ℕ)
      → q.agent ≡ some a
      → ttl_ms q.ttl_sec ≡ ok ms
      → Outcome s q now claim (ok (claim_with s now a ms))
  unfolding claim_with
  claim_with-Outcome a ms h p = elim (Bool-cases (is_live s now)) [
    | inl e ↦ rw e keeps
    | inr e ↦ rw e (grants e h p)
  ]

  decide_claim-Outcome : Outcome s q now claim (decide_claim s q now)
  unfolding decide_claim
  decide_claim-Outcome = go q.agent refl (ttl_ms q.ttl_sec) refl
    where
      timed :
          (a : String) (m : Result Fault ℕ)
          → q.agent ≡ some a
          → ttl_ms q.ttl_sec ≡ m
          → Outcome s q now claim (m >>= (λ ms. ok (claim_with s now a ms)))
      timed a (err e) h p = faults
      timed a (ok ms) h p = claim_with-Outcome a ms h p

      go :
          (o : Option String)
          → q.agent ≡ o
          → (m : Result Fault ℕ) → ttl_ms q.ttl_sec ≡ m
          → Outcome s q now claim (read_agent o >>= (λ a. m >>= (λ ms. ok (claim_with s now a ms))))
      go none h m p = faults
      go (some a) h m p = elim (Bool-cases (a =ₛ "")) [
        | inl e ↦ rw e faults
        | inr e ↦ rw e (timed a m h p)
      ]

  decide_renew-Outcome : Outcome s q now renew (decide_renew s q now)
  unfolding decide_renew
  decide_renew-Outcome = go (ttl_ms q.ttl_sec) refl
    where
      move : ℕ → Decision
      move ms =
          moved (record s { expires_at = some (now + ms) }) (renewed s.holder s.fencing (now + ms))

      go :
          (m : Result Fault ℕ)
          → ttl_ms q.ttl_sec ≡ m
          → Outcome s q now renew (m >>= (λ ms. ok (gated s q now (move ms))))
      go (err e) p = faults
      go (ok ms) p = gated-Outcome renew (move ms) (λ o. extends o p)

  decide_bind-Outcome : Outcome s q now bind (decide_bind s q now)
  unfolding decide_bind
  decide_bind-Outcome = go (ttl_ms q.ttl_sec) refl (validate_referent q.referent)
    where
      move : ℕ → Referent → Decision
      move ms ref =
          moved (record s { referent = some ref; expires_at = some (now + ms) })
            (bound s.holder s.fencing ref (now + ms))

      go :
          (m : Result Fault ℕ)
          → ttl_ms q.ttl_sec ≡ m
          → (v : Result Fault Referent)
          → Outcome s q now bind (m >>= (λ ms. v >>= (λ ref. ok (gated s q now (move ms ref)))))
      go (err e) p v = faults
      go (ok ms) p (err e) = faults
      go (ok ms) p (ok ref) = gated-Outcome bind (move ms ref) (λ o. pins o p)

  reap_bound-Outcome :
      (v : Referent)
      → validate_referent q.referent ≡ ok v
      → IsCurrent s q now
      → (o : Option Referent) → s.referent ≡ o
      → Outcome s q now reap (ok (reap_bound s v o))
  unfolding reap_bound
  reap_bound-Outcome v hv c none e = keeps
  reap_bound-Outcome v hv c (some r) e = elim (Bool-cases (same_referent r v)) [
    | inl f ↦ rw f (collects c e (hv ∙ ap ok (sym (same_referent→≡ r v f))))
    | inr f ↦ rw f keeps
  ]

  decide_reap-Outcome : Outcome s q now reap (decide_reap s q now)
  unfolding decide_reap
  decide_reap-Outcome = go (validate_referent q.referent) refl
    where
      go :
          (v : Result Fault Referent)
          → validate_referent q.referent ≡ v
          → Outcome s q now reap (
              v >>= (λ ref. ok (
                if not (is_live s now)
                then kept (not_held_here s.fencing)
                else if not (is_token q.fencing s.fencing)
                then kept (refused stale_fencing s.holder s.fencing)
                else reap_bound s ref s.referent)))
      go (err e) h = faults
      go (ok ref) h = elim (Bool-cases (is_live s now)) [
        | inr e ↦ rw e keeps
        | inl e ↦ rw e (elim (Bool-cases (is_token q.fencing s.fencing)) [
          | inr g ↦ rw g keeps
          | inl g ↦ rw g (reap_bound-Outcome ref h (e, g) s.referent refl)
        ])
      ]

  decide_release-Outcome : Outcome s q now release (decide_release s q now)
  unfolding decide_release
  decide_release-Outcome = go (read_status q.status)
    where
      go :
          (t : Result Fault ReleaseStatus)
          → Outcome s q now release (
              t >>= (λ st. ok (
                if not (is_live s now)
                then kept (not_held_here s.fencing)
                else if not (is_holder s.holder q.agent)
                then kept (refused not_holder s.holder s.fencing)
                else if not (is_token q.fencing s.fencing)
                then kept (refused stale_fencing s.holder s.fencing)
                else moved (freed s) (let_go s.fencing st))))
      go (err e) = faults
      go (ok st) = elim (Bool-cases (is_live s now)) [
        | inr e ↦ rw e keeps
        | inl e ↦ rw e (elim (Bool-cases (is_holder s.holder q.agent)) [
          | inr f ↦ rw f keeps
          | inl f ↦ rw f (elim (Bool-cases (is_token q.fencing s.fencing)) [
            | inr g ↦ rw g keeps
            | inl g ↦ rw g (frees ((e, g), f))
          ])
        ])
      ]

  -- The operations do what the relation says.
  pub decide-Outcome : (op : Op) → Outcome s q now op (decide op s q now)
  unfolding decide
  decide-Outcome claim = decide_claim-Outcome
  decide-Outcome renew = decide_renew-Outcome
  decide-Outcome bind = decide_bind-Outcome
  decide-Outcome reap = decide_reap-Outcome
  decide-Outcome release = decide_release-Outcome
