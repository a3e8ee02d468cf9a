-- ===== src/Worker/Slot.antt =====
-- What the lease plane promises of one item, without refusals and histories, and of a time to live
-- only whether it is a millisecond: a slot that one agent occupies at a time, with a token of its own.
use native.Mathlib.Nat.{div-mul-le_self, lt-div-mul-add}
use front_desk_scheduler.Base.{
  ℕ, zero, suc, ◌+◌, ◌*◌, ◌/◌, ◌<◌, ◌≤◌, leb, ◌==◌, Bool, Bool-cases, inl, inr, ◌≡◌, refl, sym, ap,
  ◌∙◌, String, true, false, ◌&&◌, Option, none, some, ltb, if◌then◌else◌, arith, =ₛ_iff, Result, ok,
  err,
}
use front_desk_scheduler.Worker.{
  Referent, LeaseState, before_expiry, is_held, is_live, Fault, bad_ttl, Seconds, ttl_ms,
  validate_referent, Body,
}
use front_desk_scheduler.Worker.Decide.{Decision, is_holder, is_token}
use front_desk_scheduler.Worker.Object.{
  Storage, or_empty_state, Op, claim, reap, release, settle, apply_transition,
}
use front_desk_scheduler.Worker.Outcome.{
  Outcome, faults, keeps, grants, extends, pins, collects, frees, IsOwner, decide-Outcome,
}

-- The number is the last token given out; an occupied slot's is the occupant's.
pub data Slot : Type 0 where
  vacant : ℕ → Slot
  occupied : String → ℕ → Option Referent → Slot

-- Who asks: an agent without a token, an agent with one, or the collector with one, and with what
-- it saw closed. An agent asks for a stay of a millisecond or more (true), or of less.
pub data Caller : Type 0 where
  newcomer : Option String → Bool → Caller
  agent : Option String → Option ℕ → Bool → Caller
  collector : Option Referent → Option ℕ → Caller

pub data SlotStep : Caller → Slot → Slot → Type 0 where
  stay : {c : Caller} {s : Slot} → SlotStep c s s
  enter :
      {a : String} {n : ℕ} → SlotStep (newcomer (some a) true) (vacant n) (occupied a (n + 1) none)
  pass : {a : String} {n : ℕ} → SlotStep (newcomer (some a) false) (vacant n) (vacant (n + 1))
  pin :
      {a : String} {n : ℕ} {r r1 : Option Referent}
      → SlotStep (agent (some a) (some n) true) (occupied a n r) (occupied a n r1)
  leave :
      {a : String} {n : ℕ} {r : Option Referent}
      → SlotStep (agent (some a) (some n) false) (occupied a n r) (vacant n)
  expel :
      {a : String} {n : ℕ} {r : Referent}
      → SlotStep (collector (some r) (some n)) (occupied a n (some r)) (vacant n)

abbrev or_zero : Result Fault ℕ → ℕ
or_zero (ok n) = n
or_zero (err e) = 0

abbrev pub named : Result Fault Referent → Option Referent
named (ok r) = some r
named (err e) = none

-- The time is a millisecond or more.
abbrev pub lasts : Option Seconds → Bool
lasts none = false
lasts (some t) = leb (t.per + 1) (t.parts * 1000)

abbrev pub caller_of : Op → Body → Caller
caller_of claim q = newcomer q.agent (lasts q.ttl_sec)
caller_of release q = agent q.agent q.fencing false
caller_of reap q = collector (named (validate_referent q.referent)) q.fencing
caller_of op q = agent q.agent q.fencing (lasts q.ttl_sec)

-- The slot as it is at `now`.
abbrev pub slot_of : Option String → Option ℕ → ℕ → Option Referent → ℕ → Slot
slot_of (some a) (some t) n r now = if ltb now t then occupied a n r else vacant n
slot_of o t n r now = vacant n

unfoldable pub slot_at : ℕ → LeaseState → Slot
slot_at now s = slot_of s.holder s.expires_at s.fencing s.referent now

-- Of a live lease, who holds it.
abbrev Shown : LeaseState → ℕ → Type 0
Shown s now = (a : String) × (s.holder ≡ some a) × (slot_at now s ≡ occupied a s.fencing s.referent)

shown : (s : LeaseState) (now : ℕ) → is_live s now ≡ true → Shown s now
unfolding is_live slot_at
shown s now h = go s.holder s.expires_at h
  where
    go :
        (o : Option String) (t : Option ℕ)
        → (is_held o && before_expiry now t) ≡ true
        → (a : String) × (o ≡ some a)
          × (slot_of o t s.fencing s.referent now ≡ occupied a s.fencing s.referent)
    go none t h = ground (arith, h)
    go (some a) none h = ground (arith, h)
    go (some a) (some t) h = (a, refl, ground (arith, h))

hidden : (s : LeaseState) (now : ℕ) → is_live s now ≡ false → slot_at now s ≡ vacant s.fencing
unfolding is_live slot_at
hidden s now h = go s.holder s.expires_at h
  where
    go :
        (o : Option String) (t : Option ℕ)
        → (is_held o && before_expiry now t) ≡ false
        → slot_of o t s.fencing s.referent now ≡ vacant s.fencing
    go none t h = refl
    go (some a) none h = refl
    go (some a) (some t) h = ground (arith, h)

quotient_positive : (d b m : ℕ) → d * b ≤ m → m < d * b + b → ltb 0 d ≡ leb b m
quotient_positive zero b m h k = ground (arith, h, k)
quotient_positive (suc d) b m h k = ground (arith, h, k)

-- A grant lasts exactly where a millisecond was asked for.
ttl_ms-lasts : (o : Option Seconds) (ms : ℕ) → ttl_ms o ≡ ok ms → ltb 0 ms ≡ lasts o
unfolding ttl_ms
ttl_ms-lasts none ms h = ground (arith, h)
ttl_ms-lasts (some t) ms h = elim (Bool-cases (t.parts == 0)) [
  | inl e ↦ let f : err bad_ttl ≡ ok ms = sym (rw e refl) ∙ h in ground (arith, f)
  | inr e ↦
      let f : ok (t.parts * 1000 / (t.per + 1)) ≡ ok ms = sym (rw e refl) ∙ h in
      let g : t.parts * 1000 / (t.per + 1) ≡ ms = ap (or_zero) f in
      sym (ap (ltb 0) g)
      ∙ quotient_positive (t.parts * 1000 / (t.per + 1)) (t.per + 1) (t.parts * 1000)
          (div-mul-le_self (t.parts * 1000) (t.per + 1)) (lt-div-mul-add (omega arith))
]

-- The slot of a lease that was given this long.
given_slot :
    (a : String) (n : ℕ) (r : Option Referent) (now ms : ℕ)
    → slot_of (some a) (some (now + ms)) n r now ≡ (if ltb 0 ms then occupied a n r else vacant n)
given_slot a n r now ms = let e : ltb now (now + ms) ≡ ltb 0 ms = ground arith in rw e refl

enters :
    (a : String) (n : ℕ) (b : Bool)
    → SlotStep
        (newcomer (some a) b)
        (vacant n)
        (if b then occupied a (n + 1) none else vacant (n + 1))
enters a n true = enter
enters a n false = pass

stays :
    (a : String) (n : ℕ) (r r1 : Option Referent) (b : Bool)
    → SlotStep
        (agent (some a) (some n) b)
        (occupied a n r)
        (if b then occupied a n r1 else vacant n)
stays a n r r1 true = pin
stays a n r r1 false = leave

step_by :
    {c c1 : Caller} {x x1 y y1 : Slot}
    → c ≡ c1
    → x ≡ x1
    → y ≡ y1
    → SlotStep c1 x1 y1
    → SlotStep c x y
step_by e f g k = rw (e, f, g) k

token_of : (o : Option ℕ) (n : ℕ) → is_token o n ≡ true → o ≡ some n
token_of none n h = ground (arith, h)
token_of (some f) n h = ap some (ground (arith, h))

holder_of : (a : String) (o : Option String) → is_holder (some a) o ≡ true → o ≡ some a
holder_of a none h = ground (arith, h)
holder_of a (some b) h = ap some (sym ((=ₛ_iff a b).0 h))

-- The owner of a live lease, as the slot shows it.
owner_at :
    (s : LeaseState) (q : Body) (now : ℕ)
    → IsOwner s q now
    → (a : String) × (s.holder ≡ some a)
      × ((b : Bool) → agent q.agent q.fencing b ≡ agent (some a) (some s.fencing) b)
      × (slot_at now s ≡ occupied a s.fencing s.referent)
owner_at s q now o =
    let (a, h, e) = shown s now o.0.0 in
    let who : is_holder (some a) q.agent ≡ true = ap (λ x. is_holder x q.agent) (sym h) ∙ o.1 in
    let f = holder_of a q.agent who in
    let g = token_of q.fencing s.fencing o.0.1 in (a, h, (λ b. cc), e)

settle-SlotStep :
    (st : Storage) (q : Body) (now : ℕ) (op : Op) (r : Result Fault Decision)
    → Outcome (or_empty_state st.state) q now op r
    → SlotStep
        (caller_of op q)
        (slot_at now (or_empty_state st.state))
        (slot_at now (or_empty_state (settle st q now r).0.state))
unfolding slot_at
settle-SlotStep st q now op _ faults = stay
settle-SlotStep st q now op _ keeps = stay
settle-SlotStep st q now _ _ (grants {a} {ms} e h p) =
    let s : LeaseState = or_empty_state st.state in
    let b = ttl_ms-lasts q.ttl_sec ms p in
    step_by (rw (h, b) refl) (hidden s now e) (given_slot a (s.fencing + 1) none now ms)
      (enters a s.fencing (ltb 0 ms))
settle-SlotStep st q now _ _ (extends {ms} o p) =
    let s : LeaseState = or_empty_state st.state in
    let (a, h, c, e) = owner_at s q now o in
    step_by (ap (agent q.agent q.fencing) (sym (ttl_ms-lasts q.ttl_sec ms p)) ∙ c (ltb 0 ms)) e
      (ap (λ x. slot_of x (some (now + ms)) s.fencing s.referent now) h
        ∙ given_slot a s.fencing s.referent now ms)
      (stays a s.fencing s.referent s.referent (ltb 0 ms))
settle-SlotStep st q now _ _ (pins {ms} {ref} o p) =
    let s : LeaseState = or_empty_state st.state in
    let (a, h, c, e) = owner_at s q now o in
    step_by (ap (agent q.agent q.fencing) (sym (ttl_ms-lasts q.ttl_sec ms p)) ∙ c (ltb 0 ms)) e
      (ap (λ x. slot_of x (some (now + ms)) s.fencing (some ref) now) h
        ∙ given_slot a s.fencing (some ref) now ms)
      (stays a s.fencing s.referent (some ref) (ltb 0 ms))
settle-SlotStep st q now _ _ (collects {ref} c f v) =
    let s : LeaseState = or_empty_state st.state in
    let (a, h, e) = shown s now c.0 in
    let g = token_of q.fencing s.fencing c.1 in
    step_by (λ i. collector (named (v i)) (g i)) (e ∙ ap (occupied a s.fencing) f) refl expel
settle-SlotStep st q now _ _ (frees o) =
    let s : LeaseState = or_empty_state st.state in
    let (a, h, c, e) = owner_at s q now o in step_by (c false) e refl leave

-- Each operation of the lease worker is a step of the slot, as the slot is when the request comes:
-- a vacant slot is entered by an agent that asks for it, with the next token, or only takes up that
-- token where the agent asks for less than a millisecond; only the occupant, with its own token,
-- stays longer, pins the slot to a referent or leaves, which it also does by asking for less than a
-- millisecond; and only with the occupant's token and its referent is it expelled. Whatever else is
-- asked changes nothing.
pub apply_transition-SlotStep :
    (op : Op) (st : Storage) (q : Body) (now : ℕ)
    → SlotStep
        (caller_of op q)
        (slot_at now (or_empty_state st.state))
        (slot_at now (or_empty_state (apply_transition op st q now).0.state))
unfolding apply_transition
apply_transition-SlotStep op st q now =
    settle-SlotStep st q now op _ (decide-Outcome (or_empty_state st.state) q now op)
