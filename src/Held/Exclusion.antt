-- ===== src/Held/Exclusion.antt =====
-- What `verifyHeld` (src/held.ts) excludes.
use front_desk_scheduler.Base.{
  ◌+◌, ◌≡◌, refl, ◌∙◌, String, Bool, true, false, ◌&&◌, ◌||◌, Option, none, some, List, [], ◌∷◌,
  length, any, filterb, ◌==◌, ◌=ₛ◌, =ₛ_iff, if◌then◌else◌, arith, Bool-cases, inl, inr,
}
use front_desk_scheduler.Held.{
  HeldCheck, LiveExclusion, ProbeAnswer, StatusProbe, set_held, note_answer, note_answers, probed,
  verify_held,
}

abbrev pub is_held : String → List HeldCheck → Bool
is_held k hs = any (λ h. h.item_id =ₛ k) hs

-- The plane answered, and the lease is live.
abbrev pub says_live : Option ProbeAnswer → Bool
says_live none = false
says_live (some a) = a.live

abbrev pub says_nothing : Option ProbeAnswer → Bool
says_nothing none = true
says_nothing (some a) = false

abbrev pub is_live_among : StatusProbe → String → List String → Bool
is_live_among ask k ids = any (λ id. (id =ₛ k) && says_live (ask id)) ids

is_held-set_held :
    (k : String) (c : HeldCheck) (hs : List HeldCheck)
    → is_held k (set_held c hs) ≡ ((c.item_id =ₛ k) || is_held k hs)
unfolding set_held
is_held-set_held k c [] = refl
is_held-set_held k c (h ∷ hs) = ground (
  arith,
  is_held-set_held k c hs,
  =ₛ_iff h.item_id c.item_id,
  =ₛ_iff h.item_id k,
  =ₛ_iff c.item_id k,
)

note_answer_lem :
    (k id : String) (o : Option ProbeAnswer) (x : LiveExclusion)
    → (is_held k (note_answer id o x).held ≡ (((id =ₛ k) && says_live o) || is_held k x.held))
      × ((note_answer id o x).unobserved ≡ (if says_nothing o then 1 else 0) + x.unobserved)
      × ((note_answer id o x).checked ≡ x.checked)
note_answer_lem k id none x = (ground arith, omega arith, refl)
note_answer_lem k id (some a) x = elim (Bool-cases a.live) [
  | inl e ↦ rw e (
    is_held-set_held k (record { item_id = id; holder = a.holder; referent = a.referent }) x.held
        ∙ ground arith,
    omega arith,
    refl,
  )
  | inr e ↦ rw e (ground arith, omega arith, refl)
]

note_answers-lem :
    (ask : StatusProbe) (k : String) (ids : List String) (x : LiveExclusion)
    → (is_held k (note_answers ask ids x).held ≡ (is_live_among ask k ids || is_held k x.held))
      × ((note_answers ask ids x).unobserved
          ≡ length (filterb (λ id. says_nothing (ask id)) ids) + x.unobserved)
      × ((note_answers ask ids x).checked ≡ x.checked)
unfolding note_answers
note_answers-lem ask k [] x = (refl, omega arith, refl)
note_answers-lem ask k (id ∷ ids) x =
    let (h, u, c) = note_answers-lem ask k ids (note_answer id (ask id) x) in
    let (h1, u1, c1) = note_answer_lem k id (ask id) x in
    (ground (arith, h, h1), ground (arith, u, u1), c ∙ c1)

some_asked : (id : String) (ids : List String) → (length (id ∷ ids) == 0) ≡ false
some_asked id ids = ground arith

-- With a probe, an item is excluded exactly when it is asked about and its answer says that it is
-- live: one whose probe fails stays in the queue, and is counted as unobserved.
pub verify_held_lem :
    (ask : StatusProbe) (endpoint : Option StatusProbe) (ids : List String) (k : String)
    → (is_held k (verify_held ids (some ask) endpoint).held ≡ is_live_among ask k ids)
      × ((verify_held ids (some ask) endpoint).unobserved
          ≡ length (filterb (λ id. says_nothing (ask id)) ids))
      × ((verify_held ids (some ask) endpoint).checked ≡ length ids)
unfolding verify_held
verify_held_lem ask endpoint [] k = (refl, refl, refl)
verify_held_lem ask endpoint (id ∷ ids) k =
    let (h, u, c) = note_answers-lem ask k (id ∷ ids) (probed (length (id ∷ ids))) in
    rw (some_asked id ids) (ground (arith, h), omega (arith, u), c)
