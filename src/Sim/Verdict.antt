-- ===== src/Sim/Verdict.antt =====
-- What `assertInvariants` (src/invariants.ts) says of a world that keeps the invariant.
use front_desk_scheduler.Base.{
  ℕ, ◌≡◌, ◌≢◌, refl, sym, subst, inl, inr, String, true, false, ◌&&◌, not, Option, none, some, List,
  [], ◌∷◌, filterb, arith, All, Bool-cases, Option-cases, =ₛ_refl, le→leb,
}
use front_desk_scheduler.Policy.{BeadEdge}
use front_desk_scheduler.World.{
  WorkItem, Agent, in_progress, item_of, agent_of, is_in_progress, is_done,
}
use front_desk_scheduler.World.Lookup.{All-agent_of}
use front_desk_scheduler.World.Unique.{Distinct, names, items_found, agents_known}
use front_desk_scheduler.Invariants.{
  holders_from, item_findings, s3_findings, stuck_items, l1_findings, safety_findings,
  assert_invariants,
}
use front_desk_scheduler.Invariants.Cycle.{in_blocks_cycle}
use front_desk_scheduler.Invariants.Owners.{
  claims, Exclusive, NoneHold, holders_from_nil, s1_findings-claims, holders_of-claims,
}
use front_desk_scheduler.Invariants.Acyclic.{Falls, IsAcyclic, in_blocks_cycle-IsAcyclic}
use front_desk_scheduler.Sim.{SimState}
use front_desk_scheduler.Sim.Safety.{Inv}

item_findings_busy :
    (i : WorkItem) (a : String)
    → i.phase ≡ in_progress
    → i.owner_id ≡ some a
    → item_findings i (a ∷ []) ≡ []
unfolding item_findings
item_findings_busy i a busy mine = ground (arith, =ₛ_refl a)

item_findings_free :
    (i : WorkItem) → is_in_progress i.phase ≡ false → i.owner_id ≡ none → item_findings i [] ≡ []
unfolding item_findings
item_findings_free i loose free = ground arith

is_in_progress-eq : (i : WorkItem) → is_in_progress i.phase ≡ true → i.phase ≡ in_progress
is_in_progress-eq i h = ground arith

module _ (deps : ℕ → List BeadEdge) (st : SimState) (v : Inv deps st) where
  abbrev Known : Agent → Type 0
  Known g = agent_of st.world.agents g.id ≡ some g

  -- Two agents with one item would both be its owner.
  none_hold :
      (g : Agent) (c : Option ℕ) (gs : List Agent)
      → Known g
      → g.current_item ≡ c
      → All Known gs
      → All (λ b. g.id ≢ b) (names gs)
      → NoneHold c gs
  none_hold g none gs known e k d = tt
  none_hold g (some n) [] known e k d = tt
  none_hold g (some n) (h ∷ gs) known e k d = (other, none_hold g (some n) gs known e k.1 d.1)
    where
      other : h.current_item ≢ some n
      other q =
          let (i, there, _, mine) = v.agree.held g.id g n known e in
          let (j, there', _, theirs) = v.agree.held h.id h n k.0 q in d.0 (ground arith)

  exclusive : (gs : List Agent) → All Known gs → Distinct (names gs) → Exclusive gs
  exclusive [] k d = tt
  exclusive (g ∷ gs) k d = (none_hold g g.current_item gs k.0 refl k.1 d.0, exclusive gs k.1 d.1)

  everyone-Known : All Known st.world.agents
  everyone-Known = agents_known st.world.agents v.distinct_agents

  owners : holders_from [] st.world.agents ≡ claims st.world.agents
  owners =
      holders_from_nil st.world.agents (exclusive st.world.agents everyone-Known v.distinct_agents)

  same_item :
      (n : ℕ) (i j : WorkItem)
      → item_of st.world.items n ≡ some i
      → item_of st.world.items n ≡ some j
      → j ≡ i
  same_item n i j p q = ground arith

  holder_fits :
      (i : WorkItem) (gs : List Agent)
      → item_of st.world.items i.number ≡ some i
      → All Known gs
      → All (λ g. g.current_item ≡ some i.number → item_findings i (g.id ∷ []) ≡ []) gs
  holder_fits i [] there k = tt
  holder_fits i (g ∷ gs) there k = (
    (λ e.
        let (j, q, busy, mine) = v.agree.held g.id g i.number k.0 e in
        subst (λ x. item_findings x (g.id ∷ []) ≡ []) (same_item i.number i j there q)
          (item_findings_busy j g.id busy mine)),
    holder_fits i gs there k.1,
  )

  nobody_fits :
      (i : WorkItem)
      → item_of st.world.items i.number ≡ some i
      → All (λ g. g.current_item ≢ some i.number) st.world.agents
      → item_findings i [] ≡ []
  nobody_fits i there none_holds = elim (Bool-cases (is_in_progress i.phase)) [
    | inl busy ↦
        let (a, g, mine, known, holds) =
          v.agree.owned i.number i there (is_in_progress-eq i busy) in
        absurd (
          All-agent_of (λ g. g.current_item ≢ some i.number) st.world.agents a g none_holds known
            holds)
    | inr loose ↦
        let p : i.phase ≢ in_progress = λ e. ground arith in
        item_findings_free i loose (v.agree.unowned i.number i there p)
  ]

  s3_findings-nil :
      (is : List WorkItem)
      → All (λ i. item_of st.world.items i.number ≡ some i) is
      → s3_findings (claims st.world.agents) is ≡ []
  unfolding s3_findings
  s3_findings-nil [] k = refl
  s3_findings-nil (i ∷ is) k =
      rw
        (holders_of-claims i.number (λ hs. item_findings i hs ≡ []) st.world.agents
          (nobody_fits i k.0) (holder_fits i st.world.agents k.0 everyone-Known))
        (s3_findings-nil is k.1)

  -- No finding of S1, S2 or S3.
  pub safety_findings-nil : safety_findings st.world ≡ []
  unfolding safety_findings
  safety_findings-nil = rw owners (
      rw (s1_findings-claims st.world.agents) (
        rw (le→leb _ _ v.within)
          (s3_findings-nil st.world.items (items_found st.world.items v.distinct_items))))

  IsAcyclic-still :
      (rank : ℕ → ℕ) → ((n : ℕ) → Falls rank n (deps n)) → IsAcyclic rank st.world.items
  IsAcyclic-still rank f n = elim (Option-cases (item_of st.world.items n)) [
    | inl e ↦ rw e tt
    | inr (i, e) ↦ rw e (subst (Falls rank n) (sym (v.agree.edged n i e)) (f n))
  ]

  -- Nor of L1, where the dependencies have no cycle.
  pub assert_invariants-nil :
      (rank : ℕ → ℕ) → ((n : ℕ) → Falls rank n (deps n)) → assert_invariants st.world ≡ []
  unfolding assert_invariants l1_findings stuck_items
  assert_invariants-nil rank f =
      rw safety_findings-nil (rw (none_stuck st.world.items) (ground arith))
    where
      none_stuck :
          (is : List WorkItem)
          → filterb (λ i. not (is_done i.phase) && in_blocks_cycle st.world i.number) is ≡ []
      none_stuck [] = refl
      none_stuck (i ∷ is) = ground (
        arith,
        in_blocks_cycle-IsAcyclic st.world rank i.number (IsAcyclic-still rank f),
        none_stuck is,
      )
