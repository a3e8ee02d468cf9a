-- ===== src/Sim/Safety.antt =====
-- Every micro-step of src/sim.ts keeps the invariant in safe mode, whichever agent takes it.
use mathlib.Core.Path.{fun_ext, subst₂}
use front_desk_scheduler.Base.{
  ℕ, ◌+◌, ◌≤◌, ◌≡◌, ◌≢◌, refl, sym, ◌∙◌, subst, inl, inr, String, Option, none, some, List, map,
  arith, Bool-cases, Option-cases, =ₛ_iff, leb, leb→le,
}
use front_desk_scheduler.Number.{Double}
use front_desk_scheduler.Policy.{BeadEdge}
use front_desk_scheduler.World.{
  WorkItem, Agent, in_progress, item_of, agent_of, set_item, set_agent, claimable,
}
use front_desk_scheduler.World.Lookup.{
  item_of-number, agent_of-id, item_of-set_item, agent_of-set_agent,
}
use front_desk_scheduler.World.Unique.{Distinct, numbers, names, numbers-set_item, names-set_agent}
use front_desk_scheduler.Ops.{
  safe, commit_claim, claim_found, apply_spend, complete, finish, wake, promote,
}
use front_desk_scheduler.Ops.Wake.{wake_from_all, item_of-promote, numbers-promote}
use front_desk_scheduler.Dispatch.{next_pick}
use front_desk_scheduler.Sim.{
  SimState, Moved, decide, commit, gate, after_spend, spend, give_back, finish_step, take_step,
  micro_step,
}
use front_desk_scheduler.Sim.Steps.{
  StepMap, StepPhase, AgentStep, idle, claiming, gating, spending, completing, step_of, set_step,
  step_of-set_step,
}
use front_desk_scheduler.Sim.Consistent.{
  Consistent, Items, Agents, StepsOf, Fits, put, put_item, agent_moves, agent_takes, agent_drops,
  items_change, SameHands,
}

pub record Inv (deps : ℕ → List BeadEdge) (st : SimState) : Type 0 where
  pub distinct_items : Distinct (numbers st.world.items)
  pub distinct_agents : Distinct (names st.world.agents)
  pub within : st.world.budget.consumed ≤ st.world.budget.capacity_points
  pub agree : Consistent deps (item_of st.world.items) (agent_of st.world.agents) (step_of st.steps)

module _ (gs : List Agent) (m : StepMap) (a : String) (g g' : Agent) (s : AgentStep)
    (here : agent_of gs a ≡ some g) (same : g'.id ≡ g.id) where
  named : g'.id ≡ a
  named = same ∙ agent_of-id gs a g here

  names_kept : Distinct (names gs) → Distinct (names (set_agent a g' gs))
  names_kept = subst Distinct (sym (names-set_agent gs a g' named))

  -- What the lookups of the changed lists agree on.
  settle :
      (deps : ℕ → List BeadEdge) (f : Items)
      → Consistent deps f (put (agent_of gs) a g') (put (step_of m) a s)
      → Consistent deps f (agent_of (set_agent a g' gs)) (step_of (set_step a s m))
  settle deps f =
      subst₂ (Consistent deps f) (fun_ext (λ b. sym (agent_of-set_agent gs a b g' g named here)))
        (fun_ext (λ b. sym (step_of-set_step m a b s)))

module _ (is : List WorkItem) (n : ℕ) (i i' : WorkItem) (there : item_of is n ≡ some i)
    (same : i'.number ≡ i.number) where
  numbered : i'.number ≡ n
  numbered = same ∙ item_of-number is n i there

  numbers_kept : Distinct (numbers is) → Distinct (numbers (set_item n i' is))
  numbers_kept = subst Distinct (sym (numbers-set_item is n i' numbered))

  settle_items :
      (deps : ℕ → List BeadEdge) (f : Agents) (k : StepsOf)
      → Consistent deps (put_item (item_of is) n i') f k
      → Consistent deps (item_of (set_item n i' is)) f k
  settle_items deps f k =
      subst (λ x. Consistent deps x f k)
        (fun_ext (λ m. sym (item_of-set_item is n m i' i numbered there)))

-- What a step comes to: it is made, and keeps the invariant.
abbrev pub MovesTo : (ℕ → List BeadEdge) → Option Moved → Type 0
MovesTo deps none = ⊥
MovesTo deps (some t) = Inv deps t.0

made :
    (deps : ℕ → List BeadEdge) (r : Option Moved)
    → MovesTo deps r
    → (t : Moved) × (r ≡ some t) × Inv deps t.0
made deps none h = absurd h
made deps (some t) h = (t, refl, h)

module _ (is : List WorkItem) where
  promote-SameHands : (i : WorkItem) → SameHands i (promote is i)
  promote-SameHands i = (ground arith, (λ h. ground arith), (λ h. ground arith), ground arith)

  same_promoted :
      (n : ℕ) (i j : WorkItem)
      → item_of is n ≡ some i
      → item_of (map (promote is) is) n ≡ some j
      → promote is i ≡ j
  same_promoted n i j q e = ground (arith, item_of-promote is is n)

  promoted_forth :
      (n : ℕ) (i : WorkItem)
      → item_of is n ≡ some i
      → (j : WorkItem) × (item_of (map (promote is) is) n ≡ some j) × SameHands i j
  promoted_forth n i e = (promote is i, item_of-promote is is n ∙ rw e, promote-SameHands i)

  promoted_back :
      (n : ℕ) (j : WorkItem)
      → item_of (map (promote is) is) n ≡ some j
      → (i : WorkItem) × (item_of is n ≡ some i) × SameHands i j
  promoted_back n j e = elim (Option-cases (item_of is n)) [
    | inl q ↦ ground (arith, item_of-promote is is n)
    | inr (i, q) ↦ (i, q, subst (SameHands i) (same_promoted n i j q e) (promote-SameHands i))
  ]

promote-Inv :
    {deps : ℕ → List BeadEdge} {st : SimState}
    → Inv deps st
    → Inv deps (record st {
      world = record (st.world) { items = map (promote st.world.items) st.world.items };
    })
promote-Inv {st} v = record {
  distinct_items =
      subst Distinct (sym (numbers-promote st.world.items st.world.items)) v.distinct_items;
  distinct_agents = v.distinct_agents;
  within = v.within;
  agree = items_change v.agree _ (promoted_forth st.world.items) (promoted_back st.world.items);
}

module _ (deps : ℕ → List BeadEdge) (st : SimState) (v : Inv deps st) (a : String) (g : Agent)
    (s : AgentStep) (here : agent_of st.world.agents a ≡ some g) where
  -- The step changes alone.
  step_only :
      (s' : AgentStep)
      → Fits s'.phase s'.target g.current_item
      → Inv deps (record st { steps = set_step a s' st.steps })
  step_only s' fits = record {
    distinct_items = v.distinct_items;
    distinct_agents = v.distinct_agents;
    within = v.within;
    agree =
        subst (λ k. Consistent deps (item_of st.world.items) k (step_of (set_step a s' st.steps)))
          (fun_ext same_agent)
          (subst (Consistent deps (item_of st.world.items) (put (agent_of st.world.agents) a g))
            (fun_ext (λ b. sym (step_of-set_step st.steps a b s')))
            (agent_moves v.agree a g g s' here refl fits));
  }
    where
      same_agent : (b : String) → put (agent_of st.world.agents) a g b ≡ agent_of st.world.agents b
      same_agent b = ground (arith, =ₛ_iff a b)

  -- The agent's record changes, and what it holds does not.
  agent_only :
      (g' : Agent) (s' : AgentStep)
      → g'.id ≡ g.id
      → g'.current_item ≡ g.current_item
      → Fits s'.phase s'.target g'.current_item
      → Inv deps (record {
        world = record (st.world) { agents = set_agent a g' st.world.agents };
        steps = set_step a s' st.steps;
      })
  agent_only g' s' named same fits = record {
    distinct_items = v.distinct_items;
    distinct_agents = names_kept st.world.agents st.steps a g g' s' here named v.distinct_agents;
    within = v.within;
    agree =
        settle st.world.agents st.steps a g g' s' here named deps (item_of st.world.items)
          (agent_moves v.agree a g g' s' here same fits);
  }

  decide-Inv : (d : Double) → g.current_item ≡ none → MovesTo deps (decide d st a s g)
  unfolding decide
  decide-Inv d free = elim (Option-cases (next_pick d st.world)) [
    | inl e ↦ rw (e, decide) v
    | inr (n, e) ↦ rw (e, decide) (agent_only _ _ refl refl (free, (n, refl)))
  ]

  gate-Inv : (n : ℕ) → s.target ≡ some n → g.current_item ≡ some n → MovesTo deps (gate st a s)
  unfolding gate
  gate-Inv n aim holds =
      let (i, there, _, _) = v.agree.held a g n here holds in
      rw (aim, gate) (rw (there, gate) (step_only _ (n, refl, holds)))

  -- The claim is committed to a free item.
  takes :
      (n : ℕ) (i i' : WorkItem) (g' : Agent) (s' : AgentStep)
      → item_of st.world.items n ≡ some i
      → g.current_item ≡ none
      → i.phase ≢ in_progress
      → i'.number ≡ i.number
      → i'.edges ≡ i.edges
      → i'.phase ≡ in_progress
      → i'.owner_id ≡ some a
      → g'.id ≡ g.id
      → g'.current_item ≡ some n
      → Fits s'.phase s'.target g'.current_item
      → Inv deps (record {
        world = record (st.world) {
          items = set_item n i' st.world.items;
          agents = set_agent a g' st.world.agents;
        };
        steps = set_step a s' st.steps;
      })
  takes n i i' g' s' there free loose numbered wired busy mine named holds fits = record {
    distinct_items = numbers_kept st.world.items n i i' there numbered v.distinct_items;
    distinct_agents = names_kept st.world.agents st.steps a g g' s' here named v.distinct_agents;
    within = v.within;
    agree = settle_items st.world.items n i i' there numbered deps _ _ (
        settle st.world.agents st.steps a g g' s' here named deps _
          (agent_takes v.agree a g g' n i i' s' here free there loose wired busy mine holds fits));
  }

  -- The item in hand is let go, done or not.
  drops :
      (n : ℕ) (i i' : WorkItem) (g' : Agent) (s' : AgentStep)
      → item_of st.world.items n ≡ some i
      → g.current_item ≡ some n
      → i'.number ≡ i.number
      → i'.edges ≡ i.edges
      → i'.phase ≢ in_progress
      → i'.owner_id ≡ none
      → g'.id ≡ g.id
      → g'.current_item ≡ none
      → Fits s'.phase s'.target g'.current_item
      → Inv deps (record {
        world = record (st.world) {
          items = set_item n i' st.world.items;
          agents = set_agent a g' st.world.agents;
        };
        steps = set_step a s' st.steps;
      })
  drops n i i' g' s' there holds numbered wired loose unowned named free fits = record {
    distinct_items = numbers_kept st.world.items n i i' there numbered v.distinct_items;
    distinct_agents = names_kept st.world.agents st.steps a g g' s' here named v.distinct_agents;
    within = v.within;
    agree = settle_items st.world.items n i i' there numbered deps _ _ (
        settle st.world.agents st.steps a g g' s' here named deps _
          (agent_drops v.agree a g g' n i i' s' here holds there wired loose unowned free fits));
  }

  commit-Inv :
      (n : ℕ) → s.target ≡ some n → g.current_item ≡ none → MovesTo deps (commit safe st a s)
  unfolding commit commit_claim claim_found
  commit-Inv n aim free = elim (Option-cases (item_of st.world.items n)) [
    | inl e ↦ rw (aim, commit) (rw (e, commit_claim) (step_only _ free))
    | inr (i, e) ↦ elim (Bool-cases (claimable st.world i)) [
      | inl t ↦
          rw (aim, commit)
            (rw (e, commit_claim)
              (rw (here, commit_claim)
                (rw (t, claim_found)
                  (takes n i _ _ _ e free (λ p. ground arith) refl refl refl refl refl refl
                    (n, refl, refl)))))
      | inr f ↦
          rw (aim, commit)
            (rw (e, commit_claim)
              (rw (here, commit_claim) (rw (f, claim_found) (agent_only _ _ refl (sym free) refl))))
    ]
  ]

  spend-Inv :
      (n : ℕ) → s.target ≡ some n → g.current_item ≡ some n → MovesTo deps (spend safe st a s g)
  unfolding spend apply_spend after_spend give_back
  spend-Inv n aim holds =
      elim (Bool-cases
        (leb (st.world.budget.consumed + s.points) st.world.budget.capacity_points)) [
          | inl t ↦
              rw (t, spend)
                (record {
                  distinct_items = v.distinct_items;
                  distinct_agents = v.distinct_agents;
                  within = leb→le _ _ t;
                  agree = (step_only _ (n, aim, holds)).agree;
                })
          | inr f ↦
              let (i, there, _, _) = v.agree.held a g n here holds in
              rw (f, spend)
                (rw (aim, after_spend)
                  (rw (there, after_spend)
                    (drops n i _ _ _ there holds refl refl (λ e. ground arith) refl refl refl
                      refl)))
        ]

  finish-Inv :
      (n : ℕ) → s.target ≡ some n → g.current_item ≡ some n → MovesTo deps (finish_step safe st a s)
  unfolding finish_step complete finish wake
  finish-Inv n aim holds =
      let (i, there, _, _) = v.agree.held a g n here holds in
      rw (here, complete)
        (rw (holds, complete)
          (rw (there, finish)
            (rw (wake_from_all, wake)
              (promote-Inv
                (drops n i _ _ _ there holds refl refl (λ e. ground arith) refl refl refl refl)))))

  step-Inv :
      (d : Double) (p : StepPhase)
      → s.phase ≡ p
      → Fits p s.target g.current_item
      → MovesTo deps (take_step d safe st a s g p)
  unfolding take_step
  step-Inv d idle e free = decide-Inv d free
  step-Inv d claiming e (free, (n, aim)) = commit-Inv n aim free
  step-Inv d gating e (n, aim, holds) = gate-Inv n aim holds
  step-Inv d spending e (n, aim, holds) = spend-Inv n aim holds
  step-Inv d completing e (n, aim, holds) = finish-Inv n aim holds

-- In safe mode a micro-step of any agent of the world is made, without a fault, and keeps the
-- invariant.
pub micro_step-Inv :
    (d : Double) (deps : ℕ → List BeadEdge) (st : SimState) (a : String) (g : Agent)
    → Inv deps st
    → agent_of st.world.agents a ≡ some g
    → (t : Moved) × (micro_step d safe st a ≡ some t) × Inv deps t.0
unfolding micro_step
micro_step-Inv d deps st a g v here =
    let (s, at, fits) = v.agree.stepped a g here in
    made deps (micro_step d safe st a) (
      rw (at, micro_step)
        (rw (here, micro_step) (step-Inv deps st v a g s here d s.phase refl fits)))
