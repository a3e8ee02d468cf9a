-- ===== src/Ops/Races.antt =====
-- The races of src/ops.ts: what the racy variants break, and the safe ones keep.
use front_desk_scheduler.Base.{
  ℕ, ◌+◌, ◌<◌, ◌≤◌, ◌≡◌, ◌≢◌, ◌↔◌, refl, subst, String, Bool, true, false, ◌&&◌, Option, none, some,
  List, map, arith, if◌then◌else◌, =ₛ_iff, =ₛ_refl, any,
}
use front_desk_scheduler.World.{
  World, WorkItem, Agent, ItemPhase, blocked, item_of, agent_of, set_item, set_agent, claimable,
  edges_satisfied, deps_satisfied, is_blocked,
}
use front_desk_scheduler.World.Lookup.{
  item_of-set_item, agent_of-set_agent, agent_of-id, item_of-number,
}
use front_desk_scheduler.Ops.{
  racy, safe, commit_claim, claim_found, take_item, set_to_work, finish_item, apply_spend, complete,
  finish, wake, promote,
}
use front_desk_scheduler.Ops.Wake.{
  edges_satisfied-SameDone, wake_from_all, item_of-promote, all-SameDone,
}
use front_desk_scheduler.Dispatch.{gate_for}
use front_desk_scheduler.Invariants.{safety_findings, should_be_ready}
use front_desk_scheduler.Invariants.Counting.{names_both, safety_findings-double}

-- A racy claim of an item that is there puts it in the agent's hand, whoever holds it.
racy_claims :
    (w : World) (a : String) (n : ℕ) (i : WorkItem) (g : Agent)
    → item_of w.items n ≡ some i
    → agent_of w.agents a ≡ some g
    → (commit_claim w a n racy).0 ≡ record w {
      items = set_item n (take_item i a) w.items;
      agents = set_agent a (set_to_work g n) w.agents;
    }
unfolding commit_claim claim_found
racy_claims w a n i g e f = rw (e, commit_claim) (rw (f, commit_claim))

-- The agent is there, and the item is its current one.
abbrev pub Holds : World → String → ℕ → Type 0
Holds w a n = (g : Agent) × (agent_of w.agents a ≡ some g) × (g.current_item ≡ some n)

-- In racy mode, after two agents commit a claim of one item, one after the other, both have it as
-- their current item, and the invariants report a double claim of this item that names them both; the
-- item and both agents have to be there.
pub commit_claim_racy-double :
    (w : World) (a b : String) (n : ℕ) (i : WorkItem) (g h : Agent)
    → a ≢ b
    → item_of w.items n ≡ some i
    → agent_of w.agents a ≡ some g
    → agent_of w.agents b ≡ some h
    → let after = (commit_claim (commit_claim w a n racy).0 b n racy).0 in
      Holds after a n × Holds after b n × (any (names_both n a b) (safety_findings after) ≡ true)
commit_claim_racy-double w a b n i g h ne e f k = rw (racy_claims w a n i g e f) (
    rw (racy_claims w' b n (take_item i a) h there other) (
      (g', kept, refl),
      (h', mine, refl),
      safety_findings-double _ n a b g' h' ne kept mine refl refl,
    ))
  where
    g' : Agent
    g' = set_to_work g n

    w' : World
    w' = record w { items = set_item n (take_item i a) w.items; agents = set_agent a g' w.agents }

    there : item_of w'.items n ≡ some (take_item i a)
    there =
        ground
          (arith, item_of-set_item w.items n n (take_item i a) i (item_of-number w.items n i e) e)

    other : agent_of w'.agents b ≡ some h
    other =
        ground
          (arith, =ₛ_iff a b, agent_of-set_agent w.agents a b g' g (agent_of-id w.agents a g f) f)

    h' : Agent
    h' = set_to_work h n

    kept : agent_of (set_agent b h' w'.agents) a ≡ some g'
    kept = ground (
      arith,
      =ₛ_iff b a,
      =ₛ_refl a,
      agent_of-set_agent w'.agents b a h' h (agent_of-id w.agents b h k) other,
      agent_of-set_agent w.agents a a g' g (agent_of-id w.agents a g f) f,
    )

    mine : agent_of (set_agent b h' w'.agents) b ≡ some h'
    mine =
        ground (
          arith,
          =ₛ_refl b,
          agent_of-set_agent w'.agents b b h' h (agent_of-id w.agents b h k) other,
        )

-- In safe mode the claim is won exactly when the item and the agent exist and the item is
-- claimable at that moment.
pub commit_claim_safe_iff :
    (w : World) (a : String) (n : ℕ)
    → ((commit_claim w a n safe).1.won ≡ true) ↔ (
        (i : WorkItem) × (g : Agent) × (item_of w.items n ≡ some i)
        × (agent_of w.agents a ≡ some g)
        × (claimable w i ≡ true))
unfolding commit_claim claim_found
commit_claim_safe_iff w a n = (
  (λ e. won (item_of w.items n) refl (agent_of w.agents a) refl e),
  (λ x. wins x.0 x.1 x.2 x.3 x.4),
)
  where
    won :
        (o : Option WorkItem)
        → item_of w.items n ≡ o
        → (p : Option Agent) → agent_of w.agents a ≡ p
        → (commit_claim w a n safe).1.won ≡ true
        → (i : WorkItem) × (g : Agent) × (item_of w.items n ≡ some i)
          × (agent_of w.agents a ≡ some g)
          × (claimable w i ≡ true)
    won none e p f t = ground arith
    won (some i) e none f t = ground arith
    won (some i) e (some g) f t = (i, g, e, f, ground arith)

    wins :
        (i : WorkItem) (g : Agent)
        → item_of w.items n ≡ some i
        → agent_of w.agents a ≡ some g
        → claimable w i ≡ true
        → (commit_claim w a n safe).1.won ≡ true
    wins i g e f t = rw (e, commit_claim) (rw (f, commit_claim) (rw (t, claim_found)))

-- In racy mode two spends that the gate each allowed against one reading of the budget are both
-- applied: when together they exceed the capacity, the budget is overspent.
pub apply_spend_race :
    (w : World) (p q : ℕ)
    → (gate_for w p).allow ≡ true
    → (gate_for w q).allow ≡ true
    → w.budget.capacity_points < w.budget.consumed + p + q
    → let w' = (apply_spend w p (gate_for w p).allow racy).0 in
      let w'' = (apply_spend w' q (gate_for w q).allow racy).0 in
      w''.budget.capacity_points < w''.budget.consumed
unfolding apply_spend
apply_spend_race w p q a b h = ground arith

-- In safe mode a spend on a budget within its capacity keeps it there, whatever the gate said: the
-- spend is applied exactly when it fits, and consumes its points exactly when it is applied.
pub apply_spend_safe :
    (w : World) (p : ℕ) (gate : Bool)
    → w.budget.consumed ≤ w.budget.capacity_points
    → let (w', r) = apply_spend w p gate safe in
      (w'.budget.consumed ≤ w'.budget.capacity_points)
      × ((r.applied ≡ true) ↔ (w.budget.consumed + p ≤ w.budget.capacity_points))
      × (w'.budget.consumed ≡ w.budget.consumed + (if r.applied then p else 0))
unfolding apply_spend
apply_spend_safe w p gate h =
    (ground arith, ((λ e. ground arith), (λ e. ground arith)), ground arith)

woken_settled :
    (items : List WorkItem) (m : ℕ) (o : Option WorkItem)
    → item_of (map (promote items) items) m
      ≡ elim o [ none ↦ none | some i ↦ some (promote items i) ]
    → (elim (item_of (map (promote items) items) m) [
      | none ↦ false
      | some i ↦ is_blocked i.phase && edges_satisfied (map (promote items) items) i.edges
    ])
      ≡ false
woken_settled items m none e = rw e
woken_settled items m (some i) e = rw e (
    ground (
      arith,
      edges_satisfied-SameDone (map (promote items) items) items (all-SameDone items) i.edges,
    ))

-- No wake-up is lost in safe mode: after an agent completes the item it held, no item is left
-- blocked whose dependencies are all done.
pub complete_safe_wakes :
    (w : World) (a : String) (g : Agent) (n m : ℕ)
    → agent_of w.agents a ≡ some g
    → g.current_item ≡ some n
    → should_be_ready (complete w a safe).0 m ≡ false
unfolding complete wake should_be_ready deps_satisfied
complete_safe_wakes w a g n m e c =
    rw (e, complete)
      (rw (c, complete)
        (rw (wake_from_all, wake)
          (woken_settled (finish w a g n).items m (item_of (finish w a g n).items m)
            (item_of-promote (finish w a g n).items (finish w a g n).items m))))

-- In racy mode a wake-up is lost: an item that is blocked, and whose dependencies are all done once
-- the agent's item is, is left blocked after the agent completes its item.
pub complete_racy_sleeps :
    (w : World) (a : String) (g : Agent) (i c : WorkItem) (n m : ℕ)
    → agent_of w.agents a ≡ some g
    → g.current_item ≡ some n
    → item_of w.items n ≡ some i
    → item_of w.items m ≡ some c
    → m ≢ n
    → c.phase ≡ blocked
    → edges_satisfied (finish w a g n).items c.edges ≡ true
    → should_be_ready (complete w a racy).0 m ≡ true
unfolding complete wake should_be_ready deps_satisfied finish
complete_racy_sleeps w a g i c n m e k there here ne asleep met =
    rw (e, complete)
      (rw (k, complete) (rw (there, finish) (rw (still, should_be_ready) (rw asleep now))))
  where
    done : WorkItem
    done = record i { phase = ItemPhase.done; owner_id = none }

    still : item_of (set_item n done w.items) m ≡ some c
    still =
        ground (arith, item_of-set_item w.items n m done i (item_of-number w.items n i there) there)

    now : edges_satisfied (set_item n done w.items) c.edges ≡ true
    now = subst (λ o. edges_satisfied (finish_item o n w.items) c.edges ≡ true) there met
