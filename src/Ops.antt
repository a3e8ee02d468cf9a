-- ===== src/Ops.antt =====
-- src/ops.ts: committing a claim, spending, completing; each in a racy and a safe variant.
-- An operation returns the changed world beside the source's result. A reason is a constructor
-- where the source renders a text from the same values.
pub mod Wake
pub mod Races
use front_desk_scheduler.Base.{
  ℕ, ◌+◌, String, Bool, true, false, ◌&&◌, not, Option, none, some, List, [], ◌∷◌, ◌++◌, leb,
  if◌then◌else◌,
}
use front_desk_scheduler.World.{
  World, WorkItem, Agent, ItemPhase, AgentPhase, item_by_id, agent_of, set_item, set_agent,
  claimable, edges_satisfied, is_blocked,
}

pub data OpMode : Type 0 where
  racy safe : OpMode

abbrev pub is_safe : OpMode → Bool
is_safe racy = false
is_safe safe = true

pub data ClaimReason : Type 0 where
  missing : ClaimReason
  lost_race : ℕ → Option String → ItemPhase → ClaimReason
  claimed claimed_over : ClaimReason

pub record ClaimResult : Type 0 where
  pub won : Bool
  pub reason : ClaimReason

abbrev pub take_item : WorkItem → String → WorkItem
take_item i a = record i { owner_id = some a; phase = ItemPhase.in_progress }

abbrev pub set_to_work : Agent → ℕ → Agent
set_to_work g n = record g { current_item = some n; phase = AgentPhase.working }

abbrev pub set_idle : Agent → Agent
set_idle g = record g { current_item = none; phase = AgentPhase.idle }

-- The claim, with the item and the agent that the two `find` calls returned.
unfoldable pub claim_found : World → String → ℕ → OpMode → WorkItem → Agent → World × ClaimResult
claim_found w agent_id item_id mode item agent =
    if is_safe mode && not (claimable w item)
    then (
      record w { agents = set_agent agent_id (set_idle agent) w.agents },
      record { won = false; reason = lost_race item_id item.owner_id item.phase },
    )
    else (
      record w {
        items = set_item item_id (take_item item agent_id) w.items;
        agents = set_agent agent_id (set_to_work agent item_id) w.agents;
      },
      record { won = true; reason = if claimable w item then claimed else claimed_over },
    )

unfoldable pub commit_claim : World → String → ℕ → OpMode → World × ClaimResult
commit_claim w agent_id item_id mode = elim (item_by_id w item_id) [
  | none ↦ (w, record { won = false; reason = missing })
  | some item ↦ elim (agent_of w.agents agent_id) [
    | none ↦ (w, record { won = false; reason = missing })
    | some agent ↦ claim_found w agent_id item_id mode item agent
  ]
]

pub data SpendReason : Type 0 where
  gate_denied spent_racy spent_safe would_exceed : SpendReason

pub record SpendResult : Type 0 where
  pub applied : Bool
  pub reason : SpendReason

abbrev pub add_consumed : World → ℕ → World
add_consumed w points = record w {
  budget = record (w.budget) { consumed = w.budget.consumed + points };
}

unfoldable pub apply_spend : World → ℕ → Bool → OpMode → World × SpendResult
apply_spend w points gate_allowed_stale racy =
    if gate_allowed_stale
    then (add_consumed w points, record { applied = true; reason = spent_racy })
    else (w, record { applied = false; reason = gate_denied })
apply_spend w points gate_allowed_stale safe =
    if leb (w.budget.consumed + points) w.budget.capacity_points
    then (add_consumed w points, record { applied = true; reason = spent_safe })
    else (w, record { applied = false; reason = would_exceed })

abbrev pub wakes : List WorkItem → WorkItem → Bool
wakes items c = is_blocked c.phase && edges_satisfied items c.edges

abbrev pub promote : List WorkItem → WorkItem → WorkItem
promote items c = if wakes items c then record c { phase = ItemPhase.ready } else c

-- The loop over `w.items`: `before` are the items that it has passed, changed already.
unfoldable pub wake_from : List WorkItem → List WorkItem → List WorkItem × List ℕ
wake_from before [] = (before, [])
wake_from before (c ∷ rest) =
    let items = before ++ (c ∷ rest) in
    let (after, woken) = wake_from (before ++ (promote items c ∷ [])) rest in
    (after, if wakes items c then c.number ∷ woken else woken)

abbrev pub finish_item : Option WorkItem → ℕ → List WorkItem → List WorkItem
finish_item none n items = items
finish_item (some i) n items =
    set_item n (record i { phase = ItemPhase.done; owner_id = none }) items

-- The world after the item is done and the agent free, before any item is woken.
unfoldable pub finish : World → String → Agent → ℕ → World
finish w agent_id agent n = record w {
  items = finish_item (item_by_id w n) n w.items;
  agents = set_agent agent_id (set_idle agent) w.agents;
}

unfoldable pub wake : World → OpMode → World × List ℕ
wake w racy = (w, [])
wake w safe = let (items, woken) = wake_from [] w.items in (record w { items = items }, woken)

unfoldable pub complete : World → String → OpMode → World × List ℕ
complete w agent_id mode = elim (agent_of w.agents agent_id) [
  | none ↦ (w, [])
  | some agent ↦ elim agent.current_item [
    | none ↦ (w, [])
    | some n ↦ wake (finish w agent_id agent n) mode
  ]
]
