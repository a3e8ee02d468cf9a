-- ===== src/Sim.antt =====
-- src/sim.ts: agents that decide and commit in separate micro-steps, interleaved by a seed. A value
-- that the source reads through `!` is demanded: the model answers `none` where it is missing.
pub mod Prng
pub mod Steps
pub mod Consistent
pub mod Safety
pub mod Verdict
pub mod Runs
pub mod Trace
use front_desk_scheduler.Base.{
  ℕ, zero, suc, String, Bool, true, false, ◌&&◌, ◌||◌, not, Option, none, some, List, [], ◌∷◌, ◌++◌,
  map, max, if◌then◌else◌, filterb, length, get_elem?, any, ◌==◌,
}
use front_desk_scheduler.Number.{Double}
use front_desk_scheduler.Policy.Capacity.{GateDecision}
use front_desk_scheduler.World.{
  World, WorkItem, Agent, ItemPhase, AgentPhase, item_by_id, agent_of, set_item, set_agent, is_none,
}
use front_desk_scheduler.Ops.{
  OpMode, is_safe, ClaimResult, SpendResult, commit_claim, apply_spend, complete, set_idle,
}
use front_desk_scheduler.Dispatch.{next_pick, gate_for}
use front_desk_scheduler.Invariants.{
  Finding, FindingId, finding_id, s1, s2, s3, l1, assert_invariants, is_valid, all_done,
}
use Prng.{draw, pick_index, seed_state}
use Steps.{
  StepPhase, idle, claiming, gating, spending, completing, AgentStep, StepMap, step_of, set_step,
  fresh_step, fresh_steps,
}
use Trace.{TraceLine, decided, commit_claimed, gated, spent, completed, violated}

pub record SimState : Type 0 where
  pub world : World
  pub steps : StepMap

infixl 5 ◌>>=◌
abbrev ◌>>=◌ : {A B : Type 0} → Option A → (A → Option B) → Option B
none >>= f = none
some a >>= f = f a

abbrev pub Moved : Type 0
Moved = SimState × List TraceLine

abbrev pub is_idle_step : StepPhase → Bool
is_idle_step idle = true
is_idle_step _ = false

-- An idle agent can act only if there is an item to pick.
unfoldable pub can_act : Double → SimState → Agent → Bool
can_act d st g = elim (step_of st.steps g.id) [
  | none ↦ false
  | some s ↦ not (is_idle_step s.phase) || not (is_none (next_pick d st.world))
]

unfoldable pub actionable : Double → SimState → List String
actionable d st = map (λ g. g.id) (filterb (can_act d st) st.world.agents)

abbrev put : SimState → String → World → AgentStep → SimState
put st a w s = record { world = w; steps = set_step a s st.steps }

-- "idle": decide only, and leave the item alone.
unfoldable pub decide : Double → SimState → String → AgentStep → Agent → Option Moved
decide d st a s g = elim (next_pick d st.world) [
  | none ↦ some (st, [])
  | some pick ↦ some (
    put st a
        (record (st.world) {
          agents = set_agent a (record g { phase = AgentPhase.claiming }) st.world.agents;
        })
        (record s { target = some pick; phase = claiming }),
    decided a pick ∷ [],
  )
]

unfoldable pub commit : OpMode → SimState → String → AgentStep → Option Moved
commit mode st a s = do
  n ← s.target
  let wr = commit_claim st.world a n mode
  some (
    put st a wr.0 (
        if wr.1.won then record s { phase = gating } else record s { phase = idle; target = none }),
    commit_claimed a n wr.1 ∷ [],
  )

unfoldable pub gate : SimState → String → AgentStep → Option Moved
gate st a s = do
  n ← s.target
  item ← item_by_id st.world n
  let points = max item.effort 1
  let allowed = (gate_for st.world points).allow
  some (
    put st a st.world (record s { points = points; gate_allowed = allowed; phase = spending }),
    gated a points st.world.budget.consumed allowed ∷ [],
  )

-- The claim is given back: the item is ready again and the agent idle.
unfoldable pub give_back : World → String → ℕ → WorkItem → Agent → World
give_back w a n item g = record w {
  items = set_item n (record item { phase = ItemPhase.ready; owner_id = none }) w.items;
  agents = set_agent a (set_idle g) w.agents;
}

-- What follows a spend that was applied, or was refused.
unfoldable pub after_spend :
    OpMode → SimState → String → AgentStep → Agent → World × SpendResult → Option SimState
after_spend mode st a s g wr =
    if wr.1.applied
    then some (put st a wr.0 (record s { phase = completing }))
    else if is_safe mode
    then (do
      n ← s.target
      item ← item_by_id wr.0 n
      some (put st a (give_back wr.0 a n item g) (record s { phase = idle; target = none })))
    else some (put st a wr.0 (record s { phase = completing }))

unfoldable pub spend : OpMode → SimState → String → AgentStep → Agent → Option Moved
spend mode st a s g = do
  let wr = apply_spend st.world s.points s.gate_allowed mode
  st' ← after_spend mode st a s g wr
  some (st', spent a s.points wr.1 wr.0.budget.consumed ∷ [])

unfoldable pub finish_step : OpMode → SimState → String → AgentStep → Option Moved
finish_step mode st a s =
    let (w, woken) = complete st.world a mode in
    some (put st a w (record s { phase = idle; target = none }), completed a s.target woken ∷ [])

unfoldable pub take_step :
    Double → OpMode → SimState → String → AgentStep → Agent → StepPhase → Option Moved
take_step d mode st a s g idle = decide d st a s g
take_step d mode st a s g claiming = commit mode st a s
take_step d mode st a s g gating = gate st a s
take_step d mode st a s g spending = spend mode st a s g
take_step d mode st a s g completing = finish_step mode st a s

-- One micro-step of the agent named `a`.
unfoldable pub micro_step : Double → OpMode → SimState → String → Option Moved
micro_step d mode st a = do
  s ← step_of st.steps a
  g ← agent_of st.world.agents a
  take_step d mode st a s g s.phase

pub record SimViolation : Type 0 where
  pub step : ℕ
  pub report : List Finding

pub record SimOptions : Type 0 where
  pub seed : ℕ
  pub mode : OpMode
  pub max_steps : ℕ
  pub stop_on_violation : Bool

-- The variables of the loop of `runSim`.
pub record Run : Type 0 where
  pub n : ℕ
  pub rng : ℕ
  pub state : SimState
  pub first_violation : Option SimViolation
  pub trace : List TraceLine

-- The check after a micro-step: the loop's variables, and whether the loop stops here.
unfoldable pub check_step : SimOptions → Run → List Finding → Run × Bool
check_step opts r report =
    if not (is_valid report) && is_none r.first_violation
    then (
      record r {
        n = suc r.n;
        first_violation = some (record { step = r.n; report = report });
        trace = r.trace ++ (violated r.n (map finding_id report) ∷ []);
      },
      opts.stop_on_violation,
    )
    else (record r { n = suc r.n }, false)

-- The agent that the generator picks among those that can act.
abbrev pub chosen : List String → ℕ → Option String
chosen ready value = get_elem? ready (pick_index value (length ready))

-- One round for the agent `a`.
unfoldable pub round : Double → SimOptions → Run → ℕ → String → Option (Run × Bool)
round d opts r rng a = do
  moved ← micro_step d opts.mode r.state a
  some (
      check_step opts (record r { rng = rng; state = moved.0; trace = r.trace ++ moved.1 })
        (assert_invariants moved.0.world))

unfoldable pub loop : Double → SimOptions → ℕ → Run → Option Run
loop d opts zero r = some r
loop d opts (suc fuel) r = elim (actionable d r.state) [
  | [] ↦ some r
  | a ∷ rest ↦ elim (chosen (a ∷ rest) (draw r.rng).0) [
    | none ↦ none
    | some b ↦ elim (round d opts r (draw r.rng).1 b) [
      | none ↦ none
      | some (q, true) ↦ some q
      | some (q, false) ↦ loop d opts fuel q
    ]
  ]
]

pub record SimResult : Type 0 where
  pub seed : ℕ
  pub mode : OpMode
  pub steps : ℕ
  pub finished : Bool
  pub consumed : ℕ
  pub violation : Option SimViolation
  pub trace : List TraceLine

abbrev pub reset_agent : Agent → Agent
reset_agent g = record g { phase = AgentPhase.idle; current_item = none }

-- Every agent starts idle, with nothing in hand.
unfoldable pub start : World → SimState
start w =
    let agents = map reset_agent w.agents in
    record { world = record w { agents = agents }; steps = fresh_steps agents [] }

unfoldable pub start_run : World → SimOptions → Run
start_run w opts = record {
  n = 0;
  rng = seed_state opts.seed;
  state = start w;
  first_violation = none;
  trace = [];
}

abbrev pub result_of : SimOptions → Run → SimResult
result_of opts r = record {
  seed = opts.seed;
  mode = opts.mode;
  steps = r.n;
  finished = all_done r.state.world;
  consumed = r.state.world.budget.consumed;
  violation = r.first_violation;
  trace = r.trace;
}

unfoldable pub run_sim : Double → World → SimOptions → Option SimResult
run_sim d w opts = do r ← loop d opts opts.max_steps (start_run w opts); some (result_of opts r)
