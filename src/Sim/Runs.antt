-- ===== src/Sim/Runs.antt =====
-- Whole runs of src/sim.ts: what holds of `runSim` in safe mode, for every seed.
use mathlib.Core.Bool.{false≢true}
use front_desk_scheduler.Base.{
  ℕ, zero, suc, ◌+◌, ◌*◌, ◌^◌, ◌<◌, ◌≤◌, ◌≡◌, ◌≢◌, refl, sym, ap, ◌∙◌, subst, inl, inr, String,
  Bool, true, false, not, ◌&&◌, Option, none, some, List, [], ◌∷◌, map, filterb, length, get_elem?,
  arith, All, Bool-cases, ◌=ₛ◌,
}
use front_desk_scheduler.Number.{Double}
use front_desk_scheduler.Policy.{BeadEdge}
use front_desk_scheduler.World.{World, Agent, in_progress, item_of, agent_of, is_none}
use front_desk_scheduler.World.Lookup.{All-item_of}
use front_desk_scheduler.World.Unique.{Distinct, numbers, names, agents_known}
use front_desk_scheduler.Ops.{safe}
use front_desk_scheduler.Invariants.{l1, finding_id, l1_findings, assert_invariants, is_valid}
use front_desk_scheduler.Invariants.Cycle.{edges_of}
use front_desk_scheduler.Invariants.Acyclic.{IsAcyclic}
use front_desk_scheduler.Sim.{
  SimState, SimOptions, SimViolation, Run, SimResult, start, start_run, can_act, actionable, chosen,
  check_step, round, loop, run_sim, result_of, micro_step, reset_agent,
}
use front_desk_scheduler.Sim.Prng.{draw, draw_bound, pick_index}
use front_desk_scheduler.Sim.Steps.{
  StepMap, step_of, set_step, fresh_step, fresh_steps, step_of-set_step,
}
use front_desk_scheduler.Sim.Safety.{Inv, micro_step-Inv}
use front_desk_scheduler.Sim.Verdict.{safety_findings-nil, assert_invariants-nil}

-- A world that a simulation may start from: distinct numbers and names, a budget that is not
-- overspent, and no item in anybody's hands.
pub record IsStartable (w : World) : Type 0 where
  pub distinct_items : Distinct (numbers w.items)
  pub distinct_agents : Distinct (names w.agents)
  pub within : w.budget.consumed ≤ w.budget.capacity_points
  pub loose : All (λ i. (i.phase ≢ in_progress) × (i.owner_id ≡ none)) w.items

abbrev pub deps_of : World → ℕ → List BeadEdge
deps_of w n = edges_of (item_of w.items n)

names-reset : (gs : List Agent) → names (map reset_agent gs) ≡ names gs
names-reset [] = refl
names-reset (g ∷ gs) = ap (◌∷◌ g.id) (names-reset gs)

fresh_steps_keep :
    (gs : List Agent) (m : StepMap) (a : String)
    → step_of m a ≡ some fresh_step
    → step_of (fresh_steps gs m) a ≡ some fresh_step
unfolding fresh_steps
fresh_steps_keep [] m a h = h
fresh_steps_keep (g ∷ gs) m a h =
    fresh_steps_keep gs (set_step g.id fresh_step m) a
      (ground (arith, step_of-set_step m g.id a fresh_step))

fresh_steps_all :
    (gs : List Agent) (m : StepMap) (a : String) (g : Agent)
    → agent_of gs a ≡ some g
    → step_of (fresh_steps gs m) a ≡ some fresh_step
unfolding fresh_steps agent_of
fresh_steps_all [] m a g e = cc
fresh_steps_all (x ∷ gs) m a g e = elim (Bool-cases (x.id =ₛ a)) [
  | inl hit ↦
      fresh_steps_keep gs (set_step x.id fresh_step m) a
        (step_of-set_step m x.id a fresh_step ∙ rw hit)
  | inr miss ↦ fresh_steps_all gs (set_step x.id fresh_step m) a g (ground arith)
]

reset_holds_nothing :
    (gs : List Agent) (a : String) (g : Agent)
    → agent_of (map reset_agent gs) a ≡ some g
    → g.current_item ≡ none
unfolding agent_of
reset_holds_nothing [] a g e = cc
reset_holds_nothing (x ∷ gs) a g e = ground (arith, reset_holds_nothing gs a g)

pub start-Inv : (w : World) → IsStartable w → Inv (deps_of w) (start w)
unfolding start
start-Inv w s = record {
  distinct_items = s.distinct_items;
  distinct_agents = rw (names-reset w.agents) s.distinct_agents;
  within = s.within;
  agree = record {
    edged = λ n i e. rw e;
    unowned = λ n i e p. (All-item_of _ w.items n i s.loose e).1;
    owned = λ n i e p. absurd ((All-item_of _ w.items n i s.loose e).0 p);
    held = λ a g n e k. let h = reset_holds_nothing w.agents a g e in cc;
    stepped = λ a g e. (
      fresh_step,
      fresh_steps_all (map reset_agent w.agents) [] a g e,
      reset_holds_nothing w.agents a g e,
    );
  };
}

get_elem?-lt {ℓ} :
    {A : Type ℓ} (P : A → Type ℓ) (xs : List A) (i : ℕ)
    → i < length xs
    → All P xs
    → (x : A) × (get_elem? xs i ≡ some x) × P x
get_elem?-lt P [] i h a = absurd (omega arith)
get_elem?-lt P (x ∷ xs) zero h a = (x, refl, a.0)
get_elem?-lt P (x ∷ xs) (suc i) h a = get_elem?-lt P xs i (omega arith) a.1

mul_below : (v k n : ℕ) → v < k → v * n + n ≤ k * n
mul_below v k n h = grind arith

pick_index-lt : (a n : ℕ) → 0 < n → pick_index (draw a).0 n < n
pick_index-lt a n h = omega (arith, mul_below (draw a).0 (2 ^ 32) n (draw_bound a))

abbrev IsNamed : SimState → String → Type 0
IsNamed st a = (g : Agent) × (agent_of st.world.agents a ≡ some g)

IsNamed-All :
    (p : Agent → Bool) (st : SimState) (gs : List Agent)
    → All (λ g. agent_of st.world.agents g.id ≡ some g) gs
    → All (IsNamed st) (map (λ g. g.id) (filterb p gs))
IsNamed-All p st [] h = tt
IsNamed-All p st (g ∷ gs) h = elim (Bool-cases (p g)) [
  | inl t ↦ rw t ((g, h.0), IsNamed-All p st gs h.1)
  | inr f ↦ rw f (IsNamed-All p st gs h.1)
]

actionable-IsNamed :
    (d : Double) (deps : ℕ → List BeadEdge) (st : SimState)
    → Inv deps st
    → All (IsNamed st) (actionable d st)
unfolding actionable
actionable-IsNamed d deps st v =
    IsNamed-All (can_act d st) st st.world.agents (agents_known st.world.agents v.distinct_agents)

module _ (d : Double) (opts : SimOptions) (is_safe : opts.mode ≡ safe) (deps : ℕ → List BeadEdge)
    (Kept : Option SimViolation → Type 0)
    (kept_report : (st : SimState) (n : ℕ)
      → Inv deps st
      → is_valid (assert_invariants st.world) ≡ false
      → Kept (some (record { step = n; report = assert_invariants st.world }))) where
  abbrev IsGood : Run → Type 0
  IsGood r = Inv deps r.state × Kept r.first_violation

  abbrev RoundOk : Run → Option (Run × Bool) → Type 0
  RoundOk r none = ⊥
  RoundOk r (some (q, stop)) = IsGood q × (q.n ≡ suc r.n)

  abbrev LoopOk : ℕ → Option Run → Type 0
  LoopOk k none = ⊥
  LoopOk k (some q) = IsGood q × (q.n ≤ k)

  check_step_ok :
      (r : Run) → IsGood r → RoundOk r (some (check_step opts r (assert_invariants r.state.world)))
  unfolding check_step
  check_step_ok r (v, k) =
      elim (Bool-cases
        (not (is_valid (assert_invariants r.state.world)) && is_none r.first_violation)) [
          | inl t ↦ rw t ((v, kept_report r.state r.n v (ground arith)), refl)
          | inr f ↦ rw f ((v, k), refl)
        ]

  round_ok :
      (r : Run) (rng : ℕ) (a : String)
      → IsGood r
      → IsNamed r.state a
      → RoundOk r (round d opts r rng a)
  unfolding round
  round_ok r rng a (v, k) (g, here) =
      let (t, moved, w) = micro_step-Inv d deps r.state a g v here in
      let made : micro_step d opts.mode r.state a ≡ some t = rw is_safe moved in
      rw (made, round) (check_step_ok _ (w, k))

  continue_ok :
      (fuel : ℕ) (r : Run) (o : Option (Run × Bool))
      → RoundOk r o
      → ((q : Run) → IsGood q → LoopOk (q.n + fuel) (loop d opts fuel q))
      → LoopOk
          (r.n + suc fuel)
          (elim o [ none ↦ none | some (q, true) ↦ some q | some (q, false) ↦ loop d opts fuel q ])
  continue_ok fuel r none h more = h
  continue_ok fuel r (some (q, true)) h more = (h.0, omega arith)
  continue_ok fuel r (some (q, false)) h more =
      LoopOk-mono (q.n + fuel) (r.n + suc fuel) (loop d opts fuel q) (omega arith) (more q h.0)
    where
      LoopOk-mono : (j k : ℕ) (o : Option Run) → j ≤ k → LoopOk j o → LoopOk k o
      LoopOk-mono j k none le h = h
      LoopOk-mono j k (some q) le h = (h.0, omega arith)

  loop_ok : (fuel : ℕ) (r : Run) → IsGood r → LoopOk (r.n + fuel) (loop d opts fuel r)
  unfolding loop
  loop_ok zero r h = (h, omega arith)
  loop_ok (suc fuel) r h =
      go (actionable d r.state) (actionable-IsNamed d deps r.state h.0) (λ q. loop_ok fuel q)
    where
      go :
          (ready : List String)
          → All (IsNamed r.state) ready
          → ((q : Run) → IsGood q → LoopOk (q.n + fuel) (loop d opts fuel q))
          → LoopOk (r.n + suc fuel) (elim ready [
            | [] ↦ some r
            | a ∷ rest ↦ elim (chosen (a ∷ rest) (draw r.rng).0) [
              | none ↦ none
              | some b ↦ elim (round d opts r (draw r.rng).1 b) [
                | none ↦ none
                | some (q, true) ↦ some q
                | some (q, false) ↦ loop d opts fuel q
              ]
            ]
          ])
      go [] named more = (h, omega arith)
      go (a ∷ rest) named more =
          let (b, e, known) =
            get_elem?-lt (IsNamed r.state) (a ∷ rest) _
              (pick_index-lt r.rng (length (a ∷ rest)) (omega arith)) named in
          rw e (continue_ok fuel r _ (round_ok r (draw r.rng).1 b h known) more)

  outcome :
      (k : ℕ) (o : Option Run)
      → LoopOk k o
      → (q : Run) × (o ≡ some q) × Kept q.first_violation × (q.n ≤ k)
  outcome k none h = absurd h
  outcome k (some q) h = (q, refl, h.0.1, h.1)

  start_ok :
      (w : World)
      → Inv deps (start w)
      → Kept none
      → LoopOk opts.max_steps (loop d opts opts.max_steps (start_run w opts))
  unfolding start_run
  start_ok w v k =
      subst (λ j. LoopOk j (loop d opts opts.max_steps (start_run w opts))) zero_start
        (loop_ok opts.max_steps (start_run w opts) (v, k))
    where
      zero_start : 0 + opts.max_steps ≡ opts.max_steps
      zero_start = omega arith

  run_ok :
      (w : World)
      → Inv deps (start w)
      → Kept none
      → (r : SimResult) × (run_sim d w opts ≡ some r)
        × Kept r.violation
        × (r.steps ≤ opts.max_steps)
  unfolding run_sim
  run_ok w v k =
      let (q, e, kept, few) =
        outcome opts.max_steps (loop d opts opts.max_steps (start_run w opts)) (start_ok w v k) in
      (result_of opts q, rw (e, run_sim), kept, few)

-- A violation about liveness alone.
abbrev pub OnlyDeadlocks : Option SimViolation → Type 0
OnlyDeadlocks none = Unit
OnlyDeadlocks (some v) = All (λ f. finding_id f ≡ l1) v.report

l1_findings-ids : (w : World) → All (λ f. finding_id f ≡ l1) (l1_findings w)
unfolding l1_findings
l1_findings-ids w = ground arith

only_deadlocks :
    (deps : ℕ → List BeadEdge) (st : SimState) (n : ℕ)
    → Inv deps st
    → OnlyDeadlocks (some (record { step = n; report = assert_invariants st.world }))
unfolding assert_invariants
only_deadlocks deps st n v = rw (safety_findings-nil deps st v) (l1_findings-ids st.world)

module _ (d : Double) (w : World) (opts : SimOptions) (s : IsStartable w)
    (is_safe : opts.mode ≡ safe) where
  -- In safe mode a run from a startable world ends with a result, whatever the seed; it took at
  -- most the steps given, and the only violation that it may report is a deadlock.
  pub run_sim-safe :
      (r : SimResult) × (run_sim d w opts ≡ some r)
      × OnlyDeadlocks r.violation
      × (r.steps ≤ opts.max_steps)
  run_sim-safe =
      run_ok d opts is_safe (deps_of w) OnlyDeadlocks
        (λ st n v _. only_deadlocks (deps_of w) st n v) w (start-Inv w s) tt

  -- In safe mode a run from a startable world whose "blocks" edges all lead to a lower rank ends
  -- with a result, whatever the seed; it took at most the steps given, and reports no violation.
  pub run_sim-acyclic :
      (rank : ℕ → ℕ)
      → IsAcyclic rank w.items
      → (r : SimResult) × (run_sim d w opts ≡ some r)
        × (r.violation ≡ none)
        × (r.steps ≤ opts.max_steps)
  run_sim-acyclic rank a =
      run_ok d opts is_safe (deps_of w) (λ o. o ≡ none)
        (λ st n v bad.
          absurd
            (false≢true (sym bad ∙ ap is_valid (assert_invariants-nil (deps_of w) st v rank a))))
        w (start-Inv w s) refl
