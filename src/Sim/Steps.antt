-- ===== src/Sim/Steps.antt =====
-- src/sim.ts: the step that each agent stands at, and the map that holds them.
use front_desk_scheduler.Base.{
  ℕ, ◌≡◌, refl, String, Bool, false, Option, none, some, List, [], ◌∷◌, ◌=ₛ◌, =ₛ_iff, if◌then◌else◌,
  arith,
}
use front_desk_scheduler.World.{Agent}

pub data StepPhase : Type 0 where
  idle claiming gating spending completing : StepPhase

pub record AgentStep : Type 0 where
  pub phase : StepPhase
  pub target : Option ℕ
  pub points : ℕ
  pub gate_allowed : Bool

abbrev pub StepMap : Type 0
StepMap = List (String × AgentStep)

unfoldable pub step_of : StepMap → String → Option AgentStep
step_of [] a = none
step_of ((b, s) ∷ rest) a = if b =ₛ a then some s else step_of rest a

-- `steps.set(a, s)`; the source also writes to the object that `get` returned.
unfoldable pub set_step : String → AgentStep → StepMap → StepMap
set_step a s [] = (a, s) ∷ []
set_step a s ((b, t) ∷ rest) = if b =ₛ a then (b, s) ∷ rest else (b, t) ∷ set_step a s rest

abbrev pub fresh_step : AgentStep
fresh_step = record { phase = idle; target = none; points = 0; gate_allowed = false }

unfoldable pub fresh_steps : List Agent → StepMap → StepMap
fresh_steps [] m = m
fresh_steps (g ∷ gs) m = fresh_steps gs (set_step g.id fresh_step m)

pub step_of-set_step :
    (m : StepMap) (a b : String) (s : AgentStep)
    → step_of (set_step a s m) b ≡ (if a =ₛ b then some s else step_of m b)
unfolding step_of set_step
step_of-set_step [] a b s = refl
step_of-set_step ((c, t) ∷ m) a b s =
    ground (arith, step_of-set_step m a b s, =ₛ_iff c a, =ₛ_iff c b, =ₛ_iff a b)
