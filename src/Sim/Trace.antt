-- ===== src/Sim/Trace.antt =====
-- src/sim.ts: the lines of a trace, before they are rendered as texts.
use front_desk_scheduler.Base.{ℕ, String, Bool, Option, List}
use front_desk_scheduler.Ops.{ClaimResult, SpendResult}
use front_desk_scheduler.Invariants.{FindingId}

pub data TraceLine : Type 0 where
  decided : String → ℕ → TraceLine
  commit_claimed : String → ℕ → ClaimResult → TraceLine
  gated : String → ℕ → ℕ → Bool → TraceLine
  spent : String → ℕ → SpendResult → ℕ → TraceLine
  completed : String → Option ℕ → List ℕ → TraceLine
  violated : ℕ → List FindingId → TraceLine
