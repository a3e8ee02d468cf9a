-- ===== src/Tests/Data.antt =====
-- A small number type for scores and a small board.
use Prim.Native.Nat.{compare}
use front_desk_scheduler.Base.{
  ℕ, ◌+◌, ◌-◌, ◌*◌, ◌/◌, ◌^◌, max, String, true, none, [], ◌∷◌, arith, ltb, refl, Bool-cases,
  =ₛ_iff, ◌=ₛ◌, inl, inr, ◌==◌, if◌then◌else◌,
}
use front_desk_scheduler.Number.{Double, IsOrdered}
use front_desk_scheduler.Policy.{BeadKind, BeadEdgeType}
use front_desk_scheduler.World.{ItemPhase, AgentPhase, WorkItem, Agent, World, item_of}
use front_desk_scheduler.Ops.{safe}
use front_desk_scheduler.Sim.{SimOptions}
use front_desk_scheduler.Sim.Runs.{IsStartable}
use front_desk_scheduler.Invariants.Acyclic.{IsAcyclic}

-- Hundredths, as the difference of two whole numbers; products and quotients are rounded down.
abbrev Hundredths : Type 0
Hundredths = ℕ × ℕ

abbrev quotient : ℕ → ℕ → Hundredths → Hundredths
quotient over under (a, b) = (100 * a / max 1 (over - under), 100 * b / max 1 (over - under))

abbrev pub hundredths : Double
hundredths = record {
  carrier = Hundredths;
  of_nat = λ n. (100 * n, 0);
  decimal = λ n k. (100 * n / 10 ^ k, 0);
  add = λ x y. (x.0 + y.0, x.1 + y.1);
  sub = λ x y. (x.0 + y.1, x.1 + y.0);
  mul = λ x y. ((x.0 * y.0 + x.1 * y.1) / 100, (x.0 * y.1 + x.1 * y.0) / 100);
  div = λ x y. if ltb y.1 y.0 then quotient y.0 y.1 x else quotient y.1 y.0 (x.1, x.0);
  sign = λ x. compare x.0 x.1;
}

pub hundredths-IsOrdered : IsOrdered hundredths
hundredths-IsOrdered = record {
  flips = λ a b h. ground arith;
  flips_back = λ a b h. ground arith;
  chains = λ a b c h k. ground arith;
}

abbrev pub first_item : WorkItem
first_item = record {
  number = 1;
  title = "first";
  kind = BeadKind.task;
  phase = ItemPhase.ready;
  effort = 2;
  value = 5;
  age_days = 3;
  edges = [];
  owner_id = none;
}

-- Blocked by the first item.
abbrev pub second_item : WorkItem
second_item = record {
  number = 2;
  title = "second";
  kind = BeadKind.task;
  phase = ItemPhase.blocked;
  effort = 3;
  value = 8;
  age_days = 1;
  edges = record { kind = BeadEdgeType.blocks; target_number = 1 } ∷ [];
  owner_id = none;
}

abbrev pub free : String → Agent
free a = record { id = a; phase = AgentPhase.idle; current_item = none; capacity = 1 }

abbrev pub two_items : World
two_items = record {
  items = first_item ∷ second_item ∷ [];
  agents = free "ann" ∷ free "bob" ∷ [];
  budget = record { id = "b"; capacity_points = 10; consumed = 0 };
  clock = 0;
}

abbrev pub options : SimOptions
options = record { seed = 7; mode = safe; max_steps = 20; stop_on_violation = true }

pub two_items-IsStartable : IsStartable two_items
unfolding ◌=ₛ◌
two_items-IsStartable = record {
  distinct_items = ((ground arith, tt), (tt, tt));
  distinct_agents = ((ground (arith, =ₛ_iff "ann" "bob"), tt), (tt, tt));
  within = omega arith;
  loose = ((ground arith, refl), ((ground arith, refl), tt));
}

abbrev pub by_number : ℕ → ℕ
by_number n = n

pub two_items-IsAcyclic : IsAcyclic by_number two_items.items
unfolding item_of
two_items-IsAcyclic n = elim (Bool-cases (1 == n)) [
  | inl e ↦ rw e tt
  | inr e ↦
      rw e (elim (Bool-cases (2 == n)) [
        | inl f ↦ rw f ((λ b. ground (arith, f)), tt)
        | inr f ↦ rw f tt
      ])
]
