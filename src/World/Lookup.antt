-- ===== src/World/Lookup.antt =====
-- Reading back what was written to an item or an agent.
use front_desk_scheduler.Base.{
  ℕ, ◌≡◌, String, some, List, [], ◌∷◌, ◌==◌, ◌=ₛ◌, =ₛ_iff, if◌then◌else◌, arith, All, Bool-cases,
  inl, inr, subst,
}
use front_desk_scheduler.World.{WorkItem, Agent, item_of, agent_of, set_item, set_agent}

pub item_of-number :
    (is : List WorkItem) (n : ℕ) (i : WorkItem) → item_of is n ≡ some i → i.number ≡ n
unfolding item_of
item_of-number [] n i e = cc
item_of-number (x ∷ is) n i e = ground (arith, item_of-number is n i)

pub agent_of-id : (gs : List Agent) (a : String) (g : Agent) → agent_of gs a ≡ some g → g.id ≡ a
unfolding agent_of
agent_of-id [] a g e = cc
agent_of-id (x ∷ gs) a g e = ground (arith, agent_of-id gs a g, =ₛ_iff x.id a)

-- An item written at `n` is read at `n`, and every other item as before.
pub item_of-set_item :
    (is : List WorkItem) (n m : ℕ) (v i : WorkItem)
    → v.number ≡ n
    → item_of is n ≡ some i
    → item_of (set_item n v is) m ≡ (if n == m then some v else item_of is m)
unfolding item_of set_item
item_of-set_item [] n m v i h e = cc
item_of-set_item (x ∷ is) n m v i h e = ground (arith, item_of-set_item is n m v i h)

pub agent_of-set_agent :
    (gs : List Agent) (a b : String) (v g : Agent)
    → v.id ≡ a
    → agent_of gs a ≡ some g
    → agent_of (set_agent a v gs) b ≡ (if a =ₛ b then some v else agent_of gs b)
unfolding agent_of set_agent
agent_of-set_agent [] a b v g h e = cc
agent_of-set_agent (x ∷ gs) a b v g h e = ground (
  arith,
  agent_of-set_agent gs a b v g h,
  =ₛ_iff x.id a,
  =ₛ_iff x.id b,
  =ₛ_iff a b,
  =ₛ_iff v.id b,
)

-- What holds of every agent holds of the one that is found.
pub All-agent_of {ℓ} :
    (P : Agent → Type ℓ) (gs : List Agent) (a : String) (g : Agent)
    → All P gs
    → agent_of gs a ≡ some g
    → P g
unfolding agent_of
All-agent_of P [] a g h e = cc
All-agent_of P (x ∷ gs) a g h e = elim (Bool-cases (x.id =ₛ a)) [
  | inl hit ↦ subst P (ground arith) h.0
  | inr miss ↦ All-agent_of P gs a g h.1 (ground arith)
]

pub All-item_of {ℓ} :
    (P : WorkItem → Type ℓ) (is : List WorkItem) (n : ℕ) (i : WorkItem)
    → All P is
    → item_of is n ≡ some i
    → P i
unfolding item_of
All-item_of P [] n i h e = cc
All-item_of P (x ∷ is) n i h e = elim (Bool-cases (x.number == n)) [
  | inl hit ↦ subst P (ground arith) h.0
  | inr miss ↦ All-item_of P is n i h.1 (ground arith)
]
