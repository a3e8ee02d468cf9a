-- ===== src/Invariants.antt =====
-- src/invariants.ts: the invariants S1, S2, S3 and L1 as findings about one world. A finding keeps
-- the values that the source renders into its message; every finding is `hard` in the source.
pub mod Cycle
pub mod Owners
pub mod Counting
pub mod Acyclic
use front_desk_scheduler.Base.{
  ℕ, String, Bool, true, false, ◌&&◌, ◌||◌, not, Option, none, some, List, [], ◌∷◌, ◌++◌, map, leb,
  ◌==◌, ◌=ₛ◌, if◌then◌else◌, length, any, every, filterb,
}
use front_desk_scheduler.World.{
  World, WorkItem, Agent, ItemPhase, ready_set, is_in_progress, is_done, is_ready, is_blocked,
  is_idle, is_none, item_by_id, deps_satisfied,
}
use Cycle.{in_blocks_cycle}

pub data FindingId : Type 0 where
  s1 s2 s3 l1 : FindingId

pub data Finding : Type 0 where
  double_claim : ℕ → List String → Finding
  overspent : ℕ → ℕ → Finding
  no_owner : ℕ → Finding
  owner_mismatch : ℕ → Option String → List String → Finding
  still_owned : ℕ → ItemPhase → Option String → List String → Finding
  two_phases : ℕ → Finding
  deadlock : List ℕ → Finding

abbrev pub finding_id : Finding → FindingId
finding_id (double_claim _ _) = s1
finding_id (overspent _ _) = s2
finding_id (no_owner _) = s3
finding_id (owner_mismatch _ _ _) = s3
finding_id (still_owned _ _ _ _) = s3
finding_id (two_phases _) = s3
finding_id (deadlock _) = l1

abbrev pub hard : Bool → Finding → List Finding
hard true f = []
hard false f = f ∷ []

-- The map from an item's number to the agents that point at it, in the order of insertion.
abbrev pub Holders : Type 0
Holders = List (ℕ × List String)

unfoldable pub add_holder : ℕ → String → Holders → Holders
add_holder n a [] = (n, a ∷ []) ∷ []
add_holder n a ((m, as_) ∷ rest) =
    if m == n then (m, as_ ++ (a ∷ [])) ∷ rest else (m, as_) ∷ add_holder n a rest

unfoldable pub holders_from : Holders → List Agent → Holders
holders_from owners [] = owners
holders_from owners (g ∷ gs) = elim g.current_item [
  | none ↦ holders_from owners gs
  | some n ↦ holders_from (add_holder n g.id owners) gs
]

-- `owners.get(n) ?? []`.
unfoldable pub holders_of : ℕ → Holders → List String
holders_of n [] = []
holders_of n ((m, as_) ∷ rest) = if m == n then as_ else holders_of n rest

unfoldable pub s1_findings : Holders → List Finding
s1_findings [] = []
s1_findings ((n, as_) ∷ rest) = hard (leb (length as_) 1) (double_claim n as_) ++ s1_findings rest

-- Exactly one holder, and it is the owner.
abbrev pub held_by_owner : List String → Option String → Bool
held_by_owner (a ∷ []) (some o) = a =ₛ o
held_by_owner _ _ = false

abbrev pub is_empty {ℓ} : {A : Type ℓ} → List A → Bool
is_empty [] = true
is_empty (_ ∷ _) = false

unfoldable pub item_findings : WorkItem → List String → List Finding
item_findings i holders =
    (if is_in_progress i.phase
      then hard (not (is_none i.owner_id)) (no_owner i.number)
        ++ hard (held_by_owner holders i.owner_id) (owner_mismatch i.number i.owner_id holders)
      else hard (is_none i.owner_id && is_empty holders)
          (still_owned i.number i.phase i.owner_id holders))
    ++ hard (not (is_in_progress i.phase && is_done i.phase)) (two_phases i.number)

unfoldable pub s3_findings : Holders → List WorkItem → List Finding
s3_findings owners [] = []
s3_findings owners (i ∷ is) = item_findings i (holders_of i.number owners) ++ s3_findings owners is

unfoldable pub stuck_items : World → List WorkItem
stuck_items w = filterb (λ i. not (is_done i.phase) && in_blocks_cycle w i.number) w.items

unfoldable pub l1_findings : World → List Finding
l1_findings w =
    let idle = any (λ g. is_idle g.phase) w.agents in
    let anything_runnable = not (is_empty (ready_set w)) in
    let any_open_pending = any (λ i. is_ready i.phase || is_blocked i.phase) w.items in
    let stuck = stuck_items w in
    if idle && (any_open_pending && not anything_runnable)
    then hard (is_empty stuck) (deadlock (map (λ i. i.number) stuck))
    else []

-- The findings that concern safety, in the order in which the source checks them.
unfoldable pub safety_findings : World → List Finding
safety_findings w =
    let owners = holders_from [] w.agents in
    s1_findings owners
    ++ (hard (leb w.budget.consumed w.budget.capacity_points)
          (overspent w.budget.consumed w.budget.capacity_points)
        ++ s3_findings owners w.items)

unfoldable pub assert_invariants : World → List Finding
assert_invariants w = safety_findings w ++ l1_findings w

abbrev pub is_valid : List Finding → Bool
is_valid = is_empty

unfoldable pub all_done : World → Bool
all_done w = every (λ i. is_done i.phase) w.items

unfoldable pub can_progress : World → Bool
can_progress w =
    if not (is_empty (ready_set w)) then true else any (λ i. is_in_progress i.phase) w.items

-- Of the item that bears this number: its dependencies are satisfied and it is still blocked.
unfoldable pub should_be_ready : World → ℕ → Bool
should_be_ready w n = elim (item_by_id w n) [
  | none ↦ false
  | some i ↦ is_blocked i.phase && deps_satisfied w i
]
