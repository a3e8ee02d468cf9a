-- ===== src/Status.antt =====
-- src/status.ts: the board's Status field, and the status that a card should show. The four values
-- are a data type; `parse_status` reads the text of a card.
pub mod Derivation
use front_desk_scheduler.Base.{
  ℕ, String, Bool, true, false, not, Option, none, some, ◌==◌, ◌=ₛ◌, if◌then◌else◌,
}
use front_desk_scheduler.Policy.{BeadState}

pub data Status : Type 0 where
  todo in_progress blocked done : Status

abbrev pub status_text : Status → String
status_text todo = "Todo"
status_text in_progress = "In Progress"
status_text blocked = "Blocked"
status_text done = "Done"

-- A text that `isStatus` accepts, as the status that it spells.
unfoldable pub parse_status : String → Option Status
parse_status s =
    if s =ₛ "Todo"
    then some todo
    else if s =ₛ "In Progress"
    then some in_progress
    else if s =ₛ "Blocked"
    then some blocked
    else if s =ₛ "Done"
    then some done
    else none

abbrev state_of : Option Status → BeadState
state_of none = BeadState.open_
state_of (some todo) = BeadState.open_
state_of (some in_progress) = BeadState.in_progress
state_of (some blocked) = BeadState.blocked
state_of (some done) = BeadState.closed

unfoldable pub status_to_state : Option String → BeadState
unfolding parse_status
status_to_state none = BeadState.open_
status_to_state (some s) = state_of (parse_status s)

pub record DerivationInput : Type 0 where
  pub origin : String
  pub closed_at : Option String
  pub open_blockers : ℕ
  -- `none`: the lease plane was not consulted.
  pub lease_held : Option Bool
  pub current : Status

-- A text that is there and not empty, as the source's truth test has it.
unfoldable pub is_truthy : Option String → Bool
is_truthy none = false
is_truthy (some s) = not (s =ₛ "")

abbrev pub is_in_progress : Status → Bool
is_in_progress in_progress = true
is_in_progress _ = false

-- What the lease plane says once the row is known to be open and unblocked.
abbrev pub by_lease : Option Bool → Status → Option Status
by_lease (some true) current = some in_progress
by_lease (some false) current = some todo
by_lease none current = if is_in_progress current then none else some todo

unfoldable pub derive_status : DerivationInput → Option Status
derive_status i =
    if not (i.origin =ₛ "github")
    then none
    else if is_truthy i.closed_at
    then some done
    else if not (i.open_blockers == 0)
    then some blocked
    else by_lease i.lease_held i.current
