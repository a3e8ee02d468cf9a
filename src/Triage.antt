-- ===== src/Triage.antt =====
-- src/triage.ts: retiring an item under a lease. A comment is the values it is rendered from, and the
-- detail of a refusal is the claim's reason, where it has one.
pub mod Ticket
pub mod Guard
use front_desk_scheduler.Base.{
  ℕ, Bool, true, false, ◌&&◌, ◌||◌, not, Option, none, some, List, [], ◌∷◌, every, leb, ◌==◌,
  if◌then◌else◌, Text, codes, is_digit, digits_from, trim,
}
use front_desk_scheduler.Selector.{is_empty, qualified, given}

pub data TriageReason : Type 0 where
  superseded resolved not_planned : TriageReason

pub record TriageInput : Type 0 where
  pub item : Text
  pub reason : TriageReason
  pub evidence : Text
  pub superseded_by : Option Text
  pub agent_label : Text

pub data Verdict : Type 0 where
  granted not_granted not_eligible not_in_mirror : Verdict

pub record ClaimVerdict : Type 0 where
  pub won : Bool
  pub verdict : Option Verdict
  pub item_id : Option Text
  pub number : Option ℕ
  pub repository : Option Text
  pub fencing : Option ℕ
  pub reason : Option Text

pub record TriageTarget : Type 0 where
  pub owner : Text
  pub repo : Text
  pub number : ℕ
  pub item_id : Text
  pub fencing : ℕ

pub record Comment : Type 0 where
  pub headline : TriageReason
  pub by : Option Text
  pub evidence : Text
  pub agent_label : Text
  pub fencing : Option ℕ

pub data Refused : Type 0 where
  refused_grant refused_eligible refused_mirror unusable_verdict : Refused

pub data TriagePlan : Type 0 where
  act : TriageTarget → Comment → TriagePlan
  abort : Refused → Option Text → TriagePlan

pub data StateReason : Type 0 where
  state_completed state_not_planned : StateReason

unfoldable pub state_reason_for : TriageReason → StateReason
state_reason_for resolved = state_completed
state_reason_for _ = state_not_planned

-- `[1-9][0-9]*`.
abbrev pub is_issue_number : Text → Bool
is_issue_number [] = false
is_issue_number (c ∷ cs) = leb b'1' c && leb c b'9' && every is_digit cs

abbrev pub or_org : Option Text → Text → Text
or_org none org = org
or_org (some o) org = o

pub record Selected : Type 0 where
  pub owner : Text
  pub repo : Text
  pub number : Option ℕ

abbrev pub select_from : Text → Option (Option Text × Text × Text) → Option Selected
select_from org none = none
select_from org (some (owner, repo, number)) =
    some (record { owner = or_org owner org; repo = repo; number = digits_from 0 number })

unfoldable pub parse_selector : Text → Text → Option Selected
parse_selector selector org = select_from org (qualified is_issue_number (trim selector))

abbrev pub trimmed : Option Text → Option Text
trimmed none = none
trimmed (some t) = given (some (trim t))

unfoldable pub render_triage_comment : TriageInput → ClaimVerdict → Comment
render_triage_comment input claim = record {
  headline = input.reason;
  by = trimmed input.superseded_by;
  evidence = trim input.evidence;
  agent_label = input.agent_label;
  fencing = claim.fencing;
}

abbrev pub refused_as : Option Verdict → Refused
refused_as (some not_eligible) = refused_eligible
refused_as (some not_in_mirror) = refused_mirror
refused_as _ = refused_grant

abbrev pub selected_repo : Option Selected → Option Text
selected_repo none = none
selected_repo (some s) = some s.repo

abbrev pub selected_number : Option Selected → Option ℕ
selected_number none = none
selected_number (some s) = s.number

abbrev pub selected_owner : Option Selected → Text → Text
selected_owner none org = org
selected_owner (some s) org = s.owner

abbrev pub or_else {ℓ} : {A : Type ℓ} → Option A → Option A → Option A
or_else (some a) o = some a
or_else none o = o

-- A number that is 0 counts as missing.
abbrev pub given_number : Option ℕ → Option ℕ
given_number none = none
given_number (some n) = if n == 0 then none else some n

-- What the write needs, where all of it is there.
abbrev pub usable : Option Text → Option ℕ → Option Text → Option ℕ → Option (Text × ℕ × Text × ℕ)
usable (some id) (some fencing) (some repo) (some number) = some (id, fencing, repo, number)
usable _ _ _ _ = none

abbrev pub act_on :
    Text → ClaimVerdict → TriageInput → Option Selected → Option (Text × ℕ × Text × ℕ) → TriagePlan
act_on org claim input selector none = abort unusable_verdict none
act_on org claim input selector (some (id, fencing, repo, number)) =
    act
      (record {
        owner = selected_owner selector org;
        repo = repo;
        number = number;
        item_id = id;
        fencing = fencing;
      })
      (render_triage_comment input claim)

abbrev pub plan_selected : Text → ClaimVerdict → TriageInput → Option Selected → TriagePlan
plan_selected org claim input selector = act_on org claim input selector (
    usable (given claim.item_id) claim.fencing
      (given (or_else claim.repository (selected_repo selector)))
      (given_number (or_else claim.number (selected_number selector))))

unfoldable pub plan_triage : ClaimVerdict → TriageInput → Text → TriagePlan
plan_triage claim input org =
    if claim.won
    then plan_selected org claim input (parse_selector input.item org)
    else abort (refused_as claim.verdict) claim.reason

pub data TriageRelease : Type 0 where
  completed released : TriageRelease

unfoldable pub release_status_for : Bool → Bool → TriageRelease
release_status_for commented closed = if closed then completed else released
