-- ===== src/Triage/Ticket.antt =====
-- scripts/triage-ticket.ts: one run, as the calls it makes and the report it prints. The claim, GitHub
-- and the release answer or fail.
use front_desk_scheduler.Base.{
  ℕ, Bool, ◌&&◌, Option, none, some, List, [], ◌∷◌, ◌++◌, if◌then◌else◌, Text,
}
use front_desk_scheduler.Triage.{
  TriageInput, ClaimVerdict, TriageTarget, Comment, Refused, TriagePlan, act, abort, StateReason,
  state_reason_for, plan_triage, TriageRelease, released, release_status_for,
}

-- `claim` is `none` where it throws; the others tell whether the call succeeds.
pub record Answers : Type 0 where
  pub claim : Option ClaimVerdict
  pub comment_lands : Bool
  pub close_lands : Bool
  pub release_lands : Bool

pub record Settings : Type 0 where
  pub org : Text
  pub dry_run : Bool
  pub target_is_pr : Bool

pub data Call : Type 0 where
  comment : TriageTarget → Comment → Call
  close : TriageTarget → Option StateReason → Call
  release : Text → Text → ℕ → TriageRelease → Call

pub data Report : Type 0 where
  no_verdict : Report
  refusal : Refused → Option Text → Report
  preview : TriageTarget → Report
  outcome : TriageTarget → Bool → Bool → TriageRelease → Bool → Report

pub record Run : Type 0 where
  pub calls : List Call
  pub report : Report
  pub code : ℕ

abbrev pub close_reason : Settings → TriageInput → Option StateReason
close_reason s input = if s.target_is_pr then none else some (state_reason_for input.reason)

abbrev pub release_as : TriageInput → TriageTarget → TriageRelease → Call
release_as input t status = release t.item_id input.agent_label t.fencing status

-- The close is tried only once the comment landed.
abbrev pub close_calls : Settings → TriageInput → TriageTarget → Bool → List Call
close_calls s input t commented = if commented then close t (close_reason s input) ∷ [] else []

abbrev pub finish : Settings → TriageInput → Answers → TriageTarget → Comment → Run
finish s input a t c =
    let closed : Bool = a.comment_lands && a.close_lands in
    let status : TriageRelease = release_status_for a.comment_lands closed in
    record {
      calls =
          comment t c ∷ (close_calls s input t a.comment_lands ++ (release_as input t status ∷ []));
      report = outcome t a.comment_lands closed status a.release_lands;
      code = if a.comment_lands && (closed && a.release_lands) then 0 else 1;
    }

abbrev pub run_plan : Settings → TriageInput → Answers → TriagePlan → Run
run_plan s input a (abort why detail) = record { calls = []; report = refusal why detail; code = 0 }
run_plan s input a (act t c) =
    if s.dry_run
    then record { calls = release_as input t released ∷ []; report = preview t; code = 0 }
    else finish s input a t c

abbrev pub run_verdict : Settings → TriageInput → Answers → Option ClaimVerdict → Run
run_verdict s input a none = record { calls = []; report = no_verdict; code = 1 }
run_verdict s input a (some v) = run_plan s input a (plan_triage v input s.org)

unfoldable pub run_ticket : Settings → TriageInput → Answers → Run
run_ticket s input a = run_verdict s input a a.claim
