-- ===== src/Triage/Guard.antt =====
-- What a run of scripts/triage-ticket.ts may touch, and what it records.
use front_desk_scheduler.Base.{
  ℕ, ◌≡◌, refl, ◌⊎◌, trim, digits_from, Bool, true, false, ◌&&◌, not, Option, none, some, List,
  length, filterb, if◌then◌else◌, Text, Bool-cases, inl, inr,
}
use front_desk_scheduler.Selector.{qualified}
use front_desk_scheduler.Triage.{
  TriageInput, ClaimVerdict, TriageTarget, TriagePlan, act, abort, is_issue_number, plan_triage,
  completed, release_status_for,
}
use front_desk_scheduler.Triage.Ticket.{
  Answers, Settings, Call, comment, close, release, run_plan, run_verdict, run_ticket,
}

-- What the input's item reads as: an owner, if it names one, a repository and the digits of a number.
abbrev ReadsAs : TriageInput → Option Text → Text → Text → Type 0
ReadsAs input owner repo digits =
    qualified is_issue_number (trim input.item) ≡ some (owner, repo, digits)

-- The verdict granted the lease of this item, with this token.
abbrev pub Grants : ClaimVerdict → Text → ℕ → Type 0
Grants v id fencing = (v.won ≡ true) × (v.item_id ≡ some id) × (v.fencing ≡ some fencing)

-- The verdict's repository and, where it has none, the input's.
abbrev pub IsItsRepo : ClaimVerdict → TriageInput → Text → Type 0
IsItsRepo v input repo =
    (v.repository ≡ some repo)
    ⊎ ((v.repository ≡ none)
        × (owner : Option Text) × (digits : Text) × ReadsAs input owner repo digits)

abbrev pub IsItsNumber : ClaimVerdict → TriageInput → ℕ → Type 0
IsItsNumber v input number =
    (v.number ≡ some number)
    ⊎ ((v.number ≡ none)
        × (owner : Option Text) × (repo : Text) × (digits : Text) × ReadsAs input owner repo digits
        × (digits_from 0 digits ≡ some number))

-- The owner that the input names and, where it names none, the organisation.
abbrev pub IsItsOwner : TriageInput → Text → Text → Type 0
IsItsOwner input org owner =
    ((repo : Text) × (digits : Text) × ReadsAs input (some owner) repo digits)
    ⊎ ((owner ≡ org)
        × ((qualified is_issue_number (trim input.item) ≡ none)
            ⊎ ((repo : Text) × (digits : Text) × ReadsAs input none repo digits)))

-- The issue that the target names.
abbrev pub IsAimed : ClaimVerdict → TriageInput → Text → TriageTarget → Type 0
IsAimed v input org t =
    IsItsRepo v input t.repo
    × IsItsNumber v input t.number
    × IsItsOwner input org t.owner
    × Grants v t.item_id t.fencing

abbrev PlanGrants : ClaimVerdict → TriageInput → Text → TriagePlan → Type 0
PlanGrants v input org (abort why detail) = Unit
PlanGrants v input org (act t c) = IsAimed v input org t

module _ (v : ClaimVerdict) (input : TriageInput) (org : Text) where
  abbrev Item : Type 0
  Item = Option (Option Text × Text × Text)

  abbrev item_read : Item
  item_read = qualified is_issue_number (trim input.item)

-- The run's release names the item and the token of the grant, and a comment and a close name the
-- issue that the claim told of, where it told of one, and the one that the input names otherwise.
abbrev pub IsGranted : Text → TriageInput → Option ClaimVerdict → Call → Type 0
IsGranted org input none c = ⊥
IsGranted org input (some v) (comment t c) = IsAimed v input org t
IsGranted org input (some v) (close t r) = IsAimed v input org t
IsGranted org input (some v) (release id agent fencing status) = Grants v id fencing

-- The run got as far as a plan that acts.
abbrev pub is_act : TriagePlan → Bool
is_act (act t c) = true
is_act (abort why detail) = false

abbrev pub acts_on : Settings → TriageInput → Option ClaimVerdict → Bool
acts_on s input none = false
acts_on s input (some v) = is_act (plan_triage v input s.org)

abbrev pub records_done : Call → Bool
records_done (release id agent fencing completed) = true
records_done _ = false

abbrev pub is_release : Call → Bool
is_release (release id agent fencing status) = true
is_release _ = false

abbrev pub is_close : Call → Bool
is_close (close t r) = true
is_close _ = false

abbrev pub counts : (Call → Bool) → List Call → ℕ
counts p cs = length (filterb p cs)

-- A run that acts hands the lease back once, as completed exactly when it is no dry run and both the
-- comment and the close landed; it tries the close exactly when the comment landed.
pub run_ticket_lem :
    (s : Settings) (input : TriageInput) (a : Answers)
    → let cs = (run_ticket s input a).calls in
      let acts = acts_on s input a.claim in
      (counts is_release cs ≡ (if acts then 1 else 0))
      × (counts records_done cs
          ≡ (if acts && (not s.dry_run && (a.comment_lands && a.close_lands)) then 1 else 0))
      × (counts is_close cs ≡ (if acts && (not s.dry_run && a.comment_lands) then 1 else 0))
unfolding run_ticket release_status_for
run_ticket_lem s input a = go a.claim
  where
    planned :
        (p : TriagePlan)
        → (counts is_release (run_plan s input a p).calls ≡ (if is_act p then 1 else 0))
          × (counts records_done (run_plan s input a p).calls ≡ (
              if is_act p && (not s.dry_run && (a.comment_lands && a.close_lands)) then 1 else 0))
          × (counts is_close (run_plan s input a p).calls
              ≡ (if is_act p && (not s.dry_run && a.comment_lands) then 1 else 0))
    planned (abort why detail) = (refl, refl, refl)
    planned (act t c) = elim (Bool-cases s.dry_run) [
      | inl e ↦ rw e (refl, refl, refl)
      | inr e ↦ rw e (elim (Bool-cases a.comment_lands) [
        | inr f ↦ rw f (refl, refl, refl)
        | inl f ↦ rw f (elim (Bool-cases a.close_lands) [
          | inl g ↦ rw g (refl, refl, refl)
          | inr g ↦ rw g (refl, refl, refl)
        ])
      ])
    ]

    go :
        (o : Option ClaimVerdict)
        → (counts is_release (run_verdict s input a o).calls ≡ (if acts_on s input o then 1 else 0))
          × (counts records_done (run_verdict s input a o).calls ≡ (
              if acts_on s input o && (not s.dry_run && (a.comment_lands && a.close_lands))
              then 1
              else 0))
          × (counts is_close (run_verdict s input a o).calls
              ≡ (if acts_on s input o && (not s.dry_run && a.comment_lands) then 1 else 0))
    go none = (refl, refl, refl)
    go (some v) = planned (plan_triage v input s.org)
