-- ===== src/Reaper.antt =====
-- src/reaper.ts: which leases a sweep looks at, what it probes and what it collects.
pub mod Candidates
pub mod Verdicts
pub mod Sweep
pub mod Ledger
use front_desk_scheduler.Base.{
  ℕ, ◌-◌, String, Bool, true, false, ◌&&◌, ◌||◌, not, Option, none, some, List, [], ◌∷◌, ◌++◌, leb,
  ◌==◌, ◌=ₛ◌, if◌then◌else◌, Text, codes, trim, is_digit, digits_from, has_text,
}
use front_desk_scheduler.Lease.{LeaseReferent, LeaseStatus}

-- The answer to one of the three queries. `missing_claims` is a failure whose text says that the
-- table `claims` was not found.
pub data QueryAnswer : Type 0 where
  rows : List String → QueryAnswer
  missing_claims failure : QueryAnswer

abbrev projected : QueryAnswer → QueryAnswer
projected missing_claims = rows []
projected a = a

-- `[...new Set(ids)]`, from the ids after those already `seen`.
unfoldable pub distinct_from : List String → List String → List String
distinct_from seen [] = []
distinct_from seen (i ∷ is) =
    let rest = distinct_from seen is in
    let grown = distinct_from (i ∷ seen) is in if has_text i seen then rest else i ∷ grown

abbrev pub union_of : QueryAnswer → QueryAnswer → QueryAnswer → Option (List String)
union_of (rows a) (rows b) (rows c) = some (distinct_from [] (a ++ b ++ c))
union_of _ _ _ = none

-- `none`: a query failed, and so does the sweep.
unfoldable pub candidate_ids : QueryAnswer → QueryAnswer → QueryAnswer → Option (List String)
candidate_ids schedulable recently_closed projected_active =
    union_of schedulable recently_closed (projected projected_active)

pub record PrRef : Type 0 where
  pub owner : Text
  pub repo : Text
  pub number : ℕ

abbrev pub is_name_char : ℕ → Bool
is_name_char c =
    (leb b'A' c && leb c b'Z')
    || ((leb b'a' c && leb c b'z') || (is_digit c || (c == b'_' || (c == b'.' || c == b'-'))))

-- The longest run of name characters, and what follows it.
unfoldable pub span_name : Text → Text × Text
span_name [] = ([], [])
span_name (c ∷ cs) =
    let rest = span_name cs in if is_name_char c then (c ∷ rest.0, rest.1) else ([], c ∷ cs)

-- A number without a leading zero, up to the end.
unfoldable pub parse_number : Text → Option ℕ
parse_number [] = none
parse_number (c ∷ cs) = if is_digit c && not (c == b'0') then digits_from (c - b'0') cs else none

abbrev pub with_number : Text → Text → Option ℕ → Option PrRef
with_number owner repo none = none
with_number owner repo (some n) = some (record { owner = owner; repo = repo; number = n })

abbrev pub after_repo : Text → Text × Text → Option PrRef
after_repo owner (c ∷ cs, d ∷ ds) =
    if d == b'#' then with_number owner (c ∷ cs) (parse_number ds) else none
after_repo owner _ = none

abbrev pub after_owner : Text × Text → Option PrRef
after_owner (c ∷ cs, d ∷ ds) = if d == b'/' then after_repo (c ∷ cs) (span_name ds) else none
after_owner _ = none

-- The expression is matched on the trimmed text. Its names end at the first other character,
-- which has to be the separator.
unfoldable pub match_pr : Text → Option PrRef
unfolding span_name parse_number digits_from
match_pr cs = after_owner (span_name cs)

unfoldable pub parse_pr_referent : String → Option PrRef
unfolding match_pr trim
parse_pr_referent id = match_pr (trim (codes id))

pub data ReapPlan : Type 0 where
  not_live no_referent : ReapPlan
  unrecognized_kind : String → ReapPlan
  malformed_referent : String → ReapPlan
  probe_pr : PrRef → ℕ → LeaseReferent → ReapPlan

abbrev pub plan_pr : LeaseStatus → LeaseReferent → Option PrRef → ReapPlan
plan_pr status r none = malformed_referent r.id
plan_pr status r (some pr) = probe_pr pr status.fencing r

abbrev pub plan_referent : LeaseStatus → Option LeaseReferent → ReapPlan
plan_referent status none = no_referent
plan_referent status (some r) =
    if not (r.kind =ₛ "pr")
    then unrecognized_kind r.kind
    else plan_pr status r (parse_pr_referent r.id)

unfoldable pub plan_reap : LeaseStatus → ReapPlan
plan_reap status = if not status.live then not_live else plan_referent status status.referent

pub data PrState : Type 0 where
  open_ closed : PrState

pub record PrProbe : Type 0 where
  pub pr_http_status : ℕ
  pub state : Option PrState
  pub merged : Option Bool
  pub repo_http_status : Option ℕ

pub data ReapVerdict : Type 0 where
  merged closed gone : ReapVerdict
  alive unobservable : ReapVerdict

abbrev pub collect : ReapVerdict → Bool
collect alive = false
collect unobservable = false
collect _ = true

abbrev pub closed_verdict : Option Bool → ReapVerdict
closed_verdict (some true) = ReapVerdict.merged
closed_verdict _ = ReapVerdict.closed

abbrev pub state_verdict : Option PrState → Option Bool → ReapVerdict
state_verdict (some PrState.closed) m = closed_verdict m
state_verdict (some open_) m = alive
state_verdict none m = unobservable

abbrev pub is_status : ℕ → Option ℕ → Bool
is_status n none = false
is_status n (some m) = m == n

unfoldable pub verdict_from_pr_probe : PrProbe → ReapVerdict
verdict_from_pr_probe p =
    if p.pr_http_status == 200
    then state_verdict p.state p.merged
    else if p.pr_http_status == 404
    then (if is_status 200 p.repo_http_status then gone else unobservable)
    else unobservable

pub record Skipped : Type 0 where
  pub not_live : ℕ
  pub no_referent : ℕ
  pub unrecognized_kind : ℕ
  pub malformed_referent : ℕ
  pub alive : ℕ
  pub unobservable : ℕ

pub record SweepReport : Type 0 where
  pub candidates : ℕ
  pub polled : ℕ
  pub live : ℕ
  pub reaped : ℕ
  pub refused : ℕ
  pub skipped : Skipped
  pub failures : ℕ

abbrev pub empty_report : SweepReport
empty_report = record {
  candidates = 0;
  polled = 0;
  live = 0;
  reaped = 0;
  refused = 0;
  skipped = record {
    not_live = 0;
    no_referent = 0;
    unrecognized_kind = 0;
    malformed_referent = 0;
    alive = 0;
    unobservable = 0;
  };
  failures = 0;
}
