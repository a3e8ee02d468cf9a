-- ===== src/Lanes.antt =====
-- src/lane-watch.ts: how often a lane's schedule fires, and what its runs say of it. Times are
-- whole milliseconds; `now - tolerance * 1000 <= at` is written `now <= at + tolerance * 1000`.
pub mod Fields
pub mod States
use front_desk_scheduler.Base.{
  ℕ, zero, suc, ◌+◌, ◌-◌, ◌*◌, ◌/◌, min, String, Bool, true, false, ◌&&◌, ◌||◌, not, Option, none,
  some, List, [], ◌∷◌, ◌++◌, length, filterb, any, ltb, leb, ◌==◌, ◌=ₛ◌, if◌then◌else◌, Text, codes,
  split_on, is_space, trim, to_number,
}
use front_desk_scheduler.Lease.{Instant}

-- `for (let v = lo; v <= hi; v += step)`, with fuel for the passes of the loop.
unfoldable pub values_from : ℕ → ℕ → ℕ → ℕ → List ℕ
values_from zero v hi step = []
values_from (suc fuel) v hi step =
    let rest = values_from fuel (v + step) hi step in if leb v hi then v ∷ rest else []

-- A step is at least 1, so each pass that adds a value leaves at most `hi - lo` more.
unfoldable pub values : ℕ → ℕ → ℕ → List ℕ
unfolding values_from
values lo hi step = values_from (suc (hi - lo)) lo hi step

-- The bounds of a part: its text before the slash, and whether a step follows. `none` is thrown.
abbrev pub both : Option ℕ → Option ℕ → Option (ℕ × ℕ)
both (some a) (some b) = some (a, b)
both _ _ = none

abbrev pub range_of : List Text → Bool → ℕ → ℕ → Option (ℕ × ℕ)
range_of (a ∷ b ∷ []) stepped lowest highest = both (to_number a) (to_number b)
range_of (a ∷ []) stepped lowest highest = elim (to_number a) [
  | none ↦ none
  | some v ↦ some (v, if stepped then highest else v)
]
range_of _ stepped lowest highest = none

abbrev pub is_star : Text → Bool
is_star (c ∷ []) = c == b'*'
is_star _ = false

unfoldable pub bounds_of : Text → Bool → ℕ → ℕ → Option (ℕ × ℕ)
unfolding split_on to_number
bounds_of range stepped lowest highest =
    if is_star range
    then some (lowest, highest)
    else range_of (split_on b'-' range) stepped lowest highest

abbrev pub in_bounds : ℕ → ℕ → ℕ → Option (ℕ × ℕ) → Option (List ℕ)
in_bounds lowest highest step none = none
in_bounds lowest highest step (some (lo, hi)) =
    if ltb lo lowest || (ltb highest hi || ltb hi lo) then none else some (values lo hi step)

abbrev pub with_step : Text → Bool → Option ℕ → ℕ → ℕ → Option (List ℕ)
with_step range stepped none lowest highest = none
with_step range stepped (some step) lowest highest =
    if step == 0
    then none
    else in_bounds lowest highest step (bounds_of range stepped lowest highest)

-- `const [range, stepRaw] = part.split("/")`.
unfoldable pub expand_part : List Text → ℕ → ℕ → Option (List ℕ)
unfolding bounds_of values to_number
expand_part [] lowest highest = none
expand_part (range ∷ []) lowest highest = with_step range false (some 1) lowest highest
expand_part (range ∷ step ∷ _) lowest highest = with_step range true (to_number step) lowest highest

abbrev pub append_values : Option (List ℕ) → Option (List ℕ) → Option (List ℕ)
append_values (some vs) (some ws) = some (vs ++ ws)
append_values _ _ = none

unfoldable pub expand_parts : List Text → ℕ → ℕ → Option (List ℕ)
unfolding expand_part split_on
expand_parts [] lowest highest = some []
expand_parts (p ∷ ps) lowest highest =
    append_values (expand_part (split_on b'/' p) lowest highest) (expand_parts ps lowest highest)

-- The set of values, as a list; `none` is a thrown RangeError.
unfoldable pub expand_field : Text → ℕ → ℕ → Option (List ℕ)
unfolding expand_parts split_on
expand_field field lowest highest = expand_parts (split_on b',' field) lowest highest

pub record CronSets : Type 0 where
  pub minute : List ℕ
  pub hour : List ℕ
  pub dom : List ℕ
  pub month : List ℕ
  pub dow : List ℕ
  pub dom_restricted : Bool
  pub dow_restricted : Bool

-- `split(/\s+/)` of a trimmed text: its words.
abbrev push_char : ℕ → List Text → List Text
push_char c [] = (c ∷ []) ∷ []
push_char c (w ∷ ws) = (c ∷ w) ∷ ws

abbrev drop_empty : List Text → List Text
drop_empty ([] ∷ ws) = ws
drop_empty ws = ws

unfoldable pub split_spaces : Text → List Text
unfolding is_space
split_spaces [] = [] ∷ []
split_spaces (c ∷ cs) =
    let rest = split_spaces cs in if is_space c then [] ∷ drop_empty rest else push_char c rest

abbrev pub cron_of :
    Option (List ℕ)
    → Option (List ℕ)
    → Option (List ℕ)
    → Option (List ℕ)
    → Option (List ℕ)
    → Bool
    → Bool
    → Option CronSets
cron_of (some minute) (some hour) (some dom) (some month) (some dow) dom_restricted dow_restricted =
    some (record {
      minute = minute;
      hour = hour;
      dom = dom;
      month = month;
      dow = dow;
      dom_restricted = dom_restricted;
      dow_restricted = dow_restricted;
    })
cron_of _ _ _ _ _ dom_restricted dow_restricted = none

abbrev pub cron_fields : List Text → Option CronSets
cron_fields (f0 ∷ f1 ∷ f2 ∷ f3 ∷ f4 ∷ []) =
    cron_of (expand_field f0 0 59) (expand_field f1 0 23) (expand_field f2 1 31)
      (expand_field f3 1 12) (expand_field f4 0 6) (not (is_star f2)) (not (is_star f4))
cron_fields _ = none

unfoldable pub parse_cron : String → Option CronSets
unfolding expand_field split_spaces trim
parse_cron cron = cron_fields (split_spaces (trim (codes cron)))

-- The parts of a date that `fires` reads, in UTC; months count from 1.
pub record DateParts : Type 0 where
  pub minute : ℕ
  pub hour : ℕ
  pub month : ℕ
  pub day : ℕ
  pub weekday : ℕ

unfoldable pub holds : List ℕ → ℕ → Bool
holds set v = any (λ w. w == v) set

unfoldable pub fires : CronSets → DateParts → Bool
unfolding holds
fires c d =
    if not (holds c.minute d.minute)
    then false
    else if not (holds c.hour d.hour)
    then false
    else if not (holds c.month d.month)
    then false
    else if c.dom_restricted && c.dow_restricted
    then holds c.dom d.day || holds c.dow d.weekday
    else if c.dom_restricted
    then holds c.dom d.day
    else if c.dow_restricted
    then holds c.dow d.weekday
    else true

abbrev pub period_multiplier : ℕ
period_multiplier = 4

abbrev pub tolerance_floor_sec : ℕ
tolerance_floor_sec = 3600

abbrev pub tolerance_cap_sec : ℕ
tolerance_cap_sec = 10 * 86400

abbrev pub min_failure_sample : ℕ
min_failure_sample = 3

unfoldable pub tolerance_sec : ℕ → ℕ
tolerance_sec period_sec =
    min tolerance_cap_sec (period_sec * period_multiplier + tolerance_floor_sec)

pub record LaneRun : Type 0 where
  pub conclusion : String
  pub at_ms : Instant

pub record LaneObservation : Type 0 where
  pub last_success_ms : Option Instant
  pub recent : List LaneRun
  pub unknown : Option String

pub data UnknownReason : Type 0 where
  unobserved : String → UnknownReason
  no_completed_runs unparseable_timestamp : UnknownReason

pub data LaneState : Type 0 where
  live : ℕ → LaneState
  flapping : ℕ → ℕ → ℕ → LaneState
  silent : ℕ → ℕ → LaneState
  never : ℕ → ℕ → LaneState
  unknown : UnknownReason → LaneState

abbrev pub is_countable : LaneRun → Bool
is_countable r = not (r.conclusion =ₛ "skipped") && not (r.conclusion =ₛ "cancelled")

abbrev pub is_failed : LaneRun → Bool
is_failed r = not (r.conclusion =ₛ "success")

abbrev pub is_recent : ℕ → ℕ → Instant → Bool
is_recent now tolerance none = false
is_recent now tolerance (some t) = leb now (t + tolerance * 1000)

unfoldable pub countable : List LaneRun → List LaneRun
countable = filterb is_countable

unfoldable pub in_window : LaneObservation → ℕ → ℕ → List LaneRun
in_window obs now tolerance = filterb (λ r. is_recent now tolerance r.at_ms) obs.recent

unfoldable pub failures : List LaneRun → ℕ
failures runs = length (filterb is_failed runs)

-- `failed / of > 0.5` is `2 * failed > of`.
abbrev pub classify_age : List LaneRun → ℕ → ℕ → LaneState
classify_age runs age_sec tolerance =
    let failed = failures runs in
    let of = length runs in
    if ltb tolerance age_sec
    then silent age_sec tolerance
    else if leb min_failure_sample of && ltb of (2 * failed)
    then flapping age_sec failed of
    else live age_sec

abbrev pub classify_success : LaneObservation → ℕ → ℕ → Option Instant → LaneState
classify_success obs now tolerance none =
    let runs = countable obs.recent in
    if length runs == 0 then unknown no_completed_runs else never (failures runs) (length runs)
classify_success obs now tolerance (some none) = unknown unparseable_timestamp
classify_success obs now tolerance (some (some t)) =
    classify_age (countable (in_window obs now tolerance)) ((now - t) / 1000) tolerance

abbrev pub classify_observed : LaneObservation → ℕ → ℕ → Option String → LaneState
classify_observed obs now tolerance (some why) = unknown (unobserved why)
classify_observed obs now tolerance none = classify_success obs now tolerance obs.last_success_ms

unfoldable pub classify_lane : LaneObservation → ℕ → ℕ → LaneState
unfolding countable in_window failures
classify_lane obs now tolerance = classify_observed obs now tolerance obs.unknown

abbrev pub is_red : LaneState → Bool
is_red (live a) = false
is_red (unknown w) = false
is_red _ = true
