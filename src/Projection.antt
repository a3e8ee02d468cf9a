-- ===== src/Projection.antt =====
-- src/lease-projection.ts: the watermark of the grant history already projected, and the plan of
-- one batch. The SQL of an upsert is the values it writes.
pub mod Marks
pub mod Plan
use Prim.Native.Nat.{compare, Ordering}
use front_desk_scheduler.Base.{
  ℕ, ◌+◌, ◌/◌, String, Bool, true, false, ◌||◌, not, Option, none, some, List, [], ◌∷◌, filterb,
  ltb, leb, every, ◌&&◌, ◌==◌, ◌=ₛ◌, if◌then◌else◌, codes, length, has_text, sort_by, ite,
}
use front_desk_scheduler.Lease.{LeaseReferent, LeaseHistoryRecord, Instant}

-- `fencing` is `Number(r.fencing)`; `none` when that is not finite.
pub record ProjectedRowMark : Type 0 where
  pub item_id : String
  pub fencing : Option ℕ
  pub status : String

-- A mark: the number `m`, or the number one below `m`.
pub data Mark : Type 0 where
  at below : ℕ → Mark

-- The fencing is strictly above the mark.
unfoldable pub is_above : ℕ → Mark → Bool
is_above f (at m) = ltb m f
is_above f (below m) = not (ltb f m)

module _ {ℓ} {A : Type ℓ} where
  -- A map, as the list of its entries: each key stands in it once.
  unfoldable pub lookup : String → List (String × A) → Option A
  lookup k [] = none
  lookup k ((j, a) ∷ m) = if j =ₛ k then some a else lookup k m

  unfoldable pub put : String → A → List (String × A) → List (String × A)
  put k a [] = (k, a) ∷ []
  put k a ((j, b) ∷ m) = if j =ₛ k then (j, a) ∷ m else (j, b) ∷ put k a m

abbrev pub at_most : Option ℕ → ℕ → ℕ
at_most none f = f
at_most (some o) f = if ltb f o then f else o

abbrev pub at_least : Option ℕ → ℕ → ℕ
at_least none f = f
at_least (some o) f = if ltb o f then f else o

-- The two maps that the loop fills: `marks` and `openMin`.
pub record Marking : Type 0 where
  pub marks : List (String × ℕ)
  pub open_min : List (String × ℕ)

-- What the loop does with a row, whose fencing is `f`.
abbrev pub mark_fencing : ProjectedRowMark → Option ℕ → Marking → Marking
mark_fencing r none m = m
mark_fencing r (some f) m = record {
  marks = put r.item_id (at_least (lookup r.item_id m.marks) f) m.marks;
  open_min =
      if r.status =ₛ "active"
      then put r.item_id (at_most (lookup r.item_id m.open_min) f) m.open_min
      else m.open_min;
}

unfoldable pub mark_row : ProjectedRowMark → Marking → Marking
mark_row r m = mark_fencing r r.fencing m

unfoldable pub mark_rows : List ProjectedRowMark → Marking → Marking
mark_rows [] m = m
mark_rows (r ∷ rs) m = mark_rows rs (mark_row r m)

-- The last loop, over the entries of `openMin`, whose keys are distinct.
unfoldable pub reopen : List (String × ℕ) → List (String × Mark) → List (String × Mark)
reopen [] marks = marks
reopen ((k, n) ∷ open_min) marks = put k (below n) (reopen open_min marks)

unfoldable pub closed_marks : List (String × ℕ) → List (String × Mark)
closed_marks [] = []
closed_marks ((k, n) ∷ m) = (k, at n) ∷ closed_marks m

abbrev pub no_marks : Marking
no_marks = record { marks = []; open_min = [] }

unfoldable pub watermarks : List ProjectedRowMark → List (String × Mark)
watermarks rows = let m = mark_rows rows no_marks in reopen m.open_min (closed_marks m.marks)

pub data ProjectionError : Type 0 where
  bad_fencing unknown_status no_agent unusable_times bad_referent long_referent control_character :
      ProjectionError

-- The columns of one `INSERT … ON DUPLICATE KEY UPDATE`, whose two halves write the same values.
pub record Upsert : Type 0 where
  pub item_id : String
  pub agent : String
  pub fencing : ℕ
  pub decided_at_commit : Option String
  pub claimed_at_sec : ℕ
  pub ttl_sec : ℕ
  pub released_at_sec : Option ℕ
  pub status : String
  pub referent : Option LeaseReferent

pub data Planned {ℓ} (A : Type ℓ) : Type ℓ where
  rejected : ProjectionError → Planned A
  accepted : A → Planned A

abbrev pub statuses : List String
statuses = "active" ∷ "released" ∷ "completed" ∷ "expired" ∷ "reaped" ∷ []

-- What `sqlLit` (src/attest.ts) accepts: a text without control characters.
unfoldable pub is_clean : String → Bool
is_clean s = every (λ c. not (leb c 31) && not (c == 127)) (codes s)

abbrev pub is_clean_option : Option String → Bool
is_clean_option none = true
is_clean_option (some s) = is_clean s

-- The length of `kind:id`, counted in code points.
abbrev pub rendered_length : LeaseReferent → ℕ
rendered_length r = length (codes r.kind) + 1 + length (codes r.id)

unfoldable pub referent_sql : Option LeaseReferent → Planned (Option LeaseReferent)
referent_sql none = accepted none
referent_sql (some r) =
    if (r.kind =ₛ "") || (r.id =ₛ "")
    then rejected bad_referent
    else if ltb 255 (rendered_length r)
    then rejected long_referent
    else if is_clean r.kind && is_clean r.id
    then accepted (some r)
    else rejected control_character

-- `r.releasedAt ?? (status === "expired" ? r.expiresAt : null)`.
abbrev pub released_ms : LeaseHistoryRecord → Option Instant
released_ms r = elim r.released_at [
  | some t ↦ some t
  | none ↦ if r.effective_status =ₛ "expired" then some r.expires_at else none
]

-- `msToDatetime` on a time that is there; one that is not finite is refused. Times past the last
-- date that `Date` holds are not among those that the plane records.
abbrev pub datetime : Option Instant → Planned (Option ℕ)
datetime none = accepted none
datetime (some none) = rejected unusable_times
datetime (some (some ms)) = accepted (some (ms / 1000))

abbrev pub upsert_at :
    String
    → LeaseHistoryRecord
    → ℕ
    → ℕ
    → Planned (Option ℕ)
    → Planned (Option LeaseReferent)
    → Planned Upsert
upsert_at item r granted ttl (rejected e) q = rejected e
upsert_at item r granted ttl (accepted released) (rejected e) = rejected e
upsert_at item r granted ttl (accepted released) (accepted referent) = accepted (record {
  item_id = item;
  agent = r.agent;
  fencing = r.fencing;
  decided_at_commit = r.decided_at_commit;
  claimed_at_sec = granted / 1000;
  ttl_sec = ttl;
  released_at_sec = released;
  status = r.effective_status;
  referent = referent;
})

abbrev pub upsert_times : String → LeaseHistoryRecord → Instant → Instant → Planned Upsert
upsert_times item r (some granted) (some ttl) =
    if not (is_clean item && (is_clean r.agent && is_clean_option r.decided_at_commit))
    then rejected control_character
    else upsert_at item r granted ttl (datetime (released_ms r)) (referent_sql r.referent)
upsert_times item r _ _ = rejected unusable_times

unfoldable pub projection_upsert_sql : String → LeaseHistoryRecord → Planned Upsert
projection_upsert_sql item r =
    if r.fencing == 0
    then rejected bad_fencing
    else if not (has_text r.effective_status statuses)
    then rejected unknown_status
    else if r.agent =ₛ ""
    then rejected no_agent
    else upsert_times item r r.granted_at r.ttl_sec

-- The map over the records stops at the first one refused.
unfoldable pub upserts : String → List LeaseHistoryRecord → Planned (List Upsert)
upserts item [] = accepted []
upserts item (r ∷ rs) =
    let rest = upserts item rs in
    elim (projection_upsert_sql item r) [
      | rejected e ↦ rejected e
      | accepted u ↦ elim rest [ rejected e ↦ rejected e | accepted us ↦ accepted (u ∷ us) ]
    ]

abbrev pub by_fencing : LeaseHistoryRecord → LeaseHistoryRecord → Ordering
by_fencing a b = compare a.fencing b.fencing

unfoldable pub plan_projection : String → List LeaseHistoryRecord → Mark → Planned (List Upsert)
plan_projection item records watermark =
    upserts item (sort_by by_fencing (filterb (λ r. is_above r.fencing watermark) records))
