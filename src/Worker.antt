-- ===== src/Worker.antt =====
-- worker/lease/src/lease-core.mjs: the state of one item's lease and what a request carries. A time
-- to live is an exact fraction of seconds, and its product with 1000 is exact; `none` stands for a
-- value of another type, and for a number that is negative or not finite. Lengths count code points.
pub mod Auth
pub mod Decide
pub mod Gate
pub mod History
pub mod Identity
pub mod Names
pub mod Object
pub mod Outcome
pub mod Router
pub mod Slot
pub mod Reads
pub mod Tokens
pub mod Tracking
use front_desk_scheduler.Base.{
  ℕ, ◌+◌, ◌*◌, ◌/◌, ◌<◌, String, Bool, true, false, ◌&&◌, ◌||◌, not, Option, none, some, List, [],
  ◌∷◌, length, ltb, ◌==◌, ◌=ₛ◌, if◌then◌else◌, Text, codes, trim, Result, ok, err, ◌>>=◌,
}

pub record Referent : Type 0 where
  pub kind : Text
  pub id : Text

pub record LeaseState : Type 0 where
  pub holder : Option String
  pub expires_at : Option ℕ
  pub fencing : ℕ
  pub referent : Option Referent

abbrev pub empty_state : LeaseState
empty_state = record { holder = none; expires_at = none; fencing = 0; referent = none }

abbrev pub before_expiry : ℕ → Option ℕ → Bool
before_expiry now none = false
before_expiry now (some t) = ltb now t

abbrev pub is_held : Option String → Bool
is_held none = false
is_held (some a) = true

unfoldable pub is_live : LeaseState → ℕ → Bool
is_live s now = is_held s.holder && before_expiry now s.expires_at

-- A `TypeError` and a `RangeError`, by what they complain about.
pub data Fault : Type 0 where
  bad_agent bad_ttl bad_referent bad_status : Fault

-- A number of seconds that is not negative: `parts` of which `per + 1` are a second.
pub record Seconds : Type 0 where
  pub parts : ℕ
  pub per : ℕ

unfoldable pub ttl_ms : Option Seconds → Result Fault ℕ
ttl_ms none = err bad_ttl
ttl_ms (some ttl) = if ttl.parts == 0 then err bad_ttl else ok (ttl.parts * 1000 / (ttl.per + 1))

-- A referent as the body has it: `none` is no object, or a field that is no string.
pub record RawReferent : Type 0 where
  pub kind : Option String
  pub id : Option String

abbrev pub is_blank : Text → Bool
is_blank [] = true
is_blank _ = false

-- A field that is a string, not blank, and no longer than `most` code points.
unfoldable pub read_field : ℕ → Option String → Result Fault Text
unfolding trim
read_field most none = err bad_referent
read_field most (some s) =
    if is_blank (trim (codes s)) || ltb most (length (codes s))
    then err bad_referent
    else ok (trim (codes s))

unfoldable pub validate_referent : Option RawReferent → Result Fault Referent
validate_referent none = err bad_referent
validate_referent (some v) = do
  kind ← read_field 32 v.kind
  id ← read_field 256 v.id
  ok (record { kind = kind; id = id })

-- What a POST body holds of the fields that the operations read.
pub record Body : Type 0 where
  pub agent : Option String
  pub ttl_sec : Option Seconds
  pub decided_at_commit : Option String
  pub fencing : Option ℕ
  pub referent : Option RawReferent
  pub status : Option String
