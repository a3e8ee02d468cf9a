-- ===== src/Held.antt =====
-- src/held.ts: which of a window of candidates are held right now, asked of the lease plane.
pub mod Exclusion
use front_desk_scheduler.Base.{
  ℕ, zero, suc, ◌+◌, String, Bool, true, false, ◌||◌, not, Option, none, some, List, [], ◌∷◌,
  length, ◌==◌, ◌=ₛ◌, if◌then◌else◌,
}
use front_desk_scheduler.Lease.{LeaseReferent}

pub record HeldCheck : Type 0 where
  pub item_id : String
  pub holder : Option String
  pub referent : Option LeaseReferent

-- `held` is a map with the item ids as its keys: its entries in the order of their first writing.
pub record LiveExclusion : Type 0 where
  pub held : List HeldCheck
  pub checked : ℕ
  pub unobserved : ℕ
  pub configured : Bool

abbrev pub no_exclusion : LiveExclusion
no_exclusion = record { held = []; checked = 0; unobserved = 0; configured = false }

pub record ProbeAnswer : Type 0 where
  pub holder : Option String
  pub live : Bool
  pub referent : Option LeaseReferent

-- `none`: the probe was rejected.
abbrev pub StatusProbe : Type 0
StatusProbe = String → Option ProbeAnswer

unfoldable pub set_held : HeldCheck → List HeldCheck → List HeldCheck
set_held c [] = c ∷ []
set_held c (h ∷ hs) = if h.item_id =ₛ c.item_id then c ∷ hs else h ∷ set_held c hs

-- The loop's body, for an item whose probe settled as it did.
abbrev pub note_answer : String → Option ProbeAnswer → LiveExclusion → LiveExclusion
note_answer id none x = record x { unobserved = x.unobserved + 1 }
note_answer id (some a) x =
    if a.live
    then record x {
      held = set_held (record { item_id = id; holder = a.holder; referent = a.referent }) x.held;
    }
    else x

unfoldable pub note_answers : StatusProbe → List String → LiveExclusion → LiveExclusion
note_answers ask [] x = x
note_answers ask (id ∷ ids) x = note_answers ask ids (note_answer id (ask id) x)

-- `probe` is the injected one; `endpoint` the probe of the configured lease plane, if there is one.
abbrev pub asked_by : Option StatusProbe → Option StatusProbe → Option StatusProbe
asked_by (some p) endpoint = some p
asked_by none endpoint = endpoint

-- Before the answers are read.
abbrev pub probed : ℕ → LiveExclusion
probed n = record no_exclusion { checked = n; configured = true }

abbrev pub verify_by : List String → Option StatusProbe → LiveExclusion
verify_by ids none = no_exclusion
verify_by ids (some ask) =
    if length ids == 0
    then record no_exclusion { configured = true }
    else note_answers ask ids (probed (length ids))

unfoldable pub verify_held : List String → Option StatusProbe → Option StatusProbe → LiveExclusion
verify_held ids probe endpoint = verify_by ids (asked_by probe endpoint)
