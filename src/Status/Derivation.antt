-- ===== src/Status/Derivation.antt =====
-- What `deriveStatus` (src/status.ts) decides.
use front_desk_scheduler.Base.{◌<◌, ◌≡◌, ◌↔◌, true, false, none, some, ◌⊎◌, ◌=ₛ◌, arith}
use front_desk_scheduler.Status.{
  Status, in_progress, blocked, done, DerivationInput, is_truthy, derive_status,
}

-- The row has no second authority, or its lease is unreadable and may be what the card says.
abbrev pub IsUnderivable : DerivationInput → Type 0
IsUnderivable i =
    ((i.origin =ₛ "github") ≡ false)
    ⊎ ((is_truthy i.closed_at ≡ false)
        × (i.open_blockers ≡ 0)
        × (i.lease_held ≡ none)
        × (i.current ≡ in_progress))

-- Each answer is given exactly under its condition: of a row from GitHub, closed outranks blocked,
-- blocked outranks held, and held outranks the rest.
pub derive_status_iff :
    (i : DerivationInput)
    → ((derive_status i ≡ some done)
        ↔ (((i.origin =ₛ "github") ≡ true) × (is_truthy i.closed_at ≡ true)))
      × ((derive_status i ≡ some blocked) ↔ (
          ((i.origin =ₛ "github") ≡ true)
          × (is_truthy i.closed_at ≡ false)
          × (0 < i.open_blockers)))
      × ((derive_status i ≡ some in_progress) ↔ (
          ((i.origin =ₛ "github") ≡ true)
          × (is_truthy i.closed_at ≡ false)
          × (i.open_blockers ≡ 0)
          × (i.lease_held ≡ some true)))
      × ((derive_status i ≡ none) ↔ IsUnderivable i)
unfolding derive_status
derive_status_iff i = (
  ((λ e. ground arith), (λ e. ground arith)),
  ((λ e. ground arith), (λ e. ground arith)),
  ((λ e. ground arith), (λ e. ground arith)),
  ((λ e. ground arith), (λ e. ground arith)),
)

-- A card that was set to its derived status derives the same status again.
pub derive_status-stable :
    (i : DerivationInput) (s : Status)
    → derive_status i ≡ some s
    → derive_status (record i { current = s }) ≡ some s
unfolding derive_status
derive_status-stable i s e = ground arith
