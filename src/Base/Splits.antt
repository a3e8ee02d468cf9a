-- ===== src/Base/Splits.antt =====
-- Texts without white space are not trimmed, and texts are split where the separator stands.
use mathlib.Core.Path.{◌≡◌, refl, ap, ◌∙◌}
use mathlib.Core.Bool.{true, false}
use mathlib.Core.List.{[], ◌∷◌, ◌++◌, reverse, reverse-cons, reverse-reverse}
use front_desk_scheduler.Base.Tests.{◌==◌}
use front_desk_scheduler.Base.Lists.{All, append-All}
use front_desk_scheduler.Base.Texts.{Text, is_space, trim_start, trim, split_on}
use Prim.Native.Nat.{ℕ}
use native.Mathlib.Omega.{arith}

abbrev pub IsSolid : Text → Type 0
IsSolid = All (λ c. is_space c ≡ false)

reverse-IsSolid : (t : Text) → IsSolid t → IsSolid (reverse t)
reverse-IsSolid [] h = tt
reverse-IsSolid (c ∷ t) h =
    rw (reverse-cons c t) (append-All _ (reverse t) (c ∷ []) (reverse-IsSolid t h.1) (h.0, tt))

trim_start-IsSolid : (t : Text) → IsSolid t → trim_start t ≡ t
unfolding trim_start
trim_start-IsSolid [] h = refl
trim_start-IsSolid (c ∷ t) h = rw h.0 refl

pub trim-IsSolid : (t : Text) → IsSolid t → trim t ≡ t
unfolding trim
trim-IsSolid t h =
    ap (λ x. reverse (trim_start (reverse x))) (trim_start-IsSolid t h)
    ∙ ap reverse (trim_start-IsSolid (reverse t) (reverse-IsSolid t h))
    ∙ reverse-reverse t

abbrev pub IsWithout : ℕ → Text → Type 0
IsWithout sep = All (λ c. (c == sep) ≡ false)

pub split_on-none : (sep : ℕ) (t : Text) → IsWithout sep t → split_on sep t ≡ t ∷ []
unfolding split_on
split_on-none sep [] h = refl
split_on-none sep (c ∷ t) h = rw (h.0, split_on-none sep t h.1) refl

pub split_on-at :
    (sep : ℕ) (s t : Text) → IsWithout sep s → split_on sep (s ++ (sep ∷ t)) ≡ s ∷ split_on sep t
unfolding split_on
split_on-at sep [] t h = let e : (sep == sep) ≡ true = ground arith in rw e refl
split_on-at sep (c ∷ s) t h = rw (h.0, split_on-at sep s t h.1) refl
