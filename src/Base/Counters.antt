-- ===== src/Base/Counters.antt =====
-- Maps from texts to counts, and sets of texts.
use Prim.Native.Nat.{ℕ, ◌+◌}
use Prim.Native.String.{String}
use mathlib.Core.Path.{◌≡◌}
use mathlib.Core.Bool.{Bool}
use mathlib.Core.List.{List, [], ◌∷◌}
use native.Mathlib.Omega.{arith}
use front_desk_scheduler.Base.Tests.{◌=ₛ◌, =ₛ_iff, if◌then◌else◌}
use front_desk_scheduler.Base.Lists.{any}

abbrev pub Counts : Type 0
Counts = List (String × ℕ)

-- `m.get(k) ?? 0`.
unfoldable pub count_of : String → Counts → ℕ
count_of k [] = 0
count_of k ((j, n) ∷ m) = if j =ₛ k then n else count_of k m

-- `m.set(k, (m.get(k) ?? 0) + 1)`.
unfoldable pub bump : String → Counts → Counts
bump k [] = (k, 1) ∷ []
bump k ((j, n) ∷ m) = if j =ₛ k then (j, n + 1) ∷ m else (j, n) ∷ bump k m

pub count_of-bump :
    (k j : String) (m : Counts) → count_of j (bump k m) ≡ (if k =ₛ j then 1 else 0) + count_of j m
unfolding count_of bump
count_of-bump k j [] = ground (arith, =ₛ_iff k j)
count_of-bump k j ((i, n) ∷ m) =
    ground (arith, count_of-bump k j m, =ₛ_iff i k, =ₛ_iff i j, =ₛ_iff k j)

-- Membership in a set of texts.
unfoldable pub has_text : String → List String → Bool
has_text k = any (λ j. j =ₛ k)
