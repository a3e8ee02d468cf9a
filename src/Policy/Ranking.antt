-- ===== src/Policy/Ranking.antt =====
-- What `prioritize` (src/policy.ts) promises: a sorted ranking of the items it was given, in which
-- the marked items fill the budget greedily from the top.
use Prim.Native.Nat.{Ordering}
use mathlib.Core.List.{Perm}
use mathlib.Core.List.Perm
use front_desk_scheduler.Base.{
  ℕ, ◌+◌, ◌-◌, ◌≤◌, ◌<◌, ◌≡◌, ◌⊎◌, refl, subst, ap, true, false, ◌&&◌, List, [], ◌∷◌, map, arith,
  leb, if◌then◌else◌, All, sort_by, sort_by-perm, sort_by-IsSortedBy, IsSortedBy, IsConsistent,
  Before,
}
use front_desk_scheduler.Number.{Double, IsOrdered}
use front_desk_scheduler.Policy.{PriorityInput, is_eligible}
use front_desk_scheduler.Policy.Score.{
  ScoreWeights, RankedItem, Scored, compare_scored, rank_from, scored, prioritize,
}

module _ (d : Double) where
  abbrev pub inputs : List (RankedItem d) → List PriorityInput
  inputs = map (λ r. r.input)

  abbrev pub as_scored : RankedItem d → Scored d
  as_scored r = record { item = r.input; s = r.score }

  -- The effort of the items that a ranking marks as fitting.
  abbrev pub fitting_effort : List (RankedItem d) → ℕ
  fitting_effort [] = 0
  fitting_effort (r ∷ rs) = (if r.fits_remaining then r.input.effort else 0) + fitting_effort rs

  -- What is left of the budget `n` after `x` was ranked.
  abbrev next_budget : ℕ → Scored d → ℕ
  next_budget n x = if is_eligible x.item && leb x.item.effort n then n - x.item.effort else n

  inputs-rank_from :
      (n : ℕ) (xs : List (Scored d)) → inputs (rank_from d n xs) ≡ map (λ x. x.item) xs
  unfolding rank_from
  inputs-rank_from n [] = refl
  inputs-rank_from n (x ∷ xs) = ap (◌∷◌ x.item) (inputs-rank_from (next_budget n x) xs)

  scored-rank_from : (n : ℕ) (xs : List (Scored d)) → map as_scored (rank_from d n xs) ≡ xs
  unfolding rank_from
  scored-rank_from n [] = refl
  scored-rank_from n (x ∷ xs) = ap (◌∷◌ x) (scored-rank_from (next_budget n x) xs)

  items-scored :
      (items : List PriorityInput) (w : ScoreWeights d)
      → map (λ x. x.item) (scored d items w) ≡ items
  unfolding scored
  items-scored [] w = refl
  items-scored (i ∷ items) w = ap (◌∷◌ i) (items-scored items w)

  -- The ranking holds exactly the items it was given, each as often as it was given.
  pub prioritize-perm :
      (items : List PriorityInput) (remaining : ℕ) (w : ScoreWeights d)
      → Perm (inputs (prioritize d items remaining w)) items
  unfolding prioritize
  prioritize-perm items remaining w =
      rw (inputs-rank_from remaining (sort_by (compare_scored d) (scored d items w))) (
        subst (Perm _) (items-scored items w)
          (Perm.map (λ x. x.item) (sort_by-perm (compare_scored d) (scored d items w))))

  compare_scored-IsConsistent : IsOrdered d → IsConsistent (compare_scored d)
  unfolding compare_scored
  compare_scored-IsConsistent o = record {
    flips = λ a b.
        ground
          (arith, o.flips b.s a.s, o.flips_back b.s a.s, o.flips a.s b.s, o.flips_back a.s b.s);
    chains = λ a b c. ground (
      arith,
      o.chains c.s b.s a.s,
      o.chains a.s c.s b.s,
      o.chains b.s a.s c.s,
      o.flips b.s a.s,
      o.flips_back b.s a.s,
      o.flips c.s b.s,
      o.flips_back c.s b.s,
      o.flips a.s c.s,
      o.flips_back a.s c.s,
    );
  }

  rank_from_bound : (n : ℕ) (xs : List (Scored d)) → fitting_effort (rank_from d n xs) ≤ n
  unfolding rank_from
  rank_from_bound n [] = omega arith
  rank_from_bound n (x ∷ xs) =
      ground (arith, rank_from_bound (n - x.item.effort) xs, rank_from_bound n xs)

  -- Beside marked items that weigh `total`: not eligible, marked, or too heavy to be marked as well.
  abbrev pub IsCrowdedOut : ℕ → ℕ → RankedItem d → Type 0
  IsCrowdedOut remaining total r =
      (r.eligible ≡ false) ⊎ ((r.fits_remaining ≡ true) ⊎ (remaining < total + r.input.effort))

  crowded_mono :
      (m n t u : ℕ) (rs : List (RankedItem d))
      → n + t ≤ m + u
      → All (IsCrowdedOut m t) rs
      → All (IsCrowdedOut n u) rs
  crowded_mono m n t u [] h k = tt
  crowded_mono m n t u (r ∷ rs) h k = (ground (arith, k.0), crowded_mono m n t u rs h k.1)

  rank_from_greedy :
      (n : ℕ) (xs : List (Scored d))
      → All (IsCrowdedOut n (fitting_effort (rank_from d n xs))) (rank_from d n xs)
  unfolding rank_from
  rank_from_greedy n [] = tt
  rank_from_greedy n (x ∷ xs) =
      let rest = rank_from d (next_budget n x) xs in
      (
        ground arith,
        crowded_mono (next_budget n x) n (fitting_effort rest)
            (fitting_effort (rank_from d n (x ∷ xs))) rest (ground arith)
            (rank_from_greedy (next_budget n x) xs),
      )

  prioritize-IsSortedBy :
      IsOrdered d
      → (items : List PriorityInput) (remaining : ℕ) (w : ScoreWeights d)
      → IsSortedBy (compare_scored d) (map as_scored (prioritize d items remaining w))
  unfolding prioritize
  prioritize-IsSortedBy o items remaining w =
      rw (scored-rank_from remaining (sort_by (compare_scored d) (scored d items w)))
        (sort_by-IsSortedBy (compare_scored d) (compare_scored-IsConsistent o) (scored d items w))

  -- The first has the higher score, or the same score and no more effort.
  abbrev pub Precedes : RankedItem d → RankedItem d → Type 0
  Precedes a b =
      (d.sign (d.sub a.score b.score) ≡ Ordering.gt)
      ⊎ ((d.sign (d.sub a.score b.score) ≡ Ordering.eq) × (a.input.effort ≤ b.input.effort))

  abbrev pub IsRanked : List (RankedItem d) → Type 0
  IsRanked [] = Unit
  IsRanked (r ∷ rs) = All (Precedes r) rs × IsRanked rs

  Before-Precedes :
      IsOrdered d
      → (a b : RankedItem d) → Before (compare_scored d) (as_scored a) (as_scored b)
      → Precedes a b
  unfolding compare_scored
  Before-Precedes o a b = ground (
    arith,
    o.flips a.score b.score,
    o.flips_back a.score b.score,
    o.flips b.score a.score,
    o.flips_back b.score a.score,
  )

  Before-All :
      IsOrdered d
      → (r : RankedItem d) (rs : List (RankedItem d))
      → All (Before (compare_scored d) (as_scored r)) (map as_scored rs)
      → All (Precedes r) rs
  Before-All o r [] h = tt
  Before-All o r (q ∷ rs) h = (Before-Precedes o r q h.0, Before-All o r rs h.1)

  sorted-IsRanked :
      IsOrdered d
      → (rs : List (RankedItem d)) → IsSortedBy (compare_scored d) (map as_scored rs)
      → IsRanked rs
  sorted-IsRanked o [] h = tt
  sorted-IsRanked o (r ∷ rs) h = (Before-All o r rs h.0, sorted-IsRanked o rs h.1)

  -- With numbers that a difference's sign orders, each item of the ranking stands before those with
  -- a lower score, and before those with the same score and no less effort.
  pub prioritize-IsRanked :
      IsOrdered d
      → (items : List PriorityInput) (remaining : ℕ) (w : ScoreWeights d)
      → IsRanked (prioritize d items remaining w)
  prioritize-IsRanked o items remaining w =
      sorted-IsRanked o (prioritize d items remaining w) (prioritize-IsSortedBy o items remaining w)

  rank_from_eligible :
      (n : ℕ) (xs : List (Scored d))
      → All
          (λ (r : RankedItem d).
            (r.eligible ≡ is_eligible r.input)
            × ((r.fits_remaining ≡ false) ⊎ (is_eligible r.input ≡ true)))
          (rank_from d n xs)
  unfolding rank_from
  rank_from_eligible n [] = tt
  rank_from_eligible n (x ∷ xs) = ((refl, ground arith), rank_from_eligible (next_budget n x) xs)

  -- The marked items are eligible and together fit the remaining budget, and an eligible item is
  -- left unmarked only if it would not fit beside the marked ones.
  pub prioritize_greedy :
      (items : List PriorityInput) (remaining : ℕ) (w : ScoreWeights d)
      → let ranked = prioritize d items remaining w in
        (fitting_effort ranked ≤ remaining)
        × All
            (λ (r : RankedItem d).
              (r.eligible ≡ is_eligible r.input)
              × ((r.fits_remaining ≡ false) ⊎ (is_eligible r.input ≡ true)))
            ranked
        × All (IsCrowdedOut remaining (fitting_effort ranked)) ranked
  unfolding prioritize
  prioritize_greedy items remaining w =
      let sorted = sort_by (compare_scored d) (scored d items w) in
      (
        rank_from_bound remaining sorted,
        rank_from_eligible remaining sorted,
        rank_from_greedy remaining sorted,
      )
