-- ===== src/Dispatch/Pick.antt =====
-- What `nextPick` (src/scheduler.ts) picks.
use Prim.Native.Nat.{Ordering}
use front_desk_scheduler.Base.{
  ℕ, ◌≡◌, ◌≢◌, ◌↔◌, ◌⊎◌, refl, inl, inr, true, none, some, List, [], ◌∷◌, map, filterb, All, arith,
  leb, if◌then◌else◌, ◌-◌, ◌&&◌, Bool-cases, sort_by, sort_by-All, insert_sorted,
}
use front_desk_scheduler.Number.{Double}
use front_desk_scheduler.Policy.{PriorityInput, is_eligible}
use front_desk_scheduler.Policy.Score.{
  Scored, compare_scored, rank_from, scored, prioritize, ScoreWeights, default_weights,
}
use front_desk_scheduler.World.{World, WorkItem, claimable, ready_set}
use front_desk_scheduler.Dispatch.{
  to_priority_input, unranked, ranked_queue, first_number, next_pick,
}

-- The item is one of the list.
abbrev pub IsIn : WorkItem → List WorkItem → Type 0
IsIn i [] = ⊥
IsIn i (x ∷ xs) = (x ≡ i) ⊎ IsIn i xs

weaken :
    (x : WorkItem) (all is : List WorkItem)
    → All (λ i. IsIn i all) is
    → All (λ i. IsIn i (x ∷ all)) is
weaken x all [] h = tt
weaken x all (i ∷ is) (h, hs) = (inr h, weaken x all is hs)

All-IsIn : (is : List WorkItem) → All (λ i. IsIn i is) is
All-IsIn [] = tt
All-IsIn (i ∷ is) = (inl refl, weaken i is is (All-IsIn is))

-- A number that a claimable item of the world bears.
abbrev pub Claimable : World → ℕ → Type 0
Claimable w n = (i : WorkItem) × IsIn i w.items × (i.number ≡ n) × (claimable w i ≡ true)

module _ (d : Double) (w : World) where
  abbrev AllClaimable : List PriorityInput → Type 0
  AllClaimable = All (λ p. Claimable w p.number)

  ready_claimable :
      (is : List WorkItem)
      → All (λ i. IsIn i w.items) is
      → AllClaimable (map (to_priority_input w) (filterb (claimable w) is))
  unfolding to_priority_input
  ready_claimable [] h = tt
  ready_claimable (i ∷ is) h = elim (Bool-cases (claimable w i)) [
    | inl t ↦ rw t ((i, h.0, refl, t), ready_claimable is h.1)
    | inr f ↦ rw f (ready_claimable is h.1)
  ]

  scored-Claimable :
      (ps : List PriorityInput) (ws : ScoreWeights d)
      → AllClaimable ps
      → All (λ (x : Scored d). Claimable w x.item.number) (scored d ps ws)
  unfolding scored
  scored-Claimable [] ws h = tt
  scored-Claimable (p ∷ ps) ws h = (h.0, scored-Claimable ps ws h.1)

  ranked-Claimable :
      (n : ℕ) (xs : List (Scored d))
      → All (λ (x : Scored d). Claimable w x.item.number) xs
      → AllClaimable (map unranked (rank_from d n xs))
  unfolding rank_from
  ranked-Claimable n [] h = tt
  ranked-Claimable n (x ∷ xs) h = (
    h.0,
    ranked-Claimable (if is_eligible x.item && leb x.item.effort n then n - x.item.effort else n) xs
        h.1,
  )

  head-Claimable :
      (ps : List PriorityInput) (n : ℕ) → AllClaimable ps → first_number ps ≡ some n → Claimable w n
  head-Claimable [] n h e = cc
  head-Claimable (p ∷ ps) n h e = let (i, at, q, t) = h.0 in (i, at, ground arith, t)

  -- A pick is the number of an item of the world that is ready, unowned, and whose dependencies are done.
  pub next_pick-Claimable : (n : ℕ) → next_pick d w ≡ some n → Claimable w n
  unfolding next_pick ranked_queue prioritize ready_set
  next_pick-Claimable n e =
      head-Claimable _ n
        (ranked-Claimable _ _ (
          sort_by-All (compare_scored d) (λ x. Claimable w x.item.number) _
            (scored-Claimable _ _ (ready_claimable w.items (All-IsIn w.items)))))
        e

  inserted_is_some :
      (x : Scored d) (ys : List (Scored d)) → insert_sorted (compare_scored d) x ys ≢ []
  unfolding insert_sorted
  inserted_is_some x [] e = cc
  inserted_is_some x (y ∷ ys) e = go (compare_scored d x y) e
    where
      go :
          (o : Ordering)
          → (elim o [ Ordering.gt ↦ y ∷ insert_sorted (compare_scored d) x ys | _ ↦ x ∷ y ∷ ys ])
            ≢ []
      go Ordering.gt e = cc
      go Ordering.lt e = cc
      go Ordering.eq e = cc

  unranked-none :
      (n : ℕ) (xs : List (Scored d))
      → first_number (map unranked (rank_from d n xs)) ≡ none
      → xs ≡ []
  unfolding rank_from
  unranked-none n [] e = refl
  unranked-none n (x ∷ xs) e = cc

  queue_none :
      (n : ℕ) (is : List WorkItem)
      → first_number
          (map unranked (prioritize d (map (to_priority_input w) is) n (default_weights d)))
        ≡ none
      → is ≡ []
  unfolding prioritize scored sort_by
  queue_none n [] e = refl
  queue_none n (i ∷ is) e = absurd (inserted_is_some _ _ (unranked-none n _ e))

  no_queue : (n : ℕ) → first_number (map unranked (prioritize d [] n (default_weights d))) ≡ none
  unfolding prioritize scored sort_by rank_from
  no_queue n = refl

  -- Nothing is picked exactly when no item is ready.
  pub next_pick-none_iff : (next_pick d w ≡ none) ↔ (ready_set w ≡ [])
  unfolding next_pick ranked_queue
  next_pick-none_iff = (queue_none _ (ready_set w), (λ e. rw e (no_queue _)))
