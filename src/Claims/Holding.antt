-- ===== src/Claims/Holding.antt =====
-- Who holds what under the claims of src/mirror.ts.
use front_desk_scheduler.Base.{
  ℕ, ◌+◌, ◌<◌, ltb, any, ◌≡◌, refl, sym, ap, ◌∙◌, String, Bool, true, false, ◌&&◌, Option, none,
  some, List, [], ◌∷◌, ◌++◌, find, ◌=ₛ◌, =ₛ_refl, if◌then◌else◌, arith, Bool-cases, inl, inr,
}
use front_desk_scheduler.Claims.{
  Lease, ItemRow, Db, item_row, is_known, is_insertable, lease_live, reap_expired_leases, lease_of,
  insert_at, latch, joined, held_row, audit, ClaimResult, won, no_unleased, is_mine, lease_on,
  won_or, walk, claim_next, ClaimStatus, release_claim,
}
use front_desk_scheduler.Claims.Rows.{
  lease_of-append, lease_of-live, lease_of-appended, find-filterb, is_known-find, lease_of-released,
}

-- A latch displaces nobody.
latch-keeps :
    (l : Lease) (db : Db) (k : String) (m : Lease)
    → lease_of k db.leases ≡ some m
    → lease_of k (latch l db).leases ≡ some m
unfolding latch
latch-keeps l db k m h = go (lease_of l.item_id db.leases) (is_insertable l db)
  where
    go : (o : Option Lease) (b : Bool) → lease_of k (insert_at o b l db.leases) ≡ some m
    go none true = lease_of-append k db.leases l m h
    go none false = h
    go (some held) b = h

walk-keeps :
    (now : ℕ) (agent : String) (ttl : ℕ) (commit : Option String) (ids : List String) (db : Db)
    (k : String) (m : Lease)
    → lease_of k db.leases ≡ some m
    → lease_of k (walk now agent ttl commit ids db).0.leases ≡ some m
unfolding walk audit
walk-keeps now agent ttl commit [] db k m h = h
walk-keeps now agent ttl commit (id ∷ ids) db k m h =
    go (is_mine agent (held_row id latched)) (walk-keeps now agent ttl commit ids latched k m kept)
  where
    latched : Db
    latched = latch (lease_on now agent ttl commit id) db

    kept : lease_of k latched.leases ≡ some m
    kept = latch-keeps (lease_on now agent ttl commit id) db k m h

    go :
        (o : Option ItemRow)
        → lease_of k (walk now agent ttl commit ids latched).0.leases ≡ some m
        → lease_of k
            (won_or now agent ttl commit id latched o
              (walk now agent ttl commit ids latched)).0.leases
          ≡ some m
    go none rest = rest
    go (some i) rest = kept

-- A claim displaces nobody: a lease whose time is not over when it begins is the item's lease when
-- it ends, whichever items are tried.
pub claim_next-keeps :
    (now : ℕ) (agent : String) (ttl : ℕ) (commit : Option String) (ids : List String) (db : Db)
    (k : String) (m : Lease)
    → lease_of k db.leases ≡ some m
    → now < m.claimed_at + m.ttl_sec
    → lease_of k (claim_next now agent ttl commit ids db).0.leases ≡ some m
unfolding claim_next reap_expired_leases lease_live
claim_next-keeps now agent ttl commit ids db k m h e =
    walk-keeps now agent ttl commit ids (reap_expired_leases now db) k m
      (lease_of-live now k db.leases m h (ground (arith, e)))

abbrev pub won_item : ClaimResult → Option String
won_item (won id number title) = some id
won_item no_unleased = none

-- The agent has it, or nobody and the lease would have time.
abbrev pub is_free_for : String → ℕ → Option Lease → Bool
is_free_for agent ttl none = ltb 0 ttl
is_free_for agent ttl (some l) = l.agent =ₛ agent

abbrev could_take : String → ℕ → Db → String → Bool
could_take agent ttl db id =
    is_known (item_row id db) && is_free_for agent ttl (lease_of id db.leases)

-- The item is on the board, and no other agent has a lease on it whose time is not over.
abbrev pub can_take : ℕ → String → ℕ → Db → String → Bool
can_take now agent ttl db id =
    any (λ i. i.item_id =ₛ id) db.items
    && is_free_for agent ttl
        (find (λ l. (l.item_id =ₛ id) && ltb now (l.claimed_at + l.ttl_sec)) db.leases)

and-right : (a b : Bool) → (a && b) ≡ true → b ≡ true
and-right true b e = e
and-right false true e = refl
and-right false false e = e

module _ (now : ℕ) (agent : String) (ttl : ℕ) (commit : Option String) where
  abbrev latched : String → Db → Db
  latched id db = latch (lease_on now agent ttl commit id) db

  -- A latch of the agent's own leaves it free to take what it was free to take.
  free_for-latched :
      (id j : String) (db : Db)
      → is_free_for agent ttl (lease_of j (latched id db).leases)
        ≡ is_free_for agent ttl (lease_of j db.leases)
  unfolding latch
  free_for-latched id j db = elim (Bool-cases (is_insertable mine db)) [
    | inl v ↦
        rw v (go (lease_of id db.leases) (and-right (is_known (item_row id db)) (ltb 0 ttl) v))
    | inr v ↦ rw v (unchanged (lease_of id db.leases))
  ]
    where
      mine : Lease
      mine = lease_on now agent ttl commit id

      unchanged :
          (o : Option Lease)
          → is_free_for agent ttl (lease_of j (insert_at o false mine db.leases))
            ≡ is_free_for agent ttl (lease_of j db.leases)
      unchanged none = refl
      unchanged (some held) = refl

      own :
          (b : Bool)
          → ltb 0 ttl ≡ true
          → is_free_for agent ttl (if b then some mine else none) ≡ ltb 0 ttl
      own true e = =ₛ_refl agent ∙ sym e
      own false e = refl

      at :
          (o : Option Lease)
          → ltb 0 ttl ≡ true
          → lease_of j db.leases ≡ o
          → is_free_for agent ttl (lease_of j (db.leases ++ (mine ∷ []))) ≡ is_free_for agent ttl o
      at none t e =
          ap (is_free_for agent ttl) (lease_of-appended db.leases mine j e) ∙ own (id =ₛ j) t
      at (some m) t e = ap (is_free_for agent ttl) (lease_of-append j db.leases mine m e)

      go :
          (o : Option Lease)
          → ltb 0 ttl ≡ true
          → is_free_for agent ttl (lease_of j (insert_at o true mine db.leases))
            ≡ is_free_for agent ttl (lease_of j db.leases)
      go (some held) t = refl
      go none t = at (lease_of j db.leases) t refl

  could_take-latched :
      (id j : String) (db : Db) → could_take agent ttl (latched id db) j ≡ could_take agent ttl db j
  unfolding latch
  could_take-latched id j db = ap (λ b. is_known (item_row j db) && b) (free_for-latched id j db)

  mine_lem :
      (o : Option Lease) (i : Option ItemRow)
      → (o ≡ none → (is_known i && ltb 0 ttl) ≡ false)
      → is_known (is_mine agent (joined o i)) ≡ (is_known i && is_free_for agent ttl o)
  mine_lem none i h = sym (h refl)
  mine_lem (some l) none h = refl
  mine_lem (some l) (some i) h = elim (Bool-cases (l.agent =ₛ agent)) [
    | inl e ↦ rw e refl
    | inr e ↦ rw e refl
  ]

  -- A latch is missing only where the row is not one that the table takes.
  latched-none :
      (id : String) (db : Db)
      → lease_of id (latched id db).leases ≡ none
      → (is_known (item_row id db) && ltb 0 ttl) ≡ false
  unfolding latch
  latched-none id db = go (lease_of id db.leases) (is_known (item_row id db) && ltb 0 ttl) refl
    where
      go :
          (o : Option Lease) (b : Bool)
          → lease_of id db.leases ≡ o
          → lease_of id (insert_at o b (lease_on now agent ttl commit id) db.leases) ≡ none
          → b ≡ false
      go (some held) b e n = ground (arith, e, n)
      go none false e n = refl
      go none true e n =
          let f = lease_of-appended db.leases (lease_on now agent ttl commit id) id e in
          let g = =ₛ_refl id in ground (arith, f, g, n)

  -- The read-back names the agent exactly when it could take the item.
  mine-latched :
      (id : String) (db : Db)
      → is_known (is_mine agent (held_row id (latched id db))) ≡ could_take agent ttl db id
  unfolding held_row latch
  mine-latched id db =
      mine_lem (lease_of id (latched id db).leases) (item_row id db) (latched-none id db)
      ∙ could_take-latched id id db

  find_ext :
      (p q : String → Bool) (ids : List String)
      → ((k : String) → p k ≡ q k)
      → find p ids ≡ find q ids
  find_ext p q [] h = refl
  find_ext p q (k ∷ ids) h = rw (h k, find_ext p q ids h) refl

  walk_lem :
      (ids : List String) (db : Db)
      → won_item (walk now agent ttl commit ids db).1 ≡ find (could_take agent ttl db) ids
  unfolding walk
  walk_lem [] db = refl
  walk_lem (id ∷ ids) db = go (is_mine agent (held_row id (latched id db))) refl (
      walk_lem ids (latched id db)
      ∙ find_ext (could_take agent ttl (latched id db)) (could_take agent ttl db) ids
          (λ k. could_take-latched id k db))
    where
      go :
          (o : Option ItemRow)
          → is_mine agent (held_row id (latched id db)) ≡ o
          → won_item (walk now agent ttl commit ids (latched id db)).1
            ≡ find (could_take agent ttl db) ids
          → won_item
              (won_or now agent ttl commit id
                (latched id db)
                o
                (walk now agent ttl commit ids (latched id db))).1
            ≡ find (could_take agent ttl db) (id ∷ ids)
      go none e h =
          let f : could_take agent ttl db id ≡ false = sym (mine-latched id db) ∙ ap is_known e in
          rw f h
      go (some i) e h =
          let f : could_take agent ttl db id ≡ true = sym (mine-latched id db) ∙ ap is_known e in
          rw f refl

  could_take-reaped :
      (db : Db) (id : String)
      → could_take agent ttl (reap_expired_leases now db) id ≡ can_take now agent ttl db id
  unfolding reap_expired_leases lease_live
  could_take-reaped db id =
      rw (is_known-find id db.items, find-filterb (λ l. l.item_id =ₛ id) (lease_live now) db.leases)
        refl

  -- A claim wins the first of the ranked items that is on the board and that no other agent has a
  -- lease on whose time is not over; it wins nothing only where there is none. A claim of no seconds
  -- wins only what the agent has already.
  pub claim_next_lem :
      (ids : List String) (db : Db)
      → won_item (claim_next now agent ttl commit ids db).1 ≡ find (can_take now agent ttl db) ids
  unfolding claim_next
  claim_next_lem ids db =
      walk_lem ids (reap_expired_leases now db)
      ∙ find_ext (could_take agent ttl (reap_expired_leases now db)) (can_take now agent ttl db) ids
          (could_take-reaped db)

-- A straggler frees nobody: a release by an agent other than the holder leaves the holder's lease,
-- and every release leaves the leases of the other items.
pub release_claim-keeps :
    (now : ℕ) (id agent : String) (status : ClaimStatus) (db : Db) (k : String) (l : Lease)
    → lease_of k db.leases ≡ some l
    → ((k =ₛ id) && (l.agent =ₛ agent)) ≡ false
    → lease_of k (release_claim now id agent status db).leases ≡ some l
unfolding release_claim
release_claim-keeps now id agent status db k l h n = lease_of-released id agent k db.leases l h n
