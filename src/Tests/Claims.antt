-- ===== src/Tests/Claims.antt =====
-- Runs of the theorems about the claims of src/mirror.ts.
use front_desk_scheduler.Base.{◌≡◌, refl, arith, String, true, none, some, [], ◌∷◌, find, ◌=ₛ◌}
use front_desk_scheduler.Claims.{Lease, Db, ItemRow, lease_of, claim_next, released, release_claim}
use front_desk_scheduler.Claims.Holding.{
  won_item, can_take, claim_next_lem, claim_next-keeps, release_claim-keeps,
}

-- Ann holds a until 160; b is free.
abbrev anns : Lease
anns = record { item_id = "a"; agent = "ann"; claimed_at = 100; ttl_sec = 60 }

abbrev row : String → ItemRow
row id = record { item_id = id; number = 1; title = "t" }

abbrev db : Db
db = record {
  items = row "a" ∷ row "b" ∷ [];
  leases = anns ∷ [];
  claims = [];
  has_decided_at = true;
}

claim_next_lem_example :
    won_item (claim_next 120 "bob" 60 none ("a" ∷ "b" ∷ []) db).1
    ≡ find (can_take 120 "bob" 60 db) ("a" ∷ "b" ∷ [])
claim_next_lem_example = claim_next_lem 120 "bob" 60 none ("a" ∷ "b" ∷ []) db

claim_next-keeps_example :
    lease_of "a" (claim_next 120 "bob" 60 none ("a" ∷ "b" ∷ []) db).0.leases ≡ some anns
unfolding ◌=ₛ◌
claim_next-keeps_example =
    claim_next-keeps 120 "bob" 60 none ("a" ∷ "b" ∷ []) db "a" anns refl (omega arith)

release_claim-keeps_example :
    lease_of "a" (release_claim 130 "a" "bob" released db).leases ≡ some anns
unfolding ◌=ₛ◌
release_claim-keeps_example = release_claim-keeps 130 "a" "bob" released db "a" anns refl refl
