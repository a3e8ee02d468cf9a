-- ===== src/Claims.antt =====
-- The claims of src/mirror.ts on the planes that Dolt adjudicates (server and local): each SQL
-- statement as a function on the tables, and src/claim-plane.ts. Times are seconds, and a run of an
-- operation reads one time.
pub mod Rows
pub mod Holding
use front_desk_scheduler.Base.{
  ℕ, ◌+◌, String, Bool, true, false, ◌&&◌, ◌||◌, not, Option, none, some, List, [], ◌∷◌, ◌++◌, map,
  filterb, find, any, ltb, ◌==◌, ◌=ₛ◌, if◌then◌else◌,
}
use front_desk_scheduler.Worker.History.{normalize_decided_at}

pub data ClaimPlane : Type 0 where
  lease_plane server_plane local_plane : ClaimPlane

abbrev pub forced : String → Option ClaimPlane
forced t =
    if t =ₛ "lease"
    then some lease_plane
    else if t =ₛ "server"
    then some server_plane
    else if t =ₛ "local"
    then some local_plane
    else none

abbrev pub forced_by : Option String → Option ClaimPlane
forced_by none = none
forced_by (some t) = forced t

abbrev pub is_set : Option String → Bool
is_set none = false
is_set (some t) = not (t =ₛ "")

abbrev pub or_offered : Option ClaimPlane → Option String → Option String → ClaimPlane
or_offered (some p) endpoint host = p
or_offered none (some e) host = lease_plane
or_offered none none host = if is_set host then server_plane else local_plane

-- Of `FDS_CLAIM_PLANE`, the lease endpoint and `DOLT_HOST`.
unfoldable pub resolve_claim_plane : Option String → Option String → Option String → ClaimPlane
resolve_claim_plane force endpoint host = or_offered (forced_by force) endpoint host

pub record Lease : Type 0 where
  pub item_id : String
  pub agent : String
  pub claimed_at : ℕ
  pub ttl_sec : ℕ

pub data ClaimStatus : Type 0 where
  active released completed : ClaimStatus

pub record Claim : Type 0 where
  pub item_id : String
  pub agent : String
  pub decided_at_commit : Option String
  pub claimed_at : ℕ
  pub ttl_sec : ℕ
  pub status : ClaimStatus
  pub released_at : Option ℕ

pub record ItemRow : Type 0 where
  pub item_id : String
  pub number : ℕ
  pub title : String

-- `has_decided_at`: the claims table has the column `decided_at_commit`.
pub record Db : Type 0 where
  pub items : List ItemRow
  pub leases : List Lease
  pub claims : List Claim
  pub has_decided_at : Bool

-- `LEASE_LIVE`.
unfoldable pub lease_live : ℕ → Lease → Bool
lease_live now l = ltb now (l.claimed_at + l.ttl_sec)

unfoldable pub reap_expired_leases : ℕ → Db → Db
reap_expired_leases now db = record db { leases = filterb (lease_live now) db.leases }

abbrev pub lease_of : String → List Lease → Option Lease
lease_of id = find (λ l. l.item_id =ₛ id)

abbrev pub item_row : String → Db → Option ItemRow
item_row id db = find (λ i. i.item_id =ₛ id) db.items

abbrev pub is_known : Option ItemRow → Bool
is_known none = false
is_known (some i) = true

-- The foreign key to items and `CHECK (ttl_sec > 0)` of schema/mirror.sql.
abbrev pub is_insertable : Lease → Db → Bool
is_insertable l db = is_known (item_row l.item_id db) && ltb 0 l.ttl_sec

-- `INSERT IGNORE`: a row that the primary key, the foreign key or the check forbids is skipped.
abbrev pub insert_at : Option Lease → Bool → Lease → List Lease → List Lease
insert_at (some held) valid l ls = ls
insert_at none valid l ls = if valid then ls ++ (l ∷ []) else ls

unfoldable pub latch : Lease → Db → Db
latch l db = record db {
  leases = insert_at (lease_of l.item_id db.leases) (is_insertable l db) l db.leases;
}

abbrev pub joined : Option Lease → Option ItemRow → Option (String × ItemRow)
joined (some l) (some i) = some (l.agent, i)
joined _ _ = none

-- The row of the read-back, with its item.
unfoldable pub held_row : String → Db → Option (String × ItemRow)
held_row id db = joined (lease_of id db.leases) (item_row id db)

abbrev pub decided_for : Bool → Option String → Option String
decided_for has_column commit = if has_column then normalize_decided_at commit else none

unfoldable pub audit : Lease → Option String → Db → Db
audit l commit db = record db {
  claims =
      db.claims
      ++ (record {
        item_id = l.item_id;
        agent = l.agent;
        decided_at_commit = decided_for db.has_decided_at commit;
        claimed_at = l.claimed_at;
        ttl_sec = l.ttl_sec;
        status = active;
        released_at = none;
      }
          ∷ []);
}

-- `won` has the item's id, number and title.
pub data ClaimResult : Type 0 where
  won : String → ℕ → String → ClaimResult
  no_unleased : ClaimResult

-- What the read-back says of a latch: the item, where it names the agent.
abbrev pub is_mine : String → Option (String × ItemRow) → Option ItemRow
is_mine agent none = none
is_mine agent (some (holder, i)) = if holder =ₛ agent then some i else none

module _ (now : ℕ) (agent : String) (ttl_sec : ℕ) (commit : Option String) where
  abbrev pub lease_on : String → Lease
  lease_on id = record { item_id = id; agent = agent; claimed_at = now; ttl_sec = ttl_sec }

  abbrev pub won_or : String → Db → Option ItemRow → Db × ClaimResult → Db × ClaimResult
  won_or id db none rest = rest
  won_or id db (some i) rest = (audit (lease_on id) commit db, won id i.number i.title)

  unfoldable pub walk : List String → Db → Db × ClaimResult
  walk [] db = (db, no_unleased)
  walk (id ∷ ids) db =
      let latched : Db = latch (lease_on id) db in
      won_or id latched (is_mine agent (held_row id latched)) (walk ids latched)

  unfoldable pub claim_next : List String → Db → Db × ClaimResult
  claim_next ids db = walk ids (reap_expired_leases now db)

abbrev pub is_of : String → String → String → String → Bool
is_of id agent row_id row_agent = (row_id =ₛ id) && (row_agent =ₛ agent)

-- `ttlSec ? … : ""`.
abbrev pub renewed : ℕ → Option ℕ → Lease → Lease
renewed now none l = record l { claimed_at = now }
renewed now (some t) l =
    if t == 0 then record l { claimed_at = now } else record l { claimed_at = now; ttl_sec = t }

abbrev pub names : String → Option Lease → Bool
names agent none = false
names agent (some l) = l.agent =ₛ agent

unfoldable pub renew_lease : ℕ → String → String → Option ℕ → Db → Db × Bool
renew_lease now id agent ttl db =
    let ls : List Lease =
      map
        (λ l. if is_of id agent l.item_id l.agent && lease_live now l then renewed now ttl l else l)
        db.leases in
    (record db { leases = ls }, names agent (find (λ l. (l.item_id =ₛ id) && lease_live now l) ls))

abbrev pub is_active : ClaimStatus → Bool
is_active active = true
is_active _ = false

abbrev pub closed : ℕ → ClaimStatus → String → String → Claim → Claim
closed now status id agent c =
    if is_of id agent c.item_id c.agent && is_active c.status
    then record c { status = status; released_at = some now }
    else c

unfoldable pub release_claim : ℕ → String → String → ClaimStatus → Db → Db
release_claim now id agent status db = record db {
  leases = filterb (λ l. not (is_of id agent l.item_id l.agent)) db.leases;
  claims = map (closed now status id agent) db.claims;
}

unfoldable pub live_claimed_ids : ℕ → Db → List String
live_claimed_ids now db = map (λ l. l.item_id) (filterb (lease_live now) db.leases)
