-- ===== src/Reads.antt =====
-- src/dolthub.ts: the read plane over HTTP. A query is the parts that its SQL is rendered from, and
-- what DoltHub answers to it is a parameter.
pub mod Keyset
pub mod Walk
use front_desk_scheduler.Base.{
  ℕ, zero, suc, ◌-◌, String, Bool, true, false, ◌&&◌, ◌||◌, not, Option, none, some, List, [], ◌∷◌,
  ◌++◌, map, every, any, length, last_of, leb, ltb, ◌==◌, ◌=ₛ◌, if◌then◌else◌, codes, is_digit,
  Result, ok, err, ◌>>=◌,
}

-- The answer to a request; `failed` has the message.
pub data HttpAnswer (R : Type 0) : Type 0 where
  http_error : ℕ → HttpAnswer R
  row_limit : HttpAnswer R
  failed : String → HttpAnswer R
  rows : List R → HttpAnswer R

pub data QueryError : Type 0 where
  http_status : ℕ → QueryError
  over_row_cap : QueryError
  query_failed : String → QueryError
  near_row_cap : ℕ → QueryError
  no_key_columns no_last_row no_fuel : QueryError

abbrev pub cap_guard : ℕ
cap_guard = 900

abbrev pub page_rows : ℕ
page_rows = 600

abbrev pub guarded : {R : Type 0} → Bool → List R → Result QueryError (List R)
guarded paginated rs =
    if not paginated && leb cap_guard (length rs) then err (near_row_cap (length rs)) else ok rs

unfoldable pub query : {R : Type 0} → Bool → HttpAnswer R → Result QueryError (List R)
query paginated (http_error st) = err (http_status st)
query paginated row_limit = err over_row_cap
query paginated (failed message) = err (query_failed (if message =ₛ "" then "unknown" else message))
query paginated (rows rs) = guarded paginated rs

-- The commit of the first row, where it has the shape of a hash.
abbrev pub shaped : String → Option String
shaped h =
    if length (codes h) == 32 && every (λ c. (leb b'a' c && leb c b'z') || is_digit c) (codes h)
    then some h
    else none

abbrev pub head_of : Result QueryError (List String) → Option String
head_of (err e) = none
head_of (ok []) = none
head_of (ok (h ∷ hs)) = shaped h

unfoldable pub resolve_head : HttpAnswer String → Option String
resolve_head a = head_of (query false a)

-- `c1 = v1 AND … AND c > v`.
pub record Clause : Type 0 where
  pub eqs : List (String × String)
  pub over : String × String

-- The disjunction for a cursor: each clause has the equations of the columns before its own.
unfoldable pub clauses_from : List (String × String) → List String → List String → List Clause
clauses_from eqs (c ∷ cs) (v ∷ vs) =
    record { eqs = eqs; over = (c, v) } ∷ clauses_from (eqs ++ ((c, v) ∷ [])) cs vs
clauses_from eqs _ _ = []

-- A page of a walk over `base`: pinned to a commit or not, under conditions of its own, and strictly
-- after the cursor, where there is one.
pub record PageQuery : Type 0 where
  pub base : String
  pub at_commit : Option String
  pub extra : List String
  pub after : Option (List Clause)
  pub order : List String
  pub limit : ℕ

module _ {R : Type 0} (column : R → String → String) (ask : PageQuery → HttpAnswer R) where
  module _ (base : String) (columns extra : List String) (head : Option String) where
    abbrev pub after_cursor : Option (List String) → Option (List Clause)
    after_cursor none = none
    after_cursor (some cursor) = some (clauses_from [] columns cursor)

    abbrev pub page : Option (List String) → PageQuery
    page cursor = record {
      base = base;
      at_commit = head;
      extra = extra;
      after = after_cursor cursor;
      order = columns;
      limit = page_rows;
    }

    -- Where the last row is missing, reading a column of it throws.
    abbrev pub after_last :
        (List String → Result QueryError (List R)) → Option R → Result QueryError (List R)
    after_last go_on none = err no_last_row
    after_last go_on (some r) = go_on (map (column r) columns)

    -- The loop, on fuel for each request.
    unfoldable pub read_pages : ℕ → Option (List String) → List R → Result QueryError (List R)
    unfolding query
    read_pages zero cursor seen = err no_fuel
    read_pages (suc fuel) cursor seen = query true (ask (page cursor)) >>= (λ got.
        let rest = after_last (λ c. read_pages fuel (some c) (seen ++ got)) (last_of got) in
        if ltb (length got) page_rows then ok (seen ++ got) else rest)

  unfoldable pub read_paged :
      String
      → List String
      → HttpAnswer String
      → List String
      → ℕ
      → Result QueryError (List R × Option String)
  unfolding resolve_head
  read_paged base [] heads extra fuel = err no_key_columns
  read_paged base (c ∷ cs) heads extra fuel = do
    rs ← read_pages base (c ∷ cs) extra (resolve_head heads) fuel none []
    ok (rs, resolve_head heads)
