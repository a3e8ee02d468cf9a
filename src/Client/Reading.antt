-- ===== src/Client/Reading.antt =====
-- The reads of src/lease-client.ts: `/status` and `/history`, which take no credential.
use front_desk_scheduler.Base.{
  ℕ, ◌≡◌, refl, String, false, Option, none, some, ◌=ₛ◌, List, Text, codes, Result, ok, err, ◌>>=◌,
}
use front_desk_scheduler.Worker.History.{GrantRecord, GrantStatus}
use front_desk_scheduler.Worker.Object.{
  Reply, View, described, recorded, not_found, or_empty_state, describe, endpoint_of, fetch,
}
use front_desk_scheduler.Worker.Auth.{Github}
use front_desk_scheduler.Worker.Router.{
  canonical_item_id, RouterRequest, Env, Worker, RouterReply, answered, handle,
}
use front_desk_scheduler.Client.{
  LeaseClientError, unreachable, Delivery, delivered, request_lost, reply_lost, read_answer,
}

pub data ReadError : Type 0 where
  of_client : LeaseClientError → ReadError
  no_history_route no_records : ReadError

abbrev pub lift : {A : Type 0} → Result LeaseClientError A → Result ReadError A
lift (ok a) = ok a
lift (err e) = err (of_client e)

abbrev pub nothing_read : View
nothing_read = record {
  holder = none;
  fencing = 0;
  expires_at = none;
  live = false;
  referent = none;
}

-- A field that is missing reads as null, 0 or false.
abbrev pub status_in : Option Reply → View
status_in (some (described v)) = v
status_in _ = nothing_read

abbrev pub History : Type 0
History = ℕ × List (GrantRecord × GrantStatus)

abbrev pub history_in : Option Reply → Result ReadError History
history_in (some (recorded now rs)) = ok (now, rs)
history_in _ = err no_records

abbrev pub history_answer : RouterReply → Result ReadError (Option Reply)
history_answer (answered not_found) = err no_history_route
history_answer a = lift (read_answer a)

module _ (digest : Text → String) (github : ℕ → Github) (env : Env) where
  abbrev pub get : String → String → Option String → RouterRequest
  get path item since = record {
    pathname = path;
    item_id = some item;
    since = since;
    is_post = false;
    authorization = none;
    json = none;
  }

  unfoldable pub read : Delivery → ℕ → Worker → RouterRequest → Worker × Option RouterReply
  read request_lost now w q = (w, none)
  read delivered now w q = let (w1, a) = handle digest (github now) env w q now in (w1, some a)
  read reply_lost now w q = let (w1, a) = handle digest (github now) env w q now in (w1, none)

  abbrev pub status_of : Option RouterReply → Result LeaseClientError View
  status_of none = err unreachable
  status_of (some a) = read_answer a >>= (λ r. ok (status_in r))

  unfoldable pub fetch_lease_status :
      Delivery → ℕ → String → Worker → Worker × Result LeaseClientError View
  unfolding read
  fetch_lease_status d now item w =
      let (w1, a) = read d now w (get "/status" item none) in (w1, status_of a)

  abbrev pub history_of : Option RouterReply → Result ReadError History
  history_of none = err (of_client unreachable)
  history_of (some a) = history_answer a >>= history_in

  -- `since` is the watermark, as it stands in the URL.
  unfoldable pub fetch_lease_history :
      Delivery → ℕ → String → String → Worker → Worker × Result ReadError History
  unfolding read
  fetch_lease_history d now item since w =
      let (w1, a) = read d now w (get "/history" item (some since)) in (w1, history_of a)

  -- The status that arrives is the view of the object of the item at that time.
  fetch_lease_status-describe :
      (now : ℕ) (item : String) (w : Worker) (name : Text)
      → canonical_item_id (codes item) ≡ some name
      → (fetch_lease_status delivered now item w).1
        ≡ ok (describe (or_empty_state (w.objects name).state) now)
  unfolding fetch_lease_status read handle fetch endpoint_of read_answer ◌=ₛ◌
  fetch_lease_status-describe now item w name e = rw e refl
