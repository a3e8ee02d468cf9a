-- ===== src/Tests/Lease.antt =====
-- Runs of the theorems about worker/lease/src.
use front_desk_scheduler.Base.{
  ℕ, ◌+◌, ◌≡◌, refl, String, true, false, ◌&&◌, not, none, some, List, [], ◌∷◌, length, filterb,
  ◌=ₛ◌, if◌then◌else◌, All, is_space, to_lower,
}
use front_desk_scheduler.Worker.{empty_state, is_live, Seconds, ttl_ms, Body}
use front_desk_scheduler.Worker.Decide.{decide_claim, claim_with}
use front_desk_scheduler.Worker.Object.{
  Storage, or_empty_state, or_empty_history, claim, describe, decide, apply_transition,
  history_since, Request, no_body, fetch, serve, endpoint_of,
}
use front_desk_scheduler.Worker.Tracking.{IsTracked, serve-IsTracked}
use front_desk_scheduler.Worker.Slot.{SlotStep, caller_of, slot_at, apply_transition-SlotStep}
use front_desk_scheduler.Worker.Tokens.{
  tokens_granted, IsCount, fencing_of, token_granted, fetch_unchanged, serve-IsCount,
}
use front_desk_scheduler.Worker.Reads.{
  reads_active, history_since-describe, names_agent, gives_time, decide_claim_iff,
}
use front_desk_scheduler.Worker.Auth.{Github, UserAnswer, RepoAnswer, InstallationAnswer, alias}
use front_desk_scheduler.Worker.Router.{canonical_item_id, RouterRequest, Env, Worker, handle}
use front_desk_scheduler.Worker.Gate.{IsConfirmed, Vouched, handle-Vouched}
use front_desk_scheduler.Client.{delivered, claim_lease}
use front_desk_scheduler.Client.Winning.{Won, claim_lease-Won}
use front_desk_scheduler.Worker.Names.{canonical_item_id-one}

abbrev nothing : Storage
nothing = record { state = none; history = none }

abbrev minute : Seconds
minute = record { parts = 60; per = 0 }

abbrev claim_body : String → Body
claim_body a = record no_body { agent = some a; ttl_sec = some minute }

abbrev claim_request : String → Request
claim_request a = record {
  is_post = true;
  pathname = "/claim";
  body = some (claim_body a);
  since = none;
}

-- Ann claims; Bob is refused, and claims again when her lease has lapsed.
abbrev morning : List (Request × ℕ)
morning =
    (claim_request "ann", 1000) ∷ (claim_request "bob", 2000) ∷ (claim_request "bob", 70000) ∷ []

serve-IsTracked_example : IsTracked (serve nothing morning).0
serve-IsTracked_example = serve-IsTracked morning nothing (refl, refl)

serve-IsCount_example :
    IsCount 0 (tokens_granted (serve nothing morning).1) (fencing_of (serve nothing morning).0)
serve-IsCount_example = serve-IsCount morning nothing

morning_tokens : tokens_granted (serve nothing morning).1 ≡ 1 ∷ 2 ∷ []
unfolding serve ◌=ₛ◌ fetch endpoint_of apply_transition decide decide_claim ttl_ms claim_with
    is_live
morning_tokens = refl

abbrev held_by_ann : Storage
held_by_ann = (apply_transition claim nothing (claim_body "ann") 1000).0

apply_transition-SlotStep_example :
    SlotStep
      (caller_of claim (claim_body "bob"))
      (slot_at 70000 (or_empty_state held_by_ann.state))
      (slot_at 70000
        (or_empty_state (apply_transition claim held_by_ann (claim_body "bob") 70000).0.state))
apply_transition-SlotStep_example =
    apply_transition-SlotStep claim held_by_ann (claim_body "bob") 70000

fetch_unchanged_example : (fetch held_by_ann (claim_request "bob") 2000).0 ≡ held_by_ann
unfolding ◌=ₛ◌ fetch endpoint_of apply_transition decide decide_claim ttl_ms claim_with is_live
fetch_unchanged_example = fetch_unchanged held_by_ann (claim_request "bob") 2000 refl

history_since-describe_example :
    length (filterb reads_active (history_since none (or_empty_history nothing.history) 5))
    ≡ (if (describe (or_empty_state nothing.state) 5).live then 1 else 0)
history_since-describe_example = history_since-describe nothing 5 (refl, refl)

decide_claim_iff_example :
    token_granted (apply_transition claim nothing (claim_body "ann") 1000).1 ≡ (
      if (names_agent (some "ann") && gives_time (some minute)) && not (is_live empty_state 1000)
      then some (0 + 1)
      else none)
decide_claim_iff_example = decide_claim_iff nothing (claim_body "ann") 1000

canonical_item_id-one_example :
    canonical_item_id (32 ∷ 80 ∷ 82 ∷ 88 ∷ 32 ∷ []) ≡ canonical_item_id (112 ∷ 114 ∷ 120 ∷ [])
unfolding is_space to_lower
canonical_item_id-one_example =
    canonical_item_id-one (32 ∷ []) (32 ∷ []) (112 ∷ 114 ∷ 120 ∷ []) (80 ∷ 82 ∷ 88 ∷ []) (refl, tt)
      (refl, tt) refl

-- Every token is Ann's, who may push.
abbrev github : Github
github = record {
  user = λ t. UserAnswer.login (some "ann");
  repo = λ t. RepoAnswer.permissions true false false;
  installation = λ t. InstallationAnswer.no_installation 403;
}

abbrev deployed : Env
deployed = record { auth_mode = none; allowed_repo = none }

abbrev empty_worker : Worker
empty_worker = record { objects = λ name. nothing; cache = [] }

abbrev signed : RouterRequest
signed = record {
  pathname = "/claim";
  item_id = some "prx#12";
  since = none;
  is_post = true;
  authorization = some "Bearer token";
  json = some (record { alias = alias "one"; rest = claim_body "" });
}

handle-Vouched_example :
    All
      (IsConfirmed (λ t. "k") "bounded-systems/front-desk-scheduler" (λ n. github))
      (handle (λ t. "k") github deployed empty_worker signed 1000).0.cache
    × Vouched
        (λ t. "k")
        deployed
        (λ n. github)
        (λ name. nothing)
        signed
        1000
        (handle (λ t. "k") github deployed empty_worker signed 1000).0.objects
unfolding ◌=ₛ◌
handle-Vouched_example =
    handle-Vouched (λ t. "k") deployed (λ n. github) empty_worker signed 1000 refl refl tt

claim_lease-Won_example :
    Won
      (λ t. "k")
      deployed
      (λ n. github)
      "prx#12"
      (λ name. nothing)
      1000
      (claim_lease
        (λ t. "k")
        (λ n. github)
        deployed
        (some "Bearer token")
        delivered
        1000
        "prx#12"
        "one"
        (some minute)
        none
        empty_worker)
claim_lease-Won_example =
    claim_lease-Won (λ t. "k") deployed (λ n. github) (some "Bearer token") delivered 1000 "prx#12"
      "one" (some minute) none empty_worker
