-- ===== src/Tests/Boundary.antt =====
-- Runs of the theorems about src/selector.ts, src/triage.ts, scripts/triage-ticket.ts and
-- src/dolthub.ts.
use front_desk_scheduler.Base.{
  ◌≡◌, refl, String, Bool, true, false, ◌&&◌, not, none, some, List, [], ◌∷◌, length, take, filterb,
  ltb, if◌then◌else◌, codes, trim, is_space, digits_from, arith, ok,
}
use front_desk_scheduler.Selector.{
  ItemSelector, is_node_id, qualified, parse_item_selector, format_selector,
}
use front_desk_scheduler.Selector.RoundTrip.{parse_item_selector-format_selector}
use front_desk_scheduler.Triage.{TriageInput, ClaimVerdict, superseded}
use front_desk_scheduler.Triage.Ticket.{Answers, Settings, run_ticket}
use front_desk_scheduler.Triage.Guard.{
  counts, is_release, records_done, is_close, acts_on, run_ticket_lem,
}
use front_desk_scheduler.Reads.{HttpAnswer, rows, PageQuery, read_paged, resolve_head}
use front_desk_scheduler.Reads.Keyset.{IsOrder, after_holds}
use front_desk_scheduler.Reads.Walk.{read_paged_lem}

abbrev prx : ItemSelector
prx = record { id = none; number = some 12; repository = some (codes "prx") }

parse_item_selector-format_selector_example :
    parse_item_selector (format_selector prx) none ≡ ok prx
unfolding parse_item_selector trim is_space is_node_id qualified digits_from
parse_item_selector-format_selector_example =
    parse_item_selector-format_selector (codes " a/prx#012") none prx refl refl

abbrev ticket : TriageInput
ticket = record {
  item = codes "prx#12";
  reason = superseded;
  evidence = codes "done in #9";
  superseded_by = none;
  agent_label = codes "one";
}

abbrev won : ClaimVerdict
won = record {
  won = true;
  verdict = none;
  item_id = some (codes "i");
  number = some 12;
  repository = some (codes "prx");
  fencing = some 3;
  reason = none;
}

abbrev settings : Settings
settings = record { org = codes "o"; dry_run = false; target_is_pr = false }

-- The comment lands, and the close fails.
abbrev half : Answers
half = record { claim = some won; comment_lands = true; close_lands = false; release_lands = true }

run_ticket_lem_example :
    (counts is_release (run_ticket settings ticket half).calls
      ≡ (if acts_on settings ticket (some won) then 1 else 0))
    × (counts records_done (run_ticket settings ticket half).calls ≡ (
        if acts_on settings ticket (some won)
          && (not settings.dry_run && (half.comment_lands && half.close_lands))
        then 1
        else 0))
    × (counts is_close (run_ticket settings ticket half).calls ≡ (
        if acts_on settings ticket (some won) && (not settings.dry_run && half.comment_lands)
        then 1
        else 0))
run_ticket_lem_example = run_ticket_lem settings ticket half

abbrev by_length : String → String → Bool
by_length a b = ltb (length (codes a)) (length (codes b))

by_length-IsOrder : IsOrder by_length
by_length-IsOrder = record { flips = λ a b h. ground (arith, h) }

abbrev items : List String
items = "a" ∷ "bb" ∷ []

abbrev served : PageQuery → HttpAnswer String
served q = rows (take q.limit (filterb (after_holds (λ r c. r) by_length q.after) items))

read_paged_lem_example :
    read_paged (λ r c. r) served "SELECT item_id FROM items" ("item_id" ∷ []) (rows []) [] 3
    ≡ ok (items, resolve_head (rows []))
read_paged_lem_example =
    read_paged_lem (λ r c. r) by_length by_length-IsOrder served "SELECT item_id FROM items"
      "item_id" [] [] (rows []) items 3 (λ after. refl) ((refl, tt), (tt, tt)) (omega arith)
