-- ===== src/Writeback/Convergence.antt =====
-- `planWriteback` (src/writeback.ts): one definition of a blocker, and a plan that, once applied, plans nothing more.
use front_desk_scheduler.Base.{
  ℕ, ◌≡◌, refl, ap, ◌∙◌, String, Bool, true, false, Option, none, some, List, [], ◌∷◌, All, ◌=ₛ◌,
  =ₛ_refl, arith, Bool-cases, Option-cases, inl, inr, Counts, count_of,
}
use front_desk_scheduler.Scheduling.{RawTypedEdge, Tally, tally, tally_edge, empty_tally}
use front_desk_scheduler.Status.{Status, status_text, parse_status, derive_status}
use front_desk_scheduler.Status.Derivation.{derive_status-stable}
use front_desk_scheduler.Writeback.{
  BoardItem, DerivationRow, ref_of, by_ref, RowPlan, quiet, skip, write, unrecognised_status, shown,
  input_of, plan_status, plan_row, plan_rows, add_plan, WritebackPlan, plan_writeback, open_ids_of,
  open_blockers_of, count_blockers, same_status,
}

count_blockers-tally :
    (open_ids : List String) (es : List RawTypedEdge) (t : Tally)
    → count_blockers open_ids es t.open_blockers ≡ (tally open_ids es t).open_blockers
unfolding count_blockers tally tally_edge
count_blockers-tally open_ids [] t = refl
count_blockers-tally open_ids (e ∷ es) t =
    ground (arith, count_blockers-tally open_ids es (tally_edge open_ids e t))

-- The blocker counts of the writeback are those of the ranking, over the same open set.
pub open_blockers_of-tally :
    (edges : List RawTypedEdge) (open_ids : List String)
    → open_blockers_of edges open_ids ≡ (tally open_ids edges empty_tally).open_blockers
unfolding open_blockers_of
open_blockers_of-tally edges open_ids = count_blockers-tally open_ids edges empty_tally

parse_status-text : (s : Status) → parse_status (status_text s) ≡ some s
unfolding parse_status ◌=ₛ◌
parse_status-text Status.todo = refl
parse_status-text Status.in_progress = refl
parse_status-text Status.blocked = refl
parse_status-text Status.done = refl

same_status_refl : (s : Status) → same_status s s ≡ true
same_status_refl s = =ₛ_refl (status_text s)

-- The card of a row after the row's write, if it has one.
abbrev pub written : RowPlan → BoardItem → BoardItem
written (write w) i = record i { status = status_text w.to }
written _ i = i

abbrev pub map_card : (BoardItem → BoardItem) → Option BoardItem → Option BoardItem
map_card f none = none
map_card f (some i) = some (f i)

-- `board'` shows for each row the card that `board` shows, with the row's write applied.
abbrev pub IsApplied :
    Counts → Option (List String) → List BoardItem → List BoardItem → List DerivationRow → Type 0
IsApplied blockers held board board' = All (λ row.
    let ref = ref_of row.repository row.number in
    by_ref board' ref ≡ map_card (written (plan_row blockers held board row)) (by_ref board ref))

unfoldable pub is_write : RowPlan → Bool
is_write (write w) = true
is_write _ = false

module _ (row : DerivationRow) (n : ℕ) (held : Option (List String)) where
  -- What the loop does for the row when its card is `i`.
  abbrev plan_shown : BoardItem → Option Status → RowPlan
  plan_shown i none =
      skip
        (record { ref = ref_of row.repository row.number; reason = unrecognised_status i.status })
  plan_shown i (some current) = plan_status row n held (some i) current

  abbrev plan_card : BoardItem → RowPlan
  plan_card i = plan_shown i (parse_status i.status)

  abbrev row_from : Option BoardItem → RowPlan
  row_from item = elim (parse_status (shown row item)) [
    | none ↦ skip (record {
      ref = ref_of row.repository row.number;
      reason = unrecognised_status (shown row item);
    })
    | some current ↦ plan_status row n held item current
  ]

  plan_status_underived :
      (i : BoardItem) (c : Status)
      → derive_status (input_of row n held c) ≡ none
      → (is_write (plan_status row n held (some i) c) ≡ false)
        × (written (plan_status row n held (some i) c) i ≡ i)
  unfolding plan_status is_write
  plan_status_underived i c e = elim (Bool-cases (row.origin =ₛ "github")) [
    | inl b ↦ (ground arith, ground arith)
    | inr b ↦ (ground arith, ground arith)
  ]

  plan_status_derived :
      (i : BoardItem) (c to : Status)
      → derive_status (input_of row n held c) ≡ some to
      → same_status c to ≡ true
      → (is_write (plan_status row n held (some i) c) ≡ false)
        × (written (plan_status row n held (some i) c) i ≡ i)
  unfolding plan_status is_write
  plan_status_derived i c to e s = (ground arith, ground arith)

  written-plan_status :
      (i : BoardItem) (c to : Status)
      → derive_status (input_of row n held c) ≡ some to
      → same_status c to ≡ false
      → written (plan_status row n held (some i) c) i ≡ record i { status = status_text to }
  unfolding plan_status
  written-plan_status i c to e s = ground arith

  settled_quiet :
      (i : BoardItem) (c : Status)
      → parse_status i.status ≡ some c
      → (is_write (plan_status row n held (some i) c) ≡ false)
        × (written (plan_status row n held (some i) c) i ≡ i)
      → is_write (plan_card (written (plan_status row n held (some i) c) i)) ≡ false
  settled_quiet i c e (quiet_now, same) =
      ap (λ j. is_write (plan_card j)) same ∙ ap (λ o. is_write (plan_shown i o)) e ∙ quiet_now

  settled_written :
      (i : BoardItem) (c to : Status)
      → derive_status (input_of row n held c) ≡ some to
      → same_status c to ≡ false
      → is_write (plan_card (written (plan_status row n held (some i) c) i)) ≡ false
  settled_written i c to e s =
      let j = record i { status = status_text to } in
      ap (λ k. is_write (plan_card k)) (written-plan_status i c to e s)
      ∙ ap (λ o. is_write (plan_shown j o)) (parse_status-text to)
      ∙ (plan_status_derived j to to (derive_status-stable (input_of row n held c) to e)
          (same_status_refl to)).0

  settled :
      (i : BoardItem) (c : Status)
      → parse_status i.status ≡ some c
      → is_write (plan_card (written (plan_status row n held (some i) c) i)) ≡ false
  settled i c e = elim (Option-cases (derive_status (input_of row n held c))) [
    | inl none_here ↦ settled_quiet i c e (plan_status_underived i c none_here)
    | inr (to, some_here) ↦ elim (Bool-cases (same_status c to)) [
      | inl t ↦ settled_quiet i c e (plan_status_derived i c to some_here t)
      | inr f ↦ settled_written i c to some_here f
    ]
  ]

  plan_card_settled : (i : BoardItem) → is_write (plan_card (written (plan_card i) i)) ≡ false
  unfolding is_write
  plan_card_settled i = elim (Option-cases (parse_status i.status)) [
    | inl e ↦
        ap (λ o. is_write (plan_card (written (plan_shown i o) i))) e
        ∙ ap (λ o. is_write (plan_shown i o)) e
    | inr (c, e) ↦ ap (λ o. is_write (plan_card (written (plan_shown i o) i))) e ∙ settled i c e
  ]

  -- A row without a card is never written.
  absent_quiet :
      (o : Option Status)
      → is_write (elim o [
        | none ↦ skip (record {
          ref = ref_of row.repository row.number;
          reason = unrecognised_status row.status;
        })
        | some current ↦ plan_status row n held none current
      ])
        ≡ false
  unfolding is_write plan_status
  absent_quiet none = refl
  absent_quiet (some c) = elim (Bool-cases (row.origin =ₛ "github")) [
    | inl b ↦ ground arith
    | inr b ↦ ground arith
  ]

  row_settled :
      (here : Option BoardItem)
      → is_write (row_from (map_card (written (row_from here)) here)) ≡ false
  row_settled none = absent_quiet (parse_status row.status)
  row_settled (some i) = plan_card_settled i

plan_row_settled :
    (blockers : Counts) (held : Option (List String)) (board board' : List BoardItem)
    → (row : DerivationRow)
    → (by_ref board' (ref_of row.repository row.number)
        ≡ map_card
            (written (plan_row blockers held board row))
            (by_ref board (ref_of row.repository row.number)))
    → is_write (plan_row blockers held board' row) ≡ false
unfolding plan_row
plan_row_settled blockers held board board' row e =
    let n = count_of row.item_id blockers in
    ap (λ o. is_write (row_from row n held o)) e
    ∙ row_settled row n held (by_ref board (ref_of row.repository row.number))

add_quiet :
    (r : RowPlan) (p : WritebackPlan) → is_write r ≡ false → (add_plan r p).writes ≡ p.writes
unfolding add_plan is_write
add_quiet quiet p e = refl
add_quiet (skip s) p e = refl
add_quiet (write w) p e = ground arith

plan_rows_settled :
    (blockers : Counts) (held : Option (List String)) (board board' : List BoardItem)
    → (rows : List DerivationRow) → IsApplied blockers held board board' rows
    → (plan_rows blockers held board' rows).writes ≡ []
unfolding plan_rows
plan_rows_settled blockers held board board' [] applied = refl
plan_rows_settled blockers held board board' (row ∷ rows) (e, applied) =
    add_quiet (plan_row blockers held board' row) (plan_rows blockers held board' rows)
      (plan_row_settled blockers held board board' row e)
    ∙ plan_rows_settled blockers held board board' rows applied

-- With the rows, the edges and the held items unchanged, once every row's write is on its card,
-- planning again writes nothing.
pub plan_writeback_settles :
    (rows : List DerivationRow) (edges : List RawTypedEdge) (board board' : List BoardItem)
    → (held : Option (List String))
    → IsApplied (open_blockers_of edges (open_ids_of rows)) held board board' rows
    → (plan_writeback rows edges board' held).writes ≡ []
unfolding plan_writeback
plan_writeback_settles rows edges board board' held applied =
    plan_rows_settled (open_blockers_of edges (open_ids_of rows)) held board board' rows applied
