-- ===== src/Reads/Walk.antt =====
-- What `readPaged` (src/dolthub.ts) gathers from a table that is served in pages.
use front_desk_scheduler.Base.{
  ℕ, zero, suc, ◌+◌, ◌<◌, ◌≡◌, refl, sym, ap, ◌∙◌, subst, String, Bool, true, Option, none, some,
  List, [], ◌∷◌, ◌++◌, map, filterb, length, ltb, ltb→lt, ltb→le, length-append, take, drop,
  take-drop, take-short, last_of-snoc, arith, Bool-cases, inl, inr, ok,
}
use front_desk_scheduler.Reads.{
  HttpAnswer, rows, page_rows, query, resolve_head, Clause, PageQuery, after_cursor, page,
  read_pages, read_paged,
}
use front_desk_scheduler.Reads.Keyset.{
  IsOrder, after_holds, clauses_from-is_after, is_after, key, IsAscending, filterb-after,
}
use mathlib.Core.List.{append_assoc}

filterb-true : {R : Type 0} (rs : List R) → filterb (λ r. true) rs ≡ rs
filterb-true [] = refl
filterb-true (r ∷ rs) = ap (λ x. r ∷ x) (filterb-true rs)

split_at :
    {R : Type 0} (seen ys rest : List R) (y : R)
    → (seen ++ ys) ++ (y ∷ rest) ≡ (seen ++ (ys ++ (y ∷ []))) ++ rest
split_at seen ys rest y =
    append_assoc seen ys (y ∷ rest)
    ∙ ap (λ x. seen ++ x) (sym (append_assoc ys (y ∷ []) rest))
    ∙ sym (append_assoc seen (ys ++ (y ∷ [])) rest)

module _ {R : Type 0} (column : R → String → String) (lt : String → String → Bool)
    (order : IsOrder lt) (ask : PageQuery → HttpAnswer R) (base : String)
    (columns extra : List String) (head : Option String) (table : List R) where
  -- The table is one snapshot, and a page of it is its first rows among those that meet the
  -- condition.
  abbrev pub IsServed : Type 0
  IsServed =
      (after : Option (List Clause))
      → ask (record {
        base = base;
        at_commit = head;
        extra = extra;
        after = after;
        order = columns;
        limit = page_rows;
      })
        ≡ rows (take page_rows (filterb (after_holds column lt after) table))

  -- The rows that a cursor leaves.
  abbrev Leaves : Option (List String) → List R → Type 0
  Leaves cursor rest =
      filterb (after_holds column lt (after_cursor column ask base columns extra head cursor)) table
      ≡ rest

  filterb_ext : (p q : R → Bool) (rs : List R) → ((r : R) → p r ≡ q r) → filterb p rs ≡ filterb q rs
  filterb_ext p q [] h = refl
  filterb_ext p q (r ∷ rs) h = rw (h r, filterb_ext p q rs h) refl

  queried :
      IsServed
      → (cursor : Option (List String)) (rest : List R) → Leaves cursor rest
      → query true (ask (page column ask base columns extra head cursor)) ≡ ok (take page_rows rest)
  unfolding query
  queried serve cursor rest l =
      ap (query true) (serve (after_cursor column ask base columns extra head cursor))
      ∙ ap (λ x. ok (take page_rows x)) l

  -- After a page comes what the last of its rows leaves.
  Leaves-after :
      IsAscending column lt order columns table
      → (seen ys rest : List R) (y : R) → (seen ++ ys) ++ (y ∷ rest) ≡ table
      → Leaves (some (map (column y) columns)) rest
  Leaves-after asc seen ys rest y e =
      filterb_ext _ (λ r. is_after column lt (key column lt columns r) (key column lt columns y))
        table (λ r. clauses_from-is_after column lt r columns (map (column y) columns))
      ∙ ap (filterb _) (sym e)
      ∙ filterb-after column lt order columns (seen ++ ys) y rest
          (subst (IsAscending column lt order columns) (sym e) asc)

  read_pages-lem :
      IsServed
      → IsAscending column lt order columns table
      → (fuel : ℕ) (cursor : Option (List String)) (seen rest : List R) → Leaves cursor rest
      → seen ++ rest ≡ table
      → length rest < fuel
      → read_pages column ask base columns extra head fuel cursor seen ≡ ok table
  unfolding read_pages query
  read_pages-lem serve asc zero cursor seen rest l e f = absurd (omega (arith, f))
  read_pages-lem serve asc (suc fuel) cursor seen rest l e f =
      rw (queried serve cursor rest l)
        (elim (Bool-cases (ltb (length (take page_rows rest)) page_rows)) [
          | inl s ↦
              rw s
                (ap ok (ap (λ x. seen ++ x) (take-short page_rows rest (ltb→lt _ page_rows s)) ∙ e))
          | inr s ↦
              let got : List R = take page_rows rest in
              let (ys, y, g, z) =
                last_of-snoc got (omega (arith, ltb→le (length got) page_rows s)) in
              let whole : got ++ drop page_rows rest ≡ rest = take-drop page_rows rest in
              let parts : (seen ++ got) ++ drop page_rows rest ≡ table =
                append_assoc seen got (drop page_rows rest) ∙ ap (λ x. seen ++ x) whole ∙ e in
              let count : length got + length (drop page_rows rest) ≡ length rest =
                sym (length-append got (drop page_rows rest)) ∙ ap length whole in
              rw (s, z)
                (read_pages-lem serve asc fuel (some (map (column y) columns)) (seen ++ got)
                  (drop page_rows rest)
                  (Leaves-after asc seen ys (drop page_rows rest) y (
                    split_at seen ys (drop page_rows rest) y
                    ∙ ap (λ x. (seen ++ x) ++ drop page_rows rest) (sym g)
                    ∙ parts))
                  parts (omega (arith, f, count, ltb→le (length got) page_rows s)))
        ])

-- A paged read ends with the whole table, in the order of its key and at the commit that was
-- resolved: where each page is served from one snapshot of a table with distinct keys, and more
-- requests are allowed than the table has rows.
pub read_paged_lem :
    {R : Type 0} (column : R → String → String) (lt : String → String → Bool) (order : IsOrder lt)
    (ask : PageQuery → HttpAnswer R) (base c : String) (cs extra : List String)
    (heads : HttpAnswer String) (table : List R) (fuel : ℕ)
    → IsServed column lt order ask base (c ∷ cs) extra (resolve_head heads) table
    → IsAscending column lt order (c ∷ cs) table
    → length table < fuel
    → read_paged column ask base (c ∷ cs) heads extra fuel ≡ ok (table, resolve_head heads)
unfolding read_paged
read_paged_lem column lt order ask base c cs extra heads table fuel serve asc f =
    let all = filterb-true table in
    let e =
      read_pages-lem column lt order ask base (c ∷ cs) extra (resolve_head heads) table serve asc
        fuel none [] table all refl f in
    rw e refl
