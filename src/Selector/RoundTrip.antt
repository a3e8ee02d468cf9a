-- ===== src/Selector/RoundTrip.antt =====
-- How src/selector.ts reads back the selectors that it renders.
use front_desk_scheduler.Base.{
  ℕ, ◌≡◌, refl, sym, ap, ◌∙◌, subst, Bool, true, false, false≢true, All→every, middle-All,
  decimal-cons, digits_from-some, not, Option, none, some, List, [], ◌∷◌, ◌++◌, every, All,
  append-All, every→All, map-All, ◌==◌, arith, Bool-cases, both_true, inl, inr, Text, codes,
  is_digit, is_space, split_on, trim, decimal, digits_from-decimal, decimal-IsDigits, trim-IsSolid,
  split_on-none, split_on-at, Result, ok, err,
}
use front_desk_scheduler.Selector.{
  ItemSelector, SelectorError, is_id_char, is_name_char, is_empty, is_some_of, after_prefix,
  is_tail, is_node_id, numbered, owned, qualified_parts, qualified, is_digits, drop_hash, bare,
  given, contradicts_scope, select, parse_bare, parse_qualified, parse_trimmed, parse_item_selector,
  format_selector,
}

-- A node id, or a number in a repository that has a name.
pub data IsNamed : ItemSelector → Type 0 where
  node :
      {t : Text}
      → is_node_id t ≡ true
      → IsNamed (record { id = some t; number = none; repository = none })
  numbered_in :
      {r : Text} {n : ℕ}
      → is_some_of is_name_char r ≡ true
      → IsNamed (record { id = none; number = some n; repository = some r })

after_prefix-every :
    (p t : Text)
    → every is_id_char p ≡ true
    → is_tail (after_prefix p t) ≡ true
    → every is_id_char t ≡ true
unfolding after_prefix
after_prefix-every [] t h k = (both_true (not (is_empty t)) (every is_id_char t) k).1
after_prefix-every (c ∷ p) [] h k = refl
after_prefix-every (c ∷ p) (d ∷ t) h k = elim (Bool-cases (c == d)) [
  | inl e ↦
      let same : c ≡ d = ground (arith, e) in
      let (f, g) = both_true (is_id_char c) (every is_id_char p) h in
      let step : after_prefix (c ∷ p) (d ∷ t) ≡ after_prefix p t = rw e refl in
      let first : is_id_char d ≡ true = ap is_id_char (sym same) ∙ f in
      rw first (after_prefix-every p t g (ap is_tail (sym step) ∙ k))
  | inr e ↦
      let step : after_prefix (c ∷ p) (d ∷ t) ≡ none = rw e refl in
      let no : false ≡ true = ap is_tail (sym step) ∙ k in ground (arith, no)
]

id_char-solid : (c : ℕ) → is_id_char c ≡ true → is_space c ≡ false
unfolding is_space
id_char-solid c h = ground (arith, h)

name_char-solid : (c : ℕ) → is_name_char c ≡ true → is_space c ≡ false
unfolding is_space
name_char-solid c h = ground (arith, h)

name_char-slash : (c : ℕ) → is_name_char c ≡ true → (c == b'/') ≡ false
name_char-slash c h = ground (arith, h)

name_char-hash : (c : ℕ) → is_name_char c ≡ true → (c == b'#') ≡ false
name_char-hash c h = ground (arith, h)

digit-name_char : (c : ℕ) → is_digit c ≡ true → is_name_char c ≡ true
digit-name_char c h = ground (arith, h)

module _ (r : Text) (n : ℕ) (h : is_some_of is_name_char r ≡ true) where
  abbrev shown : Text
  shown = r ++ (b'#' ∷ decimal n)

  name_lem : All (λ c. is_name_char c ≡ true) r
  name_lem = every→All is_name_char r (both_true (not (is_empty r)) (every is_name_char r) h).1

  digits_lem : All (λ c. is_name_char c ≡ true) (decimal n)
  digits_lem = map-All _ _ digit-name_char (decimal n) (decimal-IsDigits n)

  -- What holds of the characters of a name, and of the hash, holds of the whole text.
  shown-All : (P : ℕ → Type 0) → ((c : ℕ) → is_name_char c ≡ true → P c) → P b'#' → All P shown
  shown-All P f p =
      append-All P r _ (map-All _ P f r name_lem) (p, map-All _ P f (decimal n) digits_lem)

  shown-trim : trim shown ≡ shown
  unfolding is_space
  shown-trim = trim-IsSolid shown (shown-All _ name_char-solid refl)

  shown-some : is_empty shown ≡ false
  shown-some = go r
    where
      go : (q : Text) → is_empty (q ++ (b'#' ∷ decimal n)) ≡ false
      go [] = refl
      go (c ∷ q) = refl

  shown-no_node : is_node_id shown ≡ false
  unfolding is_node_id
  shown-no_node = elim (Bool-cases (is_node_id shown)) [
    | inl e ↦
        let all = every→All is_id_char shown (after_prefix-every (codes "PVTI_") shown refl e) in
        let hash : is_id_char b'#' ≡ true = middle-All _ r b'#' (decimal n) all in
        absurd (false≢true hash)
    | inr e ↦ e
  ]

  decimal-digits : is_digits (decimal n) ≡ true
  decimal-digits =
      let (c, t, e) = decimal-cons n in
      let all = All→every is_digit (decimal n) (decimal-IsDigits n) in
      let some_digit : is_empty (decimal n) ≡ false = ap is_empty e in rw (some_digit, all) refl

  shown-split : split_on b'#' shown ≡ r ∷ decimal n ∷ []
  shown-split =
      split_on-at b'#' r (decimal n) (map-All _ _ name_char-hash r name_lem)
      ∙ ap (λ x. r ∷ x)
          (split_on-none b'#' (decimal n) (map-All _ _ name_char-hash (decimal n) digits_lem))

  shown-qualified : qualified is_digits shown ≡ some (none, r, decimal n)
  unfolding qualified
  shown-qualified =
      ap (qualified_parts is_digits) (split_on-none b'/' shown (shown-All _ name_char-slash refl))
      ∙ ap (λ x. owned none (numbered is_digits x)) shown-split
      ∙ rw (h, decimal-digits) refl

  shown-parsed :
      parse_item_selector shown none
      ≡ ok (record { id = none; number = some n; repository = some r })
  unfolding parse_item_selector
  shown-parsed =
      ap (λ t. parse_trimmed t none) shown-trim
      ∙ rw (shown-some, shown-no_node, shown-qualified, digits_from-decimal n) refl

node-id_chars : (t : Text) → is_node_id t ≡ true → every is_id_char t ≡ true
unfolding is_node_id
node-id_chars t h = after_prefix-every (codes "PVTI_") t refl h

node-some : (t : Text) → is_node_id t ≡ true → is_empty t ≡ false
unfolding is_node_id after_prefix
node-some [] h = absurd (false≢true h)
node-some (c ∷ t) h = refl

-- A selector that names an item reads back as it was.
format-parsed :
    (sel : ItemSelector) → IsNamed sel → parse_item_selector (format_selector sel) none ≡ ok sel
unfolding format_selector parse_item_selector
format-parsed _ (node {t} h) =
    let chars = every→All is_id_char t (node-id_chars t h) in
    ap (λ x. parse_trimmed x none) (trim-IsSolid t (map-All _ _ id_char-solid t chars))
    ∙ rw (node-some t h, h) refl
format-parsed _ (numbered_in {r} {n} h) = shown-parsed r n h

-- What a parse gives names an item.
abbrev NamesItem : Result SelectorError ItemSelector → Type 0
NamesItem (err e) = Unit
NamesItem (ok sel) = IsNamed sel

-- The scope is missing, empty, or the name of a repository.
abbrev pub is_scope : Option Text → Bool
is_scope none = true
is_scope (some r) = every is_name_char r

select-IsNamed :
    (r d : Text) → is_some_of is_name_char r ≡ true → is_digits d ≡ true → IsNamed (select r d)
select-IsNamed r d h k =
    let (n, e) =
      digits_from-some d 0
        (every→All is_digit d (both_true (not (is_empty d)) (every is_digit d) k).1) in
    rw e (numbered_in h)

-- The parts of a qualified text.
abbrev IsQualified : Option (Option Text × Text × Text) → Type 0
IsQualified none = Unit
IsQualified (some (o, r, d)) = (is_some_of is_name_char r ≡ true) × (is_digits d ≡ true)

owned-IsQualified :
    (o : Option Text) (ws : List Text) → IsQualified (owned o (numbered is_digits ws))
owned-IsQualified o [] = tt
owned-IsQualified o (r ∷ []) = tt
owned-IsQualified o (r ∷ d ∷ []) = elim (Bool-cases (is_some_of is_name_char r)) [
  | inl e ↦ elim (Bool-cases (is_digits d)) [ inl f ↦ rw (e, f) (e, f) | inr f ↦ rw (e, f) tt ]
  | inr e ↦ rw e tt
]
owned-IsQualified o (r ∷ d ∷ q ∷ ws) = tt

parts-IsQualified : (ws : List Text) → IsQualified (qualified_parts is_digits ws)
parts-IsQualified [] = tt
parts-IsQualified (w ∷ []) = owned-IsQualified none (split_on b'#' w)
parts-IsQualified (o ∷ w ∷ []) = elim (Bool-cases (is_some_of is_name_char o)) [
  | inl e ↦ rw e (owned-IsQualified (some o) (split_on b'#' w))
  | inr e ↦ rw e tt
]
parts-IsQualified (o ∷ w ∷ q ∷ ws) = tt

abbrev IsScope : Option Text → Type 0
IsScope none = Unit
IsScope (some r) = is_some_of is_name_char r ≡ true

given-IsScope : (repo : Option Text) → is_scope repo ≡ true → IsScope (given repo)
given-IsScope none h = tt
given-IsScope (some []) h = tt
given-IsScope (some (c ∷ r)) h = h

bare-NamesItem :
    (t : Text) (repo : Option Text) → IsScope repo → NamesItem (parse_bare repo (bare t))
unfolding bare
bare-NamesItem t repo h = elim (Bool-cases (is_digits (drop_hash t))) [
  | inl e ↦ rw e (go repo h e)
  | inr e ↦ rw e tt
]
  where
    go :
        (q : Option Text)
        → IsScope q
        → is_digits (drop_hash t) ≡ true
        → NamesItem (parse_bare q (some (drop_hash t)))
    go none h e = tt
    go (some r) h e = select-IsNamed r (drop_hash t) h e

qualified-NamesItem :
    (t : Text) (repo : Option Text) (o : Option (Option Text × Text × Text))
    → IsScope repo
    → IsQualified o
    → NamesItem (parse_qualified t repo o)
qualified-NamesItem t repo none h q = bare-NamesItem t repo h
qualified-NamesItem t repo (some (o, r, d)) h q = elim (Bool-cases (contradicts_scope repo r)) [
  | inl e ↦ rw e tt
  | inr e ↦ rw e (select-IsNamed r d q.0 q.1)
]

parse-NamesItem :
    (raw : Text) (repo : Option Text)
    → is_scope repo ≡ true
    → NamesItem (parse_item_selector raw repo)
unfolding parse_item_selector qualified
parse-NamesItem raw repo h = elim (Bool-cases (is_empty (trim raw))) [
  | inl e ↦ rw e tt
  | inr e ↦ elim (Bool-cases (is_node_id (trim raw))) [
    | inl f ↦ rw (e, f) (node f)
    | inr f ↦
        rw (e, f)
          (qualified-NamesItem (trim raw) (given repo)
            (qualified_parts is_digits (split_on b'/' (trim raw))) (given-IsScope repo h)
            (parts-IsQualified (split_on b'/' (trim raw))))
  ]
]

-- What a selector is rendered as reads back as the same selector, without a scope: whatever text it
-- was parsed from, and in whatever scope that is missing, empty or the name of a repository.
pub parse_item_selector-format_selector :
    (raw : Text) (repo : Option Text) (sel : ItemSelector)
    → is_scope repo ≡ true
    → parse_item_selector raw repo ≡ ok sel
    → parse_item_selector (format_selector sel) none ≡ ok sel
parse_item_selector-format_selector raw repo sel h e =
    format-parsed sel (subst NamesItem e (parse-NamesItem raw repo h))
