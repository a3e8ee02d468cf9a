-- ===== src/Selector.antt =====
-- src/selector.ts: naming one item of the board. Texts are lists of code points, and an issue number
-- is below 2 ^ 53, where `Number` is exact. The regular expressions are read off as splits, since
-- their classes hold neither the slash nor the hash.
pub mod RoundTrip
use front_desk_scheduler.Base.{
  ℕ, Bool, true, false, ◌&&◌, ◌||◌, not, Option, none, some, List, [], ◌∷◌, ◌++◌, every, leb, ◌==◌,
  if◌then◌else◌, Text, codes, is_digit, digits_from, split_on, trim, same_text, decimal, Result, ok,
  err,
}

pub record ItemSelector : Type 0 where
  pub id : Option Text
  pub number : Option ℕ
  pub repository : Option Text

pub data SelectorError : Type 0 where
  empty_selector : SelectorError
  contradicts : Text → Text → SelectorError
  not_enough unparsable : SelectorError

abbrev pub is_letter : ℕ → Bool
is_letter c = (leb b'A' c && leb c b'Z') || (leb b'a' c && leb c b'z')

-- `[A-Za-z0-9_-]` and `[A-Za-z0-9._-]`.
abbrev pub is_id_char : ℕ → Bool
is_id_char c = is_letter c || (is_digit c || (c == b'_' || c == b'-'))

abbrev pub is_name_char : ℕ → Bool
is_name_char c = is_id_char c || c == b'.'

abbrev pub is_empty : Text → Bool
is_empty [] = true
is_empty _ = false

-- One or more characters of a class.
abbrev pub is_some_of : (ℕ → Bool) → Text → Bool
is_some_of p t = not (is_empty t) && every p t

unfoldable pub after_prefix : Text → Text → Option Text
after_prefix [] t = some t
after_prefix (c ∷ cs) [] = none
after_prefix (c ∷ cs) (d ∷ ds) = let rest = after_prefix cs ds in if c == d then rest else none

abbrev pub is_tail : Option Text → Bool
is_tail none = false
is_tail (some t) = is_some_of is_id_char t

unfoldable pub is_node_id : Text → Bool
unfolding after_prefix
is_node_id t = is_tail (after_prefix (codes "PVTI_") t)

-- `repo#digits`, where `is_number` is the class of the digits.
abbrev pub numbered : (Text → Bool) → List Text → Option (Text × Text)
numbered is_number (repo ∷ number ∷ []) =
    if is_some_of is_name_char repo && is_number number then some (repo, number) else none
numbered is_number _ = none

-- `[owner/]repo#digits`: the owner, the repository and the digits.
abbrev pub owned : Option Text → Option (Text × Text) → Option (Option Text × Text × Text)
owned o none = none
owned o (some (repo, number)) = some (o, repo, number)

abbrev pub qualified_parts : (Text → Bool) → List Text → Option (Option Text × Text × Text)
qualified_parts is_number (rest ∷ []) = owned none (numbered is_number (split_on b'#' rest))
qualified_parts is_number (owner ∷ rest ∷ []) =
    if is_some_of is_name_char owner
    then owned (some owner) (numbered is_number (split_on b'#' rest))
    else none
qualified_parts is_number _ = none

unfoldable pub qualified : (Text → Bool) → Text → Option (Option Text × Text × Text)
unfolding split_on
qualified is_number t = qualified_parts is_number (split_on b'/' t)

abbrev pub is_digits : Text → Bool
is_digits = is_some_of is_digit

abbrev pub drop_hash : Text → Text
drop_hash [] = []
drop_hash (c ∷ cs) = if c == b'#' then cs else c ∷ cs

unfoldable pub bare : Text → Option Text
bare t = if is_digits (drop_hash t) then some (drop_hash t) else none

-- A text that is empty counts as missing.
abbrev pub given : Option Text → Option Text
given none = none
given (some t) = if is_empty t then none else some t

abbrev pub contradicts_scope : Option Text → Text → Bool
contradicts_scope none repository = false
contradicts_scope (some repo) repository = not (same_text repo repository)

abbrev pub or_empty : Option Text → Text
or_empty none = []
or_empty (some t) = t

abbrev pub select : Text → Text → ItemSelector
select repository number = record {
  id = none;
  number = digits_from 0 number;
  repository = some repository;
}

abbrev pub parse_bare : Option Text → Option Text → Result SelectorError ItemSelector
parse_bare repo none = err unparsable
parse_bare none (some number) = err not_enough
parse_bare (some repo) (some number) = ok (select repo number)

abbrev pub parse_qualified :
    Text → Option Text → Option (Option Text × Text × Text) → Result SelectorError ItemSelector
parse_qualified text repo none = parse_bare repo (bare text)
parse_qualified text repo (some (owner, repository, number)) =
    if contradicts_scope repo repository
    then err (contradicts repository (or_empty repo))
    else ok (select repository number)

abbrev pub parse_trimmed : Text → Option Text → Result SelectorError ItemSelector
parse_trimmed text repo =
    if is_empty text
    then err empty_selector
    else if is_node_id text
    then ok (record { id = some text; number = none; repository = none })
    else parse_qualified text repo (qualified is_digits text)

unfoldable pub parse_item_selector : Text → Option Text → Result SelectorError ItemSelector
parse_item_selector raw repo = parse_trimmed (trim raw) (given repo)

-- A missing field is rendered as `undefined`.
abbrev pub number_text : Option ℕ → Text
number_text none = codes "undefined"
number_text (some n) = decimal n

abbrev pub repository_text : Option Text → Text
repository_text none = codes "undefined"
repository_text (some r) = r

abbrev pub format_id : Option Text → ItemSelector → Text
format_id (some id) sel = id
format_id none sel = repository_text sel.repository ++ (b'#' ∷ number_text sel.number)

unfoldable pub format_selector : ItemSelector → Text
format_selector sel = format_id sel.id sel

-- A row of the board.
pub record BoardRow : Type 0 where
  pub id : Text
  pub number : ℕ
  pub repository : Text

abbrev pub same_number : Option ℕ → ℕ → Bool
same_number none n = false
same_number (some m) n = n == m

abbrev pub same_repository : Option Text → Text → Bool
same_repository none r = false
same_repository (some q) r = same_text r q

abbrev pub matches_id : Option Text → ItemSelector → BoardRow → Bool
matches_id (some id) sel row = same_text row.id id
matches_id none sel row =
    same_number sel.number row.number && same_repository sel.repository row.repository

unfoldable pub selector_matches : ItemSelector → BoardRow → Bool
selector_matches sel row = matches_id (given sel.id) sel row
