-- ===== src/Worker/Names.antt =====
-- `canonicalItemId` (worker/lease/src/lease-core.mjs): which spellings of an item reach one object.
use mathlib.Core.List.{reverse, reverse-append, reverse-cons}
use front_desk_scheduler.Base.{
  ℕ, ◌+◌, ◌≡◌, refl, sym, ap, ◌∙◌, true, [], ◌∷◌, ◌++◌, leb, ◌&&◌, if◌then◌else◌, All, append-All,
  arith, Bool-cases, inl, inr, Text, is_space, trim_start, trim, to_lower,
}
use front_desk_scheduler.Worker.Router.{unless_empty, canonical_item_id}

-- Nothing but white space.
abbrev pub IsBlank : Text → Type 0
IsBlank = All (λ c. is_space c ≡ true)

reverse-IsBlank : (p : Text) → IsBlank p → IsBlank (reverse p)
reverse-IsBlank [] a = tt
reverse-IsBlank (c ∷ p) a =
    rw (reverse-cons c p) (append-All _ (reverse p) (c ∷ []) (reverse-IsBlank p a.1) (a.0, tt))

trim_start-front : (p t : Text) → IsBlank p → trim_start (p ++ t) ≡ trim_start t
unfolding trim_start
trim_start-front [] t a = refl
trim_start-front (c ∷ p) t a = rw a.0 (trim_start-front p t a.1)

trim_start-IsBlank : (p : Text) → IsBlank p → trim_start p ≡ []
unfolding trim_start
trim_start-IsBlank [] a = refl
trim_start-IsBlank (c ∷ p) a = rw a.0 (trim_start-IsBlank p a.1)

trim_start-back :
    (t q : Text)
    → IsBlank q
    → trim_start (reverse (trim_start (t ++ q))) ≡ trim_start (reverse (trim_start t))
unfolding trim_start
trim_start-back [] q a = rw (trim_start-IsBlank q a) refl
trim_start-back (c ∷ t) q a = elim (Bool-cases (is_space c)) [
  | inl e ↦ rw e (trim_start-back t q a)
  | inr e ↦ rw e (
      rw (reverse-append (c ∷ t) q)
        (trim_start-front (reverse q) (reverse (c ∷ t)) (reverse-IsBlank q a)))
]

trim-padded : (p t q : Text) → IsBlank p → IsBlank q → trim (p ++ (t ++ q)) ≡ trim t
unfolding trim
trim-padded p t q a b =
    ap (λ x. reverse (trim_start (reverse x))) (trim_start-front p (t ++ q) a)
    ∙ ap reverse (trim_start-back t q b)

abbrev lower : ℕ → ℕ
lower c = if leb b'A' c && leb c b'Z' then c + 32 else c

is_space-lower : (c : ℕ) → is_space (lower c) ≡ is_space c
unfolding is_space
is_space-lower c = ground arith

to_lower-append : (s t : Text) → to_lower (s ++ t) ≡ to_lower s ++ to_lower t
unfolding to_lower
to_lower-append [] t = refl
to_lower-append (c ∷ s) t = ap (λ x. lower c ∷ x) (to_lower-append s t)

to_lower-reverse : (t : Text) → to_lower (reverse t) ≡ reverse (to_lower t)
unfolding to_lower
to_lower-reverse [] = refl
to_lower-reverse (c ∷ t) =
    ap to_lower (reverse-cons c t)
    ∙ to_lower-append (reverse t) (c ∷ [])
    ∙ ap (λ x. x ++ (lower c ∷ [])) (to_lower-reverse t)
    ∙ sym (reverse-cons (lower c) (to_lower t))

trim_start-to_lower : (t : Text) → trim_start (to_lower t) ≡ to_lower (trim_start t)
unfolding trim_start to_lower
trim_start-to_lower [] = refl
trim_start-to_lower (c ∷ t) =
    rw (is_space-lower c)
      (elim (Bool-cases (is_space c)) [ inl e ↦ rw e (trim_start-to_lower t) | inr e ↦ rw e refl ])

trim-to_lower : (t : Text) → trim (to_lower t) ≡ to_lower (trim t)
unfolding trim
trim-to_lower t =
    ap (λ x. reverse (trim_start (reverse x))) (trim_start-to_lower t)
    ∙ ap (λ x. reverse (trim_start x)) (sym (to_lower-reverse (trim_start t)))
    ∙ ap reverse (trim_start-to_lower (reverse (trim_start t)))
    ∙ sym (to_lower-reverse (trim_start (reverse (trim_start t))))

-- Claimants that spell an item with other letter cases, and with white space around it, are routed
-- to one object.
pub canonical_item_id-one :
    (p q t u : Text)
    → IsBlank p
    → IsBlank q
    → to_lower u ≡ to_lower t
    → canonical_item_id (p ++ (u ++ q)) ≡ canonical_item_id t
unfolding canonical_item_id
canonical_item_id-one p q t u a b e =
    ap (λ x. unless_empty (to_lower x)) (trim-padded p u q a b)
    ∙ ap unless_empty (sym (trim-to_lower u) ∙ ap trim e ∙ trim-to_lower t)
