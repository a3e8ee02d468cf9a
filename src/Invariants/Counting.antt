-- ===== src/Invariants/Counting.antt =====
-- The owner map of `assertInvariants` (src/invariants.ts) in any world: it holds, of each item,
-- every agent that points at it, and S1 names them as soon as there are two.
use front_desk_scheduler.Base.{
  ℕ, ◌<◌, ◌≤◌, ◌≡◌, ◌≢◌, refl, sym, ap, ◌∙◌, inl, inr, String, Bool, true, false, ◌||◌, Option,
  none, some, List, [], ◌∷◌, ◌++◌, ◌==◌, if◌then◌else◌, arith, Bool-cases, any, length, has_text,
  ◌&&◌, =ₛ_iff,
}
use mathlib.Core.List.{append-nil, append_assoc}
use front_desk_scheduler.World.{World, Agent, agent_of}
use front_desk_scheduler.Invariants.{
  Finding, double_claim, Holders, add_holder, holders_from, holders_of, s1_findings,
  safety_findings,
}

-- The finding is the double claim of the item, and names both agents.
abbrev pub names_both : ℕ → String → String → Finding → Bool
names_both n a b (double_claim m as_) = m == n && (has_text a as_ && has_text b as_)
names_both n a b _ = false

abbrev points_at : ℕ → Option ℕ → Bool
points_at n none = false
points_at n (some m) = m == n

-- The agents that point at `n`, in their order.
abbrev pub pointing : ℕ → List Agent → List String
pointing n [] = []
pointing n (g ∷ gs) = (if points_at n g.current_item then g.id ∷ [] else []) ++ pointing n gs

holders_of-add_holder :
    (n m : ℕ) (a : String) (o : Holders)
    → holders_of n (add_holder m a o) ≡ holders_of n o ++ (if m == n then a ∷ [] else [])
unfolding holders_of add_holder
holders_of-add_holder n m a [] = ground arith
holders_of-add_holder n m a ((k, as_) ∷ o) = elim (Bool-cases (k == m)) [
  | inl hit ↦ rw (hit, add_holder) (same (k == n) (m == n) (ground arith))
  | inr miss ↦
      rw (miss, add_holder) (other (k == n) (λ t. ground arith) (holders_of-add_holder n m a o))
]
  where
    same :
        (t u : Bool)
        → u ≡ t
        → (if t then as_ ++ (a ∷ []) else holders_of n o)
          ≡ (if t then as_ else holders_of n o) ++ (if u then a ∷ [] else [])
    same true true e = refl
    same true false e = cc
    same false true e = cc
    same false false e = sym (append-nil (holders_of n o))

    other :
        (t : Bool)
        → (t ≡ true → (m == n) ≡ false)
        → holders_of n (add_holder m a o) ≡ holders_of n o ++ (if m == n then a ∷ [] else [])
        → (if t then as_ else holders_of n (add_holder m a o))
          ≡ (if t then as_ else holders_of n o) ++ (if m == n then a ∷ [] else [])
    other true e ih = rw (e refl) (sym (append-nil as_))
    other false e ih = ih

pub holders_of-holders_from :
    (n : ℕ) (o : Holders) (gs : List Agent)
    → holders_of n (holders_from o gs) ≡ holders_of n o ++ pointing n gs
unfolding holders_from
holders_of-holders_from n o [] = sym (append-nil (holders_of n o))
holders_of-holders_from n o (g ∷ gs) =
    go g.current_item (holders_of-holders_from n o gs)
      (λ m. holders_of-holders_from n (add_holder m g.id o) gs)
  where
    go :
        (c : Option ℕ)
        → holders_of n (holders_from o gs) ≡ holders_of n o ++ pointing n gs
        → ((m : ℕ)
            → holders_of n (holders_from (add_holder m g.id o) gs)
              ≡ holders_of n (add_holder m g.id o) ++ pointing n gs)
        → holders_of n
            (elim c [ none ↦ holders_from o gs | some m ↦ holders_from (add_holder m g.id o) gs ])
          ≡ holders_of n o ++ ((if points_at n c then g.id ∷ [] else []) ++ pointing n gs)
    go none here there = here
    go (some m) here there =
        there m
        ∙ (ap (λ x. x ++ pointing n gs) (holders_of-add_holder n m g.id o)
            ∙ append_assoc (holders_of n o) (if m == n then g.id ∷ [] else []) (pointing n gs))

s1_speaks :
    (n : ℕ) (a b : String) (o : Holders)
    → 1 < length (holders_of n o)
    → has_text a (holders_of n o) ≡ true
    → has_text b (holders_of n o) ≡ true
    → any (names_both n a b) (s1_findings o) ≡ true
unfolding holders_of s1_findings
s1_speaks n a b [] h p q = absurd (omega arith)
s1_speaks n a b ((m, as_) ∷ o) h p q = ground (arith, s1_speaks n a b o)

any-append : (f : Finding → Bool) (xs ys : List Finding) → any f (xs ++ ys) ≡ (any f xs || any f ys)
any-append f [] ys = refl
any-append f (x ∷ xs) ys = ground (arith, any-append f xs ys)

pointing-has_text :
    (n : ℕ) (gs : List Agent) (a : String) (g : Agent)
    → agent_of gs a ≡ some g
    → g.current_item ≡ some n
    → has_text a (pointing n gs) ≡ true
unfolding agent_of has_text
pointing-has_text n [] a g e p = cc
pointing-has_text n (x ∷ gs) a g e p = ground (arith, pointing-has_text n gs a g)

one_points :
    (n : ℕ) (gs : List Agent) (a : String) (g : Agent)
    → agent_of gs a ≡ some g
    → g.current_item ≡ some n
    → 1 ≤ length (pointing n gs)
unfolding agent_of
one_points n [] a g e p = cc
one_points n (x ∷ gs) a g e p = ground (arith, one_points n gs a g)

two_point :
    (n : ℕ) (gs : List Agent) (a b : String) (g h : Agent)
    → a ≢ b
    → agent_of gs a ≡ some g
    → agent_of gs b ≡ some h
    → g.current_item ≡ some n
    → h.current_item ≡ some n
    → 2 ≤ length (pointing n gs)
unfolding agent_of
two_point n [] a b g h ne e f p q = cc
two_point n (x ∷ gs) a b g h ne e f p q = ground (
  arith,
  =ₛ_iff x.id a,
  =ₛ_iff x.id b,
  one_points n gs a g,
  one_points n gs b h,
  two_point n gs a b g h ne,
)

-- Two agents that point at one item are reported, by their names and the item's number.
pub safety_findings-double :
    (w : World) (n : ℕ) (a b : String) (g h : Agent)
    → a ≢ b
    → agent_of w.agents a ≡ some g
    → agent_of w.agents b ≡ some h
    → g.current_item ≡ some n
    → h.current_item ≡ some n
    → any (names_both n a b) (safety_findings w) ≡ true
unfolding safety_findings holders_of
safety_findings-double w n a b g h ne e f p q =
    let two = two_point n w.agents a b g h ne e f p q in
    let held = holders_of-holders_from n [] w.agents in
    let all = ap length held in
    let first =
      s1_speaks n a b (holders_from [] w.agents) (omega arith)
        (ap (has_text a) held ∙ pointing-has_text n w.agents a g e p)
        (ap (has_text b) held ∙ pointing-has_text n w.agents b h f q) in
    any-append (names_both n a b) (s1_findings (holders_from [] w.agents)) _ ∙ rw first
