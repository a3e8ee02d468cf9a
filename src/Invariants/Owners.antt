-- ===== src/Invariants/Owners.antt =====
-- The owner map of `assertInvariants` (src/invariants.ts), for agents that hold distinct items.
use front_desk_scheduler.Base.{
  ℕ, ◌≡◌, ◌≢◌, refl, sym, ◌∙◌, inl, inr, String, Option, none, some, List, [], ◌∷◌, ◌++◌, ◌==◌, All,
  arith, Bool-cases,
}
use mathlib.Core.List.{append-nil, append_assoc}
use front_desk_scheduler.World.{Agent}
use front_desk_scheduler.Invariants.{Holders, add_holder, holders_from, holders_of, s1_findings}

abbrev claim_of : Option ℕ → String → Holders
claim_of none a = []
claim_of (some n) a = (n, a ∷ []) ∷ []

-- One entry for each agent that holds an item.
abbrev pub claims : List Agent → Holders
claims [] = []
claims (g ∷ gs) = claim_of g.current_item g.id ++ claims gs

-- No agent of the list holds `c`.
abbrev pub NoneHold : Option ℕ → List Agent → Type 0
NoneHold none gs = Unit
NoneHold (some n) gs = All (λ g. g.current_item ≢ some n) gs

-- No two agents hold the same item.
abbrev pub Exclusive : List Agent → Type 0
Exclusive [] = Unit
Exclusive (g ∷ gs) = NoneHold g.current_item gs × Exclusive gs

-- No entry of the map is about an item that an agent of the list holds.
abbrev Apart : Holders → List Agent → Type 0
Apart owners = All (λ g. All (λ e. g.current_item ≢ some e.0) owners)

add_holder_new :
    (n : ℕ) (a : String) (owners : Holders)
    → All (λ e. ◌≢◌ {A = Option ℕ} (some n) (some e.0)) owners
    → add_holder n a owners ≡ owners ++ ((n, a ∷ []) ∷ [])
unfolding add_holder
add_holder_new n a [] h = refl
add_holder_new n a ((m, as_) ∷ owners) h = ground (arith, h.0, add_holder_new n a owners h.1)

All-snoc {ℓ κ} :
    {A : Type ℓ} (P : A → Type κ) (xs : List A) (x : A) → All P xs → P x → All P (xs ++ (x ∷ []))
All-snoc P [] x h p = (p, tt)
All-snoc P (y ∷ xs) x h p = (h.0, All-snoc P xs x h.1 p)

Apart-more :
    (n : ℕ) (a : String) (owners : Holders) (gs : List Agent)
    → All (λ g. g.current_item ≢ some n) gs
    → Apart owners gs
    → Apart (owners ++ ((n, a ∷ []) ∷ [])) gs
Apart-more n a owners [] h k = tt
Apart-more n a owners (g ∷ gs) h k = (
  All-snoc (λ e. g.current_item ≢ some e.0) owners (n, a ∷ []) k.0 h.0,
  Apart-more n a owners gs h.1 k.1,
)

-- The map, for agents that are added to one that knows nothing of their items.
holders_from_lem :
    (owners : Holders) (gs : List Agent)
    → Exclusive gs
    → Apart owners gs
    → holders_from owners gs ≡ owners ++ claims gs
unfolding holders_from
holders_from_lem owners [] x k = sym (append-nil owners)
holders_from_lem owners (g ∷ gs) x k =
    go g.current_item x.0 k.0 (holders_from_lem owners gs x.1 k.1) (λ n h.
      holders_from_lem (owners ++ ((n, g.id ∷ []) ∷ [])) gs x.1 (Apart-more n g.id owners gs h k.1))
  where
    go :
        (c : Option ℕ)
        → NoneHold c gs
        → All (λ e. c ≢ some e.0) owners
        → holders_from owners gs ≡ owners ++ claims gs
        → ((n : ℕ)
            → All (λ h. h.current_item ≢ some n) gs
            → holders_from (owners ++ ((n, g.id ∷ []) ∷ [])) gs
              ≡ (owners ++ ((n, g.id ∷ []) ∷ [])) ++ claims gs)
        → ◌≡◌ {A = Holders}
            (elim c [
              | none ↦ holders_from owners gs
              | some n ↦ holders_from (add_holder n g.id owners) gs
            ])
            (owners ++ (claim_of c g.id ++ claims gs))
    go none h new rest more = rest
    go (some n) h new rest more =
        rw (add_holder_new n g.id owners new)
          (more n h ∙ append_assoc owners ((n, g.id ∷ []) ∷ []) (claims gs))

Apart-nil : (gs : List Agent) → Apart [] gs
Apart-nil [] = tt
Apart-nil (g ∷ gs) = (tt, Apart-nil gs)

pub holders_from_nil : (gs : List Agent) → Exclusive gs → holders_from [] gs ≡ claims gs
holders_from_nil gs x = holders_from_lem [] gs x (Apart-nil gs)

pub s1_findings-claims : (gs : List Agent) → s1_findings (claims gs) ≡ []
unfolding s1_findings
s1_findings-claims [] = refl
s1_findings-claims (g ∷ gs) = go g.current_item (s1_findings-claims gs)
  where
    go :
        (c : Option ℕ)
        → s1_findings (claims gs) ≡ []
        → s1_findings (claim_of c g.id ++ claims gs) ≡ []
    go none h = h
    go (some n) h = h

-- What the map says of one item: nothing where nobody holds it, else the one that does.
pub holders_of-claims {ℓ} :
    (n : ℕ) (P : List String → Type ℓ) (gs : List Agent)
    → (All (λ g. g.current_item ≢ some n) gs → P [])
    → All (λ g. g.current_item ≡ some n → P (g.id ∷ [])) gs
    → P (holders_of n (claims gs))
unfolding holders_of
holders_of-claims n P [] free held = free tt
holders_of-claims n P (g ∷ gs) free held =
    go g.current_item refl (λ miss. holders_of-claims n P gs (λ h. free (miss, h)) held.1)
  where
    go :
        (c : Option ℕ)
        → g.current_item ≡ c
        → (g.current_item ≢ some n → P (holders_of n (claims gs)))
        → P (holders_of n (claim_of c g.id ++ claims gs))
    go none e rest = rest (λ q. cc)
    go (some m) e rest = elim (Bool-cases (m == n)) [
      | inl hit ↦ rw (hit, holders_of) (held.0 (ground arith))
      | inr miss ↦ rw (miss, holders_of) (rest (λ q. ground arith))
    ]
