-- ===== src/World/Unique.antt =====
-- Worlds whose item numbers and agent names are distinct (src/contract.ts): there a list and its
-- lookup say the same.
use front_desk_scheduler.Base.{
  ℕ, ◌≡◌, ◌≢◌, refl, String, some, List, [], ◌∷◌, map, =ₛ_iff, =ₛ_refl, arith, All,
}
use front_desk_scheduler.World.{WorkItem, Agent, item_of, agent_of, set_item, set_agent}

abbrev pub Distinct {ℓ} : {A : Type ℓ} → List A → Type ℓ
Distinct [] = Unit
Distinct (k ∷ ks) = All (λ j. k ≢ j) ks × Distinct ks

abbrev pub numbers : List WorkItem → List ℕ
numbers = map (λ i. i.number)

abbrev pub names : List Agent → List String
names = map (λ g. g.id)

pub numbers-set_item :
    (is : List WorkItem) (n : ℕ) (v : WorkItem)
    → v.number ≡ n
    → numbers (set_item n v is) ≡ numbers is
unfolding set_item
numbers-set_item [] n v h = refl
numbers-set_item (x ∷ is) n v h = ground (arith, numbers-set_item is n v h)

pub names-set_agent :
    (gs : List Agent) (a : String) (v : Agent) → v.id ≡ a → names (set_agent a v gs) ≡ names gs
unfolding set_agent
names-set_agent [] a v h = refl
names-set_agent (x ∷ gs) a v h = ground (arith, names-set_agent gs a v h, =ₛ_iff x.id a)

abbrev FoundIn : List WorkItem → WorkItem → Type 0
FoundIn all i = item_of all i.number ≡ some i

abbrev KnownIn : List Agent → Agent → Type 0
KnownIn all g = agent_of all g.id ≡ some g

found_behind :
    (x : WorkItem) (is js : List WorkItem)
    → All (λ n. x.number ≢ n) (numbers js)
    → All (FoundIn is) js
    → All (FoundIn (x ∷ is)) js
unfolding item_of
found_behind x is [] a h = tt
found_behind x is (j ∷ js) a h = (ground (arith, a.0), found_behind x is js a.1 h.1)

-- Each item is the one found under its number.
pub items_found :
    (is : List WorkItem) → Distinct (numbers is) → All (λ i. item_of is i.number ≡ some i) is
unfolding item_of
items_found [] d = tt
items_found (x ∷ is) d = (ground arith, found_behind x is is d.0 (items_found is d.1))

known_behind :
    (x : Agent) (gs hs : List Agent)
    → All (λ a. x.id ≢ a) (names hs)
    → All (KnownIn gs) hs
    → All (KnownIn (x ∷ gs)) hs
unfolding agent_of
known_behind x gs [] a h = tt
known_behind x gs (j ∷ hs) a h =
    (ground (arith, a.0, =ₛ_iff x.id j.id), known_behind x gs hs a.1 h.1)

-- Each agent is the one found under its name.
pub agents_known : (gs : List Agent) → Distinct (names gs) → All (λ g. agent_of gs g.id ≡ some g) gs
unfolding agent_of
agents_known [] d = tt
agents_known (x ∷ gs) d =
    (ground (arith, =ₛ_refl x.id), known_behind x gs gs d.0 (agents_known gs d.1))
