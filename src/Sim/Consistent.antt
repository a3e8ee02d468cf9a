-- ===== src/Sim/Consistent.antt =====
-- The agreement between items, agents and steps (src/sim.ts), stated of their lookups, and the
-- moves that keep it.
use front_desk_scheduler.Base.{
  ℕ, ◌≡◌, ◌≢◌, sym, ap, ◌∙◌, ◌⊎◌, inl, inr, String, false, List, Option, none, some, ◌==◌, ◌=ₛ◌,
  =ₛ_iff, =ₛ_refl, subst, if◌then◌else◌, arith, Bool-cases,
}
use front_desk_scheduler.Policy.{BeadEdge}
use front_desk_scheduler.World.{WorkItem, Agent, in_progress}
use front_desk_scheduler.Sim.Steps.{
  StepPhase, idle, claiming, gating, spending, completing, AgentStep,
}

abbrev pub Items : Type 0
Items = ℕ → Option WorkItem

abbrev pub Agents : Type 0
Agents = String → Option Agent

abbrev pub StepsOf : Type 0
StepsOf = String → Option AgentStep

abbrev pub put_item : Items → ℕ → WorkItem → Items
put_item f n v m = if n == m then some v else f m

abbrev pub put {ℓ} : {V : Type ℓ} → (String → Option V) → String → V → String → Option V
put f a v b = if a =ₛ b then some v else f b

pub put_item_inv :
    (f : Items) (n m : ℕ) (v i : WorkItem)
    → put_item f n v m ≡ some i
    → ((n ≡ m) × (v ≡ i)) ⊎ (((n == m) ≡ false) × (f m ≡ some i))
put_item_inv f n m v i e = ground arith

pub put_inv {ℓ} :
    {V : Type ℓ} (f : String → Option V) (a b : String) (v h : V)
    → put f a v b ≡ some h
    → ((a ≡ b) × (v ≡ h)) ⊎ (((a =ₛ b) ≡ false) × (f b ≡ some h))
put_inv f a b v h e = ground (arith, =ₛ_iff a b)

-- What an agent holds while it stands at a step with a target.
abbrev pub Fits : StepPhase → Option ℕ → Option ℕ → Type 0
Fits idle target current = current ≡ none
Fits claiming target current = (current ≡ none) × ((n : ℕ) × (target ≡ some n))
Fits gating target current = (n : ℕ) × (target ≡ some n) × (current ≡ some n)
Fits spending target current = (n : ℕ) × (target ≡ some n) × (current ≡ some n)
Fits completing target current = (n : ℕ) × (target ≡ some n) × (current ≡ some n)

-- The one agent that holds an item in progress.
abbrev pub OwnedBy : Agents → ℕ → WorkItem → Type 0
OwnedBy agents n i =
    (a : String) × (g : Agent) × (i.owner_id ≡ some a)
    × (agents a ≡ some g)
    × (g.current_item ≡ some n)

abbrev pub InHand : Items → String → ℕ → Type 0
InHand items a n =
    (i : WorkItem) × (items n ≡ some i) × (i.phase ≡ in_progress) × (i.owner_id ≡ some a)

abbrev pub InStep : StepsOf → String → Agent → Type 0
InStep steps a g = (s : AgentStep) × (steps a ≡ some s) × Fits s.phase s.target g.current_item

pub record Consistent (deps : ℕ → List BeadEdge) (items : Items) (agents : Agents) (steps : StepsOf)
    : Type 0 where
  pub edged : (n : ℕ) (i : WorkItem) → items n ≡ some i → i.edges ≡ deps n
  pub unowned :
      (n : ℕ) (i : WorkItem) → items n ≡ some i → i.phase ≢ in_progress → i.owner_id ≡ none
  pub owned : (n : ℕ) (i : WorkItem) → items n ≡ some i → i.phase ≡ in_progress → OwnedBy agents n i
  pub held :
      (a : String) (g : Agent) (n : ℕ)
      → agents a ≡ some g
      → g.current_item ≡ some n
      → InHand items a n
  pub stepped : (a : String) (g : Agent) → agents a ≡ some g → InStep steps a g

pub put_self {ℓ} : {V : Type ℓ} (f : String → Option V) (a : String) (v : V) → put f a v a ≡ some v
put_self f a v = rw (=ₛ_refl a)

module _ (agents : Agents) (steps : StepsOf) (a : String) (g : Agent) (s : AgentStep) where
  -- The step of the agent that moved, and of every other.
  stepped_put :
      ((b : String) (h : Agent) → agents b ≡ some h → InStep steps b h)
      → Fits s.phase s.target g.current_item
      → (b : String) (h : Agent) → put agents a g b ≡ some h
      → InStep (put steps a s) b h
  stepped_put old fits b h e = elim (put_inv agents a b g h e) [
    | inl (p, q) ↦
        subst (λ x. InStep (put steps a s) x h) p
          (subst (λ x. InStep (put steps a s) a x) q (s, put_self steps a s, fits))
    | inr (miss, q) ↦ let (t, r, k) = old b h q in (t, rw miss r, k)
  ]

-- An item that changes without changing hands.
abbrev pub SameHands : WorkItem → WorkItem → Type 0
SameHands i j =
    (j.owner_id ≡ i.owner_id)
    × (i.phase ≡ in_progress → j.phase ≡ in_progress)
    × (j.phase ≡ in_progress → i.phase ≡ in_progress)
    × (j.edges ≡ i.edges)

module _ {deps : ℕ → List BeadEdge} {items : Items} {agents : Agents} {steps : StepsOf}
    (c : Consistent deps items agents steps) where
  -- One agent moves and keeps what it holds.
  pub agent_moves :
      (a : String) (g g' : Agent) (s : AgentStep)
      → agents a ≡ some g
      → g'.current_item ≡ g.current_item
      → Fits s.phase s.target g'.current_item
      → Consistent deps items (put agents a g') (put steps a s)
  agent_moves a g g' s here same fits = record {
    edged = c.edged;
    unowned = c.unowned;
    owned = λ n i e p.
        let (b, h, o, q, k) = c.owned n i e p in
        elim (Bool-cases (a =ₛ b)) [
          | inl hit ↦ (b, g', o, rw hit, ground (arith, =ₛ_iff a b))
          | inr miss ↦ (b, h, o, rw miss q, k)
        ];
    held = λ b h n e k. elim (put_inv agents a b g' h e) [
      | inl (p, q) ↦ subst (λ x. InHand items x n) p (c.held a g n here (ground arith))
      | inr (miss, q) ↦ c.held b h n q k
    ];
    stepped = stepped_put agents steps a g' s c.stepped fits;
  }

  -- An agent with free hands takes a free item.
  pub agent_takes :
      (a : String) (g g' : Agent) (n : ℕ) (i i' : WorkItem) (s : AgentStep)
      → agents a ≡ some g
      → g.current_item ≡ none
      → items n ≡ some i
      → i.phase ≢ in_progress
      → i'.edges ≡ i.edges
      → i'.phase ≡ in_progress
      → i'.owner_id ≡ some a
      → g'.current_item ≡ some n
      → Fits s.phase s.target g'.current_item
      → Consistent deps (put_item items n i') (put agents a g') (put steps a s)
  agent_takes a g g' n i i' s here empty there loose wired busy mine holds fits = record {
    edged = λ m j e. elim (put_item_inv items n m i' j e) [
      | inl (q, r) ↦
          subst (λ x. j.edges ≡ deps x) q (ap (λ x. x.edges) (sym r) ∙ (wired ∙ c.edged n i there))
      | inr (miss, r) ↦ c.edged m j r
    ];
    unowned = λ m j e p. elim (put_item_inv items n m i' j e) [
      | inl (q, r) ↦ absurd (p (ap (λ x. x.phase) (sym r) ∙ busy))
      | inr (miss, r) ↦ c.unowned m j r p
    ];
    owned = λ m j e p. elim (put_item_inv items n m i' j e) [
      | inl (q, r) ↦
          (a, g', ap (λ x. x.owner_id) (sym r) ∙ mine, put_self agents a g', ground arith)
      | inr (miss, r) ↦
          let (b, h, o, q, k) = c.owned m j r p in
          (
            b,
            h,
            o,
            elim (Bool-cases (a =ₛ b)) [
              | inl hit ↦ ground (arith, =ₛ_iff a b)
              | inr other ↦ rw other q
            ],
            k,
          )
    ];
    held = λ b h m e k. elim (put_inv agents a b g' h e) [
      | inl (p, q) ↦ (i', ground (arith, (Bool-cases (n == m))), busy, ground arith)
      | inr (miss, q) ↦
          let (j, r, p, o) = c.held b h m q k in
          elim (Bool-cases (n == m)) [
            | inl hit ↦ absurd (loose (ground arith))
            | inr other ↦ (j, rw other r, p, o)
          ]
    ];
    stepped = stepped_put agents steps a g' s c.stepped fits;
  }

  -- An agent lets go of the item that it holds.
  pub agent_drops :
      (a : String) (g g' : Agent) (n : ℕ) (i i' : WorkItem) (s : AgentStep)
      → agents a ≡ some g
      → g.current_item ≡ some n
      → items n ≡ some i
      → i'.edges ≡ i.edges
      → i'.phase ≢ in_progress
      → i'.owner_id ≡ none
      → g'.current_item ≡ none
      → Fits s.phase s.target g'.current_item
      → Consistent deps (put_item items n i') (put agents a g') (put steps a s)
  agent_drops a g g' n i i' s here holds there wired loose free empty fits = record {
    edged = λ m j e. elim (put_item_inv items n m i' j e) [
      | inl (q, r) ↦
          subst (λ x. j.edges ≡ deps x) q (ap (λ x. x.edges) (sym r) ∙ (wired ∙ c.edged n i there))
      | inr (miss, r) ↦ c.edged m j r
    ];
    unowned = λ m j e p. elim (put_item_inv items n m i' j e) [
      | inl (q, r) ↦ ap (λ x. x.owner_id) (sym r) ∙ free
      | inr (miss, r) ↦ c.unowned m j r p
    ];
    owned = λ m j e p. elim (put_item_inv items n m i' j e) [
      | inl (q, r) ↦ absurd (loose (ap (λ x. x.phase) r ∙ p))
      | inr (miss, r) ↦
          let (b, h, o, q, k) = c.owned m j r p in
          (
            b,
            h,
            o,
            elim (Bool-cases (a =ₛ b)) [
              | inl hit ↦ ground (arith, =ₛ_iff a b)
              | inr other ↦ rw other q
            ],
            k,
          )
    ];
    held = λ b h m e k. elim (put_inv agents a b g' h e) [
      | inl (p, q) ↦ ground arith
      | inr (miss, q) ↦
          let (j, r, p, o) = c.held b h m q k in
          elim (Bool-cases (n == m)) [
            | inl hit ↦
                let (i'', r', p', o') = c.held a g n here holds in ground (arith, =ₛ_iff a b)
            | inr other ↦ (j, rw other r, p, o)
          ]
    ];
    stepped = stepped_put agents steps a g' s c.stepped fits;
  }

  -- Items change, and none changes hands.
  pub items_change :
      (f : Items)
      → ((n : ℕ) (i : WorkItem)
          → items n ≡ some i
          → (j : WorkItem) × (f n ≡ some j) × SameHands i j)
      → ((n : ℕ) (j : WorkItem)
          → f n ≡ some j
          → (i : WorkItem) × (items n ≡ some i) × SameHands i j)
      → Consistent deps f agents steps
  items_change f forth back = record {
    edged = λ n j e. let (i, q, same) = back n j e in same.3 ∙ c.edged n i q;
    unowned =
        λ n j e p. let (i, q, same) = back n j e in same.0 ∙ c.unowned n i q (λ h. p (same.1 h));
    owned = λ n j e p.
        let (i, q, same) = back n j e in
        let (a, g, r, t, k) = c.owned n i q (same.2 p) in (a, g, same.0 ∙ r, t, k);
    held = λ a g n e k.
        let (i, q, p, o) = c.held a g n e k in
        let (j, r, same) = forth n i q in (j, r, same.1 p, same.0 ∙ o);
    stepped = c.stepped;
  }
