-- ===== src/Capability/Executable.antt =====
-- When an actor can carry an item out (src/capability.ts).
use front_desk_scheduler.Base.{
  ◌≡◌, ◌↔◌, ◌⊎◌, refl, String, true, false, List, [], ◌∷◌, All, arith, Bool-cases, inl, inr,
  has_text,
}
use front_desk_scheduler.Capability.{
  is_capability, ActorCapabilities, missing_for, is_executable_by,
}

module _ (actor : ActorCapabilities) where
  -- The need is no known capability, or it is held.
  abbrev pub IsMet : String → Type 0
  IsMet n = (is_capability n ≡ false) ⊎ (has_text n actor.held ≡ true)

  -- An actor can carry out exactly the items whose recognised needs it all holds: an item without
  -- needs, and one with unknown needs, is carried out by anyone.
  pub is_executable_by_iff :
      (needs : List String) → (is_executable_by needs actor ≡ true) ↔ All IsMet needs
  unfolding is_executable_by missing_for
  is_executable_by_iff [] = ((λ e. tt), (λ e. refl))
  is_executable_by_iff (n ∷ needs) =
      let (there, back) = is_executable_by_iff needs in
      elim (Bool-cases (is_capability n)) [
        | inr e ↦ rw e ((λ x. (inl refl, there x)), (λ h. back h.1))
        | inl e ↦ rw e (elim (Bool-cases (has_text n actor.held)) [
          | inl h ↦ rw h ((λ x. (inr refl, there x)), (λ k. back k.1))
          | inr h ↦ rw h ((λ x. ground arith), (λ k. absurd (ground (arith, k.0))))
        ])
      ]
