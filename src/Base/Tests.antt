-- ===== src/Base/Tests.antt =====
-- Boolean tests, the conditional, and equality of texts as a decision.
use Prim.Native.Nat.{ℕ, ◌<◌, ◌≤◌, compare, Ordering}
use Prim.Native.String.{String}
use mathlib.Core.Path.{◌≡◌, refl}
use mathlib.Core.Logic.{◌↔◌, ◌⊎◌, inl, inr}
use mathlib.Core.Bool.{Bool, true, false, ◌&&◌, false≢true}
use mathlib.Core.Option.{Option, none, some}
use native.Mathlib.Omega.{arith}
use text.Mathlib.Text.{◌==◌ as str_eq}
use text.Mathlib.TextEquality.{eq_iff}

abbrev pub ltb : ℕ → ℕ → Bool
ltb a b = elim (compare a b) [ Ordering.lt ↦ true | _ ↦ false ]

abbrev pub leb : ℕ → ℕ → Bool
leb a b = elim (compare a b) [ Ordering.gt ↦ false | _ ↦ true ]

infix 50 ◌==◌
abbrev pub ◌==◌ : ℕ → ℕ → Bool
a == b = elim (compare a b) [ Ordering.eq ↦ true | _ ↦ false ]

infix 1 if◌then◌else◌
abbrev pub if◌then◌else◌ {ℓ} : {A : Type ℓ} → Bool → A → A → A
if true then x else y = x
if false then x else y = y

pub leb→le : (a b : ℕ) → leb a b ≡ true → a ≤ b
leb→le a b h = ground arith

pub le→leb : (a b : ℕ) → a ≤ b → leb a b ≡ true
le→leb a b h = ground arith

pub ltb→lt : (a b : ℕ) → ltb a b ≡ true → a < b
ltb→lt a b h = ground arith

pub ltb→le : (a b : ℕ) → ltb a b ≡ false → b ≤ a
ltb→le a b h = ground arith

pub Bool-cases : (b : Bool) → (b ≡ true) ⊎ (b ≡ false)
Bool-cases true = inl refl
Bool-cases false = inr refl

pub Option-cases {ℓ} : {A : Type ℓ} (o : Option A) → (o ≡ none) ⊎ ((a : A) × (o ≡ some a))
Option-cases none = inl refl
Option-cases (some a) = inr (a, refl)

pub both_true : (x y : Bool) → (x && y) ≡ true → (x ≡ true) × (y ≡ true)
both_true true y h = (refl, h)
both_true false y h = ground (arith, h)

-- `===` on texts. Statements and code compare by this one function.
infix 50 ◌=ₛ◌
unfoldable pub ◌=ₛ◌ : String → String → Bool
a =ₛ b = str_eq a b

pub =ₛ_iff : (a b : String) → ((a =ₛ b) ≡ true) ↔ (a ≡ b)
unfolding ◌=ₛ◌
=ₛ_iff a b = eq_iff a b

pub =ₛ_refl : (a : String) → (a =ₛ a) ≡ true
=ₛ_refl a = (=ₛ_iff a a).1 refl

decide_string : (a b : String) (t : Bool) → ((t ≡ true) ↔ (a ≡ b)) → Dec (a ≡ b)
decide_string a b true h = yes (h.0 refl)
decide_string a b false h = no (λ e. false≢true (h.1 e))

unfoldable pub string_discrete : Discrete String
unfolding decide_string ◌=ₛ◌
string_discrete a b = decide_string a b (a =ₛ b) (=ₛ_iff a b)
