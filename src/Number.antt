-- ===== src/Number.antt =====
-- The floating-point numbers in which src/policy.ts computes a score: an interface, since the
-- language of this library has none. A value of it is the set of doubles other than NaN.
use Prim.Native.Nat.{Ordering}
use front_desk_scheduler.Base.{ℕ, ◌≡◌, ◌≢◌}

pub record Double : Type 1 where
  pub carrier : Type 0
  -- A whole number, and the literal n / 10 ^ k.
  pub of_nat : ℕ → carrier
  pub decimal : ℕ → ℕ → carrier
  pub add : carrier → carrier → carrier
  pub sub : carrier → carrier → carrier
  pub mul : carrier → carrier → carrier
  pub div : carrier → carrier → carrier
  -- `lt` for a negative number, `gt` for a positive one.
  pub sign : carrier → Ordering

-- The sign of a difference orders the doubles.
pub record IsOrdered (d : Double) : Type 0 where
  pub flips :
      (a b : d.carrier) → d.sign (d.sub a b) ≡ Ordering.gt → d.sign (d.sub b a) ≡ Ordering.lt
  pub flips_back :
      (a b : d.carrier) → d.sign (d.sub a b) ≡ Ordering.lt → d.sign (d.sub b a) ≡ Ordering.gt
  pub chains :
      (a b c : d.carrier)
      → d.sign (d.sub a b) ≢ Ordering.gt
      → d.sign (d.sub b c) ≢ Ordering.gt
      → d.sign (d.sub a c) ≢ Ordering.gt
