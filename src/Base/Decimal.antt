-- ===== src/Base/Decimal.antt =====
-- Decimal numbers as texts, printed and read.
use Prim.Native.Nat.{ℕ, zero, suc, ◌+◌, ◌-◌, ◌*◌, ◌/◌, ◌%◌, ◌<◌}
use mathlib.Core.Path.{◌≡◌, refl, sym, ap, ◌∙◌}
use mathlib.Core.Logic.{inl, inr}
use mathlib.Core.Bool.{true}
use mathlib.Core.Option.{none, some}
use mathlib.Core.List.{[], ◌∷◌, ◌++◌}
use native.Mathlib.Omega.{arith}
use front_desk_scheduler.Base.Tests.{ltb, if◌then◌else◌, Bool-cases}
use front_desk_scheduler.Base.Lists.{All, append-All}
use front_desk_scheduler.Base.Texts.{Text, is_digit, digits_from}

-- With one unit of fuel for each digit, and one more.
unfoldable pub digits : ℕ → ℕ → Text
digits zero n = []
digits (suc fuel) n =
    let rest = digits fuel (n / 10) in
    if ltb n 10 then (n + b'0') ∷ [] else rest ++ (((n % 10) + b'0') ∷ [])

-- `String(n)`: a number has no more digits than it has units, and one.
unfoldable pub decimal : ℕ → Text
decimal n = digits (suc n) n

abbrev pub IsDigits : Text → Type 0
IsDigits = All (λ c. is_digit c ≡ true)

is_digit-of : (d : ℕ) → d < 10 → is_digit (d + b'0') ≡ true
is_digit-of d h = ground arith

pub digits-IsDigits : (fuel n : ℕ) → IsDigits (digits fuel n)
unfolding digits
digits-IsDigits zero n = tt
digits-IsDigits (suc fuel) n = elim (Bool-cases (ltb n 10)) [
  | inl e ↦ rw e (is_digit-of n (ground (arith, e)), tt)
  | inr e ↦ rw e (
      append-All _ (digits fuel (n / 10)) _ (digits-IsDigits fuel (n / 10))
        (is_digit-of (n % 10) (omega arith), tt))
]

digits_from-append :
    (xs : Text) (acc m d : ℕ)
    → d < 10
    → digits_from acc xs ≡ some m
    → digits_from acc (xs ++ ((d + b'0') ∷ [])) ≡ some (10 * m + d)
unfolding digits_from
digits_from-append [] acc m d h e = rw (is_digit-of d h) (ap some (ground (arith, e)))
digits_from-append (c ∷ xs) acc m d h e = elim (Bool-cases (is_digit c)) [
  | inl g ↦
      let step : digits_from acc (c ∷ xs) ≡ digits_from (10 * acc + (c - b'0')) xs = rw g refl in
      rw g (digits_from-append xs (10 * acc + (c - b'0')) m d h (sym step ∙ e))
  | inr g ↦ let step : digits_from acc (c ∷ xs) ≡ none = rw g refl in ground (arith, e, step)
]

digits_lem : (fuel n : ℕ) → n < fuel → digits_from 0 (digits fuel n) ≡ some n
unfolding digits digits_from
digits_lem zero n h = absurd (omega (arith, h))
digits_lem (suc fuel) n h = elim (Bool-cases (ltb n 10)) [
  | inl e ↦ rw e (digits_from-append [] 0 0 n (ground (arith, e)) refl ∙ ap some (omega arith))
  | inr e ↦ rw e (
      digits_from-append (digits fuel (n / 10)) 0 (n / 10) (n % 10) (omega arith)
        (digits_lem fuel (n / 10) (ground (arith, e, h)))
      ∙ ap some (omega arith))
]

-- A number is read back from its digits.
pub digits_from-decimal : (n : ℕ) → digits_from 0 (decimal n) ≡ some n
unfolding decimal
digits_from-decimal n = digits_lem (suc n) n (omega arith)

pub decimal-IsDigits : (n : ℕ) → IsDigits (decimal n)
unfolding decimal
decimal-IsDigits n = digits-IsDigits (suc n) n

pub decimal-cons : (n : ℕ) → (c : ℕ) × (t : Text) × (decimal n ≡ c ∷ t)
unfolding decimal digits
decimal-cons n = elim (Bool-cases (ltb n 10)) [
  | inl e ↦ rw e (n + b'0', [], refl)
  | inr e ↦ rw e (last (digits n (n / 10)))
]
  where
    last : (xs : Text) → (c : ℕ) × (t : Text) × (xs ++ (((n % 10) + b'0') ∷ []) ≡ c ∷ t)
    last [] = ((n % 10) + b'0', [], refl)
    last (x ∷ xs) = (x, xs ++ (((n % 10) + b'0') ∷ []), refl)

-- A text of digits is a number.
pub digits_from-some : (t : Text) (acc : ℕ) → IsDigits t → (n : ℕ) × (digits_from acc t ≡ some n)
unfolding digits_from
digits_from-some [] acc h = (acc, refl)
digits_from-some (c ∷ t) acc h = rw h.0 (digits_from-some t (10 * acc + (c - b'0')) h.1)
