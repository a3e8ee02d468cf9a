-- ===== src/Base/Texts.antt =====
-- Texts that the source takes apart, as lists of code points.
use Prim.Native.Nat.{ℕ, ◌+◌, ◌-◌, ◌*◌}
use Prim.Native.Char.{code}
use Prim.Native.String.{String}
use mathlib.Core.Bool.{Bool, true, false, ◌&&◌, ◌||◌}
use mathlib.Core.Option.{Option, none, some}
use mathlib.Core.List.{List, [], ◌∷◌, reverse}
use mathlib.Core.Path.{◌≡◌, refl}
use native.Mathlib.Omega.{arith}
use front_desk_scheduler.Base.Tests.{leb, ◌==◌, if◌then◌else◌, both_true}

abbrev pub Text : Type 0
Text = List ℕ

abbrev pub codes : String → Text
codes String.[] = []
codes (String.◌∷◌ c s) = code c ∷ codes s

abbrev push_front : ℕ → List Text → List Text
push_front c [] = (c ∷ []) ∷ []
push_front c (w ∷ ws) = (c ∷ w) ∷ ws

-- `text.split(sep)` at a separator of one character.
unfoldable pub split_on : ℕ → Text → List Text
split_on sep [] = [] ∷ []
split_on sep (c ∷ cs) =
    let rest = split_on sep cs in if c == sep then [] ∷ rest else push_front c rest

-- The white space that `trim` removes.
unfoldable pub is_space : ℕ → Bool
is_space c =
    (leb 9 c && leb c 13)
    || (c == 32
        || (c == 160
            || (c == 5760
                || ((leb 8192 c && leb c 8202)
                    || (c == 8232
                        || (c == 8233
                            || (c == 8239 || (c == 8287 || (c == 12288 || c == 65279)))))))))

unfoldable pub trim_start : Text → Text
trim_start [] = []
trim_start (c ∷ cs) = if is_space c then trim_start cs else c ∷ cs

unfoldable pub trim : Text → Text
unfolding trim_start
trim cs = reverse (trim_start (reverse (trim_start cs)))

abbrev pub is_digit : ℕ → Bool
is_digit c = leb b'0' c && leb c b'9'

-- The value of decimal digits, most significant first; `none` at anything else.
unfoldable pub digits_from : ℕ → Text → Option ℕ
digits_from acc [] = some acc
digits_from acc (c ∷ cs) =
    let rest = digits_from (10 * acc + (c - b'0')) cs in if is_digit c then rest else none

-- `Number(text)` for a decimal text, where `none` stands for NaN; the empty text is 0. Signs,
-- fractions, exponents and other bases are not among the texts that the columns hold.
unfoldable pub to_number : Text → Option ℕ
unfolding trim digits_from
to_number cs = digits_from 0 (trim cs)

-- `toLowerCase` of a text whose letters are ASCII; other characters are left as they are.
unfoldable pub to_lower : Text → Text
to_lower [] = []
to_lower (c ∷ cs) = (if leb b'A' c && leb c b'Z' then c + 32 else c) ∷ to_lower cs

-- `===` on texts.
abbrev pub same_text : Text → Text → Bool
same_text [] [] = true
same_text (c ∷ cs) (d ∷ ds) = c == d && same_text cs ds
same_text _ _ = false

pub same_text→≡ : (a b : Text) → same_text a b ≡ true → a ≡ b
same_text→≡ [] [] h = refl
same_text→≡ [] (d ∷ ds) h = ground (arith, h)
same_text→≡ (c ∷ cs) [] h = ground (arith, h)
same_text→≡ (c ∷ cs) (d ∷ ds) h =
    let (e, f) = both_true (c == d) (same_text cs ds) h in
    let first : c ≡ d = ground (arith, e) in let rest = same_text→≡ cs ds f in cc

pub same_text_refl : (a : Text) → same_text a a ≡ true
same_text_refl [] = refl
same_text_refl (c ∷ cs) = let e : (c == c) ≡ true = ground arith in rw e (same_text_refl cs)
