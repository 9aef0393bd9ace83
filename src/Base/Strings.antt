-- ===== src/Base/Strings.antt =====
-- What the program uses of std::string and std::to_string: a search for a part, the decimal digits
-- of a number, and std::toupper of the "C" locale.
use Prim.Native.Nat.{ℕ, zero, suc, ◌+◌, ◌-◌, ◌/◌, ◌%◌, ◌<◌}
use mathlib.Core.Bool.{Bool, true, false, ◌&&◌, ◌||◌}
use mathlib.Core.List.{[], ◌∷◌}
use mathlib.Core.Path.{◌≡◌, refl}
use mathlib.Core.Logic.{inl, inr}
use native.Mathlib.Omega.{arith}
use anolis.Base.Tests.{Bool-cases, ltb, leb, eqb, if◌then◌else◌}
use anolis.Base.Keys.{Text}

unfoldable pub starts_with : Text → Text → Bool
starts_with s [] = true
starts_with [] (y ∷ ys) = false
starts_with (x ∷ xs) (y ∷ ys) = eqb x y && starts_with xs ys

-- `s.find(part) != npos`.
unfoldable pub has_part : Text → Text → Bool
unfolding starts_with
has_part [] part = starts_with [] part
has_part (x ∷ xs) part = starts_with (x ∷ xs) part || has_part xs part

-- The digits of `n` in front of those written already; the fuel is above the number of digits.
unfoldable pub digits_from : ℕ → ℕ → Text → Text
digits_from zero n out = out
digits_from (suc fuel) n out =
    let out' = (48 + n % 10) ∷ out in
    let rest = digits_from fuel (n / 10) out' in if ltb n 10 then out' else rest

-- Any two amounts of fuel above the number give the same digits.
pub digits_from_fuel :
    (f g n : ℕ) (out : Text) → n < f → n < g → digits_from f n out ≡ digits_from g n out
unfolding digits_from
digits_from_fuel zero g n out h k = absurd (omega arith)
digits_from_fuel (suc f) zero n out h k = absurd (omega arith)
digits_from_fuel (suc f) (suc g) n out h k = elim (Bool-cases (ltb n 10)) [
  | inl small ↦ rw (small) refl
  | inr big ↦
      rw (big) (digits_from_fuel f g (n / 10) ((48 + n % 10) ∷ out) (ground arith) (ground arith))
]

unfoldable pub to_string : ℕ → Text
unfolding digits_from
to_string n = digits_from (suc n) n []

unfoldable pub to_upper : ℕ → ℕ
to_upper c = if leb 97 c && leb c 122 then c - 32 else c
