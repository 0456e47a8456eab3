-- ===== src/MappingGroup/Rounding.antt =====
-- Python's `round(a / b)` of natural numbers: to the nearest, and halves to the even one.
use emissary.Prelude.{
  ℕ, ◌+◌, ◌*◌, ◌/◌, ◌%◌, ◌≤◌, ◌<◌, ◌≡◌, refl, arith, ltb, nat_eqb, if◌then◌else◌,
}

unfoldable pub round_div : ℕ → ℕ → ℕ
round_div a b =
    if ltb (2 * (a % b)) b
    then a / b
    else if ltb b (2 * (a % b))
    then a / b + 1
    else if nat_eqb (a / b % 2) 0
    then a / b
    else a / b + 1

-- The result is within a half of the quotient.
pub round_div_bounds :
    (a b : ℕ)
    → 0 < b
    → (2 * (b * round_div a b) ≤ 2 * a + b) × (2 * a ≤ 2 * (b * round_div a b) + b)
unfolding round_div
round_div_bounds a b h = grind arith

round_halves : (round_div 5 2 ≡ 2) × (round_div 7 2 ≡ 4) × (round_div 100 18 ≡ 6)
unfolding round_div
round_halves = (refl, refl, refl)
