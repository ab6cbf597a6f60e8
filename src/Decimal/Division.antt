-- ===== src/Decimal/Division.antt =====
-- Division of natural numbers with the roundings that `decimal` offers.
use ai_spec_driven_developme.Prelude.{
  arith, ◌≤◌, ◌<◌, ◌^◌, ◌≡◌, refl, ℕ, zero, suc, ◌+◌, ◌*◌, ◌/◌, ◌%◌, ltb, ◌==◌, ◌&&◌, true, false,
  not, if◌then◌else◌,
}

-- n / d to the nearest, a half to the even neighbour.
unfoldable pub div_half_even : ℕ → ℕ → ℕ
div_half_even n d =
    let q = n / d in
    let r = n % d in
    if ltb (2 * r) d then q else if ltb d (2 * r) then q + 1 else if q % 2 == 0 then q else q + 1

-- n / d to the nearest, a half away from zero.
unfoldable pub div_half_up : ℕ → ℕ → ℕ
div_half_up n d = if ltb (2 * (n % d)) d then n / d else n / d + 1

-- n / d with the last digit moved off 0 and 5 where the division leaves a remainder, so that a
-- later rounding sees that the quotient is no half.
unfoldable pub sticky_div : ℕ → ℕ → ℕ
sticky_div n d = if not (n % d == 0) && n / d % 5 == 0 then n / d + 1 else n / d

digits_from : ℕ → ℕ → ℕ
digits_from zero n = 0
digits_from (suc fuel) n = elim (n == 0) [ true ↦ 0 | false ↦ suc (digits_from fuel (n / 10)) ]

-- The number of decimal digits; a number has fewer digits than the fuel, which is the number + 1.
unfoldable pub digits : ℕ → ℕ
unfolding digits_from
digits n = digits_from (suc n) n

digits_of_zero : (fuel : ℕ) → digits_from fuel 0 ≡ 0
unfolding digits_from
digits_of_zero zero = refl
digits_of_zero (suc fuel) = refl

tenth_bounds : (p n : ℕ) → 10 * p ≤ n → n < 100 * p → (p ≤ n / 10) × (n / 10 < 10 * p)
tenth_bounds p n low high = (omega (arith, low), omega (arith, high))

small_quotient : (n : ℕ) → n < 10 → n / 10 ≡ 0
small_quotient n h = omega (arith, h)

pow_above : (k : ℕ) → 0 < 10 ^ k
pow_above zero = ground arith
pow_above (suc k) = grind (arith, pow_above k)

digits_step : (fuel n : ℕ) → 0 < n → digits_from (suc fuel) n ≡ suc (digits_from fuel (n / 10))
unfolding digits_from
digits_step fuel n h = ground arith

digits_from-eq :
    (k fuel n : ℕ) → 10 ^ k ≤ n → n < 10 ^ suc k → k < fuel → digits_from fuel n ≡ suc k
digits_from-eq k zero n low high enough = absurd (ground arith)
digits_from-eq zero (suc fuel) n low high enough = rw (
  digits_step fuel n (omega (arith, low)),
  small_quotient n (omega (arith, high)),
  digits_of_zero fuel,
)
digits_from-eq (suc k) (suc fuel) n low high enough =
    let bounds = tenth_bounds (10 ^ k) n (grind (arith, low)) (grind (arith, high)) in
    rw (
      digits_step fuel n (grind (arith, low, pow_above k)),
      digits_from-eq k fuel (n / 10) bounds.0 (grind (arith, bounds.1)) (ground arith),
    )

-- The digits of a number between two powers of ten.
pub digits-eq : (k n : ℕ) → 10 ^ k ≤ n → n < 10 ^ suc k → k < suc n → digits n ≡ suc k
unfolding digits
digits-eq k n low high enough = digits_from-eq k (suc n) n low high enough
