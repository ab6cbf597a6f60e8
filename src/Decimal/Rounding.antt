-- ===== src/Decimal/Rounding.antt =====
-- How far rounding moves a value.
use ai_spec_driven_developme.Prelude.{ℕ, ◌+◌, ◌*◌, ◌<◌, ◌≤◌, arith}
use ai_spec_driven_developme.Decimal.Division.{div_half_even, div_half_up}

-- ROUND_HALF_UP is within half a unit.
pub div_half_up_bounds :
    (n d : ℕ)
    → 0 < d
    → (2 * n < 2 * (d * div_half_up n d) + d) × (2 * (d * div_half_up n d) ≤ 2 * n + d)
unfolding div_half_up
div_half_up_bounds n d h = grind arith

-- ROUND_HALF_EVEN is within half a unit.
pub div_half_even_bounds :
    (n d : ℕ)
    → 0 < d
    → (2 * n ≤ 2 * (d * div_half_even n d) + d) × (2 * (d * div_half_even n d) ≤ 2 * n + d)
unfolding div_half_even
div_half_even_bounds n d h = grind arith
