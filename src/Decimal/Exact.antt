-- ===== src/Decimal/Exact.antt =====
-- Arithmetic of amounts in ten-thousandths, the unit of every balance column, is exact while the
-- result has at most 28 digits.
use native.Mathlib.Nat.{pow-suc}
use ai_spec_driven_developme.Prelude.{
  ℕ, zero, suc, ◌*◌, ◌^◌, ◌-◌, ◌<◌, ◌≤◌, ◌≡◌, true, false, arith, ltb, if◌then◌else◌,
}
use ai_spec_driven_developme.Prelude.Int.{
  ◌≤ℤ◌, ℤ, pos, negsuc, magnitude, signed, ◌+ℤ◌, ◌-ℤ◌, ltb_ℤ,
}
use ai_spec_driven_developme.Decimal.{
  Decimal, add, sub, lt, le, align, fix, coefficient_limit, zero_decimal,
}

-- An amount of `x` ten-thousandths.
abbrev pub money : ℤ → Decimal
money x = record { coefficient = x; scale = 4 }

-- A value with at most four decimal places, in ten-thousandths.
abbrev pub units : Decimal → ℤ
units d = align d 4

signed_self : (x : ℤ) → signed x (magnitude x * 1) ≡ x
signed_self x = ground arith

pub fix_exact : (d : Decimal) → magnitude d.coefficient < coefficient_limit → fix d ≡ d
unfolding fix
fix_exact d h = ground arith

abbrev common : Decimal → ℕ
common b = if ltb 4 b.scale then b.scale else 4

-- With at most four places on the right, the common scale is 4.
max_scale-money : (b : Decimal) → b.scale ≤ 4 → common b ≡ 4
max_scale-money b small = ground arith

pub sub_exact :
    (x : ℤ) (b : Decimal)
    → b.scale ≤ 4
    → magnitude (x -ℤ units b) < coefficient_limit
    → sub (money x) b ≡ money (x -ℤ units b)
unfolding sub
sub_exact x b small fits =
    rw (max_scale-money b small, signed_self x) (fix_exact (money (x -ℤ units b)) fits)

pub add_exact :
    (x y : ℤ) → magnitude (x +ℤ y) < coefficient_limit → add (money x) (money y) ≡ money (x +ℤ y)
unfolding add
add_exact x y fits = rw (signed_self x, signed_self y) (fix_exact (money (x +ℤ y)) fits)

pub lt_exact : (x : ℤ) (b : Decimal) → b.scale ≤ 4 → lt (money x) b ≡ ltb_ℤ x (units b)
unfolding lt
lt_exact x b small = rw (max_scale-money b small, signed_self x)

pub pow_pos : (k : ℕ) → 0 < 10 ^ k
pow_pos zero = omega arith
pow_pos (suc k) = rw pow-suc (omega (arith, pow_pos k))

own_scale : (s : ℕ) → (if ltb 0 s then s else 0) ≡ s
own_scale s = ground arith

own_scale_last : (s : ℕ) → (if ltb s 0 then 0 else s) ≡ s
own_scale_last s = ground arith

sub_self : (s : ℕ) → s - s ≡ 0
sub_self s = omega arith

units_pos :
    (c : ℤ) (k : ℕ)
    → ltb_ℤ (pos 0) c ≡ true
    → ltb_ℤ (pos 0) (signed c (magnitude c * 10 ^ k)) ≡ true
units_pos (pos n) k h = grind (arith, pow_pos k)
units_pos (negsuc n) k h = ground arith

signed_zero : (n : ℕ) → signed (pos 0) (0 * n) ≡ pos 0
signed_zero n = ground arith

-- A value that is not at most 0 is a positive number of units.
pub le-zero_decimal : (b : Decimal) → le b zero_decimal ≡ false → ltb_ℤ (pos 0) (units b) ≡ true
unfolding le lt
le-zero_decimal b h =
    units_pos b.coefficient (4 - b.scale)
      (ground (arith, rw (own_scale b.scale, sub_self b.scale, signed_self b.coefficient) at h))

-- A value that is not below 0.
pub lt-zero_decimal : (b : Decimal) → lt b zero_decimal ≡ false → pos 0 ≤ℤ b.coefficient
unfolding lt
lt-zero_decimal b h =
    ground (arith, rw (own_scale_last b.scale, sub_self b.scale, signed_self b.coefficient) at h)
