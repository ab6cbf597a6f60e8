-- ===== src/Decimal.antt =====
-- Python's `decimal.Decimal` as the service uses it (the standard library's arithmetic in the
-- default context: 28 significant digits, ROUND_HALF_EVEN), by value: a number is
-- coefficient · 10^-scale. A positive exponent is written out with scale 0, which keeps the value,
-- and the sign of a zero is dropped. NaN and infinities are refused by the request schemas.
pub mod Division
pub mod Rounding
pub mod Exact
unfoldable pub use Division.{div_half_even, div_half_up, sticky_div, digits}
use ai_spec_driven_developme.Prelude.{
  ℕ, ◌+◌, ◌-◌, ◌*◌, ◌^◌, Bool, not, ◌&&◌, Option, none, some, ltb, leb, if◌then◌else◌,
}
use ai_spec_driven_developme.Prelude.Int.{ℤ, pos, magnitude, signed, ◌+ℤ◌, ◌-ℤ◌, ◌*ℤ◌, ltb_ℤ}

pub record Decimal : Type 0 where
  pub coefficient : ℤ
  pub scale : ℕ

-- The context's precision, as the first coefficient that has too many digits.
abbrev pub coefficient_limit : ℕ
coefficient_limit = 10 ^ 28

-- A coefficient of more than 28 digits is rounded to 28 digits.
unfoldable pub round_off : Decimal → Decimal
unfolding digits div_half_even
round_off d =
    let excess = digits (magnitude d.coefficient) - 28 in
    let q = div_half_even (magnitude d.coefficient) (10 ^ excess) in
    if leb excess d.scale
    then record { coefficient = signed d.coefficient q; scale = d.scale - excess }
    else record { coefficient = signed d.coefficient (q * 10 ^ (excess - d.scale)); scale = 0 }

-- The step that ends every arithmetic operation.
unfoldable pub fix : Decimal → Decimal
unfolding round_off
fix d = if ltb (magnitude d.coefficient) coefficient_limit then d else round_off d

-- The coefficient of `d` at a scale that is at least its own.
abbrev pub align : Decimal → ℕ → ℤ
align d s = signed d.coefficient (magnitude d.coefficient * 10 ^ (s - d.scale))

abbrev pub max_scale : Decimal → Decimal → ℕ
max_scale a b = if ltb a.scale b.scale then b.scale else a.scale

-- a + b
unfoldable pub add : Decimal → Decimal → Decimal
add a b = let s = max_scale a b in fix (record { coefficient = align a s +ℤ align b s; scale = s })

-- a - b
unfoldable pub sub : Decimal → Decimal → Decimal
sub a b = let s = max_scale a b in fix (record { coefficient = align a s -ℤ align b s; scale = s })

-- a * b
unfoldable pub mul : Decimal → Decimal → Decimal
mul a b = fix (record { coefficient = a.coefficient *ℤ b.coefficient; scale = a.scale + b.scale })

-- a / b for b that is not 0: one digit more than the context keeps, with a sticky last digit, and
-- then the context's rounding.
unfoldable pub div : Decimal → Decimal → Decimal
unfolding sticky_div
div a b =
    let n = magnitude a.coefficient * 10 ^ b.scale in
    let d = magnitude b.coefficient * 10 ^ a.scale in
    let shift = digits d + 29 - digits n in
    fix (record {
      coefficient =
          signed (signed a.coefficient 1 *ℤ signed b.coefficient 1) (sticky_div (n * 10 ^ shift) d);
      scale = shift;
    })

-- a < b
unfoldable pub lt : Decimal → Decimal → Bool
lt a b = let s = max_scale a b in ltb_ℤ (align a s) (align b s)

-- a <= b
unfoldable pub le : Decimal → Decimal → Bool
unfolding lt
le a b = not (lt b a)

-- a == b
unfoldable pub eq : Decimal → Decimal → Bool
unfolding lt
eq a b = not (lt a b) && not (lt b a)

-- abs(a)
unfoldable pub abs : Decimal → Decimal
abs d = record d { coefficient = pos (magnitude d.coefficient) }

pub data RoundingMode : Type 0 where
  round_half_up round_half_even : RoundingMode

abbrev round_div : RoundingMode → ℕ → ℕ → ℕ
round_div round_half_up n d = div_half_up n d
round_div round_half_even n d = div_half_even n d

-- The magnitude of `d` in units of 10^-s, rounded.
unfoldable pub rescaled : RoundingMode → ℕ → Decimal → ℕ
unfolding div_half_up div_half_even
rescaled mode s d =
    if leb d.scale s
    then magnitude d.coefficient * 10 ^ (s - d.scale)
    else round_div mode (magnitude d.coefficient) (10 ^ (d.scale - s))

-- d.quantize(Decimal(10) ** -s, rounding=mode); `none` is the exception InvalidOperation, raised
-- when the result has more than 28 digits.
unfoldable pub quantize : RoundingMode → ℕ → Decimal → Option Decimal
unfolding rescaled
quantize mode s d =
    let m = rescaled mode s d in
    if ltb m coefficient_limit
    then some (record { coefficient = signed d.coefficient m; scale = s })
    else none

-- Literals such as Decimal("0.005").
abbrev pub literal : ℕ → ℕ → Decimal
literal n s = record { coefficient = pos n; scale = s }

abbrev pub zero_decimal : Decimal
zero_decimal = literal 0 0
