-- ===== src/Service/TransferService/Conversion.antt =====
-- The amount that a transfer credits.
use ai_spec_driven_developme.Prelude.{ℕ, ◌+◌, ◌-◌, ◌*◌, ◌^◌, ◌≤◌, ◌<◌, ◌≡◌, arith, some, ap, ◌∙◌}
use ai_spec_driven_developme.Prelude.Int.{ℤ, pos, magnitude, ◌*ℤ◌, ◌≤ℤ◌}
use ai_spec_driven_developme.Decimal.{
  Decimal, literal, mul, fix, round_off, quantize, RoundingMode, round_half_even, coefficient_limit,
}
use ai_spec_driven_developme.Decimal.Exact.{money, units, fix_exact, pow_pos}
use ai_spec_driven_developme.Errors.{ok}
use ai_spec_driven_developme.Service.TransferService.{converted}

abbrev pub IsNonneg : Decimal → Type 0
IsNonneg d = pos 0 ≤ℤ d.coefficient

-- What is quantized has the scale asked for, and keeps its sign.
pub quantize-eq-some :
    (mode : RoundingMode) (s : ℕ) (d : Decimal) {m : Decimal}
    → quantize mode s d ≡ some m
    → (m.scale ≡ s) × (IsNonneg d → IsNonneg m)
unfolding quantize
quantize-eq-some mode s d h = (ground arith, λ n. ground arith)

pub fix_keeps_sign : (d : Decimal) → IsNonneg d → IsNonneg (fix d)
unfolding fix round_off
fix_keeps_sign d n = ground arith

pub mul_keeps_sign : (a b : Decimal) → IsNonneg a → IsNonneg b → IsNonneg (mul a b)
unfolding mul ◌*ℤ◌
mul_keeps_sign a b m n = fix_keeps_sign _ (ground arith)

pub converted-eq-ok :
    (amount rate : Decimal) {m : Decimal}
    → converted amount rate ≡ ok m
    → (m.scale ≡ 4) × (IsNonneg amount → IsNonneg rate → IsNonneg m)
unfolding converted
converted-eq-ok amount rate {m} h =
    let q : quantize round_half_even 4 (mul amount rate) ≡ some m = ground arith in
    let (scale, sign) = quantize-eq-some round_half_even 4 (mul amount rate) q in
    (scale, λ n k. sign (mul_keeps_sign amount rate n k))

one_exact : (c : ℤ) → c *ℤ pos 1 ≡ c
unfolding ◌*ℤ◌
one_exact c = ground arith

mul-one : (a : Decimal) → magnitude a.coefficient < coefficient_limit → mul a (literal 1 0) ≡ a
unfolding mul
mul-one a fits =
    let same : ◌≡◌ {A = Decimal}
        (record { coefficient = a.coefficient *ℤ pos 1; scale = a.scale + 0 }) a =
      ground (arith, one_exact a.coefficient) in
    ap fix same ∙ fix_exact a fits

scaled_fits : (m k : ℕ) → m * 10 ^ k < coefficient_limit → m < coefficient_limit
scaled_fits m k h = grind (arith, pow_pos k)

pub quantize_exact :
    (mode : RoundingMode) (d : Decimal)
    → d.scale ≤ 4
    → magnitude d.coefficient * 10 ^ (4 - d.scale) < coefficient_limit
    → quantize mode 4 d ≡ some (money (units d))
unfolding quantize
quantize_exact mode d small fits = ground arith

-- At the rate 1 an amount with at most four places is credited as it is.
pub converted-one :
    (amount : Decimal)
    → amount.scale ≤ 4
    → magnitude amount.coefficient * 10 ^ (4 - amount.scale) < coefficient_limit
    → converted amount (literal 1 0) ≡ ok (money (units amount))
unfolding converted
converted-one amount small fits = rw (
  mul-one amount (scaled_fits (magnitude amount.coefficient) (4 - amount.scale) fits),
  quantize_exact round_half_even amount small fits,
)
