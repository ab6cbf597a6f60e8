-- ===== src/Service/CrossCurrencyTransferService/NetAmount.antt =====
-- With the default settings the receiving fee never exceeds the amount that it is taken from.
use ai_spec_driven_developme.Errors.{>>=-eq-ok, Result, ok}
use ai_spec_driven_developme.Service.CrossCurrencyTransferService.Computation.{
  Amounts, calculate_amounts, to_quantum,
}
use ai_spec_driven_developme.Prelude.{
  Bool-cases, ap, ap₂, arith, false, inl, inr, ltb, subst, sym, ℕ, ◌*◌, ◌+◌, ◌-◌, ◌<◌, ◌^◌, ◌∙◌,
  ◌≡◌, ◌≤◌,
}
use ai_spec_driven_developme.Decimal.{
  Decimal, add, coefficient_limit, fix, literal, mul, quantize, rescaled, round_off, sub,
  round_half_up,
}
use ai_spec_driven_developme.Service.TransferService.Conversion.{IsNonneg, mul_keeps_sign}
use ai_spec_driven_developme.Service.CrossCurrencyTransferService.Fees.{
  below, fee-eq, minus, per_mille, times, value_alike,
}
use ai_spec_driven_developme.Config.{default_settings}
use ai_spec_driven_developme.Decimal.Division.{digits-eq, div_half_even, div_half_up}
use ai_spec_driven_developme.Decimal.Rounding.{div_half_even_bounds, div_half_up_bounds}
use ai_spec_driven_developme.Decimal.Exact.{money}
use ai_spec_driven_developme.Prelude.Int.{pos, signed, ℤ, ◌≤ℤ◌}
use ai_spec_driven_developme.Service.CrossCurrencyTransferService.Money.{
  sub-money, to_quantum_exact,
}

not_below : (m : ℕ) → 10 ^ 28 ≤ m → ltb m coefficient_limit ≡ false
not_below m h = ground arith

-- A product of 29 digits loses its last digit.
fix_29_digits :
    (m : ℕ)
    → 10 ^ 28 ≤ m
    → m < 10 ^ 29
    → fix (record { coefficient = pos m; scale = 7 })
      ≡ record { coefficient = pos (div_half_even m 10); scale = 6 }
unfolding fix round_off div_half_even
fix_29_digits m low high = rw (not_below m low, digits-eq 28 m low high (omega (arith, low)))

quantized_6 :
    (q : ℕ)
    → div_half_up q 100 < coefficient_limit
    → to_quantum (record { coefficient = pos q; scale = 6 }) ≡ ok (money (pos (div_half_up q 100)))
unfolding to_quantum quantize rescaled div_half_up
quantized_6 q fits = ground arith

rounded_twice :
    (g q f : ℕ) → 2 * (10 * q) ≤ 2 * (g * 3) + 10 → 2 * (100 * f) ≤ 2 * q + 100 → 10 ≤ g → f ≤ g
rounded_twice g q f h k large = omega (arith, h, k, large)

large_fee : ℕ → ℕ
large_fee g = div_half_up (div_half_even (g * 3) 10) 100

large_fee_below : (g : ℕ) → 10 ≤ g → large_fee g ≤ g
unfolding large_fee
large_fee_below g large =
    let even = div_half_even_bounds (g * 3) 10 (ground arith) in
    let up = div_half_up_bounds (div_half_even (g * 3) 10) 100 (ground arith) in
    rounded_twice g (div_half_even (g * 3) 10) (div_half_up (div_half_even (g * 3) 10) 100) even.1
      up.1 large

large_fee-eq :
    (g : ℕ)
    → g < coefficient_limit
    → 10 ^ 28 ≤ g * 3
    → to_quantum (mul (money (pos g)) (literal 3 3)) ≡ ok (money (pos (large_fee g)))
unfolding mul large_fee
large_fee-eq g fits large =
    ap (λ c. to_quantum (fix (record { coefficient = c; scale = 7 }))) (times g 3)
    ∙ ap to_quantum (fix_29_digits (g * 3) large (omega (arith, fits)))
    ∙ quantized_6 (div_half_even (g * 3) 10)
        (within (large_fee g) g (large_fee_below g (omega (arith, large))) fits)
  where
    within : (f n : ℕ) → f ≤ n → n < coefficient_limit → f < coefficient_limit
    within f n h k = omega (arith, h, k)

-- The fee on an amount of at most 28 digits is at most the amount.
fee_below_amount :
    (g : ℕ) {d : Decimal}
    → g < coefficient_limit
    → to_quantum (mul (money (pos g)) (literal 3 3)) ≡ ok d
    → (f : ℕ) × (f ≤ g) × (d ≡ money (pos f))
fee_below_amount g {d} fits h = elim (Bool-cases (ltb (g * 3) coefficient_limit)) [
  | inl small ↦ (
    per_mille 3 g,
    below g,
    value_alike d (money (pos (per_mille 3 g))) (sym h ∙ fee-eq g 3 (ground arith)),
  )
  | inr large ↦
      let high : 10 ^ 28 ≤ g * 3 = ground arith in
      (
        large_fee g,
        large_fee_below g (omega (arith, high)),
        value_alike d (money (pos (large_fee g))) (sym h ∙ large_fee-eq g fits high),
      )
]

nonneg_signed : (c : ℤ) (k : ℕ) → pos 0 ≤ℤ c → signed c k ≡ pos k
nonneg_signed c k h = ground arith

quantized_amount :
    (d : Decimal) {m : Decimal}
    → to_quantum d ≡ ok m
    → IsNonneg d
    → (g : ℕ) × (g < coefficient_limit) × (m ≡ money (pos g))
unfolding to_quantum quantize
quantized_amount d {m} h n =
    elim (Bool-cases (ltb (rescaled round_half_up 4 d) coefficient_limit)) [
      | inl p ↦ (
        rescaled round_half_up 4 d,
        ground (arith, p),
        value_alike m (money (pos (rescaled round_half_up 4 d)))
            (sym h ∙ rw (p, nonneg_signed d.coefficient (rescaled round_half_up 4 d) n)),
      )
      | inr p ↦ absurd (ground (arith, rw p at h))
    ]

alike : (a b : Amounts) → ◌≡◌ {A = Result Amounts} (ok a) (ok b) → a ≡ b
alike a b h = cc

-- Of an amount and a rate that are not negative, the net amount is not negative.
pub net_amount-IsNonneg :
    (amount rate : Decimal) {r : Amounts}
    → IsNonneg amount
    → IsNonneg rate
    → calculate_amounts default_settings amount rate ≡ ok r
    → IsNonneg r.net_amount
unfolding calculate_amounts
net_amount-IsNonneg amount rate {r} m n h =
    let (fee, p1, h1) = >>=-eq-ok (to_quantum (mul amount (literal 5 3))) _ h in
    let (gross, p2, h2) = >>=-eq-ok (to_quantum (mul amount rate)) _ h1 in
    let (receiving, p3, h3) = >>=-eq-ok (to_quantum (mul gross (literal 3 3))) _ h2 in
    let (net, p4, h4) = >>=-eq-ok (to_quantum (sub gross receiving)) _ h3 in
    let (cost, p5, h5) = >>=-eq-ok (to_quantum (add amount fee)) _ h4 in
    let (g, fits, is_gross) =
      quantized_amount (mul amount rate) p2 (mul_keeps_sign amount rate m n) in
    let (f, at_most, is_fee) =
      fee_below_amount g fits (ap (λ d. to_quantum (mul d (literal 3 3))) (sym is_gross) ∙ p3) in
    let left = minus g f at_most in
    let small : g - f < coefficient_limit = omega (arith, fits) in
    subst IsNonneg
      (sym (
        ap (λ x. x.net_amount) (sym (alike _ r h5))
        ∙ value_alike net (money (pos (g - f))) (
            sym p4
            ∙ ap₂ (λ x y. to_quantum (sub x y)) is_gross is_fee
            ∙ ap to_quantum (sub-money (pos g) (pos f) (rw left small))
            ∙ ap (λ x. to_quantum (money x)) left
            ∙ to_quantum_exact (pos (g - f)) small)))
      (ground arith)
