-- ===== src/Service/CrossCurrencyTransferService/Fees.antt =====
-- The fees with the default settings.
use ai_spec_driven_developme.Prelude.{
  ℕ, ◌+◌, ◌-◌, ◌*◌, ◌/◌, ◌^◌, ◌≤◌, ◌<◌, ◌≡◌, sym, ap, ap₂, ◌∙◌, arith,
}
use ai_spec_driven_developme.Prelude.Int.{pos, ◌+ℤ◌, ◌-ℤ◌, ◌*ℤ◌}
use ai_spec_driven_developme.Decimal.{
  Decimal, literal, mul, add, sub, quantize, rescaled, div_half_up, coefficient_limit,
}
use ai_spec_driven_developme.Decimal.Exact.{money, fix_exact, add_exact}
use ai_spec_driven_developme.Service.CrossCurrencyTransferService.Money.{
  to_quantum_exact, sub-money,
}
use ai_spec_driven_developme.Errors.{Result, ok, >>=-eq-ok}
use ai_spec_driven_developme.Config.{default_settings}
use ai_spec_driven_developme.Service.CrossCurrencyTransferService.Computation.{
  Amounts, calculate_amounts, to_quantum,
}

-- A rate of p thousandths of `a`, to the nearest, a half upwards.
abbrev pub per_mille : ℕ → ℕ → ℕ
per_mille p a = (a * p + 500) / 1000

half_up : (n : ℕ) → div_half_up n 1000 ≡ (n + 500) / 1000
unfolding div_half_up
half_up n = ground arith

pub times : (a p : ℕ) → pos a *ℤ pos p ≡ pos (a * p)
unfolding ◌*ℤ◌
times a p = ground arith

quantized_7 :
    (n : ℕ)
    → n < coefficient_limit
    → to_quantum (record { coefficient = pos n; scale = 7 }) ≡ ok (money (pos ((n + 500) / 1000)))
unfolding to_quantum quantize rescaled
quantized_7 n fits = rw (half_up n) (ground arith)

pub fee-eq :
    (a p : ℕ)
    → a * p < coefficient_limit
    → to_quantum (mul (money (pos a)) (literal p 3)) ≡ ok (money (pos (per_mille p a)))
unfolding mul
fee-eq a p fits =
    rw (times a p, fix_exact (record { coefficient = pos (a * p); scale = 7 }) fits)
      (quantized_7 (a * p) fits)

-- What a sender of `a` ten-thousandths pays and what is received, at a rate that makes `g` of them.
pub record Charged (a g : ℕ) (r : Amounts) : Type 0 where
  -- The sending fee is half a percent of the amount, and is paid on top of it.
  pub sending : r.sending_fee ≡ money (pos (per_mille 5 a))
  pub total : r.total_sender_cost ≡ money (pos (a + per_mille 5 a))
  -- The receiving fee is 0.3 percent of the converted amount, and is taken from it.
  pub receiving : r.receiving_fee ≡ money (pos (per_mille 3 g))
  pub net : r.net_amount ≡ money (pos (g - per_mille 3 g))
  pub fee_below : per_mille 3 g ≤ g

pub value_alike : (a b : Decimal) → ◌≡◌ {A = Result Decimal} (ok a) (ok b) → a ≡ b
value_alike a b h = cc

charged_alike : (a b : Amounts) → ◌≡◌ {A = Result Amounts} (ok a) (ok b) → a ≡ b
charged_alike a b h = cc

plus : (a b : ℕ) → pos a +ℤ pos b ≡ pos (a + b)
unfolding ◌+ℤ◌
plus a b = ground arith

pub minus : (a b : ℕ) → b ≤ a → pos a -ℤ pos b ≡ pos (a - b)
unfolding ◌-ℤ◌
minus a b h = ground arith

pub below : (g : ℕ) → per_mille 3 g ≤ g
below g = omega arith

-- With the default settings, of an amount of `a` ten-thousandths with at most 27 digits and a gross
-- amount `g` likewise: the sender pays the amount and 0.5 percent of it, the receiver gets the gross
-- amount less 0.3 percent of it, both rounded to the nearest ten-thousandth, a half upwards; the fees
-- account exactly for the differences.
pub calculate_amounts-Charged :
    (a g : ℕ) (rate : Decimal) {r : Amounts}
    → a < 10 ^ 27
    → g < 10 ^ 27
    → calculate_amounts default_settings (money (pos a)) rate ≡ ok r
    → r.gross_amount ≡ money (pos g)
    → Charged a g r
unfolding calculate_amounts
calculate_amounts-Charged a g rate {r} small small_too h gross_is =
    let (fee, p1, h1) = >>=-eq-ok (to_quantum (mul (money (pos a)) (literal 5 3))) _ h in
    let (gross, p2, h2) = >>=-eq-ok (to_quantum (mul (money (pos a)) rate)) _ h1 in
    let (receiving, p3, h3) = >>=-eq-ok (to_quantum (mul gross (literal 3 3))) _ h2 in
    let (net, p4, h4) = >>=-eq-ok (to_quantum (sub gross receiving)) _ h3 in
    let (cost, p5, h5) = >>=-eq-ok (to_quantum (add (money (pos a)) fee)) _ h4 in
    let same = charged_alike _ r h5 in
    let gross_money : gross ≡ money (pos g) = ap (λ x. x.gross_amount) same ∙ gross_is in
    let fee_is : fee ≡ money (pos (per_mille 5 a)) =
      value_alike fee (money (pos (per_mille 5 a))) (sym p1 ∙ fee-eq a 5 (omega (arith, small))) in
    let receiving_is : receiving ≡ money (pos (per_mille 3 g)) =
      value_alike receiving (money (pos (per_mille 3 g))) (
        sym p3
        ∙ ap (λ d. to_quantum (mul d (literal 3 3))) gross_money
        ∙ fee-eq g 3 (omega (arith, small_too))) in
    record {
      sending = ap (λ x. x.sending_fee) (sym same) ∙ fee_is;
      total =
          ap (λ x. x.total_sender_cost) (sym same)
          ∙ value_alike cost (money (pos (a + per_mille 5 a))) (
              sym p5
              ∙ ap (λ d. to_quantum (add (money (pos a)) d)) fee_is
              ∙ ap to_quantum (
                  add_exact (pos a) (pos (per_mille 5 a))
                    (rw (plus a (per_mille 5 a)) (omega (arith, small))))
              ∙ ap (λ x. to_quantum (money x)) (plus a (per_mille 5 a))
              ∙ to_quantum_exact (pos (a + per_mille 5 a)) (omega (arith, small)));
      receiving = ap (λ x. x.receiving_fee) (sym same) ∙ receiving_is;
      net =
          ap (λ x. x.net_amount) (sym same)
          ∙ value_alike net (money (pos (g - per_mille 3 g))) (
              sym p4
              ∙ ap₂ (λ x y. to_quantum (sub x y)) gross_money receiving_is
              ∙ ap to_quantum (
                  sub-money (pos g) (pos (per_mille 3 g))
                    (rw (minus g (per_mille 3 g) (below g)) (omega (arith, small_too))))
              ∙ ap (λ x. to_quantum (money x)) (minus g (per_mille 3 g) (below g))
              ∙ to_quantum_exact (pos (g - per_mille 3 g)) (omega (arith, small_too)));
      fee_below = below g;
    }
