-- ===== src/Service/CrossCurrencyTransferService/Computation.antt =====
-- The computations of a cross-currency transfer: rates, fees, deviation.
use ai_spec_driven_developme.Prelude.{ℕ, String, none, str_eq, if◌then◌else◌}
use ai_spec_driven_developme.Decimal.{
  Decimal, add, sub, mul, div, lt, eq, abs, quantize, round_half_up, literal, zero_decimal,
}
use ai_spec_driven_developme.Errors.{
  domain_error, other_error, rate_deviation_error, invalid_operation,
  unsupported_currency_pair_error, Result, ok, raise_if, or_raise, ◌>>=◌,
}
use ai_spec_driven_developme.Models.{RateMap}
use ai_spec_driven_developme.Config.{Settings}
use ai_spec_driven_developme.Service.ExchangeRateService.{find_rate}

-- `d.quantize(QUANT, rounding=ROUND_HALF_UP)`
unfoldable pub to_quantum : Decimal → Result Decimal
to_quantum d = or_raise (quantize round_half_up 4 d) (other_error invalid_operation)

-- `_get_rate`
unfoldable pub rate_of : RateMap → String → String → Result Decimal
rate_of rates from_currency to_currency =
    or_raise (find_rate rates from_currency to_currency)
      (domain_error unsupported_currency_pair_error none)

pub record Amounts : Type 0 where
  pub sending_fee : Decimal
  pub gross_amount : Decimal
  pub receiving_fee : Decimal
  pub net_amount : Decimal
  pub total_sender_cost : Decimal

unfoldable pub calculate_amounts : Settings → Decimal → Decimal → Result Amounts
calculate_amounts settings source_amount rate = do
  sending_fee ← to_quantum (mul source_amount settings.sending_fee_pct)
  gross_amount ← to_quantum (mul source_amount rate)
  receiving_fee ← to_quantum (mul gross_amount settings.receiving_fee_pct)
  net_amount ← to_quantum (sub gross_amount receiving_fee)
  total_sender_cost ← to_quantum (add source_amount sending_fee)
  ok (record {
    sending_fee = sending_fee;
    gross_amount = gross_amount;
    receiving_fee = receiving_fee;
    net_amount = net_amount;
    total_sender_cost = total_sender_cost;
  })

unfoldable pub amount_in_usd : Decimal → String → RateMap → Result Decimal
amount_in_usd amount currency rates =
    if str_eq currency "USD"
    then to_quantum amount
    else do usd_rate ← rate_of rates currency "USD"; to_quantum (mul amount usd_rate)

-- `abs(current_rate - preview_rate) / preview_rate * Decimal("100")`, quantized
unfoldable pub deviation : Decimal → Decimal → Result Decimal
deviation preview_rate current_rate =
    to_quantum (mul (div (abs (sub current_rate preview_rate)) preview_rate) (literal 100 0))

unfoldable pub check_rate_deviation : Settings → Decimal → Decimal → ℕ → Result (Unit {0})
check_rate_deviation settings preview_rate current_rate current_snapshot_id =
    if eq preview_rate zero_decimal then ok tt else do
      deviation_pct ← deviation preview_rate current_rate
      raise_if (lt settings.fx_rate_deviation_threshold_pct deviation_pct)
          (rate_deviation_error preview_rate current_rate deviation_pct current_snapshot_id)
