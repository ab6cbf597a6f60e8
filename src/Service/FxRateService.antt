-- ===== src/Service/FxRateService.antt =====
-- src/fund_transfer/services/fx_rate_service.py
pub mod Preview
use ai_spec_driven_developme.Prelude.{
  ℕ, String, Bool, ◌&&◌, Option, none, some, List, [], ◌∷◌, str_eq, if◌then◌else◌,
}
use ai_spec_driven_developme.Decimal.{Decimal, add, sub, mul, quantize, round_half_up}
use ai_spec_driven_developme.Errors.{
  domain_error, other_error, invalid_operation, stale_rate_error, unsupported_currency_pair_error,
  Result, ok, err, or_raise,
}
use ai_spec_driven_developme.Models.{CurrencyPair, FxRateSnapshot, RateMap}
use ai_spec_driven_developme.Config.{Settings}
use ai_spec_driven_developme.Session.{Action, pure, lift, ◌>>=◌}
use ai_spec_driven_developme.Repository.FxRateRepository.{
  get_latest_snapshot, get_active_currency_pairs,
}
use ai_spec_driven_developme.Service.ExchangeRateService.{find_rate}

-- schemas/fx.py
pub record ExchangeRate : Type 0 where
  pub from_currency : String
  pub to_currency : String
  pub rate : Decimal

pub record RateTableResponse : Type 0 where
  pub snapshot_id : ℕ
  pub effective_at : ℕ
  pub is_stale : Bool
  pub rates : List ExchangeRate

pub record ConversionPreviewResponse : Type 0 where
  pub input_amount : Decimal
  pub from_currency : String
  pub exchange_rate : Decimal
  pub gross_converted_amount : Decimal
  pub estimated_sending_fee : Decimal
  pub estimated_receiving_fee : Decimal
  pub estimated_net_amount : Decimal
  pub total_sender_cost : Decimal
  pub snapshot_id : ℕ
  pub effective_at : ℕ
  pub is_stale : Bool

-- The loop of `get_rate_table`: a pair without a rate is left out.
unfoldable pub rates_of_pairs : RateMap → List CurrencyPair → List ExchangeRate
rates_of_pairs rates [] = []
rates_of_pairs rates (pair ∷ pairs) = elim (find_rate rates pair.from_currency pair.to_currency) [
  | none ↦ rates_of_pairs rates pairs
  | some rate ↦
      record { from_currency = pair.from_currency; to_currency = pair.to_currency; rate = rate }
      ∷ rates_of_pairs rates pairs
]

unfoldable pub get_rate_table : Action RateTableResponse
get_rate_table = do
  found ← get_latest_snapshot
  snapshot ← lift (or_raise found (domain_error stale_rate_error none))
  pairs ← get_active_currency_pairs
  pure (record {
    snapshot_id = snapshot.id;
    effective_at = snapshot.effective_at;
    is_stale = snapshot.is_stale;
    rates = rates_of_pairs snapshot.rates pairs;
  })

-- `next((pair for pair in pairs if …), None)`
unfoldable pub find_pair : String → String → List CurrencyPair → Option CurrencyPair
find_pair from_currency to_currency [] = none
find_pair from_currency to_currency (pair ∷ pairs) =
    if str_eq pair.from_currency from_currency && str_eq pair.to_currency to_currency
    then some pair
    else find_pair from_currency to_currency pairs

abbrev fresh_or_raise : Option FxRateSnapshot → Result FxRateSnapshot
fresh_or_raise none = err (domain_error stale_rate_error none)
fresh_or_raise (some snapshot) =
    if snapshot.is_stale then err (domain_error stale_rate_error none) else ok snapshot

abbrev quantized : Decimal → Action Decimal
quantized d = lift (or_raise (quantize round_half_up 4 d) (other_error invalid_operation))

unfoldable pub preview_of :
    Settings → FxRateSnapshot → String → Decimal → Decimal → Action ConversionPreviewResponse
preview_of settings snapshot from_currency amount rate = do
  sending_fee ← quantized (mul amount settings.sending_fee_pct)
  gross ← quantized (mul amount rate)
  receiving_fee ← quantized (mul gross settings.receiving_fee_pct)
  net_amount ← quantized (sub gross receiving_fee)
  total_sender_cost ← quantized (add amount sending_fee)
  pure (record {
    input_amount = amount;
    from_currency = from_currency;
    exchange_rate = rate;
    gross_converted_amount = gross;
    estimated_sending_fee = sending_fee;
    estimated_receiving_fee = receiving_fee;
    estimated_net_amount = net_amount;
    total_sender_cost = total_sender_cost;
    snapshot_id = snapshot.id;
    effective_at = snapshot.effective_at;
    is_stale = snapshot.is_stale;
  })

unfoldable pub preview_conversion :
    Settings → (from_currency to_currency : String) → Decimal → Action ConversionPreviewResponse
preview_conversion settings from_currency to_currency amount = do
  found ← get_latest_snapshot
  snapshot ← lift (fresh_or_raise found)
  pairs ← get_active_currency_pairs
  active_pair ← lift (
      or_raise (find_pair from_currency to_currency pairs)
        (domain_error unsupported_currency_pair_error none))
  rate ← lift (
      or_raise (find_rate snapshot.rates from_currency to_currency)
        (domain_error unsupported_currency_pair_error none))
  preview_of settings snapshot from_currency amount rate
