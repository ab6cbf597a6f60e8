-- ===== src/Service/ExchangeRateService.antt =====
-- src/fund_transfer/services/exchange_rate_service.py
use ai_spec_driven_developme.Prelude.{
  String, not, Option, none, some, any_of, lookup, str_eq, if◌then◌else◌,
}
use ai_spec_driven_developme.Decimal.{Decimal, literal}
use ai_spec_driven_developme.Errors.{
  domain_error, other_error, key_error, unsupported_currency_error, validation_error, Result, ok,
  raise_if, or_raise, ◌>>◌,
}
use ai_spec_driven_developme.Models.{RateMap}
use ai_spec_driven_developme.Config.{ExchangeRateConfig}

unfoldable pub validate_currency : ExchangeRateConfig → String → Result (Unit {0})
validate_currency config code =
    raise_if (not (any_of (λ c. str_eq c code) config.supported_currencies))
      (domain_error unsupported_currency_error (some "UNSUPPORTED_CURRENCY"))

-- `rates[from_currency][to_currency]`; `none` is a KeyError.
unfoldable pub find_rate : RateMap → String → String → Option Decimal
find_rate rates from_currency to_currency = elim (lookup from_currency rates) [
  | none ↦ none
  | some row ↦ lookup to_currency row
]

unfoldable pub get_rate : ExchangeRateConfig → String → String → Result Decimal
get_rate config from_currency to_currency =
    if str_eq from_currency to_currency then ok (literal 1 0) else do
      validate_currency config from_currency
      validate_currency config to_currency
      or_raise (find_rate config.rates from_currency to_currency)
          (domain_error validation_error (some "UNSUPPORTED_CURRENCY"))

unfoldable pub get_max_transfer_amount : ExchangeRateConfig → String → Result Decimal
get_max_transfer_amount config currency = do
  validate_currency config currency
  or_raise (lookup currency config.max_transfer_amounts) (other_error key_error)
