-- ===== src/Service/StaticFxRateProvider.antt =====
-- `StaticFxRateProvider` of src/fund_transfer/services/fx_rate_provider.py: the configured rates.
pub mod Agreement
use ai_spec_driven_developme.Prelude.{String, not, any_of, str_eq}
use ai_spec_driven_developme.Decimal.{Decimal}
use ai_spec_driven_developme.Errors.{
  domain_error, unsupported_currency_pair_error, Result, raise_if, or_raise, ◌>>◌,
}
use ai_spec_driven_developme.Prelude.{none}
use ai_spec_driven_developme.Config.{ExchangeRateConfig}
use ai_spec_driven_developme.Service.ExchangeRateService.{find_rate}

unfoldable pub validate_currency : ExchangeRateConfig → String → Result (Unit {0})
validate_currency config code =
    raise_if (not (any_of (λ c. str_eq c code) config.supported_currencies))
      (domain_error unsupported_currency_pair_error none)

unfoldable pub get_rate : ExchangeRateConfig → String → String → Result Decimal
get_rate config from_currency to_currency = do
  validate_currency config from_currency
  validate_currency config to_currency
  or_raise (find_rate config.rates from_currency to_currency)
      (domain_error unsupported_currency_pair_error none)
