-- ===== src/Service/StaticFxRateProvider/Agreement.antt =====
-- The two services that read the configured rates agree.
use ai_spec_driven_developme.Prelude.{String, ◌≡◌, ◌≢◌, ◌↔◌, false, str_eq, eq_iff, arith}
use ai_spec_driven_developme.Decimal.{Decimal}
use ai_spec_driven_developme.Errors.{ok}
use ai_spec_driven_developme.Config.{ExchangeRateConfig}
use ai_spec_driven_developme.Service.ExchangeRateService.{find_rate}
use ai_spec_driven_developme.Service.ExchangeRateService
use ai_spec_driven_developme.Service.StaticFxRateProvider

differ : (a b : String) → a ≢ b → str_eq a b ≡ false
differ a b d = ground (arith, eq_iff a b)

-- Between two different currencies `ExchangeRateService.get_rate` gives a rate just when
-- `StaticFxRateProvider.get_rate` gives the same rate.
pub get_rate-get_rate :
    (config : ExchangeRateConfig) (from to : String)
    → from ≢ to
    → (r : Decimal)
    → (ExchangeRateService.get_rate config from to ≡ ok r)
      ↔ (StaticFxRateProvider.get_rate config from to ≡ ok r)
unfolding ExchangeRateService.get_rate StaticFxRateProvider.get_rate
    ExchangeRateService.validate_currency StaticFxRateProvider.validate_currency
get_rate-get_rate config from to d r = ground (arith, differ from to d)
