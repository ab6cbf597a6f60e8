-- ===== src/Api/Fx.antt =====
-- src/fund_transfer/api/v1/fx.py, without the gauge of the snapshot's age.
use ai_spec_driven_developme.Prelude.{String}
use ai_spec_driven_developme.Decimal.{Decimal}
use ai_spec_driven_developme.Config.{Settings}
use ai_spec_driven_developme.Security.{Claims}
use ai_spec_driven_developme.Session.{Action}
use ai_spec_driven_developme.Service.FxRateService.{RateTableResponse, ConversionPreviewResponse}
use ai_spec_driven_developme.Service.FxRateService

-- schemas/fx.py
pub record ConversionPreviewRequest : Type 0 where
  pub from_currency : String
  pub to_currency : String
  pub amount : Decimal

unfoldable pub get_rate_table : Claims → Action RateTableResponse
get_rate_table claims = FxRateService.get_rate_table

unfoldable pub preview_conversion :
    Settings → ConversionPreviewRequest → Claims → Action ConversionPreviewResponse
preview_conversion settings request claims =
    FxRateService.preview_conversion settings request.from_currency request.to_currency
      request.amount
