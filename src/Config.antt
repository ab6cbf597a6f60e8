-- ===== src/Config.antt =====
-- src/fund_transfer/core/config.py: the settings that the services read, and the exchange rates of
-- config/exchange_rates.yaml.
use ai_spec_driven_developme.Prelude.{String, List}
use ai_spec_driven_developme.Decimal.{Decimal, literal}
use ai_spec_driven_developme.Models.{RateMap}

pub record ExchangeRateConfig : Type 0 where
  pub supported_currencies : List String
  pub max_transfer_amounts : List (String × Decimal)
  pub rates : RateMap

pub record Settings : Type 0 where
  pub fx_rate_deviation_threshold_pct : Decimal
  pub transfer_limit_per_tx_usd : Decimal
  pub transfer_limit_per_day_usd : Decimal
  pub aml_screening_threshold_usd : Decimal
  pub sending_fee_pct : Decimal
  pub receiving_fee_pct : Decimal

-- The defaults of the class.
abbrev pub default_settings : Settings
default_settings = record {
  fx_rate_deviation_threshold_pct = literal 1 0;
  transfer_limit_per_tx_usd = literal 50000 0;
  transfer_limit_per_day_usd = literal 100000 0;
  aml_screening_threshold_usd = literal 10000 0;
  sending_fee_pct = literal 5 3;
  receiving_fee_pct = literal 3 3;
}
