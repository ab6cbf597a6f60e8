-- ===== src/Tests/Rates.antt =====
-- Rates, their refresh, and the amounts that follow from them.
use ai_spec_driven_developme.Repository.FxRateRepository.{get_latest_snapshot, latest}
use ai_spec_driven_developme.Repository.FxRateRepository.Latest.{Answer, get_latest_snapshot-Answer}
use ai_spec_driven_developme.Prelude.{
  String, ◌≡◌, ◌≢◌, ◌↔◌, refl, true, none, some, [], ◌∷◌, eq_iff, arith, select,
}
use ai_spec_driven_developme.Prelude.Int.{◌+ℤ◌, ◌-ℤ◌, ◌*ℤ◌}
use ai_spec_driven_developme.Decimal.{add, sub, fix, mul, quantize, literal}
use ai_spec_driven_developme.Errors.{ok}
use ai_spec_driven_developme.Config.{default_settings}
use ai_spec_driven_developme.Session.{Session}
use ai_spec_driven_developme.Service.ExchangeRateService
use ai_spec_driven_developme.Service.StaticFxRateProvider
use ai_spec_driven_developme.Service.StaticFxRateProvider.Agreement.{get_rate-get_rate}
use ai_spec_driven_developme.Service.FxRateProvider.{do_refresh, new_adapter}
use ai_spec_driven_developme.Service.FxRateProvider.Refresh.{refreshed, first_answer, do_refresh-eq}
use ai_spec_driven_developme.Service.FxRateService.{preview_of}
use ai_spec_driven_developme.Service.FxRateService.Preview.{
  response_of, preview_of-calculate_amounts,
}
use ai_spec_driven_developme.Service.CrossCurrencyTransferService.Computation.{
  to_quantum, Amounts, calculate_amounts,
}
use ai_spec_driven_developme.Service.CrossCurrencyTransferService.Fees.{
  Charged, calculate_amounts-Charged,
}
use ai_spec_driven_developme.Tests.Setup.{config, tables, session}
use ai_spec_driven_developme.Tests.CrossCurrency.{snapshot}

-- Two attempts fail, and the third gets the rates.
do_refresh-eq_example :
    do_refresh 5 none none (some config.rates) new_adapter
    ≡ refreshed 5 (first_answer none none (some config.rates)) new_adapter
do_refresh-eq_example = do_refresh-eq 5 none none (some config.rates) new_adapter

preview_of-calculate_amounts_example :
    preview_of default_settings snapshot "USD" (literal 10025 2) (literal 92 2) session ≡ (
      response_of snapshot "USD"
          (literal 10025 2)
          (literal 92 2)
          (calculate_amounts default_settings (literal 10025 2) (literal 92 2)),
      session,
    )
preview_of-calculate_amounts_example =
    preview_of-calculate_amounts snapshot "USD" (literal 10025 2) (literal 92 2) default_settings
      session

-- 100.25 at the rate 0.92.
abbrev charged : Amounts
charged = record {
  sending_fee = literal 5013 4;
  gross_amount = literal 922300 4;
  receiving_fee = literal 2767 4;
  net_amount = literal 919533 4;
  total_sender_cost = literal 1007513 4;
}

run_amounts : calculate_amounts default_settings (literal 1002500 4) (literal 92 2) ≡ ok charged
unfolding calculate_amounts to_quantum quantize mul fix ◌*ℤ◌ sub ◌-ℤ◌ add ◌+ℤ◌
run_amounts = refl

calculate_amounts-Charged_example : Charged 1002500 922300 charged
calculate_amounts-Charged_example =
    calculate_amounts-Charged 1002500 922300 (literal 92 2) (ground arith) (ground arith)
      run_amounts refl

usd_eur : ◌≢◌ {A = String} "USD" "EUR"
usd_eur h = ground (arith, (eq_iff "USD" "EUR").1 h)

get_rate-get_rate_example :
    (ExchangeRateService.get_rate config "USD" "EUR" ≡ ok (literal 92 2))
    ↔ (StaticFxRateProvider.get_rate config "USD" "EUR" ≡ ok (literal 92 2))
get_rate-get_rate_example = get_rate-get_rate config "USD" "EUR" usd_eur (literal 92 2)

-- Two fresh snapshots and a newer one that is stale.
abbrev rated : Session
rated = record session {
  db = record tables {
    snapshots =
        snapshot
        ∷ record snapshot { id = 9; effective_at = 950 }
        ∷ record snapshot { id = 10; effective_at = 990; is_stale = true }
        ∷ [];
  };
}

run_latest : get_latest_snapshot rated ≡ (
  ok (some (record snapshot { id = 9; effective_at = 950 })),
  record rated { in_transaction = true },
)
unfolding get_latest_snapshot latest select
run_latest = refl

get_latest_snapshot-Answer_example :
    Answer rated.db.snapshots (some (record snapshot { id = 9; effective_at = 950 }))
get_latest_snapshot-Answer_example = get_latest_snapshot-Answer rated run_latest
