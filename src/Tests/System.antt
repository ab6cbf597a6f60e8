-- ===== src/Tests/System.antt =====
-- The application with one user, and short runs of it.
use ai_spec_driven_developme.System.Sound.{IsOrdinary, Reach-AllSound}
use ai_spec_driven_developme.Session.Numeric.{AllSound}
use ai_spec_driven_developme.Tests.Setup.{
  column, config-NonnegRates, engine-NumericColumns, engine-NumericRange, tables-AllSound, engine,
  config, tables,
}
use ai_spec_driven_developme.Tests.Transfers.{request}
use ai_spec_driven_developme.Api.App.{
  App, Endpoint, HttpRequest, new_session, handle, create_transfer, call_endpoint, respond,
}
use ai_spec_driven_developme.System.AtRest.{AtRest, Reach-AtRest}
use ai_spec_driven_developme.Security.{Claims, caller_of, get_current_user, validate_token}
use ai_spec_driven_developme.Service.CrossCurrencyTransferService.{
  CrossCurrencyTransferResponse, initiate,
}
use ai_spec_driven_developme.Service.CrossCurrencyTransferService.Validation.{
  CrossCurrencyTransferRequest,
}
use ai_spec_driven_developme.Session.{Db, Session, current_balance, set_balance, transaction}
use ai_spec_driven_developme.System.Grown.{Grown}
use ai_spec_driven_developme.Prelude.{
  arith, Option, String, [], false, leb, none, refl, select, some, true, ℕ, ◌∷◌, ◌≡◌, if◌then◌else◌,
  str_eq, any_of, lookup,
}
use ai_spec_driven_developme.System.{Reach, at_time, later, serves, start, starts}
use ai_spec_driven_developme.System.Lasting.{Reach-Grown}
use ai_spec_driven_developme.System.Snapshots.{Reach-no_snapshot}
use ai_spec_driven_developme.Api.Transfers.{check_transfer_capacity}
use ai_spec_driven_developme.Config.{default_settings}
use ai_spec_driven_developme.Errors.{domain_error, err, ok, stale_rate_error}
use ai_spec_driven_developme.System.Failures.{handle-failed}
use ai_spec_driven_developme.Api.Startup.{seed_currency_pairs}
use ai_spec_driven_developme.Decimal.{add, fix, le, lt, mul, quantize, rescaled, sub}
use ai_spec_driven_developme.Repository.TransferRepository.{
  add_transfer, get_idempotency_record, write_audit_log,
}
use ai_spec_driven_developme.Repository.Insert.{
  check_transfer_texts, insert_audit, insert_transfer, store_amounts, store_fees, store_transfer,
}
use ai_spec_driven_developme.Service.TransferService.{
  converted, execute_transfer, load_active, move_money, replay_or_run, transfer_block,
  validate_not_self_transfer,
}
use ai_spec_driven_developme.Service.ExchangeRateService.{
  find_rate, get_max_transfer_amount, get_rate, validate_currency,
}
use ai_spec_driven_developme.Repository.AccountRepository.{get_by_account_number}
use ai_spec_driven_developme.Api.ErrorHandler.{handle_error, status_code}
use ai_spec_driven_developme.Service.Retry.{retry, retry_on_deadlock}
use ai_spec_driven_developme.Session.Rows.{rows, update_row}
use ai_spec_driven_developme.Prelude.Int.{◌*ℤ◌, ◌+ℤ◌, ◌-ℤ◌}
use ai_spec_driven_developme.Service.FxRateService
use ai_spec_driven_developme.Api.Transfers

-- An identity provider that knows Alice and Carol.
abbrev claims_of : String → Option Claims
claims_of token =
    if str_eq token "token-alice"
    then some (("sub", "alice") ∷ [])
    else if str_eq token "token-carol"
    then some (("sub", "carol") ∷ [])
    else none

abbrev pub app : App
app = record {
  engine = engine;
  jwt = record {
    get_signing_key_from_jwt = λ token. some "key";
    decode = λ token key algorithms audience verify_exp. claims_of token;
  };
  jwt_audience = "fund-transfer-service";
  settings = default_settings;
  exchange_rates = config;
  is_deadlock = λ x. false;
}

abbrev pub AnyEndpoint : Endpoint → Type 0
AnyEndpoint endpoint = Unit

abbrev pay : HttpRequest
pay = record {
  endpoint = create_transfer request "key-1";
  credentials = some "token-alice";
  x_request_id = none;
}

-- Carol has 7 USD.
abbrev pub overpay : HttpRequest
overpay = record {
  endpoint =
      create_transfer
        (record request {
          source_account_number = "ACC-CAROL";
          destination_account_number = "ACC-ALICE";
        })
        "key-1";
  credentials = some "token-carol";
  x_request_id = none;
}

abbrev seeded : Db
seeded = (seed_currency_pairs engine (new_session tables 0)).1.db

abbrev paid : Db
paid = (handle app pay (new_session seeded 50)).1.db

-- A start, and a transfer.
run_paid : Reach app AnyEndpoint tables paid
run_paid = later (later start (starts 0 1000 1000)) (serves pay 50 1000 1000 tt)

Reach-Grown_example : Grown tables paid
Reach-Grown_example = Reach-Grown run_paid

no_transfers : AtRest tables.transfers
unfolding select
no_transfers = refl

Reach-AtRest_example :
    AtRest paid.transfers
    × ((draws : ℕ)
        → check_transfer_capacity (new_session paid draws)
          ≡ (ok tt, record (new_session paid draws) { in_transaction = true }))
Reach-AtRest_example = Reach-AtRest run_paid no_transfers

Reach-no_snapshot_example :
    (FxRateService.get_rate_table (new_session paid 3) ≡ (
      err (domain_error stale_rate_error none),
      record (new_session paid 3) { in_transaction = true },
    ))
    × ((request : CrossCurrencyTransferRequest) (caller_id key : String)
          (request_id : Option String) (r : CrossCurrencyTransferResponse) (t : Session)
        → ¬ (
            initiate
              (at_time app 2000 2000).engine
              default_settings
              request
              caller_id
              key
              request_id
              (new_session paid 3)
            ≡ (ok (r, false), t)))
Reach-no_snapshot_example = Reach-no_snapshot run_paid refl 3 2000 2000

failed_overpay : leb 400 (handle app overpay (new_session tables 50)).0.status_code ≡ true
unfolding handle call_endpoint respond get_current_user validate_token Transfers.create_transfer
    retry_on_deadlock retry caller_of validate_not_self_transfer handle_error status_code
    execute_transfer replay_or_run transfer_block load_active converted move_money
    get_by_account_number rows get_rate get_max_transfer_amount validate_currency find_rate lookup
    any_of select get_idempotency_record transaction set_balance current_balance update_row column
    rescaled quantize ◌*ℤ◌ ◌-ℤ◌ ◌+ℤ◌ mul sub add fix lt le add_transfer write_audit_log
    insert_transfer insert_audit store_transfer store_amounts store_fees check_transfer_texts
failed_overpay = refl

handle-failed_example : (handle app overpay (new_session tables 50)).1.db ≡ tables
handle-failed_example = handle-failed app overpay (new_session tables 50) failed_overpay

run-IsOrdinary : Reach app IsOrdinary tables paid
run-IsOrdinary = later (later start (starts 0 1000 1000)) (serves pay 50 1000 1000 (ground arith))

Reach-AllSound_example : AllSound paid.accounts
Reach-AllSound_example =
    Reach-AllSound engine-NumericColumns engine-NumericRange config-NonnegRates refl run-IsOrdinary
      tt tables-AllSound
