-- ===== src/Tests/CrossCurrency.antt =====
-- Cross-currency transfers, and what they use.
use ai_spec_driven_developme.Service.CrossCurrencyTransferService.Computation.{
  deviation, calculate_amounts, check_rate_deviation, amount_in_usd, to_quantum, rate_of,
}
use ai_spec_driven_developme.Service.TransferService.{load_active}
use ai_spec_driven_developme.Repository.AccountRepository.{get_by_account_number}
use ai_spec_driven_developme.Repository.Insert.{
  store_fees, insert_notification, check_transfer_texts, insert_audit, store_amounts,
  insert_transfer, store_transfer,
}
use ai_spec_driven_developme.Service.ExchangeRateService.{find_rate}
use ai_spec_driven_developme.Repository.TransferRepository.{
  create_cross_currency_transfer, get_daily_transfer_volume_usd, add_transfer, write_audit_log,
  get_transfer_by_id, get_idempotency_record, sum_usd,
}
use ai_spec_driven_developme.Repository.TransferRepository.StatusUpdate.{
  update_transfer, with_status, set_status, audit_status, update_transfer_status,
  is_invalid_transition,
}
use ai_spec_driven_developme.Service.NotificationService.{deliver, create_transfer_notifications}
use ai_spec_driven_developme.Session.Rows.{rows, update_row}
use ai_spec_driven_developme.Repository.FxRateRepository.{
  get_latest_snapshot, get_snapshot_by_id, get_active_currency_pairs, latest,
}
use ai_spec_driven_developme.Repository.NotificationRepository.{create_notification}
use ai_spec_driven_developme.Prelude.{
  ◌≡◌, refl, true, false, none, some, [], ◌∷◌, select, any_of, lookup,
}
use ai_spec_driven_developme.Prelude.Int.{◌+ℤ◌, ◌*ℤ◌, ◌-ℤ◌}
use ai_spec_driven_developme.Decimal.{
  quantize, div, fix, mul, rescaled, lt, abs, add, eq, sub, literal,
}
use ai_spec_driven_developme.Errors.{ok, err, domain_error, insufficient_funds_error}
use ai_spec_driven_developme.Models.{Transfer, FxRateSnapshot, CurrencyPair, completed}
use ai_spec_driven_developme.Config.{default_settings}
use ai_spec_driven_developme.Session.{current_balance, set_balance, transaction, Db, Session}
use ai_spec_driven_developme.Service.CrossCurrencyTransferService.{
  assign_destination_amount, move_balances, replay_or_initiate, initiate_block, aml_kyc_check,
  perform, notify, CrossCurrencyTransferResponse, initiate, get_status, to_response,
}
use ai_spec_driven_developme.Service.CrossCurrencyTransferService.Validation.{
  ensure_active_pair, validate, check_transfer_limits, load_accounts, CrossCurrencyTransferRequest,
}
use ai_spec_driven_developme.Service.CrossCurrencyTransferService.Settlement.{initiate-eq-err}
use ai_spec_driven_developme.Tests.Setup.{engine, config, tables, session, column}
use ai_spec_driven_developme.Service.CrossCurrencyTransferService.Recall.{
  as_replay, initiate-get_status, initiate-replay,
}
use ai_spec_driven_developme.Api.App.{new_session}

abbrev pub snapshot : FxRateSnapshot
snapshot = record {
  id = 7;
  provider_source = "treasury_feed";
  rates = config.rates;
  effective_at = 900;
  fetched_at = 900;
  is_stale = false;
}

abbrev pair : CurrencyPair
pair = record {
  id = 8;
  from_currency = "USD";
  to_currency = "EUR";
  is_active = true;
  created_at = 1;
}

abbrev pub fx_tables : Db
fx_tables = record tables { currency_pairs = pair ∷ []; snapshots = snapshot ∷ [] }

abbrev pub fx_session : Session
fx_session = record session { db = fx_tables }

-- Alice sends Bob 100.25 USD in EUR.
abbrev pub fx_request : CrossCurrencyTransferRequest
fx_request = record {
  source_account_number = "ACC-ALICE";
  destination_account_number = "ACC-BOB";
  source_amount = literal 10025 2;
  source_currency = "USD";
  destination_currency = "EUR";
  fx_snapshot_id = 7;
}

-- What Alice's request makes; Bob's account gets the gross amount less the fee.
abbrev pub exchanged : Transfer
exchanged = record {
  id = 100;
  idempotency_key = "key-2";
  source_account_number = "ACC-ALICE";
  destination_account_number = "ACC-BOB";
  source_amount = literal 1002500 4;
  source_currency = "USD";
  destination_amount = literal 919533 4;
  destination_currency = "EUR";
  exchange_rate = literal 92000000 8;
  status = completed;
  failure_reason = none;
  transfer_type = some "cross_currency";
  sending_fee = some (literal 5013 4);
  sending_fee_currency = some "USD";
  receiving_fee = some (literal 2767 4);
  receiving_fee_currency = some "EUR";
  fx_snapshot_id = some 7;
  rate_confirmed_at = some 1000;
  source_amount_usd = some (literal 1002500 4);
  caller_id = "alice";
  created_at = 1000;
}

abbrev pub response : CrossCurrencyTransferResponse
response = record { transfer = exchanged; gross_converted_amount = literal 922300 4 }

-- The session after it.
abbrev pub fx_after : Session
fx_after = (initiate engine default_settings fx_request "alice" "key-2" none fx_session).1

pub run_exchange :
    initiate engine default_settings fx_request "alice" "key-2" none fx_session
    ≡ (ok (response, false), fx_after)
unfolding initiate replay_or_initiate initiate_block validate perform move_balances
    check_transfer_limits load_accounts ensure_active_pair notify aml_kyc_check
    assign_destination_amount create_transfer_notifications deliver create_notification
    insert_notification get_latest_snapshot latest get_snapshot_by_id get_active_currency_pairs
    load_active get_by_account_number rows rate_of find_rate lookup any_of select
    get_idempotency_record transaction set_balance current_balance update_row column rescaled
    quantize to_quantum calculate_amounts amount_in_usd check_rate_deviation deviation abs eq div
    ◌*ℤ◌ ◌-ℤ◌ ◌+ℤ◌ mul sub add fix lt create_cross_currency_transfer add_transfer write_audit_log
    insert_transfer insert_audit store_transfer store_amounts store_fees check_transfer_texts
    update_transfer_status set_status audit_status with_status update_transfer get_transfer_by_id
    is_invalid_transition get_daily_transfer_volume_usd sum_usd
run_exchange = refl

-- Carol has 7 USD.
abbrev pub poor_request : CrossCurrencyTransferRequest
poor_request = record fx_request { source_account_number = "ACC-CAROL" }

run_poor_exchange :
    initiate engine default_settings poor_request "carol" "key-2" none fx_session
    ≡ (err (domain_error insufficient_funds_error none), fx_session)
unfolding initiate replay_or_initiate initiate_block validate perform move_balances
    check_transfer_limits load_accounts ensure_active_pair notify aml_kyc_check
    assign_destination_amount create_transfer_notifications deliver create_notification
    insert_notification get_latest_snapshot latest get_snapshot_by_id get_active_currency_pairs
    load_active get_by_account_number rows rate_of find_rate lookup any_of select
    get_idempotency_record transaction set_balance current_balance update_row column rescaled
    quantize to_quantum calculate_amounts amount_in_usd check_rate_deviation deviation abs eq div
    ◌*ℤ◌ ◌-ℤ◌ ◌+ℤ◌ mul sub add fix lt create_cross_currency_transfer add_transfer write_audit_log
    insert_transfer insert_audit store_transfer store_amounts store_fees check_transfer_texts
    update_transfer_status set_status audit_status with_status update_transfer get_transfer_by_id
    is_invalid_transition get_daily_transfer_volume_usd sum_usd
run_poor_exchange = refl

initiate-eq-err_example : fx_session.db ≡ fx_tables
initiate-eq-err_example =
    initiate-eq-err engine default_settings poor_request "carol" "key-2" none fx_session
      run_poor_exchange

-- A later session on the tables as the transfer left them.
abbrev fx_later : Session
fx_later = new_session fx_after.db 70

initiate-get_status_example :
    get_status 100 "alice" fx_later
    ≡ (to_response exchanged, record fx_later { in_transaction = true })
initiate-get_status_example =
    initiate-get_status engine default_settings fx_request "alice" "key-2" none fx_session
      run_exchange fx_later refl

-- Another request with the same key.
initiate-replay_example :
    initiate engine default_settings poor_request "alice" "key-2" none fx_later
    ≡ (as_replay (to_response exchanged), record fx_later { in_transaction = true })
initiate-replay_example =
    initiate-replay engine default_settings fx_request "alice" "key-2" none fx_session run_exchange
      fx_later refl poor_request default_settings none
