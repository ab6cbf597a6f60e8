-- ===== src/Tests/Transfers.antt =====
-- Transfers by the configured rates.
use ai_spec_driven_developme.Service.TransferService.Success.{Acceptable, execute_transfer-Returns}
use ai_spec_driven_developme.Prelude.Int.{◌*ℤ◌, ◌-ℤ◌, ◌+ℤ◌}
use ai_spec_driven_developme.Repository.Insert.{
  insert_audit, store_transfer, insert_transfer, check_transfer_texts, store_amounts, store_fees,
}
use ai_spec_driven_developme.Repository.TransferRepository.{
  get_idempotency_record, get_idempotency_record, get_idempotency_record, get_idempotency_record,
  get_idempotency_record, get_idempotency_record, get_idempotency_record, get_idempotency_record,
  create_transfer, write_audit_log, add_transfer, get_idempotency_record,
}
use ai_spec_driven_developme.Service.ExchangeRateService.{
  find_rate, validate_currency, get_max_transfer_amount, get_rate,
}
use ai_spec_driven_developme.Repository.AccountRepository.{get_by_account_number}
use ai_spec_driven_developme.Prelude.{
  ◌⊎◌, ◌≤◌, String, ◌≡◌, ◌≢◌, refl, true, false, none, some, List, [], ◌∷◌, eq_iff, arith, select,
  any_of, lookup,
}
use ai_spec_driven_developme.Decimal.{
  literal, zero_decimal, add, sub, mul, lt, le, fix, quantize, rescaled,
}
use ai_spec_driven_developme.Errors.{
  ok, err, domain_error, other_error, invalid_request_error, insufficient_funds_error,
  idempotency_conflict_error,
}
use ai_spec_driven_developme.Models.{Account, Transfer, completed, transfer_completed}
use ai_spec_driven_developme.Session.{Session, transaction, set_balance, current_balance}
use ai_spec_driven_developme.Session.Rows.{rows, update_row, with_balance}
use ai_spec_driven_developme.Session.Rows.Laws.{total}
use ai_spec_driven_developme.Service.TransferService.{
  validate_not_self_transfer, move_money, converted, load_active, transfer_block, replay_or_run,
  CreateTransferRequest, execute_transfer,
}
use ai_spec_driven_developme.Service.TransferService.Settlement.{
  Fresh, execute_transfer-eq-err, execute_transfer-Outcome,
}
use ai_spec_driven_developme.Service.TransferService.Ledger.{
  Settled, execute_transfer-Settled, execute_transfer-total,
}
use ai_spec_driven_developme.Service.TransferService.Replay.{
  execute_transfer-replay, execute_transfer-conflict,
}
use ai_spec_driven_developme.Tests.Setup.{
  engine, engine-NumericColumns, config, config-NonnegRates, tables, tables-AllSound, session,
  alice, bob, carol, column,
}

-- Alice sends Bob 100.25 USD.
abbrev pub request : CreateTransferRequest
request = record {
  source_account_number = "ACC-ALICE";
  destination_account_number = "ACC-BOB";
  amount = literal 10025 2;
}

-- Alice sends Carol 100.25 USD.
abbrev pub to_carol : CreateTransferRequest
to_carol = record request { destination_account_number = "ACC-CAROL" }

-- Carol has 7 USD.
abbrev from_carol : CreateTransferRequest
from_carol = record request { source_account_number = "ACC-CAROL" }

abbrev pub new_transfer : Transfer
new_transfer = record {
  id = 100;
  idempotency_key = "key-1";
  source_account_number = "ACC-ALICE";
  destination_account_number = "ACC-BOB";
  source_amount = literal 1002500 4;
  source_currency = "USD";
  destination_amount = literal 922300 4;
  destination_currency = "EUR";
  exchange_rate = literal 92000000 8;
  status = completed;
  failure_reason = none;
  transfer_type = none;
  sending_fee = none;
  sending_fee_currency = none;
  receiving_fee = none;
  receiving_fee_currency = none;
  fx_snapshot_id = none;
  rate_confirmed_at = none;
  source_amount_usd = none;
  caller_id = "alice";
  created_at = 1000;
}

abbrev to_carol_transfer : Transfer
to_carol_transfer = record new_transfer {
  destination_account_number = "ACC-CAROL";
  destination_amount = literal 1002500 4;
  destination_currency = "USD";
  exchange_rate = literal 100000000 8;
}

-- The tables after a transfer by Alice.
abbrev pub after : Transfer → List Account → Session
after t accounts = record {
  db = record tables {
    accounts = accounts;
    transfers = t ∷ [];
    audit_log =
        record {
          id = 101;
          operation_type = transfer_completed;
          actor_identity = "alice";
          affected_account_numbers = "ACC-ALICE" ∷ t.destination_account_number ∷ [];
          amount = some (literal 1002500 4);
          currency = some "USD";
          outcome = "success";
          timestamp = 1000;
          request_id = none;
        }
        ∷ [];
  };
  in_transaction = false;
  draws = 2;
}

abbrev pub paid_bob : Session
paid_bob =
    after new_transfer
      (with_balance (literal 3997500 4) alice ∷ with_balance (literal 1022300 4) bob ∷ carol ∷ [])

abbrev paid_carol : Session
paid_carol =
    after to_carol_transfer
      (with_balance (literal 3997500 4) alice ∷ bob ∷ with_balance (literal 1072500 4) carol ∷ [])

pub run_bob :
    execute_transfer engine config request "alice" "key-1" none session
    ≡ (ok (new_transfer, false), paid_bob)
unfolding execute_transfer replay_or_run transfer_block load_active converted move_money
    get_by_account_number rows get_rate get_max_transfer_amount validate_currency find_rate lookup
    any_of select get_idempotency_record transaction set_balance current_balance update_row column
    rescaled quantize ◌*ℤ◌ ◌-ℤ◌ ◌+ℤ◌ mul sub add fix lt le create_transfer add_transfer
    write_audit_log insert_transfer insert_audit store_transfer store_amounts store_fees
    check_transfer_texts
run_bob = refl

run_carol :
    execute_transfer engine config to_carol "alice" "key-1" none session
    ≡ (ok (to_carol_transfer, false), paid_carol)
unfolding execute_transfer replay_or_run transfer_block load_active converted move_money
    get_by_account_number rows get_rate get_max_transfer_amount validate_currency find_rate lookup
    any_of select get_idempotency_record transaction set_balance current_balance update_row column
    rescaled quantize ◌*ℤ◌ ◌-ℤ◌ ◌+ℤ◌ mul sub add fix lt le create_transfer add_transfer
    write_audit_log insert_transfer insert_audit store_transfer store_amounts store_fees
    check_transfer_texts
run_carol = refl

run_poor :
    execute_transfer engine config from_carol "carol" "key-1" none session
    ≡ (err (domain_error insufficient_funds_error none), session)
unfolding execute_transfer replay_or_run transfer_block load_active converted move_money
    get_by_account_number rows get_rate get_max_transfer_amount validate_currency find_rate lookup
    any_of select get_idempotency_record transaction set_balance current_balance update_row column
    rescaled quantize ◌*ℤ◌ ◌-ℤ◌ ◌+ℤ◌ mul sub add fix lt le create_transfer add_transfer
    write_audit_log insert_transfer insert_audit store_transfer store_amounts store_fees
    check_transfer_texts
run_poor = refl

small : 2 ≤ 4
small = ground arith

valid_request : validate_not_self_transfer request ≡ ok request
unfolding validate_not_self_transfer le lt
valid_request = refl

valid_to_carol : validate_not_self_transfer to_carol ≡ ok to_carol
unfolding validate_not_self_transfer le lt
valid_to_carol = refl

pub positive : le (literal 10025 2) zero_decimal ≡ false
unfolding le lt
positive = refl

differs : ◌≢◌ {A = String} "bob" "alice"
differs h = ground (arith, (eq_iff "bob" "alice").1 h)

execute_transfer-eq-err_example : session.db ≡ tables
execute_transfer-eq-err_example =
    execute_transfer-eq-err engine config from_carol "carol" "key-1" none session run_poor

execute_transfer-Outcome_example :
    Fresh engine config request "alice" "key-1" none session new_transfer paid_bob
execute_transfer-Outcome_example =
    execute_transfer-Outcome engine config request "alice" "key-1" none session run_bob

execute_transfer-Settled_example : Settled config request tables new_transfer paid_bob.db
execute_transfer-Settled_example =
    execute_transfer-Settled engine engine-NumericColumns config config-NonnegRates request "alice"
      "key-1" none session valid_request small tables-AllSound run_bob

execute_transfer-total_example : total "USD" paid_carol.db.accounts ≡ total "USD" tables.accounts
unfolding rows select
execute_transfer-total_example =
    execute_transfer-total engine engine-NumericColumns config config-NonnegRates to_carol "alice"
      "key-1" none session alice carol refl refl refl valid_to_carol small tables-AllSound run_carol
      "USD"

execute_transfer-replay_example :
    execute_transfer engine config to_carol "alice" "key-1" none paid_bob
    ≡ (ok (new_transfer, true), record paid_bob { in_transaction = true })
execute_transfer-replay_example =
    execute_transfer-replay engine config request "alice" "key-1" none session run_bob to_carol none
      paid_bob refl positive

execute_transfer-conflict_example :
    execute_transfer engine config to_carol "bob" "key-1" none paid_bob ≡ (
      err (domain_error idempotency_conflict_error none),
      record paid_bob { in_transaction = true },
    )
execute_transfer-conflict_example =
    execute_transfer-conflict engine config request "alice" "key-1" none session run_bob to_carol
      none paid_bob refl positive "bob" differs

acceptable : Acceptable engine config request "key-1" tables
unfolding rows select ◌+ℤ◌ get_max_transfer_amount get_rate validate_currency find_rate lookup
    any_of converted quantize rescaled mul fix ◌*ℤ◌ column lt
acceptable = record {
  source = alice;
  dest = bob;
  source_found = refl;
  dest_found = refl;
  source_active = refl;
  dest_active = refl;
  source_sound = tables-AllSound.0;
  dest_sound = tables-AllSound.1.0;
  valid = valid_request;
  small = small;
  max_amount = literal 10000 0;
  limit = refl;
  within_limit = refl;
  covered = refl;
  rate = literal 92 2;
  rated = refl;
  amount = literal 922300 4;
  conversion = refl;
  amount_stored = literal 1002500 4;
  amount_taken = refl;
  rate_stored = literal 92000000 8;
  rate_taken = refl;
  key_fits = refl;
  source_number_fits = refl;
  dest_number_fits = refl;
  source_currency_fits = refl;
  dest_currency_fits = refl;
  operation_fits = refl;
  outcome_fits = refl;
  room = ground arith;
  amount_fits = ground arith;
}

execute_transfer-Returns_example :
    ((true ≡ true)
      × (r : Transfer) × (t : Session) × (execute_transfer engine config request "alice" "key-1"
            none session
          ≡ (ok (r, false), t)))
    ⊎ ((true ≡ false)
        × (execute_transfer engine config request "alice" "key-1" none session
            ≡ (err (other_error invalid_request_error), record session { in_transaction = true })))
unfolding select any_of
execute_transfer-Returns_example =
    execute_transfer-Returns engine engine-NumericColumns config request "alice" "key-1" none
      session refl refl refl acceptable
