-- ===== src/Tests/Requests.antt =====
-- Requests for a transfer when the service is full and when one was made before.
use ai_spec_driven_developme.Prelude.{◌≡◌, refl, true, not, none, [], ◌∷◌, str_eq, select}
use ai_spec_driven_developme.Prelude.Int.{◌*ℤ◌}
use ai_spec_driven_developme.Decimal.{le, fix, mul, quantize}
use ai_spec_driven_developme.Errors.{ok}
use ai_spec_driven_developme.Config.{default_settings}
use ai_spec_driven_developme.Session.{Engine, Session}
use ai_spec_driven_developme.Tests.Transfers.{request, new_transfer, paid_bob}
use ai_spec_driven_developme.Repository.TransferRepository.{
  get_idempotency_record, get_transfer_by_id, has_id,
}
use ai_spec_driven_developme.Service.CrossCurrencyTransferService.{
  replay_or_initiate, to_response, own_transfer_or_raise, get_status, initiate,
}
use ai_spec_driven_developme.Service.CrossCurrencyTransferService.Status.{get_status-own}
use ai_spec_driven_developme.Service.CrossCurrencyTransferService.Computation.{to_quantum}
use ai_spec_driven_developme.Service.CrossCurrencyTransferService.AuditColumn.{
  initiate-audit_column,
}
use ai_spec_driven_developme.Service.TransferService.{replay_or_run, execute_transfer}
use ai_spec_driven_developme.Service.TransferService.Autobegin.{execute_transfer-autobegin}
use ai_spec_driven_developme.Tests.Setup.{engine, config, tables, session}
use ai_spec_driven_developme.Tests.CrossCurrency.{exchanged, response, fx_request}

abbrev stored_session : Session
stored_session = record session { db = record tables { transfers = exchanged ∷ [] } }

run_status :
    get_status 100 "alice" stored_session
    ≡ (ok response, record stored_session { in_transaction = true })
unfolding get_status get_transfer_by_id select own_transfer_or_raise to_response to_quantum quantize
    mul fix ◌*ℤ◌
run_status = refl

get_status-own_example :
    (select (has_id 100) stored_session.db.transfers ≡ exchanged ∷ [])
    × (exchanged.caller_id ≡ "alice")
    × (stored_session.db ≡ stored_session.db)
get_status-own_example = get_status-own 100 "alice" stored_session run_status

-- A session that begins its transaction itself, and a text column of 30 characters.
abbrev strict_engine : Engine
strict_engine = record engine {
  begins = not;
  fits = λ n text. not (str_eq text "cross_currency_transfer_initiated");
}

run_replay :
    execute_transfer strict_engine config request "alice" "key-1" none paid_bob
    ≡ (ok (new_transfer, true), record paid_bob { in_transaction = true })
unfolding execute_transfer le get_idempotency_record select replay_or_run
run_replay = refl

execute_transfer-autobegin_example : true ≡ true
execute_transfer-autobegin_example =
    execute_transfer-autobegin strict_engine refl config request "alice" "key-1" none paid_bob
      run_replay

run_replay_exchange :
    initiate strict_engine default_settings fx_request "alice" "key-2" none stored_session
    ≡ (ok (response, true), record stored_session { in_transaction = true })
unfolding initiate get_idempotency_record select replay_or_initiate to_response to_quantum quantize
    mul fix ◌*ℤ◌
run_replay_exchange = refl

initiate-audit_column_example : true ≡ true
initiate-audit_column_example =
    initiate-audit_column strict_engine refl default_settings fx_request "alice" "key-2" none
      stored_session run_replay_exchange
