-- ===== src/Tests/Replays.antt =====
-- Requests repeated after a restart of the service and a further request.
use ai_spec_driven_developme.Prelude.{none, true, ◌≡◌}
use ai_spec_driven_developme.Errors.{ok}
use ai_spec_driven_developme.Models.{Transfer}
use ai_spec_driven_developme.Config.{default_settings}
use ai_spec_driven_developme.Session.{Db}
use ai_spec_driven_developme.Service.TransferService.{execute_transfer}
use ai_spec_driven_developme.Service.CrossCurrencyTransferService.{initiate, to_response}
use ai_spec_driven_developme.Service.CrossCurrencyTransferService.Recall.{as_replay}
use ai_spec_driven_developme.Api.App.{handle, new_session}
use ai_spec_driven_developme.Api.Startup.{seed_currency_pairs}
use ai_spec_driven_developme.System.{Reach, at_time, start, later, starts, serves}
use ai_spec_driven_developme.System.Grown.{lasting_transfer}
use ai_spec_driven_developme.System.Replays.{execute_transfer-replay_later, initiate-replay_later}
use ai_spec_driven_developme.Tests.Setup.{engine, config, session}
use ai_spec_driven_developme.Tests.Transfers.{
  request, to_carol, new_transfer, paid_bob, run_bob, positive,
}
use ai_spec_driven_developme.Tests.CrossCurrency.{
  fx_request, poor_request, response, fx_session, fx_after, run_exchange,
}
use ai_spec_driven_developme.Tests.System.{app, overpay, AnyEndpoint}

abbrev restarted : Db → Db
restarted db =
    (handle app overpay (new_session (seed_currency_pairs engine (new_session db 0)).1.db 9)).1.db

run_on : (db : Db) → Reach app AnyEndpoint db (restarted db)
run_on db = later (later start (starts 0 1000 1000)) (serves overpay 9 1000 1000 tt)

execute_transfer-replay_later_example :
    (r' : Transfer) × (execute_transfer
        (at_time app 2000 2000).engine
        config
        to_carol
        "alice"
        "key-1"
        none
        (new_session (restarted paid_bob.db) 20)
      ≡ (ok (r', true), record (new_session (restarted paid_bob.db) 20) { in_transaction = true }))
    × (lasting_transfer r' ≡ lasting_transfer new_transfer)
execute_transfer-replay_later_example =
    execute_transfer-replay_later "alice" "key-1" none none session (run_on paid_bob.db) 20 2000
      2000 request to_carol run_bob positive

initiate-replay_later_example :
    (r' : Transfer) × (initiate
        (at_time app 2000 2000).engine
        default_settings
        poor_request
        "alice"
        "key-2"
        none
        (new_session (restarted fx_after.db) 20)
      ≡ (
        as_replay (to_response r'),
        record (new_session (restarted fx_after.db) 20) { in_transaction = true },
      ))
    × (lasting_transfer r' ≡ lasting_transfer response.transfer)
initiate-replay_later_example =
    initiate-replay_later "alice" "key-2" none none fx_session (run_on fx_after.db) 20 2000 2000
      fx_request poor_request run_exchange
