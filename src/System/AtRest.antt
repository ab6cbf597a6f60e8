-- ===== src/System/AtRest.antt =====
-- Between requests no transfer is in flight.
use ai_spec_driven_developme.System.Sides.{mark_read-Evolves, seed_currency_pairs-Evolves}
use ai_spec_driven_developme.Api.App.{App, Endpoint, new_session}
use ai_spec_driven_developme.Models.{Account, Transfer, completed}
use ai_spec_driven_developme.Prelude.{
  Bool, refl, List, Option, String, [], ap, arith, false, select, select-append, true, ℕ, ◌++◌, ◌∙◌,
  ◌∷◌, ◌≡◌,
}
use ai_spec_driven_developme.Security.{Claims}
use ai_spec_driven_developme.Service.AccountService.{CreateAccountRequest}
use ai_spec_driven_developme.Service.TransferService.{CreateTransferRequest, execute_transfer}
use ai_spec_driven_developme.Service.CrossCurrencyTransferService.{
  CrossCurrencyTransferResponse, initiate,
}
use ai_spec_driven_developme.Service.CrossCurrencyTransferService.Validation.{
  CrossCurrencyTransferRequest,
}
use ai_spec_driven_developme.Session.{Db, Engine, Session}
use ai_spec_driven_developme.Session.Evolves.{
  Evolves, Evolves-by_result, Preorder, Preserves, preserves,
}
use ai_spec_driven_developme.Config.{ExchangeRateConfig, Settings}
use ai_spec_driven_developme.Errors.{Result, err, ok}
use ai_spec_driven_developme.Service.AccountService.Creation.{
  create_account-Added, create_account-eq-err,
}
use ai_spec_driven_developme.Service.AccountService.Deletion.{
  delete_account-Deleted, delete_account-eq-err,
}
use ai_spec_driven_developme.Service.TransferService.Settlement.{
  execute_transfer-Outcome, execute_transfer-eq-err,
}
use ai_spec_driven_developme.Service.CrossCurrencyTransferService.Recall.{
  initiate-Initiated, initiate-same_db,
}
use ai_spec_driven_developme.Service.CrossCurrencyTransferService.Settlement.{initiate-eq-err}
use ai_spec_driven_developme.Api.Transfers.{is_in_flight, check_transfer_capacity}
use ai_spec_driven_developme.Service.TransferService.Inversion.{transfer_block-Transferred}
use ai_spec_driven_developme.System.Requests.{Operations}
use ai_spec_driven_developme.System.{at_time, Reach}
use ai_spec_driven_developme.Service.AccountService
use ai_spec_driven_developme.System.Requests

abbrev pub AtRest : List Transfer → Type 0
AtRest l = select is_in_flight l ≡ []

abbrev transfers_of : Db → List Transfer
transfers_of db = db.transfers

abbrev Resting : Db → Db → Type 0
Resting = Preserves (λ db. AtRest db.transfers)

abbrev resting : Preorder Resting
resting = preserves (λ db. AtRest db.transfers)

completed_added :
    (l : List Transfer) (r : Transfer) (after : List Transfer)
    → after ≡ l ++ r ∷ []
    → r.status ≡ completed
    → AtRest l
    → AtRest after
completed_added l r after h done at_rest =
    ap (select is_in_flight) h
    ∙ select-append is_in_flight l (r ∷ [])
    ∙ ap (λ k. k ++ select is_in_flight (r ∷ [])) at_rest
    ∙ last_done r done
  where
    last_done : (x : Transfer) → x.status ≡ completed → select is_in_flight (x ∷ []) ≡ []
    last_done x p = unfold select in ground arith

unwritten : (l after : List Transfer) → after ≡ l → AtRest l → AtRest after
unwritten l after same at_rest = ap (select is_in_flight) same ∙ at_rest

same_tables : (before after : Db) → after ≡ before → Resting before after
same_tables before after same =
    unwritten before.transfers after.transfers (ap (λ (db : Db). db.transfers) same)

module _ (e : Engine) where
  create_account-Evolves :
      (fx : ExchangeRateConfig) (request : CreateAccountRequest) (actor : String)
      (request_id : Option String)
      → Evolves Resting (AccountService.create_account e fx request actor request_id)
  create_account-Evolves fx request actor request_id =
      Evolves-by_result (AccountService.create_account e fx request actor request_id) known
    where
      known :
          (s t : Session) (r : Result Account)
          → AccountService.create_account e fx request actor request_id s ≡ (r, t)
          → Resting s.db t.db
      known s t (ok a) h =
          let (_, _, w) = create_account-Added e fx request actor request_id s h in
          unwritten s.db.transfers t.db.transfers w.transfers_after
      known s t (err x) h =
          same_tables s.db t.db (create_account-eq-err e fx request actor request_id s h)

  delete_account-Evolves :
      (number actor : String) (claims : Claims) (request_id : Option String)
      → Evolves Resting (AccountService.delete_account e number actor claims request_id)
  delete_account-Evolves number actor claims request_id =
      Evolves-by_result (AccountService.delete_account e number actor claims request_id) known
    where
      known :
          (s t : Session) (r : Result (Unit {0}))
          → AccountService.delete_account e number actor claims request_id s ≡ (r, t)
          → Resting s.db t.db
      known s t (ok x) h =
          let (w, _) = delete_account-Deleted e number actor request_id claims s h in
          unwritten s.db.transfers t.db.transfers w.transfers_after
      known s t (err x) h =
          same_tables s.db t.db (delete_account-eq-err e number actor request_id claims s h)

  execute_transfer-Evolves :
      (fx : ExchangeRateConfig) (request : CreateTransferRequest) (key caller_id : String)
      (request_id : Option String)
      → Evolves Resting (execute_transfer e fx request caller_id key request_id)
  execute_transfer-Evolves fx request key caller_id request_id =
      Evolves-by_result (execute_transfer e fx request caller_id key request_id) known
    where
      known :
          (s t : Session) (r : Result (Transfer × Bool))
          → execute_transfer e fx request caller_id key request_id s ≡ (r, t)
          → Resting s.db t.db
      known s t (ok (r, true)) h =
          same_tables s.db t.db
            (execute_transfer-Outcome e fx request caller_id key request_id s h).same_db
      known s t (ok (r, false)) h =
          let fresh = execute_transfer-Outcome e fx request caller_id key request_id s h in
          let w =
            transfer_block-Transferred e fx request caller_id key request_id fresh.start
              fresh.ran in
          completed_added s.db.transfers r t.db.transfers
            (ap (λ (db : Db). db.transfers) fresh.same_end
              ∙ w.paid.recorded
              ∙ ap (λ (db : Db). db.transfers ++ r ∷ []) fresh.same_start)
            w.paid.done
      known s t (err x) h =
          same_tables s.db t.db (execute_transfer-eq-err e fx request caller_id key request_id s h)

  initiate-Evolves :
      (settings : Settings) (request : CrossCurrencyTransferRequest) (key caller_id : String)
      (request_id : Option String)
      → Evolves Resting (initiate e settings request caller_id key request_id)
  initiate-Evolves settings request key caller_id request_id =
      Evolves-by_result (initiate e settings request caller_id key request_id) known
    where
      known :
          (s t : Session) (r : Result (CrossCurrencyTransferResponse × Bool))
          → initiate e settings request caller_id key request_id s ≡ (r, t)
          → Resting s.db t.db
      known s t (ok (r, true)) h =
          same_tables s.db t.db (initiate-same_db e settings request caller_id key request_id s h)
      known s t (ok (r, false)) h =
          let w = initiate-Initiated e settings request caller_id key request_id s h in
          completed_added s.db.transfers r.transfer t.db.transfers w.recorded.added w.recorded.done
      known s t (err x) h =
          same_tables s.db t.db (initiate-eq-err e settings request caller_id key request_id s h)

operations : (app : App) (allowed : Endpoint → Type 0) → Operations app allowed Resting
operations app allowed = record {
  order = resting;
  creates = λ request actor request_id permitted valid.
      create_account-Evolves app.engine app.exchange_rates request actor request_id;
  deletes = delete_account-Evolves app.engine;
  transfers = λ request key caller_id request_id permitted valid.
      execute_transfer-Evolves app.engine app.exchange_rates request key caller_id request_id;
  exchanges = λ request key caller_id request_id permitted.
      initiate-Evolves app.engine app.settings request key caller_id request_id;
  marks = λ i number.
      mark_read-Evolves transfers_of AtRest (λ db l. refl) (λ db l. refl) app.engine i number;
  seeds = seed_currency_pairs-Evolves transfers_of AtRest (λ db l. refl) (λ db l. refl) app.engine;
}

-- In every run of the service that begins with no transfer pending or processing, none is pending or
-- processing between the requests, whatever was requested and however it ended; so that the test
-- of the capacity, before a cross-currency transfer, always passes.
pub Reach-AtRest :
    {app : App} {allowed : Endpoint → Type 0} {before after : Db}
    → Reach app allowed before after
    → AtRest before.transfers
    → AtRest after.transfers
      × ((draws : ℕ)
          → check_transfer_capacity (new_session after draws)
            ≡ (ok tt, record (new_session after draws) { in_transaction = true }))
unfolding check_transfer_capacity
Reach-AtRest {app} {allowed} {before} {after} reach at_rest =
    let ends =
      Requests.run (λ utcnow db_now. operations (at_time app utcnow db_now) allowed) reach
        at_rest in
    (ends, λ draws. rw ends)
