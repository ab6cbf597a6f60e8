-- ===== src/Service/TransferService/Autobegin.antt =====
-- A session that has begun a transaction by itself: each query of an operation begins one, and the
-- operation's `begin()` comes after a query.
use ai_spec_driven_developme.Prelude.{
  String, ◌≡◌, sym, ap, Bool, true, false, not, Option, none, some, arith, str_eq,
}
use ai_spec_driven_developme.Decimal.{le, zero_decimal}
use ai_spec_driven_developme.Errors.{ok}
use ai_spec_driven_developme.Models.{Transfer}
use ai_spec_driven_developme.Config.{ExchangeRateConfig}
use ai_spec_driven_developme.Session.{Engine, Session, Action, raise_when, transaction}
use ai_spec_driven_developme.Session.Laws.{after_bind, ok-injective}
use ai_spec_driven_developme.Repository.TransferRepository.{get_idempotency_record}
use ai_spec_driven_developme.Service.TransferService.{
  CreateTransferRequest, transfer_block, replay_or_run, execute_transfer,
}

module _ (e : Engine) (refused : e.begins true ≡ false) where
  -- No body runs.
  pub transaction_refused :
      {A : Type 0} (body : Action A) (s : Session) {a : A} {t : Session}
      → s.in_transaction ≡ true
      → transaction e body s ≡ (ok a, t)
      → {P : Type 0} → P
  unfolding transaction
  transaction_refused body s open_already h =
      absurd (ground (arith, rw (open_already, refused) at h))

  module _ (fx : ExchangeRateConfig) (request : CreateTransferRequest) (caller_id key : String)
      (request_id : Option String) where
    run_refused :
        (found : Option Transfer) (s : Session) {r : Transfer} {flag : Bool} {t : Session}
        → s.in_transaction ≡ true
        → replay_or_run e fx request caller_id key request_id found s ≡ (ok (r, flag), t)
        → flag ≡ true
    unfolding replay_or_run
    run_refused (some transfer) s open_already h =
        after_bind _ (raise_when (not (str_eq transfer.caller_id caller_id)) _ s) h
          λ _ s1 p1 h1. ap (λ p. p.1) (sym (ok-injective (transfer, true) (_, _) s1 _ h1).0)
    run_refused none s open_already h =
        after_bind _ (transaction e (transfer_block e fx request caller_id key request_id) s) h
          λ made s1 p1 h1.
            transaction_refused (transfer_block e fx request caller_id key request_id) s
              open_already p1

    -- With an engine that refuses `begin()` once a query has begun a transaction, as the session of
    -- SQLAlchemy 2 does, a call that returns is a replay: no new transfer is ever made.
    pub execute_transfer-autobegin :
        (s : Session) {r : Transfer} {flag : Bool} {t : Session}
        → execute_transfer e fx request caller_id key request_id s ≡ (ok (r, flag), t)
        → flag ≡ true
    unfolding execute_transfer get_idempotency_record
    execute_transfer-autobegin s h =
        after_bind _ (raise_when (le request.amount zero_decimal) _ s) h λ _ s1 p1 h1.
          after_bind _ (get_idempotency_record key s1) h1
            λ found s2 p2 h2. run_refused found s2 (sym (ap (λ p. p.1.in_transaction) p2)) h2
