-- ===== src/Service/CrossCurrencyTransferService/AuditColumn.antt =====
-- The name of the operation that a cross-currency transfer writes to the audit log.
use ai_spec_driven_developme.Prelude.{
  ◌+◌, String, ◌≡◌, sym, ap, Bool, true, false, not, Option, none, some, arith, str_eq,
}
use ai_spec_driven_developme.Errors.{Error, Result, ok, err, other_error, data_error}
use ai_spec_driven_developme.Models.{
  AuditLogEntry, Transfer, OperationType, operation_type_value, cross_currency_transfer_initiated,
}
use ai_spec_driven_developme.Decimal.{Decimal}
use ai_spec_driven_developme.Prelude.{List}
use ai_spec_driven_developme.Config.{Settings}
use ai_spec_driven_developme.Session.{Engine, Db, Session, modify, raise_when, lift, transaction}
use ai_spec_driven_developme.Session.Laws.{after_bind, ok-injective, transaction-eq-ok}
use ai_spec_driven_developme.Repository.Insert.{insert_audit}
use ai_spec_driven_developme.Repository.TransferRepository.{
  CrossCurrencyArguments, cross_currency_row, add_transfer, write_audit_log,
  create_cross_currency_transfer, get_idempotency_record,
}
use ai_spec_driven_developme.Service.CrossCurrencyTransferService.{
  CrossCurrencyTransferResponse, perform, initiate_block, to_response, replay_or_initiate, initiate,
}
use ai_spec_driven_developme.Service.CrossCurrencyTransferService.Validation.{
  CrossCurrencyTransferRequest, validate,
}

-- A text column that refuses the operation's name refuses the audit row.
insert_audit_refused :
    (e : Engine) (entry : AuditLogEntry) (db : Db)
    → e.fits 30 (operation_type_value entry.operation_type) ≡ false
    → insert_audit e entry db ≡ err (other_error data_error)
unfolding insert_audit
insert_audit_refused e entry db long = ground arith

modify_refused :
    (f : Db → Result Db) (s : Session) (y : Error) {x : Unit {0}} {t : Session}
    → f s.db ≡ err y
    → modify f s ≡ (ok x, t)
    → {P : Type 0} → P
modify_refused f s y p h = absurd (ground (arith, rw (modify, p) at h))

write_audit_log_refused :
    (e : Engine) (operation_type : OperationType)
    → e.fits 30 (operation_type_value operation_type) ≡ false
    → (actor : String) (affected : List String) (amount : Option Decimal) (currency : Option String)
      (outcome : String) (request_id : Option String) (s : Session) {x : Unit {0}} {t : Session}
    → write_audit_log e operation_type actor affected amount currency outcome request_id s
      ≡ (ok x, t)
    → {P : Type 0} → P
unfolding write_audit_log
write_audit_log_refused e operation_type long actor affected amount currency outcome request_id s
      h =
    let entry : AuditLogEntry = record {
      id = e.uuid4 s.draws;
      operation_type = operation_type;
      actor_identity = actor;
      affected_account_numbers = affected;
      amount = amount;
      currency = currency;
      outcome = outcome;
      timestamp = e.db_now;
      request_id = request_id;
    } in
    modify_refused (insert_audit e entry) (record s { draws = s.draws + 1 })
      (other_error data_error) (insert_audit_refused e entry s.db long) h

module _ (e : Engine) (long : e.fits 30 "cross_currency_transfer_initiated" ≡ false) where
  create_refused :
      (a : CrossCurrencyArguments) (s : Session) {r : Transfer} {t : Session}
      → create_cross_currency_transfer e a s ≡ (ok r, t)
      → {P : Type 0} → P
  unfolding create_cross_currency_transfer
  create_refused a s h =
      after_bind _
        (add_transfer e (cross_currency_row e (e.uuid4 s.draws) a)
          (record s { draws = s.draws + 1 }))
        h
        λ row s2 p2 h2.
          after_bind _ (write_audit_log e cross_currency_transfer_initiated _ _ _ _ _ _ s2) h2
            λ _ s3 p3 h3.
              write_audit_log_refused e cross_currency_transfer_initiated long _ _ _ _ _ _ s2 p3

  module _ (settings : Settings) (request : CrossCurrencyTransferRequest) (caller_id key : String)
      (request_id : Option String) where
    block_refused :
        (s : Session) {r : CrossCurrencyTransferResponse} {t : Session}
        → initiate_block e settings request caller_id key request_id s ≡ (ok r, t)
        → {P : Type 0} → P
    unfolding initiate_block perform
    block_refused s h = after_bind _ (validate e settings request caller_id s) h λ plan s1 p1 h1.
        after_bind _ (perform e settings request caller_id key request_id plan s1) h1
          λ row s2 p2 h2.
            after_bind _ (create_cross_currency_transfer e _ s1) p2
              λ row' s3 p3 h3. create_refused _ s1 p3

    run_refused :
        (found : Option Transfer) (s : Session) {r : CrossCurrencyTransferResponse} {flag : Bool}
        {t : Session}
        → replay_or_initiate e settings request caller_id key request_id found s ≡ (ok (r, flag), t)
        → flag ≡ true
    unfolding replay_or_initiate
    run_refused (some transfer) s h =
        after_bind _ (raise_when (not (str_eq transfer.caller_id caller_id)) _ s) h λ _ s1 p1 h1.
          after_bind _ (lift (to_response transfer) s1) h1 λ response s2 p2 h2.
            ap (λ p. p.1) (sym (ok-injective (response, true) (_, _) s2 _ h2).0)
    run_refused none s h =
        after_bind _ (transaction e (initiate_block e settings request caller_id key request_id) s)
          h
          λ made s1 p1 h1.
            let (u, ran, kept) =
              transaction-eq-ok e (initiate_block e settings request caller_id key request_id) s
                p1 in
            block_refused (record s { in_transaction = true }) ran

    -- With a database that refuses the 33 characters of `cross_currency_transfer_initiated` in the
    -- String(30) column of the operation type, as PostgreSQL does, a cross-currency transfer that returns
    -- is a replay: no new one is ever made.
    pub initiate-audit_column :
        (s : Session) {r : CrossCurrencyTransferResponse} {flag : Bool} {t : Session}
        → initiate e settings request caller_id key request_id s ≡ (ok (r, flag), t)
        → flag ≡ true
    unfolding initiate
    initiate-audit_column s h =
        after_bind _ (get_idempotency_record key s) h λ found s1 p1 h1. run_refused found s1 h1
