-- ===== src/Service/TransferService/Replay.antt =====
-- The idempotency key: what a second request with a used key does.
use ai_spec_driven_developme.Prelude.{
  String, ◌≡◌, ◌≢◌, sym, subst, ◌∙◌, ap, true, false, Option, none, List, [], ◌∷◌, ◌++◌, arith,
  str_eq, eq_iff, select, select-append,
}
use ai_spec_driven_developme.Decimal.{le, zero_decimal}
use ai_spec_driven_developme.Errors.{ok, err, domain_error, idempotency_conflict_error}
use ai_spec_driven_developme.Models.{Transfer}
use ai_spec_driven_developme.Config.{ExchangeRateConfig}
use ai_spec_driven_developme.Session.{Engine, Db, Session}
use ai_spec_driven_developme.Repository.Insert.{has_key}
use ai_spec_driven_developme.Repository.TransferRepository.{get_idempotency_record}
use ai_spec_driven_developme.Service.TransferService.{
  CreateTransferRequest, replay_or_run, execute_transfer,
}
use ai_spec_driven_developme.Service.TransferService.Inversion.{transfer_block-Transferred}
use ai_spec_driven_developme.Service.TransferService.Settlement.{execute_transfer-Outcome}

pub has_key_only :
    (key : String) (l : List Transfer) (r : Transfer)
    → select (has_key key) l ≡ []
    → r.idempotency_key ≡ key
    → select (has_key key) (l ++ r ∷ []) ≡ r ∷ []
has_key_only key l r none_before keyed =
    rw (select-append (has_key key) l (r ∷ []), none_before) (one_row r keyed)
  where
    one_row : (x : Transfer) → x.idempotency_key ≡ key → select (has_key key) (x ∷ []) ≡ x ∷ []
    one_row x p = unfold select in ground (arith, eq_iff x.idempotency_key key)

module _ (e : Engine) (fx : ExchangeRateConfig) (request : CreateTransferRequest)
    (caller_id key : String) (request_id : Option String) (s : Session) {r : Transfer} {t : Session}
    (done : execute_transfer e fx request caller_id key request_id s ≡ (ok (r, false), t)) where
  -- After a new transfer its key has one row, which names the caller.
  pub stored_once : (select (has_key key) t.db.transfers ≡ r ∷ []) × (r.caller_id ≡ caller_id)
  stored_once =
      let fresh = execute_transfer-Outcome e fx request caller_id key request_id s done in
      let w =
        transfer_block-Transferred e fx request caller_id key request_id fresh.start fresh.ran in
      let unused =
        subst (λ (db : Db). select (has_key key) db.transfers ≡ []) (sym fresh.same_start)
          fresh.unused in
      let appended = ap (λ (db : Db). db.transfers) fresh.same_end ∙ w.paid.recorded in
      (
        ap (select (has_key key)) appended
            ∙ has_key_only key fresh.start.db.transfers r unused w.paid.keyed,
        w.paid.called,
      )

  module _ (again : CreateTransferRequest) (request_id' : Option String) (s' : Session)
      (same : s'.db ≡ t.db) (positive : le again.amount zero_decimal ≡ false) where
    found_again : select (has_key key) s'.db.transfers ≡ r ∷ []
    found_again = ap (λ (db : Db). select (has_key key) db.transfers) same ∙ stored_once.0

    -- On the tables as a new transfer left them, a request with its key and its caller, whatever
    -- positive amount and accounts it names, returns that transfer as a replay and changes no
    -- table.
    pub execute_transfer-replay :
        execute_transfer e fx again caller_id key request_id' s'
        ≡ (ok (r, true), record s' { in_transaction = true })
    unfolding execute_transfer get_idempotency_record replay_or_run
    execute_transfer-replay =
        rw (positive, found_again, (eq_iff r.caller_id caller_id).1 stored_once.1)

    -- On the tables as a new transfer left them, a request of a positive amount with its key and
    -- another caller raises IdempotencyConflictError and changes no table.
    pub execute_transfer-conflict :
        (other : String)
        → other ≢ caller_id
        → execute_transfer e fx again other key request_id' s' ≡ (
          err (domain_error idempotency_conflict_error none),
          record s' { in_transaction = true },
        )
    unfolding execute_transfer get_idempotency_record replay_or_run
    execute_transfer-conflict other differs = rw (positive, found_again, other_caller other differs)
      where
        other_caller : (x : String) → x ≢ caller_id → str_eq r.caller_id x ≡ false
        other_caller x d = ground (arith, eq_iff r.caller_id x, stored_once.1)
