-- ===== src/Service/TransferService/Settlement.antt =====
-- `execute_transfer` as its callers see it: a new transfer, a replay, or an error.
use ai_spec_driven_developme.Prelude.{
  String, ◌≡◌, sym, subst, ◌∙◌, ap, Bool, true, false, not, Option, none, some, [], ◌∷◌, arith,
  str_eq, eq_iff, select,
}
use ai_spec_driven_developme.Decimal.{le, zero_decimal}
use ai_spec_driven_developme.Errors.{Error, ok, err, domain_error, validation_error}
use ai_spec_driven_developme.Models.{Transfer}
use ai_spec_driven_developme.Config.{ExchangeRateConfig}
use ai_spec_driven_developme.Session.{Engine, Session, raise_when, transaction}
use ai_spec_driven_developme.Session.Laws.{
  after_bind, after_error, second, ok-injective, raise_when-eq-ok, transaction-eq-ok,
  transaction-eq-err,
}
use ai_spec_driven_developme.Session.Rows.{scalar_one_or_none}
use ai_spec_driven_developme.Repository.Insert.{has_key}
use ai_spec_driven_developme.Repository.TransferRepository.{get_idempotency_record}
use ai_spec_driven_developme.Service.TransferService.{
  CreateTransferRequest, transfer_block, replay_or_run, execute_transfer,
}
use ai_spec_driven_developme.Repository.TransferRepository.Transitions.{none_found, one_found}

module _ (e : Engine) (fx : ExchangeRateConfig) (request : CreateTransferRequest)
    (caller_id key : String) (request_id : Option String) where
  replay_or_run-eq-err :
      (found : Option Transfer) (s : Session) {x : Error} {t : Session}
      → replay_or_run e fx request caller_id key request_id found s ≡ (err x, t)
      → t.db ≡ s.db
  unfolding replay_or_run
  replay_or_run-eq-err (some transfer) s h = ground arith
  replay_or_run-eq-err none s h =
      after_error _ (transaction e (transfer_block e fx request caller_id key request_id) s) h
        (λ p. transaction-eq-err e (transfer_block e fx request caller_id key request_id) s p)
        (λ r u p q. absurd (ground arith))

  -- A request that raises, at any test or write, leaves every table as it was.
  pub execute_transfer-eq-err :
      (s : Session) {x : Error} {t : Session}
      → execute_transfer e fx request caller_id key request_id s ≡ (err x, t)
      → t.db ≡ s.db
  unfolding execute_transfer get_idempotency_record
  execute_transfer-eq-err s h =
      after_error _ (raise_when (le request.amount zero_decimal) _ s) h
        (λ p. ap (λ u. u.db) (sym (second p)))
        (λ _ s1 p1 h1.
          after_error _ (get_idempotency_record key s1) h1
            (λ p. ap (λ u. u.db) (sym (second p)) ∙ same_db s1 p1)
            (λ found s2 p2 h2.
              replay_or_run-eq-err found s2 h2 ∙ ap (λ u. u.db) (sym (second p2)) ∙ same_db s1 p1))
    where
      same_db :
          (u : Session) {x' : Unit {0}}
          → raise_when (le request.amount zero_decimal) (domain_error validation_error none) s
            ≡ (ok x', u)
          → u.db ≡ s.db
      same_db u p = ap (λ v. v.db) (sym (second p))

  -- A call that returned a new transfer: the key was unused, and the block ran on the same tables.
  pub record Fresh (s : Session) (r : Transfer) (t : Session) : Type 0 where
    pub positive : le request.amount zero_decimal ≡ false
    pub unused : select (has_key key) s.db.transfers ≡ []
    pub start : Session
    pub end : Session
    pub same_start : start.db ≡ s.db
    pub ran : transfer_block e fx request caller_id key request_id start ≡ (ok r, end)
    pub same_end : t.db ≡ end.db

  -- A call that returned an earlier transfer: it has the key and the caller, and nothing changed.
  pub record Replayed (s : Session) (r : Transfer) (t : Session) : Type 0 where
    pub found : select (has_key key) s.db.transfers ≡ r ∷ []
    pub same_caller : r.caller_id ≡ caller_id
    pub same_db : t.db ≡ s.db

  abbrev Outcome : Session → Transfer → Bool → Session → Type 0
  Outcome s r true t = Replayed s r t
  Outcome s r false t = Fresh s r t

  replay_or_run-Outcome :
      (found : Option Transfer) (s s' : Session)
      → le request.amount zero_decimal ≡ false
      → scalar_one_or_none (select (has_key key) s.db.transfers) ≡ ok found
      → s'.db ≡ s.db
      → {r : Transfer} {flag : Bool} {t : Session}
      → replay_or_run e fx request caller_id key request_id found s' ≡ (ok (r, flag), t)
      → Outcome s r flag t
  unfolding replay_or_run
  replay_or_run-Outcome (some transfer) s s' positive q same {r} {flag} {t} h =
      after_bind _ (raise_when (not (str_eq transfer.caller_id caller_id)) _ s') h λ _ s1 p1 h1.
        let (mine, e1) = raise_when-eq-ok (not (str_eq transfer.caller_id caller_id)) _ s' p1 in
        let (pair, e2) = ok-injective (transfer, true) (r, flag) s1 t h1 in
        subst (λ p. Outcome s p.0 p.1 t) pair
          (record {
            found = one_found (select (has_key key) s.db.transfers) transfer q;
            same_caller = (eq_iff transfer.caller_id caller_id).0 (ground arith);
            same_db = ap (λ u. u.db) (sym e2 ∙ e1) ∙ same;
          })
  replay_or_run-Outcome none s s' positive q same {r} {flag} {t} h =
      after_bind _ (transaction e (transfer_block e fx request caller_id key request_id) s') h
        λ made s1 p1 h1.
          let (end, ran, kept) =
            transaction-eq-ok e (transfer_block e fx request caller_id key request_id) s' p1 in
          let (pair, e2) = ok-injective (made, false) (r, flag) s1 t h1 in
          subst (λ p. Outcome s p.0 p.1 t) pair
            (record {
              positive = positive;
              unused = none_found (select (has_key key) s.db.transfers) q;
              start = record s' { in_transaction = true };
              end = end;
              same_start = same;
              ran = ran;
              same_end = ap (λ u. u.db) (sym e2) ∙ kept;
            })

  -- A call that returns is a replay, of the one transfer with the key, made by the same caller,
  -- with no table changed, or a new transfer with a key that was unused, made by the transaction
  -- block; its flag tells which.
  pub execute_transfer-Outcome :
      (s : Session) {r : Transfer} {flag : Bool} {t : Session}
      → execute_transfer e fx request caller_id key request_id s ≡ (ok (r, flag), t)
      → Outcome s r flag t
  unfolding execute_transfer get_idempotency_record
  execute_transfer-Outcome s {r} {flag} {t} h =
      after_bind _ (raise_when (le request.amount zero_decimal) _ s) h λ _ s1 p1 h1.
        after_bind _ (get_idempotency_record key s1) h1 λ found s2 p2 h2.
          let (positive, e1) = raise_when-eq-ok (le request.amount zero_decimal) _ s p1 in
          replay_or_run-Outcome found s s2 positive
            (ap (λ (u : Session). scalar_one_or_none (select (has_key key) u.db.transfers)) (sym e1)
              ∙ ap (λ p. p.0) p2)
            (ap (λ u. u.db) (sym (second p2)) ∙ ap (λ u. u.db) e1) h2
