-- ===== src/Service/CrossCurrencyTransferService/Settlement.antt =====
-- `initiate` as its callers see it.
use ai_spec_driven_developme.Prelude.{
  String, ◌≡◌, refl, sym, subst, ◌∙◌, ap, true, false, not, Option, some, none, [], ◌∷◌, arith,
  str_eq,
}
use ai_spec_driven_developme.Prelude.Int.{pos, ◌-ℤ◌, ◌≤ℤ◌}
use ai_spec_driven_developme.Errors.{Error, ok, err}
use ai_spec_driven_developme.Models.{Transfer}
use ai_spec_driven_developme.Config.{Settings}
use ai_spec_driven_developme.Session.{Engine, Db, Session, lift, raise_when, transaction}
use ai_spec_driven_developme.Session.Laws.{
  after_bind, after_error, ok-injective, second, transaction-eq-ok, transaction-eq-err,
}
use ai_spec_driven_developme.Session.Numeric.{NumericColumns, AllSound, found-IsSound}
use ai_spec_driven_developme.Session.Rows.{rows}
use ai_spec_driven_developme.Session.Rows.Laws.{rows_number}
use ai_spec_driven_developme.Session.Rows.Moves.{Moved}
use ai_spec_driven_developme.Repository.TransferRepository.{get_idempotency_record}
use ai_spec_driven_developme.Service.TransferService.Conversion.{IsNonneg}
use ai_spec_driven_developme.Service.CrossCurrencyTransferService.{
  CrossCurrencyTransferResponse, perform, initiate_block, to_response, replay_or_initiate, initiate,
}
use ai_spec_driven_developme.Service.CrossCurrencyTransferService.Validation.{
  CrossCurrencyTransferRequest, Plan, validate,
}
use ai_spec_driven_developme.Service.CrossCurrencyTransferService.Inversion.{
  Validated, validate-Validated,
}
use ai_spec_driven_developme.Service.CrossCurrencyTransferService.Performed.{perform-Performed}
use ai_spec_driven_developme.Service.CrossCurrencyTransferService.Money
use ai_spec_driven_developme.Service.CrossCurrencyTransferService.Money.{calculate_amounts-Computed}

module _ (e : Engine) (settings : Settings) (request : CrossCurrencyTransferRequest)
    (caller_id key : String) (request_id : Option String) where
  replay_or_initiate-eq-err :
      (found : Option Transfer) (s : Session) {x : Error} {t : Session}
      → replay_or_initiate e settings request caller_id key request_id found s ≡ (err x, t)
      → t.db ≡ s.db
  unfolding replay_or_initiate
  replay_or_initiate-eq-err (some transfer) s h =
      after_error _ (raise_when (not (str_eq transfer.caller_id caller_id)) _ s) h
        (λ p. ap (λ u. u.db) (sym (second p)))
        (λ _ s1 p1 h1.
          after_error _ (lift (to_response transfer) s1) h1
            (λ p. ap (λ u. u.db) (sym (second p) ∙ sym (second p1)))
            (λ r u p q. absurd (ground arith)))
  replay_or_initiate-eq-err none s h =
      after_error _ (transaction e (initiate_block e settings request caller_id key request_id) s) h
        (λ p. transaction-eq-err e (initiate_block e settings request caller_id key request_id) s p)
        (λ r u p q. absurd (ground arith))

  -- A cross-currency transfer that raises, at any of its tests or writes, leaves every table as it was.
  pub initiate-eq-err :
      (s : Session) {x : Error} {t : Session}
      → initiate e settings request caller_id key request_id s ≡ (err x, t)
      → t.db ≡ s.db
  unfolding initiate get_idempotency_record
  initiate-eq-err s h =
      after_error _ (get_idempotency_record key s) h (λ p. ap (λ u. u.db) (sym (second p)))
        (λ found s1 p1 h1. replay_or_initiate-eq-err found s1 h1 ∙ ap (λ u. u.db) (sym (second p1)))

  -- What a new cross-currency transfer has found and done.
  pub record Exchanged (before : Db) (r : CrossCurrencyTransferResponse) (after : Db) : Type 0 where
    pub plan : Plan
    pub start : Session
    pub same_start : start.db ≡ before
    pub checked : Session
    -- The caller owns the source, both snapshots are fresh, the pair is active, the rate deviates by no
    -- more than the threshold, the amounts are within the limits.
    pub validated : Validated e settings request caller_id start plan checked
    -- The source had the total cost, in ten-thousandths.
    pub rest :
        pos 0
        ≤ℤ plan.source_account.balance.coefficient -ℤ plan.amounts.total_sender_cost.coefficient
    -- The source pays the total cost, the destination gets the net amount, and no other account changes.
    pub moved :
        Moved before.accounts plan.source_account plan.destination_account
          plan.amounts.total_sender_cost.coefficient plan.amounts.net_amount.coefficient
          after.accounts

  module _ (laws : NumericColumns e) (fee : IsNonneg settings.sending_fee_pct)
      (positive : IsNonneg request.source_amount)
      (distinct : str_eq request.source_account_number request.destination_account_number
        ≡ false) where
    block-Exchanged :
        (s : Session) {r : CrossCurrencyTransferResponse} {t : Session}
        → AllSound s.db.accounts
        → initiate_block e settings request caller_id key request_id s ≡ (ok r, t)
        → Exchanged s.db r t.db
    unfolding initiate_block
    block-Exchanged s {r} {t} sound h =
        after_bind _ (validate e settings request caller_id s) h λ plan s1 p1 h1.
          after_bind _ (perform e settings request caller_id key request_id plan s1) h1
            λ row s2 p2 h2.
              let v = validate-Validated e settings request caller_id s p1 in
              let (_, e3) = ok-injective _ r s2 t h2 in
              let done = perform-Performed e settings request caller_id key request_id plan s1 p2 in
              let known =
                calculate_amounts-Computed settings request.source_amount plan.current_rate
                  v.computed in
              let source_sound =
                found-IsSound request.source_account_number s.db.accounts plan.source_account
                  v.source_found sound in
              let dest_sound =
                found-IsSound request.destination_account_number s.db.accounts
                  plan.destination_account v.dest_found sound in
              let a =
                rows_number request.source_account_number s.db.accounts plan.source_account
                  v.source_found in
              let b =
                rows_number request.destination_account_number s.db.accounts
                  plan.destination_account v.dest_found in
              record {
                plan = plan;
                start = s;
                same_start = refl;
                checked = s1;
                validated = v;
                rest =
                    (Money.rest laws done source_sound dest_sound known.total_scale known.net_scale
                      (known.total_nonneg positive fee) v.covered).1;
                moved =
                    subst
                      (λ l.
                        Moved l plan.source_account plan.destination_account
                          plan.amounts.total_sender_cost.coefficient
                          plan.amounts.net_amount.coefficient t.db.accounts)
                      (ap (λ (db : Db). db.accounts) v.same_db)
                      (subst
                        (λ (u : Session).
                          Moved s1.db.accounts plan.source_account plan.destination_account
                            plan.amounts.total_sender_cost.coefficient
                            plan.amounts.net_amount.coefficient u.db.accounts)
                        e3
                        (Money.Performed-Moved laws done source_sound dest_sound known.total_scale
                          known.net_scale (known.total_nonneg positive fee) v.covered
                          (subst
                            (λ (db : Db).
                              rows plan.source_account.account_number db.accounts
                              ≡ plan.source_account ∷ [])
                            (sym v.same_db)
                            (subst (λ k. rows k s.db.accounts ≡ plan.source_account ∷ []) (sym a)
                              v.source_found))
                          (subst
                            (λ (db : Db).
                              rows plan.destination_account.account_number db.accounts
                              ≡ plan.destination_account ∷ [])
                            (sym v.same_db)
                            (subst (λ k. rows k s.db.accounts ≡ plan.destination_account ∷ [])
                              (sym b) v.dest_found))
                          (rw (a, b) distinct)));
              }

    replay_or_initiate-Exchanged :
        (found : Option Transfer) (s : Session) {r : CrossCurrencyTransferResponse} {t : Session}
        → AllSound s.db.accounts
        → replay_or_initiate e settings request caller_id key request_id found s
          ≡ (ok (r, false), t)
        → Exchanged s.db r t.db
    unfolding replay_or_initiate
    replay_or_initiate-Exchanged (some transfer) s sound h =
        after_bind _ (raise_when (not (str_eq transfer.caller_id caller_id)) _ s) h λ _ s1 p1 h1.
          after_bind _ (lift (to_response transfer) s1) h1
            λ response s2 p2 h2. absurd (ground arith)
    replay_or_initiate-Exchanged none s {r} {t} sound h =
        after_bind _ (transaction e (initiate_block e settings request caller_id key request_id) s)
          h
          λ response s1 p1 h1.
            let (u, ran, kept) =
              transaction-eq-ok e (initiate_block e settings request caller_id key request_id) s
                p1 in
            let (pair, e2) = ok-injective (response, false) (r, false) s1 t h1 in
            let w = block-Exchanged (record s { in_transaction = true }) sound ran in
            subst (λ x. Exchanged s.db x t.db) (ap (λ p. p.0) pair)
              (subst (λ db. Exchanged s.db response db)
                (sym (ap (λ (v : Session). v.db) (sym e2) ∙ kept)) w)

    pub initiate-Exchanged :
        (s : Session) {r : CrossCurrencyTransferResponse} {t : Session}
        → AllSound s.db.accounts
        → initiate e settings request caller_id key request_id s ≡ (ok (r, false), t)
        → Exchanged s.db r t.db
    unfolding initiate get_idempotency_record
    initiate-Exchanged s {r} {t} sound h =
        after_bind _ (get_idempotency_record key s) h λ found s1 p1 h1.
          let same : s1.db ≡ s.db = ap (λ u. u.db) (sym (second p1)) in
          subst (λ db. Exchanged db r t.db) same
            (replay_or_initiate-Exchanged found s1
              (subst (λ (db : Db). AllSound db.accounts) (sym same) sound) h1)
