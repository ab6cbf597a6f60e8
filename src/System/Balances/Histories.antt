-- ===== src/System/Balances/Histories.antt =====
-- What each operation does to the account book.
use ai_spec_driven_developme.System.Sound.Transfers.{fee-IsNonneg, net-IsNonneg}
use ai_spec_driven_developme.Models.{Account, Transfer}
use ai_spec_driven_developme.Session.{Db, Session}
use ai_spec_driven_developme.Session.Numeric.{AllSound, NumericColumns, NumericRange, found-IsSound}
use ai_spec_driven_developme.Api.App.{App}
use ai_spec_driven_developme.Prelude.{
  Bool, Option, String, [], ap, arith, false, str_eq, subst, sym, true, ◌∙◌, ◌∷◌, ◌≡◌, ◌≤◌,
}
use ai_spec_driven_developme.Security.{Claims}
use ai_spec_driven_developme.Service.AccountService.{CreateAccountRequest}
use ai_spec_driven_developme.Service.TransferService.{
  CreateTransferRequest, execute_transfer, validate_not_self_transfer,
}
use ai_spec_driven_developme.Service.CrossCurrencyTransferService.{
  CrossCurrencyTransferResponse, initiate,
}
use ai_spec_driven_developme.Service.CrossCurrencyTransferService.Validation.{
  CrossCurrencyTransferRequest,
}
use ai_spec_driven_developme.Decimal.{Decimal, le, zero_decimal}
use ai_spec_driven_developme.System.Balances.{
  Effect, History, History-same, balances, effect, exchange, no_effect, opening, Book,
}
use ai_spec_driven_developme.Service.CrossCurrencyTransferService.Settlement.{
  Exchanged, initiate-Exchanged, initiate-eq-err,
}
use ai_spec_driven_developme.Service.TransferService.Conversion.{IsNonneg, converted-eq-ok}
use ai_spec_driven_developme.System.Balances.Effects.{
  rows-transfer, Moved-RowsMoved, added-Opening, closed-balances, rows-Movement,
}
use ai_spec_driven_developme.Service.TransferService.Ledger.{
  NonnegRates, Settled, distinct_if_valid, execute_transfer-Settled, Settled-same_currency,
  nonneg_of_positive,
}
use ai_spec_driven_developme.System.Rates.{NonnegSnapshots}
use ai_spec_driven_developme.Errors.{Result, err, ok}
use ai_spec_driven_developme.Service.CrossCurrencyTransferService.Money.{calculate_amounts-Computed}
use ai_spec_driven_developme.Service.AccountService.Creation.{
  create_account-Added, create_account-eq-err,
}
use ai_spec_driven_developme.Config.{default_settings}
use ai_spec_driven_developme.Service.AccountService.Deletion.{
  delete_account-Deleted, delete_account-eq-err,
}
use ai_spec_driven_developme.Service.TransferService.Settlement.{
  execute_transfer-Outcome, execute_transfer-eq-err,
}
use ai_spec_driven_developme.Service.CrossCurrencyTransferService.Recall.{initiate-same_db}
use ai_spec_driven_developme.Decimal.Exact.{le-zero_decimal, lt-zero_decimal, units}
use ai_spec_driven_developme.Prelude.Int.{pos, ◌≤ℤ◌}
use ai_spec_driven_developme.Session.Rows.{rows}
use ai_spec_driven_developme.Service.AccountService

one : {a b : Book} → Effect a b → History a b
one x = effect no_effect x

same_book : (db db' : Db) → db' ≡ db → History (balances db.accounts) (balances db'.accounts)
same_book db db' same = History-same (ap (λ (x : Db). balances x.accounts) same)

positive_units : (d : Decimal) → le d zero_decimal ≡ false → pos 0 ≤ℤ units d
positive_units d h = let p = le-zero_decimal d h in ground arith

module _ (app : App) (range : NumericRange app.engine) (laws : NumericColumns app.engine)
    (fx_rates : NonnegRates app.exchange_rates) (usual : app.settings ≡ default_settings) where
  pub create_account-History :
      (request : CreateAccountRequest) (actor : String) (request_id : Option String) (s t : Session)
      (r : Result Account)
      → AccountService.create_account app.engine app.exchange_rates request actor request_id s
        ≡ (r, t)
      → History (balances s.db.accounts) (balances t.db.accounts)
  create_account-History request actor request_id s t (ok a) h =
      let (_, nonneg, w) =
        create_account-Added app.engine app.exchange_rates request actor request_id s h in
      subst (λ l. History (balances s.db.accounts) (balances l)) (sym w.accounts_after)
        (one (
          opening (
            added-Opening s.db.accounts a w.new_number (
              range.keeps_sign 19 4 request.opening_balance a.balance w.stored_balance
                (lt-zero_decimal request.opening_balance nonneg)))))
  create_account-History request actor request_id s t (err x) h =
      same_book s.db t.db
        (create_account-eq-err app.engine app.exchange_rates request actor request_id s h)

  pub delete_account-History :
      (number actor : String) (claims : Claims) (request_id : Option String) (s t : Session)
      (r : Result (Unit {0}))
      → AccountService.delete_account app.engine number actor claims request_id s ≡ (r, t)
      → History (balances s.db.accounts) (balances t.db.accounts)
  delete_account-History number actor claims request_id s t (ok x) h =
      let (w, _) = delete_account-Deleted app.engine number actor request_id claims s h in
      History-same (
        ap balances w.accounts_after
        ∙ closed-balances app.engine w.account.account_number s.db.accounts)
  delete_account-History number actor claims request_id s t (err x) h =
      same_book s.db t.db (delete_account-eq-err app.engine number actor request_id claims s h)

  settled-Effect :
      {request : CreateTransferRequest} {before after : Db} {r : Transfer}
      → Settled app.exchange_rates request before r after
      → validate_not_self_transfer request ≡ ok request
      → request.amount.scale ≤ 4
      → le request.amount zero_decimal ≡ false
      → AllSound before.accounts
      → Effect (balances before.accounts) (balances after.accounts)
  settled-Effect {request} {before} w valid small positive sound =
      let source_sound =
        found-IsSound request.source_account_number before.accounts w.source w.source_found sound in
      let paid = positive_units request.amount positive in
      rows-transfer
        (record {
          from = request.source_account_number;
          to = request.destination_account_number;
          source = w.source;
          dest = w.dest;
          taken = units request.amount;
          given = w.amount.coefficient;
          distinct = distinct_if_valid request valid;
          source_found = w.source_found;
          dest_found = w.dest_found;
          taken_nonneg = paid;
          given_nonneg =
              (converted-eq-ok request.amount w.rate w.conversion).1
                (nonneg_of_positive request.amount (le-zero_decimal request.amount positive))
                (fx_rates.at w.source.currency w.dest.currency w.rate w.rated);
          covered = w.covered;
          source_after = w.source_after;
          dest_after = w.dest_after;
          others = w.others;
        })
        (λ same. Settled-same_currency w same small positive source_sound)

  pub execute_transfer-History :
      (request : CreateTransferRequest) (key caller_id : String) (request_id : Option String)
      → request.amount.scale ≤ 4
      → validate_not_self_transfer request ≡ ok request
      → (s t : Session) (r : Result (Transfer × Bool))
      → execute_transfer app.engine app.exchange_rates request caller_id key request_id s ≡ (r, t)
      → AllSound s.db.accounts
      → History (balances s.db.accounts) (balances t.db.accounts)
  execute_transfer-History request key caller_id request_id small valid s t (ok (r, true)) h sound =
      same_book s.db t.db
        (execute_transfer-Outcome app.engine app.exchange_rates request caller_id key request_id s
          h).same_db
  execute_transfer-History request key caller_id request_id small valid s t (ok (r, false)) h
        sound =
      one (
        settled-Effect
          (execute_transfer-Settled app.engine laws app.exchange_rates fx_rates request caller_id
            key request_id s valid small sound h)
          valid small
          (execute_transfer-Outcome app.engine app.exchange_rates request caller_id key request_id s
            h).positive
          sound)
  execute_transfer-History request key caller_id request_id small valid s t (err x) h sound =
      same_book s.db t.db
        (execute_transfer-eq-err app.engine app.exchange_rates request caller_id key request_id s h)

  exchanged-Effect :
      {request : CrossCurrencyTransferRequest} {key caller_id : String} {request_id : Option String}
      {before after : Db} {r : CrossCurrencyTransferResponse}
      → Exchanged app.engine app.settings request caller_id key request_id before r after
      → IsNonneg request.source_amount
      → str_eq request.source_account_number request.destination_account_number ≡ false
      → NonnegSnapshots before.snapshots
      → Effect (balances before.accounts) (balances after.accounts)
  exchanged-Effect {request} {key} {caller_id} {request_id} {before} {after} w nonneg distinct
        rates =
      let known =
        calculate_amounts-Computed app.settings request.source_amount w.plan.current_rate
          w.validated.computed in
      exchange (
        rows-Movement (
          Moved-RowsMoved request.source_account_number request.destination_account_number
            (subst
              (λ (x : Db).
                rows request.source_account_number x.accounts ≡ w.plan.source_account ∷ [])
              w.same_start w.validated.source_found)
            (subst
              (λ (x : Db).
                rows request.destination_account_number x.accounts
                ≡ w.plan.destination_account ∷ [])
              w.same_start w.validated.dest_found)
            distinct w.moved (known.total_nonneg nonneg (fee-IsNonneg app laws fx_rates usual))
            (net-IsNonneg app laws fx_rates usual request key caller_id request_id nonneg w rates)
            w.rest))

  pub initiate-History :
      (request : CrossCurrencyTransferRequest) (key caller_id : String) (request_id : Option String)
      → IsNonneg request.source_amount
      → str_eq request.source_account_number request.destination_account_number ≡ false
      → (s t : Session) (r : Result (CrossCurrencyTransferResponse × Bool))
      → initiate app.engine app.settings request caller_id key request_id s ≡ (r, t)
      → NonnegSnapshots s.db.snapshots
      → AllSound s.db.accounts
      → History (balances s.db.accounts) (balances t.db.accounts)
  initiate-History request key caller_id request_id nonneg distinct s t (ok (r, true)) h rates
        sound =
      same_book s.db t.db
        (initiate-same_db app.engine app.settings request caller_id key request_id s h)
  initiate-History request key caller_id request_id nonneg distinct s t (ok (r, false)) h rates
        sound =
      one (
        exchanged-Effect
          (initiate-Exchanged app.engine app.settings request caller_id key request_id laws
            (fee-IsNonneg app laws fx_rates usual) nonneg distinct s sound h)
          nonneg distinct rates)
  initiate-History request key caller_id request_id nonneg distinct s t (err x) h rates sound =
      same_book s.db t.db
        (initiate-eq-err app.engine app.settings request caller_id key request_id s h)
