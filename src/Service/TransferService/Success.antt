-- ===== src/Service/TransferService/Success.antt =====
-- A transfer that nothing speaks against goes through.
use ai_spec_driven_developme.Service.TransferService.Steps.{
  load_active_ok, write_audit_log_ok, create_transfer_ok, debited_ok, credited_ok, amount_taken,
  set_balance_ok,
}
use ai_spec_driven_developme.Prelude.{
  String, ◌≤◌, ◌<◌, ◌≡◌, refl, sym, subst, ◌∙◌, ap, true, false, Option, some, none, [], ◌∷◌, arith,
  str_eq, select, ◌⊎◌, Bool-cases, any_of, ap₂, ◌+◌, inl, inr,
}
use ai_spec_driven_developme.Prelude.Int.{magnitude, ◌+ℤ◌, ◌-ℤ◌}
use ai_spec_driven_developme.Decimal.{Decimal, lt, le, sub, add, zero_decimal}
use ai_spec_driven_developme.Decimal.Exact.{money, units}
use ai_spec_driven_developme.Errors.{Result, ok, err, other_error, invalid_request_error}
use ai_spec_driven_developme.Models.{Account, Transfer, completed}
use ai_spec_driven_developme.Config.{ExchangeRateConfig}
use ai_spec_driven_developme.Session.{
  Engine, Db, Session, modify, set_balance, current_balance, transaction,
}
use ai_spec_driven_developme.Session.Numeric.{NumericColumns, column_limit, IsSound}
use ai_spec_driven_developme.Session.Runs.{
  Returns, continue-Returns, transaction-Returns, modify_ok,
}
use ai_spec_driven_developme.Session.Rows.{rows, update_row, with_balance}
use ai_spec_driven_developme.Repository.Insert.{has_key, has_transfer_id, has_entry_id}
use ai_spec_driven_developme.Repository.TransferRepository.{get_idempotency_record, create_transfer}
use ai_spec_driven_developme.Repository.AccountRepository.{is_active_account}
use ai_spec_driven_developme.Service.TransferService.{
  load_active, CreateTransferRequest, validate_not_self_transfer, converted, move_money,
  transfer_block, replay_or_run, execute_transfer,
}
use ai_spec_driven_developme.Service.TransferService.Conversion.{converted-eq-ok}
use ai_spec_driven_developme.Service.TransferService.Ledger.{distinct_if_valid}
use ai_spec_driven_developme.Service.ExchangeRateService.{get_rate, get_max_transfer_amount}
use ai_spec_driven_developme.Session.Rows.Laws.{rows_number, rows-update_row}
use ai_spec_driven_developme.Session.Laws.{current_balance-found}

-- What a transfer needs to go through: two sound accounts that are active, an amount, a rate and texts
-- that the columns take, within the limit and the funds, and room for the credit.
pub record Acceptable (e : Engine) (fx : ExchangeRateConfig) (request : CreateTransferRequest)
    (key : String) (db : Db) : Type 0 where
  pub source : Account
  pub dest : Account
  pub source_found : rows request.source_account_number db.accounts ≡ source ∷ []
  pub dest_found : rows request.destination_account_number db.accounts ≡ dest ∷ []
  pub source_active : is_active_account source ≡ true
  pub dest_active : is_active_account dest ≡ true
  pub source_sound : IsSound source
  pub dest_sound : IsSound dest
  pub valid : validate_not_self_transfer request ≡ ok request
  pub small : request.amount.scale ≤ 4
  pub max_amount : Decimal
  pub limit : get_max_transfer_amount fx source.currency ≡ ok max_amount
  pub within_limit : lt max_amount request.amount ≡ false
  pub covered : lt source.balance request.amount ≡ false
  pub rate : Decimal
  pub rated : get_rate fx source.currency dest.currency ≡ ok rate
  pub amount : Decimal
  pub conversion : converted request.amount rate ≡ ok amount
  pub amount_stored : Decimal
  pub amount_taken : e.numeric 19 4 request.amount ≡ some amount_stored
  pub rate_stored : Decimal
  pub rate_taken : e.numeric 20 8 rate ≡ some rate_stored
  pub key_fits : e.fits 255 key ≡ true
  pub source_number_fits : e.fits 34 request.source_account_number ≡ true
  pub dest_number_fits : e.fits 34 request.destination_account_number ≡ true
  pub source_currency_fits : e.fits 3 source.currency ≡ true
  pub dest_currency_fits : e.fits 3 dest.currency ≡ true
  pub operation_fits : e.fits 30 "transfer_completed" ≡ true
  pub outcome_fits : e.fits 20 "success" ≡ true
  pub room : magnitude (dest.balance.coefficient +ℤ amount.coefficient) < column_limit
  pub amount_fits : magnitude amount.coefficient < column_limit

module _ (e : Engine) (laws : NumericColumns e) (fx : ExchangeRateConfig)
    (request : CreateTransferRequest) (caller_id key : String) (request_id : Option String) where
  still :
      (db : Db) (w : Acceptable e fx request key db) (d : Decimal)
      → current_balance w.dest
          (record db { accounts = update_row w.source.account_number (with_balance d) db.accounts })
        ≡ w.dest.balance
  still db w d =
      let a = rows_number request.source_account_number db.accounts w.source w.source_found in
      let b = rows_number request.destination_account_number db.accounts w.dest w.dest_found in
      let apart : str_eq w.source.account_number w.dest.account_number ≡ false =
        rw (a, b) (distinct_if_valid request w.valid) in
      let found : rows w.dest.account_number db.accounts ≡ w.dest ∷ [] =
        subst (λ k. rows k db.accounts ≡ w.dest ∷ []) (sym b) w.dest_found in
      current_balance-found w.dest w.dest []
        (record db { accounts = update_row w.source.account_number (with_balance d) db.accounts })
        (rw (
          rows-update_row w.dest.account_number w.source.account_number d db.accounts,
          apart,
          found,
        ))

  positive_if_valid :
      validate_not_self_transfer request ≡ ok request → le request.amount zero_decimal ≡ false
  unfolding validate_not_self_transfer
  positive_if_valid valid = ground arith

  move_money-Returns :
      (s : Session) (w : Acceptable e fx request key s.db)
      → select (has_key key) s.db.transfers ≡ []
      → any_of (has_transfer_id (e.uuid4 s.draws)) s.db.transfers ≡ false
      → any_of (has_entry_id (e.uuid4 (s.draws + 1))) s.db.audit_log ≡ false
      → Returns (move_money e request caller_id key request_id w.source w.dest w.rate w.amount s)
  unfolding move_money
  move_money-Returns s w unused new_id new_entry =
      let debit =
        debited_ok laws w.source request.amount w.source_sound w.small (positive_if_valid w.valid)
          w.covered in
      let scale = (converted-eq-ok request.amount w.rate w.conversion).0 in
      let credit = credited_ok laws w.dest w.amount w.dest_sound scale w.room in
      let same = still s.db w (money (w.source.balance.coefficient -ℤ units request.amount)) in
      let debited : Session = record s {
        db = record s.db {
          accounts =
              update_row w.source.account_number
                (with_balance (money (w.source.balance.coefficient -ℤ units request.amount)))
                s.db.accounts;
        };
      } in
      let credited : Session = record debited {
        db = record debited.db {
          accounts =
              update_row w.dest.account_number
                (with_balance (money (w.dest.balance.coefficient +ℤ w.amount.coefficient)))
                debited.db.accounts;
        };
      } in
      let debiting : Db → Result Db =
        set_balance e w.source.account_number (sub w.source.balance request.amount) in
      let crediting : Db → Result Db =
        set_balance e w.dest.account_number (add (current_balance w.dest debited.db) w.amount) in
      let (made, draws_after, log_after) =
        create_transfer_ok e key request.source_account_number request.destination_account_number
          request.amount w.source.currency w.amount w.dest.currency w.rate caller_id credited
          w.key_fits w.source_number_fits w.dest_number_fits w.source_currency_fits
          w.dest_currency_fits w.amount_taken (amount_taken laws w.amount scale w.amount_fits)
          w.rate_taken unused new_id in
      let logged =
        write_audit_log_ok e caller_id
          (request.source_account_number ∷ request.destination_account_number ∷ []) request.amount
          w.source.currency request_id made.end w.operation_fits w.outcome_fits
          w.source_currency_fits w.amount_taken
          (ap₂ (λ n l. any_of (has_entry_id (e.uuid4 n)) l) draws_after log_after ∙ new_entry) in
      continue-Returns _ (modify debiting s) {u = debited}
        (modify_ok debiting s (
          set_balance_ok e w.source.account_number (sub w.source.balance request.amount) s.db
            debit))
        (continue-Returns _ (modify crediting debited) {u = credited}
          (modify_ok crediting debited (
            set_balance_ok e w.dest.account_number
              (add (current_balance w.dest debited.db) w.amount) debited.db
              (ap (λ b. e.numeric 19 4 (add b w.amount)) same ∙ credit)))
          (continue-Returns _
            (create_transfer e key request.source_account_number request.destination_account_number
              request.amount w.source.currency w.amount w.dest.currency w.rate completed caller_id
              none none credited)
            made.returned
            (continue-Returns _ _ logged.returned
              (record { value = made.value; end = logged.end; returned = refl }))))

  transfer_block-Returns :
      (s : Session) (w : Acceptable e fx request key s.db)
      → select (has_key key) s.db.transfers ≡ []
      → any_of (has_transfer_id (e.uuid4 s.draws)) s.db.transfers ≡ false
      → any_of (has_entry_id (e.uuid4 (s.draws + 1))) s.db.audit_log ≡ false
      → Returns (transfer_block e fx request caller_id key request_id s)
  unfolding transfer_block
  transfer_block-Returns s w unused new_id new_entry =
      let opened : Session = record s { in_transaction = true } in
      continue-Returns _ (load_active request.source_account_number s)
        (load_active_ok request.source_account_number s w.source_found w.source_active)
        (continue-Returns _ (load_active request.destination_account_number opened)
          (load_active_ok request.destination_account_number opened w.dest_found w.dest_active)
          (rw (w.limit, w.within_limit, w.covered, w.rated, w.conversion)
            (move_money-Returns opened w unused new_id new_entry)))

  -- A request with an unused key and nothing against it goes through, unless the session refuses
  -- `begin()` after the query for the key, which is then all that is raised: with columns as
  -- `NumericColumns` says, if the request is validated, both accounts are active with balances as
  -- stored, the amount has at most four decimal places and is within the limit and covered, the
  -- rate is configured, the columns take the texts of the transfer and of its audit entry, the
  -- amount, the rate and the credited balance, and the id that is drawn for the transfer and for
  -- its audit entry is new.
  pub execute_transfer-Returns :
      (s : Session)
      → select (has_key key) s.db.transfers ≡ []
      → any_of (has_transfer_id (e.uuid4 s.draws)) s.db.transfers ≡ false
      → any_of (has_entry_id (e.uuid4 (s.draws + 1))) s.db.audit_log ≡ false
      → Acceptable e fx request key s.db
      → ((e.begins true ≡ true)
          × (r : Transfer) × (t : Session) × (execute_transfer e fx request caller_id key request_id
                s
              ≡ (ok (r, false), t)))
        ⊎ ((e.begins true ≡ false)
            × (execute_transfer e fx request caller_id key request_id s
                ≡ (err (other_error invalid_request_error), record s { in_transaction = true })))
  unfolding execute_transfer replay_or_run get_idempotency_record transaction
  execute_transfer-Returns s unused new_id new_entry w =
      let opened : Session = record s { in_transaction = true } in
      elim (Bool-cases (e.begins true)) [
        | inl enters ↦
            let done =
              transaction-Returns e (transfer_block e fx request caller_id key request_id) opened
                enters (transfer_block-Returns opened w unused new_id new_entry) in
            inl
              (enters, done.value, done.end, rw (positive_if_valid w.valid, unused, done.returned))
        | inr refused ↦ inr (refused, rw (positive_if_valid w.valid, unused, refused))
      ]
