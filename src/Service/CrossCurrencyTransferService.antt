-- ===== src/Service/CrossCurrencyTransferService.antt =====
-- src/fund_transfer/services/cross_currency_transfer_service.py: a transfer by a previewed snapshot
-- of the exchange rates, with fees and limits. Metrics, tracing and logging are left out.
pub mod Computation
pub mod Validation
pub mod KeepsAccounts
pub mod Checks
pub mod Inversion
pub mod Status
pub mod Fees
pub mod NetAmount
pub mod AuditColumn
pub mod Performed
pub mod Money
pub mod Settlement
pub mod Records
pub mod Recall
use ai_spec_driven_developme.Prelude.{
  ℕ, ◌-◌, String, Bool, true, false, not, ◌&&◌, Option, none, some, List, [], ◌∷◌, str_eq, any_of,
  if◌then◌else◌,
}
use ai_spec_driven_developme.Decimal.{Decimal, add, sub, mul, lt}
use ai_spec_driven_developme.Errors.{
  Error, domain_error, other_error, transfer_limit_exceeded_error, data_error, not_found_error,
  forbidden_error, stale_rate_error, unsupported_currency_pair_error, insufficient_funds_error,
  idempotency_conflict_error, Result, ok, err, or_raise,
}
use ai_spec_driven_developme.Models.{
  Account, Transfer, FxRateSnapshot, CurrencyPair, pending, processing, completed,
  aml_kyc_screening_triggered,
}
use ai_spec_driven_developme.Config.{Settings}
use ai_spec_driven_developme.Session.{
  Engine, Db, Session, Action, pure, lift, query, read, raise_when, modify, transaction,
  set_balance, current_balance, ◌>>=◌, ◌>>◌,
}
use ai_spec_driven_developme.Repository.TransferRepository.{
  get_idempotency_record, get_transfer_by_id, create_cross_currency_transfer,
  get_daily_transfer_volume_usd, write_audit_log,
}
use ai_spec_driven_developme.Repository.TransferRepository.StatusUpdate.{
  update_transfer_status, update_transfer,
}
use ai_spec_driven_developme.Repository.FxRateRepository.{
  get_latest_snapshot, get_snapshot_by_id, get_active_currency_pairs,
}
use ai_spec_driven_developme.Service.TransferService.{load_active}
use ai_spec_driven_developme.Service.NotificationService.{create_transfer_notifications}
use Validation.{CrossCurrencyTransferRequest, Plan, validate}
use Computation.{
  Amounts, rate_of, calculate_amounts, amount_in_usd, check_rate_deviation, to_quantum,
}

-- schemas/fx.py
pub record CrossCurrencyTransferResponse : Type 0 where
  pub transfer : Transfer
  pub gross_converted_amount : Decimal

-- The two assignments to balances; the second reads an object that the first may have changed.
unfoldable pub move_balances : Engine → Plan → Action (Unit {0})
move_balances e plan = do
  debited ← lift (to_quantum (sub plan.source_account.balance plan.amounts.total_sender_cost))
  modify (set_balance e plan.source_account.account_number debited)
  now ← read (current_balance plan.destination_account)
  credited ← lift (to_quantum (add now plan.amounts.net_amount))
  modify (set_balance e plan.destination_account.account_number credited)

unfoldable pub aml_kyc_check :
    Engine → Settings → Transfer → Plan → (request_id : Option String) → Action (Unit {0})
aml_kyc_check e settings transfer plan request_id =
    if lt plan.source_amount_usd settings.aml_screening_threshold_usd
    then pure tt
    else write_audit_log e aml_kyc_screening_triggered transfer.caller_id
        (plan.source_account.account_number ∷ plan.destination_account.account_number ∷ [])
        (some plan.source_amount_usd) (some "USD") "success" request_id

unfoldable pub notify :
    Engine
    → Transfer
    → Plan
    → (caller_id : String) → (request_id : Option String) → Action (Unit {0})
notify e transfer plan caller_id request_id =
    if str_eq plan.source_account.account_number plan.destination_account.account_number
    then pure tt
    else create_transfer_notifications e transfer plan.source_account plan.destination_account
        (some caller_id) request_id

-- `transfer.destination_amount = net_amount`, which the next flush stores.
unfoldable pub assign_destination_amount : Engine → ℕ → Decimal → Action (Unit {0})
assign_destination_amount e transfer_id net_amount = modify (λ db.
    elim (e.numeric 19 4 net_amount) [
      | none ↦ err (other_error data_error)
      | some d ↦ ok (record db {
        transfers =
            update_transfer transfer_id (λ t. record t { destination_amount = d }) db.transfers;
      })
    ])

-- What `initiate` writes once the tests have passed.
unfoldable pub perform :
    Engine
    → Settings
    → CrossCurrencyTransferRequest
    → (caller_id idempotency_key : String) → (request_id : Option String) → Plan
    → Action Transfer
perform e settings request caller_id idempotency_key request_id plan = do
  transfer ← create_cross_currency_transfer e (record {
    idempotency_key = idempotency_key;
    source_account_number = plan.source_account.account_number;
    destination_account_number = plan.destination_account.account_number;
    source_amount = request.source_amount;
    source_currency = request.source_currency;
    destination_amount = plan.amounts.net_amount;
    destination_currency = request.destination_currency;
    exchange_rate = plan.current_rate;
    status = pending;
    caller_id = caller_id;
    request_id = request_id;
    sending_fee = plan.amounts.sending_fee;
    sending_fee_currency = request.source_currency;
    receiving_fee = plan.amounts.receiving_fee;
    receiving_fee_currency = request.destination_currency;
    fx_snapshot_id = plan.snapshot_id;
    rate_confirmed_at = e.utcnow;
    source_amount_usd = plan.source_amount_usd;
    failure_reason = none;
  })
  update_transfer_status e transfer.id processing none request_id
  move_balances e plan
  assign_destination_amount e transfer.id plan.amounts.net_amount
  done ← update_transfer_status e transfer.id completed none request_id
  notify e done plan caller_id request_id
  aml_kyc_check e settings done plan request_id
  pure done

unfoldable pub initiate_block :
    Engine
    → Settings
    → CrossCurrencyTransferRequest
    → (caller_id idempotency_key : String) → (request_id : Option String)
    → Action CrossCurrencyTransferResponse
initiate_block e settings request caller_id idempotency_key request_id = do
  plan ← validate e settings request caller_id
  transfer ← perform e settings request caller_id idempotency_key request_id plan
  pure (record { transfer = transfer; gross_converted_amount = plan.amounts.gross_amount })

-- `_to_response` of a transfer that was stored before.
unfoldable pub to_response : Transfer → Result CrossCurrencyTransferResponse
to_response transfer = elim (to_quantum (mul transfer.source_amount transfer.exchange_rate)) [
  | err x ↦ err x
  | ok gross ↦ ok (record { transfer = transfer; gross_converted_amount = gross })
]

unfoldable pub replay_or_initiate :
    Engine
    → Settings
    → CrossCurrencyTransferRequest
    → (caller_id idempotency_key : String) → (request_id : Option String) → Option Transfer
    → Action (CrossCurrencyTransferResponse × Bool)
replay_or_initiate e settings request caller_id idempotency_key request_id (some transfer) = do
  raise_when (not (str_eq transfer.caller_id caller_id))
      (domain_error idempotency_conflict_error none)
  response ← lift (to_response transfer)
  pure (response, true)
replay_or_initiate e settings request caller_id idempotency_key request_id none = do
  response ← transaction e (initiate_block e settings request caller_id idempotency_key request_id)
  pure (response, false)

unfoldable pub initiate :
    Engine
    → Settings
    → CrossCurrencyTransferRequest
    → (caller_id idempotency_key : String) → (request_id : Option String)
    → Action (CrossCurrencyTransferResponse × Bool)
initiate e settings request caller_id idempotency_key request_id = do
  existing ← get_idempotency_record idempotency_key
  replay_or_initiate e settings request caller_id idempotency_key request_id existing

unfoldable pub own_transfer_or_raise :
    String → Option Transfer → Result CrossCurrencyTransferResponse
own_transfer_or_raise caller_id none =
    err (domain_error not_found_error (some "TRANSFER_NOT_FOUND"))
own_transfer_or_raise caller_id (some transfer) =
    if str_eq transfer.caller_id caller_id
    then to_response transfer
    else err (domain_error forbidden_error (some "FORBIDDEN"))

unfoldable pub get_status : ℕ → (caller_id : String) → Action CrossCurrencyTransferResponse
get_status transfer_id caller_id = do
  found ← get_transfer_by_id transfer_id
  lift (own_transfer_or_raise caller_id found)
