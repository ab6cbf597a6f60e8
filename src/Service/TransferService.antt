-- ===== src/Service/TransferService.antt =====
-- src/fund_transfer/services/transfer_service.py: a transfer by the configured exchange rates.
pub mod Inversion
pub mod Conversion
pub mod Money
pub mod Settlement
pub mod Ledger
pub mod Replay
pub mod Autobegin
pub mod Steps
pub mod Success
use ai_spec_driven_developme.Prelude.{
  ℕ, zero, suc, String, Bool, true, false, not, Option, none, some, List, [], ◌∷◌, str_eq,
  if◌then◌else◌,
}
use ai_spec_driven_developme.Decimal.{
  Decimal, add, sub, mul, lt, le, quantize, round_half_even, zero_decimal,
}
use ai_spec_driven_developme.Errors.{
  Error, domain_error, other_error, value_error, invalid_operation, validation_error,
  not_found_error, limit_exceeded_error, insufficient_funds_error, idempotency_conflict_error,
  Result, ok, err, or_raise,
}
use ai_spec_driven_developme.Models.{Account, Transfer, completed, transfer_completed}
use ai_spec_driven_developme.Session.{
  Engine, Db, Session, Action, pure, lift, query, read, raise_when, modify, transaction,
  set_balance, current_balance, ◌>>=◌, ◌>>◌,
}
use ai_spec_driven_developme.Session.Rows.{scalar_one_or_none, rows}
use ai_spec_driven_developme.Repository.AccountRepository.{
  get_by_account_number, is_active_account, account_not_found,
}
use ai_spec_driven_developme.Repository.TransferRepository.{
  get_idempotency_record, create_transfer, write_audit_log,
}
use ai_spec_driven_developme.Config.{ExchangeRateConfig}
use ai_spec_driven_developme.Service.ExchangeRateService.{get_max_transfer_amount, get_rate}

-- schemas/transfer.py
pub record CreateTransferRequest : Type 0 where
  pub source_account_number : String
  pub destination_account_number : String
  pub amount : Decimal

-- `CreateTransferRequest.validate_not_self_transfer`
unfoldable pub validate_not_self_transfer : CreateTransferRequest → Result CreateTransferRequest
validate_not_self_transfer request =
    if str_eq request.source_account_number request.destination_account_number
    then err (other_error value_error)
    else if le request.amount zero_decimal
    then err (other_error value_error)
    else ok request

-- What is left of an account that was loaded: it exists and is active.
abbrev active_or_raise : Option Account → Result Account
active_or_raise none = err account_not_found
active_or_raise (some a) = if is_active_account a then ok a else err account_not_found

-- `select(Account).where(…).with_for_update()`, and the test of what it found.
unfoldable pub load_active : String → Action Account
unfolding get_by_account_number
load_active number = do found ← get_by_account_number number; lift (active_or_raise found)

-- `(amount * rate).quantize(Decimal("0.0001"))`
unfoldable pub converted : Decimal → Decimal → Result Decimal
converted amount rate =
    or_raise (quantize round_half_even 4 (mul amount rate)) (other_error invalid_operation)

-- From the assignments to the balances on, with what the tests before have found.
unfoldable pub move_money :
    Engine
    → CreateTransferRequest
    → (caller_id idempotency_key : String) → (request_id : Option String)
    → (source_account dest_account : Account) → (exchange_rate destination_amount : Decimal)
    → Action Transfer
move_money e request caller_id idempotency_key request_id source dest exchange_rate
      destination_amount =
    do
      modify (set_balance e source.account_number (sub source.balance request.amount))
      dest_balance ← read (current_balance dest)
      modify (set_balance e dest.account_number (add dest_balance destination_amount))
      transfer ←
          create_transfer e idempotency_key request.source_account_number
            request.destination_account_number request.amount source.currency destination_amount
            dest.currency exchange_rate completed caller_id none none
      write_audit_log e transfer_completed caller_id
          (request.source_account_number ∷ request.destination_account_number ∷ [])
          (some request.amount) (some source.currency) "success" request_id
      pure transfer

-- The transaction block of `execute_transfer`.
unfoldable pub transfer_block :
    Engine
    → ExchangeRateConfig
    → CreateTransferRequest
    → (caller_id idempotency_key : String) → (request_id : Option String) → Action Transfer
transfer_block e fx request caller_id idempotency_key request_id = do
  source ← load_active request.source_account_number
  dest ← load_active request.destination_account_number
  max_amount ← lift (get_max_transfer_amount fx source.currency)
  raise_when (lt max_amount request.amount) (domain_error limit_exceeded_error none)
  raise_when (lt source.balance request.amount) (domain_error insufficient_funds_error none)
  exchange_rate ← lift (get_rate fx source.currency dest.currency)
  destination_amount ← lift (converted request.amount exchange_rate)
  move_money e request caller_id idempotency_key request_id source dest exchange_rate
      destination_amount

-- An earlier transfer with the key is returned again to its caller only; the flag tells a replay.
unfoldable pub replay_or_run :
    Engine
    → ExchangeRateConfig
    → CreateTransferRequest
    → (caller_id idempotency_key : String) → (request_id : Option String) → Option Transfer
    → Action (Transfer × Bool)
replay_or_run e fx request caller_id idempotency_key request_id (some transfer) = do
  raise_when (not (str_eq transfer.caller_id caller_id))
      (domain_error idempotency_conflict_error none)
  pure (transfer, true)
replay_or_run e fx request caller_id idempotency_key request_id none = do
  transfer ← transaction e (transfer_block e fx request caller_id idempotency_key request_id)
  pure (transfer, false)

-- The method without its decorator; `request_hash` is an argument that it does not use.
unfoldable pub execute_transfer :
    Engine
    → ExchangeRateConfig
    → CreateTransferRequest
    → (caller_id idempotency_key : String) → (request_id : Option String) → Action (Transfer × Bool)
execute_transfer e fx request caller_id idempotency_key request_id = do
  raise_when (le request.amount zero_decimal) (domain_error validation_error none)
  existing ← get_idempotency_record idempotency_key
  replay_or_run e fx request caller_id idempotency_key request_id existing
