-- ===== src/Repository/TransferRepository.antt =====
-- src/fund_transfer/repositories/transfer_repository.py
pub mod StatusUpdate
pub mod Transitions
pub mod Laws
use ai_spec_driven_developme.Prelude.{
  ℕ, ◌-◌, ◌==◌, String, Bool, true, false, not, ◌&&◌, ◌||◌, Option, none, some, List, [], ◌∷◌,
  any_of, select, str_eq, leb, if◌then◌else◌,
}
use ai_spec_driven_developme.Prelude.Int.{pos, ◌+ℤ◌}
use ai_spec_driven_developme.Decimal.{
  Decimal, align, max_scale, quantize, round_half_even, zero_decimal,
}
use ai_spec_driven_developme.Errors.{
  Error, other_error, value_error, invalid_operation, Result, ok, err, or_raise,
}
use ai_spec_driven_developme.Models.{
  Account, Transfer, TransferStatus, pending, processing, completed, failed, rejected,
  OperationType, cross_currency_transfer_initiated, cross_currency_transfer_completed,
  cross_currency_transfer_failed, AuditLogEntry,
}
use ai_spec_driven_developme.Session.{
  Engine, Db, Session, Action, pure, lift, query, raise_when, modify, new_id, ◌>>=◌, ◌>>◌,
}
use ai_spec_driven_developme.Session.Rows.{scalar_one_or_none}
use ai_spec_driven_developme.Session.Columns.{stored}
use ai_spec_driven_developme.Repository.Insert.{has_key, insert_transfer, insert_audit}

-- A record that this key has, if it has one; the dict's other entry is its status.
unfoldable pub get_idempotency_record : String → Action (Option Transfer)
get_idempotency_record key = query (λ db. scalar_one_or_none (select (has_key key) db.transfers))

abbrev pub has_id : ℕ → Transfer → Bool
has_id transfer_id t = t.id == transfer_id

unfoldable pub get_transfer_by_id : ℕ → Action (Option Transfer)
get_transfer_by_id transfer_id =
    query (λ db. scalar_one_or_none (select (has_id transfer_id) db.transfers))

-- `session.add(transfer); flush(); refresh(transfer)`
unfoldable pub add_transfer : Engine → Transfer → Action Transfer
add_transfer e t s = elim (insert_transfer e t s.db) [
  | ok (row, db) ↦ (ok row, record s { db = db })
  | err x ↦ (err x, s)
]

unfoldable pub write_audit_log :
    Engine
    → OperationType
    → (actor_identity : String) → (affected_account_numbers : List String)
    → (amount : Option Decimal) → (currency : Option String) → (outcome : String)
    → (request_id : Option String) → Action (Unit {0})
write_audit_log e operation_type actor_identity affected amount currency outcome request_id = do
  id ← new_id e
  modify (
      insert_audit e (record {
        id = id;
        operation_type = operation_type;
        actor_identity = actor_identity;
        affected_account_numbers = affected;
        amount = amount;
        currency = currency;
        outcome = outcome;
        timestamp = e.db_now;
        request_id = request_id;
      }))

abbrev first_given : Option String → Option String → Option String
first_given (some x) _ = some x
first_given none y = y

abbrev pub same_currency_row :
    Engine
    → ℕ
    → (idempotency_key source_account_number destination_account_number : String)
    → (source_amount : Decimal) → (source_currency : String) → (destination_amount : Decimal)
    → (destination_currency : String) → (exchange_rate : Decimal) → TransferStatus
    → (caller_id : String) → (rejection_reason failure_reason : Option String) → Transfer
same_currency_row e id key src dst source_amount source_currency destination_amount
      destination_currency exchange_rate status caller_id rejection_reason failure_reason =
    record {
      id = id;
      idempotency_key = key;
      source_account_number = src;
      destination_account_number = dst;
      source_amount = source_amount;
      source_currency = source_currency;
      destination_amount = destination_amount;
      destination_currency = destination_currency;
      exchange_rate = exchange_rate;
      status = status;
      failure_reason = first_given failure_reason rejection_reason;
      transfer_type = none;
      sending_fee = none;
      sending_fee_currency = none;
      receiving_fee = none;
      receiving_fee_currency = none;
      fx_snapshot_id = none;
      rate_confirmed_at = none;
      source_amount_usd = none;
      caller_id = caller_id;
      created_at = e.db_now;
    }

unfoldable pub create_transfer :
    Engine
    → (idempotency_key source_account_number destination_account_number : String)
    → (source_amount : Decimal) → (source_currency : String) → (destination_amount : Decimal)
    → (destination_currency : String) → (exchange_rate : Decimal) → TransferStatus
    → (caller_id : String) → (rejection_reason failure_reason : Option String) → Action Transfer
create_transfer e key src dst source_amount source_currency destination_amount destination_currency
      exchange_rate status caller_id rejection_reason failure_reason =
    do
      id ← new_id e
      add_transfer e (
          same_currency_row e id key src dst source_amount source_currency destination_amount
            destination_currency exchange_rate status caller_id rejection_reason failure_reason)

-- The arguments of `create_cross_currency_transfer`, which are given by keyword.
pub record CrossCurrencyArguments : Type 0 where
  pub idempotency_key : String
  pub source_account_number : String
  pub destination_account_number : String
  pub source_amount : Decimal
  pub source_currency : String
  pub destination_amount : Decimal
  pub destination_currency : String
  pub exchange_rate : Decimal
  pub status : TransferStatus
  pub caller_id : String
  pub request_id : Option String
  pub sending_fee : Decimal
  pub sending_fee_currency : String
  pub receiving_fee : Decimal
  pub receiving_fee_currency : String
  pub fx_snapshot_id : ℕ
  pub rate_confirmed_at : ℕ
  pub source_amount_usd : Decimal
  pub failure_reason : Option String

abbrev pub cross_currency_row : Engine → ℕ → CrossCurrencyArguments → Transfer
cross_currency_row e id a = record {
  id = id;
  idempotency_key = a.idempotency_key;
  source_account_number = a.source_account_number;
  destination_account_number = a.destination_account_number;
  source_amount = a.source_amount;
  source_currency = a.source_currency;
  destination_amount = a.destination_amount;
  destination_currency = a.destination_currency;
  exchange_rate = a.exchange_rate;
  status = a.status;
  failure_reason = a.failure_reason;
  transfer_type = some "cross_currency";
  sending_fee = some a.sending_fee;
  sending_fee_currency = some a.sending_fee_currency;
  receiving_fee = some a.receiving_fee;
  receiving_fee_currency = some a.receiving_fee_currency;
  fx_snapshot_id = some a.fx_snapshot_id;
  rate_confirmed_at = some a.rate_confirmed_at;
  source_amount_usd = some a.source_amount_usd;
  caller_id = a.caller_id;
  created_at = e.db_now;
}

unfoldable pub create_cross_currency_transfer : Engine → CrossCurrencyArguments → Action Transfer
create_cross_currency_transfer e a = do
  id ← new_id e
  transfer ← add_transfer e (cross_currency_row e id a)
  write_audit_log e cross_currency_transfer_initiated a.caller_id
      (a.source_account_number ∷ a.destination_account_number ∷ []) (some a.source_amount)
      (some a.source_currency) "success" a.request_id
  pure transfer

abbrev pub same_status : TransferStatus → TransferStatus → Bool
same_status pending pending = true
same_status processing processing = true
same_status completed completed = true
same_status failed failed = true
same_status rejected rejected = true
same_status _ _ = false

-- The database's SUM, which does not round.
abbrev exact_add : Decimal → Option Decimal → Decimal
exact_add a none = a
exact_add a (some b) =
    let s = max_scale a b in record { coefficient = align a s +ℤ align b s; scale = s }

unfoldable pub sum_usd : List Transfer → Decimal
sum_usd [] = zero_decimal
sum_usd (t ∷ l) = exact_add (sum_usd l) t.source_amount_usd

abbrev pub counts_since : String → ℕ → Transfer → Bool
counts_since account_number since t =
    str_eq t.source_account_number account_number
    && (same_status t.status completed || same_status t.status processing)
    && leb since t.created_at

unfoldable pub get_daily_transfer_volume_usd : String → ℕ → Action Decimal
get_daily_transfer_volume_usd account_number since = query (λ db.
    or_raise
      (quantize round_half_even 4
        (sum_usd (select (counts_since account_number since) db.transfers)))
      (other_error invalid_operation))
