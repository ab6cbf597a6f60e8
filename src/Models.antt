-- ===== src/Models.antt =====
-- The rows of src/fund_transfer/models/. An id (UUID) is a number, since ids are only compared;
-- a time is a number of microseconds; the JSON column `detail` of the audit log is left out.
use ai_spec_driven_developme.Prelude.{ℕ, String, Bool, Option, List}
use ai_spec_driven_developme.Decimal.{Decimal}

pub data AccountStatus : Type 0 where
  active closed : AccountStatus

-- account.py
pub record Account : Type 0 where
  pub id : ℕ
  pub account_number : String
  pub owner_id : String
  pub currency : String
  pub balance : Decimal
  pub status : AccountStatus
  pub owner_pii_hash : Option String

pub data TransferStatus : Type 0 where
  pending processing completed failed rejected : TransferStatus

-- transfer.py; `sending_fee` to `source_amount_usd` are NULL in a same-currency transfer.
pub record Transfer : Type 0 where
  pub id : ℕ
  pub idempotency_key : String
  pub source_account_number : String
  pub destination_account_number : String
  pub source_amount : Decimal
  pub source_currency : String
  pub destination_amount : Decimal
  pub destination_currency : String
  pub exchange_rate : Decimal
  pub status : TransferStatus
  pub failure_reason : Option String
  pub transfer_type : Option String
  pub sending_fee : Option Decimal
  pub sending_fee_currency : Option String
  pub receiving_fee : Option Decimal
  pub receiving_fee_currency : Option String
  pub fx_snapshot_id : Option ℕ
  pub rate_confirmed_at : Option ℕ
  pub source_amount_usd : Option Decimal
  pub caller_id : String
  pub created_at : ℕ

-- audit_log.py
pub data OperationType : Type 0 where
  account_created account_deleted transfer_completed transfer_rejected : OperationType
  fx_rate_refreshed cross_currency_transfer_initiated : OperationType
  cross_currency_transfer_completed cross_currency_transfer_failed : OperationType
  notification_delivered aml_kyc_screening_triggered : OperationType

abbrev pub operation_type_value : OperationType → String
operation_type_value account_created = "account_created"
operation_type_value account_deleted = "account_deleted"
operation_type_value transfer_completed = "transfer_completed"
operation_type_value transfer_rejected = "transfer_rejected"
operation_type_value fx_rate_refreshed = "fx_rate_refreshed"
operation_type_value cross_currency_transfer_initiated = "cross_currency_transfer_initiated"
operation_type_value cross_currency_transfer_completed = "cross_currency_transfer_completed"
operation_type_value cross_currency_transfer_failed = "cross_currency_transfer_failed"
operation_type_value notification_delivered = "notification_delivered"
operation_type_value aml_kyc_screening_triggered = "aml_kyc_screening_triggered"

pub record AuditLogEntry : Type 0 where
  pub id : ℕ
  pub operation_type : OperationType
  pub actor_identity : String
  pub affected_account_numbers : List String
  pub amount : Option Decimal
  pub currency : Option String
  pub outcome : String
  pub timestamp : ℕ
  pub request_id : Option String

-- currency_pair.py
pub record CurrencyPair : Type 0 where
  pub id : ℕ
  pub from_currency : String
  pub to_currency : String
  pub is_active : Bool
  pub created_at : ℕ

-- `rates[from_currency][to_currency]`: a dict of dicts, as association lists.
abbrev pub RateMap : Type 0
RateMap = List (String × List (String × Decimal))

-- fx_rate_snapshot.py; the rates are stored as texts that `Decimal(…)` reads back unchanged.
pub record FxRateSnapshot : Type 0 where
  pub id : ℕ
  pub effective_at : ℕ
  pub fetched_at : ℕ
  pub is_stale : Bool
  pub provider_source : String
  pub rates : RateMap

-- notification.py
pub data Direction : Type 0 where
  sent received : Direction

pub record Notification : Type 0 where
  pub id : ℕ
  pub recipient_account_number : String
  pub transfer_id : ℕ
  pub direction : Direction
  pub source_amount : Decimal
  pub source_currency : String
  pub net_credited_amount : Decimal
  pub net_credited_currency : String
  pub read_at : Option ℕ
  pub created_at : ℕ
