-- ===== src/Migrations/Models.antt =====
-- The columns that the classes of src/fund_transfer/models/ declare, without their defaults.
use ai_spec_driven_developme.Prelude.{String, some, List, [], ◌∷◌}
use ai_spec_driven_developme.Migrations.Columns.{
  Column, key, unique_text, required, optional, uuid, string, char, numeric, text, boolean,
  array_of_strings, jsonb, timestamp,
}

pub data Model : Type 0 where
  account audit_log_entry transfer fx_rate_snapshot currency_pair notification : Model

-- __tablename__
abbrev pub tablename : Model → String
tablename account = "accounts"
tablename audit_log_entry = "audit_log"
tablename transfer = "transfers"
tablename fx_rate_snapshot = "fx_rate_snapshot"
tablename currency_pair = "currency_pairs"
tablename notification = "notifications"

abbrev pub account_columns : List Column
account_columns =
    key "id" uuid
    ∷ unique_text "account_number" 34
    ∷ required "owner_id" (string 255)
    ∷ required "currency" (char 3)
    ∷ required "balance" (numeric 19 4)
    ∷ required "status" (string 20)
    ∷ optional "owner_pii_hash" (string 64)
    ∷ required "created_at" timestamp
    ∷ optional "updated_at" timestamp
    ∷ []

abbrev pub audit_log_columns : List Column
audit_log_columns =
    key "id" uuid
    ∷ required "operation_type" (string 30)
    ∷ required "actor_identity" text
    ∷ required "affected_account_numbers" array_of_strings
    ∷ optional "amount" (numeric 19 4)
    ∷ optional "currency" (char 3)
    ∷ required "outcome" (string 20)
    ∷ optional "detail" jsonb
    ∷ required "timestamp" timestamp
    ∷ optional "request_id" text
    ∷ []

abbrev pub transfer_columns : List Column
transfer_columns =
    key "id" uuid
    ∷ unique_text "idempotency_key" 255
    ∷ required "source_account_number" (string 34)
    ∷ required "destination_account_number" (string 34)
    ∷ required "source_amount" (numeric 19 4)
    ∷ required "source_currency" (char 3)
    ∷ required "destination_amount" (numeric 19 4)
    ∷ required "destination_currency" (char 3)
    ∷ required "exchange_rate" (numeric 20 8)
    ∷ required "status" (string 20)
    ∷ optional "failure_reason" text
    ∷ optional "transfer_type" (string 30)
    ∷ optional "sending_fee" (numeric 19 4)
    ∷ optional "sending_fee_currency" (char 3)
    ∷ optional "receiving_fee" (numeric 19 4)
    ∷ optional "receiving_fee_currency" (char 3)
    ∷ optional "fx_snapshot_id" uuid
    ∷ optional "rate_confirmed_at" timestamp
    ∷ optional "source_amount_usd" (numeric 19 4)
    ∷ required "caller_id" text
    ∷ required "created_at" timestamp
    ∷ []

abbrev pub snapshot_columns : List Column
snapshot_columns =
    key "id" uuid
    ∷ required "effective_at" timestamp
    ∷ required "fetched_at" timestamp
    ∷ required "is_stale" boolean
    ∷ required "provider_source" (string 100)
    ∷ required "rates" jsonb
    ∷ []

abbrev pub pair_columns : List Column
pair_columns =
    key "id" uuid
    ∷ required "from_currency" (char 3)
    ∷ required "to_currency" (char 3)
    ∷ required "is_active" boolean
    ∷ required "created_at" timestamp
    ∷ []

abbrev pub notification_columns : List Column
notification_columns =
    key "id" uuid
    ∷ required "recipient_account_number" (string 34)
    ∷ record (required "transfer_id" uuid) { foreign_key = some "transfers.id" }
    ∷ required "direction" (string 10)
    ∷ required "source_amount" (numeric 19 4)
    ∷ required "source_currency" (char 3)
    ∷ required "net_credited_amount" (numeric 19 4)
    ∷ required "net_credited_currency" (char 3)
    ∷ optional "read_at" timestamp
    ∷ required "created_at" timestamp
    ∷ []

abbrev pub model_columns : Model → List Column
model_columns account = account_columns
model_columns audit_log_entry = audit_log_columns
model_columns transfer = transfer_columns
model_columns fx_rate_snapshot = snapshot_columns
model_columns currency_pair = pair_columns
model_columns notification = notification_columns
