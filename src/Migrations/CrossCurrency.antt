-- ===== src/Migrations/CrossCurrency.antt =====
-- alembic/versions/003_cross_currency_transfer.py
use ai_spec_driven_developme.Prelude.{some, false, List, [], ◌∷◌}
use ai_spec_driven_developme.Migrations.Columns.{
  Operation, create_table, create_index, add_column, rename_column, drop_column, drop_table, key,
  required, optional, defaulted, now, uuid, string, char, numeric, boolean, jsonb, timestamp,
}

abbrev pub upgrade : List Operation
upgrade =
    create_table "fx_rate_snapshot"
      (key "id" uuid
        ∷ now "effective_at"
        ∷ now "fetched_at"
        ∷ defaulted "is_stale" boolean "false"
        ∷ required "provider_source" (string 100)
        ∷ required "rates" jsonb
        ∷ [])
      []
    ∷ create_index "idx_fx_rate_snapshot_effective_at" "fx_rate_snapshot" ("effective_at" ∷ [])
        false
    ∷ create_index "idx_fx_rate_snapshot_is_stale" "fx_rate_snapshot" ("is_stale" ∷ []) false
    ∷ create_table "currency_pairs"
        (key "id" uuid
          ∷ required "from_currency" (char 3)
          ∷ required "to_currency" (char 3)
          ∷ defaulted "is_active" boolean "true"
          ∷ now "created_at"
          ∷ [])
        (("uq_currency_pairs_direction", "from_currency" ∷ "to_currency" ∷ []) ∷ [])
    ∷ create_index "idx_currency_pair_active" "currency_pairs" ("is_active" ∷ []) false
    ∷ create_table "notifications"
        (key "id" uuid
          ∷ required "recipient_account_number" (string 34)
          ∷ record (required "transfer_id" uuid) { foreign_key = some "transfers.id" }
          ∷ required "direction" (string 10)
          ∷ required "source_amount" (numeric 19 4)
          ∷ required "source_currency" (char 3)
          ∷ required "net_credited_amount" (numeric 19 4)
          ∷ required "net_credited_currency" (char 3)
          ∷ optional "read_at" timestamp
          ∷ now "created_at"
          ∷ [])
        []
    ∷ create_index "idx_notifications_recipient_read" "notifications"
        ("recipient_account_number" ∷ "read_at" ∷ []) false
    ∷ create_index "idx_notifications_transfer_id" "notifications" ("transfer_id" ∷ []) false
    ∷ add_column "transfers" (optional "transfer_type" (string 30))
    ∷ add_column "transfers" (optional "sending_fee" (numeric 19 4))
    ∷ add_column "transfers" (optional "sending_fee_currency" (char 3))
    ∷ add_column "transfers" (optional "receiving_fee" (numeric 19 4))
    ∷ add_column "transfers" (optional "receiving_fee_currency" (char 3))
    ∷ add_column "transfers" (optional "fx_snapshot_id" uuid)
    ∷ add_column "transfers" (optional "rate_confirmed_at" timestamp)
    ∷ add_column "transfers" (optional "source_amount_usd" (numeric 19 4))
    ∷ rename_column "transfers" "rejection_reason" "failure_reason"
    ∷ []

abbrev pub downgrade : List Operation
downgrade =
    rename_column "transfers" "failure_reason" "rejection_reason"
    ∷ drop_column "transfers" "source_amount_usd"
    ∷ drop_column "transfers" "rate_confirmed_at"
    ∷ drop_column "transfers" "fx_snapshot_id"
    ∷ drop_column "transfers" "receiving_fee_currency"
    ∷ drop_column "transfers" "receiving_fee"
    ∷ drop_column "transfers" "sending_fee_currency"
    ∷ drop_column "transfers" "sending_fee"
    ∷ drop_column "transfers" "transfer_type"
    ∷ drop_table "notifications"
    ∷ drop_table "currency_pairs"
    ∷ drop_table "fx_rate_snapshot"
    ∷ []
