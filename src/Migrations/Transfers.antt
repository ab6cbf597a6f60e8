-- ===== src/Migrations/Transfers.antt =====
-- alembic/versions/002_transfers_schema.py
use ai_spec_driven_developme.Prelude.{true, false, List, [], ◌∷◌}
use ai_spec_driven_developme.Migrations.Columns.{
  Operation, create_table, create_index, drop_table, key, unique_text, required, optional,
  defaulted, now, uuid, string, char, numeric, text, small_integer, jsonb, timestamp,
}

abbrev pub upgrade : List Operation
upgrade =
    create_table "transfers"
      (key "id" uuid
        ∷ unique_text "idempotency_key" 255
        ∷ required "source_account_number" (string 34)
        ∷ required "destination_account_number" (string 34)
        ∷ required "source_amount" (numeric 19 4)
        ∷ required "source_currency" (char 3)
        ∷ required "destination_amount" (numeric 19 4)
        ∷ required "destination_currency" (char 3)
        ∷ required "exchange_rate" (numeric 20 8)
        ∷ required "status" (string 20)
        ∷ optional "rejection_reason" text
        ∷ required "caller_id" text
        ∷ now "created_at"
        ∷ [])
      []
    ∷ create_index "transfers_idempotency_key_idx" "transfers" ("idempotency_key" ∷ []) true
    ∷ create_index "transfers_source_account_idx" "transfers" ("source_account_number" ∷ []) false
    ∷ create_index "transfers_destination_account_idx" "transfers"
        ("destination_account_number" ∷ []) false
    ∷ create_index "transfers_created_at_idx" "transfers" ("created_at" ∷ []) false
    ∷ create_table "idempotency_keys"
        (key "key" (string 255)
          ∷ required "owner_id" text
          ∷ required "request_hash" (string 64)
          ∷ optional "response_body" jsonb
          ∷ optional "response_status" small_integer
          ∷ defaulted "status" (string 20) "in_progress"
          ∷ now "created_at"
          ∷ required "expires_at" timestamp
          ∷ [])
        []
    ∷ create_index "idempotency_keys_expires_at_idx" "idempotency_keys" ("expires_at" ∷ []) false
    ∷ []

abbrev pub downgrade : List Operation
downgrade = drop_table "idempotency_keys" ∷ drop_table "transfers" ∷ []
