-- ===== src/Migrations/Initial.antt =====
-- alembic/versions/001_initial_schema.py
use ai_spec_driven_developme.Prelude.{true, false, List, [], ◌∷◌}
use ai_spec_driven_developme.Migrations.Columns.{
  Operation, create_table, create_index, drop_table, key, unique_text, required, optional,
  defaulted, now, uuid, string, char, numeric, text, array_of_strings, jsonb, timestamp,
}

abbrev pub upgrade : List Operation
upgrade =
    create_table "accounts"
      (key "id" uuid
        ∷ unique_text "account_number" 34
        ∷ required "owner_id" (string 255)
        ∷ required "currency" (char 3)
        ∷ required "balance" (numeric 19 4)
        ∷ defaulted "status" (string 20) "active"
        ∷ optional "owner_pii_hash" (string 64)
        ∷ now "created_at"
        ∷ optional "updated_at" timestamp
        ∷ [])
      []
    ∷ create_index "accounts_account_number_idx" "accounts" ("account_number" ∷ []) true
    ∷ create_index "accounts_owner_id_idx" "accounts" ("owner_id" ∷ []) false
    ∷ create_index "accounts_status_idx" "accounts" ("status" ∷ []) false
    ∷ create_table "audit_log"
        (key "id" uuid
          ∷ required "operation_type" (string 30)
          ∷ required "actor_identity" text
          ∷ required "affected_account_numbers" array_of_strings
          ∷ optional "amount" (numeric 19 4)
          ∷ optional "currency" (char 3)
          ∷ required "outcome" (string 20)
          ∷ optional "detail" jsonb
          ∷ now "timestamp"
          ∷ optional "request_id" text
          ∷ [])
        []
    ∷ create_index "audit_log_actor_identity_idx" "audit_log" ("actor_identity" ∷ []) false
    ∷ create_index "audit_log_affected_accounts_idx" "audit_log" ("affected_account_numbers" ∷ [])
        false
    ∷ create_index "audit_log_timestamp_idx" "audit_log" ("timestamp" ∷ []) false
    ∷ create_index "audit_log_operation_type_idx" "audit_log" ("operation_type" ∷ []) false
    ∷ []

abbrev pub downgrade : List Operation
downgrade = drop_table "audit_log" ∷ drop_table "accounts" ∷ []
