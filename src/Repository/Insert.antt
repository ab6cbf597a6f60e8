-- ===== src/Repository/Insert.antt =====
-- The flush of a new row: the conversion of each column (src/fund_transfer/models/) and the unique
-- constraints, with the primary and the foreign keys. A row comes back as the refresh reads it.
use ai_spec_driven_developme.Prelude.{
  ℕ, String, Bool, Option, none, some, [], ◌∷◌, ◌++◌, any_of, str_eq, ◌&&◌, ◌≡◌, arith, not, ◌==◌,
}
use ai_spec_driven_developme.Errors.{
  other_error, integrity_error, Result, ok, raise_if, ◌>>=◌, ◌>>◌,
}
use ai_spec_driven_developme.Models.{
  Account, Transfer, AuditLogEntry, Notification, CurrencyPair, operation_type_value,
}
use ai_spec_driven_developme.Session.{Engine, Db}
use ai_spec_driven_developme.Session.Columns.{stored, stored_or_null, checked}
use ai_spec_driven_developme.Session.Rows.{is_numbered}

abbrev pub checked_or_null : Engine → ℕ → Option String → Result (Unit {0})
checked_or_null e n none = ok tt
checked_or_null e n (some text) = checked e n text

-- The primary keys.
abbrev pub has_account_id : ℕ → Account → Bool
has_account_id id a = a.id == id

abbrev pub has_transfer_id : ℕ → Transfer → Bool
has_transfer_id id t = t.id == id

abbrev pub has_entry_id : ℕ → AuditLogEntry → Bool
has_entry_id id entry = entry.id == id

abbrev pub has_notification_id : ℕ → Notification → Bool
has_notification_id id n = n.id == id

abbrev has_pair_id : ℕ → CurrencyPair → Bool
has_pair_id id p = p.id == id

unfoldable pub store_account : Engine → Account → Result Account
store_account e a = do
  checked e 34 a.account_number
  checked e 255 a.owner_id
  checked e 3 a.currency
  balance ← stored e 19 4 a.balance
  ok (record a { balance = balance })

unfoldable pub insert_account : Engine → Account → Db → Result (Account × Db)
unfolding store_account
insert_account e a db = do
  row ← store_account e a
  raise_if (any_of (has_account_id a.id) db.accounts) (other_error integrity_error)
  raise_if (any_of (is_numbered a.account_number) db.accounts) (other_error integrity_error)
  ok (row, record db { accounts = db.accounts ++ row ∷ [] })

unfoldable pub check_transfer_texts : Engine → Transfer → Result (Unit {0})
check_transfer_texts e t = do
  checked e 255 t.idempotency_key
  checked e 34 t.source_account_number
  checked e 34 t.destination_account_number
  checked e 3 t.source_currency
  checked e 3 t.destination_currency
  checked_or_null e 30 t.transfer_type
  checked_or_null e 3 t.sending_fee_currency
  checked_or_null e 3 t.receiving_fee_currency

unfoldable pub store_amounts : Engine → Transfer → Result Transfer
store_amounts e t = do
  source_amount ← stored e 19 4 t.source_amount
  destination_amount ← stored e 19 4 t.destination_amount
  exchange_rate ← stored e 20 8 t.exchange_rate
  ok (record t {
    source_amount = source_amount;
    destination_amount = destination_amount;
    exchange_rate = exchange_rate;
  })

unfoldable pub store_fees : Engine → Transfer → Result Transfer
store_fees e t = do
  sending_fee ← stored_or_null e 19 4 t.sending_fee
  receiving_fee ← stored_or_null e 19 4 t.receiving_fee
  source_amount_usd ← stored_or_null e 19 4 t.source_amount_usd
  ok (record t {
    sending_fee = sending_fee;
    receiving_fee = receiving_fee;
    source_amount_usd = source_amount_usd;
  })

unfoldable pub store_transfer : Engine → Transfer → Result Transfer
store_transfer e t = do check_transfer_texts e t; row ← store_amounts e t; store_fees e row

-- `Transfer.idempotency_key == key`
abbrev pub has_key : String → Transfer → Bool
has_key key t = str_eq t.idempotency_key key

unfoldable pub insert_transfer : Engine → Transfer → Db → Result (Transfer × Db)
insert_transfer e t db = do
  row ← store_transfer e t
  raise_if (any_of (has_transfer_id t.id) db.transfers) (other_error integrity_error)
  raise_if (any_of (has_key t.idempotency_key) db.transfers) (other_error integrity_error)
  ok (row, record db { transfers = db.transfers ++ row ∷ [] })

unfoldable pub insert_audit : Engine → AuditLogEntry → Db → Result Db
insert_audit e entry db = do
  checked e 30 (operation_type_value entry.operation_type)
  checked_or_null e 3 entry.currency
  checked e 20 entry.outcome
  amount ← stored_or_null e 19 4 entry.amount
  raise_if (any_of (has_entry_id entry.id) db.audit_log) (other_error integrity_error)
  ok (record db { audit_log = db.audit_log ++ record entry { amount = amount } ∷ [] })

unfoldable pub insert_notification : Engine → Notification → Db → Result Db
insert_notification e n db = do
  checked e 34 n.recipient_account_number
  checked e 3 n.source_currency
  checked e 3 n.net_credited_currency
  source_amount ← stored e 19 4 n.source_amount
  net_credited_amount ← stored e 19 4 n.net_credited_amount
  raise_if (any_of (has_notification_id n.id) db.notifications) (other_error integrity_error)
  -- `ForeignKey("transfers.id")`
  raise_if (not (any_of (has_transfer_id n.transfer_id) db.transfers)) (other_error integrity_error)
  let row = record n { source_amount = source_amount; net_credited_amount = net_credited_amount }
  ok (record db { notifications = db.notifications ++ row ∷ [] })

-- `UniqueConstraint("from_currency", "to_currency")`
abbrev has_direction : CurrencyPair → CurrencyPair → Bool
has_direction pair p =
    str_eq p.from_currency pair.from_currency && str_eq p.to_currency pair.to_currency

unfoldable pub insert_pair : Engine → CurrencyPair → Db → Result Db
insert_pair e pair db = do
  checked e 3 pair.from_currency
  checked e 3 pair.to_currency
  raise_if (any_of (has_pair_id pair.id) db.currency_pairs) (other_error integrity_error)
  raise_if (any_of (has_direction pair) db.currency_pairs) (other_error integrity_error)
  ok (record db { currency_pairs = db.currency_pairs ++ pair ∷ [] })

pub insert_pair-result :
    (e : Engine) (pair : CurrencyPair) (db db' : Db)
    → insert_pair e pair db ≡ ok db'
    → record db { currency_pairs = db.currency_pairs ++ pair ∷ [] } ≡ db'
unfolding insert_pair
insert_pair-result e pair db db' h = ground arith
