-- ===== src/System/Growth.antt =====
-- Every write grows the tables.
use ai_spec_driven_developme.System.Writes.{ok_same, Writes}
use ai_spec_driven_developme.Errors.{>>=-eq-ok, ok, raise_if, raise_if-eq-ok}
use ai_spec_driven_developme.Models.{
  Account, AuditLogEntry, Notification, Transfer, TransferStatus, operation_type_value,
}
use ai_spec_driven_developme.Session.{Db, Engine, set_balance}
use ai_spec_driven_developme.Decimal.{Decimal}
use ai_spec_driven_developme.System.Grown.{Grown, grown, lasting_transfer}
use ai_spec_driven_developme.System.Grown.Additions.{
  account_added, audit_log_written, notification_added, pairs_written, transfer_added,
}
use ai_spec_driven_developme.System.Grown.Updates.{
  accounts_updated, reading_recorded, transfers_updated,
}
use ai_spec_driven_developme.Prelude.{
  not, Option, Option-cases, String, [], any_of, arith, false, inl, inr, none, refl, some, subst,
  sym, ◌++◌, ◌∷◌, ◌≡◌,
}
use ai_spec_driven_developme.Repository.AccountRepository.{anonymized, close_row}
use ai_spec_driven_developme.Repository.Insert.{
  check_transfer_texts, checked_or_null, has_key, has_entry_id, has_notification_id,
  has_transfer_id, insert_account, insert_audit, insert_notification, insert_transfer,
  store_amounts, store_fees, store_transfer,
}
use ai_spec_driven_developme.Session.Columns.{checked, stored, stored_or_null}
use ai_spec_driven_developme.Repository.AccountRepository.Laws.{
  close_row-result, insert_account-Inserted,
}
use ai_spec_driven_developme.Session.Rows.{is_numbered, with_balance}
use ai_spec_driven_developme.Repository.TransferRepository.StatusUpdate.{with_status}

insert_audit-Grown :
    (e : Engine) (entry : AuditLogEntry) (db db' : Db)
    → insert_audit e entry db ≡ ok db'
    → Grown db db'
unfolding insert_audit
insert_audit-Grown e entry db db' h =
    let (_, _, h1) = >>=-eq-ok (checked e 30 (operation_type_value entry.operation_type)) _ h in
    let (_, _, h2) = >>=-eq-ok (checked_or_null e 3 entry.currency) _ h1 in
    let (_, _, h3) = >>=-eq-ok (checked e 20 entry.outcome) _ h2 in
    let (amount, _, h4) = >>=-eq-ok (stored_or_null e 19 4 entry.amount) _ h3 in
    let (_, _, h5) = >>=-eq-ok (raise_if (any_of (has_entry_id entry.id) db.audit_log) _) _ h4 in
    subst (Grown db) (ok_same _ db' h5) (audit_log_written db (record entry { amount = amount }))

insert_notification-Grown :
    (e : Engine) (n : Notification) (db db' : Db)
    → insert_notification e n db ≡ ok db'
    → Grown db db'
unfolding insert_notification
insert_notification-Grown e n db db' h =
    let (_, _, h1) = >>=-eq-ok (checked e 34 n.recipient_account_number) _ h in
    let (_, _, h2) = >>=-eq-ok (checked e 3 n.source_currency) _ h1 in
    let (_, _, h3) = >>=-eq-ok (checked e 3 n.net_credited_currency) _ h2 in
    let (source_amount, _, h4) = >>=-eq-ok (stored e 19 4 n.source_amount) _ h3 in
    let (net_credited_amount, _, h5) = >>=-eq-ok (stored e 19 4 n.net_credited_amount) _ h4 in
    let (_, _, h6) =
      >>=-eq-ok (raise_if (any_of (has_notification_id n.id) db.notifications) _) _ h5 in
    let (_, _, h7) =
      >>=-eq-ok (raise_if (not (any_of (has_transfer_id n.transfer_id) db.transfers)) _) _ h6 in
    subst (Grown db) (ok_same _ db' h7) (notification_added db _)

insert_account-Grown :
    (e : Engine) (a : Account) (db : Db) (x : Account × Db)
    → insert_account e a db ≡ ok x
    → Grown db x.1
insert_account-Grown e a db x h =
    let w = insert_account-Inserted e a db x h in
    subst (Grown db) (sym w.result) (
      account_added db x.0
        (subst (λ n. any_of (is_numbered n) db.accounts ≡ false) (sym w.number) w.unused))

store_transfer-key :
    (e : Engine) (t : Transfer) {row : Transfer}
    → store_transfer e t ≡ ok row
    → row.idempotency_key ≡ t.idempotency_key
unfolding store_transfer check_transfer_texts store_amounts store_fees
store_transfer-key e t h = ground arith

insert_transfer-Grown :
    (e : Engine) (t : Transfer) (db : Db) (x : Transfer × Db)
    → insert_transfer e t db ≡ ok x
    → Grown db x.1
unfolding insert_transfer
insert_transfer-Grown e t db x h =
    let (row, stored_row, h1) = >>=-eq-ok (store_transfer e t) _ h in
    let (_, _, h2) = >>=-eq-ok (raise_if (any_of (has_transfer_id t.id) db.transfers) _) _ h1 in
    let (_, test, h3) =
      >>=-eq-ok (raise_if (any_of (has_key t.idempotency_key) db.transfers) _) _ h2 in
    let unused = raise_if-eq-ok (any_of (has_key t.idempotency_key) db.transfers) _ test in
    subst (λ (y : Transfer × Db). Grown db y.1) (ok_same _ x h3)
      (transfer_added db row (
        subst (λ n. any_of (has_key n) db.transfers ≡ false)
          (sym (store_transfer-key e t stored_row)) unused))

set_balance-Grown :
    (e : Engine) (number : String) (d : Decimal) (db db' : Db)
    → set_balance e number d db ≡ ok db'
    → Grown db db'
unfolding set_balance
set_balance-Grown e number d db db' h = elim (Option-cases (e.numeric 19 4 d)) [
  | inl p ↦ absurd (ground (arith, rw (set_balance, p) at h))
  | inr (v, p) ↦
      subst (Grown db) (ok_same _ db' (rw (set_balance, p) at h))
        (accounts_updated (with_balance v) (λ a. refl) db number)
]

close_row-Grown :
    (e : Engine) (a : Account) (db db' : Db) → close_row e a db ≡ ok db' → Grown db db'
close_row-Grown e a db db' h =
    subst (Grown db) (close_row-result e a db db' h)
      (accounts_updated (anonymized e) (λ b. refl) db a.account_number)

with_status-lasting :
    (new_status : TransferStatus) (reason : Option String) (t : Transfer)
    → lasting_transfer (with_status new_status reason t) ≡ lasting_transfer t
unfolding with_status
with_status-lasting new_status none t = refl
with_status-lasting new_status (some reason) t = refl

pub writes_grow : (e : Engine) → Writes e Grown
writes_grow e = record {
  order = grown;
  audits = insert_audit-Grown e;
  notifies = insert_notification-Grown e;
  opens = insert_account-Grown e;
  closes = close_row-Grown e;
  pays = set_balance-Grown e;
  records = insert_transfer-Grown e;
  changes_status = λ new_status reason i db.
      transfers_updated (with_status new_status reason) (with_status-lasting new_status reason) db
        i;
  changes_amount =
      λ d i db. transfers_updated (λ t. record t { destination_amount = d }) (λ t. refl) db i;
  reads = λ i now db. reading_recorded db i now;
  pairs = λ pair db. pairs_written db (db.currency_pairs ++ pair ∷ []);
}
