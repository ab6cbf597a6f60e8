-- ===== src/System/Writes.antt =====
-- The writes that the repositories make of the tables, as steps of an order: the interface between an
-- order of the tables and the operations of the services.
use ai_spec_driven_developme.Models.{
  Account, AuditLogEntry, CurrencyPair, Notification, OperationType, Transfer, TransferStatus,
}
use ai_spec_driven_developme.Session.{Db, Engine, modify, set_balance}
use ai_spec_driven_developme.Decimal.{Decimal}
use ai_spec_driven_developme.Session.Evolves.{
  Evolves, Evolves-insert, Evolves-modify, Preorder, evolves_rules,
}
use ai_spec_driven_developme.Prelude.{
  List, Option, String, [], arith, none, some, subst, ℕ, ◌++◌, ◌∷◌, ◌≡◌,
}
use ai_spec_driven_developme.Errors.{Result, data_error, err, ok, other_error}
use ai_spec_driven_developme.Repository.AccountRepository.{add_account, close_row}
use ai_spec_driven_developme.Repository.TransferRepository.{add_transfer, write_audit_log}
use ai_spec_driven_developme.Repository.TransferRepository.StatusUpdate.{
  update_transfer, with_status,
}
use ai_spec_driven_developme.Service.CrossCurrencyTransferService.{assign_destination_amount}
use ai_spec_driven_developme.Repository.NotificationRepository.{create_notification, set_read_at}
use ai_spec_driven_developme.Repository.Insert.{
  insert_account, insert_audit, insert_notification, insert_transfer,
}

pub record Writes {κ} (e : Engine) (R : Db → Db → Type κ) : Type κ where
  pub order : Preorder R
  pub audits : (entry : AuditLogEntry) (db db' : Db) → insert_audit e entry db ≡ ok db' → R db db'
  pub notifies : (n : Notification) (db db' : Db) → insert_notification e n db ≡ ok db' → R db db'
  pub opens : (a : Account) (db : Db) (x : Account × Db) → insert_account e a db ≡ ok x → R db x.1
  pub closes : (a : Account) (db db' : Db) → close_row e a db ≡ ok db' → R db db'
  pub pays :
      (number : String) (d : Decimal) (db db' : Db) → set_balance e number d db ≡ ok db' → R db db'
  pub records :
      (t : Transfer) (db : Db) (x : Transfer × Db) → insert_transfer e t db ≡ ok x → R db x.1
  pub changes_status :
      (new_status : TransferStatus) (reason : Option String) (i : ℕ) (db : Db)
      → R db
          (record db { transfers = update_transfer i (with_status new_status reason) db.transfers })
  pub changes_amount :
      (d : Decimal) (i : ℕ) (db : Db)
      → R db (record db {
        transfers = update_transfer i (λ t. record t { destination_amount = d }) db.transfers;
      })
  pub reads :
      (i now : ℕ) (db : Db)
      → R db (record db { notifications = set_read_at i now db.notifications })
  pub pairs :
      (pair : CurrencyPair) (db : Db)
      → R db (record db { currency_pairs = db.currency_pairs ++ pair ∷ [] })

pub ok_same : {A : Type 0} (x y : A) → ◌≡◌ {A = Result A} (ok x) (ok y) → x ≡ y
ok_same x y h = cc

module _ {κ} {e : Engine} {R : Db → Db → Type κ} (w : Writes e R) where
  pub the_order : Preorder R
  the_order = w.order

  pub set_balance-Evolves :
      (number : String) (d : Decimal) → Evolves R (modify (set_balance e number d))
  set_balance-Evolves number d = Evolves-modify w.order (set_balance e number d) (w.pays number d)

  pub close_row-Evolves : (a : Account) → Evolves R (modify (close_row e a))
  close_row-Evolves a = Evolves-modify w.order (close_row e a) (w.closes a)

  -- A write that no column refuses.
  written_always : (f : Db → Db) → ((db : Db) → R db (f db)) → Evolves R (modify (λ db. ok (f db)))
  written_always f step =
      Evolves-modify w.order (λ db. ok (f db))
        (λ db db' h. subst (R db) (ok_same (f db) db' h) (step db))

  pub status-Evolves :
      (new_status : TransferStatus) (reason : Option String) (i : ℕ)
      → Evolves R (
          modify (λ db. ok (record db {
            transfers = update_transfer i (with_status new_status reason) db.transfers;
          })))
  status-Evolves new_status reason i = written_always _ (w.changes_status new_status reason i)

  pub assign_destination_amount-Evolves :
      (i : ℕ) (net : Decimal) → Evolves R (assign_destination_amount e i net)
  unfolding assign_destination_amount
  assign_destination_amount-Evolves i net =
      Evolves-modify w.order _ (λ db db' h. by_column db db' (e.numeric 19 4 net) h)
    where
      by_column :
          (db db' : Db) (o : Option Decimal)
          → elim o as (λ _. Result Db) [
            | none ↦ err (other_error data_error)
            | some d ↦ ok (record db {
              transfers = update_transfer i (λ t. record t { destination_amount = d }) db.transfers;
            })
          ]
            ≡ ok db'
          → R db db'
      by_column db db' none p = absurd (ground arith)
      by_column db db' (some d) p = subst (R db) (ok_same _ db' p) (w.changes_amount d i db)

  pub write_audit_log-Evolves :
      (operation_type : OperationType) (actor : String) (affected : List String)
      (amount : Option Decimal) (currency : Option String) (outcome : String)
      (request_id : Option String)
      → Evolves R
          (write_audit_log e operation_type actor affected amount currency outcome request_id)
  unfolding write_audit_log
  write_audit_log-Evolves operation_type actor affected amount currency outcome request_id =
      search (w.order, evolves_rules, w.audits)

  pub create_notification-Evolves : (n : Notification) → Evolves R (create_notification e n)
  unfolding create_notification
  create_notification-Evolves n = search (w.order, evolves_rules, w.notifies)

  pub add_account-Evolves : (a : Account) → Evolves R (add_account e a)
  unfolding add_account
  add_account-Evolves a = record { at = Evolves-insert w.order (insert_account e a) (w.opens a) }

  pub add_transfer-Evolves : (t : Transfer) → Evolves R (add_transfer e t)
  unfolding add_transfer
  add_transfer-Evolves t = record {
    at = Evolves-insert w.order (insert_transfer e t) (w.records t);
  }

pub ruleset written = (
  evolves_rules, the_order, set_balance-Evolves, close_row-Evolves, status-Evolves,
  assign_destination_amount-Evolves, write_audit_log-Evolves, create_notification-Evolves,
  add_account-Evolves, add_transfer-Evolves,
)
