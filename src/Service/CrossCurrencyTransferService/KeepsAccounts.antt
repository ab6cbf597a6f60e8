-- ===== src/Service/CrossCurrencyTransferService/KeepsAccounts.antt =====
-- Which steps of a cross-currency transfer leave the accounts alone.
use ai_spec_driven_developme.Prelude.{ℕ, String, ◌≡◌, Option, none, some, List, arith}
use ai_spec_driven_developme.Decimal.{Decimal}
use ai_spec_driven_developme.Errors.{ok}
use ai_spec_driven_developme.Models.{
  Transfer, TransferStatus, pending, processing, completed, failed, rejected, AuditLogEntry,
  OperationType, Notification,
}
use ai_spec_driven_developme.Config.{Settings}
use ai_spec_driven_developme.Session.{Engine, Db}
use ai_spec_driven_developme.Session.Keeps.{Keeps, keeps_rules, accounts_of}
use ai_spec_driven_developme.Repository.Insert.{insert_transfer, insert_audit, insert_notification}
use ai_spec_driven_developme.Repository.NotificationRepository.{create_notification}
use ai_spec_driven_developme.Repository.TransferRepository.{
  CrossCurrencyArguments, add_transfer, write_audit_log, create_cross_currency_transfer,
  get_transfer_by_id,
}
use ai_spec_driven_developme.Repository.TransferRepository.StatusUpdate.{
  update_transfer_status, set_status, audit_status,
}
use ai_spec_driven_developme.Service.NotificationService.{deliver, create_transfer_notifications}
use ai_spec_driven_developme.Service.CrossCurrencyTransferService.{
  aml_kyc_check, notify, assign_destination_amount,
}
use ai_spec_driven_developme.Service.CrossCurrencyTransferService.Validation.{Plan}

pub insert_audit-accounts :
    (e : Engine) (entry : AuditLogEntry) (db db' : Db)
    → insert_audit e entry db ≡ ok db'
    → accounts_of db' ≡ accounts_of db
unfolding insert_audit
insert_audit-accounts e entry db db' h = ground arith

pub insert_notification-accounts :
    (e : Engine) (n : Notification) (db db' : Db)
    → insert_notification e n db ≡ ok db'
    → accounts_of db' ≡ accounts_of db
unfolding insert_notification
insert_notification-accounts e n db db' h = ground arith

pub write_audit_log-Keeps :
    (e : Engine) (operation_type : OperationType) (actor : String) (affected : List String)
    (amount : Option Decimal) (currency : Option String) (outcome : String)
    (request_id : Option String)
    → Keeps accounts_of
        (write_audit_log e operation_type actor affected amount currency outcome request_id)
unfolding write_audit_log
write_audit_log-Keeps e operation_type actor affected amount currency outcome request_id =
    search (keeps_rules, insert_audit-accounts)

add_transfer-Keeps : (e : Engine) (row : Transfer) → Keeps accounts_of (add_transfer e row)
unfolding add_transfer insert_transfer
add_transfer-Keeps e row = record { at = λ s. ground arith }

ruleset kept = (keeps_rules, write_audit_log-Keeps, add_transfer-Keeps)

pub create_cross_currency_transfer-Keeps :
    (e : Engine) (a : CrossCurrencyArguments)
    → Keeps accounts_of (create_cross_currency_transfer e a)
unfolding create_cross_currency_transfer
create_cross_currency_transfer-Keeps e a = search kept

audit_status-Keeps :
    (e : Engine) (request_id : Option String) (new_status : TransferStatus) (t : Transfer)
    → Keeps accounts_of (audit_status e request_id new_status t)
unfolding audit_status
audit_status-Keeps e request_id pending t = search kept
audit_status-Keeps e request_id processing t = search kept
audit_status-Keeps e request_id completed t = search kept
audit_status-Keeps e request_id failed t = search kept
audit_status-Keeps e request_id rejected t = search kept

set_status-Keeps :
    (e : Engine) (new_status : TransferStatus) (reason request_id : Option String)
    (found : Option Transfer)
    → Keeps accounts_of (set_status e new_status reason request_id found)
unfolding set_status
set_status-Keeps e new_status reason request_id none = search kept
set_status-Keeps e new_status reason request_id (some t) = search (kept, audit_status-Keeps)

pub update_transfer_status-Keeps :
    (e : Engine) (id : ℕ) (new_status : TransferStatus) (reason request_id : Option String)
    → Keeps accounts_of (update_transfer_status e id new_status reason request_id)
unfolding update_transfer_status get_transfer_by_id
update_transfer_status-Keeps e id new_status reason request_id = search (kept, set_status-Keeps)

deliver-Keeps :
    (e : Engine) (t : Transfer) (n : Notification) (actor request_id : Option String)
    → Keeps accounts_of (deliver e t n actor request_id)
unfolding deliver create_notification
deliver-Keeps e t n actor request_id = search (kept, insert_notification-accounts)

pub notify-Keeps :
    (e : Engine) (t : Transfer) (plan : Plan) (caller_id : String) (request_id : Option String)
    → Keeps accounts_of (notify e t plan caller_id request_id)
unfolding notify create_transfer_notifications
notify-Keeps e t plan caller_id request_id = search (kept, deliver-Keeps)

pub aml_kyc_check-Keeps :
    (e : Engine) (settings : Settings) (t : Transfer) (plan : Plan) (request_id : Option String)
    → Keeps accounts_of (aml_kyc_check e settings t plan request_id)
unfolding aml_kyc_check
aml_kyc_check-Keeps e settings t plan request_id = search kept

pub assign_destination_amount-Keeps :
    (e : Engine) (id : ℕ) (amount : Decimal)
    → Keeps accounts_of (assign_destination_amount e id amount)
unfolding assign_destination_amount
assign_destination_amount-Keeps e id amount = record { at = λ s. ground arith }
