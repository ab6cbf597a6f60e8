-- ===== src/Service/NotificationService.antt =====
-- src/fund_transfer/services/notification_service.py
pub mod Reading
use ai_spec_driven_developme.Prelude.{
  ℕ, String, Bool, Option, none, some, List, [], ◌∷◌, str_eq, if◌then◌else◌,
}
use ai_spec_driven_developme.Models.{
  Account, Transfer, Notification, Direction, sent, received, notification_delivered,
}
use ai_spec_driven_developme.Session.{Engine, Action, new_id, ◌>>=◌, ◌>>◌}
use ai_spec_driven_developme.Repository.NotificationRepository.{create_notification}
use ai_spec_driven_developme.Repository.NotificationRepository
use ai_spec_driven_developme.Repository.TransferRepository.{write_audit_log}

abbrev pub notification_for : Engine → ℕ → Transfer → Account → Direction → Notification
notification_for e id transfer account direction = record {
  id = id;
  recipient_account_number = account.account_number;
  transfer_id = transfer.id;
  direction = direction;
  source_amount = transfer.source_amount;
  source_currency = transfer.source_currency;
  net_credited_amount = transfer.destination_amount;
  net_credited_currency = transfer.destination_currency;
  read_at = none;
  created_at = e.db_now;
}

-- `actor_identity or transfer.caller_id`: None and the empty text fall back.
abbrev actor_or_caller : Option String → Transfer → String
actor_or_caller none transfer = transfer.caller_id
actor_or_caller (some actor) transfer = if str_eq actor "" then transfer.caller_id else actor

-- One round of the loop.
unfoldable pub deliver :
    Engine
    → Transfer
    → Notification
    → (actor_identity request_id : Option String) → Action (Unit {0})
deliver e transfer n actor_identity request_id = do
  create_notification e n
  write_audit_log e notification_delivered (actor_or_caller actor_identity transfer)
      (n.recipient_account_number ∷ []) (some n.net_credited_amount) (some n.net_credited_currency)
      "success" request_id

unfoldable pub create_transfer_notifications :
    Engine
    → Transfer
    → (sender_account recipient_account : Account) → (actor_identity request_id : Option String)
    → Action (Unit {0})
create_transfer_notifications e transfer sender recipient actor_identity request_id = do
  sent_id ← new_id e
  received_id ← new_id e
  deliver e transfer (notification_for e sent_id transfer sender sent) actor_identity request_id
  deliver e transfer (notification_for e received_id transfer recipient received) actor_identity
      request_id

unfoldable pub list_for_account :
    (account_number : String) → (unread_only : Bool) → Action (List Notification)
list_for_account account_number unread_only =
    NotificationRepository.list_for_account account_number unread_only

unfoldable pub mark_read :
    Engine → (notification_id : ℕ) → (account_number : String) → Action Notification
mark_read e notification_id account_number =
    NotificationRepository.mark_read e notification_id account_number
