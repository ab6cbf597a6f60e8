-- ===== src/Api/Notifications.antt =====
-- src/fund_transfer/api/v1/notifications.py. The endpoints need a token and read nothing of it.
use ai_spec_driven_developme.Prelude.{ℕ, String, Bool, List}
use ai_spec_driven_developme.Models.{Notification}
use ai_spec_driven_developme.Security.{Claims}
use ai_spec_driven_developme.Session.{Engine, Action, transaction}
use ai_spec_driven_developme.Service.NotificationService.{list_for_account, mark_read}

unfoldable pub list_notifications :
    (account_number : String) → (unread_only : Bool) → Claims → Action (List Notification)
list_notifications account_number unread_only claims = list_for_account account_number unread_only

unfoldable pub mark_notification_read :
    Engine → (notification_id : ℕ) → (account_number : String) → Claims → Action Notification
mark_notification_read e notification_id account_number claims =
    transaction e (mark_read e notification_id account_number)
