-- ===== src/System/Readings.antt =====
-- The endpoints that only read, and the tests before a transfer.
use ai_spec_driven_developme.Prelude.{Bool, String, ℕ}
use ai_spec_driven_developme.Security.{Claims}
use ai_spec_driven_developme.Api.Fx.{ConversionPreviewRequest}
use ai_spec_driven_developme.Decimal.{Decimal}
use ai_spec_driven_developme.Models.{FxRateSnapshot}
use ai_spec_driven_developme.Session.Keeps.{
  Keeps, Keeps-bind, Keeps-if, Keeps-lift, Keeps-pure, Keeps-query, Keeps-raise_when, Keeps-read,
  whole,
}
use ai_spec_driven_developme.Config.{Settings}
use ai_spec_driven_developme.Api.Transfers.{check_transfer_capacity}
use ai_spec_driven_developme.Repository.AccountRepository.{get_active_by_account_number}
use ai_spec_driven_developme.Repository.FxRateRepository.{
  get_active_currency_pairs, get_latest_snapshot,
}
use ai_spec_driven_developme.Service.CrossCurrencyTransferService.{get_status}
use ai_spec_driven_developme.Repository.TransferRepository.{get_transfer_by_id}
use ai_spec_driven_developme.Service.FxRateService.{preview_of}
use ai_spec_driven_developme.Service.AccountService
use ai_spec_driven_developme.Service.FxRateService
use ai_spec_driven_developme.Service.NotificationService
use ai_spec_driven_developme.Repository.NotificationRepository
use ai_spec_driven_developme.Api.Accounts
use ai_spec_driven_developme.Api.Transfers
use ai_spec_driven_developme.Api.Fx
use ai_spec_driven_developme.Api.Notifications

ruleset readings =
    (Keeps-pure, Keeps-lift, Keeps-query, Keeps-read, Keeps-if, Keeps-raise_when, Keeps-bind)

pub check_transfer_capacity-Keeps : Keeps whole check_transfer_capacity
unfolding check_transfer_capacity
check_transfer_capacity-Keeps = search readings

module _ (claims : Claims) where
  pub get_account-Keeps : (number : String) → Keeps whole (Accounts.get_account number claims)
  unfolding Accounts.get_account AccountService.get_account get_active_by_account_number
  get_account-Keeps number = search readings

  pub get_status-Keeps :
      (i : ℕ) → Keeps whole (Transfers.get_cross_currency_transfer_status i claims)
  unfolding Transfers.get_cross_currency_transfer_status get_status get_transfer_by_id
  get_status-Keeps i = search readings

  pub get_rate_table-Keeps : Keeps whole (Fx.get_rate_table claims)
  unfolding Fx.get_rate_table FxRateService.get_rate_table get_latest_snapshot
      get_active_currency_pairs
  get_rate_table-Keeps = search readings

  preview_of-Keeps :
      (settings : Settings) (snapshot : FxRateSnapshot) (from : String) (amount rate : Decimal)
      → Keeps whole (preview_of settings snapshot from amount rate)
  unfolding preview_of
  preview_of-Keeps settings snapshot from amount rate = search readings depth 20

  pub preview_conversion-Keeps :
      (settings : Settings) (request : ConversionPreviewRequest)
      → Keeps whole (Fx.preview_conversion settings request claims)
  unfolding Fx.preview_conversion FxRateService.preview_conversion get_latest_snapshot
      get_active_currency_pairs
  preview_conversion-Keeps settings request = search (readings, preview_of-Keeps) depth 20

  pub list_notifications-Keeps :
      (number : String) (unread : Bool)
      → Keeps whole (Notifications.list_notifications number unread claims)
  unfolding Notifications.list_notifications NotificationService.list_for_account
      NotificationRepository.list_for_account
  list_notifications-Keeps number unread = search readings
