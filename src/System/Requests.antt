-- ===== src/System/Requests.antt =====
-- What the writing operations keep, every run of the service keeps: an order of the tables in which
-- each of them stays or moves on.
use ai_spec_driven_developme.Api.App.{
  App, Endpoint, HttpRequest, HttpResponse, authorized, call_endpoint, create_account, get_account,
  delete_account, create_transfer, create_cross_currency_transfer,
  get_cross_currency_transfer_status, get_rate_table, handle, list_notifications,
  mark_notification_read, preview_conversion, respond, with_body, refused_body, new_session,
}
use ai_spec_driven_developme.Session.{Action, Db, Session, pure, ◌>>=◌}
use ai_spec_driven_developme.Security.{
  Authentication, Claims, authenticated, caller_of, get_current_user, raised,
}
use ai_spec_driven_developme.Service.AccountService.{CreateAccountRequest, validate_opening_balance}
use ai_spec_driven_developme.Service.TransferService.{
  CreateTransferRequest, execute_transfer, validate_not_self_transfer,
}
use ai_spec_driven_developme.Service.CrossCurrencyTransferService.{initiate}
use ai_spec_driven_developme.Service.CrossCurrencyTransferService.Validation.{
  CrossCurrencyTransferRequest,
}
use ai_spec_driven_developme.Decimal.{Decimal}
use ai_spec_driven_developme.Session.Evolves.{
  Evolves, Evolves-bind, Evolves-Keeps, Evolves-pure, Evolves-transaction, Preorder,
}
use ai_spec_driven_developme.Service.Retry.Evolution.{Evolves-retry_on_deadlock}
use ai_spec_driven_developme.Session.Keeps.{Keeps, whole}
use ai_spec_driven_developme.Prelude.{Option, String, arith, refl, subst, sym, ℕ, ◌≡◌}
use ai_spec_driven_developme.System.{Reach, at_time, later, serves, start, starts}
use ai_spec_driven_developme.Errors.{Result, err, ok}
use ai_spec_driven_developme.Api.Transfers.{check_transfer_capacity, reply_to}
use ai_spec_driven_developme.System.Readings.{
  check_transfer_capacity-Keeps, get_account-Keeps, get_rate_table-Keeps, get_status-Keeps,
  list_notifications-Keeps, preview_conversion-Keeps,
}
use ai_spec_driven_developme.Service.AccountService.Deletion.{permitted}
use ai_spec_driven_developme.Api.Startup.{seed_currency_pairs}
use ai_spec_driven_developme.Service.AccountService
use ai_spec_driven_developme.Service.NotificationService
use ai_spec_driven_developme.Api.Accounts
use ai_spec_driven_developme.Api.Transfers
use ai_spec_driven_developme.Api.Fx
use ai_spec_driven_developme.Api.Notifications

-- The writing operations, for the requests that are allowed.
pub record Operations {κ} (app : App) (allowed : Endpoint → Type 0) (R : Db → Db → Type κ)
    : Type κ where
  pub order : Preorder R
  pub creates :
      (request : CreateAccountRequest) (actor : String) (request_id : Option String)
      → allowed (create_account request)
      → {v : Decimal} → validate_opening_balance request.opening_balance ≡ ok v
      → Evolves R
          (AccountService.create_account app.engine app.exchange_rates request actor request_id)
  pub deletes :
      (number actor : String) (claims : Claims) (request_id : Option String)
      → Evolves R (AccountService.delete_account app.engine number actor claims request_id)
  pub transfers :
      (request : CreateTransferRequest) (key caller_id : String) (request_id : Option String)
      → allowed (create_transfer request key)
      → validate_not_self_transfer request ≡ ok request
      → Evolves R (execute_transfer app.engine app.exchange_rates request caller_id key request_id)
  pub exchanges :
      (request : CrossCurrencyTransferRequest) (key caller_id : String) (request_id : Option String)
      → allowed (create_cross_currency_transfer request key)
      → Evolves R (initiate app.engine app.settings request caller_id key request_id)
  pub marks :
      (i : ℕ) (number : String) → Evolves R (NotificationService.mark_read app.engine i number)
  pub seeds : Evolves R (seed_currency_pairs app.engine)

module _ {κ} {app : App} {allowed : Endpoint → Type 0} {R : Db → Db → Type κ}
    (operations : Operations app allowed R) where
  -- An operation, and the response made of what it returns.
  answered :
      {A : Type 0} (m : Action A) (f : A → HttpResponse)
      → Evolves R m
      → Evolves R (m >>= λ a. pure (f a))
  answered m f em = Evolves-bind operations.order m _ em (λ a. Evolves-pure operations.order (f a))

  read_only :
      {A : Type 0} (m : Action A) (f : A → HttpResponse)
      → Keeps whole m
      → Evolves R (m >>= λ a. pure (f a))
  read_only m f k = answered m f (Evolves-Keeps operations.order m k)

  with_body-Evolves :
      {A : Type 0} (body : Result A) (endpoint : A → Action HttpResponse)
      → ((a : A) → body ≡ ok a → Evolves R (endpoint a))
      → Evolves R (with_body body endpoint)
  with_body-Evolves (err x) endpoint evolves =
      Evolves-Keeps operations.order (refused_body x) (record { at = λ s. refl })
  with_body-Evolves (ok a) endpoint evolves = evolves a refl

  same_request :
      (request a : CreateTransferRequest)
      → validate_not_self_transfer request ≡ ok a
      → validate_not_self_transfer request ≡ ok request
  unfolding validate_not_self_transfer
  same_request request a h = ground arith

  create_transfer-Evolves :
      (request : CreateTransferRequest) (key : String) (claims : Claims)
      (request_id : Option String)
      → allowed (create_transfer request key)
      → validate_not_self_transfer request ≡ ok request
      → Evolves R (
          Transfers.create_transfer app.engine app.is_deadlock app.exchange_rates request key claims
            request_id)
  unfolding Transfers.create_transfer
  create_transfer-Evolves request key claims request_id permitted valid =
      Evolves-bind operations.order _ _
        (Evolves-retry_on_deadlock operations.order app.is_deadlock
          (execute_transfer app.engine app.exchange_rates request (caller_of claims) key request_id)
          (operations.transfers request key (caller_of claims) request_id permitted valid))
        (λ result. Evolves-pure operations.order (reply_to result))

  create_cross_currency_transfer-Evolves :
      (request : CrossCurrencyTransferRequest) (key : String) (claims : Claims)
      (request_id : Option String)
      → allowed (create_cross_currency_transfer request key)
      → Evolves R (
          Transfers.create_cross_currency_transfer app.engine app.settings request key claims
            request_id)
  unfolding Transfers.create_cross_currency_transfer
  create_cross_currency_transfer-Evolves request key claims request_id permitted =
      Evolves-bind operations.order check_transfer_capacity _
        (Evolves-Keeps operations.order check_transfer_capacity check_transfer_capacity-Keeps)
        (λ _.
          Evolves-bind operations.order
            (initiate app.engine app.settings request (caller_of claims) key request_id) _
            (operations.exchanges request key (caller_of claims) request_id permitted)
            (λ result. Evolves-pure operations.order (reply_to result)))

  call_endpoint-Evolves :
      (claims : Claims) (request_id : Option String) (endpoint : Endpoint)
      → allowed endpoint
      → Evolves R (call_endpoint app claims request_id endpoint)
  unfolding call_endpoint Accounts.create_account Accounts.delete_account
      Notifications.mark_notification_read
  call_endpoint-Evolves claims request_id (create_account request) permitted =
      with_body-Evolves (validate_opening_balance request.opening_balance) _ (λ v valid.
        answered _ _ (operations.creates request (caller_of claims) request_id permitted valid))
  call_endpoint-Evolves claims request_id (get_account number) permitted =
      read_only (Accounts.get_account number claims) _ (get_account-Keeps claims number)
  call_endpoint-Evolves claims request_id (delete_account number) permitted =
      answered _ _ (operations.deletes number (caller_of claims) claims request_id)
  call_endpoint-Evolves claims request_id (create_transfer request key) permitted =
      with_body-Evolves (validate_not_self_transfer request) _ (λ a valid. answered _ _ (
        create_transfer-Evolves request key claims request_id permitted
          (same_request request a valid)))
  call_endpoint-Evolves claims request_id (create_cross_currency_transfer request key) permitted =
      answered _ _ (create_cross_currency_transfer-Evolves request key claims request_id permitted)
  call_endpoint-Evolves claims request_id (get_cross_currency_transfer_status i) permitted =
      read_only (Transfers.get_cross_currency_transfer_status i claims) _
        (get_status-Keeps claims i)
  call_endpoint-Evolves claims request_id get_rate_table permitted =
      read_only (Fx.get_rate_table claims) _ (get_rate_table-Keeps claims)
  call_endpoint-Evolves claims request_id (preview_conversion request) permitted =
      read_only (Fx.preview_conversion app.settings request claims) _
        (preview_conversion-Keeps claims app.settings request)
  call_endpoint-Evolves claims request_id (list_notifications number unread) permitted =
      read_only (Notifications.list_notifications number unread claims) _
        (list_notifications-Keeps claims number unread)
  call_endpoint-Evolves claims request_id (mark_notification_read i number) permitted =
      answered _ _ (
        Evolves-transaction operations.order app.engine
          (NotificationService.mark_read app.engine i number) (operations.marks i number))

  respond-db :
      (request_id : Option String) (r : Result HttpResponse × Session)
      → (respond request_id r).1.db ≡ r.1.db
  unfolding respond
  respond-db request_id (ok response, s) = refl
  respond-db request_id (err x, s) = refl

  handled :
      (request : HttpRequest) (s : Session)
      → allowed request.endpoint
      → R s.db (handle app request s).1.db
  unfolding handle
  handled request s permitted =
      by_caller (get_current_user app.jwt app.jwt_audience request.credentials)
    where
      by_caller : (who : Authentication) → R s.db (authorized app request who s).1.db
      by_caller (raised x) = operations.order.stays s.db
      by_caller (authenticated claims) =
          subst (R s.db)
            (sym (
              respond-db request.x_request_id
                (call_endpoint app claims request.x_request_id request.endpoint s)))
            ((call_endpoint-Evolves claims request.x_request_id request.endpoint permitted).at s)

-- A run, at whatever times it happens.
pub run {κ} :
    {app : App} {allowed : Endpoint → Type 0} {R : Db → Db → Type κ}
    → ((utcnow db_now : ℕ) → Operations (at_time app utcnow db_now) allowed R)
    → {before after : Db} → Reach app allowed before after
    → R before after
run operations {before = before} start = (operations 0 0).order.stays before
run operations (later earlier (starts draws utcnow db_now)) =
    (operations 0 0).order.composes (run operations earlier)
      ((operations utcnow db_now).seeds.at (new_session _ draws))
run operations (later earlier (serves request draws utcnow db_now permitted)) =
    (operations 0 0).order.composes (run operations earlier)
      (handled (operations utcnow db_now) request (new_session _ draws) permitted)
