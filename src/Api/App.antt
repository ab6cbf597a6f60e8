-- ===== src/Api/App.antt =====
-- The application of src/fund_transfer/main.py: its routes (src/fund_transfer/api/v1/router.py) with
-- their dependencies, and the exception handlers round them.
use ai_spec_driven_developme.Prelude.{ℕ, String, Bool, true, false, Option, List, if◌then◌else◌}
use ai_spec_driven_developme.Errors.{Error, Result, ok, err, other_error, value_error}
use ai_spec_driven_developme.Models.{Account, Transfer, Notification}
use ai_spec_driven_developme.Config.{ExchangeRateConfig, Settings}
use ai_spec_driven_developme.Security.{
  Claims, Jwt, HttpException, Authentication, authenticated, raised, get_current_user,
}
use ai_spec_driven_developme.Session.{Engine, Db, Session, Action, pure, ◌>>=◌, ◌>>◌}
use ai_spec_driven_developme.Service.AccountService.{CreateAccountRequest, validate_opening_balance}
use ai_spec_driven_developme.Service.TransferService.{
  CreateTransferRequest, validate_not_self_transfer,
}
use ai_spec_driven_developme.Service.CrossCurrencyTransferService.{CrossCurrencyTransferResponse}
use ai_spec_driven_developme.Service.CrossCurrencyTransferService.Validation.{
  CrossCurrencyTransferRequest,
}
use ai_spec_driven_developme.Service.FxRateService.{RateTableResponse, ConversionPreviewResponse}
use ai_spec_driven_developme.Api.ErrorHandler.{ErrorResponse, handle_error}
use ai_spec_driven_developme.Api.Accounts
use ai_spec_driven_developme.Api.Transfers
use ai_spec_driven_developme.Api.Transfers.{Reply}
use ai_spec_driven_developme.Api.Fx
use ai_spec_driven_developme.Api.Fx.{ConversionPreviewRequest}
use ai_spec_driven_developme.Api.Notifications

pub record App : Type 0 where
  pub engine : Engine
  pub jwt : Jwt
  pub jwt_audience : String
  pub settings : Settings
  pub exchange_rates : ExchangeRateConfig
  pub is_deadlock : Error → Bool

-- The routes, with what a request gives in its path, query, headers and body, of the declared types:
-- an idempotency key of a wrong length is refused before.
pub data Endpoint : Type 0 where
  create_account : CreateAccountRequest → Endpoint
  get_account : (account_number : String) → Endpoint
  delete_account : (account_number : String) → Endpoint
  create_transfer : CreateTransferRequest → (idempotency_key : String) → Endpoint
  create_cross_currency_transfer :
      CrossCurrencyTransferRequest → (idempotency_key : String) → Endpoint
  get_cross_currency_transfer_status : (transfer_id : ℕ) → Endpoint
  get_rate_table : Endpoint
  preview_conversion : ConversionPreviewRequest → Endpoint
  list_notifications : (account_number : String) → (unread_only : Bool) → Endpoint
  mark_notification_read : (notification_id : ℕ) → (account_number : String) → Endpoint

pub record HttpRequest : Type 0 where
  pub endpoint : Endpoint
  pub credentials : Option String
  pub x_request_id : Option String

pub data Content : Type 0 where
  account_content : Account → Content
  no_content : Content
  transfer_content : (is_replay : Bool) → Transfer → Content
  cross_currency_transfer : (is_replay : Bool) → CrossCurrencyTransferResponse → Content
  transfer_status : CrossCurrencyTransferResponse → Content
  rate_table : RateTableResponse → Content
  conversion_preview : ConversionPreviewResponse → Content
  notification_list : List Notification → Content
  notification_content : Notification → Content
  error_response : ErrorResponse → Content
  http_exception : HttpException → Content
  -- FastAPI's answer to a body that a validator refuses.
  validation_errors : Content

pub record HttpResponse : Type 0 where
  pub status_code : ℕ
  pub content : Content

abbrev pub answer : ℕ → Content → HttpResponse
answer status_code content = record { status_code = status_code; content = content }

abbrev is_value_error : Error → Bool
is_value_error (other_error value_error) = true
is_value_error _ = false

-- What pydantic makes of an error in a validator: a ValueError is among the validation errors, any
-- other exception is passed on, as the InvalidOperation of a `quantize`.
abbrev pub refused_body : Error → Action HttpResponse
refused_body x s = (if is_value_error x then ok (answer 422 validation_errors) else err x, s)

-- A body is validated before the endpoint is called.
abbrev pub with_body : {A : Type 0} → Result A → (A → Action HttpResponse) → Action HttpResponse
with_body (err x) endpoint = refused_body x
with_body (ok body) endpoint = endpoint body

-- The call of the endpoint, with the claims of the caller.
unfoldable pub call_endpoint : App → Claims → Option String → Endpoint → Action HttpResponse
call_endpoint app claims request_id (create_account request) =
    with_body (validate_opening_balance request.opening_balance) λ _. do
      created ← Accounts.create_account app.engine app.exchange_rates request claims request_id
      pure (answer 201 (account_content created))
call_endpoint app claims request_id (get_account account_number) = do
  found ← Accounts.get_account account_number claims
  pure (answer 200 (account_content found))
call_endpoint app claims request_id (delete_account account_number) = do
  Accounts.delete_account app.engine account_number claims request_id
  pure (answer 204 no_content)
call_endpoint app claims request_id (create_transfer request idempotency_key) =
    with_body (validate_not_self_transfer request) λ _. do
      reply ←
          Transfers.create_transfer app.engine app.is_deadlock app.exchange_rates request
            idempotency_key claims request_id
      pure (answer reply.http_status (transfer_content reply.replay reply.content))
call_endpoint app claims request_id (create_cross_currency_transfer request idempotency_key) = do
  reply ←
      Transfers.create_cross_currency_transfer app.engine app.settings request idempotency_key
        claims request_id
  pure (answer reply.http_status (cross_currency_transfer reply.replay reply.content))
call_endpoint app claims request_id (get_cross_currency_transfer_status transfer_id) = do
  response ← Transfers.get_cross_currency_transfer_status transfer_id claims
  pure (answer 200 (transfer_status response))
call_endpoint app claims request_id get_rate_table = do
  response ← Fx.get_rate_table claims
  pure (answer 200 (rate_table response))
call_endpoint app claims request_id (preview_conversion request) = do
  response ← Fx.preview_conversion app.settings request claims
  pure (answer 200 (conversion_preview response))
call_endpoint app claims request_id (list_notifications account_number unread_only) = do
  found ← Notifications.list_notifications account_number unread_only claims
  pure (answer 200 (notification_list found))
call_endpoint app claims request_id (mark_notification_read notification_id account_number) = do
  read ← Notifications.mark_notification_read app.engine notification_id account_number claims
  pure (answer 200 (notification_content read))

-- `get_session`: a request has a session of its own, on the tables as committed.
abbrev pub new_session : Db → ℕ → Session
new_session db draws = record { db = db; in_transaction = false; draws = draws }

-- The registered handlers turn what is raised into a response.
unfoldable pub respond : Option String → Result HttpResponse × Session → HttpResponse × Session
respond request_id (ok response, s) = (response, s)
respond request_id (err x, s) =
    let e = handle_error request_id x in (answer e.status_code (error_response e), s)

abbrev pub authorized : App → HttpRequest → Authentication → Session → HttpResponse × Session
authorized app request (raised x) s = (answer x.status_code (http_exception x), s)
authorized app request (authenticated claims) s =
    respond request.x_request_id (call_endpoint app claims request.x_request_id request.endpoint s)

-- One request, from the dependency `get_auth_principal` on.
unfoldable pub handle : App → HttpRequest → Session → HttpResponse × Session
unfolding respond call_endpoint
handle app request s =
    authorized app request (get_current_user app.jwt app.jwt_audience request.credentials) s
