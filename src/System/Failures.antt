-- ===== src/System/Failures.antt =====
-- A request that is not answered with success leaves every table as it was.
use ai_spec_driven_developme.Api.App.{
  App, Endpoint, HttpRequest, HttpResponse, authorized, call_endpoint, create_account, get_account,
  delete_account, create_transfer, create_cross_currency_transfer,
  get_cross_currency_transfer_status, get_rate_table, handle, list_notifications,
  mark_notification_read, preview_conversion, respond, with_body,
}
use ai_spec_driven_developme.Session.{Action, Session, continue, pure, ◌>>=◌}
use ai_spec_driven_developme.Prelude.{
  Bool, Option, String, arith, false, leb, refl, true, ℕ, ◌≡◌, subst,
}
use ai_spec_driven_developme.Security.{
  Claims, caller_of, Authentication, authenticated, get_current_user, raised,
}
use ai_spec_driven_developme.Api.Fx.{ConversionPreviewRequest}
use ai_spec_driven_developme.Service.AccountService.{CreateAccountRequest, validate_opening_balance}
use ai_spec_driven_developme.Service.TransferService.{
  CreateTransferRequest, execute_transfer, validate_not_self_transfer,
}
use ai_spec_driven_developme.Service.CrossCurrencyTransferService.{
  CrossCurrencyTransferResponse, initiate,
}
use ai_spec_driven_developme.Service.CrossCurrencyTransferService.Validation.{
  CrossCurrencyTransferRequest,
}
use ai_spec_driven_developme.Models.{Transfer}
use ai_spec_driven_developme.Errors.{Result, err, ok}
use ai_spec_driven_developme.Session.Undoes.{
  Undoes, Undoes-after_reading, Undoes-Keeps, Undoes-then_pure, Undoes-transaction,
}
use ai_spec_driven_developme.Service.Retry.Undone.{Undoes-retry_on_deadlock}
use ai_spec_driven_developme.Api.Transfers.{check_transfer_capacity, reply_to, Reply}
use ai_spec_driven_developme.Service.AccountService.Creation.{create_account-eq-err}
use ai_spec_driven_developme.Service.AccountService.Deletion.{delete_account-eq-err}
use ai_spec_driven_developme.Service.TransferService.Settlement.{execute_transfer-eq-err}
use ai_spec_driven_developme.Api.ErrorHandler.{handle_error}
use ai_spec_driven_developme.Service.CrossCurrencyTransferService.Settlement.{initiate-eq-err}
use ai_spec_driven_developme.Session.Laws.{after_bind, ok-injective}
use ai_spec_driven_developme.Service.Retry.{retry_on_deadlock}
use ai_spec_driven_developme.System.Readings.{
  check_transfer_capacity-Keeps, get_account-Keeps, get_rate_table-Keeps, get_status-Keeps,
  list_notifications-Keeps, preview_conversion-Keeps,
}
use ai_spec_driven_developme.Service.NotificationService
use ai_spec_driven_developme.Api.Accounts
use ai_spec_driven_developme.Api.Transfers
use ai_spec_driven_developme.Api.Fx
use ai_spec_driven_developme.Api.Notifications

-- An action that answers: it undoes what it did when it raises, and when it answers with a failure.
record Answers (m : Action HttpResponse) : Type 0 where
  pub at :
      (request_id : Option String) (s : Session)
      → leb 400 (respond request_id (m s)).0.status_code ≡ true
      → (respond request_id (m s)).1.db ≡ s.db

Answers-operation :
    {A : Type 0} (m : Action A) (reply : A → HttpResponse)
    → Undoes m
    → ((s t : Session) (a : A) → m s ≡ (ok a, t) → leb 400 (reply a).status_code ≡ false)
    → Answers (m >>= λ a. pure (reply a))
unfolding respond handle_error
Answers-operation {A} m reply undoes success = record {
  at = λ request_id s h. by_result request_id s (m s) refl h;
}
  where
    by_result :
        (request_id : Option String) (s : Session) (r : Result A × Session)
        → m s ≡ r
        → leb 400 (respond request_id (continue (λ a. pure (reply a)) r)).0.status_code ≡ true
        → (respond request_id (continue (λ a. pure (reply a)) r)).1.db ≡ s.db
    by_result request_id s (ok a, t) p h = absurd (ground (arith, success s t a p))
    by_result request_id s (err x, t) p h = undoes.at s p

respond-same_db :
    (request_id : Option String) (r : Result HttpResponse) (s : Session)
    → (respond request_id (r, s)).1.db ≡ s.db
unfolding respond
respond-same_db request_id (ok response) s = refl
respond-same_db request_id (err x) s = refl

Answers-with_body :
    {A : Type 0} (body : Result A) (endpoint : A → Action HttpResponse)
    → ((a : A) → Answers (endpoint a))
    → Answers (with_body body endpoint)
unfolding respond
Answers-with_body (err x) endpoint answers = record {
  at = λ request_id s h. respond-same_db request_id _ s;
}
Answers-with_body (ok a) endpoint answers = answers a

-- 200 or 201
reply_to-success : {A : Type 0} (result : A × Bool) → leb 400 (reply_to result).http_status ≡ false
reply_to-success (a, true) = refl
reply_to-success (a, false) = refl

replied :
    {A : Type 0} (run : Action (A × Bool)) (s : Session) {t : Session} (reply : Reply A)
    → (run >>= λ result. pure (reply_to result)) s ≡ (ok reply, t)
    → leb 400 reply.http_status ≡ false
replied run s {t} reply h = after_bind _ (run s) h λ result u p q.
    let (same, _) = ok-injective (reply_to result) reply u t q in
    subst (λ r. leb 400 r.http_status ≡ false) same (reply_to-success result)

module _ (app : App) (claims : Claims) (request_id : Option String) where
  create_account-Undoes :
      (request : CreateAccountRequest)
      → Undoes (Accounts.create_account app.engine app.exchange_rates request claims request_id)
  unfolding Accounts.create_account
  create_account-Undoes request = record {
    at = λ s h.
        create_account-eq-err app.engine app.exchange_rates request (caller_of claims) request_id s
          h;
  }

  delete_account-Undoes :
      (number : String) → Undoes (Accounts.delete_account app.engine number claims request_id)
  unfolding Accounts.delete_account
  delete_account-Undoes number = record {
    at = λ s h. delete_account-eq-err app.engine number (caller_of claims) request_id claims s h;
  }

  create_transfer-Undoes :
      (request : CreateTransferRequest) (key : String)
      → Undoes (
          Transfers.create_transfer app.engine app.is_deadlock app.exchange_rates request key claims
            request_id)
  unfolding Transfers.create_transfer
  create_transfer-Undoes request key = Undoes-then_pure _ reply_to (
      Undoes-retry_on_deadlock app.is_deadlock
        (execute_transfer app.engine app.exchange_rates request (caller_of claims) key request_id)
        (record {
          at = λ s h.
              execute_transfer-eq-err app.engine app.exchange_rates request (caller_of claims) key
                request_id s h;
        }))

  create_cross_currency_transfer-Undoes :
      (request : CrossCurrencyTransferRequest) (key : String)
      → Undoes (
          Transfers.create_cross_currency_transfer app.engine app.settings request key claims
            request_id)
  unfolding Transfers.create_cross_currency_transfer
  create_cross_currency_transfer-Undoes request key =
      Undoes-after_reading check_transfer_capacity _ check_transfer_capacity-Keeps (λ _.
        Undoes-then_pure _ reply_to (record {
          at = λ s h.
              initiate-eq-err app.engine app.settings request (caller_of claims) key request_id s h;
        }))

  mark_notification_read-Undoes :
      (i : ℕ) (number : String)
      → Undoes (Notifications.mark_notification_read app.engine i number claims)
  unfolding Notifications.mark_notification_read
  mark_notification_read-Undoes i number =
      Undoes-transaction app.engine (NotificationService.mark_read app.engine i number)

  create_transfer-success :
      (request : CreateTransferRequest) (key : String) (s t : Session) (reply : Reply Transfer)
      → Transfers.create_transfer app.engine app.is_deadlock app.exchange_rates request key claims
          request_id s
        ≡ (ok reply, t)
      → leb 400 reply.http_status ≡ false
  unfolding Transfers.create_transfer
  create_transfer-success request key s t reply h =
      replied
        (retry_on_deadlock app.is_deadlock (
          execute_transfer app.engine app.exchange_rates request (caller_of claims) key request_id))
        s reply h

  create_cross_currency_transfer-success :
      (request : CrossCurrencyTransferRequest) (key : String) (s t : Session)
      (reply : Reply CrossCurrencyTransferResponse)
      → Transfers.create_cross_currency_transfer app.engine app.settings request key claims
          request_id s
        ≡ (ok reply, t)
      → leb 400 reply.http_status ≡ false
  unfolding Transfers.create_cross_currency_transfer
  create_cross_currency_transfer-success request key s t reply h =
      after_bind _ (check_transfer_capacity s) h λ _ u p q.
        replied (initiate app.engine app.settings request (caller_of claims) key request_id) u reply
          q

  call_endpoint-Answers :
      (endpoint : Endpoint) → Answers (call_endpoint app claims request_id endpoint)
  unfolding call_endpoint
  call_endpoint-Answers (create_account request) =
      Answers-with_body (validate_opening_balance request.opening_balance) _
        (λ _. Answers-operation _ _ (create_account-Undoes request) (λ s t a h. refl))
  call_endpoint-Answers (get_account number) =
      Answers-operation _ _
        (Undoes-Keeps (Accounts.get_account number claims) (get_account-Keeps claims number))
        (λ s t a h. refl)
  call_endpoint-Answers (delete_account number) =
      Answers-operation _ _ (delete_account-Undoes number) (λ s t a h. refl)
  call_endpoint-Answers (create_transfer request key) =
      Answers-with_body (validate_not_self_transfer request) _ (λ _.
        Answers-operation _ _ (create_transfer-Undoes request key)
          (create_transfer-success request key))
  call_endpoint-Answers (create_cross_currency_transfer request key) =
      Answers-operation _ _ (create_cross_currency_transfer-Undoes request key)
        (create_cross_currency_transfer-success request key)
  call_endpoint-Answers (get_cross_currency_transfer_status i) =
      Answers-operation _ _
        (Undoes-Keeps (Transfers.get_cross_currency_transfer_status i claims)
          (get_status-Keeps claims i))
        (λ s t a h. refl)
  call_endpoint-Answers get_rate_table =
      Answers-operation _ _ (Undoes-Keeps (Fx.get_rate_table claims) (get_rate_table-Keeps claims))
        (λ s t a h. refl)
  call_endpoint-Answers (preview_conversion request) =
      Answers-operation _ _
        (Undoes-Keeps (Fx.preview_conversion app.settings request claims)
          (preview_conversion-Keeps claims app.settings request))
        (λ s t a h. refl)
  call_endpoint-Answers (list_notifications number unread) =
      Answers-operation _ _
        (Undoes-Keeps (Notifications.list_notifications number unread claims)
          (list_notifications-Keeps claims number unread))
        (λ s t a h. refl)
  call_endpoint-Answers (mark_notification_read i number) =
      Answers-operation _ _ (mark_notification_read-Undoes i number) (λ s t a h. refl)

-- A request whose response has a status of 400 or more, be it that the caller is not known, that the
-- body is refused, that the service refuses or that anything is raised at any point, leaves every
-- table as it was.
pub handle-failed :
    (app : App) (request : HttpRequest) (s : Session)
    → leb 400 (handle app request s).0.status_code ≡ true
    → (handle app request s).1.db ≡ s.db
unfolding handle
handle-failed app request s =
    by_caller (get_current_user app.jwt app.jwt_audience request.credentials)
  where
    by_caller :
        (who : Authentication)
        → leb 400 (authorized app request who s).0.status_code ≡ true
        → (authorized app request who s).1.db ≡ s.db
    by_caller (raised x) h = refl
    by_caller (authenticated claims) h =
        (call_endpoint-Answers app claims request.x_request_id request.endpoint).at
          request.x_request_id s h
