-- ===== src/Api/Transfers.antt =====
-- src/fund_transfer/api/v1/transfers.py
use ai_spec_driven_developme.Prelude.{
  ℕ, String, Bool, ◌||◌, Option, none, length, select, leb, if◌then◌else◌,
}
use ai_spec_driven_developme.Errors.{Error, domain_error, capacity_exceeded_error, ok}
use ai_spec_driven_developme.Models.{Transfer, pending, processing}
use ai_spec_driven_developme.Config.{ExchangeRateConfig, Settings}
use ai_spec_driven_developme.Security.{Claims, caller_of}
use ai_spec_driven_developme.Session.{Engine, Action, pure, query, raise_when, ◌>>=◌, ◌>>◌}
use ai_spec_driven_developme.Repository.TransferRepository.{same_status}
use ai_spec_driven_developme.Service.Retry.{retry_on_deadlock}
use ai_spec_driven_developme.Service.TransferService.{CreateTransferRequest, execute_transfer}
use ai_spec_driven_developme.Service.CrossCurrencyTransferService.{
  CrossCurrencyTransferResponse, initiate, get_status,
}
use ai_spec_driven_developme.Service.CrossCurrencyTransferService.Validation.{
  CrossCurrencyTransferRequest,
}

-- `Transfer.status.in_(["pending", "processing"])`
abbrev pub is_in_flight : Transfer → Bool
is_in_flight t = same_status t.status pending || same_status t.status processing

unfoldable pub check_transfer_capacity : Action (Unit {0})
check_transfer_capacity = do
  count ← query (λ db. ok (length (select is_in_flight db.transfers)))
  raise_when (leb 500 count) (domain_error capacity_exceeded_error none)

-- A response: its status, the header X-Idempotency-Replay, and the content.
pub record Reply (A : Type 0) : Type 0 where
  pub http_status : ℕ
  pub replay : Bool
  pub content : A

abbrev pub reply_to : {A : Type 0} → A × Bool → Reply A
reply_to (content, is_replay) = record {
  http_status = if is_replay then 200 else 201;
  replay = is_replay;
  content = content;
}

unfoldable pub create_transfer :
    Engine
    → (is_deadlock : Error → Bool) → ExchangeRateConfig
    → CreateTransferRequest
    → (idempotency_key : String) → Claims
    → (request_id : Option String) → Action (Reply Transfer)
create_transfer e is_deadlock fx request idempotency_key claims request_id = do
  result ←
      retry_on_deadlock is_deadlock
        (execute_transfer e fx request (caller_of claims) idempotency_key request_id)
  pure (reply_to result)

-- The dependency `check_transfer_capacity` runs first, on the same session.
unfoldable pub create_cross_currency_transfer :
    Engine
    → Settings
    → CrossCurrencyTransferRequest
    → (idempotency_key : String) → Claims
    → (request_id : Option String) → Action (Reply CrossCurrencyTransferResponse)
create_cross_currency_transfer e settings request idempotency_key claims request_id = do
  check_transfer_capacity
  result ← initiate e settings request (caller_of claims) idempotency_key request_id
  pure (reply_to result)

unfoldable pub get_cross_currency_transfer_status :
    ℕ → Claims → Action CrossCurrencyTransferResponse
get_cross_currency_transfer_status transfer_id claims = get_status transfer_id (caller_of claims)
