-- ===== src/Service/AccountService.antt =====
-- src/fund_transfer/services/account_service.py, with the validation of
-- schemas/account.py.
pub mod Creation
pub mod Deletion
pub mod Reading
pub mod Opening
pub mod Closing
use ai_spec_driven_developme.Prelude.{String, Option, none, some, if◌then◌else◌}
use ai_spec_driven_developme.Decimal.{Decimal, lt, eq, quantize, round_half_even, zero_decimal}
use ai_spec_driven_developme.Errors.{
  domain_error, other_error, value_error, invalid_operation, validation_error, Result, ok, err,
}
use ai_spec_driven_developme.Models.{Account}
use ai_spec_driven_developme.Config.{ExchangeRateConfig}
use ai_spec_driven_developme.Security.{Claims, require_owner_or_operator}
use ai_spec_driven_developme.Session.{
  Engine, Action, pure, lift, raise_when, transaction, ◌>>=◌, ◌>>◌,
}
use ai_spec_driven_developme.Repository.AccountRepository.{create, get_active_by_account_number}
use ai_spec_driven_developme.Repository.AccountRepository
use ai_spec_driven_developme.Service.ExchangeRateService.{validate_currency}

pub record CreateAccountRequest : Type 0 where
  pub owner_id : String
  pub currency : String
  pub opening_balance : Decimal

abbrev same_or_raise : Decimal → Option Decimal → Result Decimal
same_or_raise v none = err (other_error invalid_operation)
same_or_raise v (some q) = if eq v q then ok v else err (other_error value_error)

-- `CreateAccountRequest.validate_opening_balance`
unfoldable pub validate_opening_balance : Decimal → Result Decimal
validate_opening_balance v =
    if lt v zero_decimal
    then err (other_error value_error)
    else same_or_raise v (quantize round_half_even 4 v)

unfoldable pub create_account :
    Engine
    → ExchangeRateConfig
    → CreateAccountRequest
    → (actor_identity : String) → (request_id : Option String) → Action Account
create_account e fx request actor_identity request_id = do
  lift (validate_currency fx request.currency)
  raise_when (lt request.opening_balance zero_decimal) (domain_error validation_error none)
  transaction e
      (create e request.owner_id request.currency request.opening_balance actor_identity request_id)

unfoldable pub get_account : (account_number : String) → Claims → Action Account
get_account account_number claims = do
  account ← get_active_by_account_number account_number
  lift (require_owner_or_operator account.owner_id claims)
  pure account

unfoldable pub delete_account :
    Engine
    → (account_number actor_identity : String) → Claims
    → (request_id : Option String) → Action (Unit {0})
delete_account e account_number actor_identity claims request_id = do
  account ← get_active_by_account_number account_number
  lift (require_owner_or_operator account.owner_id claims)
  transaction e (AccountRepository.delete_account e account_number actor_identity request_id)
