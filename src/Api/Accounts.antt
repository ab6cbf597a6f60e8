-- ===== src/Api/Accounts.antt =====
-- src/fund_transfer/api/v1/accounts.py
use ai_spec_driven_developme.Prelude.{String, Option}
use ai_spec_driven_developme.Models.{Account}
use ai_spec_driven_developme.Config.{ExchangeRateConfig}
use ai_spec_driven_developme.Security.{Claims, caller_of}
use ai_spec_driven_developme.Session.{Engine, Action}
use ai_spec_driven_developme.Service.AccountService.{CreateAccountRequest}
use ai_spec_driven_developme.Service.AccountService

unfoldable pub create_account :
    Engine
    → ExchangeRateConfig
    → CreateAccountRequest
    → Claims
    → (request_id : Option String) → Action Account
create_account e fx request claims request_id =
    AccountService.create_account e fx request (caller_of claims) request_id

unfoldable pub get_account : (account_number : String) → Claims → Action Account
get_account account_number claims = AccountService.get_account account_number claims

unfoldable pub delete_account :
    Engine → (account_number : String) → Claims → (request_id : Option String) → Action (Unit {0})
delete_account e account_number claims request_id =
    AccountService.delete_account e account_number (caller_of claims) claims request_id
