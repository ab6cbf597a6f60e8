-- ===== src/Tests/Accounts.antt =====
-- Opening an account.
use ai_spec_driven_developme.Service.AccountService.Opening.{create_account-get_account, may_read}
use ai_spec_driven_developme.Errors.{forbidden_error}
use ai_spec_driven_developme.Prelude.{if◌then◌else◌}
use ai_spec_driven_developme.Security.{is_operator, require_owner_or_operator, Claims}
use ai_spec_driven_developme.Tests.Setup.{alice}
use ai_spec_driven_developme.Service.AccountService.{get_account}
use ai_spec_driven_developme.Service.AccountService.Reading.{Read, get_account-Read}
use ai_spec_driven_developme.Repository.TransferRepository.{write_audit_log}
use ai_spec_driven_developme.Repository.Insert.{insert_audit, insert_account}
use ai_spec_driven_developme.Session.Rows.{rows}
use ai_spec_driven_developme.Repository.AccountRepository.{
  get_active_by_account_number, add_account, find_unused_number, create,
}
use ai_spec_driven_developme.Prelude.{lookup, select, true, [], ◌∷◌, any_of, ◌≡◌, refl, false, none}
use ai_spec_driven_developme.Decimal.{literal, lt, zero_decimal}
use ai_spec_driven_developme.Errors.{ok, err, domain_error}
use ai_spec_driven_developme.Models.{Account}
use ai_spec_driven_developme.Session.{transaction, Session}
use ai_spec_driven_developme.Tests.Setup.{engine, config, tables, session, account, column}
use ai_spec_driven_developme.Service.ExchangeRateService.{validate_currency}
use ai_spec_driven_developme.Service.AccountService.{CreateAccountRequest, create_account}
use ai_spec_driven_developme.Service.AccountService.Creation.{Added, create_account-Added}

-- Erin opens an account with 25.50 EUR.
abbrev opening : CreateAccountRequest
opening = record { owner_id = "erin"; currency = "EUR"; opening_balance = literal 255 1 }

abbrev opened : Account
opened = account 101 "ACCT-A1B2C3D4E5F6" "erin" "EUR" 255000

abbrev after_opening : Session
after_opening = (create_account engine config opening "erin" none session).1

run_opening : create_account engine config opening "erin" none session ≡ (ok opened, after_opening)
unfolding create_account validate_currency any_of lt transaction create find_unused_number rows
    add_account insert_account column write_audit_log insert_audit
run_opening = refl

create_account-Added_example :
    (validate_currency config "EUR" ≡ ok tt)
    × (lt (literal 255 1) zero_decimal ≡ false)
    × Added engine "erin" "EUR" (literal 255 1) tables opened after_opening.db
create_account-Added_example =
    create_account-Added engine config opening "erin" none session run_opening

abbrev operator_claims : Claims
operator_claims = ("sub", "olga") ∷ ("role", "operator") ∷ []

create_account-get_account_example :
    get_account "ACCT-A1B2C3D4E5F6" operator_claims after_opening ≡ (
      if may_read "erin" operator_claims
          then ok opened
          else err (domain_error forbidden_error none),
      record after_opening { in_transaction = true },
    )
create_account-get_account_example =
    create_account-get_account engine config opening "erin" none session run_opening operator_claims
      after_opening refl

-- An operator reads Alice's account.
run_read :
    get_account "ACC-ALICE" operator_claims session
    ≡ (ok alice, record session { in_transaction = true })
unfolding get_account get_active_by_account_number select rows require_owner_or_operator lookup
    is_operator
run_read = refl

get_account-Read_example :
    Read "ACC-ALICE" operator_claims session alice (record session { in_transaction = true })
get_account-Read_example = get_account-Read "ACC-ALICE" operator_claims session run_read
