-- ===== src/Repository/AccountRepository.antt =====
-- src/fund_transfer/repositories/account_repository.py
pub mod Laws
use Prim.Native.String.{◌++◌, slice}
use ai_spec_driven_developme.Prelude.{
  ℕ, zero, suc, ◌+◌, String, Bool, true, false, not, ◌&&◌, select, if◌then◌else◌, Option, none,
  some, [], ◌∷◌,
}
use ai_spec_driven_developme.Decimal.{Decimal, eq, zero_decimal}
use ai_spec_driven_developme.Errors.{
  Error, domain_error, other_error, not_found_error, account_has_balance_error, data_error, Result,
  ok, err, or_raise,
}
use ai_spec_driven_developme.Models.{Account, active, closed, account_created, account_deleted}
use ai_spec_driven_developme.Session.{
  Engine, Db, Session, Action, pure, lift, query, raise_when, modify, new_id, ◌>>=◌, ◌>>◌,
}
use ai_spec_driven_developme.Session.Rows.{scalar_one_or_none, rows, update_row}
use ai_spec_driven_developme.Repository.Insert.{insert_account}
use ai_spec_driven_developme.Repository.TransferRepository.{write_audit_log}

-- `_generate_account_number`
abbrev pub number_drawn : Engine → Session → String
number_drawn e s = "ACCT-" ++ e.choices s.draws

unfoldable pub generate_account_number : Engine → Action String
generate_account_number e s = (ok (number_drawn e s), record s { draws = s.draws + 1 })

unfoldable pub get_by_account_number : String → Action (Option Account)
get_by_account_number number = query (λ db. scalar_one_or_none (rows number db.accounts))

-- The loop for a number that no account has, with the rounds that are left and the number at hand;
-- after the last round it goes on with that number.
unfoldable pub find_unused_number : Engine → ℕ → String → Action String
unfolding generate_account_number get_by_account_number
find_unused_number e zero number = pure number
find_unused_number e (suc rounds) _ = do
  number ← generate_account_number e
  existing ← get_by_account_number number
  elim existing [ none ↦ pure number | some _ ↦ find_unused_number e rounds number ]

-- `session.add(account)` and its part of the flush
unfoldable pub add_account : Engine → Account → Action Account
add_account e a s = elim (insert_account e a s.db) [
  | ok (row, db) ↦ (ok row, record s { db = db })
  | err x ↦ (err x, s)
]

unfoldable pub create :
    Engine
    → (owner_id currency : String) → (balance : Decimal) → (actor_identity : String)
    → (request_id : Option String) → Action Account
create e owner_id currency balance actor_identity request_id = do
  account_number ← find_unused_number e 10 ""
  id ← new_id e
  account ← add_account e (record {
    id = id;
    account_number = account_number;
    owner_id = owner_id;
    currency = currency;
    balance = balance;
    status = active;
    owner_pii_hash = none;
  })
  write_audit_log e account_created actor_identity (account_number ∷ []) (some balance)
      (some currency) "success" request_id
  pure account

abbrev pub is_active_account : Account → Bool
is_active_account a = elim a.status [ active ↦ true | closed ↦ false ]

abbrev pub account_not_found : Error
account_not_found = domain_error not_found_error (some "ACCOUNT_NOT_FOUND")

-- The row with a number, if it passes a further test of the query.
abbrev pub or_not_found : Option Account → Result Account
or_not_found o = or_raise o account_not_found

unfoldable pub get_active_by_account_number : String → Action Account
get_active_by_account_number number = do
  found ← query (λ db. scalar_one_or_none (select is_active_account (rows number db.accounts)))
  lift (or_not_found found)

abbrev pub anonymized : Engine → Account → Account
anonymized e a = record a {
  status = closed;
  owner_pii_hash = some (e.sha256 a.owner_id);
  owner_id = "ANONYMIZED-" ++ slice (e.sha256 a.owner_id) 0 16;
}

unfoldable pub close_row : Engine → Account → Db → Result Db
close_row e a db =
    if e.fits 64 (e.sha256 a.owner_id) && e.fits 255 (anonymized e a).owner_id
    then ok (record db { accounts = update_row a.account_number (anonymized e) db.accounts })
    else err (other_error data_error)

unfoldable pub delete_account :
    Engine
    → (account_number actor_identity : String) → (request_id : Option String) → Action (Unit {0})
delete_account e account_number actor_identity request_id = do
  found ← get_by_account_number account_number
  account ← lift (or_not_found found)
  raise_when (not (is_active_account account)) account_not_found
  raise_when (not (eq account.balance zero_decimal))
      (domain_error account_has_balance_error (some "ACCOUNT_HAS_BALANCE"))
  modify (close_row e account)
  write_audit_log e account_deleted actor_identity (account_number ∷ []) none
      (some account.currency) "success" request_id
