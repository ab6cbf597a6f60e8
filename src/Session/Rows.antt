-- ===== src/Session/Rows.antt =====
-- Queries for at most one row, and changes of the rows of `accounts`.
pub mod Laws
pub mod Moves
use ai_spec_driven_developme.Prelude.{
  String, Bool, Option, none, some, List, [], ◌∷◌, select, str_eq, if◌then◌else◌,
}
use ai_spec_driven_developme.Decimal.{Decimal}
use ai_spec_driven_developme.Errors.{other_error, multiple_results_found, Result, ok, err}
use ai_spec_driven_developme.Models.{Account}

-- `result.scalar_one_or_none()`
abbrev pub scalar_one_or_none {ℓ} : {A : Type ℓ} → List A → Result (Option A)
scalar_one_or_none [] = ok none
scalar_one_or_none (x ∷ []) = ok (some x)
scalar_one_or_none (x ∷ y ∷ xs) = err (other_error multiple_results_found)

-- `Account.account_number == number`
abbrev pub is_numbered : String → Account → Bool
is_numbered number a = str_eq a.account_number number

-- `select(Account).where(Account.account_number == number)`
unfoldable pub rows : String → List Account → List Account
unfolding select
rows number l = select (is_numbered number) l

-- A change of the row with a number, which is unique.
unfoldable pub update_row : String → (Account → Account) → List Account → List Account
update_row number f [] = []
update_row number f (a ∷ l) = (if is_numbered number a then f a else a) ∷ update_row number f l

abbrev pub with_balance : Decimal → Account → Account
with_balance d a = record a { balance = d }
