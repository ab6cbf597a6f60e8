-- ===== src/Repository/AccountRepository/Laws.antt =====
-- What the writes of accounts make of the table.
-- The row that is closed is anonymized, and no other row changes.
use ai_spec_driven_developme.Errors.{
  >>=-eq-ok, Result, data_error, err, ok, other_error, raise_if, raise_if-eq-ok,
}
use ai_spec_driven_developme.Models.{Account}
use ai_spec_driven_developme.Prelude.{
  Bool, [], any_of, arith, false, if◌then◌else◌, refl, some, subst, true, ◌&&◌, ◌++◌, ◌∷◌, ◌≡◌,
}
use ai_spec_driven_developme.Session.{Db, Engine}
use ai_spec_driven_developme.Repository.AccountRepository.{anonymized, close_row}
use ai_spec_driven_developme.Repository.Insert.{insert_account, store_account, has_account_id}
use ai_spec_driven_developme.Session.Rows.{is_numbered, update_row}

pub close_row-result :
    (e : Engine) (a : Account) (db db' : Db)
    → close_row e a db ≡ ok db'
    → record db { accounts = update_row a.account_number (anonymized e) db.accounts } ≡ db'
unfolding close_row
close_row-result e a db db' h =
    by_test (e.fits 64 (e.sha256 a.owner_id) && e.fits 255 (anonymized e a).owner_id) h
  where
    by_test :
        (b : Bool)
        → (if b
            then ok
                (record db { accounts = update_row a.account_number (anonymized e) db.accounts })
            else err (other_error data_error))
          ≡ ok db'
        → record db { accounts = update_row a.account_number (anonymized e) db.accounts } ≡ db'
    by_test true p = cc
    by_test false p = cc

-- The row that an insertion adds.
pub record Inserted (e : Engine) (a : Account) (db : Db) (x : Account × Db) : Type 0 where
  pub number : x.0.account_number ≡ a.account_number
  pub balance : e.numeric 19 4 a.balance ≡ some x.0.balance
  pub unused : any_of (is_numbered a.account_number) db.accounts ≡ false
  pub result : x.1 ≡ record db { accounts = db.accounts ++ x.0 ∷ [] }

store_account-eq-ok :
    (e : Engine) (a : Account) {row : Account}
    → store_account e a ≡ ok row
    → (row.account_number ≡ a.account_number) × (e.numeric 19 4 a.balance ≡ some row.balance)
unfolding store_account
store_account-eq-ok e a h = ground arith

pub insert_account-Inserted :
    (e : Engine) (a : Account) (db : Db) (x : Account × Db)
    → insert_account e a db ≡ ok x
    → Inserted e a db x
unfolding insert_account
insert_account-Inserted e a db x h =
    let (row, stored_row, h1) = >>=-eq-ok (store_account e a) _ h in
    let (_, _, h2) = >>=-eq-ok (raise_if (any_of (has_account_id a.id) db.accounts) _) _ h1 in
    let (_, test, h3) =
      >>=-eq-ok (raise_if (any_of (is_numbered a.account_number) db.accounts) _) _ h2 in
    let (number, balance) = store_account-eq-ok e a stored_row in
    subst (Inserted e a db) (pair_same (row, record db { accounts = db.accounts ++ row ∷ [] }) h3)
      (record {
        number = number;
        balance = balance;
        unused = raise_if-eq-ok (any_of (is_numbered a.account_number) db.accounts) _ test;
        result = refl;
      })
  where
    pair_same : (y : Account × Db) → ◌≡◌ {A = Result (Account × Db)} (ok y) (ok x) → y ≡ x
    pair_same y p = cc
