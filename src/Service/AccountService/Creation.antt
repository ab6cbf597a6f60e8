-- ===== src/Service/AccountService/Creation.antt =====
-- What the creation of an account requires and does.
use ai_spec_driven_developme.Prelude.{
  ℕ, zero, suc, ◌+◌, String, ◌≡◌, refl, sym, subst, ◌∙◌, ap, true, false, Option, some, none, [],
  ◌∷◌, ◌++◌, arith, any_of,
}
use ai_spec_driven_developme.Decimal.{Decimal, lt, zero_decimal}
use ai_spec_driven_developme.Errors.{Error, Result, ok, err}
use ai_spec_driven_developme.Models.{Account, active}
use ai_spec_driven_developme.Config.{ExchangeRateConfig}
use ai_spec_driven_developme.Session.{Engine, Db, Session, pure, continue, lift, raise_when}
use ai_spec_driven_developme.Session.Keeps.{Keeps, Keeps-pure, whole, unchanged}
use ai_spec_driven_developme.Session.Laws.{
  after_bind, after_error, ok-injective, second, raise_when-eq-ok, transaction-eq-ok,
  transaction-eq-err,
}
use ai_spec_driven_developme.Session.Rows.{is_numbered}
use ai_spec_driven_developme.Repository.Insert.{insert_account}
use ai_spec_driven_developme.Repository.AccountRepository.{
  generate_account_number, get_by_account_number, number_drawn, find_unused_number, add_account,
  create,
}
use ai_spec_driven_developme.Repository.TransferRepository.{write_audit_log}
use ai_spec_driven_developme.Repository.TransferRepository.Laws.{write_audit_log-eq-ok}
use ai_spec_driven_developme.Service.TransferService.Inversion.{lift-eq-ok}
use ai_spec_driven_developme.Service.ExchangeRateService.{validate_currency}
use ai_spec_driven_developme.Service.AccountService.{CreateAccountRequest, create_account}

find_unused_number-Keeps :
    (e : Engine) (rounds : ℕ) (number : String) → Keeps whole (find_unused_number e rounds number)
unfolding find_unused_number generate_account_number get_by_account_number
find_unused_number-Keeps e zero number = Keeps-pure number
find_unused_number-Keeps e (suc rounds) number = record {
  at = λ s.
      after (number_drawn e s) (find_unused_number-Keeps e rounds (number_drawn e s))
        (get_by_account_number (number_drawn e s) (record s { draws = s.draws + 1 })).0
        (record s { in_transaction = true; draws = s.draws + 1 });
}
  where
    after :
        (next : String)
        → Keeps whole (find_unused_number e rounds next)
        → (r : Result (Option Account)) (u : Session)
        → (continue
            (λ existing. elim existing [
              | none ↦ pure next
              | some _ ↦ find_unused_number e rounds next
            ])
            (r, u)).1.db
          ≡ u.db
    after next k (ok none) u = refl
    after next k (ok (some x)) u = k.at u
    after next k (err x) u = refl

-- The row that was added: as asked for, with a number that no row had.
pub record Added (e : Engine) (owner currency : String) (balance : Decimal) (before : Db)
    (a : Account) (after : Db) : Type 0 where
  pub owned : a.owner_id ≡ owner
  pub in_currency : a.currency ≡ currency
  pub is_active : a.status ≡ active
  pub stored_balance : e.numeric 19 4 balance ≡ some a.balance
  pub new_number : any_of (is_numbered a.account_number) before.accounts ≡ false
  pub accounts_after : after.accounts ≡ before.accounts ++ a ∷ []
  pub transfers_after : after.transfers ≡ before.transfers

abbrev fresh_row : ℕ → String → String → String → Decimal → Account
fresh_row id number owner currency balance = record {
  id = id;
  account_number = number;
  owner_id = owner;
  currency = currency;
  balance = balance;
  status = active;
  owner_pii_hash = none;
}

insert_account-Added :
    (e : Engine) (id : ℕ) (number owner currency : String) (balance : Decimal) (db : Db)
    {a : Account} {after : Db}
    → insert_account e (fresh_row id number owner currency balance) db ≡ ok (a, after)
    → Added e owner currency balance db a after
unfolding insert_account
insert_account-Added e id number owner currency balance db {a} {after} h = record {
  owned = ground arith;
  in_currency = ground arith;
  is_active = ground arith;
  stored_balance = ground arith;
  new_number = ground arith;
  accounts_after = ground arith;
  transfers_after = ground arith;
}

add_account-Added :
    (e : Engine) (id : ℕ) (number owner currency : String) (balance : Decimal) (s : Session)
    {a : Account} {t : Session}
    → add_account e (fresh_row id number owner currency balance) s ≡ (ok a, t)
    → Added e owner currency balance s.db a t.db
unfolding add_account
add_account-Added e id number owner currency balance s {a} {t} h =
    by_insertion (insert_account e (fresh_row id number owner currency balance) s.db) refl
  where
    by_insertion :
        (r : Result (Account × Db))
        → insert_account e (fresh_row id number owner currency balance) s.db ≡ r
        → Added e owner currency balance s.db a t.db
    by_insertion (ok (row, db)) p =
        let (same, e1) = ok-injective row a (record s { db = db }) t (rw (p, add_account) at h) in
        subst (λ x. Added e owner currency balance s.db x t.db) same
          (subst (λ (u : Session). Added e owner currency balance s.db row u.db) e1
            (insert_account-Added e id number owner currency balance s.db p))
    by_insertion (err x) p = absurd (ground (arith, rw (p, add_account) at h))

module _ (e : Engine) (fx : ExchangeRateConfig) (request : CreateAccountRequest) (actor : String)
    (request_id : Option String) where
  repository-Added :
      (s : Session) {a : Account} {t : Session}
      → create e request.owner_id request.currency request.opening_balance actor request_id s
        ≡ (ok a, t)
      → Added e request.owner_id request.currency request.opening_balance s.db a t.db
  unfolding create
  repository-Added s {a} {t} h = after_bind _ (find_unused_number e 10 "" s) h λ number s1 p1 h1.
      after_bind _
        (add_account e
          (fresh_row (e.uuid4 s1.draws) number request.owner_id request.currency
            request.opening_balance)
          (record s1 { draws = s1.draws + 1 }))
        h1
        λ row s2 p2 h2. after_bind _ (write_audit_log e _ _ _ _ _ _ _ s2) h2 λ _ s3 p3 h3.
          let same1 =
            unchanged (find_unused_number e 10 "") s (find_unused_number-Keeps e 10 "") p1 in
          let added =
            add_account-Added e (e.uuid4 s1.draws) number request.owner_id request.currency
              request.opening_balance (record s1 { draws = s1.draws + 1 }) p2 in
          let (kept, kept_too) = write_audit_log-eq-ok e _ _ _ _ _ _ _ s2 p3 in
          let (same, e3) = ok-injective row a s3 t h3 in
          subst (λ x. Added e request.owner_id request.currency request.opening_balance s.db x t.db)
            same
            (record {
              owned = added.owned;
              in_currency = added.in_currency;
              is_active = added.is_active;
              stored_balance = added.stored_balance;
              new_number =
                  subst (λ (db : Db). any_of (is_numbered row.account_number) db.accounts ≡ false)
                    same1 added.new_number;
              accounts_after =
                  ap (λ u. u.db.accounts) (sym e3)
                  ∙ kept
                  ∙ added.accounts_after
                  ∙ ap (λ (db : Db). db.accounts ++ row ∷ []) same1;
              transfers_after =
                  ap (λ u. u.db.transfers) (sym e3)
                  ∙ kept_too
                  ∙ added.transfers_after
                  ∙ ap (λ (db : Db). db.transfers) same1;
            })

  -- A creation that raises leaves every table as it was.
  pub create_account-eq-err :
      (s : Session) {x : Error} {t : Session}
      → create_account e fx request actor request_id s ≡ (err x, t)
      → t.db ≡ s.db
  unfolding create_account
  create_account-eq-err s h =
      after_error _ (lift (validate_currency fx request.currency) s) h
        (λ p. ap (λ u. u.db) (sym (second p)))
        (λ _ s1 p1 h1.
          after_error _ (raise_when (lt request.opening_balance zero_decimal) _ s1) h1
            (λ p. ap (λ u. u.db) (sym (second p) ∙ sym (second p1)))
            (λ _ s2 p2 h2.
              transaction-eq-err e
                (create e request.owner_id request.currency request.opening_balance actor
                  request_id)
                s2 h2
              ∙ ap (λ u. u.db) (sym (second p2) ∙ sym (second p1))))

  -- A creation that returns was for a supported currency and an opening balance that is not negative, and
  -- added one active account of the owner, with the balance as its column stores it and a number that no
  -- account had; no other row and no transfer changed.
  pub create_account-Added :
      (s : Session) {a : Account} {t : Session}
      → create_account e fx request actor request_id s ≡ (ok a, t)
      → (validate_currency fx request.currency ≡ ok tt)
        × (lt request.opening_balance zero_decimal ≡ false)
        × Added e request.owner_id request.currency request.opening_balance s.db a t.db
  unfolding create_account
  create_account-Added s {a} {t} h =
      after_bind _ (lift (validate_currency fx request.currency) s) h λ x s1 p1 h1.
        after_bind _ (raise_when (lt request.opening_balance zero_decimal) _ s1) h1 λ _ s2 p2 h2.
          let (supported, e1) = lift-eq-ok (validate_currency fx request.currency) s p1 in
          let (positive, e2) = raise_when-eq-ok (lt request.opening_balance zero_decimal) _ s1 p2 in
          let (u, ran, kept) =
            transaction-eq-ok e
              (create e request.owner_id request.currency request.opening_balance actor request_id)
              s2 h2 in
          (
            supported,
            positive,
            subst
                (λ db. Added e request.owner_id request.currency request.opening_balance db a t.db)
                (ap (λ v. v.db) (e2 ∙ e1))
                (subst
                  (λ db.
                    Added e request.owner_id request.currency request.opening_balance s2.db a db)
                  (sym kept) (repository-Added (record s2 { in_transaction = true }) ran)),
          )
