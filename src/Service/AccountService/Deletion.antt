-- ===== src/Service/AccountService/Deletion.antt =====
-- What the deletion of an account requires and does.
use ai_spec_driven_developme.Prelude.{
  String, ◌≡◌, refl, sym, subst, ◌∙◌, ap, Bool, true, false, not, ◌||◌, Option, List, [], ◌∷◌,
  arith, select,
}
use ai_spec_driven_developme.Decimal.{eq, zero_decimal}
use ai_spec_driven_developme.Errors.{Error, ok, err}
use ai_spec_driven_developme.Models.{Account}
use ai_spec_driven_developme.Security.{Claims, claim_is, is_operator, require_owner_or_operator}
use ai_spec_driven_developme.Session.{Engine, Db, Session, lift, raise_when, modify}
use ai_spec_driven_developme.Session.Laws.{
  after_bind, after_error, second, raise_when-eq-ok, transaction-eq-ok, transaction-eq-err,
}
use ai_spec_driven_developme.Session.Keeps.{Keeps, keeps_rules, whole, unchanged}
use ai_spec_driven_developme.Session.Rows.{rows, update_row}
use ai_spec_driven_developme.Repository.AccountRepository.{
  get_by_account_number, get_active_by_account_number, is_active_account, or_not_found, anonymized,
  close_row,
}
use ai_spec_driven_developme.Repository.AccountRepository
use ai_spec_driven_developme.Repository.TransferRepository.Laws.{write_audit_log-eq-ok}
use ai_spec_driven_developme.Service.TransferService.Inversion.{lift-eq-ok}
use ai_spec_driven_developme.Service.AccountService.{delete_account}

-- The repository's part: one row had the number, was active and had the balance 0, and is anonymized.
pub record Deleted (e : Engine) (number : String) (before after : Db) : Type 0 where
  pub account : Account
  pub found : rows number before.accounts ≡ account ∷ []
  pub was_active : is_active_account account ≡ true
  pub empty : eq account.balance zero_decimal ≡ true
  pub accounts_after :
      after.accounts ≡ update_row account.account_number (anonymized e) before.accounts
  pub transfers_after : after.transfers ≡ before.transfers

get_found :
    (number : String) (s : Session) {o : Option Account} {t : Session}
    → get_by_account_number number s ≡ (ok o, t)
    → {a : Account} → or_not_found o ≡ ok a
    → (rows number s.db.accounts ≡ a ∷ []) × (t.db ≡ s.db)
unfolding get_by_account_number
get_found number s {o} {t} h {a} k =
    (by_rows (rows number s.db.accounts) refl, ap (λ p. p.1.db) (sym h))
  where
    by_rows : (l : List Account) → rows number s.db.accounts ≡ l → l ≡ a ∷ []
    by_rows [] p = absurd (ground arith)
    by_rows (b ∷ []) p = ground arith
    by_rows (b ∷ c ∷ l) p = absurd (ground arith)

close_row-eq-ok :
    (e : Engine) (a : Account) (s : Session) {x : Unit {0}} {t : Session}
    → modify (close_row e a) s ≡ (ok x, t)
    → (t.db.accounts ≡ update_row a.account_number (anonymized e) s.db.accounts)
      × (t.db.transfers ≡ s.db.transfers)
unfolding close_row
close_row-eq-ok e a s h = ground arith

true_of_negation : (b : Bool) → not b ≡ false → b ≡ true
true_of_negation true h = refl
true_of_negation false h = cc

pub get_active-Keeps : (number : String) → Keeps whole (get_active_by_account_number number)
unfolding get_active_by_account_number
get_active-Keeps number = search keeps_rules

-- The one active row is the one row.
same_active :
    (number : String) (s : Session) (account a : Account) {t : Session}
    → rows number s.db.accounts ≡ account ∷ []
    → is_active_account account ≡ true
    → get_active_by_account_number number s ≡ (ok a, t)
    → a ≡ account
unfolding get_active_by_account_number select
same_active number s account a found is_active h = ground (arith, rw (found, is_active) at h)

pub permitted :
    (owner : String) (claims : Claims) {x : Unit {0}}
    → require_owner_or_operator owner claims ≡ ok x
    → (claim_is "sub" owner claims || is_operator claims) ≡ true
unfolding require_owner_or_operator
permitted owner claims h = ground arith

module _ (e : Engine) (number actor : String) (request_id : Option String) where
  repository-Deleted :
      (s : Session) {x : Unit {0}} {t : Session}
      → AccountRepository.delete_account e number actor request_id s ≡ (ok x, t)
      → Deleted e number s.db t.db
  unfolding AccountRepository.delete_account
  repository-Deleted s {t = t} h = after_bind _ (get_by_account_number number s) h λ found s1 p1 h1.
      after_bind _ (lift (or_not_found found) s1) h1 λ account s2 p2 h2.
        after_bind _ (raise_when (not (is_active_account account)) _ s2) h2 λ _ s3 p3 h3.
          after_bind _ (raise_when (not (eq account.balance zero_decimal)) _ s3) h3 λ _ s4 p4 h4.
            after_bind _ (modify (close_row e account) s4) h4 λ _ s5 p5 h5.
              let (f2, e2) = lift-eq-ok (or_not_found found) s1 p2 in
              let (row, e1) = get_found number s p1 f2 in
              let (f3, e3) = raise_when-eq-ok (not (is_active_account account)) _ s2 p3 in
              let (f4, e4) = raise_when-eq-ok (not (eq account.balance zero_decimal)) _ s3 p4 in
              let (changed, kept) = close_row-eq-ok e account s4 p5 in
              let (logged, logged_too) = write_audit_log-eq-ok e _ _ _ _ _ _ _ s5 h5 in
              let same : s4.db ≡ s.db = ap (λ u. u.db) (e4 ∙ e3 ∙ e2) ∙ e1 in
              record {
                account = account;
                found = row;
                was_active = true_of_negation (is_active_account account) f3;
                empty = true_of_negation (eq account.balance zero_decimal) f4;
                accounts_after =
                    logged
                    ∙ changed
                    ∙ ap (λ (db : Db). update_row account.account_number (anonymized e) db.accounts)
                        same;
                transfers_after = logged_too ∙ kept ∙ ap (λ (db : Db). db.transfers) same;
              }

  module _ (claims : Claims) where
    -- A deletion that raises leaves every table as it was.
    pub delete_account-eq-err :
        (s : Session) {x : Error} {t : Session}
        → delete_account e number actor claims request_id s ≡ (err x, t)
        → t.db ≡ s.db
    unfolding delete_account
    delete_account-eq-err s h =
        after_error _ (get_active_by_account_number number s) h
          (λ p. unchanged (get_active_by_account_number number) s (get_active-Keeps number) p)
          (λ a s1 p1 h1.
            after_error _ (lift (require_owner_or_operator a.owner_id claims) s1) h1
              (λ p.
                ap (λ u. u.db) (sym (second p))
                ∙ unchanged (get_active_by_account_number number) s (get_active-Keeps number) p1)
              (λ _ s2 p2 h2.
                transaction-eq-err e (AccountRepository.delete_account e number actor request_id) s2
                  h2
                ∙ ap (λ u. u.db) (sym (second p2))
                ∙ unchanged (get_active_by_account_number number) s (get_active-Keeps number) p1))

    -- An account that was deleted had one row, was active and had the balance 0; the caller owns it or is
    -- an operator; afterwards just that row is anonymized and closed, and no transfer changed.
    pub delete_account-Deleted :
        (s : Session) {x : Unit {0}} {t : Session}
        → delete_account e number actor claims request_id s ≡ (ok x, t)
        → (w : Deleted e number s.db t.db) × ((claim_is "sub" w.account.owner_id claims
              || is_operator claims)
            ≡ true)
    unfolding delete_account
    delete_account-Deleted s {t = t} h =
        after_bind _ (get_active_by_account_number number s) h λ a s1 p1 h1.
          after_bind _ (lift (require_owner_or_operator a.owner_id claims) s1) h1 λ _ s2 p2 h2.
            let (f2, e2) = lift-eq-ok (require_owner_or_operator a.owner_id claims) s1 p2 in
            let (u, ran, kept) =
              transaction-eq-ok e (AccountRepository.delete_account e number actor request_id) s2
                h2 in
            let to2 : s2.db ≡ s.db =
              ap (λ v. v.db) e2
              ∙ unchanged (get_active_by_account_number number) s (get_active-Keeps number) p1 in
            let w : Deleted e number s.db t.db =
              subst (λ db. Deleted e number db t.db) to2
                (subst (λ db. Deleted e number s2.db db) (sym kept)
                  (repository-Deleted (record s2 { in_transaction = true }) ran)) in
            (
              w,
              subst
                  (λ (b : Account). (claim_is "sub" b.owner_id claims || is_operator claims) ≡ true)
                  (same_active number s w.account a w.found w.was_active p1)
                  (permitted a.owner_id claims f2),
            )
