-- ===== src/Service/AccountService/Reading.antt =====
-- Who may read an account.
use ai_spec_driven_developme.Prelude.{
  String, ◌≡◌, refl, subst, sym, ◌∙◌, ap, true, ◌||◌, List, [], ◌∷◌, select, arith,
}
use ai_spec_driven_developme.Errors.{ok}
use ai_spec_driven_developme.Models.{Account}
use ai_spec_driven_developme.Security.{Claims, claim_is, is_operator, require_owner_or_operator}
use ai_spec_driven_developme.Session.{Session, lift}
use ai_spec_driven_developme.Session.Keeps.{unchanged}
use ai_spec_driven_developme.Session.Laws.{after_bind, ok-injective}
use ai_spec_driven_developme.Session.Rows.{rows}
use ai_spec_driven_developme.Repository.AccountRepository.{
  get_active_by_account_number, is_active_account,
}
use ai_spec_driven_developme.Service.TransferService.Inversion.{lift-eq-ok}
use ai_spec_driven_developme.Service.AccountService.{get_account}
use ai_spec_driven_developme.Service.AccountService.Deletion.{get_active-Keeps, permitted}

-- The one active row with the number.
pub record Read (number : String) (claims : Claims) (s : Session) (a : Account) (t : Session)
    : Type 0 where
  pub found : select is_active_account (rows number s.db.accounts) ≡ a ∷ []
  pub allowed : (claim_is "sub" a.owner_id claims || is_operator claims) ≡ true
  pub same_db : t.db ≡ s.db

active_row :
    (number : String) (s : Session) {a : Account} {t : Session}
    → get_active_by_account_number number s ≡ (ok a, t)
    → select is_active_account (rows number s.db.accounts) ≡ a ∷ []
unfolding get_active_by_account_number
active_row number s {a} {t} h = by_rows (select is_active_account (rows number s.db.accounts)) refl
  where
    by_rows :
        (l : List Account) → select is_active_account (rows number s.db.accounts) ≡ l → l ≡ a ∷ []
    by_rows [] p = absurd (ground arith)
    by_rows (b ∷ []) p = ground arith
    by_rows (b ∷ c ∷ l) p = absurd (ground arith)

-- An account that is returned is the one active account with the number, and the caller owns it or is an
-- operator; no table changes.
pub get_account-Read :
    (number : String) (claims : Claims) (s : Session) {a : Account} {t : Session}
    → get_account number claims s ≡ (ok a, t)
    → Read number claims s a t
unfolding get_account
get_account-Read number claims s {a} {t} h =
    after_bind _ (get_active_by_account_number number s) h λ x s1 p1 h1.
      after_bind _ (lift (require_owner_or_operator x.owner_id claims) s1) h1 λ _ s2 p2 h2.
        let (may, e2) = lift-eq-ok (require_owner_or_operator x.owner_id claims) s1 p2 in
        let (same, e3) = ok-injective x a s2 t h2 in
        subst (λ y. Read number claims s y t) same
          (record {
            found = active_row number s p1;
            allowed = permitted x.owner_id claims may;
            same_db =
                ap (λ u. u.db) (sym e3 ∙ e2)
                ∙ unchanged (get_active_by_account_number number) s (get_active-Keeps number) p1;
          })
