-- ===== src/Service/AccountService/Closing.antt =====
-- An account that was deleted is gone for readers and for transfers.
use ai_spec_driven_developme.Prelude.{
  String, Option, true, ◌≡◌, List, [], ◌∷◌, ◌∙◌, ap, subst, sym, refl, select, map, Bool-cases, inl,
  inr,
}
use ai_spec_driven_developme.Errors.{err, ok}
use ai_spec_driven_developme.Models.{Account}
use ai_spec_driven_developme.Security.{Claims}
use ai_spec_driven_developme.Session.{Engine, Db, Session}
use ai_spec_driven_developme.Session.Rows.{rows, update_row, is_numbered}
use ai_spec_driven_developme.Session.Rows.Laws.{rows_number}
use ai_spec_driven_developme.Repository.AccountRepository.{
  anonymized, account_not_found, get_active_by_account_number, get_by_account_number,
}
use ai_spec_driven_developme.Service.AccountService.{delete_account, get_account}
use ai_spec_driven_developme.Service.AccountService.Deletion.{delete_account-Deleted}
use ai_spec_driven_developme.Service.TransferService.{load_active}

rows-anonymized :
    (e : Engine) (k : String) (l : List Account)
    → rows k (update_row k (anonymized e) l) ≡ map (anonymized e) (rows k l)
unfolding rows update_row
rows-anonymized e k [] = refl
rows-anonymized e k (a ∷ l) = elim (Bool-cases (is_numbered k a)) [
  | inl p ↦ rw (p, p) (ap (λ m. anonymized e a ∷ m) (rows-anonymized e k l))
  | inr p ↦ rw (p, p) (rows-anonymized e k l)
]

module _ (e : Engine) (number actor : String) (request_id : Option String) (claims : Claims)
    (s : Session) {x : Unit {0}} {t : Session}
    (done : delete_account e number actor claims request_id s ≡ (ok x, t)) where
  closed_row : (a : Account) × (rows number t.db.accounts ≡ anonymized e a ∷ [])
  closed_row =
      let (w, _) = delete_account-Deleted e number actor request_id claims s done in
      let same = rows_number number s.db.accounts w.account w.found in
      (
        w.account,
        ap (rows number) w.accounts_after
            ∙ subst
                (λ k.
                  rows number (update_row k (anonymized e) s.db.accounts)
                  ≡ map (anonymized e) (rows number s.db.accounts))
                (sym same) (rows-anonymized e number s.db.accounts)
            ∙ ap (map (anonymized e)) w.found,
      )

  -- On the tables as a deletion left them, nobody reads an account with the number, an operator neither,
  -- and no transfer may load it; no table changes.
  pub delete_account-gone :
      (reader : Claims) (s' : Session)
      → s'.db ≡ t.db
      → (get_account number reader s'
          ≡ (err account_not_found, record s' { in_transaction = true }))
        × (load_active number s' ≡ (err account_not_found, record s' { in_transaction = true }))
  unfolding get_account get_active_by_account_number load_active get_by_account_number select
  delete_account-gone reader s' same =
      let (a, closed) = closed_row in
      let found : rows number s'.db.accounts ≡ anonymized e a ∷ [] =
        ap (λ (db : Db). rows number db.accounts) same ∙ closed in
      (rw found refl, rw found refl)
