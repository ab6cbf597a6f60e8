-- ===== src/System/Sound/AccountRows.antt =====
-- An opened account is sound, and a closed one stays so.
use ai_spec_driven_developme.Decimal.Exact.{lt-zero_decimal}
use ai_spec_driven_developme.Models.{Account}
use ai_spec_driven_developme.Session.{Db, Engine, Session}
use ai_spec_driven_developme.Session.Numeric.{AllSound, IsSound, NumericRange}
use ai_spec_driven_developme.Api.App.{App}
use ai_spec_driven_developme.Prelude.{
  Bool-cases, List, Option, String, [], inl, inr, subst, sym, ◌++◌, ◌∷◌, ◌≡◌,
}
use ai_spec_driven_developme.Security.{Claims}
use ai_spec_driven_developme.Service.AccountService.{CreateAccountRequest}
use ai_spec_driven_developme.Errors.{Result, err, ok}
use ai_spec_driven_developme.Repository.AccountRepository.{anonymized}
use ai_spec_driven_developme.Service.AccountService.Creation.{
  create_account-Added, create_account-eq-err,
}
use ai_spec_driven_developme.Service.AccountService.Deletion.{
  delete_account-Deleted, delete_account-eq-err,
}
use ai_spec_driven_developme.Session.Rows.{is_numbered, update_row}
use ai_spec_driven_developme.Service.AccountService

pub same_sound : (db db' : Db) → db' ≡ db → AllSound db.accounts → AllSound db'.accounts
same_sound db db' same = subst (λ (x : Db). AllSound x.accounts) (sym same)

appended : (l : List Account) (a : Account) → IsSound a → AllSound l → AllSound (l ++ a ∷ [])
appended [] a h sound = (h, tt)
appended (b ∷ l) a h sound = (sound.0, appended l a h sound.1)

closed :
    (e : Engine) (k : String) (l : List Account)
    → AllSound l
    → AllSound (update_row k (anonymized e) l)
unfolding update_row
closed e k [] sound = tt
closed e k (a ∷ l) sound = elim (Bool-cases (is_numbered k a)) [
  | inl p ↦ rw p (
    record { scale = sound.0.scale; fits = sound.0.fits; nonneg = sound.0.nonneg },
    closed e k l sound.1,
  )
  | inr p ↦ rw p (sound.0, closed e k l sound.1)
]

module _ (app : App) (range : NumericRange app.engine) where
  pub create_account_sound :
      (request : CreateAccountRequest) (actor : String) (request_id : Option String) (s t : Session)
      (r : Result Account)
      → AccountService.create_account app.engine app.exchange_rates request actor request_id s
        ≡ (r, t)
      → AllSound s.db.accounts
      → AllSound t.db.accounts
  create_account_sound request actor request_id s t (ok a) h sound =
      let (_, nonneg, w) =
        create_account-Added app.engine app.exchange_rates request actor request_id s h in
      let stored = range.in_range 19 4 request.opening_balance a.balance w.stored_balance in
      subst AllSound (sym w.accounts_after) (
        appended s.db.accounts a
          (record {
            scale = stored.0;
            fits = stored.1;
            nonneg =
                range.keeps_sign 19 4 request.opening_balance a.balance w.stored_balance
                  (lt-zero_decimal request.opening_balance nonneg);
          })
          sound)
  create_account_sound request actor request_id s t (err x) h sound =
      same_sound s.db t.db
        (create_account-eq-err app.engine app.exchange_rates request actor request_id s h) sound

  pub delete_account_sound :
      (number actor : String) (claims : Claims) (request_id : Option String) (s t : Session)
      (r : Result (Unit {0}))
      → AccountService.delete_account app.engine number actor claims request_id s ≡ (r, t)
      → AllSound s.db.accounts
      → AllSound t.db.accounts
  delete_account_sound number actor claims request_id s t (ok x) h sound =
      let (w, _) = delete_account-Deleted app.engine number actor request_id claims s h in
      subst AllSound (sym w.accounts_after)
        (closed app.engine w.account.account_number s.db.accounts sound)
  delete_account_sound number actor claims request_id s t (err x) h sound =
      same_sound s.db t.db (delete_account-eq-err app.engine number actor request_id claims s h)
        sound
