-- ===== src/Session/Unwinding.antt =====
-- The steps of a do block that returned, one at a time: each for a goal that what the step says proves.
use ai_spec_driven_developme.Prelude.{◌≡◌, Bool, String, some, subst, true, false, arith, refl}
use ai_spec_driven_developme.Decimal.{Decimal}
use ai_spec_driven_developme.Session.Rows.{update_row, with_balance}
use ai_spec_driven_developme.Errors.{Error, Result, ok, err}
use ai_spec_driven_developme.Session.{
  Engine, Session, Action, continue, lift, modify, raise_when, set_balance,
}
use ai_spec_driven_developme.Session.Keeps.{Keeps, whole, unchanged}
use ai_spec_driven_developme.Session.Laws.{after_bind, set_balance-eq-ok}

module _ {ℓ κ μ} {A : Type ℓ} {B : Type κ} {P : Type μ} where
  -- A computation that is lifted leaves the session as it was.
  pub after_lift :
      (r : Result A) (f : A → Action B) (s : Session) {b : B} {t : Session}
      → continue f (lift r s) ≡ (ok b, t)
      → ((a : A) → r ≡ ok a → f a s ≡ (ok b, t) → P)
      → P
  after_lift (ok a) f s h goal = goal a refl h
  after_lift (err x) f s h goal = absurd (ground arith)

  pub after_reading :
      (m : Action A) (f : A → Action B) (s : Session) {b : B} {t : Session}
      → Keeps whole m
      → continue f (m s) ≡ (ok b, t)
      → ((a : A) (u : Session) → m s ≡ (ok a, u) → u.db ≡ s.db → f a u ≡ (ok b, t) → P)
      → P
  after_reading m f s keeps h goal =
      after_bind f (m s) h (λ a u p q. goal a u p (unchanged m s keeps p) q)

pub after_test {κ μ} :
    {B : Type κ} {P : Type μ} (c : Bool) (x : Error) (f : Unit {0} → Action B) (s : Session) {b : B}
    {t : Session}
    → continue f (raise_when c x s) ≡ (ok b, t)
    → (c ≡ false → f tt s ≡ (ok b, t) → P)
    → P
after_test true x f s h goal = absurd (ground arith)
after_test false x f s h goal = goal refl h

-- An assignment of a balance.
pub after_balance {κ μ} :
    {B : Type κ} {P : Type μ} (e : Engine) (number : String) (value : Decimal)
    (f : Unit {0} → Action B) (s : Session) {b : B} {t : Session}
    → continue f (modify (set_balance e number value) s) ≡ (ok b, t)
    → ((d : Decimal)
        → e.numeric 19 4 value ≡ some d
        → f tt (record s {
          db = record s.db { accounts = update_row number (with_balance d) s.db.accounts };
        })
          ≡ (ok b, t)
        → P)
    → P
after_balance e number value f s {b} {t} h goal =
    after_bind f (modify (set_balance e number value) s) h λ _ u p q.
      let (d, taken, changed) = set_balance-eq-ok e number value s p in
      goal d taken (subst (λ v. f tt v ≡ (ok b, t)) changed q)
