-- ===== src/Session/Keeps.antt =====
-- Actions that leave a part of the tables alone, whether they return or raise.
use ai_spec_driven_developme.Prelude.{
  ◌≡◌, refl, ◌∙◌, ap, sym, Bool, true, false, List, if◌then◌else◌,
}
use ai_spec_driven_developme.Errors.{Error, Result, ok, err}
use ai_spec_driven_developme.Models.{Account}
use ai_spec_driven_developme.Session.{
  Engine, Db, Session, Action, pure, lift, query, read, raise_when, modify, new_id, continue, ◌>>=◌,
}

pub record Keeps {ℓ κ} {A : Type ℓ} {X : Type κ} (part : Db → X) (m : Action A) : Type (ℓ ⊔ κ) where
  pub at : (s : Session) → part (m s).1.db ≡ part s.db

module _ {ℓ κ} {A : Type ℓ} {X : Type κ} {part : Db → X} where
  pub Keeps-pure : (a : A) → Keeps part (pure a)
  Keeps-pure a = record { at = λ s. refl }

  pub Keeps-lift : (r : Result A) → Keeps part (lift r)
  Keeps-lift r = record { at = λ s. refl }

  pub Keeps-query : (f : Db → Result A) → Keeps part (query f)
  Keeps-query f = record { at = λ s. refl }

  pub Keeps-read : (f : Db → A) → Keeps part (read f)
  Keeps-read f = record { at = λ s. refl }

  pub Keeps-if :
      (b : Bool) (m n : Action A) → Keeps part m → Keeps part n → Keeps part (if b then m else n)
  Keeps-if true m n km kn = km
  Keeps-if false m n km kn = kn

module _ {κ} {X : Type κ} {part : Db → X} where
  pub Keeps-raise_when : (b : Bool) (x : Error) → Keeps part (raise_when b x)
  Keeps-raise_when b x = record { at = λ s. refl }

  pub Keeps-new_id : (e : Engine) → Keeps part (new_id e)
  Keeps-new_id e = record { at = λ s. refl }

  pub Keeps-modify :
      (f : Db → Result Db)
      → ((db db' : Db) → f db ≡ ok db' → part db' ≡ part db)
      → Keeps part (modify f)
  Keeps-modify f keep = record { at = λ s. by_result s (f s.db) refl }
    where
      by_result : (s : Session) (r : Result Db) → f s.db ≡ r → part (modify f s).1.db ≡ part s.db
      by_result s (ok db) p = rw (modify, p) (keep s.db db p)
      by_result s (err x) p = rw (modify, p)

module _ {ℓ μ κ} {A : Type ℓ} {B : Type μ} {X : Type κ} {part : Db → X} where
  pub Keeps-bind :
      (m : Action A) (f : A → Action B)
      → Keeps part m
      → ((a : A) → Keeps part (f a))
      → Keeps part (m >>= f)
  Keeps-bind m f km kf = record { at = λ s. after (m s).0 (m s).1 ∙ km.at s }
    where
      after : (r : Result A) (u : Session) → part (continue f (r, u)).1.db ≡ part u.db
      after (ok a) u = (kf a).at u
      after (err x) u = refl

pub ruleset keeps_rules = (
  Keeps-pure, Keeps-lift, Keeps-query, Keeps-read, Keeps-if, Keeps-raise_when, Keeps-new_id,
  Keeps-modify, Keeps-bind,
)

abbrev pub accounts_of : Db → List Account
accounts_of db = db.accounts

-- All tables.
abbrev pub whole : Db → Db
whole db = db

pub unchanged {ℓ} :
    {A : Type ℓ} (m : Action A) (s : Session) {r : Result A} {t : Session}
    → Keeps whole m
    → m s ≡ (r, t)
    → t.db ≡ s.db
unchanged m s k h = ap (λ p. p.1.db) (sym h) ∙ k.at s
