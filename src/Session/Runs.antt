-- ===== src/Session/Runs.antt =====
-- Actions that return.
use ai_spec_driven_developme.Prelude.{◌≡◌, true, false}
use ai_spec_driven_developme.Errors.{Result, ok}
use ai_spec_driven_developme.Session.{
  Engine, Db, Session, Action, modify, transaction, settle, continue,
}

-- An action returned.
pub record Returns {ℓ} {A : Type ℓ} (r : Result A × Session) : Type ℓ where
  pub value : A
  pub end : Session
  pub returned : r ≡ (ok value, end)

pub continue-Returns {ℓ κ} :
    {A : Type ℓ} {B : Type κ} (f : A → Action B) (r : Result A × Session) {a : A} {u : Session}
    → r ≡ (ok a, u)
    → Returns (f a u)
    → Returns (continue f r)
continue-Returns f r p w = record { value = w.value; end = w.end; returned = rw p w.returned }

pub transaction-Returns {ℓ} :
    {A : Type ℓ} (e : Engine) (body : Action A) (s : Session)
    → e.begins s.in_transaction ≡ true
    → Returns (body (record s { in_transaction = true }))
    → Returns (transaction e body s)
unfolding transaction settle
transaction-Returns e body s entered w = record {
  value = w.value;
  end = record w.end { in_transaction = false };
  returned = rw (entered, w.returned);
}

pub modify_ok :
    (f : Db → Result Db) (s : Session) {db : Db}
    → f s.db ≡ ok db
    → modify f s ≡ (ok tt, record s { db = db })
modify_ok f s h = rw (modify, h)
