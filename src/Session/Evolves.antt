-- ===== src/Session/Evolves.antt =====
-- Actions that move the tables along a preorder, whether they return or raise.
use ai_spec_driven_developme.Prelude.{◌≡◌, refl, sym, subst, Bool, true, false, if◌then◌else◌}
use ai_spec_driven_developme.Errors.{invalid_request_error, other_error, Error, Result, ok, err}
use ai_spec_driven_developme.Session.Keeps.{Keeps, whole}
use ai_spec_driven_developme.Session.{
  Engine, Db, Session, Action, pure, lift, query, read, raise_when, modify, new_id, continue, ◌>>=◌,
  transaction, settle,
}

pub record Preorder {κ} (R : Db → Db → Type κ) : Type κ where
  pub stays : (db : Db) → R db db
  pub composes : {a b c : Db} → R a b → R b c → R a c

pub record Evolves {ℓ κ} {A : Type ℓ} (R : Db → Db → Type κ) (m : Action A) : Type (ℓ ⊔ κ) where
  pub at : (s : Session) → R s.db (m s).1.db

module _ {κ} {R : Db → Db → Type κ} where
  module _ {ℓ} {A : Type ℓ} where
    pub Evolves-pure : Preorder R → (a : A) → Evolves R (pure a)
    Evolves-pure order a = record { at = λ s. order.stays s.db }

    pub Evolves-lift : Preorder R → (r : Result A) → Evolves R (lift r)
    Evolves-lift order r = record { at = λ s. order.stays s.db }

    pub Evolves-query : Preorder R → (f : Db → Result A) → Evolves R (query f)
    Evolves-query order f = record { at = λ s. order.stays s.db }

    pub Evolves-read : Preorder R → (f : Db → A) → Evolves R (read f)
    Evolves-read order f = record { at = λ s. order.stays s.db }

    pub Evolves-if :
        (b : Bool) (m n : Action A) → Evolves R m → Evolves R n → Evolves R (if b then m else n)
    Evolves-if true m n em en = em
    Evolves-if false m n em en = en

    pub Evolves-transaction :
        Preorder R → (e : Engine) (m : Action A) → Evolves R m → Evolves R (transaction e m)
    unfolding transaction settle
    Evolves-transaction order e m em = record { at = λ s. by_entry s (e.begins s.in_transaction) }
      where
        ended : (s : Session) (r : Result A × Session) → R s.db r.1.db → R s.db (settle s r).1.db
        ended s (ok a, t) p = p
        ended s (err x, t) p = order.stays s.db

        by_entry :
            (s : Session) (b : Bool)
            → R s.db (
                (if b
                  then settle s (m (record s { in_transaction = true }))
                  else (err (other_error invalid_request_error), s)).1.db)
        by_entry s true =
            ended s (m (record s { in_transaction = true }))
              (em.at (record s { in_transaction = true }))
        by_entry s false = order.stays s.db

  pub Evolves-Keeps {ℓ} : {A : Type ℓ} → Preorder R → (m : Action A) → Keeps whole m → Evolves R m
  Evolves-Keeps order m k = record { at = λ s. subst (R s.db) (sym (k.at s)) (order.stays s.db) }

  -- An action whose every result is known to stand in the order.
  pub Evolves-by_result {ℓ} :
      {A : Type ℓ} (m : Action A)
      → ((s t : Session) (r : Result A) → m s ≡ (r, t) → R s.db t.db)
      → Evolves R m
  Evolves-by_result m known = record { at = λ s. known s (m s).1 (m s).0 refl }

  pub Evolves-raise_when : Preorder R → (b : Bool) (x : Error) → Evolves R (raise_when b x)
  Evolves-raise_when order b x = record { at = λ s. order.stays s.db }

  pub Evolves-new_id : Preorder R → (e : Engine) → Evolves R (new_id e)
  Evolves-new_id order e = record { at = λ s. order.stays s.db }

  pub Evolves-modify :
      Preorder R
      → (f : Db → Result Db) → ((db db' : Db) → f db ≡ ok db' → R db db')
      → Evolves R (modify f)
  Evolves-modify order f step = record { at = λ s. by_result s (f s.db) refl }
    where
      by_result : (s : Session) (r : Result Db) → f s.db ≡ r → R s.db (modify f s).1.db
      by_result s (ok db) p = rw (modify, p) (step s.db db p)
      by_result s (err x) p = rw (modify, p) (order.stays s.db)

  pub Evolves-bind {ℓ μ} :
      {A : Type ℓ} {B : Type μ}
      → Preorder R
      → (m : Action A) (f : A → Action B) → Evolves R m
      → ((a : A) → Evolves R (f a))
      → Evolves R (m >>= f)
  Evolves-bind {A = A} order m f em ef = record {
    at = λ s. order.composes (em.at s) (after (m s).0 (m s).1);
  }
    where
      after : (r : Result A) (u : Session) → R u.db (continue f (r, u)).1.db
      after (ok a) u = (ef a).at u
      after (err x) u = order.stays u.db

-- A write that gives a row back.
pub Evolves-insert {κ} :
    {R : Db → Db → Type κ} {A : Type 0} (order : Preorder R) (f : Db → Result (A × Db))
    → ((db : Db) (x : A × Db) → f db ≡ ok x → R db x.1)
    → (s : Session)
    → R s.db
        (elim (f s.db) as (λ _. Result A × Session) [
          | ok (row, db) ↦ (ok row, record s { db = db })
          | err x ↦ (err x, s)
        ]).1.db
Evolves-insert {R = R} {A = A} order f step s = by_result (f s.db) refl
  where
    by_result :
        (r : Result (A × Db))
        → f s.db ≡ r
        → R s.db
            (elim r as (λ _. Result A × Session) [
              | ok (row, db) ↦ (ok row, record s { db = db })
              | err x ↦ (err x, s)
            ]).1.db
    by_result (ok (row, db)) p = step s.db (row, db) p
    by_result (err x) p = order.stays s.db

-- The order of an invariant.
module _ {κ} (P : Db → Type κ) where
  abbrev pub Preserves : Db → Db → Type κ
  Preserves before after = P before → P after

  abbrev pub preserves : Preorder Preserves
  preserves = record { stays = λ db h. h; composes = λ p q h. q (p h) }

-- An action that leaves a part of the tables alone preserves what is said of the part.
pub Evolves-part {ℓ κ μ} :
    {A : Type ℓ} {X : Type κ} (part : Db → X) (P : X → Type μ) (m : Action A)
    → Keeps part m
    → Evolves (Preserves (λ db. P (part db))) m
Evolves-part part P m k = record { at = λ s h. subst P (sym (k.at s)) h }

pub ruleset evolves_rules = (
  Evolves-pure, Evolves-lift, Evolves-query, Evolves-read, Evolves-if, Evolves-raise_when,
  Evolves-new_id, Evolves-modify, Evolves-bind, Evolves-transaction,
)
