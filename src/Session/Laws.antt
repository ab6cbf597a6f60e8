-- ===== src/Session/Laws.antt =====
-- What an action did that returned.
use ai_spec_driven_developme.Prelude.{
  String, ◌≡◌, refl, Bool, true, false, some, List, ◌∷◌, arith, Option-cases, Bool-cases, inl, inr,
  sym, ap, ap₂,
}
use ai_spec_driven_developme.Decimal.{Decimal}
use ai_spec_driven_developme.Errors.{Error, Result, ok, err}
use ai_spec_driven_developme.Models.{Account}
use ai_spec_driven_developme.Session.{
  Engine, Db, Session, Action, continue, raise_when, modify, transaction, settle, set_balance,
  current_balance,
}
use ai_spec_driven_developme.Session.Rows.{rows, update_row, with_balance}

-- Inversion of a bind that returned.
pub continue-eq-ok {ℓ κ} :
    {A : Type ℓ} {B : Type κ} (f : A → Action B) (r : Result A × Session) {b : B} {t : Session}
    → continue f r ≡ (ok b, t)
    → (a : A) × (u : Session) × (r ≡ (ok a, u)) × (f a u ≡ (ok b, t))
continue-eq-ok f (ok a, u) h = (a, u, refl, h)
continue-eq-ok f (err e, u) h = ground arith

-- The same, for a goal that the two halves prove.
pub after_bind {ℓ κ μ} :
    {A : Type ℓ} {B : Type κ} {P : Type μ} (f : A → Action B) (r : Result A × Session) {b : B}
    {t : Session}
    → continue f r ≡ (ok b, t)
    → ((a : A) (u : Session) → r ≡ (ok a, u) → f a u ≡ (ok b, t) → P)
    → P
after_bind f r h use_parts = let (a, u, p, q) = continue-eq-ok f r h in use_parts a u p q

pub raise_when-eq-ok :
    (c : Bool) (e : Error) (s : Session) {x : Unit {0}} {t : Session}
    → raise_when c e s ≡ (ok x, t)
    → (c ≡ false) × (t ≡ s)
raise_when-eq-ok c e s h = (ground arith, ground arith)

pub second {ℓ κ} :
    {A : Type ℓ} {B : Type κ} {a a' : A} {b b' : B} → ◌≡◌ {A = A × B} (a, b) (a', b') → b ≡ b'
second h = ap (λ p. p.1) h

-- An assignment of a balance that returned stored what the column made of the value.
pub set_balance-eq-ok :
    (e : Engine) (number : String) (value : Decimal) (s : Session) {x : Unit {0}} {t : Session}
    → modify (set_balance e number value) s ≡ (ok x, t)
    → (d : Decimal) × (e.numeric 19 4 value ≡ some d)
      × (t ≡ record s {
        db = record s.db { accounts = update_row number (with_balance d) s.db.accounts };
      })
unfolding set_balance
set_balance-eq-ok e number value s h = elim (Option-cases (e.numeric 19 4 value)) [
  | inl refused ↦ absurd (ground (arith, rw (refused, modify) at h))
  | inr (d, p) ↦ (d, p, sym (second (rw (p, modify) at h)))
]

settle-eq-ok {ℓ} :
    {A : Type ℓ} (s : Session) (r : Result A × Session) {a : A} {t : Session}
    → settle s r ≡ (ok a, t)
    → (u : Session) × (r ≡ (ok a, u)) × (t.db ≡ u.db)
unfolding settle
settle-eq-ok s (ok a, u) h = (u, ground arith, ground arith)
settle-eq-ok s (err e, u) h = ground arith

-- A transaction that returned ran its body, and only closed the transaction after it.
pub transaction-eq-ok {ℓ} :
    {A : Type ℓ} (e : Engine) (body : Action A) (s : Session) {a : A} {t : Session}
    → transaction e body s ≡ (ok a, t)
    → (u : Session) × (body (record s { in_transaction = true }) ≡ (ok a, u)) × (t.db ≡ u.db)
unfolding transaction
transaction-eq-ok e body s h = elim (Bool-cases (e.begins s.in_transaction)) [
  | inl entered ↦ settle-eq-ok s (body (record s { in_transaction = true })) (rw entered at h)
  | inr refused ↦ absurd (ground (arith, rw refused at h))
]

-- A transaction that raised left every table as it was.
pub transaction-eq-err {ℓ} :
    {A : Type ℓ} (e : Engine) (body : Action A) (s : Session) {x : Error} {t : Session}
    → transaction e body s ≡ (err x, t)
    → t.db ≡ s.db
unfolding transaction
transaction-eq-err e body s h = ground arith

pub ok-injective {ℓ} :
    {A : Type ℓ} (a b : A) (s t : Session)
    → ◌≡◌ {A = Result A × Session} (ok a, s) (ok b, t)
    → (a ≡ b) × (s ≡ t)
ok-injective a b s t h = (cc (ap (λ p. p.0) h), second h)

-- An object's balance is that of its row.
pub current_balance-found :
    (a b : Account) (l : List Account) (db : Db)
    → rows a.account_number db.accounts ≡ b ∷ l
    → current_balance a db ≡ b.balance
unfolding current_balance
current_balance-found a b l db h = rw (current_balance, h)

raised_alike {ℓ κ} :
    {A : Type ℓ} {B : Type κ} (x y : Error) (s t : Session)
    → ◌≡◌ {A = Result B × Session} (err x, s) (err y, t)
    → ◌≡◌ {A = Result A × Session} (err x, s) (err y, t)
raised_alike {A} {B} x y s t h =
    let same : x ≡ y = cc (ap {B = Result B} (λ p. p.0) h) in
    ap₂ {C = Result A × Session} (λ e u. (err e, u)) same (second h)

-- A bind that raised raised in its first half or, after that returned, in the second.
pub after_error {ℓ κ μ} :
    {A : Type ℓ} {B : Type κ} {P : Type μ} (f : A → Action B) (r : Result A × Session) {x : Error}
    {t : Session}
    → continue f r ≡ (err x, t)
    → (r ≡ (err x, t) → P)
    → ((a : A) (u : Session) → r ≡ (ok a, u) → f a u ≡ (err x, t) → P)
    → P
after_error f (ok a, u) h first then_second = then_second a u refl h
after_error f (err e, u) {x = x} {t = t} h first then_second = first (raised_alike e x u t h)
