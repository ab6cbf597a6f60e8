-- ===== src/Session.antt =====
-- The database session that every operation runs in (src/fund_transfer/core/database.py).
-- The tables are lists of rows; a query is the filter that the source writes in its `where`.
-- SQLAlchemy, the database and the sources of randomness and time are the parameter `Engine`.
pub mod Laws
pub mod Rows
pub mod Columns
pub mod Keeps
pub mod Evolves
pub mod Undoes
pub mod Unwinding
pub mod Runs
pub mod Numeric
use Rows.{rows, update_row, with_balance}
use ai_spec_driven_developme.Prelude.{
  ℕ, ◌+◌, String, Bool, true, false, Option, none, some, List, [], ◌∷◌, if◌then◌else◌,
}
use ai_spec_driven_developme.Decimal.{Decimal}
use ai_spec_driven_developme.Errors.{
  Error, other_error, invalid_request_error, data_error, Result, ok, err,
}
use ai_spec_driven_developme.Models.{
  Account, Transfer, AuditLogEntry, CurrencyPair, FxRateSnapshot, Notification,
}

-- What the service takes from elsewhere.
pub record Engine : Type 0 where
  -- Whether `async with await _begin_transaction(session)` is entered, given whether an earlier
  -- query has already begun a transaction of the session. If not, it raises.
  pub begins : Bool → Bool
  -- A Numeric(precision, scale) column: what is read back of a value, `none` if it is refused.
  pub numeric : ℕ → ℕ → Decimal → Option Decimal
  -- Whether a String(n) or CHAR(n) column takes a text.
  pub fits : ℕ → String → Bool
  -- The n-th draw of `uuid.uuid4()`, and of `random.choices(chars, k=12)` as a text.
  pub uuid4 : ℕ → ℕ
  pub choices : ℕ → String
  -- `hashlib.sha256(…).hexdigest()`
  pub sha256 : String → String
  -- `datetime.now(timezone.utc)`, and the database's `now()`.
  pub utcnow : ℕ
  pub db_now : ℕ

pub record Db : Type 0 where
  pub accounts : List Account
  pub transfers : List Transfer
  pub audit_log : List AuditLogEntry
  pub currency_pairs : List CurrencyPair
  pub snapshots : List FxRateSnapshot
  pub notifications : List Notification

pub record Session : Type 0 where
  pub db : Db
  -- A query begins a transaction of the session where none is open.
  pub in_transaction : Bool
  -- How many random draws were made.
  pub draws : ℕ

-- An operation on the session: what was written before a raise stays until a rollback.
abbrev pub Action {ℓ} : Type ℓ → Type ℓ
Action A = Session → Result A × Session

module _ {ℓ} {A : Type ℓ} where
  abbrev pub pure : A → Action A
  pure a s = (ok a, s)

  abbrev pub lift : Result A → Action A
  lift r s = (r, s)

  -- A query; it opens a transaction of the session.
  abbrev pub query : (Db → Result A) → Action A
  query f s = (f s.db, record s { in_transaction = true })

abbrev pub raise_when : Bool → Error → Action (Unit {0})
raise_when c e s = (if c then err e else ok tt, s)

module _ {ℓ κ} {A : Type ℓ} {B : Type κ} where
  abbrev pub continue : (A → Action B) → Result A × Session → Result B × Session
  continue f (ok a, s) = f a s
  continue f (err e, s) = (err e, s)

  infixl 5 ◌>>=◌
  abbrev pub ◌>>=◌ : Action A → (A → Action B) → Action B
  ◌>>=◌ m f s = continue f (m s)

infixl 5 ◌>>◌
abbrev pub ◌>>◌ {ℓ κ} : {A : Type ℓ} {B : Type κ} → Action A → Action B → Action B
m >> k = m >>= λ _. k

-- A change of the tables that may be refused.
abbrev pub modify : (Db → Result Db) → Action (Unit {0})
modify f s = elim (f s.db) [ ok db ↦ (ok tt, record s { db = db }) | err e ↦ (err e, s) ]

-- `uuid.uuid4()`
abbrev pub new_id : Engine → Action ℕ
new_id e s = (ok (e.uuid4 s.draws), record s { draws = s.draws + 1 })

-- The end of a transaction block that was entered in `s`: commit, or rollback at a raise.
pub settle {ℓ} : {A : Type ℓ} → Session → Result A × Session → Result A × Session
settle s (ok a, t) = (ok a, record t { in_transaction = false })
settle s (err e, t) = (err e, record t { db = s.db; in_transaction = false })

-- `async with await _begin_transaction(session): body`
unfoldable pub transaction {ℓ} : {A : Type ℓ} → Engine → Action A → Action A
unfolding settle
transaction e body s =
    if e.begins s.in_transaction
    then settle s (body (record s { in_transaction = true }))
    else (err (other_error invalid_request_error), s)

-- A change of one account's balance, `account.balance = value`, and its column.
unfoldable pub set_balance : Engine → String → Decimal → Db → Result Db
set_balance e number value db = elim (e.numeric 19 4 value) [
  | none ↦ err (other_error data_error)
  | some d ↦ ok (record db { accounts = update_row number (with_balance d) db.accounts })
]

-- `account.balance`, of an object that the session may have changed since it was loaded: two loads
-- of one row give one object.
unfoldable pub current_balance : Account → Db → Decimal
current_balance account db = elim (rows account.account_number db.accounts) [
  | [] ↦ account.balance
  | a ∷ l ↦ a.balance
]

-- An attribute is read with no query.
abbrev pub read {ℓ} : {A : Type ℓ} → (Db → A) → Action A
read f s = (ok (f s.db), s)
