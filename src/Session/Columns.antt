-- ===== src/Session/Columns.antt =====
-- The columns of the tables.
use ai_spec_driven_developme.Prelude.{ℕ, String, not, Option, none, some}
use ai_spec_driven_developme.Decimal.{Decimal}
use ai_spec_driven_developme.Errors.{other_error, data_error, Result, ok, raise_if, or_raise, ◌>>=◌}
use ai_spec_driven_developme.Session.{Engine}

-- A Numeric(precision, scale) column.
abbrev pub stored : Engine → ℕ → ℕ → Decimal → Result Decimal
stored e precision scale d = or_raise (e.numeric precision scale d) (other_error data_error)

-- The same, nullable.
abbrev pub stored_or_null : Engine → ℕ → ℕ → Option Decimal → Result (Option Decimal)
stored_or_null e precision scale none = ok none
stored_or_null e precision scale (some d) = do x ← stored e precision scale d; ok (some x)

-- A String(n) or CHAR(n) column.
abbrev pub checked : Engine → ℕ → String → Result (Unit {0})
checked e n text = raise_if (not (e.fits n text)) (other_error data_error)
