-- ===== src/Errors.antt =====
-- The exceptions of src/fund_transfer/core/exceptions.py, and the results of code that may raise.
-- The texts of the messages are not modelled; what the handlers read of an exception is.
use ai_spec_driven_developme.Prelude.{ℕ, String, Bool, true, false, Option, none, some, ◌≡◌, refl}
use ai_spec_driven_developme.Decimal.{Decimal}

-- `FundTransferError` and its subclasses that carry nothing more.
pub data ErrorClass : Type 0 where
  fund_transfer_error validation_error unsupported_currency_error not_found_error : ErrorClass
  forbidden_error insufficient_funds_error limit_exceeded_error : ErrorClass
  idempotency_conflict_error account_has_balance_error database_error : ErrorClass
  stale_rate_error unsupported_currency_pair_error capacity_exceeded_error : ErrorClass

-- What else may be raised: Python's and the database layer's exceptions.
pub data Fault : Type 0 where
  value_error invalid_operation division_by_zero key_error data_error integrity_error : Fault
  multiple_results_found invalid_request_error deadlock_detected unbound_local_error
        attribute_error :
      Fault

pub data Error : Type 0 where
  -- A class, and the `error_code` argument if one is given.
  domain_error : ErrorClass → Option String → Error
  -- RateDeviationError: preview_rate, current_rate, deviation_pct, new_snapshot_id
  rate_deviation_error : Decimal → Decimal → Decimal → ℕ → Error
  -- TransferLimitExceededError: limit_type, limit_usd, attempted_usd
  transfer_limit_exceeded_error : String → Decimal → Decimal → Error
  other_error : Fault → Error

abbrev pub class_status_code : ErrorClass → ℕ
class_status_code fund_transfer_error = 500
class_status_code validation_error = 400
class_status_code unsupported_currency_error = 400
class_status_code not_found_error = 404
class_status_code forbidden_error = 403
class_status_code insufficient_funds_error = 422
class_status_code limit_exceeded_error = 422
class_status_code idempotency_conflict_error = 409
class_status_code account_has_balance_error = 400
class_status_code database_error = 500
class_status_code stale_rate_error = 503
class_status_code unsupported_currency_pair_error = 422
class_status_code capacity_exceeded_error = 503

abbrev pub class_error_code : ErrorClass → String
class_error_code fund_transfer_error = "INTERNAL_ERROR"
class_error_code validation_error = "VALIDATION_ERROR"
class_error_code unsupported_currency_error = "UNSUPPORTED_CURRENCY"
class_error_code not_found_error = "ACCOUNT_NOT_FOUND"
class_error_code forbidden_error = "FORBIDDEN"
class_error_code insufficient_funds_error = "INSUFFICIENT_FUNDS"
class_error_code limit_exceeded_error = "TRANSFER_LIMIT_EXCEEDED"
class_error_code idempotency_conflict_error = "IDEMPOTENCY_CONFLICT"
class_error_code account_has_balance_error = "ACCOUNT_HAS_BALANCE"
class_error_code database_error = "DATABASE_ERROR"
class_error_code stale_rate_error = "STALE_EXCHANGE_RATE"
class_error_code unsupported_currency_pair_error = "UNSUPPORTED_CURRENCY_PAIR"
class_error_code capacity_exceeded_error = "CAPACITY_EXCEEDED"

pub data Result {ℓ} (A : Type ℓ) : Type ℓ where
  err : Error → Result A
  ok : A → Result A

abbrev pub or_raise {ℓ} : {V : Type ℓ} → Option V → Error → Result V
or_raise (some value) _ = ok value
or_raise none x = err x

abbrev pub raise_if : Bool → Error → Result (Unit {0})
raise_if condition x = elim condition [ false ↦ ok tt | true ↦ err x ]

-- The statements after one that may raise.
module _ {ℓ κ} {V : Type ℓ} {W : Type κ} where
  infixl 5 ◌>>=◌
  abbrev pub ◌>>=◌ : Result V → (V → Result W) → Result W
  r >>= rest = elim r [ err x ↦ err x | ok value ↦ rest value ]

  pub >>=-eq-ok :
      (r : Result V) (rest : V → Result W) {w : W}
      → (r >>= rest) ≡ ok w
      → (v : V) × (r ≡ ok v) × (rest v ≡ ok w)
  >>=-eq-ok (err x) rest p = cc
  >>=-eq-ok (ok v) rest p = (v, refl, p)

infixl 5 ◌>>◌
abbrev pub ◌>>◌ {ℓ} : {W : Type ℓ} → Result (Unit {0}) → Result W → Result W
check >> rest = check >>= λ _. rest

pub raise_if-eq-ok : (b : Bool) (e : Error) {u : Unit {0}} → raise_if b e ≡ ok u → b ≡ false
raise_if-eq-ok true e h = cc
raise_if-eq-ok false e h = refl

pub or_raise-eq-ok {ℓ} :
    {A : Type ℓ} (o : Option A) (e : Error) {a : A} → or_raise o e ≡ ok a → o ≡ some a
or_raise-eq-ok none e h = cc
or_raise-eq-ok (some a) e h = cc
