-- ===== src/Api/ErrorHandler.antt =====
-- src/fund_transfer/api/middleware/error_handler.py: the response to an exception.
use ai_spec_driven_developme.Prelude.{ℕ, String, Option, none, some}
use ai_spec_driven_developme.Errors.{
  Error, domain_error, rate_deviation_error, transfer_limit_exceeded_error, other_error,
  class_status_code, class_error_code,
}

pub record ErrorResponse : Type 0 where
  pub status_code : ℕ
  pub error_code : String
  pub request_id : String

abbrev given_or : Option String → String → String
given_or none y = y
given_or (some x) _ = x

unfoldable pub status_code : Error → ℕ
status_code (domain_error c _) = class_status_code c
status_code (rate_deviation_error _ _ _ _) = 409
status_code (transfer_limit_exceeded_error _ _ _) = 422
status_code (other_error _) = 500

unfoldable pub error_code : Error → String
error_code (domain_error c code) = given_or code (class_error_code c)
error_code (rate_deviation_error _ _ _ _) = "RATE_DEVIATION"
error_code (transfer_limit_exceeded_error _ _ _) = "TRANSFER_LIMIT_EXCEEDED"
error_code (other_error _) = "INTERNAL_ERROR"

-- Both handlers; the header X-Request-ID is given if the request has it.
unfoldable pub handle_error : Option String → Error → ErrorResponse
unfolding status_code error_code
handle_error request_id x = record {
  status_code = status_code x;
  error_code = error_code x;
  request_id = given_or request_id "unknown";
}
