-- ===== src/Security.antt =====
-- src/fund_transfer/core/security.py and api/middleware/auth.py: who calls, by a bearer token,
-- and what is decided from the claims of the token. The decoding of a token is PyJWT's.
use ai_spec_driven_developme.Prelude.{
  true, [], ◌∷◌, Option, ℕ, String, Bool, false, not, ◌&&◌, none, some, List, lookup, str_eq,
}
use ai_spec_driven_developme.Errors.{domain_error, forbidden_error, Result, raise_if}

-- The claims that are texts.
abbrev pub Claims : Type 0
Claims = List (String × String)

-- `claims.get(name) == value`
abbrev pub claim_is : String → String → Claims → Bool
claim_is name value claims = elim (lookup name claims) [ none ↦ false | some x ↦ str_eq x value ]

unfoldable pub is_operator : Claims → Bool
is_operator claims = claim_is "role" "operator" claims

unfoldable pub require_owner_or_operator : String → Claims → Result (Unit {0})
require_owner_or_operator account_owner_id claims =
    raise_if (not (claim_is "sub" account_owner_id claims) && not (is_operator claims))
      (domain_error forbidden_error none)

-- `auth_principal.get("sub", "unknown")`
unfoldable pub caller_of : Claims → String
caller_of claims = elim (lookup "sub" claims) [ none ↦ "unknown" | some x ↦ x ]

-- PyJWT, with the keys of the identity provider; `none` where it raises.
pub record Jwt : Type 0 where
  pub get_signing_key_from_jwt : (token : String) → Option String
  pub decode :
      (token key : String)
      → (algorithms : List String) → (audience : String) → (verify_exp : Bool) → Option Claims

unfoldable pub validate_token : Jwt → (audience : String) → (token : String) → Option Claims
validate_token jwt audience token = elim (jwt.get_signing_key_from_jwt token) [
  | none ↦ none
  | some key ↦ jwt.decode token key ("RS256" ∷ []) audience true
]

-- HTTPException: the status and the `error_code` of its detail.
pub record HttpException : Type 0 where
  pub status_code : ℕ
  pub error_code : String

abbrev pub unauthorized : HttpException
unauthorized = record { status_code = 401; error_code = "UNAUTHORIZED" }

pub data Authentication : Type 0 where
  authenticated : Claims → Authentication
  raised : HttpException → Authentication

abbrev claims_or_raise : Option Claims → Authentication
claims_or_raise none = raised unauthorized
claims_or_raise (some claims) = authenticated claims

-- `get_auth_principal` of auth.py calls it with the credentials of the bearer scheme.
unfoldable pub get_current_user :
    Jwt → (audience : String) → (credentials : Option String) → Authentication
unfolding validate_token
get_current_user jwt audience none = raised unauthorized
get_current_user jwt audience (some token) = claims_or_raise (validate_token jwt audience token)
