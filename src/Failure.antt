-- ===== src/Failure.antt =====
-- internal/failure: the identities of failures that every transport shares.
pub mod Chain
pub mod Laws
mod Tests
use go_service_template_rest.Base.{
  Bool, true, false, ◌||◌, List, [], ◌∷◌, Option, none, some, Bytes, codes, eq_bytes, if◌then◌else◌,
}
use go_service_template_rest.Base.Int.{ℤ}
use go_service_template_rest.Base.GoError.{Err}

-- Go's `type Code string`: any text, of which the constants below are published.
abbrev pub Code : Type 0
Code = Bytes

abbrev pub code_bad_request : Code
code_bad_request = codes "bad_request"

abbrev pub code_unauthorized : Code
code_unauthorized = codes "unauthorized"

abbrev pub code_forbidden : Code
code_forbidden = codes "forbidden"

abbrev pub code_not_found : Code
code_not_found = codes "not_found"

abbrev pub code_method_not_allowed : Code
code_method_not_allowed = codes "method_not_allowed"

abbrev pub code_already_exists : Code
code_already_exists = codes "already_exists"

abbrev pub code_request_entity_too_large : Code
code_request_entity_too_large = codes "request_entity_too_large"

abbrev pub code_request_header_fields_too_large : Code
code_request_header_fields_too_large = codes "request_header_fields_too_large"

abbrev pub code_unprocessable_content : Code
code_unprocessable_content = codes "unprocessable_content"

abbrev pub code_too_many_requests : Code
code_too_many_requests = codes "too_many_requests"

abbrev pub code_idempotency_key_mismatch : Code
code_idempotency_key_mismatch = codes "idempotency_key_mismatch"

abbrev pub code_idempotency_unavailable : Code
code_idempotency_unavailable = codes "idempotency_unavailable"

abbrev pub code_idempotency_outcome_unknown : Code
code_idempotency_outcome_unknown = codes "idempotency_outcome_unknown"

abbrev pub code_internal_error : Code
code_internal_error = codes "internal_error"

abbrev pub code_service_unavailable : Code
code_service_unavailable = codes "service_unavailable"

abbrev pub code_gateway_timeout : Code
code_gateway_timeout = codes "gateway_timeout"

unfoldable pub all_codes : List Code
all_codes =
    code_bad_request ∷ code_unauthorized ∷ code_forbidden ∷ code_not_found ∷ code_method_not_allowed
    ∷ code_already_exists ∷ code_request_entity_too_large ∷ code_request_header_fields_too_large
    ∷ code_unprocessable_content ∷ code_too_many_requests ∷ code_idempotency_key_mismatch
    ∷ code_idempotency_unavailable ∷ code_idempotency_outcome_unknown ∷ code_internal_error
    ∷ code_service_unavailable ∷ code_gateway_timeout ∷ []

-- `slices.Contains` on texts.
unfoldable pub contains : List Bytes → Bytes → Bool
contains [] c = false
contains (x ∷ xs) c = eq_bytes x c || contains xs c

abbrev pub sanitized_detail : Bytes
sanitized_detail = codes "request failed"

abbrev pub at_capacity_detail : Bytes
at_capacity_detail = codes "server is at capacity"

-- `retry_after` is a time.Duration in nanoseconds.
pub record Classification : Type 0 where
  pub code : Code
  pub detail : Bytes
  pub retry_after : ℤ

-- A mapper answers `none` where the Go function returns false. It is called with an error that is
-- not nil.
abbrev pub Mapper : Type 0
Mapper = Err → Option Classification

-- The test that `Classify` makes of the first answer.
unfoldable pub publish : Classification → Option Classification
unfolding all_codes
publish c = if contains all_codes c.code then some c else none

-- A nil entry of the list is `none`.
unfoldable pub classify : Err → List (Option Mapper) → Option Classification
unfolding publish
classify err [] = none
classify err (none ∷ mappers) = classify err mappers
classify err (some mapper ∷ mappers) = elim (mapper err) [
  | none ↦ classify err mappers
  | some classified ↦ publish classified
]
