-- ===== src/Grpc/Status.antt =====
-- internal/infra/grpc/status.go: the status that a caller gets for what a handler or a policy returned.
-- Whether WithDetails of grpc-go attaches details to a code is a parameter.
pub mod Owned
pub mod Reasons
mod Tests
use go_service_template_rest.Base.{
  ℕ, ◌-◌, ◌≡◌, Bool, true, false, ◌&&◌, not, List, [], ◌∷◌, ◌++◌, Option, none, some, Bytes, codes,
  if◌then◌else◌, ◌==◌, leb, length, eq_bytes,
}
use go_service_template_rest.Base.Int.{ℤ, pos, ltb_ℤ}
use go_service_template_rest.Base.GoError.{
  Err, Errs, leaf, wrapped, joined, op_error, permanent, status, nil, cons, is, GrpcStatus,
  StatusDetail, retry_info, error_info,
}
use go_service_template_rest.Failure.{
  Code, Classification, Mapper, classify, contains, sanitized_detail, code_bad_request,
  code_unauthorized, code_forbidden, code_not_found, code_method_not_allowed, code_already_exists,
  code_request_entity_too_large, code_request_header_fields_too_large, code_unprocessable_content,
  code_too_many_requests, code_idempotency_key_mismatch, code_idempotency_unavailable,
  code_idempotency_outcome_unknown, code_service_unavailable, code_gateway_timeout,
}
use go_service_template_rest.Failure.Chain.{trim_space, class_chain}
use go_service_template_rest.Grpc.{
  is_health_method, canceled, invalid_argument, deadline_exceeded, not_found, already_exists,
  permission_denied, resource_exhausted, unimplemented, internal, unavailable, unauthenticated,
  owned_with, owned_status,
}

-- `errors.Is` on the two errors of package context.
abbrev pub context_canceled : ℕ
context_canceled = 1

abbrev pub context_deadline_exceeded : ℕ
context_deadline_exceeded = 2

-- `mapContextError`.
unfoldable pub map_context_error : Err → Option Err
unfolding is
map_context_error err =
    if is err context_canceled
    then some (owned_status canceled (codes "request canceled"))
    else if is err context_deadline_exceeded
    then some (owned_status deadline_exceeded (codes "request deadline exceeded"))
    else none

-- `errors.AsType[*ownedStatusError]`: the first in the tree.
abbrev pub or_owned : Option GrpcStatus → Option GrpcStatus → Option GrpcStatus
or_owned none other = other
or_owned (some s) other = some s

unfoldable mutual
  pub find_owned : Err → Option GrpcStatus
  find_owned (leaf ty i) = none
  find_owned (wrapped ty e) = find_owned e
  find_owned (joined ty es) = find_owned_any es
  find_owned (op_error name e) = find_owned e
  find_owned (permanent e) = find_owned e
  find_owned (status true s) = some s
  find_owned (status false s) = none

  pub find_owned_any : Errs → Option GrpcStatus
  find_owned_any nil = none
  find_owned_any (cons e es) = or_owned (find_owned e) (find_owned_any es)

-- `directStatus`, which does not unwrap.
unfoldable pub direct_status : Err → Option GrpcStatus
direct_status (leaf ty i) = none
direct_status (status owned s) = some s
direct_status _ = none

unfoldable pub is_unimplemented : Option GrpcStatus → Bool
is_unimplemented none = false
is_unimplemented (some s) = s.code == unimplemented

-- `methodDomain`: the service of "/service/method".
unfoldable pub before_slash : Bytes → Option Bytes
before_slash [] = none
before_slash (c ∷ s) =
    let rest = before_slash s in
    if c == b'/' then some [] else elim rest [ none ↦ none | some before ↦ some (c ∷ before) ]

abbrev pub trim_slash : Bytes → Bytes
trim_slash [] = []
trim_slash (c ∷ s) = if c == b'/' then s else c ∷ s

unfoldable pub method_domain : Bytes → Bytes
unfolding before_slash
method_domain full_method = elim (before_slash (trim_slash full_method)) [
  | none ↦ []
  | some service ↦ service
]

-- `grpcCode`.
unfoldable pub grpc_code : Code → ℕ
unfolding contains
grpc_code code =
    if contains (code_bad_request ∷ code_unprocessable_content ∷ []) code
    then invalid_argument
    else if contains (code_idempotency_key_mismatch ∷ []) code
    then invalid_argument
    else if contains (code_unauthorized ∷ []) code
    then unauthenticated
    else if contains (code_forbidden ∷ []) code
    then permission_denied
    else if contains (code_not_found ∷ []) code
    then not_found
    else if contains (code_method_not_allowed ∷ []) code
    then unimplemented
    else if contains (code_already_exists ∷ []) code
    then already_exists
    else if contains (code_request_entity_too_large ∷ code_too_many_requests ∷ []) code
    then resource_exhausted
    else if contains (code_request_header_fields_too_large ∷ []) code
    then resource_exhausted
    else if contains (code_service_unavailable ∷ []) code
    then unavailable
    else if contains (code_idempotency_unavailable ∷ code_idempotency_outcome_unknown ∷ []) code
    then unavailable
    else if contains (code_gateway_timeout ∷ []) code
    then deadline_exceeded
    else internal

-- `strings.ToUpper` on ASCII, as the published codes are.
unfoldable pub upper_byte : ℕ → ℕ
upper_byte c = if leb b'a' c && leb c b'z' then c - 32 else c

unfoldable pub to_upper : Bytes → Bytes
unfolding upper_byte
to_upper [] = []
to_upper (c ∷ s) = upper_byte c ∷ to_upper s

-- `classifiedDetails`.
unfoldable pub retry_details : ℤ → List StatusDetail
retry_details delay = if ltb_ℤ (pos 0) delay then retry_info delay ∷ [] else []

unfoldable pub reason_details : Code → Bytes → List StatusDetail
unfolding to_upper
reason_details code [] = []
reason_details code (c ∷ domain) = error_info (to_upper code) (c ∷ domain) ∷ []

unfoldable pub classified_details : Classification → Bytes → List StatusDetail
unfolding retry_details reason_details
classified_details mapped domain =
    retry_details mapped.retry_after ++ reason_details mapped.code domain

-- `cmp.Or` of the trimmed detail and the sanitized one.
abbrev pub or_sanitized : Bytes → Bytes
or_sanitized [] = sanitized_detail
or_sanitized (c ∷ detail) = c ∷ detail

abbrev pub or_else : Option Err → Option Err × Bool → Option Err × Bool
or_else none other = other
or_else (some answer) other = (some answer, false)

abbrev pub as_err : Option GrpcStatus → Option Err
as_err none = none
as_err (some s) = some (status true s)

-- `mapPolicyError`, which passes a direct status on as it is.
unfoldable pub map_policy_error : Option Err → Option Err × Bool
unfolding map_context_error direct_status
map_policy_error none = (none, false)
map_policy_error (some err) = or_else (map_context_error err) (elim (direct_status err) [
  | some s ↦ (some err, false)
  | none ↦ (some (owned_status internal sanitized_detail), true)
])

-- `recordUnhandledFailure` where the error was sanitized.
unfoldable pub record_if : Option Err → Option Err × Bool → Option Err × Option Bytes
unfolding class_chain
record_if err (mapped, sanitized) = (mapped, if sanitized then some (class_chain err) else none)

-- `policyErrorBoundary`.
unfoldable pub policy_error_boundary : Option Err → Option Err × Option Bytes
unfolding map_policy_error record_if
policy_error_boundary err = record_if err (map_policy_error err)

module _ (attaches : ℕ → List StatusDetail → Bool) where
  unfoldable pub mapped_status : Classification → Bytes → Err
  unfolding classified_details grpc_code trim_space
  mapped_status mapped domain =
      let details = classified_details mapped domain in
      owned_with (grpc_code mapped.code) (or_sanitized (trim_space mapped.detail)) (
        if not (length details == 0) && attaches (grpc_code mapped.code) details
        then details
        else [])

  -- `mapHandlerError` behind the tests for a context's error and an owned status.
  unfoldable pub classified_or_sanitized : Option Classification → Bytes → Option Err × Bool
  unfolding mapped_status
  classified_or_sanitized none domain = (some (owned_status internal sanitized_detail), true)
  classified_or_sanitized (some mapped) domain = (some (mapped_status mapped domain), false)

  unfoldable pub map_handler_error_rest : Err → List (Option Mapper) → Bytes → Option Err × Bool
  unfolding classified_or_sanitized classify direct_status is_unimplemented
  map_handler_error_rest err mappers domain =
      if is_unimplemented (direct_status err)
      then (some (owned_status unimplemented (codes "method not implemented")), false)
      else classified_or_sanitized (classify err mappers) domain

  unfoldable pub map_handler_error : Option Err → List (Option Mapper) → Bytes → Option Err × Bool
  unfolding map_context_error find_owned map_handler_error_rest
  map_handler_error none mappers domain = (none, false)
  map_handler_error (some err) mappers domain =
      or_else (map_context_error err)
        (or_else (as_err (find_owned err)) (map_handler_error_rest err mappers domain))

  -- `handlerErrorBoundary`: what the caller gets, and the chain of classes that is logged.
  unfoldable pub handler_error_boundary :
      Bytes → List (Option Mapper) → Option Err → Option Err × Option Bytes
  unfolding map_handler_error is_health_method method_domain record_if
  handler_error_boundary full_method mappers err =
      if is_health_method full_method
      then (err, none)
      else record_if err (map_handler_error err mappers (method_domain full_method))
