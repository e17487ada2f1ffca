-- ===== src/Grpc.antt =====
-- internal/infra/grpc: the methods of the standard health service (health_method.go) and the statuses
-- that the repository owns (status.go).
pub mod Admission
pub mod Status
use go_service_template_rest.Base.{
  ℕ, Bool, true, false, ◌&&◌, List, [], ◌∷◌, Bytes, codes, ◌==◌, eq_bytes,
}
use go_service_template_rest.Base.GoError.{Err, status, StatusDetail, GrpcStatus}

-- `strings.HasPrefix`, the prefix first.
unfoldable pub has_prefix : Bytes → Bytes → Bool
has_prefix [] s = true
has_prefix (c ∷ p) [] = false
has_prefix (c ∷ p) (d ∷ s) = c == d && has_prefix p s

abbrev pub health_method_prefix : Bytes
health_method_prefix = codes "/grpc.health.v1.Health/"

-- healthpb.Health_Check_FullMethodName.
abbrev pub health_check_method : Bytes
health_check_method = codes "/grpc.health.v1.Health/Check"

unfoldable pub is_health_check : Bytes → Bool
unfolding eq_bytes
is_health_check full_method = eq_bytes full_method health_check_method

unfoldable pub is_health_method : Bytes → Bool
unfolding has_prefix
is_health_method full_method = has_prefix health_method_prefix full_method

-- The codes of google.golang.org/grpc/codes that the service answers with.
abbrev pub canceled : ℕ
canceled = 1

abbrev pub invalid_argument : ℕ
invalid_argument = 3

abbrev pub deadline_exceeded : ℕ
deadline_exceeded = 4

abbrev pub not_found : ℕ
not_found = 5

abbrev pub already_exists : ℕ
already_exists = 6

abbrev pub permission_denied : ℕ
permission_denied = 7

abbrev pub resource_exhausted : ℕ
resource_exhausted = 8

abbrev pub unimplemented : ℕ
unimplemented = 12

abbrev pub internal : ℕ
internal = 13

abbrev pub unavailable : ℕ
unavailable = 14

abbrev pub unauthenticated : ℕ
unauthenticated = 16

-- `ownedStatus` with no details, and `ownedStatusError` with some.
abbrev pub owned_with : ℕ → Bytes → List StatusDetail → Err
owned_with code detail details =
    status true (record { code = code; message = detail; details = details })

abbrev pub owned_status : ℕ → Bytes → Err
owned_status code detail = owned_with code detail []
