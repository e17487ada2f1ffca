-- ===== src/Grpc/Status/Tests.antt =====
-- The theorems about statuses at concrete errors: a dependency's failure that one mapper answers.
use go_service_template_rest.Base.{
  ℕ, ◌≡◌, refl, Bool, true, false, List, [], ◌∷◌, none, some, Bytes, codes, if◌then◌else◌, eq_bytes,
}
use go_service_template_rest.Base.Int.{pos}
use go_service_template_rest.Base.GoError.{
  Err, status, GrpcStatus, StatusDetail, retry_info, error_info, sentinel, errorf,
}
use go_service_template_rest.Failure.{Mapper, code_too_many_requests}
use go_service_template_rest.Failure.Chain.{class_chain}
use go_service_template_rest.Grpc.{is_health_method, resource_exhausted, owned_with}
use go_service_template_rest.Grpc.Status.{handler_error_boundary}
use go_service_template_rest.Grpc.Status.Owned.{Vouched, handler_error_boundary-Vouched}

abbrev always : ℕ → List StatusDetail → Bool
always code details = true

abbrev throttled : Mapper
throttled err =
    some
      (record { code = code_too_many_requests; detail = codes " slow down "; retry_after = pos 5 })

abbrev failed : Err
failed = errorf (sentinel 900)

abbrev get : Bytes
get = codes "/a.B/Get"

mapped :
    (handler_error_boundary always get (none ∷ some throttled ∷ []) (some failed)).0
    ≡ some (
        owned_with resource_exhausted
          (codes "slow down")
          (retry_info (pos 5) ∷ error_info (codes "TOO_MANY_REQUESTS") (codes "a.B") ∷ []))
unfolding handler_error_boundary eq_bytes
mapped = refl

business : is_health_method get ≡ false
unfolding is_health_method
business = refl

handler_error_boundary-Vouched_example :
    (s : GrpcStatus) × (sanitized : Bool) × ((handler_error_boundary always get
        (none ∷ some throttled ∷ [])
        (some failed)).0
      ≡ some (status true s))
    × ((handler_error_boundary always get (none ∷ some throttled ∷ []) (some failed)).1
        ≡ (if sanitized then some (class_chain (some failed)) else none))
    × Vouched failed (none ∷ some throttled ∷ []) s sanitized
handler_error_boundary-Vouched_example =
    handler_error_boundary-Vouched failed (none ∷ some throttled ∷ []) always get business
