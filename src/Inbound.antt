-- ===== src/Inbound.antt =====
-- internal/inboundwebhook/receiver.go and internal/infra/postgresinboundwebhook/receiver.go with the
-- lookups of its manifest.go: what a delivery is verified by. Inbound/Receiver accepts it.
-- strings.TrimSpace (`trimmed`), SHA-256 and the signature check of standard-webhooks are parameters.
pub mod Receiver
pub mod Manifest
pub mod Accepted
pub mod Repeat
pub mod Again
pub mod Worker
pub mod Rows
pub mod Settling
mod Tests
use go_service_template_rest.Base.{
  ℕ, suc, ◌+◌, ◌*◌, ◌^◌, Bool, true, false, ◌||◌, ◌&&◌, not, List, [], ◌∷◌, Option, none, some,
  Bytes, if◌then◌else◌, ◌==◌, leb, ltb, length, eq_bytes,
}
use go_service_template_rest.Base.Int.{
  ℤ, pos, negsuc, pos_part, neg_part, sub_ℕ, leb_ℤ, max_ℤ, min_ℤ, max_int64, min_int64,
}
use go_service_template_rest.Base.GoError.{Err, Result, ok, err, sentinel, errorf, errorf_two, is}
use go_service_template_rest.Base.Utf8.{utf8_from, contains_control, contains_space}
use go_service_template_rest.Base.Decimal.{value_from}
use go_service_template_rest.Idempotency.Store.Execute.{
  Commit, commit_result, with_extra, err_transaction, commit_unknown_id,
}
use go_service_template_rest.Jetstream.Registry.{all_digits}
use go_service_template_rest.Grpc.Status.{context_canceled, context_deadline_exceeded}

-- `Delivery`.
pub record Delivery : Type 0 where
  pub endpoint_id : Bytes
  pub delivery_id : Bytes
  pub timestamp : Bytes
  pub signature : Bytes
  pub body : Bytes

-- `Outcome`.
pub data Outcome : Type 0 where
  accepted duplicate unknown_endpoint rejected conflict : Outcome

-- `ErrUnavailable`.
abbrev pub err_inbound_unavailable : Err
err_inbound_unavailable = sentinel 701

-- `endpointSecrets`; a predecessor that is absent is empty.
pub record EndpointSecrets : Type 0 where
  pub active : Bytes
  pub predecessor : Bytes

-- `TrustManifest`, a map by the id of the endpoint.
abbrev pub TrustManifest : Type 0
TrustManifest = List (Bytes × EndpointSecrets)

-- `Lookup` and `secretsFor`.
unfoldable pub secrets_for : TrustManifest → Bytes → Option EndpointSecrets
unfolding eq_bytes
secrets_for [] endpoint_id = none
secrets_for ((known, secrets) ∷ trust) endpoint_id =
    if eq_bytes known endpoint_id then some secrets else secrets_for trust endpoint_id

-- `validDeliveryID`.
unfoldable pub valid_delivery_id : Bytes → Bool
unfolding utf8_from contains_control contains_space
valid_delivery_id value =
    if length value == 0 || ltb 256 (length value) || not (utf8_from [] value)
    then false
    else not (contains_control value || contains_space value)

-- strconv.ParseInt in base 10 for 64 bits: a sign, digits, and the bounds.
unfoldable pub parse_digits : Bytes → Option ℕ
unfolding all_digits value_from
parse_digits s = if length s == 0 || not (all_digits s) then none else some (value_from 0 s)

abbrev pub within_positive : Option ℕ → Option ℤ
within_positive none = none
within_positive (some n) = if ltb n (2 ^ 63) then some (pos n) else none

abbrev pub within_negative : Option ℕ → Option ℤ
within_negative none = none
within_negative (some n) = if leb n (2 ^ 63) then some (sub_ℕ 0 n) else none

unfoldable pub parse_int64 : Bytes → Option ℤ
unfolding parse_digits
parse_int64 [] = none
parse_int64 (c ∷ s) =
    if c == b'-'
    then within_negative (parse_digits s)
    else if c == b'+'
    then within_positive (parse_digits s)
    else within_positive (parse_digits (c ∷ s))

-- `signatureTolerance`, in nanoseconds.
abbrev pub signature_tolerance : ℤ
signature_tolerance = pos (300 * 10 ^ 9)

abbrev negated : ℤ → ℤ
negated a = sub_ℕ (neg_part a) (pos_part a)

-- The nanoseconds of a time that is a number of seconds since 1970.
abbrev from_seconds : ℤ → ℤ
from_seconds s = sub_ℕ (10 ^ 9 * pos_part s) (10 ^ 9 * neg_part s)

-- Time.Sub, which stays within an int64.
abbrev time_difference : ℤ → ℤ → ℤ
time_difference a b =
    max_ℤ min_int64 (min_ℤ max_int64 (sub_ℕ (pos_part a + neg_part b) (neg_part a + pos_part b)))

-- `timestampInTolerance`, on the seconds that were signed and a clock in nanoseconds.
unfoldable pub timestamp_in_tolerance : ℤ → ℤ → Bool
timestamp_in_tolerance signed_at now =
    let delta = time_difference now (from_seconds signed_at) in
    leb_ℤ delta signature_tolerance && leb_ℤ (negated signature_tolerance) delta

-- What is not in the repository; `verify` is NewWebhookRaw with VerifyIgnoringTimestamp, of a key, an
-- id, a timestamp, a signature and a body.
pub record Standard : Type 0 where
  pub sha256 : Bytes → Bytes
  pub trimmed : Bytes → Bytes
  pub verify : Bytes → Bytes → Bytes → Bytes → Bytes → Bool
