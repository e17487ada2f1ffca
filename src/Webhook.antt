-- ===== src/Webhook.antt =====
-- internal/infra/postgreswebhook/dispatcher.go: what is delivered to the receivers of
-- an event, and where. Of the standard library url.Parse and encoding/json are parameters, and so is
-- SHA-256.
pub mod Manifest
pub mod Dispatcher
pub mod Order
pub mod Staging
pub mod Identity
pub mod Retry
pub mod Secrets
pub mod Transport
pub mod Delivery
mod Tests
use go_service_template_rest.Base.{
  ℕ, ◌*◌, ◌^◌, Bool, ◌||◌, ◌&&◌, not, List, [], ◌∷◌, ◌++◌, Option, none, some, Bytes, codes,
  if◌then◌else◌, ◌==◌, ltb, length, eq_bytes, is_none, is_some,
}
use go_service_template_rest.Base.Int.{ℤ, pos, leb_ℤ}
use go_service_template_rest.Base.Decimal.{format_int}
use go_service_template_rest.Base.Utf8.{utf8_from, contains_control, contains_space}
use go_service_template_rest.Base.GoError.{Err, Result, ok, err, ◌>>=◌, sentinel, errorf}

abbrev pub config_id : ℕ
config_id = 601

abbrev pub conflict_id : ℕ
conflict_id = 602

abbrev pub destination_denied_id : ℕ
destination_denied_id = 604

abbrev pub err_config : Err
err_config = sentinel config_id

abbrev pub err_conflict : Err
err_conflict = sentinel conflict_id

abbrev pub err_not_found : Err
err_not_found = sentinel 603

abbrev pub err_destination_denied : Err
err_destination_denied = sentinel destination_denied_id

abbrev pub err_secret_unavailable : Err
err_secret_unavailable = sentinel 605

-- `errDestinationURLDenied`.
abbrev pub err_destination_url_denied : Err
err_destination_url_denied = errorf err_destination_denied

abbrev pub max_event_data_bytes : ℕ
max_event_data_bytes = 128 * 2 ^ 10

abbrev pub max_receivers : ℕ
max_receivers = 1000

abbrev pub max_identity_bytes : ℕ
max_identity_bytes = 256

-- `occurred_at` is `none` for the zero time.
pub record Event : Type 0 where
  pub owner_scope : Bytes
  pub id : Bytes
  pub type : Bytes
  pub occurred_at : Option ℕ
  pub payload : Bytes

pub record Endpoint : Type 0 where
  pub owner_scope : Bytes
  pub receiver_id : Bytes
  pub generation : ℤ
  pub url : Bytes
  pub active_key_reference : Bytes
  pub predecessor_key_reference : Bytes

pub record DeliveryArgs : Type 0 where
  pub acceptance_id : Bytes
  pub delivery_id : Bytes
  pub owner_scope : Bytes
  pub receiver_id : Bytes
  pub receiver_generation : ℤ
  pub url : Bytes
  pub active_key_reference : Bytes
  pub predecessor_key_reference : Bytes
  pub fanout_fingerprint : Bytes
  pub body : Bytes

-- What url.Parse reads of a URL, and the rest of it.
pub record Url : Type 0 where
  pub scheme : Bytes
  pub has_user : Bool
  pub hostname : Bytes
  pub port : Bytes
  pub raw_query : Bytes
  pub force_query : Bool
  pub fragment : Bytes
  pub path : Bytes

-- The code that the repository calls: `sha256_hex` is a digest in hexadecimal, `encode_event` what json.Marshal makes of
-- an event, and `decode_args` reads the arguments of a stored job.
pub record Library : Type 0 where
  pub sha256_hex : Bytes → Bytes
  pub valid_json : Bytes → Bool
  pub encode_event : Event → Result Bytes
  pub decode_manifest : Bytes → Option (List Endpoint)
  pub decode_args : Bytes → Option DeliveryArgs
  pub parse_url : Bytes → Option Url
  pub url_string : Url → Bytes

-- A check in front of what follows it.
abbrev pub unless {ℓ} : {A : Type ℓ} → Option Err → Result A → Result A
unless none next = next
unless (some e) next = err e

abbrev pub first_error : Option Err → Option Err → Option Err
first_error none next = next
first_error (some e) next = some e

-- `validateToken`. A map of values is checked in any order, and every refusal is the same error but
-- for its text.
unfoldable pub valid_token : Bytes → Bool
unfolding utf8_from contains_control contains_space
valid_token value = not (
    length value == 0
    || ltb max_identity_bytes (length value)
    || not (utf8_from [] value)
    || contains_control value
    || contains_space value)

unfoldable pub validate_token : Bytes → Option Err
unfolding valid_token
validate_token value = if valid_token value then none else some (errorf err_config)

unfoldable pub validate_tokens : List Bytes → Option Err
unfolding validate_token
validate_tokens [] = none
validate_tokens (value ∷ values) = first_error (validate_token value) (validate_tokens values)

-- The check of a key reference that may be missing.
unfoldable pub validate_optional : Bytes → Option Err
unfolding validate_token
validate_optional [] = none
validate_optional (c ∷ value) = validate_token (c ∷ value)

-- `acceptableWebhookURL`.
unfoldable pub acceptable_webhook_url : Url → Bool
unfolding eq_bytes
acceptable_webhook_url u =
    eq_bytes u.scheme (codes "https")
    && not (length u.hostname == 0)
    && not u.has_user
    && length u.raw_query == 0
    && not u.force_query
    && length u.fragment == 0
    && (length u.port == 0 || eq_bytes u.port (codes "443"))

abbrev pub with_port : Url → Url
with_port u = if length u.port == 0 then record u { port = codes "443" } else u

abbrev pub accepted_url : Url → Result Url
accepted_url u =
    if acceptable_webhook_url u then ok (with_port u) else err err_destination_url_denied

-- `writeFields`.
unfoldable pub write_fields : List Bytes → Bytes
write_fields [] = []
write_fields (value ∷ values) = value ++ 0 ∷ write_fields values

abbrev pub endpoint_fields : Endpoint → List Bytes
endpoint_fields e =
    e.receiver_id
    ∷ format_int e.generation
    ∷ e.url
    ∷ e.active_key_reference
    ∷ e.predecessor_key_reference
    ∷ []

unfoldable pub fanout_fields : List Endpoint → List Bytes
unfolding format_int
fanout_fields [] = []
fanout_fields (e ∷ es) = endpoint_fields e ++ fanout_fields es

module _ (lib : Library) where
  open lib use {sha256_hex, valid_json, decode_manifest, parse_url, url_string}

  -- `parseWebhookURL`.
  unfoldable pub parse_webhook_url : Bytes → Result Url
  unfolding acceptable_webhook_url
  parse_webhook_url raw =
      if ltb 2048 (length raw)
      then err err_destination_url_denied
      else elim (parse_url raw) [ none ↦ err err_destination_url_denied | some u ↦ accepted_url u ]

  abbrev pub url_fault : Bytes → Option Err
  url_fault raw = elim (parse_webhook_url raw) [ err e ↦ some e | ok u ↦ none ]

  -- `deliveryArgs.validate`.
  unfoldable pub validate_args : DeliveryArgs → Option Err
  unfolding validate_tokens validate_optional parse_webhook_url
  validate_args a =
      first_error
        (validate_tokens (
          a.acceptance_id ∷ a.delivery_id ∷ a.owner_scope ∷ a.receiver_id ∷ a.active_key_reference
          ∷ a.fanout_fingerprint ∷ []))
        (first_error (validate_optional a.predecessor_key_reference) (
          if leb_ℤ a.receiver_generation (pos 0) || length a.body == 0 || not (valid_json a.body)
          then some (errorf err_config)
          else url_fault a.url))

  -- `validateEvent`.
  unfoldable pub validate_event : Event → Option Err
  unfolding validate_tokens
  validate_event e = first_error (validate_tokens (e.owner_scope ∷ e.id ∷ e.type ∷ [])) (
      if is_none e.occurred_at
      then some (errorf err_config)
      else if length e.payload == 0
          || ltb max_event_data_bytes (length e.payload)
          || not (valid_json e.payload)
      then some (errorf err_config)
      else none)

  -- `deriveStableID` and `deriveDeliveryID`.
  unfoldable pub derive_stable_id : Bytes → List Bytes → Bytes
  unfolding write_fields
  derive_stable_id prefix values = prefix ++ sha256_hex (write_fields values)

  unfoldable pub derive_delivery_id : Bytes → Bytes → Bytes → ℤ → Bytes
  unfolding derive_stable_id format_int
  derive_delivery_id owner event_id receiver generation =
      derive_stable_id (codes "whd_") (owner ∷ event_id ∷ receiver ∷ format_int generation ∷ [])

  -- `fingerprintFanout`.
  unfoldable pub fingerprint_fanout : Bytes → Bytes → Bytes → List Endpoint → Bytes
  unfolding write_fields fanout_fields
  fingerprint_fanout owner event_id body endpoints =
      sha256_hex (write_fields (owner ∷ event_id ∷ body ∷ fanout_fields endpoints))
