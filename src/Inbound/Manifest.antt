-- ===== src/Inbound/Manifest.antt =====
-- internal/inboundwebhook/manifest/endpoint.go and internal/infra/postgresinboundwebhook/manifest.go: the
-- endpoints, their keys, and the trust that binds them. encoding/json is a parameter; base64 and SHA-256
-- are those of the webhook secrets. A map is an association list, and a manifest is never nil.
pub mod Apart
pub mod Separate
mod Tests
use go_service_template_rest.Base.{
  ℕ, ◌^◌, Bool, true, false, ◌||◌, ◌&&◌, not, List, [], ◌∷◌, Option, none, some, Bytes,
  if◌then◌else◌, ◌==◌, leb, ltb, length, eq_bytes, is_some,
}
use go_service_template_rest.Base.GoError.{Err, Result, ok, err, ◌>>=◌, sentinel}
use go_service_template_rest.Base.Utf8.{utf8_from, contains_control, contains_space}
use go_service_template_rest.Webhook.Secrets.{Bindings, Signing, bind, decode_secret}
use go_service_template_rest.Inbound.{EndpointSecrets, TrustManifest}

-- `Endpoint`, and an entry of the document of endpoints.
pub record InboundEndpoint : Type 0 where
  pub id : Bytes
  pub active_key_reference : Bytes
  pub predecessor_key_reference : Bytes

abbrev pub Endpoints : Type 0
Endpoints = List InboundEndpoint

-- `secretEntry`. A manifest of secrets has the bytes of the key in place of the text.
pub record InboundSecret : Type 0 where
  pub endpoint_id : Bytes
  pub key_reference : Bytes
  pub secret : Bytes

abbrev pub InboundSecrets : Type 0
InboundSecrets = List InboundSecret

-- What encoding/json reads, where unknown members are rejected.
pub record Documents : Type 0 where
  pub decode_endpoints : Bytes → Option (List InboundEndpoint)
  pub decode_keys : Bytes → Option (List InboundSecret)

-- The errors of the parsers and of the binding, which wrap nothing.
abbrev pub err_endpoints : Err
err_endpoints = sentinel 711

abbrev pub err_keys : Err
err_keys = sentinel 712

abbrev pub is_endpoint_byte : ℕ → Bool
is_endpoint_byte c =
    c == b'_'
    || c == b'-'
    || (leb b'A' c && leb c b'Z')
    || (leb b'a' c && leb c b'z')
    || (leb b'0' c && leb c b'9')

unfoldable pub all_endpoint_bytes : Bytes → Bool
all_endpoint_bytes [] = true
all_endpoint_bytes (c ∷ s) = is_endpoint_byte c && all_endpoint_bytes s

-- `ValidEndpointID`.
unfoldable pub valid_endpoint_id : Bytes → Bool
valid_endpoint_id value =
    if length value == 0 || ltb 64 (length value) then false else all_endpoint_bytes value

-- `ValidKeyReference`.
unfoldable pub valid_key_reference : Bytes → Bool
valid_key_reference value =
    if length value == 0 || ltb 64 (length value) || not (utf8_from [] value)
    then false
    else not (contains_control value || contains_space value)

-- `Lookup`.
unfoldable pub find_inbound : Endpoints → Bytes → Option InboundEndpoint
find_inbound [] id = none
find_inbound (e ∷ endpoints) id =
    let rest = find_inbound endpoints id in if eq_bytes e.id id then some e else rest

-- The loop of `ParseEndpoints`, behind the endpoints that were read.
unfoldable pub add_endpoint : Endpoints → InboundEndpoint → Result Endpoints
add_endpoint known e =
    if not (valid_endpoint_id e.id) || not (valid_key_reference e.active_key_reference)
    then err err_endpoints
    else if not (length e.predecessor_key_reference == 0)
        && (not (valid_key_reference e.predecessor_key_reference)
            || eq_bytes e.predecessor_key_reference e.active_key_reference)
    then err err_endpoints
    else if is_some (find_inbound known e.id)
    then err err_endpoints
    else ok (e ∷ known)

unfoldable pub add_endpoints : Endpoints → List InboundEndpoint → Result Endpoints
add_endpoints known [] = ok known
add_endpoints known (e ∷ es) = add_endpoint known e >>= λ next. add_endpoints next es

-- The key of an endpoint under a reference.
unfoldable pub key_at : InboundSecrets → Bytes → Bytes → Option Bytes
key_at [] endpoint_id reference = none
key_at (s ∷ secrets) endpoint_id reference =
    let rest = key_at secrets endpoint_id reference in
    if eq_bytes s.endpoint_id endpoint_id && eq_bytes s.key_reference reference
    then some s.secret
    else rest

-- What `BindSecrets` binds to an endpoint.
abbrev pub with_predecessor : Bytes → Option Bytes → Result EndpointSecrets
with_predecessor active none = err err_keys
with_predecessor active (some predecessor) =
    ok (record { active = active; predecessor = predecessor })

unfoldable pub predecessor_of : InboundSecrets → InboundEndpoint → Option Bytes
predecessor_of secrets e =
    if length e.predecessor_key_reference == 0
    then some []
    else key_at secrets e.id e.predecessor_key_reference

abbrev pub with_active : InboundSecrets → InboundEndpoint → Option Bytes → Result EndpointSecrets
with_active secrets e none = err err_keys
with_active secrets e (some active) = with_predecessor active (predecessor_of secrets e)

unfoldable pub bound_secrets : InboundSecrets → InboundEndpoint → Result EndpointSecrets
bound_secrets secrets e = with_active secrets e (key_at secrets e.id e.active_key_reference)

unfoldable pub bind_all : InboundSecrets → Endpoints → Result TrustManifest
bind_all secrets [] = ok []
bind_all secrets (e ∷ endpoints) = bound_secrets secrets e >>= λ bound.
    bind_all secrets endpoints >>= λ trust. ok ((e.id, bound) ∷ trust)

abbrev pub names_key : InboundSecret → Option InboundEndpoint → Bool
names_key s none = false
names_key s (some e) =
    eq_bytes s.key_reference e.active_key_reference
    || eq_bytes s.key_reference e.predecessor_key_reference

unfoldable pub all_used : Endpoints → InboundSecrets → Bool
all_used endpoints [] = true
all_used endpoints (s ∷ secrets) =
    names_key s (find_inbound endpoints s.endpoint_id) && all_used endpoints secrets

-- `BindSecrets`. All its refusals are one error but for the text.
unfoldable pub bind_secrets : Endpoints → InboundSecrets → Result TrustManifest
bind_secrets endpoints secrets = bind_all secrets endpoints >>= λ trust.
    if all_used endpoints secrets then ok trust else err err_keys

module _ (documents : Documents) (signing : Signing) where
  open documents use {decode_endpoints, decode_keys}

  abbrev within_bounds {ℓ} :
      {A : Type ℓ} → Option (List A) → (List A → Result (List A)) → Err → Result (List A)
  within_bounds none next refusal = err refusal
  within_bounds (some entries) next refusal =
      if length entries == 0 || ltb 4096 (length entries) then err refusal else next entries

  -- `ParseEndpoints`.
  unfoldable pub parse_endpoints : Bytes → Result Endpoints
  parse_endpoints raw =
      if length raw == 0
      then ok []
      else if ltb (2 ^ 20) (length raw)
      then err err_endpoints
      else within_bounds (decode_endpoints raw) (add_endpoints []) err_endpoints

  -- The state of the loop of `ParseSecretManifest`: the keys, and who holds each of them. The principal
  -- of a key is its endpoint.
  abbrev pub Held : Type 0
  Held = InboundSecrets × Bindings

  abbrev pub hold : InboundSecrets → InboundSecret → Bytes → Option Bindings → Result Held
  hold known s key none = err err_keys
  hold known s key (some bindings) = ok (record s { secret = key } ∷ known, bindings)

  abbrev pub hold_decoded : Held → InboundSecret → Option Bytes → Result Held
  hold_decoded held s none = err err_keys
  hold_decoded (known, bindings) s (some key) =
      if is_some (key_at known s.endpoint_id s.key_reference)
      then err err_keys
      else hold known s key (bind signing bindings key s.endpoint_id [])

  unfoldable pub add_key : Held → InboundSecret → Result Held
  add_key held s =
      if not (valid_endpoint_id s.endpoint_id) || not (valid_key_reference s.key_reference)
      then err err_keys
      else hold_decoded held s (decode_secret signing s.secret)

  unfoldable pub add_keys : Held → List InboundSecret → Result Held
  add_keys held [] = ok held
  add_keys held (s ∷ secrets) = add_key held s >>= λ next. add_keys next secrets

  abbrev pub keys_read : Option (List InboundSecret) → Result InboundSecrets
  keys_read none = err err_keys
  keys_read (some entries) =
      if length entries == 0 || ltb 4096 (length entries)
      then err err_keys
      else (add_keys ([], []) entries >>= λ held. ok held.0)

  -- `ParseSecretManifest`.
  unfoldable pub parse_keys : Bytes → Result InboundSecrets
  parse_keys raw =
      if length raw == 0
      then ok []
      else if ltb (2 ^ 20) (length raw)
      then err err_keys
      else keys_read (decode_keys raw)
