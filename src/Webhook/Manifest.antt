-- ===== src/Webhook/Manifest.antt =====
-- internal/infra/postgreswebhook/endpoints.go: where the events of an owner go, by receiver.
use go_service_template_rest.Base.{
  ◌^◌, Bool, ◌||◌, ◌&&◌, not, List, [], ◌∷◌, Option, none, some, Bytes, if◌then◌else◌, ◌==◌, ltb,
  length, eq_bytes, is_some,
}
use go_service_template_rest.Base.Int.{pos, leb_ℤ}
use go_service_template_rest.Base.GoError.{Err, Result, ok, err, ◌>>=◌, sentinel, errorf}
use go_service_template_rest.Webhook.{
  Endpoint, Library, unless, validate_tokens, validate_optional, parse_webhook_url, err_not_found,
}

-- The endpoints by their owner and receiver.
abbrev pub EndpointManifest : Type 0
EndpointManifest = List Endpoint

unfoldable pub is_for : Bytes → Bytes → Endpoint → Bool
unfolding eq_bytes
is_for owner receiver e = eq_bytes e.owner_scope owner && eq_bytes e.receiver_id receiver

unfoldable pub find_endpoint : EndpointManifest → Bytes → Bytes → Option Endpoint
unfolding is_for
find_endpoint [] owner receiver = none
find_endpoint (e ∷ es) owner receiver =
    if is_for owner receiver e then some e else find_endpoint es owner receiver

-- `EndpointManifest.resolve`.
unfoldable pub resolve : EndpointManifest → Bytes → Bytes → Result Endpoint
unfolding find_endpoint
resolve manifest owner receiver = elim (find_endpoint manifest owner receiver) [
  | none ↦ err (errorf err_not_found)
  | some e ↦ ok e
]

-- The errors of the manifest's parser, which wrap nothing.
abbrev pub err_manifest : Err
err_manifest = sentinel 607

abbrev pub as_manifest_error : Option Err → Option Err
as_manifest_error none = none
as_manifest_error (some e) = some err_manifest

module _ (lib : Library) where
  open lib use {decode_manifest, url_string}

  -- The checks of one entry of the manifest, with its URL as it is stored.
  unfoldable pub manifest_entry : EndpointManifest → Endpoint → Result Endpoint
  unfolding validate_tokens validate_optional parse_webhook_url find_endpoint eq_bytes
  manifest_entry known e =
      unless
        (as_manifest_error
          (validate_tokens (e.owner_scope ∷ e.receiver_id ∷ e.active_key_reference ∷ [])))
        (unless (as_manifest_error (validate_optional e.predecessor_key_reference)) (
          if (not (length e.predecessor_key_reference == 0)
              && eq_bytes e.predecessor_key_reference e.active_key_reference)
            || leb_ℤ e.generation (pos 0)
          then err err_manifest
          else (parse_webhook_url lib e.url >>= λ u.
              if is_some (find_endpoint known e.owner_scope e.receiver_id)
              then err err_manifest
              else ok (record e { url = url_string u }))))

  -- The loop of `ParseEndpointManifest` over the entries of the document.
  unfoldable pub manifest_of : EndpointManifest → List Endpoint → Result EndpointManifest
  unfolding manifest_entry
  manifest_of known [] = ok known
  manifest_of known (e ∷ es) = manifest_entry known e >>= λ entry. manifest_of (entry ∷ known) es

  -- `ParseEndpointManifest`.
  unfoldable pub parse_endpoint_manifest : Bytes → Result EndpointManifest
  unfolding manifest_of
  parse_endpoint_manifest raw =
      if length raw == 0 || ltb (2 ^ 20) (length raw)
      then err err_manifest
      else elim (decode_manifest raw) [
        | none ↦ err err_manifest
        | some entries ↦
            if length entries == 0 || ltb 4096 (length entries)
            then err err_manifest
            else manifest_of [] entries
      ]
