-- ===== src/Inbound/Manifest/Tests.antt =====
-- Trust manifests at concrete inputs, with stand-ins: a document is read to fixed entries, and base64 and
-- the digest change nothing.
use go_service_template_rest.Base.{
  ◌≡◌, inl, refl, [], ◌∷◌, ◌++◌, none, some, Bytes, codes, eq_bytes,
}
use go_service_template_rest.Base.GoError.{ok, err}
use go_service_template_rest.Base.Utf8.{utf8_from, contains_control, contains_space}
use go_service_template_rest.Webhook.Secrets.{Signing, bind, decode_secret}
use go_service_template_rest.Inbound.{EndpointSecrets, TrustManifest, secrets_for}
use go_service_template_rest.Inbound.Manifest.{
  InboundEndpoint, Endpoints, InboundSecret, InboundSecrets, Documents, parse_keys, add_keys,
  add_key, key_at, valid_endpoint_id, all_endpoint_bytes, valid_key_reference, bind_secrets,
  bind_all, bound_secrets, predecessor_of, all_used, find_inbound, err_keys,
}
use go_service_template_rest.Inbound.Manifest.Separate.{bind_secrets-one_endpoint}

abbrev key_a : Bytes
key_a = codes "aaaaaaaaaaaaaaaaaaaaaaaaaaaaaaaa"

abbrev key_b : Bytes
key_b = codes "bbbbbbbbbbbbbbbbbbbbbbbbbbbbbbbb"

abbrev entry : Bytes → Bytes → Bytes → InboundSecret
entry id reference key = record {
  endpoint_id = id;
  key_reference = reference;
  secret = codes "whsec_" ++ key;
}

abbrev documents : Documents
documents = record {
  decode_endpoints = λ raw. none;
  decode_keys = λ raw.
      some (entry (codes "shop") (codes "k1") key_a ∷ entry (codes "bank") (codes "k1") key_b ∷ []);
}

-- The key of the shop once more, for the bank.
abbrev crossed : Documents
crossed = record documents {
  decode_keys = λ raw.
      some (entry (codes "shop") (codes "k1") key_a ∷ entry (codes "bank") (codes "k1") key_a ∷ []);
}

abbrev signing : Signing
signing = record {
  sha256 = λ b. b;
  decode_base64 = λ s. some s;
  decode_secrets = λ s. none;
  sign = λ key id at body. none;
}

abbrev held_key : Bytes → Bytes → InboundSecret
held_key id key = record { endpoint_id = id; key_reference = codes "k1"; secret = key }

abbrev secrets : InboundSecrets
secrets = held_key (codes "bank") key_b ∷ held_key (codes "shop") key_a ∷ []

abbrev endpoint : Bytes → InboundEndpoint
endpoint id = record { id = id; active_key_reference = codes "k1"; predecessor_key_reference = [] }

abbrev endpoints : Endpoints
endpoints = endpoint (codes "shop") ∷ endpoint (codes "bank") ∷ []

abbrev shop : EndpointSecrets
shop = record { active = key_a; predecessor = [] }

abbrev trust : TrustManifest
trust = (codes "shop", shop) ∷ (codes "bank", record { active = key_b; predecessor = [] }) ∷ []

keys_parsed : parse_keys documents signing (codes "{}") ≡ ok secrets
unfolding parse_keys add_keys add_key valid_endpoint_id all_endpoint_bytes valid_key_reference
    decode_secret key_at bind eq_bytes utf8_from contains_control contains_space
keys_parsed = refl

crossed_refused : parse_keys crossed signing (codes "{}") ≡ err err_keys
unfolding parse_keys add_keys add_key valid_endpoint_id all_endpoint_bytes valid_key_reference
    decode_secret key_at bind eq_bytes utf8_from contains_control contains_space
crossed_refused = refl

trust_bound : bind_secrets endpoints secrets ≡ ok trust
unfolding bind_secrets bind_all bound_secrets predecessor_of key_at all_used find_inbound eq_bytes
trust_bound = refl

shop_known : secrets_for trust (codes "shop") ≡ some shop
unfolding secrets_for
shop_known = refl

bind_secrets-one_endpoint_example : codes "shop" ≡ codes "shop"
bind_secrets-one_endpoint_example =
    bind_secrets-one_endpoint documents signing (codes "{}") (codes "shop") (codes "shop") key_a
      endpoints secrets trust shop shop keys_parsed trust_bound shop_known shop_known (inl refl)
      (inl refl)
