-- ===== src/Webhook/Secrets.antt =====
-- internal/infra/postgreswebhook/secrets.go and signing.go, with internal/webhooksecret: the keys of
-- the receivers and the signatures of a delivery. Base64 and the signature of standard-webhooks are
-- parameters.
use go_service_template_rest.Base.{
  ℕ, ◌^◌, Bool, false, ◌||◌, ◌&&◌, not, List, [], ◌∷◌, ◌++◌, Option, none, some, Bytes, codes,
  if◌then◌else◌, ◌==◌, leb, ltb, length, eq_bytes, is_some,
}
use go_service_template_rest.Base.GoError.{Err, Result, ok, err, ◌>>=◌, sentinel, errorf}
use go_service_template_rest.Webhook.{
  unless, validate_token, validate_tokens, err_config, err_secret_unavailable,
}

pub record SecretEntry : Type 0 where
  pub owner_scope : Bytes
  pub receiver_id : Bytes
  pub key_reference : Bytes
  pub secret : Bytes

-- The manifest: each entry with the bytes of its key in place of the text.
abbrev pub SecretManifest : Type 0
SecretManifest = List SecretEntry

-- `webhooksecret.Bindings`: the principal, an owner and a receiver, of each digest.
abbrev pub Bindings : Type 0
Bindings = List (Bytes × Bytes × Bytes)

pub record Signing : Type 0 where
  pub sha256 : Bytes → Bytes
  pub decode_base64 : Bytes → Option Bytes
  pub decode_secrets : Bytes → Option (List SecretEntry)
  pub sign : Bytes → Bytes → ℕ → Bytes → Option Bytes

-- The errors of parsing and signing, which wrap nothing.
abbrev pub err_secrets : Err
err_secrets = sentinel 608

abbrev pub err_sign : Err
err_sign = sentinel 609

-- `ValidKey`.
unfoldable pub valid_key : Bytes → Bool
valid_key key = leb 32 (length key) && leb (length key) 64

unfoldable pub cut_prefix : Bytes → Bytes → Option Bytes
cut_prefix [] s = some s
cut_prefix (c ∷ p) [] = none
cut_prefix (c ∷ p) (d ∷ s) = if c == d then cut_prefix p s else none

unfoldable pub principal_of : Bindings → Bytes → Option (Bytes × Bytes)
unfolding eq_bytes
principal_of [] digest = none
principal_of ((known, owner, receiver) ∷ bindings) digest =
    if eq_bytes known digest then some (owner, receiver) else principal_of bindings digest

unfoldable pub same_secret : Bytes → Bytes → Bytes → SecretEntry → Bool
unfolding eq_bytes
same_secret owner receiver reference e =
    eq_bytes e.owner_scope owner
    && eq_bytes e.receiver_id receiver
    && eq_bytes e.key_reference reference

unfoldable pub find_secret : SecretManifest → Bytes → Bytes → Bytes → Option Bytes
unfolding same_secret
find_secret [] owner receiver reference = none
find_secret (e ∷ es) owner receiver reference =
    if same_secret owner receiver reference e
    then some e.secret
    else find_secret es owner receiver reference

-- `SecretManifest.resolve`.
unfoldable pub resolve_secret : SecretManifest → Bytes → Bytes → Bytes → Result Bytes
unfolding find_secret
resolve_secret manifest owner receiver reference =
    elim (find_secret manifest owner receiver reference) [
      | none ↦ err (errorf err_secret_unavailable)
      | some key ↦ ok key
    ]

abbrev pub as_secrets_error : Option Err → Option Err
as_secrets_error none = none
as_secrets_error (some e) = some err_secrets

unfoldable pub contains_dot : Bytes → Bool
contains_dot [] = false
contains_dot (c ∷ s) = c == b'.' || contains_dot s

-- strings.Join by a space.
unfoldable pub join_words : List Bytes → Bytes
join_words [] = []
join_words (w ∷ []) = w
join_words (w ∷ v ∷ words) = w ++ b' ' ∷ join_words (v ∷ words)

module _ (signing : Signing) where
  open signing use {sha256, decode_base64, decode_secrets, sign}

  -- `webhooksecret.Decode`.
  unfoldable pub decode_secret : Bytes → Option Bytes
  unfolding cut_prefix valid_key
  decode_secret value = elim (cut_prefix (codes "whsec_") value) [
    | none ↦ none
    | some encoded ↦ elim (decode_base64 encoded) [
      | none ↦ none
      | some key ↦ if valid_key key then some key else none
    ]
  ]

  -- `Bindings.Bind`: the bindings behind it, unless another principal holds the key.
  unfoldable pub bind : Bindings → Bytes → Bytes → Bytes → Option Bindings
  unfolding principal_of eq_bytes
  bind bindings key owner receiver = elim (principal_of bindings (sha256 key)) [
    | none ↦ some ((sha256 key, owner, receiver) ∷ bindings)
    | some (o, r) ↦ if eq_bytes o owner && eq_bytes r receiver then some bindings else none
  ]

  abbrev pub add_bound :
      SecretManifest → SecretEntry → Bytes → Option Bindings → Result (SecretManifest × Bindings)
  add_bound manifest e key none = err err_secrets
  add_bound manifest e key (some bindings) = ok (record e { secret = key } ∷ manifest, bindings)

  abbrev pub add_decoded :
      SecretManifest → Bindings → SecretEntry → Option Bytes → Result (SecretManifest × Bindings)
  add_decoded manifest bindings e none = err err_secrets
  add_decoded manifest bindings e (some key) =
      if is_some (find_secret manifest e.owner_scope e.receiver_id e.key_reference)
      then err err_secrets
      else add_bound manifest e key (bind bindings key e.owner_scope e.receiver_id)

  -- One round of the loop of `ParseSecretManifest`, and the loop.
  unfoldable pub add_secret :
      SecretManifest → Bindings → SecretEntry → Result (SecretManifest × Bindings)
  unfolding validate_tokens decode_secret find_secret bind
  add_secret manifest bindings e =
      unless
        (as_secrets_error (validate_tokens (e.owner_scope ∷ e.receiver_id ∷ e.key_reference ∷ [])))
        (add_decoded manifest bindings e (decode_secret e.secret))

  unfoldable pub add_secrets :
      List SecretEntry → SecretManifest × Bindings → Result (SecretManifest × Bindings)
  unfolding add_secret
  add_secrets [] done = ok done
  add_secrets (e ∷ es) (manifest, bindings) = add_secret manifest bindings e >>= add_secrets es

  -- `ParseSecretManifest`.
  unfoldable pub parse_secret_manifest : Bytes → Result SecretManifest
  unfolding add_secrets
  parse_secret_manifest raw =
      if length raw == 0 || ltb (2 ^ 20) (length raw)
      then err err_secrets
      else elim (decode_secrets raw) [
        | none ↦ err err_secrets
        | some entries ↦
            if length entries == 0 || ltb 4096 (length entries)
            then err err_secrets
            else (add_secrets entries ([], []) >>= λ done. ok done.0)
      ]

  -- The signatures of some keys in their order.
  unfoldable pub sign_all : Bytes → ℕ → Bytes → List Bytes → Result (List Bytes)
  unfolding valid_key
  sign_all id attempted_at body [] = ok []
  sign_all id attempted_at body (key ∷ keys) =
      if not (valid_key key) then err err_sign else elim (sign key id attempted_at body) [
        | none ↦ err err_sign
        | some signature ↦ (sign_all id attempted_at body keys >>= λ rest. ok (signature ∷ rest))
      ]

  abbrev pub keys_of : Bytes → Option Bytes → List Bytes
  keys_of active none = active ∷ []
  keys_of active (some predecessor) = active ∷ predecessor ∷ []

  -- `signV1`.
  unfoldable pub sign_v1 : Bytes → ℕ → Bytes → Bytes → Option Bytes → Result Bytes
  unfolding validate_token contains_dot sign_all join_words
  sign_v1 id attempted_at body active predecessor =
      if is_some (validate_token id) || contains_dot id
      then err err_config
      else (sign_all id attempted_at body (keys_of active predecessor) >>= λ entries.
          ok (join_words entries))
