-- ===== src/Inbound/Manifest/Separate.antt =====
-- A key verifies the deliveries of one endpoint: internal/infra/postgresinboundwebhook/manifest.go from the
-- parsing of the secrets to the trust that Receive reads.
use go_service_template_rest.Base.{
  some-injective, ◌≡◌, ◌≢◌, ◌⊎◌, inl, inr, sym, ap, ◌∙◌, subst, true, false, List, [], ◌∷◌, Option,
  none, some, Bytes, if◌then◌else◌, ◌==◌, length, eq_bytes, eq_bytes→eq, Bool-cases, ltb, ◌||◌, ◌^◌,
}
use go_service_template_rest.Base.GoError.{err-ne-ok, ok-injective, ok, err, ◌>>=◌, >>=-ok}
use go_service_template_rest.Webhook.Secrets.{Bindings, Signing}
use go_service_template_rest.Inbound.{EndpointSecrets, TrustManifest, secrets_for}
use go_service_template_rest.Inbound.Manifest.{
  InboundEndpoint, Endpoints, InboundSecret, InboundSecrets, Documents, add_keys, parse_keys,
  keys_read, key_at, bound_secrets, with_active, with_predecessor, predecessor_of, bind_all,
  bind_secrets, err_keys, all_used,
}
use go_service_template_rest.Inbound.Manifest.Apart.{IsHeld, add_keys-IsHeld}

-- The keys that a signature of an endpoint may be made with.
abbrev pub Verifies : EndpointSecrets → Bytes → Type 0
Verifies secrets key =
    (secrets.active ≡ key)
    ⊎ (((length secrets.predecessor == 0) ≡ false) × (secrets.predecessor ≡ key))

with_predecessor-ok :
    (active : Bytes) (predecessor : Option Bytes) (x : EndpointSecrets)
    → with_predecessor active predecessor ≡ ok x
    → (active ≡ x.active) × (predecessor ≡ some x.predecessor)
with_predecessor-ok active none x h = cc
with_predecessor-ok active (some p) x h =
    let same = ok-injective (record { active = active; predecessor = p }) x h in
    (ap (λ s. s.active) same, ap (λ s. some s.predecessor) same)

with_active-ok :
    (secrets : InboundSecrets) (e : InboundEndpoint) (active : Option Bytes) (x : EndpointSecrets)
    → with_active secrets e active ≡ ok x
    → (active ≡ some x.active) × (predecessor_of secrets e ≡ some x.predecessor)
with_active-ok secrets e none x h = cc
with_active-ok secrets e (some a) x h =
    let (first, second) = with_predecessor-ok a (predecessor_of secrets e) x h in
    (ap (λ k. some k) first, second)

predecessor_of-key :
    (secrets : InboundSecrets) (e : InboundEndpoint) (predecessor : Bytes)
    → predecessor_of secrets e ≡ some predecessor
    → (length predecessor == 0) ≡ false
    → key_at secrets e.id e.predecessor_key_reference ≡ some predecessor
unfolding predecessor_of
predecessor_of-key secrets e predecessor h filled =
    elim (Bool-cases (length e.predecessor_key_reference == 0)) [
      | inl blank ↦
          let empty : [] ≡ predecessor = some-injective [] predecessor (rw blank at h) in
          let zero : true ≡ false = subst (λ p. (length p == 0) ≡ false) (sym empty) filled in cc
      | inr named ↦ rw named at h
    ]

-- A key that verifies is one of the manifest, under its endpoint.
bound_secrets-key :
    (secrets : InboundSecrets) (e : InboundEndpoint) (x : EndpointSecrets) (key : Bytes)
    → bound_secrets secrets e ≡ ok x
    → Verifies x key
    → (reference : Bytes) × (key_at secrets e.id reference ≡ some key)
unfolding bound_secrets
bound_secrets-key secrets e x key h (inl same) =
    let (active, _) = with_active-ok secrets e (key_at secrets e.id e.active_key_reference) x h in
    (e.active_key_reference, active ∙ ap (λ k. some k) same)
bound_secrets-key secrets e x key h (inr (filled, same)) =
    let (_, predecessor) =
      with_active-ok secrets e (key_at secrets e.id e.active_key_reference) x h in
    (
      e.predecessor_key_reference,
      predecessor_of-key secrets e x.predecessor predecessor filled ∙ ap (λ k. some k) same,
    )

secrets_for-cons :
    (owner id : Bytes) (bound x : EndpointSecrets) (trust : TrustManifest)
    → secrets_for ((owner, bound) ∷ trust) id ≡ some x
    → ((owner ≡ id) × (bound ≡ x)) ⊎ (secrets_for trust id ≡ some x)
unfolding secrets_for
secrets_for-cons owner id bound x trust h = elim (Bool-cases (eq_bytes owner id)) [
  | inl e ↦ inl (eq_bytes→eq owner id e, some-injective bound x (rw e at h))
  | inr e ↦ inr (rw e at h)
]

secrets_for-nil : (id : Bytes) (x : EndpointSecrets) → secrets_for [] id ≢ some x
unfolding secrets_for
secrets_for-nil id x h = cc

-- What the trust has for an endpoint was bound to it.
secrets_for-bind_all :
    (secrets : InboundSecrets) (endpoints : Endpoints) (trust : TrustManifest) (id : Bytes)
    (x : EndpointSecrets)
    → bind_all secrets endpoints ≡ ok trust
    → secrets_for trust id ≡ some x
    → (e : InboundEndpoint) × (e.id ≡ id) × (bound_secrets secrets e ≡ ok x)
unfolding bind_all
secrets_for-bind_all secrets [] trust id x h found = absurd (
    secrets_for-nil id x
      (subst (λ t. secrets_for t id ≡ some x) (sym (ok-injective [] trust h)) found))
secrets_for-bind_all secrets (e ∷ endpoints) trust id x h found =
    let (bound, first, after_first) = >>=-ok (bound_secrets secrets e) _ h in
    let (others, second, last) = >>=-ok (bind_all secrets endpoints) _ after_first in
    let same = ok-injective ((e.id, bound) ∷ others) trust last in
    let here : secrets_for ((e.id, bound) ∷ others) id ≡ some x =
      subst (λ t. secrets_for t id ≡ some x) (sym same) found in
    elim (secrets_for-cons e.id id bound x others here) [
      | inl (owner, equal) ↦ (e, owner, first ∙ ap (λ s. ok s) equal)
      | inr later ↦ secrets_for-bind_all secrets endpoints others id x second later
    ]

trust-key :
    (secrets : InboundSecrets) (endpoints : Endpoints) (trust : TrustManifest) (id key : Bytes)
    (x : EndpointSecrets)
    → bind_secrets endpoints secrets ≡ ok trust
    → secrets_for trust id ≡ some x
    → Verifies x key
    → (reference : Bytes) × (key_at secrets id reference ≡ some key)
unfolding bind_secrets
trust-key secrets endpoints trust id key x h found verifies =
    let (bound, first, last) = >>=-ok (bind_all secrets endpoints) _ h in
    let same : bound ≡ trust = elim (Bool-cases (all_used endpoints secrets)) [
      | inl e ↦ ok-injective bound trust (rw e at last)
      | inr e ↦ absurd (err-ne-ok err_keys trust (rw e at last))
    ] in
    let (e, owner, secret) =
      secrets_for-bind_all secrets endpoints bound id x first
        (subst (λ t. secrets_for t id ≡ some x) (sym same) found) in
    let (reference, key_found) = bound_secrets-key secrets e x key secret verifies in
    (reference, subst (λ o. key_at secrets o reference ≡ some key) owner key_found)

key_at-nil : (id reference key : Bytes) → key_at [] id reference ≢ some key
unfolding key_at
key_at-nil id reference key h = cc

module _ (documents : Documents) (signing : Signing) where
  open signing use {sha256}

  nothing-IsHeld : IsHeld signing [] []
  nothing-IsHeld id reference key h = absurd (key_at-nil id reference key h)

  keys_read-IsHeld :
      (entries : Option (List InboundSecret)) (secrets : InboundSecrets)
      → keys_read documents signing entries ≡ ok secrets
      → (bindings : Bindings) × IsHeld signing secrets bindings
  keys_read-IsHeld none secrets h = cc
  keys_read-IsHeld (some entries) secrets h =
      elim (Bool-cases (length entries == 0 || ltb 4096 (length entries))) [
        | inl e ↦ absurd (err-ne-ok err_keys secrets (rw e at h))
        | inr e ↦
            let read = add_keys documents signing ([], []) entries in
            let kept : (read >>= λ held. ok held.0) ≡ ok secrets = rw e at h in
            let ((known, bindings), first, last) = >>=-ok read _ kept in
            (
              bindings,
              subst (λ m. IsHeld signing m bindings) (ok-injective known secrets last)
                  (add_keys-IsHeld signing documents entries ([], []) (known, bindings)
                    nothing-IsHeld first),
            )
      ]

  parse_keys-IsHeld :
      (raw : Bytes) (secrets : InboundSecrets)
      → parse_keys documents signing raw ≡ ok secrets
      → (bindings : Bindings) × IsHeld signing secrets bindings
  unfolding parse_keys
  parse_keys-IsHeld raw secrets h = elim (Bool-cases (length raw == 0)) [
    | inl e ↦
        ([], subst (λ m. IsHeld signing m []) (ok-injective [] secrets (rw e at h)) nothing-IsHeld)
    | inr e ↦
        let rest : (if ltb (2 ^ 20) (length raw)
              then err err_keys
              else keys_read documents signing (documents.decode_keys raw))
            ≡ ok secrets =
          rw e at h in
        elim (Bool-cases (ltb (2 ^ 20) (length raw))) [
          | inl f ↦ absurd (err-ne-ok err_keys secrets (rw f at rest))
          | inr f ↦ keys_read-IsHeld (documents.decode_keys raw) secrets (rw f at rest)
        ]
  ]

  -- A key that verifies deliveries of two endpoints, in a trust bound from a parsed manifest of secrets,
  -- shows that they are one endpoint. A predecessor that is absent verifies nothing.
  pub bind_secrets-one_endpoint :
      (raw a b key : Bytes) (endpoints : Endpoints) (secrets : InboundSecrets)
      (trust : TrustManifest) (x y : EndpointSecrets)
      → parse_keys documents signing raw ≡ ok secrets
      → bind_secrets endpoints secrets ≡ ok trust
      → secrets_for trust a ≡ some x
      → secrets_for trust b ≡ some y
      → Verifies x key
      → Verifies y key
      → a ≡ b
  bind_secrets-one_endpoint raw a b key endpoints secrets trust x y parsed bound known_a known_b
        with_a with_b =
      let (bindings, held) = parse_keys-IsHeld raw secrets parsed in
      let (ra, ka) = trust-key secrets endpoints trust a key x bound known_a with_a in
      let (rb, kb) = trust-key secrets endpoints trust b key y bound known_b with_b in
      ap (λ p. p.0) (some-injective (a, []) (b, []) (sym (held a ra key ka) ∙ held b rb key kb))
