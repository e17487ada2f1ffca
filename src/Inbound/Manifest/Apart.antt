-- ===== src/Inbound/Manifest/Apart.antt =====
-- The keys of different endpoints differ: internal/infra/postgresinboundwebhook/manifest.go with
-- internal/webhooksecret/manifest.go.
use go_service_template_rest.Base.{
  some-injective, &&-true, ◌≡◌, ◌⊎◌, inl, inr, refl, ap, ◌∙◌, subst, Bool, true, false, ◌||◌, ◌&&◌,
  not, List, [], ◌∷◌, Option, none, some, Bytes, if◌then◌else◌, eq_bytes, eq_bytes→eq,
  eq_bytes_refl, is_some, Bool-cases,
}
use go_service_template_rest.Base.GoError.{err-ne-ok, ok-injective, ok, >>=-ok}
use go_service_template_rest.Webhook.Secrets.{Bindings, Signing, bind, principal_of, decode_secret}
use go_service_template_rest.Inbound.Manifest.{
  InboundSecret, InboundSecrets, Documents, hold, hold_decoded, add_key, add_keys, key_at, err_keys,
  valid_endpoint_id, valid_key_reference,
}

-- The key of an entry in front, or one behind it.
key_at-cons :
    (s : InboundSecret) (secrets : InboundSecrets) (id reference key : Bytes)
    → key_at (s ∷ secrets) id reference ≡ some key
    → ((s.endpoint_id ≡ id) × (s.secret ≡ key)) ⊎ (key_at secrets id reference ≡ some key)
unfolding key_at
key_at-cons s secrets id reference key h =
    elim (Bool-cases (eq_bytes s.endpoint_id id && eq_bytes s.key_reference reference)) [
      | inl e ↦
          let (first, _) =
            &&-true (eq_bytes s.endpoint_id id) (eq_bytes s.key_reference reference) e in
          inl (eq_bytes→eq s.endpoint_id id first, some-injective s.secret key (rw e at h))
      | inr e ↦ inr (rw e at h)
    ]

module _ (signing : Signing) where
  open signing use {sha256}

  -- Every key that was read is held by its endpoint.
  abbrev pub IsHeld : InboundSecrets → Bindings → Type 0
  IsHeld known bindings =
      (id reference key : Bytes)
      → key_at known id reference ≡ some key
      → principal_of bindings (sha256 key) ≡ some (id, [])

  -- A binding keeps the principals, and gives the key its own.
  record IsBound (before after : Bindings) (key owner : Bytes) : Type 0 where
    own : principal_of after (sha256 key) ≡ some (owner, [])
    kept :
        (digest : Bytes) (principal : Bytes × Bytes)
        → principal_of before digest ≡ some principal
        → principal_of after digest ≡ some principal

  bind-fresh :
      (before : Bindings) (key owner digest : Bytes) (principal : Bytes × Bytes)
      → principal_of before (sha256 key) ≡ none
      → principal_of before digest ≡ some principal
      → principal_of ((sha256 key, owner, []) ∷ before) digest ≡ some principal
  unfolding principal_of
  bind-fresh before key owner digest principal fresh h =
      elim (Bool-cases (eq_bytes (sha256 key) digest)) [
        | inl e ↦
            let same : principal_of before digest ≡ none =
              subst (λ d. principal_of before d ≡ none) (eq_bytes→eq (sha256 key) digest e) fresh in
            cc
        | inr e ↦ rw e h
      ]

  principal_of-here :
      (before : Bindings) (digest owner : Bytes)
      → principal_of ((digest, owner, []) ∷ before) digest ≡ some (owner, [])
  unfolding principal_of
  principal_of-here before digest owner = rw (eq_bytes_refl digest) refl

  guarded :
      (b : Bool) (bindings after : Bindings)
      → (if b then some bindings else none) ≡ some after
      → (b ≡ true) × (bindings ≡ after)
  guarded true bindings after h = (refl, cc)
  guarded false bindings after h = cc

  found-IsBound :
      (before after : Bindings) (key owner : Bytes) (found : Option (Bytes × Bytes))
      → principal_of before (sha256 key) ≡ found
      → ◌≡◌ {A = Option Bindings}
          (elim found as (λ f. Option Bindings) [
            | none ↦ some ((sha256 key, owner, []) ∷ before)
            | some (o, r) ↦ if eq_bytes o owner && eq_bytes r [] then some before else none
          ])
          (some after)
      → IsBound before after key owner
  found-IsBound before after key owner none fresh h =
      let same : ((sha256 key, owner, []) ∷ before) ≡ after = cc in
      record {
        own =
            subst (λ b. principal_of b (sha256 key) ≡ some (owner, [])) same
              (principal_of-here before (sha256 key) owner);
        kept = λ digest principal known.
            subst (λ b. principal_of b digest ≡ some principal) same
              (bind-fresh before key owner digest principal fresh known);
      }
  found-IsBound before after key owner (some (o, r)) known h =
      let (both, same) = guarded (eq_bytes o owner && eq_bytes r []) before after h in
      let (first, second) = &&-true (eq_bytes o owner) (eq_bytes r []) both in
      let principal : ◌≡◌ {A = Bytes × Bytes} (o, r) (owner, []) =
        λ i. (eq_bytes→eq o owner first i, eq_bytes→eq r [] second i) in
      record {
        own =
            subst (λ b. principal_of b (sha256 key) ≡ some (owner, [])) same
              (known ∙ ap (λ p. some p) principal);
        kept = λ digest found h. subst (λ b. principal_of b digest ≡ some found) same h;
      }

  bind-IsBound :
      (before after : Bindings) (key owner : Bytes)
      → bind signing before key owner [] ≡ some after
      → IsBound before after key owner
  unfolding bind
  bind-IsBound before after key owner h =
      found-IsBound before after key owner (principal_of before (sha256 key)) refl h

  add-IsHeld :
      (known : InboundSecrets) (before after : Bindings) (s : InboundSecret) (key : Bytes)
      → IsHeld known before
      → IsBound before after key s.endpoint_id
      → IsHeld (record s { secret = key } ∷ known) after
  add-IsHeld known before after s key held bound id reference found h =
      elim (key_at-cons (record s { secret = key }) known id reference found h) [
        | inl (owner, same) ↦
            subst (λ k. principal_of after (sha256 k) ≡ some (id, [])) same
              (subst (λ o. principal_of after (sha256 key) ≡ some (o, [])) owner bound.own)
        | inr earlier ↦ bound.kept (sha256 found) (id, []) (held id reference found earlier)
      ]

  -- What the loop keeps of its state.
  abbrev HeldBoth : InboundSecrets × Bindings → Type 0
  HeldBoth (known, bindings) = IsHeld known bindings

  module _ (documents : Documents) where
    hold-IsHeld :
        (known : InboundSecrets) (before : Bindings) (s : InboundSecret) (key : Bytes)
        (bound : Option Bindings) (out : InboundSecrets × Bindings)
        → bind signing before key s.endpoint_id [] ≡ bound
        → IsHeld known before
        → hold documents signing known s key bound ≡ ok out
        → HeldBoth out
    hold-IsHeld known before s key none out e held h = cc
    hold-IsHeld known before s key (some after) out e held h =
        let same : ◌≡◌ {A = InboundSecrets × Bindings} (record s { secret = key } ∷ known, after)
            out =
          cc in
        subst HeldBoth same
          (add-IsHeld known before after s key held (bind-IsBound before after key s.endpoint_id e))

    hold_decoded-IsHeld :
        (held : InboundSecrets × Bindings) (s : InboundSecret) (key : Option Bytes)
        (out : InboundSecrets × Bindings)
        → HeldBoth held
        → hold_decoded documents signing held s key ≡ ok out
        → HeldBoth out
    hold_decoded-IsHeld held s none out is_held h = cc
    hold_decoded-IsHeld (known, bindings) s (some key) out is_held h =
        elim (Bool-cases (is_some (key_at known s.endpoint_id s.key_reference))) [
          | inl e ↦ absurd (err-ne-ok err_keys out (rw e at h))
          | inr e ↦
              hold-IsHeld known bindings s key (bind signing bindings key s.endpoint_id []) out refl
                is_held (rw e at h)
        ]

    add_key-IsHeld :
        (held : InboundSecrets × Bindings) (s : InboundSecret) (out : InboundSecrets × Bindings)
        → HeldBoth held
        → add_key documents signing held s ≡ ok out
        → HeldBoth out
    unfolding add_key
    add_key-IsHeld held s out is_held h =
        elim (Bool-cases
          (not (valid_endpoint_id s.endpoint_id) || not (valid_key_reference s.key_reference))) [
            | inl e ↦ absurd (err-ne-ok err_keys out (rw e at h))
            | inr e ↦
                hold_decoded-IsHeld held s (decode_secret signing s.secret) out is_held (rw e at h)
          ]

    pub add_keys-IsHeld :
        (entries : List InboundSecret) (held out : InboundSecrets × Bindings)
        → HeldBoth held
        → add_keys documents signing held entries ≡ ok out
        → HeldBoth out
    unfolding add_keys
    add_keys-IsHeld [] held out is_held h = subst HeldBoth (ok-injective held out h) is_held
    add_keys-IsHeld (s ∷ entries) held out is_held h =
        let (next, first, rest) = >>=-ok (add_key documents signing held s) _ h in
        add_keys-IsHeld entries next out (add_key-IsHeld held s next is_held first) rest
