-- ===== src/Idempotency/Identity.antt =====
-- Which keys are accepted, and what the identity of a request stands for.
use go_service_template_rest.Base.{
  ℕ, zero, suc, ◌≤◌, ◌<◌, ◌≡◌, ◌≢◌, ◌⊎◌, ◌↔◌, inl, inr, refl, sym, ap, ◌∙◌, Bool, true, false, ◌&&◌,
  not, List, [], ◌∷◌, ◌++◌, Bytes, codes, leb, leb→le, le→leb, length, All, arith, Bool-cases,
  eq_bytes, eq_bytes→eq, eq_bytes_refl, subst, ◌==◌, ==_iff, &&-true,
}
use go_service_template_rest.Base.Int.{ℤ}
use go_service_template_rest.Base.GoError.{Result, ok}
use go_service_template_rest.Idempotency.{
  Scope, Request, valid_key, all_key_bytes, valid_key_byte, contains_byte, parse_key, write_part,
  write_parts, digest, identity_domain, new_request,
}
use go_service_template_rest.Idempotency.Framing.{FitsUint64, write_parts-injective}

-- RFC 9110: a visible character that is no delimiter.
abbrev pub delimiters : Bytes
delimiters = b'"' ∷ codes "(),/:;<=>?@[]{}" ++ b'\\' ∷ []

unfoldable pub is_tchar : ℕ → Bool
unfolding contains_byte
is_tchar c = leb 0x21 c && leb c 0x7e && not (contains_byte delimiters c)

abbrev pub IsByte : ℕ → Type 0
IsByte c = c < 256

abbrev eq_bool : Bool → Bool → Bool
eq_bool true b = b
eq_bool false b = not b

abbrev pub IsTchar : ℕ → Type 0
IsTchar c = is_tchar c ≡ true

eq_bool→eq : (a b : Bool) → eq_bool a b ≡ true → a ≡ b
eq_bool→eq a b h = ground arith

-- Two tests give the same answer on every number below a bound, tried one by one.
agree_below : (f g : ℕ → Bool) → ℕ → Bool
agree_below f g zero = true
agree_below f g (suc c) = eq_bool (f c) (g c) && agree_below f g c

agree_below→eq :
    (f g : ℕ → Bool) (bound : ℕ) → agree_below f g bound ≡ true → (c : ℕ) → c < bound → f c ≡ g c
unfolding agree_below
agree_below→eq f g zero h c lt = absurd (omega arith)
agree_below→eq f g (suc bound) h c lt =
    let (here, below) = &&-true (eq_bool (f bound) (g bound)) (agree_below f g bound) h in
    elim (Bool-cases (c == bound)) [
      | inl e ↦
          subst (λ n. f n ≡ g n) (sym ((==_iff c bound).0 e)) (eq_bool→eq (f bound) (g bound) here)
      | inr n ↦ agree_below→eq f g bound below c (ground arith)
    ]

tchars_agree : agree_below valid_key_byte is_tchar 256 ≡ true
unfolding agree_below valid_key_byte is_tchar
tchars_agree = refl

valid_key_byte-is_tchar : (c : ℕ) → IsByte c → valid_key_byte c ≡ is_tchar c
valid_key_byte-is_tchar = agree_below→eq valid_key_byte is_tchar 256 tchars_agree

all_key_bytes-All : (s : Bytes) → All IsByte s → all_key_bytes s ≡ true → All IsTchar s
unfolding all_key_bytes
all_key_bytes-All [] b h = tt
all_key_bytes-All (c ∷ s) b h =
    (sym (valid_key_byte-is_tchar c b.0) ∙ ground arith, all_key_bytes-All s b.1 (ground arith))

All→all_key_bytes : (s : Bytes) → All IsByte s → All IsTchar s → all_key_bytes s ≡ true
unfolding all_key_bytes
All→all_key_bytes [] b h = refl
All→all_key_bytes (c ∷ s) b h =
    ground (arith, valid_key_byte-is_tchar c b.0, h.0, All→all_key_bytes s b.1 h.1)

-- The key is one token of RFC 9110 with at most 255 bytes.
abbrev pub IsToken : Bytes → Type 0
IsToken key = (key ≢ []) × (length key ≤ 255) × All IsTchar key

valid_key→IsToken : (key : Bytes) → All IsByte key → valid_key key ≡ true → IsToken key
unfolding valid_key
valid_key→IsToken [] b h = ground arith
valid_key→IsToken (c ∷ s) b h = (
  λ e. cc,
  leb→le (length (c ∷ s)) 255 (ground arith),
  all_key_bytes-All (c ∷ s) b (ground arith),
)

IsToken→valid_key : (key : Bytes) → All IsByte key → IsToken key → valid_key key ≡ true
unfolding valid_key
IsToken→valid_key [] b (filled, short, chars) = absurd (filled refl)
IsToken→valid_key (c ∷ s) b (filled, short, chars) =
    rw (le→leb (length (c ∷ s)) 255 short, All→all_key_bytes (c ∷ s) b chars)

parse_key→ :
    (values : List Bytes) (key : Bytes)
    → All (All IsByte) values
    → parse_key values ≡ ok key
    → (values ≡ key ∷ []) × IsToken key
unfolding parse_key
parse_key→ [] key b h = cc
parse_key→ (k ∷ []) key b h =
    let same : k ≡ key = ground arith in (ap (λ x. x ∷ []) same, subst_token same)
  where
    subst_token : k ≡ key → IsToken key
    subst_token e = rw (← e) (valid_key→IsToken k b.0 (ground arith))
parse_key→ (k ∷ l ∷ more) key b h = cc

parse_key← :
    (values : List Bytes) (key : Bytes)
    → All (All IsByte) values
    → values ≡ key ∷ []
    → IsToken key
    → parse_key values ≡ ok key
unfolding parse_key
parse_key← values key b one token =
    subst (λ vs. All (All IsByte) vs → parse_key vs ≡ ok key) (sym one)
      (λ b'. rw (IsToken→valid_key key b'.0 token)) b

-- The key of a request is accepted exactly when it was sent in one header line and is a token of at
-- most 255 bytes: a missing, a repeated and a malformed key are refused.
pub parse_key_lem :
    (values : List Bytes) (key : Bytes)
    → All (All IsByte) values
    → (parse_key values ≡ ok key) ↔ ((values ≡ key ∷ []) × IsToken key)
parse_key_lem values key b = (parse_key→ values key b, λ h. parse_key← values key b h.0 h.1)

-- Two inputs with one digest.
abbrev pub Collision : (Bytes → Bytes) → Type 0
Collision sha256 = (x : Bytes) × (y : Bytes) × (x ≢ y) × (sha256 x ≡ sha256 y)

-- What an identity is computed from.
abbrev pub identity_parts : Scope → Bytes → List Bytes
identity_parts scope key = scope.caller ∷ scope.operation ∷ scope.resource ∷ key ∷ []

module _ (sha256 : Bytes → Bytes) where
  same_or_Collision : (x y : Bytes) → sha256 x ≡ sha256 y → (x ≡ y) ⊎ Collision sha256
  same_or_Collision x y h = elim (Bool-cases (eq_bytes x y)) [
    | inl e ↦ inl (eq_bytes→eq x y e)
    | inr e ↦ inr (x, y, (λ same. ground (arith, e, same, eq_bytes_refl x)), h)
  ]

  digest-injective :
      (domain : Bytes) (ps qs : List Bytes)
      → FitsUint64 domain
      → All FitsUint64 ps
      → All FitsUint64 qs
      → digest sha256 domain ps ≡ digest sha256 domain qs
      → (ps ≡ qs) ⊎ Collision sha256
  unfolding digest
  digest-injective domain ps qs hd hp hq h =
      elim (same_or_Collision (write_part domain ++ write_parts ps)
        (write_part domain ++ write_parts qs) h) [
          | inl e ↦
              let parts =
                write_parts-injective (domain ∷ ps) (domain ∷ qs) (hd, hp) (hd, hq)
                  (unfold write_parts in e) in
              inl (ap drop_head parts)
          | inr c ↦ inr c
        ]
    where
      drop_head : List Bytes → List Bytes
      drop_head [] = []
      drop_head (x ∷ xs) = xs

  new_request-identity {ℓ} :
      {Input : Type ℓ} (marshal : Input → Result Bytes) (scope : Scope) (key : Bytes) (version : ℤ)
      (input : Input) (r : Request)
      → new_request sha256 marshal scope key version input ≡ ok r
      → r.identity ≡ digest sha256 identity_domain (identity_parts scope key)
  unfolding new_request
  new_request-identity marshal scope key version input r h = ground arith

  identity_parts-injective :
      (s t : Scope) (j k : Bytes) → identity_parts s j ≡ identity_parts t k → (s ≡ t) × (j ≡ k)
  identity_parts-injective s t j k h = (ground arith, ground arith)

  identity_domain-FitsUint64 : FitsUint64 identity_domain
  identity_domain-FitsUint64 = omega arith

  -- Two requests with one identity were made for the same caller, operation, resource and key, or
  -- else two inputs with one SHA-256 digest are at hand.
  pub new_request_same_identity {ℓ} :
      {Input : Type ℓ} (marshal : Input → Result Bytes) (s t : Scope) (j k : Bytes) (v w : ℤ)
      (a b : Input) (r q : Request)
      → All FitsUint64 (identity_parts s j)
      → All FitsUint64 (identity_parts t k)
      → new_request sha256 marshal s j v a ≡ ok r
      → new_request sha256 marshal t k w b ≡ ok q
      → r.identity ≡ q.identity
      → ((s ≡ t) × (j ≡ k)) ⊎ Collision sha256
  new_request_same_identity marshal s t j k v w a b r q fs ft hr hq same =
      elim (digest-injective identity_domain (identity_parts s j) (identity_parts t k)
        identity_domain-FitsUint64 fs ft
        (sym (new_request-identity marshal s j v a r hr)
          ∙ same
          ∙ new_request-identity marshal t k w b q hq)) [
            | inl e ↦ inl (identity_parts-injective s t j k e)
            | inr c ↦ inr c
          ]
