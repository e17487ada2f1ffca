-- ===== src/Webhook/Identity.antt =====
-- What the fingerprint of a fan-out and the id of a delivery stand for.
use go_service_template_rest.Base.{
  ℕ, ◌<◌, ◌^◌, ◌≡◌, ◌≢◌, refl, sym, ap, ◌∙◌, subst, Bool, true, false, ◌||◌, not, List, [], ◌∷◌,
  ◌++◌, map, Bytes, length, Bool-cases, inl, inr, ◌⊎◌, arith, All, eq_bytes, eq_bytes→eq,
  eq_bytes_refl, ltb, ◌==◌,
}
use go_service_template_rest.Base.Int.{ℤ, pos}
use go_service_template_rest.Base.Decimal.{
  IsDigit, format_uint, format_int, decimal_fuel-digits, format_uint-injective,
}
use go_service_template_rest.Base.Utf8.{utf8_from, contains_control, contains_space}
use go_service_template_rest.Webhook.{
  Endpoint, Library, max_identity_bytes, valid_token, write_fields, endpoint_fields, fanout_fields,
  fingerprint_fanout,
}

abbrev pub HasNoNul : Bytes → Type 0
HasNoNul = All (λ c. c ≢ 0)

abbrev head_or : Bytes → Bytes → Bytes
head_or d [] = d
head_or d (c ∷ s) = s

-- A text up to its NUL.
until_nul :
    (a b x y : Bytes) → HasNoNul a → HasNoNul b → a ++ 0 ∷ x ≡ b ++ 0 ∷ y → (a ≡ b) × (x ≡ y)
until_nul [] [] x y ha hb e = (refl, cc)
until_nul [] (d ∷ b) x y ha hb e = absurd (hb.0 (ground arith))
until_nul (c ∷ a) [] x y ha hb e = absurd (ha.0 (ground arith))
until_nul (c ∷ a) (d ∷ b) x y ha hb e =
    let rest : a ++ 0 ∷ x ≡ b ++ 0 ∷ y = cc in
    let (same, more) = until_nul a b x y ha.1 hb.1 rest in
    let first : c ≡ d = cc in (ap (λ z. z ∷ a) first ∙ ap (λ z. d ∷ z) same, more)

append-ne-nil : (a x : Bytes) → a ++ 0 ∷ x ≢ []
append-ne-nil [] x e = cc
append-ne-nil (c ∷ a) x e = cc

-- Two lists of values without NUL bytes that are written as the same bytes are the same list.
pub write_fields-injective :
    (vs ws : List Bytes)
    → All HasNoNul vs
    → All HasNoNul ws
    → write_fields vs ≡ write_fields ws
    → vs ≡ ws
unfolding write_fields
write_fields-injective [] [] hv hw e = refl
write_fields-injective [] (w ∷ ws) hv hw e = absurd (append-ne-nil w _ (sym e))
write_fields-injective (v ∷ vs) [] hv hw e = absurd (append-ne-nil v _ e)
write_fields-injective (v ∷ vs) (w ∷ ws) hv hw e =
    let (same, rest) = until_nul v w _ _ hv.0 hw.0 e in
    let tails = write_fields-injective vs ws hv.1 hw.1 rest in cc

-- A text without control characters.
no_control : (s : Bytes) → contains_control s ≡ false → HasNoNul s
unfolding contains_control
no_control [] h = tt
no_control (c ∷ []) h = (λ e. ground arith, tt)
no_control (c ∷ d ∷ s) h = (λ e. ground arith, no_control (d ∷ s) (ground arith))

fourth_false : (a b c d e : Bool) → not (a || b || c || d || e) ≡ true → d ≡ false
fourth_false a b c d e h = ground arith

pub valid_token-HasNoNul : (s : Bytes) → valid_token s ≡ true → HasNoNul s
unfolding valid_token
valid_token-HasNoNul s h = no_control s (
    fourth_false (length s == 0) (ltb max_identity_bytes (length s)) (not (utf8_from [] s))
      (contains_control s) (contains_space s) h)

digits-HasNoNul : (s : Bytes) → All IsDigit s → HasNoNul s
digits-HasNoNul [] h = tt
digits-HasNoNul (c ∷ s) (digit, rest) = (λ e. absurd (omega arith), digits-HasNoNul s rest)

pub format_int-HasNoNul : (n : ℕ) → HasNoNul (format_int (pos n))
unfolding format_int format_uint
format_int-HasNoNul n = digits-HasNoNul _ (decimal_fuel-digits 20 n)

pub format_int-injective :
    (n m : ℕ) → n < 2 ^ 63 → m < 2 ^ 63 → format_int (pos n) ≡ format_int (pos m) → n ≡ m
unfolding format_int
format_int-injective n m hn hm e = format_uint-injective n m (omega arith) (omega arith) e

-- An endpoint as a manifest holds it: a generation that is a positive int64, and texts without NUL.
pub record IsListed (e : Endpoint) : Type 0 where
  pub number : ℕ
  pub generation : e.generation ≡ pos number
  pub fits : number < 2 ^ 63
  pub receiver : HasNoNul e.receiver_id
  pub address : HasNoNul e.url
  pub active : HasNoNul e.active_key_reference
  pub predecessor : HasNoNul e.predecessor_key_reference

-- What a receiver is sent and with which keys.
abbrev pub Described : Type 0
Described = Bytes × ℤ × Bytes × Bytes × Bytes

abbrev pub described : Endpoint → Described
described e =
    (e.receiver_id, e.generation, e.url, e.active_key_reference, e.predecessor_key_reference)

endpoint_fields-HasNoNul : (e : Endpoint) → IsListed e → All HasNoNul (endpoint_fields e)
endpoint_fields-HasNoNul e h = (
  h.receiver,
  (
    subst (λ g. HasNoNul (format_int g)) (sym h.generation) (format_int-HasNoNul h.number),
    (h.address, (h.active, (h.predecessor, tt))),
  ),
)

All-append : (P : Bytes → Type 0) (xs ys : List Bytes) → All P xs → All P ys → All P (xs ++ ys)
All-append P [] ys h k = k
All-append P (x ∷ xs) ys (first, rest) k = (first, All-append P xs ys rest k)

fanout_fields-HasNoNul : (es : List Endpoint) → All IsListed es → All HasNoNul (fanout_fields es)
unfolding fanout_fields
fanout_fields-HasNoNul [] h = tt
fanout_fields-HasNoNul (e ∷ es) (first, rest) =
    All-append HasNoNul (endpoint_fields e) (fanout_fields es) (endpoint_fields-HasNoNul e first)
      (fanout_fields-HasNoNul es rest)

same_generation :
    (e f : Endpoint)
    → IsListed e
    → IsListed f
    → format_int e.generation ≡ format_int f.generation
    → e.generation ≡ f.generation
same_generation e f he hf same =
    he.generation
    ∙ ap pos (
        format_int-injective he.number hf.number he.fits hf.fits
          (ap format_int (sym he.generation) ∙ same ∙ ap format_int hf.generation))
    ∙ sym hf.generation

fanout_fields-described :
    (es fs : List Endpoint)
    → All IsListed es
    → All IsListed fs
    → fanout_fields es ≡ fanout_fields fs
    → map described es ≡ map described fs
unfolding fanout_fields
fanout_fields-described [] [] he hf same = refl
fanout_fields-described [] (f ∷ fs) he hf same = cc
fanout_fields-described (e ∷ es) [] he hf same = cc
fanout_fields-described (e ∷ es) (f ∷ fs) (he, hes) (hf, hfs) same =
    let numbers : format_int e.generation ≡ format_int f.generation = cc in
    let generations = same_generation e f he hf numbers in
    let tails : fanout_fields es ≡ fanout_fields fs = cc in
    let rest = fanout_fields-described es fs hes hfs tails in
    let receivers : e.receiver_id ≡ f.receiver_id = cc in
    let urls : e.url ≡ f.url = cc in
    let actives : e.active_key_reference ≡ f.active_key_reference = cc in
    let predecessors : e.predecessor_key_reference ≡ f.predecessor_key_reference = cc in
    λ i. (receivers i, generations i, urls i, actives i, predecessors i) ∷ rest i

abbrev pub Collision : (Bytes → Bytes) → Type 0
Collision digest = (x : Bytes) × (y : Bytes) × (x ≢ y) × (digest x ≡ digest y)

module _ (lib : Library) where
  open lib use {sha256_hex}

  same_or_Collision : (x y : Bytes) → sha256_hex x ≡ sha256_hex y → (x ≡ y) ⊎ Collision sha256_hex
  same_or_Collision x y h = elim (Bool-cases (eq_bytes x y)) [
    | inl e ↦ inl (eq_bytes→eq x y e)
    | inr e ↦ inr (x, y, (λ same. ground (arith, e, same, eq_bytes_refl x)), h)
  ]

  -- Two fan-outs with one fingerprint are of the same event of the same owner with the same body, and go
  -- to the same receivers in the same generations with the same URLs and keys, or else two inputs with
  -- one digest are at hand. Bodies are without NUL bytes, as JSON is, and so are the owner and the event,
  -- which are valid tokens.
  pub fingerprint_fanout_lem :
      (owner event_id body owner' event_id' body' : Bytes) (es fs : List Endpoint)
      → valid_token owner ≡ true
      → valid_token event_id ≡ true
      → HasNoNul body
      → valid_token owner' ≡ true
      → valid_token event_id' ≡ true
      → HasNoNul body'
      → All IsListed es
      → All IsListed fs
      → fingerprint_fanout lib owner event_id body es
        ≡ fingerprint_fanout lib owner' event_id' body' fs
      → ((owner ≡ owner')
          × (event_id ≡ event_id')
          × (body ≡ body')
          × (map described es ≡ map described fs))
        ⊎ Collision sha256_hex
  unfolding fingerprint_fanout
  fingerprint_fanout_lem owner id body owner' id' body' es fs vo vi nb vo' vi' nb' he hf same =
      elim (same_or_Collision _ _ same) [
        | inl bytes ↦
            let fields =
              write_fields-injective (owner ∷ id ∷ body ∷ fanout_fields es)
                (owner' ∷ id' ∷ body' ∷ fanout_fields fs)
                (
                  valid_token-HasNoNul owner vo,
                  (valid_token-HasNoNul id vi, (nb, fanout_fields-HasNoNul es he)),
                )
                (
                  valid_token-HasNoNul owner' vo',
                  (valid_token-HasNoNul id' vi', (nb', fanout_fields-HasNoNul fs hf)),
                )
                bytes in
            let rest : fanout_fields es ≡ fanout_fields fs = cc in
            inl (cc, cc, cc, fanout_fields-described es fs he hf rest)
        | inr c ↦ inr c
      ]
