-- ===== src/Idempotency.antt =====
-- internal/httpidempotency: the key grammar and the identity of a request. A text is its bytes.
pub mod Framing
pub mod Identity
pub mod Codec
pub mod Replay
pub mod Store
mod Tests
use go_service_template_rest.Base.{
  ℕ, zero, suc, ◌+◌, ◌/◌, ◌%◌, ◌^◌, Bool, true, false, ◌||◌, ◌&&◌, not, List, [], ◌∷◌, ◌++◌, Option,
  none, some, Bytes, codes, if◌then◌else◌, ◌==◌, leb, length, eq_bytes,
}
use go_service_template_rest.Base.Int.{ℤ, pos, leb_ℤ, ltb_ℤ, pos_part, neg_part}
use go_service_template_rest.Base.GoError.{
  Err, Result, ok, err, ◌>>=◌, sentinel, errorf, errorf_two, is,
}
use go_service_template_rest.Failure.{
  Classification, code_bad_request, code_idempotency_key_mismatch, code_idempotency_unavailable,
  code_idempotency_outcome_unknown,
}

abbrev pub max_key_bytes : ℕ
max_key_bytes = 255

abbrev pub err_invalid_key : Err
err_invalid_key = sentinel 301

abbrev pub err_invalid_scope : Err
err_invalid_scope = sentinel 302

abbrev pub err_invalid_fingerprint : Err
err_invalid_fingerprint = sentinel 303

abbrev pub err_invalid_result : Err
err_invalid_result = sentinel 304

abbrev pub err_mismatch : Err
err_mismatch = sentinel 305

abbrev pub err_unavailable : Err
err_unavailable = sentinel 306

abbrev pub err_outcome_unknown : Err
err_outcome_unknown = sentinel 307

abbrev pub err_integrity : Err
err_integrity = sentinel 308

-- `ClassifyError`.
unfoldable pub classify_error : Err → Option Classification
unfolding is
classify_error e =
    if is e 301
    then some (record {
      code = code_bad_request;
      detail = codes "idempotency key is missing or invalid";
      retry_after = pos 0;
    })
    else if is e 305
    then some (record {
      code = code_idempotency_key_mismatch;
      detail = codes "idempotency key was used for different input";
      retry_after = pos 0;
    })
    else if is e 306
    then some (record {
      code = code_idempotency_unavailable;
      detail = codes "idempotency is unavailable";
      retry_after = pos 0;
    })
    else if is e 307
    then some (record {
      code = code_idempotency_outcome_unknown;
      detail = codes "idempotency outcome is unknown";
      retry_after = pos 0;
    })
    else none

pub record Scope : Type 0 where
  pub caller : Bytes
  pub operation : Bytes
  pub resource : Bytes

-- The white space that `strings.TrimSpace` removes, as one, two or three bytes of UTF-8.
abbrev space_one : ℕ → Bool
space_one a = (leb 0x9 a && leb a 0xd) || a == 0x20

abbrev space_two : ℕ → ℕ → Bool
space_two a b = a == 0xc2 && (b == 0x85 || b == 0xa0)

abbrev space_three : ℕ → ℕ → ℕ → Bool
space_three a b c =
    (a == 0xe1 && b == 0x9a && c == 0x80)
    || (a == 0xe2
        && ((b == 0x80 && ((leb 0x80 c && leb c 0x8a) || c == 0xa8 || c == 0xa9 || c == 0xaf))
            || (b == 0x81 && c == 0x9f)))
    || (a == 0xe3 && b == 0x80 && c == 0x80)

-- `strings.TrimSpace(s) == ""`.
unfoldable pub is_blank : Bytes → Bool
is_blank [] = true
is_blank (a ∷ []) = space_one a
is_blank (a ∷ b ∷ []) = (space_one a && space_one b) || space_two a b
is_blank (a ∷ b ∷ c ∷ s) =
    let one = is_blank (b ∷ c ∷ s) in
    let two = is_blank (c ∷ s) in
    let three = is_blank s in
    if space_one a
    then one
    else if space_two a b
    then two
    else if space_three a b c
    then three
    else false

-- `Scope.valid`.
unfoldable pub valid_scope : Scope → Bool
unfolding is_blank
valid_scope s = not (is_blank s.caller) && not (is_blank s.operation)

unfoldable pub contains_byte : Bytes → ℕ → Bool
contains_byte [] c = false
contains_byte (x ∷ xs) c = x == c || contains_byte xs c

abbrev pub key_symbols : Bytes
key_symbols = codes "!#$%&'*+-.^_`|~"

-- `validKeyByte`.
unfoldable pub valid_key_byte : ℕ → Bool
unfolding contains_byte
valid_key_byte c =
    (leb b'0' c && leb c b'9')
    || (leb b'A' c && leb c b'Z')
    || (leb b'a' c && leb c b'z')
    || contains_byte key_symbols c

unfoldable pub all_key_bytes : Bytes → Bool
unfolding valid_key_byte
all_key_bytes [] = true
all_key_bytes (c ∷ s) = valid_key_byte c && all_key_bytes s

-- `validKey`.
unfoldable pub valid_key : Bytes → Bool
unfolding all_key_bytes
valid_key [] = false
valid_key (c ∷ s) = leb (length (c ∷ s)) max_key_bytes && all_key_bytes (c ∷ s)

-- `parseKey`: exactly one header line, and a valid one.
unfoldable pub parse_key : List Bytes → Result Bytes
unfolding valid_key
parse_key [] = err err_invalid_key
parse_key (key ∷ []) = if valid_key key then ok key else err err_invalid_key
parse_key (key ∷ other ∷ more) = err err_invalid_key

-- The lowest `k` bytes of a number, the highest first.
unfoldable pub big_endian : ℕ → ℕ → Bytes
big_endian zero n = []
big_endian (suc k) n = big_endian k (n / 256) ++ n % 256 ∷ []

-- `writePart`: the length as a uint64, then the value.
unfoldable pub write_part : Bytes → Bytes
unfolding big_endian
write_part value = big_endian 8 (length value) ++ value

unfoldable pub write_parts : List Bytes → Bytes
unfolding write_part
write_parts [] = []
write_parts (part ∷ parts) = write_part part ++ write_parts parts

pub record Request : Type 0 where
  pub identity : Bytes
  pub fingerprint_version : ℤ
  pub fingerprint : Bytes

abbrev pub identity_domain : Bytes
identity_domain = codes "http-idempotency.identity.v2"

abbrev pub fingerprint_domain : Bytes
fingerprint_domain = codes "http-idempotency.fingerprint.v2"

-- `sha256` stands for crypto/sha256, `marshal` for encoding/json on the semantic input.
module _ (sha256 : Bytes → Bytes) where
  -- `digest`.
  unfoldable pub digest : Bytes → List Bytes → Bytes
  unfolding write_parts
  digest domain parts = sha256 (write_part domain ++ write_parts parts)

  -- `NewRequest`.
  unfoldable pub new_request {ℓ} :
      {Input : Type ℓ} → (Input → Result Bytes) → Scope → Bytes → ℤ → Input → Result Request
  unfolding valid_scope valid_key digest
  new_request marshal scope key version input =
      if not (valid_scope scope)
      then err err_invalid_scope
      else if not (valid_key key)
      then err err_invalid_key
      else if leb_ℤ version (pos 0)
      then err err_invalid_fingerprint
      else elim (marshal input) [
        | err e ↦ err (errorf_two err_invalid_fingerprint e)
        | ok canonical ↦ ok (record {
          identity =
              digest identity_domain (scope.caller ∷ scope.operation ∷ scope.resource ∷ key ∷ []);
          fingerprint_version = version;
          fingerprint = digest fingerprint_domain (canonical ∷ []);
        })
      ]

  -- `NewRequestFromContext`: the header values that `CaptureKey` kept.
  unfoldable pub new_request_from_context {ℓ} :
      {Input : Type ℓ} → (Input → Result Bytes) → List Bytes → Scope → ℤ → Input → Result Request
  unfolding new_request parse_key
  new_request_from_context marshal values scope version input =
      parse_key values >>= λ key. new_request marshal scope key version input

-- `Request.Valid` on the zero value `[32]byte{}`.
unfoldable pub zero_digest : ℕ → Bytes
zero_digest zero = []
zero_digest (suc n) = 0 ∷ zero_digest n

unfoldable pub valid_request : Request → Bool
unfolding zero_digest eq_bytes
valid_request r =
    not (eq_bytes r.identity (zero_digest 32))
    && ltb_ℤ (pos 0) r.fingerprint_version
    && not (eq_bytes r.fingerprint (zero_digest 32))

-- `==` on int16.
abbrev pub eq_ℤ : ℤ → ℤ → Bool
eq_ℤ a b = leb_ℤ a b && leb_ℤ b a

-- `MatchesFingerprint`.
unfoldable pub matches_fingerprint : Request → ℤ → Bytes → Bool
unfolding eq_bytes
matches_fingerprint r version fingerprint =
    eq_ℤ version r.fingerprint_version
    && length fingerprint == length r.fingerprint
    && eq_bytes fingerprint r.fingerprint
