-- ===== src/Idempotency/Tests.antt =====
-- The theorems about internal/httpidempotency at concrete inputs, with a stand-in for SHA-256 that
-- keeps its input and one for encoding/json that writes a response as it is.
use go_service_template_rest.Base.{
  ℕ, zero, suc, subst, ◌≡◌, ◌≢◌, ◌⊎◌, ◌↔◌, refl, true, false, [], ◌∷◌, some, Bytes, codes, eq_bytes,
  arith,
}
use go_service_template_rest.Base.Int.{ℤ, pos, negsuc}
use go_service_template_rest.Base.GoError.{ok-injective, Result, ok, err, sentinel}
use go_service_template_rest.Idempotency.{
  Scope, Request, parse_key, new_request, write_parts, digest, identity_domain, fingerprint_domain,
}
use go_service_template_rest.Idempotency.Identity.{
  IsToken, parse_key_lem, Collision, new_request_same_identity,
}
use go_service_template_rest.Idempotency.Codec.{Json, StoredResult, same_json, encode, decode}
use go_service_template_rest.Idempotency.Replay.{decode-encode}

-- Without the lengths these two would run together.
parts_apart :
    eq_bytes (write_parts (codes "a" ∷ codes "bc" ∷ [])) (write_parts (codes "ab" ∷ codes "c" ∷ []))
    ≡ false
unfolding write_parts eq_bytes
parts_apart = refl

key_accepted : parse_key (codes "order-7" ∷ []) ≡ ok (codes "order-7")
unfolding parse_key
key_accepted = refl

parse_key_lem_example :
    (parse_key (codes "order-7" ∷ []) ≡ ok (codes "order-7"))
    ↔ ((codes "order-7" ∷ [] ≡ codes "order-7" ∷ []) × IsToken (codes "order-7"))
parse_key_lem_example = parse_key_lem (codes "order-7" ∷ []) (codes "order-7") (omega arith)

abbrev scope : Scope
scope = record { caller = codes "u1"; operation = codes "pay"; resource = [] }

abbrev keep : Bytes → Bytes
keep s = s

abbrev made : Request
made = record {
  identity = digest keep identity_domain (codes "u1" ∷ codes "pay" ∷ [] ∷ codes "k" ∷ []);
  fingerprint_version = pos 1;
  fingerprint = digest keep fingerprint_domain (codes "x" ∷ []);
}

new_request-made :
    new_request keep {Input = Bytes} ok scope (codes "k") (pos 1) (codes "x") ≡ ok made
unfolding new_request
new_request-made = refl

new_request_same_identity_example : ((scope ≡ scope) × (codes "k" ≡ codes "k")) ⊎ Collision keep
new_request_same_identity_example =
    new_request_same_identity keep {Input = Bytes} ok scope scope (codes "k") (codes "k") (pos 1)
      (pos 1) (codes "x") (codes "x") made made (omega arith) (omega arith) new_request-made
      new_request-made refl

-- A response is a text and its own JSON; a stored result is written field by field.
abbrev write_int : ℤ → Bytes → Bytes
write_int (pos n) rest = 0 ∷ n ∷ rest
write_int (negsuc n) rest = 1 ∷ n ∷ rest

abbrev read_int : ℕ → ℕ → ℤ
read_int zero n = pos n
read_int (suc sign) n = negsuc n

abbrev read_stored : Bytes → Result StoredResult
read_stored (a ∷ m ∷ b ∷ n ∷ body) =
    ok (record { schema_version = read_int a m; status = read_int b n; body = body })
read_stored _ = err (sentinel 9)

abbrev write_stored : StoredResult → Bytes
write_stored s = write_int s.schema_version (write_int s.status s.body)

read-write :
    (a b : ℤ) (body : Bytes)
    → read_stored (write_int a (write_int b body))
      ≡ ok (record { schema_version = a; status = b; body = body })
read-write (pos m) (pos n) body = refl
read-write (pos m) (negsuc n) body = refl
read-write (negsuc m) (pos n) body = refl
read-write (negsuc m) (negsuc n) body = refl

write-ne-nil : (a : ℤ) (rest : Bytes) → write_int a rest ≢ []
write-ne-nil (pos n) rest e = cc
write-ne-nil (negsuc n) rest e = cc

abbrev pub json : Json Bytes
json = record {
  marshal = ok;
  unmarshal = ok;
  marshal_stored = λ s. ok (write_stored s);
  unmarshal_stored = read_stored;
  Value = Bytes;
  decode_value = some;
  deep_equal = eq_bytes;
}

pub stored_reads :
    (s : StoredResult) (encoded : Bytes)
    → ◌≡◌ {A = Result Bytes} (ok (write_stored s)) (ok encoded)
    → read_stored encoded ≡ ok s
stored_reads s encoded h =
    subst (λ e. read_stored e ≡ ok s) (ok-injective (write_stored s) encoded h)
      (read-write s.schema_version s.status s.body)

pub stored_filled :
    (s : StoredResult) (encoded : Bytes)
    → ◌≡◌ {A = Result Bytes} (ok (write_stored s)) (ok encoded)
    → encoded ≢ []
stored_filled s encoded h =
    subst (λ e. e ≢ []) (ok-injective (write_stored s) encoded h)
      (write-ne-nil s.schema_version (write_int s.status s.body))

pub encode_created : encode json (pos 201) (codes "{}") ≡ ok (0 ∷ 1 ∷ 0 ∷ 201 ∷ codes "{}")
unfolding encode eq_bytes
encode_created = refl

decode-encode_example :
    (body : Bytes) × (replayed : Bytes) × (again : Bytes) × (ok (codes "{}") ≡ ok body)
    × (decode json (pos 201) (0 ∷ 1 ∷ 0 ∷ 201 ∷ codes "{}") ≡ ok replayed)
    × (ok replayed ≡ ok again)
    × (same_json json body again ≡ true)
decode-encode_example =
    decode-encode json stored_reads stored_filled (pos 201) (codes "{}")
      (0 ∷ 1 ∷ 0 ∷ 201 ∷ codes "{}") encode_created
