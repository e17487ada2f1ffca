-- ===== src/Idempotency/Replay.antt =====
-- A stored result is replayed as it was first answered.
use go_service_template_rest.Base.{
  ◌≡◌, ◌≢◌, refl, sym, ap, ◌∙◌, true, false, [], ◌∷◌, Bytes, ◌==◌, ltb, length, arith, Bool-cases,
  inl, inr,
}
use go_service_template_rest.Base.Int.{ℤ}
use go_service_template_rest.Base.GoError.{Result, ok, err, >>=-ok}
use go_service_template_rest.Idempotency.{eq_ℤ}
use go_service_template_rest.Idempotency.Codec.{
  Json, StoredResult, same_json, encode, decode, decode_stored, decode_response, or_invalid,
  valid_status, max_result_bytes, result_schema_version,
}

or_invalid-ok : {A : Type 0} (m : Result A) {a : A} → or_invalid m ≡ ok a → m ≡ ok a
or_invalid-ok (ok a) h = h
or_invalid-ok (err e) h = cc

module _ {Response : Type 0} (json : Json Response) where
  open json use {marshal, unmarshal, marshal_stored, unmarshal_stored}

  decode_response-ok :
      (body : Bytes) (r : Response)
      → decode_response json body ≡ ok r
      → (again : Bytes) × (unmarshal body ≡ ok r)
        × (marshal r ≡ ok again)
        × (same_json json body again ≡ true)
  unfolding decode_response
  decode_response-ok body r h =
      let (read, e, rest) = >>=-ok (or_invalid (unmarshal body)) _ h in
      let (again, f, last) = >>=-ok (or_invalid (marshal read)) _ rest in
      let tested : (read ≡ r) × (same_json json body again ≡ true) = ground arith in
      (
        again,
        or_invalid-ok (unmarshal body) e ∙ ap ok tested.0,
        ap marshal (sym tested.0) ∙ or_invalid-ok (marshal read) f,
        tested.1,
      )

  abbrev stored_of : ℤ → Bytes → StoredResult
  stored_of status body = record {
    schema_version = result_schema_version;
    status = status;
    body = body;
  }

  encode-ok :
      (status : ℤ) (r : Response) (encoded : Bytes)
      → encode json status r ≡ ok encoded
      → (body : Bytes) × (checked : Response) × (valid_status status ≡ true)
        × (marshal r ≡ ok body)
        × (decode_response json body ≡ ok checked)
        × (marshal_stored (stored_of status body) ≡ ok encoded)
        × (ltb max_result_bytes (length encoded) ≡ false)
  unfolding encode
  encode-ok status r encoded h = elim (Bool-cases (valid_status status)) [
    | inr refused ↦ absurd (ground (arith, refused))
    | inl valid ↦
        let (body, e, rest) = >>=-ok (or_invalid (marshal r)) _ (rw valid at h) in
        let (checked, f, rest') = >>=-ok (decode_response json body) _ rest in
        let (out, g, last) = >>=-ok (or_invalid (marshal_stored (stored_of status body))) _ rest' in
        let tested : (out ≡ encoded) × (ltb max_result_bytes (length encoded) ≡ false) =
          ground arith in
        (
          body,
          checked,
          valid,
          or_invalid-ok (marshal r) e,
          f,
          or_invalid-ok (marshal_stored (stored_of status body)) g ∙ ap ok tested.0,
          tested.1,
        )
  ]

  eq_ℤ_refl : (a : ℤ) → eq_ℤ a a ≡ true
  eq_ℤ_refl a = ground arith

  decode_stored-of :
      (status : ℤ) (body : Bytes)
      → decode_stored json status (stored_of status body) ≡ decode_response json body
  unfolding decode_stored
  decode_stored-of status body = ground (arith, eq_ℤ_refl status, eq_ℤ_refl result_schema_version)

  length-eq_zero : (s : Bytes) → s ≢ [] → (length s == 0) ≡ false
  length-eq_zero [] h = absurd (h refl)
  length-eq_zero (c ∷ s) h = ground arith

  -- Where encoding/json reads a stored result back from what it wrote, which is never empty, every
  -- result that `Encode` stores is decoded to a response whose JSON is the JSON of the first one.
  pub decode-encode :
      ((s : StoredResult) (encoded : Bytes)
        → marshal_stored s ≡ ok encoded
        → unmarshal_stored encoded ≡ ok s)
      → ((s : StoredResult) (encoded : Bytes) → marshal_stored s ≡ ok encoded → encoded ≢ [])
      → (status : ℤ) (r : Response) (encoded : Bytes) → encode json status r ≡ ok encoded
      → (body : Bytes) × (replayed : Response) × (again : Bytes) × (marshal r ≡ ok body)
        × (decode json status encoded ≡ ok replayed)
        × (marshal replayed ≡ ok again)
        × (same_json json body again ≡ true)
  unfolding decode
  decode-encode reads filled status r encoded h =
      let (body, checked, valid, written, decoded, stored, fits) = encode-ok status r encoded h in
      let (again, read, rewritten, same) = decode_response-ok body checked decoded in
      (
        body,
        checked,
        again,
        written,
        rw
            (
              valid,
              length-eq_zero encoded (filled (stored_of status body) encoded stored),
              fits,
              reads (stored_of status body) encoded stored,
            )
            (decode_stored-of status body ∙ decoded),
        rewritten,
        same,
      )
