-- ===== src/Inbound/Again.antt =====
-- What a delivery comes to that comes again: internal/infra/postgresinboundwebhook/receiver.go.
use go_service_template_rest.Base.{
  ◌+◌, ◌*◌, ◌^◌, ◌≤◌, ◌≡◌, ◌≢◌, ◌⊎◌, inl, inr, refl, sym, subst, Bool, true, false, not, [], ◌∷◌,
  Option, none, some, Bytes, if◌then◌else◌, ◌==◌, length, ||-true, &&-true, arith,
}
use go_service_template_rest.Base.Int.{ℤ, pos, negsuc, pos_part, neg_part}
use go_service_template_rest.Base.GoError.{ok}
use go_service_template_rest.Inbound.{
  Delivery, accepted, rejected, EndpointSecrets, TrustManifest, secrets_for, Standard,
  timestamp_in_tolerance, valid_delivery_id, parse_int64,
}
use go_service_template_rest.Inbound.Receiver.{
  Receipt, Database, ReceiveCall, Answer, find_receipt, verify_delivery, receipt_of,
  receive_verified, receive_known, receive, signature_ok, verified_at,
}
use go_service_template_rest.Inbound.Accepted.{with_receipt, receive_known-accepted}
use go_service_template_rest.Inbound.Repeat.{Compared, accept-IsRepeat, find_receipt-first}

-- A time in seconds and one in nanoseconds are at most five minutes apart, either way.
abbrev pub Near : ℤ → ℤ → Type 0
Near signed_at now =
    (pos_part now + 10 ^ 9 * neg_part signed_at
      ≤ neg_part now + 10 ^ 9 * pos_part signed_at + 300 * 10 ^ 9)
    × (neg_part now + 10 ^ 9 * pos_part signed_at
        ≤ pos_part now + 10 ^ 9 * neg_part signed_at + 300 * 10 ^ 9)

timestamp_in_tolerance-Near :
    (signed_at now : ℤ) → timestamp_in_tolerance signed_at now ≡ true → Near signed_at now
unfolding timestamp_in_tolerance
timestamp_in_tolerance-Near (pos s) (pos n) h = (ground arith, ground arith)
timestamp_in_tolerance-Near (pos s) (negsuc n) h = (ground arith, ground arith)
timestamp_in_tolerance-Near (negsuc s) (pos n) h = (ground arith, ground arith)
timestamp_in_tolerance-Near (negsuc s) (negsuc n) h = (ground arith, ground arith)

tested :
    (b : Bool) (next : Option ℤ) (signed_at : ℤ)
    → (if not b then none else next) ≡ some signed_at
    → (b ≡ true) × (next ≡ some signed_at)
tested true next signed_at h = (refl, h)
tested false next signed_at h = cc

not-empty : (s : Bytes) → not (length s == 0) ≡ true → s ≢ []
not-empty [] h = cc
not-empty (c ∷ s) h = λ e. cc

-- `again` is a delivery under the same identity, with another timestamp, signature and body.
abbrev pub again : Delivery → Bytes → Bytes → Bytes → Delivery
again d timestamp signature body = record {
  endpoint_id = d.endpoint_id;
  delivery_id = d.delivery_id;
  timestamp = timestamp;
  signature = signature;
  body = body;
}

module _ (standard : Standard) (trust : TrustManifest) where
  open standard use {sha256, verify}

  -- The signature of the delivery verifies under one of the keys of its endpoint.
  abbrev pub Signed : EndpointSecrets → Delivery → Type 0
  Signed secrets d =
      (verify secrets.active d.delivery_id d.timestamp d.signature d.body ≡ true)
      ⊎ ((secrets.predecessor ≢ [])
          × (verify secrets.predecessor d.delivery_id d.timestamp d.signature d.body ≡ true))

  -- The delivery carries its time, was signed with a key of its endpoint, within five minutes of the
  -- clock, and the one change is its receipt with one job.
  pub record IsRecorded (call : ReceiveCall) (d : Delivery) (db after : Database) : Type 0 where
    secrets : EndpointSecrets
    signed_at : ℤ
    known : secrets_for trust d.endpoint_id ≡ some secrets
    stamped : parse_int64 (standard.trimmed d.timestamp) ≡ some signed_at
    fresh : Near signed_at call.now
    signed : Signed secrets d
    recorded : after ≡ with_receipt (receipt_of standard trust call d signed_at) db

  -- Nothing is changed, and the answer is a refusal, an error, or what the digests say.
  abbrev pub IsRepeated : Bytes → Bytes → Database → Answer → Type 0
  IsRepeated recorded came db answer =
      (answer.1 ≡ db) × ((answer.0 ≡ ok rejected) ⊎ Compared recorded came answer.0)

  signature_ok-Signed :
      (secrets : EndpointSecrets) (d : Delivery)
      → signature_ok standard trust secrets d ≡ true
      → Signed secrets d
  unfolding signature_ok
  signature_ok-Signed secrets d h =
      elim (||-true (verify secrets.active d.delivery_id d.timestamp d.signature d.body) _ h) [
        | inl active ↦ inl active
        | inr both ↦
            let (there, old) =
              &&-true (not (length secrets.predecessor == 0))
                (verify secrets.predecessor d.delivery_id d.timestamp d.signature d.body) both in
            inr (not-empty secrets.predecessor there, old)
      ]

  verified_at-Signed :
      (secrets : EndpointSecrets) (d : Delivery) (now : ℤ) (parsed : Option ℤ) (signed_at : ℤ)
      → verified_at standard trust secrets d now parsed ≡ some signed_at
      → (timestamp_in_tolerance signed_at now ≡ true)
        × (signature_ok standard trust secrets d ≡ true)
        × (parsed ≡ some signed_at)
  verified_at-Signed secrets d now none signed_at h = cc
  verified_at-Signed secrets d now (some t) signed_at h =
      let (fresh, h1) = tested (timestamp_in_tolerance t now) _ signed_at h in
      let (signed, h2) = tested (signature_ok standard trust secrets d) (some t) signed_at h1 in
      let same : t ≡ signed_at = cc in
      (subst (λ x. timestamp_in_tolerance x now ≡ true) same fresh, signed, h2)

  verify_delivery-Signed :
      (secrets : EndpointSecrets) (d : Delivery) (now signed_at : ℤ)
      → verify_delivery standard trust secrets d now ≡ some signed_at
      → (timestamp_in_tolerance signed_at now ≡ true)
        × (signature_ok standard trust secrets d ≡ true)
        × (parse_int64 (standard.trimmed d.timestamp) ≡ some signed_at)
  unfolding verify_delivery
  verify_delivery-Signed secrets d now signed_at h =
      let (_, h1) = tested (valid_delivery_id d.delivery_id) _ signed_at h in
      verified_at-Signed secrets d now (parse_int64 (standard.trimmed d.timestamp)) signed_at h1

  receive_verified-IsRepeated :
      (call : ReceiveCall) (d : Delivery) (db : Database) (existing : Receipt) (verdict : Option ℤ)
      → find_receipt db.receipts d.endpoint_id d.delivery_id ≡ some existing
      → IsRepeated existing.body_sha256
          (sha256 d.body)
          db
          (receive_verified standard trust call d db verdict)
  unfolding receive_verified
  receive_verified-IsRepeated call d db existing none found = (refl, inl refl)
  receive_verified-IsRepeated call d db existing (some signed_at) found =
      let (same, h) =
        accept-IsRepeat call (receipt_of standard trust call d signed_at) existing db found in
      (same, inr h)

  receive-IsRecorded :
      (call : ReceiveCall) (d : Delivery) (db after : Database)
      → receive standard trust call d db ≡ (ok accepted, after)
      → IsRecorded call d db after
  unfolding receive
  receive-IsRecorded call d db after h =
      let (secrets, known, signed_at, verified, recorded) =
        receive_known-accepted standard trust call d db after (secrets_for trust d.endpoint_id) h in
      let (fresh, signed, stamped) = verify_delivery-Signed secrets d call.now signed_at verified in
      record {
        secrets = secrets;
        signed_at = signed_at;
        known = known;
        stamped = stamped;
        fresh = timestamp_in_tolerance-Near signed_at call.now fresh;
        signed = signature_ok-Signed secrets d signed;
        recorded = recorded;
      }

  repeated :
      (second : ReceiveCall) (d : Delivery) (timestamp signature body : Bytes) (db : Database)
      (secrets : EndpointSecrets) (r : Receipt)
      → secrets_for trust d.endpoint_id ≡ some secrets
      → find_receipt db.receipts d.endpoint_id d.delivery_id ≡ some r
      → IsRepeated r.body_sha256
          (sha256 body)
          db
          (receive standard trust second (again d timestamp signature body) db)
  unfolding receive receive_known
  repeated second d timestamp signature body db secrets r known found =
      let came = again d timestamp signature body in
      rw known (
        receive_verified-IsRepeated second came db r
          (verify_delivery standard trust secrets came second.now) found)

  -- `Receive` has accepted a delivery. Then its endpoint is known, its signature verifies under
  -- one of the two keys of the endpoint, the time that it carries is at most five minutes from
  -- the clock, either way, and exactly its receipt and one job for it were added. Whatever comes
  -- next under the same endpoint and delivery id changes nothing: it is rejected, or ends in an
  -- error, or is answered as a duplicate, the digest of its body being the recorded one, or as a
  -- conflict, the digest being another.
  pub receive_twice :
      (first second : ReceiveCall) (d : Delivery) (timestamp signature body : Bytes)
      (db after : Database)
      → receive standard trust first d db ≡ (ok accepted, after)
      → IsRecorded first d db after
        × IsRepeated
            (sha256 d.body)
            (sha256 body)
            after
            (receive standard trust second (again d timestamp signature body) after)
  receive_twice first second d timestamp signature body db after h =
      let is_recorded = receive-IsRecorded first d db after h in
      let r = receipt_of standard trust first d is_recorded.signed_at in
      let found : find_receipt after.receipts d.endpoint_id d.delivery_id ≡ some r =
        subst (λ x. find_receipt x.receipts d.endpoint_id d.delivery_id ≡ some r)
          (sym is_recorded.recorded) (find_receipt-first r db.receipts) in
      (
        is_recorded,
        repeated second d timestamp signature body after is_recorded.secrets r is_recorded.known
            found,
      )
