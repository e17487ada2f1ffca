-- ===== src/Inbound/Receiver.antt =====
-- internal/infra/postgresinboundwebhook/receiver.go: `Receive` and `Accept` with its transaction on the
-- receipts and on the jobs of River.
use go_service_template_rest.Base.{
  Bool, ◌||◌, ◌&&◌, not, List, [], ◌∷◌, Option, none, some, Bytes, if◌then◌else◌, ◌==◌, length,
  eq_bytes,
}
use go_service_template_rest.Base.Int.{ℤ}
use go_service_template_rest.Base.GoError.{Err, Result, ok, err, errorf, errorf_two, is}
use go_service_template_rest.Idempotency.Store.Execute.{
  Commit, commit_result, with_extra, err_transaction, commit_unknown_id,
}
use go_service_template_rest.Grpc.Status.{context_canceled, context_deadline_exceeded}
use go_service_template_rest.Inbound.{
  Delivery, Outcome, err_inbound_unavailable, EndpointSecrets, TrustManifest, secrets_for,
  valid_delivery_id, parse_int64, timestamp_in_tolerance, Standard, accepted, duplicate,
  unknown_endpoint, rejected, conflict,
}

-- `receiptRecord`, which is also a row of inbound_webhook_receipts as it is inserted.
pub record Receipt : Type 0 where
  pub receipt_id : Bytes
  pub endpoint_id : Bytes
  pub delivery_id : Bytes
  pub body_sha256 : Bytes
  pub signed_at : ℤ
  pub payload : Bytes

-- The receipts, and the receipts that River's jobs name.
pub record Database : Type 0 where
  pub receipts : List Receipt
  pub jobs : List Bytes

-- One call: the clock, the random id, and how the database answers.
pub record ReceiveCall : Type 0 where
  pub now : ℤ
  pub receipt_id : Bytes
  pub begin_fault : Option Err
  pub claim_fault : Option Err
  pub insert_fault : Option Err
  pub read_fault : Option Err
  pub extra : Option Err
  pub commit : Commit

-- GetInboundWebhookReceiptByIdentity.
unfoldable pub find_receipt : List Receipt → Bytes → Bytes → Option Receipt
unfolding eq_bytes
find_receipt [] endpoint_id delivery_id = none
find_receipt (r ∷ receipts) endpoint_id delivery_id =
    let rest = find_receipt receipts endpoint_id delivery_id in
    if eq_bytes r.endpoint_id endpoint_id && eq_bytes r.delivery_id delivery_id
    then some r
    else rest

abbrev pub Answer : Type 0
Answer = Result Outcome × Database

-- The function of Accept's transaction behind a claim that inserted.
unfoldable pub claimed_receipt : Option Err → Receipt → Database → Answer
claimed_receipt (some e) r db = (err (errorf e), db)
claimed_receipt none r db =
    (ok accepted, record { receipts = r ∷ db.receipts; jobs = r.receipt_id ∷ db.jobs })

-- Behind a claim that found the identity.
unfoldable pub existing_receipt : Option Err → Receipt → Receipt → Database → Answer
existing_receipt (some e) r existing db = (err (errorf e), db)
existing_receipt none r existing db =
    (ok (if eq_bytes existing.body_sha256 r.body_sha256 then duplicate else conflict), db)

unfoldable pub claim_receipt : ReceiveCall → Receipt → Database → Option Receipt → Answer
claim_receipt call r db none = claimed_receipt call.insert_fault r db
claim_receipt call r db (some existing) = existing_receipt call.read_fault r existing db

-- The function of Accept's transaction, whose claim is ClaimInboundWebhookReceipt.
unfoldable pub accept_in : ReceiveCall → Receipt → Database → Option Err → Answer
accept_in call r db (some e) = (err (errorf e), db)
accept_in call r db none =
    claim_receipt call r db (find_receipt db.receipts r.endpoint_id r.delivery_id)

unfoldable pub committed_as : Outcome → Option Err → Result Outcome
committed_as outcome none = ok outcome
committed_as outcome (some e) = err (errorf e)

-- InTx behind that function.
unfoldable pub close_tx : ReceiveCall → Database → Answer → Answer
close_tx call db (err e, inside) =
    (err (errorf (errorf_two err_transaction (with_extra call.extra e))), db)
close_tx call db (ok outcome, inside) =
    let (failure, landed) = commit_result call.extra call.commit in
    (committed_as outcome failure, if landed then inside else db)

unfoldable pub accept_begun : ReceiveCall → Receipt → Database → Option Err → Answer
accept_begun call r db (some e) = (err (errorf (errorf_two err_transaction e)), db)
accept_begun call r db none = close_tx call db (accept_in call r db call.claim_fault)

-- `Accept`.
unfoldable pub accept : ReceiveCall → Receipt → Database → Answer
accept call r db = accept_begun call r db call.begin_fault

-- `Receive` behind Accept.
unfoldable pub received : Answer → Answer
unfolding is
received (ok outcome, db) = (ok outcome, db)
received (err e, db) =
    let canceled = is e context_deadline_exceeded || is e context_canceled in
    (
      err (if canceled && not (is e commit_unknown_id) then errorf e else err_inbound_unavailable),
      db,
    )

module _ (standard : Standard) (trust : TrustManifest) where
  open standard use {sha256, trimmed, verify}

  -- `signatureOK`.
  unfoldable pub signature_ok : EndpointSecrets → Delivery → Bool
  signature_ok secrets d =
      verify secrets.active d.delivery_id d.timestamp d.signature d.body
      || (not (length secrets.predecessor == 0)
          && verify secrets.predecessor d.delivery_id d.timestamp d.signature d.body)

  abbrev pub verified_at : EndpointSecrets → Delivery → ℤ → Option ℤ → Option ℤ
  verified_at secrets d now none = none
  verified_at secrets d now (some signed_at) =
      if not (timestamp_in_tolerance signed_at now)
      then none
      else if not (signature_ok secrets d)
      then none
      else some signed_at

  -- `verify`.
  unfoldable pub verify_delivery : EndpointSecrets → Delivery → ℤ → Option ℤ
  verify_delivery secrets d now =
      if not (valid_delivery_id d.delivery_id)
      then none
      else verified_at secrets d now (parse_int64 (trimmed d.timestamp))

  abbrev pub receipt_of : ReceiveCall → Delivery → ℤ → Receipt
  receipt_of call d signed_at = record {
    receipt_id = call.receipt_id;
    endpoint_id = d.endpoint_id;
    delivery_id = d.delivery_id;
    body_sha256 = sha256 d.body;
    signed_at = signed_at;
    payload = d.body;
  }

  unfoldable pub receive_verified : ReceiveCall → Delivery → Database → Option ℤ → Answer
  receive_verified call d db none = (ok rejected, db)
  receive_verified call d db (some signed_at) =
      received (accept call (receipt_of call d signed_at) db)

  unfoldable pub receive_known : ReceiveCall → Delivery → Database → Option EndpointSecrets → Answer
  receive_known call d db none = (ok unknown_endpoint, db)
  receive_known call d db (some secrets) =
      receive_verified call d db (verify_delivery secrets d call.now)

  -- `Receive`, of a receiver that is configured.
  unfoldable pub receive : ReceiveCall → Delivery → Database → Answer
  receive call d db = receive_known call d db (secrets_for trust d.endpoint_id)
