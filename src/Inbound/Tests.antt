-- ===== src/Inbound/Tests.antt =====
-- Inbound webhooks at concrete inputs, with stand-ins: the digest of a body is the body, and a signature is
-- the key.
use go_service_template_rest.Base.{false, ◌≡◌, ◌*◌, ◌^◌, refl, [], ◌∷◌, none, codes, eq_bytes}
use go_service_template_rest.Base.Int.{pos}
use go_service_template_rest.Base.GoError.{ok}
use go_service_template_rest.Base.Decimal.{value_from}
use go_service_template_rest.Jetstream.Registry.{all_digits}
use go_service_template_rest.Idempotency.Store.Execute.{committed}
use go_service_template_rest.Inbound.{
  Delivery, accepted, rejected, TrustManifest, Standard, secrets_for, valid_delivery_id,
  parse_int64, parse_digits, timestamp_in_tolerance,
}
use go_service_template_rest.Inbound.Receiver.{
  Database, ReceiveCall, receive, receive_known, receive_verified, verify_delivery, signature_ok,
  accept, accept_begun, accept_in, claim_receipt, claimed_receipt, find_receipt, close_tx,
  committed_as, received,
}
use go_service_template_rest.Inbound.Again.{again, IsRecorded, IsRepeated, receive_twice}
use go_service_template_rest.Jetstream.Worker.{returned}
use go_service_template_rest.Inbound.Worker.{
  EndpointBindings, StoredReceipt, pending, handled, failed, Job, work_receipt, work_loaded,
  work_bound, concluded, marked, load_by_id, find_binding, mark_rows, settled_as,
}
use go_service_template_rest.Inbound.Settling.{Comes, work_receipt-Comes}

abbrev standard : Standard
standard = record {
  sha256 = λ body. body;
  trimmed = λ s. s;
  verify = λ key id timestamp signature body. eq_bytes key signature;
}

abbrev trust : TrustManifest
trust = (codes "shop", record { active = codes "k2"; predecessor = codes "k1" }) ∷ []

-- 100 seconds behind the signed time.
abbrev call : ReceiveCall
call = record {
  now = pos (1100 * 10 ^ 9);
  receipt_id = codes "r1";
  begin_fault = none;
  claim_fault = none;
  insert_fault = none;
  read_fault = none;
  extra = none;
  commit = committed;
}

abbrev delivery : Delivery
delivery = record {
  endpoint_id = codes "shop";
  delivery_id = codes "d1";
  timestamp = codes "1000";
  signature = codes "k1";
  body = codes "paid";
}

abbrev empty : Database
empty = record { receipts = []; jobs = [] }

abbrev one_receipt : Database
one_receipt = record {
  receipts =
      record {
        receipt_id = codes "r1";
        endpoint_id = codes "shop";
        delivery_id = codes "d1";
        body_sha256 = codes "paid";
        signed_at = pos 1000;
        payload = codes "paid";
      }
      ∷ [];
  jobs = codes "r1" ∷ [];
}

first_comes : receive standard trust call delivery empty ≡ (ok accepted, one_receipt)
unfolding receive secrets_for eq_bytes receive_known verify_delivery valid_delivery_id parse_int64
    parse_digits all_digits value_from timestamp_in_tolerance signature_ok receive_verified accept
    accept_begun accept_in find_receipt claim_receipt claimed_receipt close_tx committed_as received
first_comes = refl

late_rejected :
    receive standard trust (record call { now = pos (1301 * 10 ^ 9) }) delivery empty
    ≡ (ok rejected, empty)
unfolding receive secrets_for eq_bytes receive_known verify_delivery valid_delivery_id parse_int64
    parse_digits all_digits value_from timestamp_in_tolerance receive_verified
late_rejected = refl

receive_twice_example :
    IsRecorded standard trust call delivery empty one_receipt
    × IsRepeated standard trust (codes "paid") (codes "lost") one_receipt (
        receive standard trust call
          (again delivery (codes "1000") (codes "k2") (codes "lost"))
          one_receipt)
receive_twice_example =
    receive_twice standard trust call call delivery (codes "1000") (codes "k2") (codes "lost") empty
      one_receipt first_comes

abbrev bindings : EndpointBindings
bindings = (codes "shop", λ d. returned none) ∷ []

abbrev stored : StoredReceipt
stored = record {
  receipt_id = codes "r1";
  endpoint_id = codes "shop";
  delivery_id = codes "d1";
  signed_at = pos 1000;
  received_at = pos 1100;
  payload = codes "paid";
  state = pending;
}

abbrev job : Job
job = record {
  receipt_id = codes "r1";
  attempt = 1;
  max_attempts = 25;
  load_fault = false;
  mark_fault = false;
}

receipt_handled :
    (work_receipt job (stored ∷ []) bindings).rows
    ≡ record stored { state = handled; payload = [] } ∷ []
unfolding work_receipt work_loaded work_bound concluded marked load_by_id find_binding mark_rows
    settled_as eq_bytes
receipt_handled = refl

last_attempt_fails :
    (work_receipt (record job { attempt = 25 }) (stored ∷ []) bindings).rows
    ≡ record stored { state = failed } ∷ []
unfolding work_receipt work_loaded work_bound marked load_by_id find_binding mark_rows settled_as
    eq_bytes
last_attempt_fails = refl

work_receipt-Comes_example :
    Comes bindings job (stored ∷ []) (work_receipt job (stored ∷ []) bindings)
work_receipt-Comes_example = work_receipt-Comes bindings job (stored ∷ [])
