-- ===== src/Inbound/Worker.antt =====
-- internal/inboundwebhook/processor.go and internal/infra/postgresinboundwebhook/worker.go: the bindings of
-- endpoints, and one attempt of a receipt's job. River and json.Valid are parameters.
use go_service_template_rest.Base.{
  ℕ, Bool, true, false, ◌||◌, ◌&&◌, not, List, [], ◌∷◌, Option, none, some, Bytes, codes,
  if◌then◌else◌, ◌==◌, leb, length, eq_bytes, is_some,
}
use go_service_template_rest.Base.Int.{ℤ}
use go_service_template_rest.Base.GoError.{
  Err, Errs, leaf, wrapped, joined, op_error, permanent, status, nil, cons, Result, ok, err,
  sentinel, errorf, is,
}
use go_service_template_rest.Jetstream.Worker.{Outcome, returned, panicked}

-- `VerifiedDelivery`.
pub record VerifiedDelivery : Type 0 where
  pub endpoint_id : Bytes
  pub delivery_id : Bytes
  pub signed_at : ℤ
  pub body : Bytes
  pub received_at : ℤ

abbrev pub EndpointBindings : Type 0
EndpointBindings = List (Bytes × (VerifiedDelivery → Outcome))

unfoldable pub find_binding : EndpointBindings → Bytes → Option (VerifiedDelivery → Outcome)
unfolding eq_bytes
find_binding [] endpoint_id = none
find_binding ((known, handler) ∷ bindings) endpoint_id =
    if eq_bytes known endpoint_id then some handler else find_binding bindings endpoint_id

abbrev pub err_invalid_binding : Err
err_invalid_binding = sentinel 702

abbrev pub err_duplicate_binding : Err
err_duplicate_binding = sentinel 703

-- `ErrDecodeRejected`.
abbrev pub decode_rejected_id : ℕ
decode_rejected_id = 705

-- `decodeError`, by the name of its type.
abbrev pub decode_error_type : Bytes
decode_error_type = codes "inboundwebhook.decodeError"

-- `IsDecodeError`: some error of the tree is a `decodeError`.
unfoldable mutual
  pub is_decode_error : Err → Bool
  is_decode_error (leaf ty i) = false
  is_decode_error (wrapped ty e) = eq_bytes ty decode_error_type || is_decode_error e
  is_decode_error (joined ty es) = any_decode_error es
  is_decode_error (op_error name e) = is_decode_error e
  is_decode_error (permanent e) = is_decode_error e
  is_decode_error (status owned s) = false

  pub any_decode_error : Errs → Bool
  any_decode_error nil = false
  any_decode_error (cons e es) = is_decode_error e || any_decode_error es

module _ {Payload : Type 0} where
  -- The handle that `Bind` makes of a decoder and a handler.
  unfoldable pub bound_handle :
      (Bytes → Result Payload) → (VerifiedDelivery → Payload → Outcome) → VerifiedDelivery → Outcome
  bound_handle decode handler delivery = elim (decode delivery.body) [
    | err e ↦ returned (some (wrapped decode_error_type e))
    | ok value ↦ handler delivery value
  ]

  -- `Bind`; no decoder or handler is a nil one.
  unfoldable pub bind_endpoint :
      EndpointBindings
      → Bytes
      → Option (Bytes → Result Payload)
      → Option (VerifiedDelivery → Payload → Outcome)
      → Result EndpointBindings
  bind_endpoint bindings endpoint_id none handler = err err_invalid_binding
  bind_endpoint bindings endpoint_id (some decode) none = err err_invalid_binding
  bind_endpoint bindings endpoint_id (some decode) (some handler) =
      if length endpoint_id == 0
      then err err_invalid_binding
      else if is_some (find_binding bindings endpoint_id)
      then err err_duplicate_binding
      else ok ((endpoint_id, bound_handle decode handler) ∷ bindings)

unfoldable pub names_endpoint : List Bytes → Bytes → Bool
names_endpoint [] id = false
names_endpoint (other ∷ ids) id = eq_bytes other id || names_endpoint ids id

-- The loop of `RequireExact` over the configured endpoints, behind those that it has seen.
unfoldable pub require_configured : EndpointBindings → List Bytes → List Bytes → Option Err
require_configured bindings seen [] = none
require_configured bindings seen (id ∷ ids) =
    let rest = require_configured bindings (id ∷ seen) ids in
    if names_endpoint seen id || not (is_some (find_binding bindings id))
    then some (errorf err_invalid_binding)
    else rest

unfoldable pub all_configured : List Bytes → EndpointBindings → Bool
all_configured configured [] = true
all_configured configured ((id, _) ∷ bindings) =
    names_endpoint configured id && all_configured configured bindings

-- `RequireExact`.
unfoldable pub require_exact : EndpointBindings → List Bytes → Option Err
require_exact bindings configured = elim (require_configured bindings [] configured) [
  | some e ↦ some e
  | none ↦ if all_configured configured bindings then none else some (errorf err_invalid_binding)
]

-- The states of a receipt.
pub data State : Type 0 where
  pending handled quarantined failed : State

-- `storedReceipt`; a payload that is NULL is empty.
pub record StoredReceipt : Type 0 where
  pub receipt_id : Bytes
  pub endpoint_id : Bytes
  pub delivery_id : Bytes
  pub signed_at : ℤ
  pub received_at : ℤ
  pub payload : Bytes
  pub state : State

abbrev pub is_pending : State → Bool
is_pending pending = true
is_pending handled = false
is_pending quarantined = false
is_pending failed = false

-- GetInboundWebhookReceiptByID.
unfoldable pub load_by_id : List StoredReceipt → Bytes → Option StoredReceipt
load_by_id [] receipt_id = none
load_by_id (r ∷ rows) receipt_id =
    let rest = load_by_id rows receipt_id in
    if eq_bytes r.receipt_id receipt_id then some r else rest

-- What an UPDATE writes: the payload of a receipt that was handled goes.
unfoldable pub settled_as : State → StoredReceipt → StoredReceipt
settled_as pending r = record r { state = pending }
settled_as handled r = record r { state = handled; payload = [] }
settled_as quarantined r = record r { state = quarantined }
settled_as failed r = record r { state = failed }

-- The reason and the time of the end are left out. MarkInboundWebhookHandled, MarkInboundWebhookQuarantined and MarkInboundWebhookFailed.
unfoldable pub mark_rows : State → List StoredReceipt → Bytes → List StoredReceipt
mark_rows new [] receipt_id = []
mark_rows new (r ∷ rows) receipt_id =
    let rest = mark_rows new rows receipt_id in
    if eq_bytes r.receipt_id receipt_id && is_pending r.state
    then settled_as new r ∷ rest
    else r ∷ rest

-- What an attempt comes to: the answer to River, the rows, and what was handed to a handler.
pub record Attempt : Type 0 where
  pub answer : Option Err
  pub rows : List StoredReceipt
  pub handed : List VerifiedDelivery

-- A job, and how the storage answers.
pub record Job : Type 0 where
  pub receipt_id : Bytes
  pub attempt : ℕ
  pub max_attempts : ℕ
  pub load_fault : Bool
  pub mark_fault : Bool

abbrev pub err_storage_unavailable : Err
err_storage_unavailable = sentinel 706

abbrev pub err_decoder_failed : Err
err_decoder_failed = sentinel 707

abbrev pub err_handler_failed : Err
err_handler_failed = sentinel 708

abbrev pub err_panic_recovered : Err
err_panic_recovered = sentinel 709

-- river.JobSnooze of a second.
abbrev pub job_snooze : Err
job_snooze = sentinel 710

abbrev pub verified_delivery : StoredReceipt → VerifiedDelivery
verified_delivery r = record {
  endpoint_id = r.endpoint_id;
  delivery_id = r.delivery_id;
  signed_at = r.signed_at;
  body = r.payload;
  received_at = r.received_at;
}

module _ (job : Job) (rows : List StoredReceipt) where
  -- A mark, and the answer where it fails.
  unfoldable pub marked : State → Err → List VerifiedDelivery → Attempt
  marked new problem handed =
      if job.mark_fault
      then record { answer = some problem; rows = rows; handed = handed }
      else record { answer = none; rows = mark_rows new rows job.receipt_id; handed = handed }

  -- `Work` behind the dispatch of a receipt.
  unfoldable pub concluded : StoredReceipt → Outcome → Attempt
  concluded r panicked = record {
    answer = some err_panic_recovered;
    rows = rows;
    handed = verified_delivery r ∷ [];
  }
  concluded r (returned none) = marked handled err_storage_unavailable (verified_delivery r ∷ [])
  concluded r (returned (some e)) =
      let handed = verified_delivery r ∷ [] in
      if is_decode_error e && is e decode_rejected_id
      then marked quarantined err_storage_unavailable handed
      else if is_decode_error e
      then record { answer = some err_decoder_failed; rows = rows; handed = handed }
      else record { answer = some err_handler_failed; rows = rows; handed = handed }

  -- `Work` on a receipt that is pending, with `finalize` behind the last attempt.
  unfoldable pub work_bound : StoredReceipt → Option (VerifiedDelivery → Outcome) → Attempt
  work_bound r none = record { answer = some job_snooze; rows = rows; handed = [] }
  work_bound r (some handler) =
      if leb job.max_attempts job.attempt
      then marked failed job_snooze []
      else concluded r (handler (verified_delivery r))

  unfoldable pub work_loaded : EndpointBindings → Option StoredReceipt → Attempt
  work_loaded bindings none = record {
    answer =
        some (if leb job.max_attempts job.attempt then job_snooze else err_storage_unavailable);
    rows = rows;
    handed = [];
  }
  work_loaded bindings (some r) =
      if not (is_pending r.state)
      then record { answer = none; rows = rows; handed = [] }
      else work_bound r (find_binding bindings r.endpoint_id)

  -- `Work`.
  unfoldable pub work_receipt : EndpointBindings → Attempt
  work_receipt bindings =
      if length job.receipt_id == 0
      then record { answer = some err_storage_unavailable; rows = rows; handed = [] }
      else work_loaded bindings (if job.load_fault then none else load_by_id rows job.receipt_id)
