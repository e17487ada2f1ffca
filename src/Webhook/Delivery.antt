-- ===== src/Webhook/Delivery.antt =====
-- internal/infra/postgreswebhook/handler.go: one attempt at a delivery, and how it is classified. An
-- attempt keeps the addresses that it tried.
pub mod Attempt
use go_service_template_rest.Base.{
  ℕ, zero, suc, ◌+◌, ◌*◌, ◌^◌, ◌≡◌, Bool, true, false, ◌||◌, ◌&&◌, not, List, [], ◌∷◌, ◌++◌, map,
  Option, none, some, Bytes, codes, if◌then◌else◌, ◌==◌, leb, ltb, length,
}
use go_service_template_rest.Base.Int.{ℤ}
use go_service_template_rest.Base.GoError.{
  Err, Errs, joined, nil, cons, Result, ok, err, ◌>>=◌, sentinel, errorf, wrapped, is,
}
use go_service_template_rest.Outbound.{Addr, v4, v6, unmap, public_address}
use go_service_template_rest.Grpc.Status.{context_canceled, context_deadline_exceeded}
use go_service_template_rest.Webhook.{
  DeliveryArgs, Library, Url, unless, validate_args, parse_webhook_url, err_config,
  err_destination_denied, destination_denied_id,
}
use go_service_template_rest.Webhook.Secrets.{Signing, SecretManifest, resolve_secret, sign_v1}
use go_service_template_rest.Webhook.Retry.{
  Job, Clockwork, parse_retry_after, remember_retry_after, delivery_expired, max_backoff,
}
use go_service_template_rest.Webhook.Transport.{
  Certainty, Evidence, SendResult, Trip, World, err_response_limit, addr_le, insert_addr,
  sort_addrs, same_bool, same_addr, compact_from, compact, all_public, admit_destination_addresses,
  attempt_context_bounded, no_response, certainty_for_write, Sent, sent_with, send, falls_back,
  try_from, try_prepared_addresses, unspecified, definitely_not_sent, may_have_sent, answered,
  failed,
}

-- `retryableWebhookStatus`.
unfoldable pub retryable_webhook_status : ℕ → Bool
retryable_webhook_status status =
    status == 408
    || status == 425
    || status == 429
    || (leb 500 status && leb status 599 && not (status == 501) && not (status == 505))

-- `cancelJob`: an error of river.JobCancel.
abbrev pub cancel_type : Bytes
cancel_type = codes "*rivertype.JobCancelError"

abbrev pub cancel_job : Err
cancel_job = errorf (wrapped cancel_type (sentinel 610))

abbrev pub err_retryable : Err
err_retryable = sentinel 611

-- `deliveryFailure`.
abbrev pub delivery_failure : Option Err → Err
delivery_failure none = sentinel 612
delivery_failure (some e) = errorf e

unfoldable pub is_any_of : Option Err → Option Err → ℕ → Bool
unfolding is
is_any_of none none t = false
is_any_of none (some c) t = is c t
is_any_of (some e) none t = is e t
is_any_of (some e) (some c) t = is e t || is c t

-- `prepareFailure`.
unfoldable pub prepare_failure : Option Err → Err → Err
unfolding is is_any_of
prepare_failure context_error e =
    if is e destination_denied_id
    then cancel_job
    else if is_any_of (some e) context_error context_deadline_exceeded
    then sentinel context_deadline_exceeded
    else if is_any_of (some e) context_error context_canceled
    then sentinel context_canceled
    else errorf e

abbrev pub may_have_been_sent : Certainty → Bool
may_have_been_sent may_have_sent = true
may_have_been_sent unspecified = false
may_have_been_sent definitely_not_sent = false

-- `classifyDelivery`: nil, an error that cancels the job, or one behind which it is retried.
unfoldable pub classify_delivery : SendResult → Option Err → Option Err
unfolding retryable_webhook_status is_any_of
classify_delivery result e =
    if result.evidence.local_permanent
    then some cancel_job
    else if leb 200 result.evidence.status_code && leb result.evidence.status_code 299
    then none
    else if retryable_webhook_status result.evidence.status_code
    then some err_retryable
    else if leb 100 result.evidence.status_code
    then some cancel_job
    else if may_have_been_sent result.evidence.certainty
    then some (delivery_failure e)
    else if is_any_of e none context_deadline_exceeded
    then some (sentinel context_deadline_exceeded)
    else if is_any_of e none context_canceled
    then some (sentinel context_canceled)
    else some (delivery_failure e)

-- What an attempt comes to: the answer to River, the job for `NextRetry`, and the addresses tried.
pub record Outcome : Type 0 where
  pub answer : Option Err
  pub job : Job
  pub tried : List Addr

abbrev pub gave_up : Job → Err → Outcome
gave_up job e = record { answer = some e; job = job; tried = [] }

abbrev pub wrap_lookup {ℓ} : {A : Type ℓ} → Result A → Result A
wrap_lookup (err e) = err (errorf e)
wrap_lookup (ok a) = ok a

abbrev pub remembered : SendResult → Option Err → List Addr → Job → Result Job → Outcome
remembered result e tried job (ok changed) = record {
  answer = classify_delivery result e;
  job = changed;
  tried = tried;
}
remembered result e tried job (err problem) = record {
  answer = some (joined (codes "*errors.joinError") (cons err_retryable (cons problem nil)));
  job = job;
  tried = tried;
}

module _ (lib : Library) (signing : Signing) (clock : Clockwork) (secrets : SecretManifest) where
  abbrev pub predecessor_key : DeliveryArgs → Bytes → Result (Option Bytes)
  predecessor_key args [] = ok none
  predecessor_key args (c ∷ reference) =
      resolve_secret secrets args.owner_scope args.receiver_id (c ∷ reference) >>= λ key.
      ok (some key)

  -- `prepareSend`: the addresses and the signature.
  unfoldable pub prepare_send : World → DeliveryArgs → ℕ → Result (List Addr × Bytes)
  prepare_send w args deadline =
      if not (attempt_context_bounded w deadline)
      then err (errorf err_config)
      else (parse_webhook_url lib args.url >>= λ url.
          wrap_lookup (w.lookup url.hostname) >>= λ found.
          admit_destination_addresses found >>= λ addresses.
          resolve_secret secrets args.owner_scope args.receiver_id args.active_key_reference
          >>= λ active. predecessor_key args args.predecessor_key_reference >>= λ predecessor.
              sign_v1 signing args.delivery_id w.now args.body active predecessor >>= λ signature.
              ok (addresses, signature))

  -- `Work` behind the attempt: what the receiver asked for is remembered.
  unfoldable pub settled : World → Job → Sent × List Addr → Outcome
  settled w job ((result, e), tried) =
      let plain : Outcome = record {
        answer = classify_delivery result e;
        job = job;
        tried = tried;
      } in
      if retryable_webhook_status result.evidence.status_code
      then elim (parse_retry_after clock result.retry_after result.response_date w.now
          max_backoff) [
            | none ↦ plain
            | some hint ↦
                remembered result e tried job
                  (remember_retry_after clock w.set_metadata_error job (w.now + hint))
          ]
      else plain

  unfoldable pub attempted : World → Job → ℕ → Result (List Addr × Bytes) → Outcome
  attempted w job deadline (err e) = gave_up job (prepare_failure w.context_error e)
  attempted w job deadline (ok (addresses, signature)) =
      settled w job (try_prepared_addresses (send w deadline) addresses)

  -- `Work`, of a handler that is configured.
  unfoldable pub work : World → DeliveryArgs → Job → Outcome
  work w args job = elim (validate_args lib args) [
    | some e ↦ gave_up job cancel_job
    | none ↦ elim w.deadline [
      | none ↦ gave_up job cancel_job
      | some deadline ↦
          if delivery_expired job w.now
          then gave_up job cancel_job
          else attempted w job deadline (prepare_send w args deadline)
    ]
  ]
