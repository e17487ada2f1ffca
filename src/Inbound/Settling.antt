-- ===== src/Inbound/Settling.antt =====
-- How an attempt of a receipt's job ends: internal/infra/postgresinboundwebhook/worker.go.
use go_service_template_rest.Base.{
  &&-true, ||-true, eq_bytes, eq_bytes→eq, ◌≡◌, ◌≤◌, ◌⊎◌, inl, inr, refl, sym, subst, Bool, true,
  false, ◌&&◌, List, [], ◌∷◌, Option, none, some, if◌then◌else◌, Bool-cases, leb, leb→le, length,
  ◌==◌,
}
use go_service_template_rest.Base.GoError.{
  Err, Errs, leaf, wrapped, joined, op_error, permanent, status, nil, cons, is,
}
use go_service_template_rest.Jetstream.Worker.{Outcome, returned, panicked}
use go_service_template_rest.Inbound.Worker.{
  VerifiedDelivery, EndpointBindings, find_binding, decode_rejected_id, is_decode_error,
  any_decode_error, decode_error_type, State, handled, quarantined, failed, StoredReceipt,
  is_pending, load_by_id, settled_as, mark_rows, Attempt, Job, verified_delivery, marked, concluded,
  work_bound, work_loaded, work_receipt, job_snooze, err_storage_unavailable, err_decoder_failed,
  err_handler_failed, err_panic_recovered,
}
use go_service_template_rest.Inbound.Rows.{load_by_id-mark_rows}

-- Somewhere in the tree of an error is one that a decoder returned, in the wrapper that `Bind` gives it.
unfoldable mutual
  pub HasDecodeError : Err → Type 0
  HasDecodeError (leaf ty i) = ⊥
  HasDecodeError (wrapped ty e) = (ty ≡ decode_error_type) ⊎ HasDecodeError e
  HasDecodeError (joined ty es) = AnyDecodeError es
  HasDecodeError (op_error name e) = HasDecodeError e
  HasDecodeError (permanent e) = HasDecodeError e
  HasDecodeError (status owned s) = ⊥

  AnyDecodeError : Errs → Type 0
  AnyDecodeError nil = ⊥
  AnyDecodeError (cons e es) = HasDecodeError e ⊎ AnyDecodeError es

mutual
  unfolding is_decode_error HasDecodeError

  is_decode_error-HasDecodeError : (e : Err) → is_decode_error e ≡ true → HasDecodeError e
  is_decode_error-HasDecodeError (leaf ty i) h = cc
  is_decode_error-HasDecodeError (wrapped ty e) h =
      elim (||-true (eq_bytes ty decode_error_type) (is_decode_error e) h) [
        | inl this ↦ inl (eq_bytes→eq ty decode_error_type this)
        | inr inner ↦ inr (is_decode_error-HasDecodeError e inner)
      ]
  is_decode_error-HasDecodeError (joined ty es) h = any_decode_error-AnyDecodeError es h
  is_decode_error-HasDecodeError (op_error name e) h = is_decode_error-HasDecodeError e h
  is_decode_error-HasDecodeError (permanent e) h = is_decode_error-HasDecodeError e h
  is_decode_error-HasDecodeError (status owned s) h = cc

  any_decode_error-AnyDecodeError : (es : Errs) → any_decode_error es ≡ true → AnyDecodeError es
  any_decode_error-AnyDecodeError nil h = cc
  any_decode_error-AnyDecodeError (cons e es) h =
      elim (||-true (is_decode_error e) (any_decode_error es) h) [
        | inl this ↦ inl (is_decode_error-HasDecodeError e this)
        | inr other ↦ inr (any_decode_error-AnyDecodeError es other)
      ]

module _ (job : Job) (rows : List StoredReceipt) (r : StoredReceipt) where
  -- Why a receipt ended in a state.
  abbrev pub Reason : (VerifiedDelivery → Outcome) → State → List VerifiedDelivery → Type 0
  Reason handler new handed =
      ((new ≡ handled)
        × (handler (verified_delivery r) ≡ returned none)
        × (handed ≡ verified_delivery r ∷ []))
      ⊎ (((new ≡ quarantined)
            × (e : Err) × (handler (verified_delivery r) ≡ returned (some e))
            × HasDecodeError e
            × (is e decode_rejected_id ≡ true)
            × (handed ≡ verified_delivery r ∷ []))
          ⊎ ((new ≡ failed) × (job.max_attempts ≤ job.attempt) × (handed ≡ [])))

  -- The attempt is to be repeated, and nothing has changed; or it ended the receipt.
  abbrev pub Ends : (VerifiedDelivery → Outcome) → Attempt → Type 0
  Ends handler attempt =
      ((e : Err) × (attempt.answer ≡ some e) × (attempt.rows ≡ rows))
      ⊎ ((new : State) × (attempt.answer ≡ none)
          × (load_by_id attempt.rows job.receipt_id ≡ some (settled_as new r))
          × Reason handler new attempt.handed)

  module _ (loaded : load_by_id rows job.receipt_id ≡ some r) (waiting : is_pending r.state ≡ true)
      (handler : VerifiedDelivery → Outcome) where
    marked-Ends :
        (new : State) (problem : Err) (handed : List VerifiedDelivery)
        → Reason handler new handed
        → Ends handler (marked job rows new problem handed)
    unfolding marked
    marked-Ends new problem handed reason =
        elim job.mark_fault
          as (λ fault. Ends handler (
            if fault
            then record { answer = some problem; rows = rows; handed = handed }
            else record {
              answer = none;
              rows = mark_rows new rows job.receipt_id;
              handed = handed;
            })) [
              | true ↦ inl (problem, refl, refl)
              | false ↦
                  inr (
                    new,
                    refl,
                    load_by_id-mark_rows new rows job.receipt_id r loaded waiting,
                    reason,
                  )
            ]

    concluded-Ends :
        (outcome : Outcome)
        → handler (verified_delivery r) ≡ outcome
        → Ends handler (concluded job rows r outcome)
    unfolding concluded
    concluded-Ends panicked h = inl (err_panic_recovered, refl, refl)
    concluded-Ends (returned none) h =
        marked-Ends handled err_storage_unavailable (verified_delivery r ∷ []) (inl (refl, h, refl))
    concluded-Ends (returned (some e)) h =
        let handed = verified_delivery r ∷ [] in
        elim (Bool-cases (is_decode_error e && is e decode_rejected_id)) [
          | inl both ↦
              let (rejected, decoding) =
                &&-true (is_decode_error e) (is e decode_rejected_id) both in
              rw both (
                marked-Ends quarantined err_storage_unavailable handed (
                  inr
                    (inl (refl, e, h, is_decode_error-HasDecodeError e rejected, decoding, refl))))
          | inr other ↦
              rw other
                (elim (is_decode_error e)
                  as (λ decode. Ends handler (
                    if decode
                    then record { answer = some err_decoder_failed; rows = rows; handed = handed }
                    else record {
                      answer = some err_handler_failed;
                      rows = rows;
                      handed = handed;
                    })) [
                      | true ↦ inl (err_decoder_failed, refl, refl)
                      | false ↦ inl (err_handler_failed, refl, refl)
                    ])
        ]

    work_bound-Ends : Ends handler (work_bound job rows r (some handler))
    unfolding work_bound
    work_bound-Ends = elim (Bool-cases (leb job.max_attempts job.attempt)) [
      | inl last ↦ rw last (
          marked-Ends failed job_snooze []
            (inr (inr (refl, leb→le job.max_attempts job.attempt last, refl))))
      | inr more ↦ rw more (concluded-Ends (handler (verified_delivery r)) refl)
    ]

-- The attempt is to be repeated and has neither changed the rows nor called a handler.
abbrev pub Waits : List StoredReceipt → Attempt → Type 0
Waits rows attempt =
    (e : Err) × (attempt.answer ≡ some e) × (attempt.rows ≡ rows) × (attempt.handed ≡ [])

-- The receipt had ended before.
abbrev pub Done : List StoredReceipt → Attempt → Type 0
Done rows attempt = (attempt.answer ≡ none) × (attempt.rows ≡ rows) × (attempt.handed ≡ [])

work_bound-Waits :
    (job : Job) (rows : List StoredReceipt) (r : StoredReceipt)
    → Waits rows (work_bound job rows r none)
unfolding work_bound
work_bound-Waits job rows r = (job_snooze, refl, refl, refl)

module _ (bindings : EndpointBindings) (job : Job) (rows : List StoredReceipt) where
  -- What an attempt on a receipt comes to, by its state and its binding.
  abbrev pub Outcomes : StoredReceipt → Attempt → Type 0
  Outcomes r attempt =
      ((is_pending r.state ≡ false) × Done rows attempt)
      ⊎ (((find_binding bindings r.endpoint_id ≡ none) × Waits rows attempt)
          ⊎ ((handler : VerifiedDelivery → Outcome) × (find_binding bindings r.endpoint_id
                ≡ some handler)
              × (is_pending r.state ≡ true)
              × Ends job rows r handler attempt))

  work_bound-Outcomes :
      (r : StoredReceipt)
      → load_by_id rows job.receipt_id ≡ some r
      → is_pending r.state ≡ true
      → (binding : Option (VerifiedDelivery → Outcome))
      → find_binding bindings r.endpoint_id ≡ binding
      → Outcomes r (work_bound job rows r binding)
  work_bound-Outcomes r loaded waiting none h = inr (inl (h, work_bound-Waits job rows r))
  work_bound-Outcomes r loaded waiting (some handler) h =
      inr (inr (handler, h, waiting, work_bound-Ends job rows r loaded waiting handler))

  work_loaded-bound :
      (r : StoredReceipt)
      → is_pending r.state ≡ true
      → work_loaded job rows bindings (some r)
        ≡ work_bound job rows r (find_binding bindings r.endpoint_id)
  unfolding work_loaded
  work_loaded-bound r waiting = rw waiting refl

  work_loaded-Done :
      (r : StoredReceipt)
      → is_pending r.state ≡ false
      → Done rows (work_loaded job rows bindings (some r))
  unfolding work_loaded
  work_loaded-Done r ended = (rw ended refl, rw ended refl, rw ended refl)

  work_loaded-Outcomes :
      (r : StoredReceipt)
      → load_by_id rows job.receipt_id ≡ some r
      → Outcomes r (work_loaded job rows bindings (some r))
  work_loaded-Outcomes r loaded = elim (Bool-cases (is_pending r.state)) [
    | inl waiting ↦
        subst (Outcomes r) (sym (work_loaded-bound r waiting))
          (work_bound-Outcomes r loaded waiting (find_binding bindings r.endpoint_id) refl)
    | inr ended ↦ inl (ended, work_loaded-Done r ended)
  ]

  -- What an attempt comes to: it is repeated without anything done, or it found the receipt.
  abbrev pub Comes : Attempt → Type 0
  Comes attempt =
      Waits rows attempt
      ⊎ ((r : StoredReceipt) × (load_by_id rows job.receipt_id ≡ some r) × Outcomes r attempt)

  work_loaded-Comes :
      (loaded : Option StoredReceipt)
      → load_by_id rows job.receipt_id ≡ loaded
      → Comes (work_loaded job rows bindings loaded)
  unfolding work_loaded
  work_loaded-Comes none h = inl (_, refl, refl, refl)
  work_loaded-Comes (some r) h = inr (r, h, work_loaded-Outcomes r h)

  loaded-Comes :
      (fault : Bool)
      → Comes
          (work_loaded job rows bindings (if fault then none else load_by_id rows job.receipt_id))
  unfolding work_loaded
  loaded-Comes true = inl (_, refl, refl, refl)
  loaded-Comes false = work_loaded-Comes (load_by_id rows job.receipt_id) refl

  -- An attempt of a receipt's job either asks to be repeated, and then has changed no receipt, or
  -- its receipt has ended, and for a reason: handled, where the handler has returned nil on it;
  -- quarantined, where the handler's error has an error of the decoder and `ErrDecodeRejected` in
  -- it; or failed, at the last attempt, where no handler is called. A receipt that had ended, or
  -- has no binding, is handed to none.
  pub work_receipt-Comes : Comes (work_receipt job rows bindings)
  unfolding work_receipt
  work_receipt-Comes =
      elim (length job.receipt_id == 0)
        as (λ blank. Comes (
          if blank
          then record { answer = some err_storage_unavailable; rows = rows; handed = [] }
          else work_loaded job rows bindings
              (if job.load_fault then none else load_by_id rows job.receipt_id))) [
                | true ↦ inl (err_storage_unavailable, refl, refl, refl)
                | false ↦ loaded-Comes job.load_fault
              ]
