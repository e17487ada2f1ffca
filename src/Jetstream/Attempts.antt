-- ===== src/Jetstream/Attempts.antt =====
-- How a delivery is retried and given up.
use go_service_template_rest.Base.{
  ℕ, zero, suc, ◌≤◌, ◌<◌, ◌≡◌, refl, sym, ap, ◌∙◌, true, false, ◌||◌, List, [], ◌∷◌, ◌++◌, map,
  Option, none, some, codes, if◌then◌else◌, leb, ltb, length, get_elem?, arith, subst,
  length-append, append_assoc,
}
use go_service_template_rest.Base.Int.{ℤ, pos, ltb_ℤ}
use go_service_template_rest.Base.GoError.{Err, ok}
use go_service_template_rest.Jetstream.{WorkerConfig, is_permanent, header_limit_bytes}
use go_service_template_rest.Jetstream.Wire.{
  Msg, Message, Formats, encoded_header_bytes, decode_message, validate_encoded_message,
}
use go_service_template_rest.Jetstream.DeadLetter.{
  Metadata, exhausted, dead_letter_message, transfer_id,
}
use go_service_template_rest.Jetstream.Worker.{
  Effect, invoked, acked, nak, published, record_handler, record_transfer, returned, Nats, Env,
  done, ◌then◌, redelivery, request_redelivery, transferred, transfer, dead_letter, retry,
  settle_error, settle, admit, bounded, handle, attempt_limit, retry_delay_for, handler_outcome,
  outcome_accepted,
}

-- The delay that a run asks the broker for, if it ends so and the broker agrees.
unfoldable pub asked_delay : List Effect → Option ℤ
asked_delay [] = none
asked_delay (nak delay none ∷ []) = some delay
asked_delay (effect ∷ effects) = asked_delay effects

-- The same stored message on its n-th delivery.
abbrev pub delivered : Metadata → ℕ → Metadata
delivered metadata n = record metadata { num_delivered = n }

attempt_limit-below :
    (cfg : WorkerConfig) (i : ℕ)
    → i < length cfg.retry_delays
    → leb (attempt_limit cfg) (suc i) ≡ false
unfolding attempt_limit
attempt_limit-below cfg i h = ground arith

attempt_limit-within :
    (cfg : WorkerConfig) (i : ℕ) → i < length cfg.retry_delays → suc i ≤ attempt_limit cfg
unfolding attempt_limit
attempt_limit-within cfg i h = omega arith

get_elem?-at :
    (before : List ℤ) (delay : ℤ) (after : List ℤ)
    → get_elem? (before ++ delay ∷ after) (length before) ≡ some delay
get_elem?-at [] delay after = refl
get_elem?-at (d ∷ before) delay after = get_elem?-at before delay after

length-before :
    (before : List ℤ) (delay : ℤ) (after : List ℤ)
    → length before < length (before ++ delay ∷ after)
length-before before delay after = omega (arith, length-append before (delay ∷ after))

length-snoc : (before : List ℤ) (delay : ℤ) → length (before ++ delay ∷ []) ≡ suc (length before)
length-snoc before delay = omega (arith, length-append before (delay ∷ []))

attempt_limit-above :
    (cfg : WorkerConfig) (n : ℕ) → n ≤ attempt_limit cfg → ltb (attempt_limit cfg) n ≡ false
attempt_limit-above cfg n h = ground arith

module _ (formats : Formats) (nats : Nats) (cfg : WorkerConfig) (max_payload_bytes : ℤ) where
  -- A well-formed delivery whose handler keeps failing with an error that is not permanent, while the
  -- broker takes every instruction and the worker is not shutting down.
  pub record Failing (env : Env) (source : Msg) (message : Message) (e : Err) : Type 0 where
    pub fits :
        (ltb_ℤ cfg.max_delivery_bytes (pos (formats.size source))
          || ltb_ℤ max_payload_bytes (pos (length source.payload)))
        ≡ false
    pub headers_fit : ltb header_limit_bytes (encoded_header_bytes source.header) ≡ false
    pub decodes : decode_message formats source ≡ ok message
    pub fails : env.handler message ≡ returned (some e)
    pub temporary : is_permanent e ≡ false
    pub serving : env.root_err ≡ none
    pub naks : env.nak_err ≡ none
    pub publishes : env.publish_err ≡ none
    pub acks : env.ack_confirmed ≡ true

  handle-admitted :
      (env : Env) (source : Msg) (metadata : Metadata) (message : Message) (e : Err) (n : ℕ)
      → Failing env source message e
      → n ≤ attempt_limit cfg
      → handle formats nats cfg max_payload_bytes env source (some (delivered metadata n)) ≡ (
          invoked message ∷ []
          then settle_error formats nats cfg max_payload_bytes env source
              (delivered metadata n)
              message
              e)
  unfolding handle bounded admit settle
  handle-admitted env source metadata message e n f h =
      let below : ltb (attempt_limit cfg) n ≡ false = attempt_limit-above cfg n h in
      rw (f.fits, f.headers_fit, f.decodes, below, f.fails) refl

  -- The number `i + 1` is below the limit.
  retry-asks :
      (env : Env) (source : Msg) (metadata : Metadata) (message : Message) (e : Err) (i : ℕ)
      (delay : ℤ)
      → Failing env source message e
      → i < length cfg.retry_delays
      → get_elem? cfg.retry_delays i ≡ some delay
      → settle_error formats nats cfg max_payload_bytes env source
          (delivered metadata (suc i))
          message
          e
        ≡ (
          record_handler (handler_outcome env.context_err e false) (codes "handler_retry")
              ∷ nak delay none
              ∷ [],
          done,
        )
  unfolding settle_error retry request_redelivery redelivery retry_delay_for
  retry-asks env source metadata message e i delay f h d =
      let below : leb (attempt_limit cfg) (suc i) ≡ false = attempt_limit-below cfg i h in
      rw (f.serving, f.temporary, below, d, f.naks) refl

  -- The transfer of the last delivery.
  abbrev pub last_transfer : Msg → Metadata → Message → Msg
  last_transfer source metadata message =
      dead_letter_message formats source (delivered metadata (attempt_limit cfg)) (some message)
        cfg.dead_letter_subject exhausted

  last-transfers :
      (env : Env) (source : Msg) (metadata : Metadata) (message : Message) (e : Err)
      → Failing env source message e
      → validate_encoded_message formats (last_transfer source metadata message) max_payload_bytes
        ≡ none
      → settle_error formats nats cfg max_payload_bytes env source
          (delivered metadata (attempt_limit cfg))
          message
          e
        ≡ (
          record_handler (handler_outcome env.context_err e true) (codes "handler_exhausted")
              ∷ published
                  (last_transfer source metadata message)
                  (transfer_id formats source (delivered metadata (attempt_limit cfg)))
                  none
              ∷ record_transfer outcome_accepted
              ∷ acked true
              ∷ [],
          done,
        )
  unfolding settle_error dead_letter transfer transferred
  last-transfers env source metadata message e f fits =
      let reached : leb (attempt_limit cfg) (attempt_limit cfg) ≡ true = ground arith in
      rw (f.serving, f.temporary, reached, fits, f.publishes, f.acks) refl

  -- The delays that the deliveries `start`, `start + 1` and so on, `count` of them, ask for.
  unfoldable pub asked_delays : Env → Msg → Metadata → ℕ → ℕ → List (Option ℤ)
  unfolding asked_delay handle
  asked_delays env source metadata start zero = []
  asked_delays env source metadata start (suc count) =
      asked_delay
        (handle formats nats cfg max_payload_bytes env source (some (delivered metadata start))).0
      ∷ asked_delays env source metadata (suc start) count

  delivery-asks :
      (env : Env) (source : Msg) (metadata : Metadata) (message : Message) (e : Err) (i : ℕ)
      (delay : ℤ)
      → Failing env source message e
      → i < length cfg.retry_delays
      → get_elem? cfg.retry_delays i ≡ some delay
      → asked_delay
          (handle formats nats cfg max_payload_bytes env source
            (some (delivered metadata (suc i)))).0
        ≡ some delay
  unfolding asked_delay
  delivery-asks env source metadata message e i delay f h d =
      ap (λ r. asked_delay r.0)
        (handle-admitted env source metadata message e (suc i) f (attempt_limit-within cfg i h)
          ∙ ap (λ r. invoked message ∷ [] then r)
              (retry-asks env source metadata message e i delay f h d))

  asks-delays :
      (env : Env) (source : Msg) (metadata : Metadata) (message : Message) (e : Err)
      (before after : List ℤ)
      → Failing env source message e
      → cfg.retry_delays ≡ before ++ after
      → asked_delays env source metadata (suc (length before)) (length after) ≡ map some after
  unfolding asked_delays
  asks-delays env source metadata message e before [] f split = refl
  asks-delays env source metadata message e before (delay ∷ after) f split =
      let this =
        delivery-asks env source metadata message e (length before) delay f
          (rw split (length-before before delay after))
          (rw split (get_elem?-at before delay after)) in
      let later : asked_delays env source metadata (suc (suc (length before))) (length after)
          ≡ map some after =
        subst (λ n. asked_delays env source metadata (suc n) (length after) ≡ map some after)
          (length-snoc before delay)
          (asks-delays env source metadata message e (before ++ delay ∷ []) after f
            (split ∙ sym (append_assoc before (delay ∷ []) after))) in
      rw (this, later) refl

  -- A well-formed message on which the handler always fails with an error that is not permanent,
  -- while the broker takes every instruction and the worker serves: its first deliveries ask for
  -- redelivery after exactly the configured delays in their order, and the next one, on which the
  -- handler is tried a last time, moves it to the dead-letter subject and acknowledges it, if the
  -- transfer fits the message bounds.
  pub handle_gives_up :
      (env : Env) (source : Msg) (metadata : Metadata) (message : Message) (e : Err)
      → Failing env source message e
      → validate_encoded_message formats (last_transfer source metadata message) max_payload_bytes
        ≡ none
      → let last = delivered metadata (attempt_limit cfg) in
        (asked_delays env source metadata 1 (length cfg.retry_delays) ≡ map some cfg.retry_delays)
        × (handle formats nats cfg max_payload_bytes env source (some last) ≡ (
          invoked message
              ∷ record_handler (handler_outcome env.context_err e true) (codes "handler_exhausted")
              ∷ published
                  (last_transfer source metadata message)
                  (transfer_id formats source last)
                  none
              ∷ record_transfer outcome_accepted
              ∷ acked true
              ∷ [],
          done,
        ))
  handle_gives_up env source metadata message e f fits = (
    asks-delays env source metadata message e [] cfg.retry_delays f refl,
    handle-admitted env source metadata message e (attempt_limit cfg) f (omega arith)
        ∙ ap (λ r. invoked message ∷ [] then r)
            (last-transfers env source metadata message e f fits),
  )
