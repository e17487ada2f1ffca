-- ===== src/Jetstream/Worker.antt =====
-- internal/infra/natsjs/worker_delivery.go and `classifyPublishError` of producer.go: what a worker does
-- with one delivery. What it asks of the broker and reports to its operator is a list of effects;
-- how the broker and the feature handler answer is in the environment.
use go_service_template_rest.Base.{
  ℕ, zero, suc, ◌+◌, Bool, true, false, ◌||◌, ◌&&◌, not, List, [], ◌∷◌, ◌++◌, Option, none, some,
  Bytes, codes, if◌then◌else◌, leb, ltb, length, get_elem?, is_some,
}
use go_service_template_rest.Base.Int.{ℤ, pos, ltb_ℤ}
use go_service_template_rest.Base.GoError.{Err, Result, ok, err, is}
use go_service_template_rest.Jetstream.{WorkerConfig, terminal, is_permanent, header_limit_bytes}
use go_service_template_rest.Jetstream.Wire.{
  Msg, Message, Formats, encoded_header_bytes, decode_message, validate_encoded_message,
}
use go_service_template_rest.Jetstream.DeadLetter.{
  Metadata, malformed, exhausted, permanent_reason, dead_letter_message, transfer_id,
}

abbrev pub canceled_id : ℕ
canceled_id = 1

abbrev pub deadline_exceeded_id : ℕ
deadline_exceeded_id = 2

pub data Effect : Type 0 where
  invoked : Message → Effect
  -- `DoubleAck`, `NakWithDelay` and a publication, each with the broker's answer.
  acked : Bool → Effect
  nak : ℤ → Option Err → Effect
  published : Msg → Bytes → Option Err → Effect
  record_handler : Bytes → Bytes → Effect
  record_transfer : Bytes → Effect
  log_terminal : Bytes → Effect

pub data Outcome : Type 0 where
  returned : Option Err → Outcome
  panicked : Outcome

-- Errors that nats.go returns, as its documentation names them.
pub record Nats : Type 0 where
  pub is_api_error : Err → Bool
  pub no_responders : ℕ
  pub no_stream_response : ℕ
  pub stream_not_found : ℕ

-- One delivery's surroundings: the handler, the error of its own context and of the worker's root
-- context when it has returned, and the broker's answers.
pub record Env : Type 0 where
  pub handler : Message → Outcome
  pub context_err : Option Err
  pub root_err : Option Err
  pub ack_confirmed : Bool
  pub publish_err : Option Err
  pub nak_err : Option Err

-- `classifyPublishError`: a definite refusal, or an unknown outcome.
unfoldable pub is_rejection : Nats → Err → Bool
unfolding is
is_rejection nats e =
    nats.is_api_error e
    || is e nats.no_responders
    || is e nats.no_stream_response
    || is e nats.stream_not_found

abbrev pub outcome_accepted : Bytes
outcome_accepted = codes "accepted"

abbrev pub outcome_rejected : Bytes
outcome_rejected = codes "rejected"

abbrev pub outcome_ambiguous : Bytes
outcome_ambiguous = codes "ambiguous"

-- `handlerOutcome`.
unfoldable pub handler_outcome : Option Err → Err → Bool → Bytes
unfolding is
handler_outcome context_err e is_exhausted =
    if elim context_err [ none ↦ false | some c ↦ is c deadline_exceeded_id ]
    then codes "timeout"
    else if not is_exhausted && is e canceled_id
    then codes "canceled"
    else codes "retryable"

-- `attemptLimit`.
unfoldable pub attempt_limit : WorkerConfig → ℕ
attempt_limit cfg = 1 + length cfg.retry_delays

-- `retryDelayFor`, which panics outside the delays; in Go, 0 - 1 is outside as well.
unfoldable pub retry_delay_for : WorkerConfig → ℕ → Option ℤ
retry_delay_for cfg zero = none
retry_delay_for cfg (suc n) = get_elem? cfg.retry_delays n

-- A run: the effects in their order, and the error, which stops the worker. `crashed` is a panic of
-- the worker's own.
pub data End : Type 0 where
  done : End
  stopped : Err → End
  crashed : End

abbrev pub Run : Type 0
Run = List Effect × End

infixr 5 ◌then◌
abbrev pub ◌then◌ : List Effect → Run → Run
effects then r = (effects ++ r.0, r.1)

unfoldable pub redelivery : ℤ → Bytes → Option Err → Run
redelivery delay reason (some e) = (nak delay (some e) ∷ log_terminal reason ∷ [], stopped terminal)
redelivery delay reason none = (nak delay none ∷ [], done)

-- `requestRedelivery`.
unfoldable pub request_redelivery : Env → ℤ → Bytes → Run
unfolding redelivery
request_redelivery env delay reason = redelivery delay reason env.nak_err

-- `acknowledge`.
unfoldable pub acknowledge : Env → Run
acknowledge env = (
  acked env.ack_confirmed
      ∷ record_handler (codes "success")
          (if env.ack_confirmed then codes "none" else codes "ack_ambiguous")
      ∷ [],
  done,
)

module _ (formats : Formats) (nats : Nats) (cfg : WorkerConfig) (max_payload_bytes : ℤ) where
  open formats use {size}

  -- `deadLetter` behind its publication.
  unfoldable pub transferred : Env → Option Err → Run
  unfolding request_redelivery is_rejection
  transferred env none =
      record_transfer outcome_accepted ∷ acked env.ack_confirmed ∷ []
      then (if env.ack_confirmed
          then ([], done)
          else request_redelivery env cfg.dead_letter_retry_delay
              (codes "source_ack_redelivery_rejected"))
  transferred env (some e) =
      if is_rejection nats e
      then (
        record_transfer outcome_rejected ∷ log_terminal (codes "dlq_rejected") ∷ [],
        stopped terminal,
      )
      else record_transfer outcome_ambiguous ∷ []
        then request_redelivery env cfg.dead_letter_retry_delay (codes "dlq_redelivery_rejected")

  -- `deadLetter` on the check of its message.
  unfoldable pub transfer : Env → Msg → Bytes → Option Err → Run
  unfolding transferred
  transfer env msg id (some e) = (
    record_transfer outcome_rejected ∷ log_terminal (codes "dlq_envelope") ∷ [],
    stopped terminal,
  )
  transfer env msg id none =
      published msg id env.publish_err ∷ [] then transferred env env.publish_err

  -- `deadLetter`.
  unfoldable pub dead_letter : Env → Msg → Metadata → Option Message → Bytes → Run
  unfolding transfer dead_letter_message transfer_id validate_encoded_message
  dead_letter env source metadata decoded reason =
      let msg =
        dead_letter_message formats source metadata decoded cfg.dead_letter_subject reason in
      transfer env msg (transfer_id formats source metadata)
        (validate_encoded_message formats msg max_payload_bytes)

  -- `settle` below the attempt limit.
  unfoldable pub retry : Env → Bytes → Option ℤ → Run
  unfolding request_redelivery
  retry env outcome none = (record_handler outcome (codes "handler_retry") ∷ [], crashed)
  retry env outcome (some delay) =
      record_handler outcome (codes "handler_retry") ∷ []
      then request_redelivery env delay (codes "handler_redelivery_rejected")

  -- `settle` of an error that the handler returned.
  unfoldable pub settle_error : Env → Msg → Metadata → Message → Err → Run
  unfolding dead_letter retry handler_outcome attempt_limit retry_delay_for is_permanent
  settle_error env source metadata message e =
      if is_some env.root_err
      then (record_handler (codes "canceled") (codes "shutdown") ∷ [], done)
      else if is_permanent e
      then record_handler (codes "permanent") (codes "handler_permanent") ∷ []
      then dead_letter env source metadata (some message) permanent_reason
      else if leb (attempt_limit cfg) metadata.num_delivered
      then record_handler (handler_outcome env.context_err e true) (codes "handler_exhausted") ∷ []
      then dead_letter env source metadata (some message) exhausted
      else retry env (handler_outcome env.context_err e false)
          (retry_delay_for cfg metadata.num_delivered)

  -- `settle`.
  unfoldable pub settle : Env → Msg → Metadata → Message → Outcome → Run
  unfolding settle_error acknowledge
  settle env source metadata message panicked = (
    record_handler (codes "terminal") (codes "handler_panic")
        ∷ log_terminal (codes "handler_panic")
        ∷ [],
    stopped terminal,
  )
  settle env source metadata message (returned none) = acknowledge env
  settle env source metadata message (returned (some e)) =
      settle_error env source metadata message e

  -- `handle` of a decoded message.
  unfoldable pub admit : Env → Msg → Metadata → Result Message → Run
  unfolding settle dead_letter attempt_limit
  admit env source metadata (err e) = dead_letter env source metadata none malformed
  admit env source metadata (ok message) =
      if ltb (attempt_limit cfg) metadata.num_delivered
      then dead_letter env source metadata (some message) exhausted
      else invoked message ∷ [] then settle env source metadata message (env.handler message)

  -- `handle` of a delivery with its metadata.
  unfoldable pub bounded : Env → Msg → Metadata → Run
  unfolding admit decode_message encoded_header_bytes
  bounded env source metadata =
      if ltb_ℤ cfg.max_delivery_bytes (pos (size source))
        || ltb_ℤ max_payload_bytes (pos (length source.payload))
      then (log_terminal (codes "delivery_bound") ∷ [], stopped terminal)
      else if ltb header_limit_bytes (encoded_header_bytes source.header)
      then dead_letter env source metadata none malformed
      else admit env source metadata (decode_message formats source)

  -- `handle`.
  unfoldable pub handle : Env → Msg → Option Metadata → Run
  unfolding bounded
  handle env source none = (log_terminal (codes "metadata_unavailable") ∷ [], stopped terminal)
  handle env source (some metadata) = bounded env source metadata
