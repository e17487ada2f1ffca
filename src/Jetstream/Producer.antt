-- ===== src/Jetstream/Producer.antt =====
-- internal/infra/natsjs/producer.go, and `Publisher` of registry.go: a publication from its checks to
-- the answer of the broker. An event has a creation time in UTC that is not the zero time.
use go_service_template_rest.Base.{ℕ, Bool, List, [], ◌∷◌, Option, none, some, Bytes, if◌then◌else◌}
use go_service_template_rest.Base.Int.{ℤ}
use go_service_template_rest.Base.GoError.{Err, Result, ok, err, sentinel, errorf, errorf_two}
use go_service_template_rest.Jetstream.{err_rejected, err_ambiguous}
use go_service_template_rest.Jetstream.Wire.{
  Header, Msg, Event, Formats, validate_event, build_nats_message,
}
use go_service_template_rest.Jetstream.Worker.{Nats, is_rejection}
use go_service_template_rest.Jetstream.Domain.{DomainEvent, validate_domain_event}
use go_service_template_rest.Jetstream.Registry.{RouteTable, route_subject, event_from_domain}

abbrev pub err_client_draining : Err
err_client_draining = sentinel 403

-- `PublishResult`, and the jetstream.PubAck that it is made of.
pub record PublishResult : Type 0 where
  pub stream : Bytes
  pub sequence : ℕ
  pub duplicate : Bool

-- One call of PublishMsg: the message, its id for the broker's deduplication and the expected stream.
pub record Sending : Type 0 where
  pub msg : Msg
  pub msg_id : Bytes
  pub stream : Bytes

-- What a publication meets: the trace context, the error of the context, whether the client drains, and
-- the broker.
pub record Surroundings : Type 0 where
  pub inject : Header → Header
  pub context_error : Option Err
  pub draining : Bool
  pub broker : Sending → Result PublishResult

-- `classifyPublishError`.
unfoldable pub classify_publish_error : Nats → Err → Err
unfolding is_rejection
classify_publish_error nats e =
    if is_rejection nats e then errorf err_rejected else errorf err_ambiguous

-- `Client.cfg`, as far as a publication reads it.
pub record ProducerConfig : Type 0 where
  pub stream : Bytes
  pub max_payload_bytes : ℤ

-- What a publication returns, and the messages that it handed to the broker.
abbrev pub Publication : Type 0
Publication = Result PublishResult × List Sending

module _ (formats : Formats) (nats : Nats) (cfg : ProducerConfig) (around : Surroundings) where
  abbrev pub answered : Sending → Result PublishResult → Publication
  answered sending (err e) = (err (classify_publish_error nats e), sending ∷ [])
  answered sending (ok result) = (ok result, sending ∷ [])

  -- `publishOnce`.
  unfoldable pub publish_once : Msg → Bytes → Publication
  publish_once msg msg_id =
      let sending : Sending = record { msg = msg; msg_id = msg_id; stream = cfg.stream } in
      answered sending (around.broker sending)

  unfoldable pub publish_built : Event → Result Msg → Publication
  publish_built event (err e) = (err e, [])
  publish_built event (ok msg) = publish_once msg event.publication_id

  unfoldable pub publish_ready : Event → Option Err → Publication
  publish_ready event (some e) = (err (errorf_two err_rejected e), [])
  publish_ready event none =
      let built = build_nats_message formats around.inject event cfg.max_payload_bytes in
      if around.draining
      then (err (errorf_two err_rejected err_client_draining), [])
      else publish_built event built

  unfoldable pub publish_valid : Event → Option Err → Publication
  publish_valid event (some e) = (err e, [])
  publish_valid event none = publish_ready event around.context_error

  -- `Producer.Publish`.
  unfoldable pub publish_event : Event → Publication
  publish_event event = publish_valid event (validate_event event cfg.max_payload_bytes)

  unfoldable pub publish_routed : DomainEvent → Result Bytes → Publication
  publish_routed event (err e) = (err e, [])
  publish_routed event (ok subject) = publish_event (event_from_domain subject event)

  unfoldable pub publish_admitted : RouteTable → DomainEvent → Option Err → Publication
  publish_admitted subjects event (some e) = (err (errorf e), [])
  publish_admitted subjects event none =
      publish_routed event (route_subject subjects event.type event.version)

  -- `Publisher.Publish`.
  unfoldable pub publish_domain : (Bytes → Bool) → RouteTable → DomainEvent → Publication
  publish_domain json_valid subjects event =
      publish_admitted subjects event (validate_domain_event json_valid event)
