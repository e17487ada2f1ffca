-- ===== src/Jetstream/Publication/Arrival.antt =====
-- Whatever Publish returns, what it hands to the broker reaches the handler: registry.go, producer.go and
-- message_wire.go of internal/infra/natsjs together.
mod Tests
use go_service_template_rest.Base.{◌≡◌, ◌⊎◌, []}
use go_service_template_rest.Base.GoError.{Err, ok, err}
use go_service_template_rest.Jetstream.Wire.{Event, Message, Formats, envelope, decode_message}
use go_service_template_rest.Jetstream.Worker.{Nats}
use go_service_template_rest.Jetstream.Domain.{DomainEvent}
use go_service_template_rest.Jetstream.Registry.{Registry, EventHandler, dispatch}
use go_service_template_rest.Jetstream.Producer.{
  ProducerConfig, Surroundings, Sending, Publication, answered,
}

-- An answer that nothing was sent for.
abbrev pub Unsent : Publication → Type 0
Unsent publication = (e : Err) × (publication ≡ (err e, []))

module _ (formats : Formats) (nats : Nats) (cfg : ProducerConfig) (around : Surroundings) where
  -- One message was sent, and the broker's answer was reported.
  abbrev pub Once : (Sending → Type 0) → Publication → Type 0
  Once P publication =
      (sending : Sending) × (publication
        ≡ answered formats nats cfg around sending (around.broker sending))
      × P sending

  abbrev sending_of : Event → Sending
  sending_of event = record {
    msg = envelope formats around.inject event;
    msg_id = event.publication_id;
    stream = cfg.stream;
  }

  module _ (event : Event) where
    -- Nothing was sent, or the one message of the event.
    abbrev NoneOrOnce : Publication → Type 0
    NoneOrOnce publication =
        Unsent publication ⊎ Once (λ sending. sending ≡ sending_of event) publication

  -- The message that was sent is decoded, and dispatched to the handler with the event.
  abbrev pub Arrives : Registry → DomainEvent → EventHandler → Sending → Type 0
  Arrives registry event handler sending =
      (sending.msg_id ≡ event.id)
      × (m : Message) × (decode_message formats sending.msg ≡ ok m)
      × (dispatch registry m ≡ handler event)
