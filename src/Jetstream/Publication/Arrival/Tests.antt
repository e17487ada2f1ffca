-- ===== src/Jetstream/Publication/Arrival/Tests.antt =====
-- A publication that reaches its handler, with stand-ins for the formats that write a time as one byte.
use go_service_template_rest.Base.{
  ℕ, ◌≡◌, refl, true, false, [], ◌∷◌, Option, none, some, Bytes, codes, length, eq_bytes,
}
use go_service_template_rest.Base.Int.{pos, add64, wrap64}
use go_service_template_rest.Base.GoError.{Result, ok, err, sentinel, errorf}
use go_service_template_rest.Base.Decimal.{format_uint, value_from}
use go_service_template_rest.Jetstream.{err_rejected, contains_any}
use go_service_template_rest.Jetstream.Wire.{validate_event, build_nats_message, Formats}
use go_service_template_rest.Jetstream.Worker.{Nats, returned}
use go_service_template_rest.Jetstream.Domain.{validate_domain_event, DomainEvent}
use go_service_template_rest.Jetstream.Registry.{
  Registry, EventHandler, new_registry, register, find_key, route_key, schema_version,
  schema_for_version, parse_uint16, all_digits, route_subject, event_from_domain,
}
use go_service_template_rest.Jetstream.Producer.{
  ProducerConfig, Surroundings, PublishResult, publish_domain, publish_admitted, publish_routed,
  publish_event, publish_valid, publish_ready, publish_built, publish_once,
}

abbrev read_time : Bytes → Option ℕ
read_time [] = none
read_time (t ∷ []) = some t
read_time (t ∷ u ∷ s) = none

abbrev formats : Formats
formats = record {
  format_time = λ t. t ∷ [];
  parse_time = read_time;
  size = λ m. length m.payload;
  trace_fields = [];
  sha256_hex = λ b. codes "00";
  format_uint = λ n. n ∷ [];
}

abbrev nats : Nats
nats = record {
  is_api_error = λ e. false;
  no_responders = 901;
  no_stream_response = 902;
  stream_not_found = 903;
}

abbrev cfg : ProducerConfig
cfg = record { stream = codes "EVENTS"; max_payload_bytes = pos 1000 }

abbrev acceptance : PublishResult
acceptance = record { stream = codes "EVENTS"; sequence = 5; duplicate = false }

abbrev around : Surroundings
around = record {
  inject = λ header. header;
  context_error = none;
  draining = false;
  broker = λ sending. ok acceptance;
}

-- The handler answers with an error that tells what it was given.
abbrev handler : EventHandler
handler event = returned (some (sentinel event.version))

abbrev routes_registry : Result Registry
routes_registry =
    new_registry
      (record { type = codes "created"; version = 12; subject = codes "orders.created" } ∷ [])

abbrev registry : Registry
registry = record {
  subjects = (route_key (codes "created") 12, codes "orders.created") ∷ [];
  event_handlers = (route_key (codes "created") 12, handler) ∷ [];
}

abbrev event : DomainEvent
event = record {
  id = codes "e1";
  type = codes "created";
  version = 12;
  occurred_at = record { nanoseconds = 99; offset = pos 0 };
  payload = codes "{}";
}

registry-built :
    elim routes_registry as (λ r. Result Registry) [
      | err e ↦ err e
      | ok empty ↦ register empty (codes "created") 12 (some handler)
    ]
    ≡ ok registry
unfolding new_registry register eq_bytes contains_any route_subject
registry-built = refl

registered_again_refused :
    register registry (codes "created") 12 (some handler) ≡ err (errorf err_rejected)
unfolding register eq_bytes route_subject find_key
registered_again_refused = refl

leading_zero_refused : schema_version (codes "v012") ≡ err (sentinel 421)
unfolding schema_version schema_for_version format_uint value_from eq_bytes parse_uint16 all_digits
leading_zero_refused = refl

accepted :
    (publish_domain formats nats cfg around (λ s. true) registry.subjects event).0 ≡ ok acceptance
unfolding publish_domain eq_bytes publish_admitted validate_domain_event publish_routed
    route_subject publish_event publish_valid validate_event event_from_domain schema_for_version
    format_uint publish_ready publish_built build_nats_message add64 wrap64 publish_once
accepted = refl
