-- ===== src/Jetstream/Publication.antt =====
-- From a publication to the handler: internal/infra/natsjs/registry.go, producer.go and message_wire.go
-- together.
pub mod Arrival
use go_service_template_rest.Base.{
  ℕ, suc, ◌^◌, ◌≡◌, ◌≢◌, ◌<◌, ◌≤◌, ◌⊎◌, inl, inr, refl, sym, ap, ◌∙◌, subst, Bool, true, false,
  ◌||◌, ◌&&◌, not, List, [], ◌∷◌, Option, none, some, Bytes, if◌then◌else◌, ◌==◌, leb, ltb, length,
  eq_bytes, eq_bytes_refl, arith, Bool-cases, All,
}
use go_service_template_rest.Base.Int.{ℤ, pos, negsuc}
use go_service_template_rest.Base.GoError.{Err, Result, ok, err}
use go_service_template_rest.Base.Decimal.{
  format_uint, value_from, IsDigit, decimal_fuel-digits, value_from-format_uint,
}
use go_service_template_rest.Jetstream.{rejected, valid_publish_subject}
use go_service_template_rest.Jetstream.Wire.{
  Header, Msg, Event, Message, Formats, get, set, envelope, decode_message, decode_at, decoded,
  identity_values, validate_all, validate_event, validate_required_value, envelope_headers,
  header_message_id, header_msg_id, header_event_type, header_event_schema, header_created_at,
  first_error, build_nats_message, validate_encoded_message,
}
use go_service_template_rest.Jetstream.Worker.{Nats, Outcome}
use go_service_template_rest.Jetstream.Domain.{
  is_utc, DomainEvent, validate_domain_event, validate_text, invalid_domain_event,
}
use go_service_template_rest.Jetstream.Registry.{
  Registry, RouteTable, EventHandler, all_digits, parse_uint16, schema_for_version, schema_version,
  route_subject, find_key, route_key, dispatch, event_of, dispatch_at, dispatch_to,
  event_from_domain,
}
use go_service_template_rest.Jetstream.Refusals.{first_error-none, not-refused}
use go_service_template_rest.Jetstream.Headers.{names_have}
use go_service_template_rest.Jetstream.Producer.{
  ProducerConfig, Surroundings, Sending, Publication, publish_domain, publish_admitted,
  publish_routed, publish_event, publish_valid, publish_built, publish_once, answered,
}

All-digits : (s : Bytes) → All IsDigit s → all_digits s ≡ true
unfolding all_digits
All-digits [] h = refl
All-digits (c ∷ s) ((low, high), rest) = rw (All-digits s rest) (ground arith)

format_uint-digits : (n : ℕ) → all_digits (format_uint n) ≡ true
unfolding format_uint
format_uint-digits n = All-digits (format_uint n) (decimal_fuel-digits 20 n)

format_uint-nonempty : (n : ℕ) → n < 10 ^ 20 → n ≢ 0 → (length (format_uint n) == 0) ≡ false
unfolding value_from
format_uint-nonempty n small filled =
    elim (format_uint n) as (λ s. value_from 0 s ≡ n → (length s == 0) ≡ false) [
      | [] ↦ λ h. absurd (filled (sym h))
      | c ∷ s ↦ λ h. ground arith
    ]
      (value_from-format_uint n small)

parse_uint16-format_uint : (n : ℕ) → n < 2 ^ 16 → n ≢ 0 → parse_uint16 (format_uint n) ≡ some n
unfolding parse_uint16
parse_uint16-format_uint n small filled =
    let bound : n < 10 ^ 20 = omega arith in
    let fits : ltb n (2 ^ 16) ≡ true = ground arith in
    rw
      (
        format_uint-nonempty n bound filled,
        format_uint-digits n,
        value_from-format_uint n bound,
        fits,
      )
      refl

-- A version is read back from its schema.
pub schema_version-schema_for_version :
    (n : ℕ) → n < 2 ^ 16 → n ≢ 0 → schema_version (schema_for_version n) ≡ ok n
unfolding schema_version schema_for_version
schema_version-schema_for_version n small filled =
    let text = format_uint-nonempty n (omega arith) filled in
    let same = eq_bytes_refl (b'v' ∷ format_uint n) in
    let long : ltb (suc (length (format_uint n))) 2 ≡ false = ground arith in
    let positive : (n == 0) ≡ false = ground arith in
    rw (long, parse_uint16-format_uint n small filled, positive, same) refl

pub route_subject-found :
    (table : RouteTable) (type : Bytes) (version : ℕ) (subject : Bytes)
    → route_subject table type version ≡ ok subject
    → find_key table (route_key type version) ≡ some subject
unfolding route_subject
route_subject-found table type version subject h =
    elim (find_key table (route_key type version))
        as (λ found.
          ◌≡◌ {A = Result Bytes} (elim found [ none ↦ err rejected | some s ↦ ok s ]) (ok subject)
          → found ≡ some subject) [ none ↦ λ e. cc | some s ↦ λ e. cc ]
      h

-- The message that a published event is decoded to.
abbrev pub message_from : Event → Message
message_from event = record {
  subject = event.subject;
  message_id = event.message_id;
  publication_id = event.publication_id;
  event_type = event.type;
  schema = event.schema;
  created_at = event.created_at;
  payload = event.payload;
}

-- A message of the event is dispatched to the handler of its kind, with the same event.
pub dispatch-event_from_domain :
    (registry : Registry) (event : DomainEvent) (subject : Bytes) (handler : EventHandler)
    → find_key registry.event_handlers (route_key event.type event.version) ≡ some handler
    → find_key registry.subjects (route_key event.type event.version) ≡ some subject
    → event.version < 2 ^ 16
    → event.version ≢ 0
    → event.occurred_at.offset ≡ pos 0
    → dispatch registry (message_from (event_from_domain subject event)) ≡ handler event
unfolding dispatch dispatch_at dispatch_to event_from_domain
dispatch-event_from_domain registry event subject handler found routed small positive utc =
    let version = schema_version-schema_for_version event.version small positive in
    rw (version, found, routed, eq_bytes_refl subject)
      (ap handler (λ i. record {
        id = event.id;
        type = event.type;
        version = event.version;
        occurred_at = record { nanoseconds = event.occurred_at.nanoseconds; offset = sym utc i };
        payload = event.payload;
      }))

module _ (formats : Formats) (inject : Header → Header)
    (keeps : (header : Header) (name : Bytes)
      → names_have (header_msg_id ∷ envelope_headers) name ≡ true
      → get (inject header) name ≡ get header name) where
  open formats use {format_time, parse_time}

  -- The header that the trace context is added to.
  abbrev header_of : Event → Header
  header_of event =
      let header = set [] header_message_id event.message_id in
      let header = set header header_msg_id event.publication_id in
      let header = set header header_event_type event.type in
      let header = set header header_event_schema event.schema in
      set header header_created_at (format_time event.created_at)

  pub decode_message-envelope :
      (event : Event)
      → validate_all (event.message_id ∷ event.publication_id ∷ event.type ∷ event.schema ∷ [])
        ≡ none
      → parse_time (format_time event.created_at) ≡ some event.created_at
      → decode_message formats (envelope formats inject event) ≡ ok (message_from event)
  unfolding decode_message decode_at decoded envelope get set eq_bytes names_have
  decode_message-envelope event valid time =
      let header = header_of event in
      rw
        (
          keeps header header_created_at refl,
          time,
          keeps header header_message_id refl,
          keeps header header_msg_id refl,
          keeps header header_event_type refl,
          keeps header header_event_schema refl,
          valid,
        )
        (λ i. ok (record {
          subject = event.subject;
          message_id = keeps header header_message_id refl i;
          publication_id = keeps header header_msg_id refl i;
          event_type = keeps header header_event_type refl i;
          schema = keeps header header_event_schema refl i;
          created_at = event.created_at;
          payload = event.payload;
        }))

nonzero : (n : ℕ) → (n == 0) ≡ false → n ≢ 0
nonzero n h = λ e. ground arith

is_utc-zero : (offset : ℤ) → not (is_utc offset) ≡ false → offset ≡ pos 0
is_utc-zero (pos n) h = ap pos (ground arith)
is_utc-zero (negsuc n) h = cc

-- What an admitted event satisfies.
pub validate_domain_event-valid :
    (json_valid : Bytes → Bool) (event : DomainEvent)
    → validate_domain_event json_valid event ≡ none
    → (event.version ≢ 0) × (event.occurred_at.nanoseconds ≢ 0) × (event.occurred_at.offset ≡ pos 0)
unfolding validate_domain_event
validate_domain_event-valid json_valid event h =
    let (_, h1) = first_error-none _ _ h in
    let (_, h2) = first_error-none _ _ h1 in
    let (version, h3) = not-refused (event.version == 0) invalid_domain_event _ h2 in
    let (time, h4) = not-refused (event.occurred_at.nanoseconds == 0) invalid_domain_event _ h3 in
    let (zone, _) = not-refused (not (is_utc event.occurred_at.offset)) invalid_domain_event _ h4 in
    (nonzero _ version, nonzero _ time, is_utc-zero event.occurred_at.offset zone)

pub validate_event-values :
    (event : Event) (limit : ℤ)
    → validate_event event limit ≡ none
    → validate_all (event.message_id ∷ event.publication_id ∷ event.type ∷ event.schema ∷ []) ≡ none
unfolding validate_event
validate_event-values event limit h =
    let (_, h1) = not-refused (not (valid_publish_subject event.subject)) rejected _ h in
    (first_error-none _ _ h1).0
