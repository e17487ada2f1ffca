-- ===== src/Jetstream/Wire.antt =====
-- internal/infra/natsjs/message_wire.go and message.go: the envelope of a message. Of nats.go the
-- size of a message is a parameter, as are the trace context's fields and time.RFC3339Nano.
use go_service_template_rest.Base.{
  ℕ, ◌+◌, not, List, [], ◌∷◌, Option, none, some, Bytes, codes, if◌then◌else◌, ◌==◌, ltb, length,
  eq_bytes,
}
use go_service_template_rest.Base.Int.{ℤ, pos, ltb_ℤ, add64}
use go_service_template_rest.Base.GoError.{Err, Result, ok, err}
use go_service_template_rest.Base.Utf8.{utf8_from, contains_control}
use go_service_template_rest.Jetstream.{rejected, valid_publish_subject, header_limit_bytes}

-- nats.Header: each name with its values.
abbrev pub Header : Type 0
Header = List (Bytes × List Bytes)

abbrev first_value : List Bytes → Bytes
first_value [] = []
first_value (v ∷ values) = v

-- Header.Get: the first value, or nothing.
unfoldable pub get : Header → Bytes → Bytes
get [] name = []
get ((key, values) ∷ header) name =
    if eq_bytes key name then first_value values else get header name

-- Header.Set: the one value of the name.
unfoldable pub set : Header → Bytes → Bytes → Header
set [] name value = (name, value ∷ []) ∷ []
set ((key, values) ∷ header) name value =
    let rest = set header name value in
    if eq_bytes key name then (key, value ∷ []) ∷ header else (key, values) ∷ rest

abbrev pub header_message_id : Bytes
header_message_id = codes "Message-Id"

abbrev pub header_event_type : Bytes
header_event_type = codes "Event-Type"

abbrev pub header_event_schema : Bytes
header_event_schema = codes "Event-Schema"

abbrev pub header_created_at : Bytes
header_created_at = codes "Created-At"

abbrev pub header_original_subject : Bytes
header_original_subject = codes "Original-Subject"

abbrev pub header_dead_letter_reason : Bytes
header_dead_letter_reason = codes "Dead-Letter-Reason"

-- jetstream.MsgIDHeader.
abbrev pub header_msg_id : Bytes
header_msg_id = codes "Nats-Msg-Id"

abbrev pub envelope_headers : List Bytes
envelope_headers =
    header_message_id ∷ header_event_type ∷ header_event_schema ∷ header_created_at ∷ []

pub record Msg : Type 0 where
  pub subject : Bytes
  pub header : Header
  pub payload : Bytes

-- A creation time in UTC, in nanoseconds.
pub record Event : Type 0 where
  pub subject : Bytes
  pub message_id : Bytes
  pub publication_id : Bytes
  pub type : Bytes
  pub schema : Bytes
  pub created_at : ℕ
  pub payload : Bytes

-- What is not in the repository: `parse_time` reads time.RFC3339Nano and refuses the zero time,
-- `trace_fields` are the names of propagation.TraceContext.
pub record Formats : Type 0 where
  pub format_time : ℕ → Bytes
  pub parse_time : Bytes → Option ℕ
  pub size : Msg → ℕ
  pub trace_fields : List Bytes
  pub sha256_hex : Bytes → Bytes
  pub format_uint : ℕ → Bytes

abbrev pub max_header_value_bytes : ℕ
max_header_value_bytes = 256

-- `validateHeaderValue` and `validateRequiredValue`.
unfoldable pub validate_header_value : Bytes → Option Err
unfolding utf8_from contains_control
validate_header_value value =
    if ltb max_header_value_bytes (length value)
    then some rejected
    else if not (utf8_from [] value)
    then some rejected
    else if contains_control value
    then some rejected
    else none

unfoldable pub validate_required_value : Bytes → Option Err
unfolding validate_header_value
validate_required_value value =
    if length value == 0 then some rejected else validate_header_value value

abbrev pub first_error : Option Err → Option Err → Option Err
first_error none next = next
first_error (some e) next = some e

-- The first refusal of some values in their order.
unfoldable pub validate_all : List Bytes → Option Err
unfolding validate_required_value
validate_all [] = none
validate_all (value ∷ values) = first_error (validate_required_value value) (validate_all values)

-- `validateEvent`; the creation time is not the zero time.
unfoldable pub validate_event : Event → ℤ → Option Err
unfolding valid_publish_subject validate_all
validate_event event max_payload_bytes =
    if not (valid_publish_subject event.subject)
    then some rejected
    else first_error
        (validate_all (event.message_id ∷ event.publication_id ∷ event.type ∷ event.schema ∷ []))
        (if ltb_ℤ max_payload_bytes (pos (length event.payload)) then some rejected else none)

unfoldable pub values_bytes : Bytes → List Bytes → ℕ
values_bytes key [] = 0
values_bytes key (value ∷ values) = length key + 2 + length value + 2 + values_bytes key values

unfoldable pub fields_bytes : Header → ℕ
unfolding values_bytes
fields_bytes [] = 0
fields_bytes ((key, values) ∷ header) = values_bytes key values + fields_bytes header

-- `encodedHeaderBytes`.
unfoldable pub encoded_header_bytes : Header → ℕ
unfolding fields_bytes
encoded_header_bytes [] = 0
encoded_header_bytes (field ∷ header) =
    length (codes "NATS/1.0\r\n\r\n") + fields_bytes (field ∷ header)

-- `Message` without the broker's account of the delivery, which stays beside it.
pub record Message : Type 0 where
  pub subject : Bytes
  pub message_id : Bytes
  pub publication_id : Bytes
  pub event_type : Bytes
  pub schema : Bytes
  pub created_at : ℕ
  pub payload : Bytes

module _ (formats : Formats) where
  open formats use {format_time, parse_time, size}

  -- `validateEncodedMessage`.
  unfoldable pub validate_encoded_message : Msg → ℤ → Option Err
  unfolding encoded_header_bytes
  validate_encoded_message msg max_payload_bytes =
      if ltb_ℤ max_payload_bytes (pos (length msg.payload))
      then some rejected
      else if ltb header_limit_bytes (encoded_header_bytes msg.header)
      then some rejected
      else if ltb_ℤ (add64 max_payload_bytes (pos header_limit_bytes)) (pos (size msg))
      then some rejected
      else none

  -- The message of `buildNATSMessage`, with the trace context that `inject` adds.
  unfoldable pub envelope : (Header → Header) → Event → Msg
  unfolding set
  envelope inject event =
      let header = set [] header_message_id event.message_id in
      let header = set header header_msg_id event.publication_id in
      let header = set header header_event_type event.type in
      let header = set header header_event_schema event.schema in
      let header = set header header_created_at (format_time event.created_at) in
      record { subject = event.subject; header = inject header; payload = event.payload }

  -- `buildNATSMessage`.
  unfoldable pub build_nats_message : (Header → Header) → Event → ℤ → Result Msg
  unfolding envelope validate_encoded_message
  build_nats_message inject event max_payload_bytes =
      let msg = envelope inject event in
      elim (validate_encoded_message msg max_payload_bytes) [ some e ↦ err e | none ↦ ok msg ]

  abbrev pub identity_values : Msg → List Bytes
  identity_values msg =
      get msg.header header_message_id
      ∷ get msg.header header_msg_id
      ∷ get msg.header header_event_type
      ∷ get msg.header header_event_schema
      ∷ []

  unfoldable pub decoded : Msg → ℕ → Option Err → Result Message
  unfolding get
  decoded msg created_at (some e) = err e
  decoded msg created_at none = ok (record {
    subject = msg.subject;
    message_id = get msg.header header_message_id;
    publication_id = get msg.header header_msg_id;
    event_type = get msg.header header_event_type;
    schema = get msg.header header_event_schema;
    created_at = created_at;
    payload = msg.payload;
  })

  unfoldable pub decode_at : Msg → Option ℕ → Result Message
  unfolding decoded validate_all
  decode_at msg none = err rejected
  decode_at msg (some created_at) = decoded msg created_at (validate_all (identity_values msg))

  -- `decodeMessage` without the remote trace.
  unfoldable pub decode_message : Msg → Result Message
  unfolding decode_at get
  decode_message msg = decode_at msg (parse_time (get msg.header header_created_at))
