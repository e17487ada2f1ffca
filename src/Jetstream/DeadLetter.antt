-- ===== src/Jetstream/DeadLetter.antt =====
-- internal/infra/natsjs/message_deadletter.go: the transfer of a delivery to the dead-letter stream and
-- the event that is restored from it.
use go_service_template_rest.Base.{
  ℕ, List, [], ◌∷◌, ◌++◌, Option, none, some, Bytes, codes, if◌then◌else◌, ◌==◌, length,
}
use go_service_template_rest.Base.Int.{pos}
use go_service_template_rest.Base.GoError.{Err, Result, ok, err, errorf}
use go_service_template_rest.Jetstream.{rejected}
use go_service_template_rest.Jetstream.Wire.{
  Header, Msg, Event, Message, Formats, get, set, validate_event, envelope_headers,
  header_message_id, header_msg_id, header_event_type, header_event_schema, header_created_at,
  header_original_subject, header_dead_letter_reason,
}

abbrev pub malformed : Bytes
malformed = codes "malformed"

abbrev pub exhausted : Bytes
exhausted = codes "exhausted"

abbrev pub permanent_reason : Bytes
permanent_reason = codes "permanent"

-- The broker's account of a stored record.
pub record Metadata : Type 0 where
  pub stream : Bytes
  pub sequence : ℕ
  pub timestamp : ℕ
  pub num_delivered : ℕ

abbrev separator : Bytes
separator = 0 ∷ []

-- The switch on `Message-Id`: the decoded id, what was carried over, or the transfer's own.
abbrev with_message_id : Header → Bytes → Bytes → Header
with_message_id header decoded transfer_id =
    if length decoded == 0
    then if length (get header header_message_id) == 0
      then set header header_message_id transfer_id
      else header
    else set header header_message_id decoded

abbrev decoded_id : Option Message → Bytes
decoded_id none = []
decoded_id (some m) = m.message_id

-- `carryIdentityHeaders` over a list of names.
unfoldable pub carry : List Bytes → Header → Header → Header
unfolding get set
carry [] header source = header
carry (name ∷ names) header source =
    let value = get source name in
    carry names (if length value == 0 then header else set header name value) source

module _ (formats : Formats) where
  open formats use {format_time, parse_time, sha256_hex, format_uint, trace_fields}

  -- `streamRecordID`.
  unfoldable pub stream_record_id : Bytes → Msg → Metadata → Bytes
  unfolding get
  stream_record_id prefix msg metadata =
      prefix
      ++ sha256_hex (
          metadata.stream
          ++ separator
          ++ format_uint metadata.sequence
          ++ separator
          ++ format_time metadata.timestamp
          ++ separator
          ++ get msg.header header_msg_id)

  -- `deadLetterTransferID`.
  unfoldable pub transfer_id : Msg → Metadata → Bytes
  unfolding stream_record_id
  transfer_id source metadata = stream_record_id (codes "dlq-") source metadata

  -- `deadLetterMessage`, without the id that it also returns.
  unfoldable pub dead_letter_message : Msg → Metadata → Option Message → Bytes → Bytes → Msg
  unfolding carry transfer_id set get
  dead_letter_message source metadata decoded subject reason =
      let header = carry (envelope_headers ++ trace_fields) [] source.header in
      let header = set header header_original_subject source.subject in
      let header = set header header_dead_letter_reason reason in
      let id = transfer_id source metadata in
      let header = set header header_msg_id id in
      record {
        subject = subject;
        header = with_message_id header (decoded_id decoded) id;
        payload = source.payload;
      }

  abbrev pub restored : Msg → Metadata → ℕ → Event
  restored msg metadata created_at = record {
    subject = get msg.header header_original_subject;
    message_id = get msg.header header_message_id;
    publication_id = stream_record_id (codes "redrive-") msg metadata;
    type = get msg.header header_event_type;
    schema = get msg.header header_event_schema;
    created_at = created_at;
    payload = msg.payload;
  }

  unfoldable pub restore_checked : Event → Option Err → Result Event
  restore_checked event (some e) = err (errorf e)
  restore_checked event none = ok event

  unfoldable pub restore_at : Msg → Metadata → Option ℕ → Result Event
  unfolding restore_checked validate_event stream_record_id
  restore_at msg metadata none = err rejected
  restore_at msg metadata (some created_at) =
      let event = restored msg metadata created_at in
      restore_checked event (validate_event event (pos (length event.payload)))

  -- `RestoreDeadLetter` of a message; `none` where the broker has no metadata.
  unfoldable pub restore_dead_letter : Msg → Option Metadata → Result Event
  unfolding restore_at get
  restore_dead_letter msg none = err rejected
  restore_dead_letter msg (some metadata) =
      restore_at msg metadata (parse_time (get msg.header header_created_at))

-- `DeadLetterReason`.
unfoldable pub dead_letter_reason : Msg → Bytes
unfolding get
dead_letter_reason msg = get msg.header header_dead_letter_reason
