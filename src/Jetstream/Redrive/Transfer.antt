-- ===== src/Jetstream/Redrive/Transfer.antt =====
-- The headers of a dead-letter transfer, and those of the delivery that it keeps.
use go_service_template_rest.Base.{
  ◌≡◌, inr, refl, true, false, ◌||◌, List, [], ◌++◌, some, Bytes, ◌==◌, length, eq_bytes, arith,
}
use go_service_template_rest.Jetstream.Wire.{
  Header, Msg, Message, Formats, get, envelope_headers, header_message_id, header_msg_id,
  header_event_type, header_event_schema, header_created_at, header_original_subject,
  header_dead_letter_reason,
}
use go_service_template_rest.Jetstream.DeadLetter.{
  Metadata, carry, dead_letter_message, dead_letter_reason,
}
use go_service_template_rest.Jetstream.Headers.{get-set, names_have, carry-get}

module _ (formats : Formats) where
  open formats use {trace_fields}

  abbrev names : List Bytes
  names = envelope_headers ++ trace_fields

  carried :
      (source : Header) (name : Bytes)
      → names_have names name ≡ true
      → get (carry names [] source) name ≡ get source name
  unfolding get
  carried source name h = carry-get names [] source name (inr (refl, h))

  transfer-get :
      (source : Msg) (metadata : Metadata) (m : Message) (subject reason name : Bytes)
      → (length m.message_id == 0) ≡ false
      → names_have names name ≡ true
      → eq_bytes header_message_id name ≡ false
      → eq_bytes header_msg_id name ≡ false
      → eq_bytes header_original_subject name ≡ false
      → eq_bytes header_dead_letter_reason name ≡ false
      → get (dead_letter_message formats source metadata (some m) subject reason).header name
        ≡ get source.header name
  unfolding dead_letter_message
  transfer-get source metadata m subject reason name filled have a b c d =
      rw
        (
          filled,
          get-set _ header_message_id m.message_id name,
          a,
          get-set _ header_msg_id _ name,
          b,
          get-set _ header_dead_letter_reason reason name,
          d,
          get-set _ header_original_subject source.subject name,
          c,
        )
        (carried source.header name have)

  have-type : names_have names header_event_type ≡ true
  unfolding names_have eq_bytes
  have-type = refl

  have-schema : names_have names header_event_schema ≡ true
  unfolding names_have eq_bytes
  have-schema = refl

  have-time : names_have names header_created_at ≡ true
  unfolding names_have eq_bytes
  have-time = refl

  module _ (source : Msg) (metadata : Metadata) (m : Message) (subject reason : Bytes) where
    abbrev pub moved : Msg
    moved = dead_letter_message formats source metadata (some m) subject reason

    pub moved-subject :
        (length m.message_id == 0) ≡ false
        → get moved.header header_original_subject ≡ source.subject
    unfolding dead_letter_message eq_bytes
    moved-subject filled =
        rw
          (
            filled,
            get-set _ header_message_id m.message_id header_original_subject,
            get-set _ header_msg_id _ header_original_subject,
            get-set _ header_dead_letter_reason reason header_original_subject,
            get-set _ header_original_subject source.subject header_original_subject,
          )
          refl

    pub moved-message_id :
        (length m.message_id == 0) ≡ false → get moved.header header_message_id ≡ m.message_id
    unfolding dead_letter_message eq_bytes
    moved-message_id filled =
        rw (filled, get-set _ header_message_id m.message_id header_message_id) refl

    pub moved-reason : (length m.message_id == 0) ≡ false → dead_letter_reason moved ≡ reason
    unfolding dead_letter_message dead_letter_reason eq_bytes
    moved-reason filled =
        rw
          (
            filled,
            get-set _ header_message_id m.message_id header_dead_letter_reason,
            get-set _ header_msg_id _ header_dead_letter_reason,
            get-set _ header_dead_letter_reason reason header_dead_letter_reason,
          )
          refl

    moved-kept :
        (name : Bytes)
        → (length m.message_id == 0) ≡ false
        → names_have names name ≡ true
        → (eq_bytes header_message_id name
            || (eq_bytes header_msg_id name
                || (eq_bytes header_original_subject name
                    || eq_bytes header_dead_letter_reason name)))
          ≡ false
        → get moved.header name ≡ get source.header name
    moved-kept name filled have apart =
        transfer-get source metadata m subject reason name filled have (ground arith) (ground arith)
          (ground arith) (ground arith)

  pub kept-created_at :
      (source : Msg) (metadata : Metadata) (m : Message) (subject reason : Bytes)
      → (length m.message_id == 0) ≡ false
      → get (moved source metadata m subject reason).header header_created_at
        ≡ get source.header header_created_at
  unfolding eq_bytes
  kept-created_at source metadata m subject reason filled =
      moved-kept source metadata m subject reason header_created_at filled have-time refl

  pub kept-type :
      (source : Msg) (metadata : Metadata) (m : Message) (subject reason : Bytes)
      → (length m.message_id == 0) ≡ false
      → get (moved source metadata m subject reason).header header_event_type
        ≡ get source.header header_event_type
  unfolding eq_bytes
  kept-type source metadata m subject reason filled =
      moved-kept source metadata m subject reason header_event_type filled have-type refl

  pub kept-schema :
      (source : Msg) (metadata : Metadata) (m : Message) (subject reason : Bytes)
      → (length m.message_id == 0) ≡ false
      → get (moved source metadata m subject reason).header header_event_schema
        ≡ get source.header header_event_schema
  unfolding eq_bytes
  kept-schema source metadata m subject reason filled =
      moved-kept source metadata m subject reason header_event_schema filled have-schema refl

  pub moved-payload :
      (source : Msg) (metadata : Metadata) (m : Message) (subject reason : Bytes)
      → (moved source metadata m subject reason).payload ≡ source.payload
  unfolding dead_letter_message
  moved-payload source metadata m subject reason = refl
