-- ===== src/Jetstream/Redrive.antt =====
-- What is restored from a dead-letter transfer, whose headers are those of Redrive/Transfer.
pub mod Transfer
use go_service_template_rest.Base.{
  ℕ, ◌≡◌, refl, sym, subst, true, false, [], Option, none, some, Bytes, codes, ◌==◌, length, arith,
}
use go_service_template_rest.Base.Int.{pos, ltb_ℤ}
use go_service_template_rest.Base.GoError.{ok-injective, Err, ok}
use go_service_template_rest.Jetstream.{valid_publish_subject, rejected}
use go_service_template_rest.Jetstream.Wire.{
  Msg, Event, Message, Formats, get, validate_event, validate_all, validate_required_value,
  validate_header_value, header_message_id, header_msg_id, header_event_type, header_event_schema,
  header_created_at, decode_message, decode_at, decoded, identity_values,
}
use go_service_template_rest.Jetstream.DeadLetter.{
  Metadata, restore_dead_letter, restore_at, restore_checked, restored, stream_record_id,
  dead_letter_reason,
}
use go_service_template_rest.Jetstream.Refusals.{first_error-none, not-refused}
use go_service_template_rest.Jetstream.Redrive.Transfer.{
  moved, moved-subject, moved-message_id, moved-reason, kept-created_at, kept-type, kept-schema,
  moved-payload,
}

required-filled :
    (value : Bytes) → validate_required_value value ≡ none → (length value == 0) ≡ false
unfolding validate_required_value
required-filled value h =
    (not-refused (length value == 0) rejected (validate_header_value value) h).0

not-too-long : (n : ℕ) → ltb_ℤ (pos n) (pos n) ≡ false
not-too-long n = ground arith

module _ (formats : Formats) where
  open formats use {parse_time, trace_fields}

  -- The message that a well-formed delivery is decoded to.
  abbrev message_of : Msg → ℕ → Message
  message_of msg created_at = record {
    subject = msg.subject;
    message_id = get msg.header header_message_id;
    publication_id = get msg.header header_msg_id;
    event_type = get msg.header header_event_type;
    schema = get msg.header header_event_schema;
    created_at = created_at;
    payload = msg.payload;
  }

  -- What a decoded delivery satisfies.
  record IsDecoded (msg : Msg) (m : Message) : Type 0 where
    created_at : ℕ
    is_message : message_of msg created_at ≡ m
    time : parse_time (get msg.header header_created_at) ≡ some created_at
    values : validate_all (identity_values formats msg) ≡ none

  decoded-IsDecoded :
      (msg : Msg) (m : Message) (created_at : ℕ) (check : Option Err)
      → decoded formats msg created_at check ≡ ok m
      → (check ≡ none) × (message_of msg created_at ≡ m)
  unfolding decoded
  decoded-IsDecoded msg m created_at none h = (refl, ok-injective _ _ h)
  decoded-IsDecoded msg m created_at (some e) h = cc

  decode_at-IsDecoded :
      (msg : Msg) (m : Message) (time : Option ℕ)
      → parse_time (get msg.header header_created_at) ≡ time
      → decode_at formats msg time ≡ ok m
      → IsDecoded msg m
  unfolding decode_at
  decode_at-IsDecoded msg m none p h = cc
  decode_at-IsDecoded msg m (some created_at) p h =
      let (valid, same) =
        decoded-IsDecoded msg m created_at (validate_all (identity_values formats msg)) h in
      record { created_at = created_at; is_message = same; time = p; values = valid }

  -- The event that the redrive publishes.
  abbrev pub redriven : Message → Bytes → Event
  redriven m publication_id = record {
    subject = m.subject;
    message_id = m.message_id;
    publication_id = publication_id;
    type = m.event_type;
    schema = m.schema;
    created_at = m.created_at;
    payload = m.payload;
  }

  redriven-valid :
      (event : Event)
      → valid_publish_subject event.subject ≡ true
      → validate_required_value event.message_id ≡ none
      → validate_required_value event.publication_id ≡ none
      → validate_required_value event.type ≡ none
      → validate_required_value event.schema ≡ none
      → validate_event event (pos (length event.payload)) ≡ none
  unfolding validate_event validate_all
  redriven-valid event a b c d e = rw (a, b, c, d, e, not-too-long (length event.payload)) refl

  restored-redriven :
      (source : Msg) (metadata : Metadata) (created_at : ℕ) (subject reason : Bytes)
      (place : Metadata)
      → (length (get source.header header_message_id) == 0) ≡ false
      → let dead = moved formats source metadata (message_of source created_at) subject reason in
        restored formats dead place created_at
        ≡ redriven
            (message_of source created_at)
            (stream_record_id formats (codes "redrive-") dead place)
  restored-redriven source metadata created_at subject reason place filled =
      let m = message_of source created_at in
      let dead = moved formats source metadata m subject reason in
      λ i. record {
        subject = moved-subject formats source metadata m subject reason filled i;
        message_id = moved-message_id formats source metadata m subject reason filled i;
        publication_id = stream_record_id formats (codes "redrive-") dead place;
        type = kept-type formats source metadata m subject reason filled i;
        schema = kept-schema formats source metadata m subject reason filled i;
        created_at = created_at;
        payload = moved-payload formats source metadata m subject reason i;
      }

  restore-checked :
      (a b : Event)
      → a ≡ b
      → validate_event b (pos (length b.payload)) ≡ none
      → restore_checked formats a (validate_event a (pos (length a.payload))) ≡ ok b
  unfolding restore_checked
  restore-checked a b same valid =
      subst (λ x. restore_checked formats x (validate_event x (pos (length x.payload))) ≡ ok b)
        (sym same) (rw valid refl)

  -- The publication id of a redrive.
  abbrev pub redrive_id : Msg → Metadata → Bytes
  redrive_id dead place = stream_record_id formats (codes "redrive-") dead place

  message-restored :
      (source : Msg) (metadata : Metadata) (created_at : ℕ) (subject reason : Bytes)
      (place : Metadata)
      → let m = message_of source created_at in
        let dead = moved formats source metadata m subject reason in
        parse_time (get source.header header_created_at) ≡ some created_at
        → validate_all (identity_values formats source) ≡ none
        → valid_publish_subject source.subject ≡ true
        → validate_required_value (stream_record_id formats (codes "redrive-") dead place) ≡ none
        → (restore_dead_letter formats dead (some place)
            ≡ ok (redriven m (stream_record_id formats (codes "redrive-") dead place)))
          × (dead_letter_reason dead ≡ reason)
  unfolding restore_dead_letter restore_at restore_checked validate_all
  message-restored source metadata created_at subject reason place time values publishable id =
      let m = message_of source created_at in
      let (v1, rest1) = first_error-none _ _ values in
      let (v2, rest2) = first_error-none _ _ rest1 in
      let (v3, rest3) = first_error-none _ _ rest2 in
      let (v4, _) = first_error-none _ _ rest3 in
      let filled = required-filled (get source.header header_message_id) v1 in
      let event = redriven m (redrive_id (moved formats source metadata m subject reason) place) in
      (
        rw (kept-created_at formats source metadata m subject reason filled, time)
            (restore-checked _ event
              (restored-redriven source metadata created_at subject reason place filled)
              (redriven-valid event publishable v1 id v3 v4)),
        moved-reason formats source metadata m subject reason filled,
      )

  -- A delivery that was decoded and moved to the dead-letter stream is restored as the event that it
  -- came from, with its subject, id, type, schema, time and payload and with a publication id of its
  -- own, and the transfer still says why it was moved. The subject must be one that can be published
  -- to, and the new id one that a header can carry.
  pub restore-dead_letter :
      (source : Msg) (metadata : Metadata) (m : Message) (subject reason : Bytes) (place : Metadata)
      → decode_message formats source ≡ ok m
      → valid_publish_subject source.subject ≡ true
      → validate_required_value (redrive_id (moved formats source metadata m subject reason) place)
        ≡ none
      → (restore_dead_letter formats (moved formats source metadata m subject reason) (some place)
          ≡ ok (redriven m (redrive_id (moved formats source metadata m subject reason) place)))
        × (dead_letter_reason (moved formats source metadata m subject reason) ≡ reason)
  unfolding decode_message
  restore-dead_letter source metadata m subject reason place h publishable id =
      let is_decoded =
        decode_at-IsDecoded source m (parse_time (get source.header header_created_at)) refl h in
      subst
        (λ n.
          validate_required_value
              (redrive_id (moved formats source metadata n subject reason) place)
            ≡ none
          → (restore_dead_letter formats (moved formats source metadata n subject reason)
                (some place)
              ≡ ok (redriven n (redrive_id (moved formats source metadata n subject reason) place)))
            × (dead_letter_reason (moved formats source metadata n subject reason) ≡ reason))
        is_decoded.is_message
        (λ valid_id.
          message-restored source metadata is_decoded.created_at subject reason place
            is_decoded.time is_decoded.values publishable valid_id)
        id
