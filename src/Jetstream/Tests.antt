-- ===== src/Jetstream/Tests.antt =====
-- The theorems about internal/infra/natsjs at concrete inputs, with stand-ins for the formats that write
-- a number as one byte and hash everything to one text.
use go_service_template_rest.Base.{
  ◌⊎◌, ℕ, ◌≡◌, ◌↔◌, refl, true, false, [], ◌∷◌, Option, none, some, Bytes, codes, length, arith,
  eq_bytes,
}
use go_service_template_rest.Base.Int.{pos, wrap64, add64}
use go_service_template_rest.Base.GoError.{sentinel, ok}
use go_service_template_rest.Jetstream.{
  valid_publish_subject, WorkerConfig, default_worker_config, validate_worker_config,
  subject_matches, split, is_permanent, contains_any,
}
use go_service_template_rest.Jetstream.Wire.{
  Msg, Message, Header, Formats, decode_message, header_message_id, header_msg_id,
  header_event_type, header_event_schema, header_created_at, encoded_header_bytes,
  validate_encoded_message, validate_required_value,
}
use go_service_template_rest.Jetstream.DeadLetter.{
  Metadata, dead_letter_message, transfer_id, restore_dead_letter, dead_letter_reason,
  stream_record_id,
}
use go_service_template_rest.Jetstream.Worker.{
  invoked, published, record_handler, record_transfer, acked, returned, done, Nats, Env, handle,
  attempt_limit, handler_outcome, outcome_accepted,
}
use go_service_template_rest.Jetstream.Subjects.{
  Covers, CoversFront, IsRestLast, subject_matches-Covers, IsValid, validate_worker_config-IsValid,
}
use go_service_template_rest.Jetstream.Attempts.{
  asked_delays, delivered, Failing, last_transfer, handle_gives_up,
}
use go_service_template_rest.Jetstream.Redrive.{redriven, redrive_id, restore-dead_letter}
use go_service_template_rest.Jetstream.Redrive.Transfer.{moved}

abbrev read_time : Bytes → Option ℕ
read_time [] = none
read_time (t ∷ []) = some t
read_time (t ∷ u ∷ s) = none

abbrev formats : Formats
formats = record {
  format_time = λ t. t ∷ [];
  parse_time = read_time;
  size = λ m. length m.payload;
  trace_fields = [];
  sha256_hex = λ b. codes "00";
  format_uint = λ n. n ∷ [];
}

abbrev nats : Nats
nats = record {
  is_api_error = λ e. false;
  no_responders = 901;
  no_stream_response = 902;
  stream_not_found = 903;
}

abbrev cfg : WorkerConfig
cfg = record {
  consumer = codes "jobs";
  filter_subject = codes "orders.*";
  dead_letter_subject = codes "dead.orders";
  max_concurrency = pos 4;
  max_delivery_bytes = pos 10000;
  handler_timeout = pos 30;
  retry_delays = pos 1 ∷ pos 5 ∷ [];
  dead_letter_retry_delay = pos 30;
}

wildcard_covers : subject_matches (codes "orders.*") (codes "orders.created") ≡ true
unfolding subject_matches eq_bytes
wildcard_covers = refl

-- ">" would stand for no token, which NATS does not allow.
rest_of_nothing : subject_matches (codes "orders.>") (codes "orders") ≡ true
unfolding subject_matches eq_bytes
rest_of_nothing = refl

orders-IsRestLast : IsRestLast (split (codes "orders.>"))
unfolding split eq_bytes
orders-IsRestLast = ((λ e. cc), tt)

subject_matches-Covers_example : (subject_matches (codes "orders.>") (codes "orders") ≡ true) ↔ (
    Covers (split (codes "orders.>")) (split (codes "orders"))
    ⊎ CoversFront (split (codes "orders.>")) (split (codes "orders")))
subject_matches-Covers_example =
    subject_matches-Covers (codes "orders.>") (codes "orders") orders-IsRestLast

cfg-accepted : validate_worker_config cfg (pos 1000) ≡ none
unfolding validate_worker_config eq_bytes contains_any add64 wrap64
cfg-accepted = refl

default_accepted :
    validate_worker_config
      (default_worker_config
        (codes "jobs")
        (codes "orders.>")
        (codes "dead.orders")
        (pos 8)
        (pos 1000))
      (pos 1000)
    ≡ none
unfolding validate_worker_config default_worker_config eq_bytes contains_any add64 wrap64
default_accepted = refl

validate_worker_config-IsValid_example : IsValid cfg 1000
validate_worker_config-IsValid_example =
    validate_worker_config-IsValid cfg 1000 (omega arith) cfg-accepted

abbrev header : Header
header =
    (header_message_id, codes "m1" ∷ [])
    ∷ (header_msg_id, codes "p1" ∷ [])
    ∷ (header_event_type, codes "created" ∷ [])
    ∷ (header_event_schema, codes "v1" ∷ [])
    ∷ (header_created_at, codes "t" ∷ [])
    ∷ []

abbrev source : Msg
source = record { subject = codes "orders.created"; header = header; payload = codes "{}" }

abbrev metadata : Metadata
metadata = record { stream = codes "ORDERS"; sequence = 7; timestamp = 100; num_delivered = 1 }

abbrev message : Message
message = record {
  subject = codes "orders.created";
  message_id = codes "m1";
  publication_id = codes "p1";
  event_type = codes "created";
  schema = codes "v1";
  created_at = b't';
  payload = codes "{}";
}

-- The handler always fails with one error.
abbrev failing : Env
failing = record {
  handler = λ m. returned (some (sentinel 900));
  context_err = none;
  root_err = none;
  ack_confirmed = true;
  publish_err = none;
  nak_err = none;
}

source-decodes : decode_message formats source ≡ ok message
unfolding decode_message eq_bytes
source-decodes = refl

source-fits : Failing formats nats cfg (pos 1000) failing source message (sentinel 900)
unfolding encoded_header_bytes is_permanent
source-fits = record {
  fits = refl;
  headers_fit = refl;
  decodes = source-decodes;
  fails = refl;
  temporary = refl;
  serving = refl;
  naks = refl;
  publishes = refl;
  acks = refl;
}

transfer-fits :
    validate_encoded_message formats
      (last_transfer formats nats cfg (pos 1000) source metadata message)
      (pos 1000)
    ≡ none
unfolding validate_encoded_message dead_letter_message eq_bytes attempt_limit add64 wrap64
transfer-fits = refl

handle_gives_up_example :
    let last = delivered metadata (attempt_limit cfg) in
    (asked_delays formats nats cfg (pos 1000) failing source metadata 1 2
      ≡ some (pos 1) ∷ some (pos 5) ∷ [])
    × (handle formats nats cfg (pos 1000) failing source (some last) ≡ (
      invoked message
          ∷ record_handler (handler_outcome none (sentinel 900) true) (codes "handler_exhausted")
          ∷ published
              (last_transfer formats nats cfg (pos 1000) source metadata message)
              (transfer_id formats source last)
              none
          ∷ record_transfer outcome_accepted
          ∷ acked true
          ∷ [],
      done,
    ))
handle_gives_up_example =
    handle_gives_up formats nats cfg (pos 1000) failing source metadata message (sentinel 900)
      source-fits transfer-fits

-- The place of the transfer in the dead-letter stream.
abbrev place : Metadata
place = record { stream = codes "DEAD"; sequence = 3; timestamp = 200; num_delivered = 1 }

source-publishable : valid_publish_subject source.subject ≡ true
unfolding valid_publish_subject eq_bytes contains_any
source-publishable = refl

id-valid :
    validate_required_value (
      redrive_id formats
        (moved formats source metadata message (codes "dead.orders") (codes "exhausted"))
        place)
    ≡ none
unfolding validate_required_value stream_record_id
id-valid = refl

restore-dead_letter_example :
    let dead = moved formats source metadata message (codes "dead.orders") (codes "exhausted") in
    (restore_dead_letter formats dead (some place)
      ≡ ok (redriven formats message (redrive_id formats dead place)))
    × (dead_letter_reason dead ≡ codes "exhausted")
restore-dead_letter_example =
    restore-dead_letter formats source metadata message (codes "dead.orders") (codes "exhausted")
      place source-decodes source-publishable id-valid
