-- ===== src/Jetstream/Domain.antt =====
-- internal/domainevent/event.go: an occurrence of the domain, encoded for publication. encoding/json is
-- a parameter: how a payload is written and what a valid text of JSON is.
use go_service_template_rest.Base.{
  ℕ, Bool, false, not, [], Option, none, some, Bytes, if◌then◌else◌, ◌==◌, ◌||◌, length,
}
use go_service_template_rest.Base.Int.{ℤ, pos}
use go_service_template_rest.Base.GoError.{Err, Result, ok, err, sentinel, errorf}
use go_service_template_rest.Base.Utf8.{utf8_from, contains_control}
use go_service_template_rest.Jetstream.Wire.{first_error}

-- time.Time: the nanoseconds since the zero time, and the seconds that its zone is east of UTC.
pub record Moment : Type 0 where
  pub nanoseconds : ℕ
  pub offset : ℤ

-- `Event`; the version is a uint16.
pub record DomainEvent : Type 0 where
  pub id : Bytes
  pub type : Bytes
  pub version : ℕ
  pub occurred_at : Moment
  pub payload : Bytes

-- `Kind` and `Typed`.
pub record Kind : Type 0 where
  pub type : Bytes
  pub version : ℕ

pub record Typed (Payload : Type 0) : Type 0 where
  pub id : Bytes
  pub occurred_at : Moment
  pub payload : Payload

-- Each refusal is an error of its own with a text.
abbrev pub invalid_domain_event : Err
invalid_domain_event = sentinel 420

-- `validateText`.
unfoldable pub validate_text : Bytes → Option Err
unfolding utf8_from contains_control
validate_text value =
    if length value == 0
    then some invalid_domain_event
    else if not (utf8_from [] value) || contains_control value
    then some invalid_domain_event
    else none

abbrev pub is_utc : ℤ → Bool
is_utc offset = elim offset [ pos n ↦ n == 0 | _ ↦ false ]

-- `Validate`.
unfoldable pub validate_domain_event : (Bytes → Bool) → DomainEvent → Option Err
unfolding validate_text
validate_domain_event json_valid event = first_error (validate_text event.id) (
    first_error (validate_text event.type) (
      if event.version == 0
      then some invalid_domain_event
      else if event.occurred_at.nanoseconds == 0
      then some invalid_domain_event
      else if not (is_utc event.occurred_at.offset)
      then some invalid_domain_event
      else if length event.payload == 0 || not (json_valid event.payload)
      then some invalid_domain_event
      else none))

abbrev checked : DomainEvent → Option Err → Result DomainEvent
checked event (some e) = err e
checked event none = ok event

abbrev of_kind : Kind → Bytes → Moment → Bytes → DomainEvent
of_kind kind id occurred_at encoded = record {
  id = id;
  type = kind.type;
  version = kind.version;
  occurred_at = occurred_at;
  payload = encoded;
}

module _ {Payload : Type 0} where
  -- `Kind.New`.
  unfoldable pub new_event :
      (Bytes → Bool)
      → (Payload → Result Bytes)
      → Kind
      → Bytes
      → Moment
      → Payload
      → Result DomainEvent
  unfolding validate_domain_event
  new_event json_valid marshal kind id occurred_at payload = elim (marshal payload) [
    | err e ↦ err (errorf e)
    | ok encoded ↦
        let event = of_kind kind id occurred_at encoded in
        checked event (validate_domain_event json_valid event)
  ]
