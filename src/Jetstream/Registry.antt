-- ===== src/Jetstream/Registry.antt =====
-- internal/infra/natsjs/registry.go: the routes of the event kinds, the handlers of decoded events, and
-- the handler of a delivery that chooses among them. A registry is one that NewRegistry gave: a nil one,
-- and the zero value, are left out. A map is an association list.
use go_service_template_rest.Base.{
  ℕ, ◌^◌, Bool, true, ◌||◌, ◌&&◌, not, List, [], ◌∷◌, Option, none, some, Bytes, if◌then◌else◌,
  ◌==◌, leb, ltb, length, eq_bytes, is_some,
}
use go_service_template_rest.Base.Int.{pos}
use go_service_template_rest.Base.GoError.{Err, Result, ok, err, ◌>>=◌, permanent, sentinel, errorf}
use go_service_template_rest.Base.Decimal.{format_uint, value_from}
use go_service_template_rest.Jetstream.{rejected, valid_publish_subject}
use go_service_template_rest.Jetstream.Wire.{Event, Message, validate_required_value}
use go_service_template_rest.Jetstream.Worker.{Outcome, returned}
use go_service_template_rest.Jetstream.Domain.{DomainEvent, Kind, Typed}

pub record Route : Type 0 where
  pub type : Bytes
  pub version : ℕ
  pub subject : Bytes

pub record RouteKey : Type 0 where
  pub type_name : Bytes
  pub version : ℕ

abbrev pub EventHandler : Type 0
EventHandler = DomainEvent → Outcome

abbrev pub RouteTable : Type 0
RouteTable = List (RouteKey × Bytes)

pub record Registry : Type 0 where
  pub subjects : RouteTable
  pub event_handlers : List (RouteKey × EventHandler)

unfoldable pub same_key : RouteKey → RouteKey → Bool
unfolding eq_bytes
same_key a b = eq_bytes a.type_name b.type_name && (a.version == b.version)

unfoldable pub find_key : {A : Type 0} → List (RouteKey × A) → RouteKey → Option A
unfolding same_key
find_key [] key = none
find_key ((other, value) ∷ entries) key =
    let rest = find_key entries key in if same_key other key then some value else rest

abbrev pub route_key : Bytes → ℕ → RouteKey
route_key type_name version = record { type_name = type_name; version = version }

-- `routeTable.subject`.
unfoldable pub route_subject : RouteTable → Bytes → ℕ → Result Bytes
unfolding find_key
route_subject table type_name version = elim (find_key table (route_key type_name version)) [
  | none ↦ err rejected
  | some subject ↦ ok subject
]

-- A route of `buildRoutes` behind the ones that were admitted.
unfoldable pub admit_route : RouteTable → Route → Result RouteTable
unfolding validate_required_value valid_publish_subject find_key
admit_route table route = elim (validate_required_value route.type) [
  | some e ↦ err e
  | none ↦
      if route.version == 0
      then err rejected
      else if not (valid_publish_subject route.subject)
      then err rejected
      else if is_some (find_key table (route_key route.type route.version))
      then err rejected
      else ok ((route_key route.type route.version, route.subject) ∷ table)
]

unfoldable pub admit_routes : RouteTable → List Route → Result RouteTable
unfolding admit_route
admit_routes table [] = ok table
admit_routes table (route ∷ routes) = admit_route table route >>= λ next. admit_routes next routes

-- `buildRoutes`.
unfoldable pub build_routes : List Route → Result RouteTable
unfolding admit_routes
build_routes routes = if length routes == 0 then err rejected else admit_routes [] routes

-- `NewRegistry`.
unfoldable pub new_registry : List Route → Result Registry
unfolding build_routes
new_registry routes =
    build_routes routes >>= λ subjects. ok (record { subjects = subjects; event_handlers = [] })

-- `register`; no handler is a nil one.
unfoldable pub register : Registry → Bytes → ℕ → Option EventHandler → Result Registry
register registry type_name version handler =
    route_subject registry.subjects type_name version >>= λ subject. elim handler [
      | none ↦ err rejected
      | some handle_event ↦
          let key = route_key type_name version in
          if is_some (find_key registry.event_handlers key)
          then err rejected
          else ok
              (record registry { event_handlers = (key, handle_event) ∷ registry.event_handlers })
    ]

module _ {Payload : Type 0} where
  -- The handler of decoded events that `Handle` makes of a typed one.
  unfoldable pub typed_handler : (Bytes → Result Payload) → (Typed Payload → Outcome) → EventHandler
  typed_handler unmarshal handler event = elim (unmarshal event.payload) [
    | err e ↦ returned (some (permanent (errorf e)))
    | ok payload ↦
        handler (record { id = event.id; occurred_at = event.occurred_at; payload = payload })
  ]

  -- `Handle`.
  unfoldable pub handle_typed :
      Registry
      → Kind
      → (Bytes → Result Payload)
      → Option (Typed Payload → Outcome)
      → Result Registry
  unfolding typed_handler register
  handle_typed registry kind unmarshal none = err rejected
  handle_typed registry kind unmarshal (some handler) =
      elim (register registry kind.type kind.version (some (typed_handler unmarshal handler))) [
        | err e ↦ err (errorf e)
        | ok next ↦ ok next
      ]

-- `SchemaForVersion`.
unfoldable pub schema_for_version : ℕ → Bytes
schema_for_version version = b'v' ∷ format_uint version

unfoldable pub all_digits : Bytes → Bool
all_digits [] = true
all_digits (c ∷ s) = leb 48 c && leb c 57 && all_digits s

-- strconv.ParseUint in base 10 for 16 bits.
unfoldable pub parse_uint16 : Bytes → Option ℕ
parse_uint16 s =
    if length s == 0 || not (all_digits s)
    then none
    else if ltb (value_from 0 s) (2 ^ 16)
    then some (value_from 0 s)
    else none

-- The error of `schemaVersion`, which wraps nothing.
abbrev pub err_schema : Err
err_schema = sentinel 421

-- `schemaVersion`.
unfoldable pub schema_version : Bytes → Result ℕ
schema_version [] = err err_schema
schema_version (c ∷ s) =
    if ltb (length (c ∷ s)) 2 || not (c == b'v') then err err_schema else elim (parse_uint16 s) [
      | none ↦ err err_schema
      | some version ↦
          if version == 0 || not (eq_bytes (c ∷ s) (schema_for_version version))
          then err err_schema
          else ok version
    ]

-- A map gives the empty text for a key that it has not.
abbrev or_empty : Option Bytes → Bytes
or_empty none = []
or_empty (some subject) = subject

-- The domain event that the handler of a delivery makes of a message, whose creation time is in UTC.
abbrev pub event_of : Message → ℕ → DomainEvent
event_of message version = record {
  id = message.message_id;
  type = message.event_type;
  version = version;
  occurred_at = record { nanoseconds = message.created_at; offset = pos 0 };
  payload = message.payload;
}

-- The permanent error of a delivery that no handler is registered for, or that came by another subject.
abbrev pub unroutable : Outcome
unroutable = returned (some (permanent (sentinel 422)))

-- The function that `Handler` gives, on the registry as it then is: by the version of the message, and
-- then by the handler of its kind.
unfoldable pub dispatch_to : Registry → Message → ℕ → Option EventHandler → Outcome
dispatch_to registry message version none = unroutable
dispatch_to registry message version (some handle_event) =
    let routed = find_key registry.subjects (route_key message.event_type version) in
    if not (eq_bytes message.subject (or_empty routed))
    then unroutable
    else handle_event (event_of message version)

unfoldable pub dispatch_at : Registry → Message → Result ℕ → Outcome
dispatch_at registry message (err e) = returned (some (permanent e))
dispatch_at registry message (ok version) =
    dispatch_to registry message version
      (find_key registry.event_handlers (route_key message.event_type version))

unfoldable pub dispatch : Registry → Message → Outcome
dispatch registry message = dispatch_at registry message (schema_version message.schema)

-- `Handler`.
unfoldable pub registry_handler : Registry → Result (Message → Outcome)
registry_handler registry =
    if length registry.event_handlers == 0 then err rejected else ok (dispatch registry)

-- `EventFromDomain`.
unfoldable pub event_from_domain : Bytes → DomainEvent → Event
event_from_domain subject event = record {
  subject = subject;
  message_id = event.id;
  publication_id = event.id;
  type = event.type;
  schema = schema_for_version event.version;
  created_at = event.occurred_at.nanoseconds;
  payload = event.payload;
}
