-- ===== src/Jetstream.antt =====
-- internal/infra/natsjs: errors.go, config.go and worker_config.go, the configuration of a worker on
-- one JetStream consumer. Jetstream/Wire has the messages, Jetstream/Worker what happens to one
-- delivery.
pub mod Wire
pub mod DeadLetter
pub mod Worker
pub mod Subjects
pub mod Attempts
pub mod Headers
pub mod Redrive
mod Tests
pub mod Settlement
pub mod Domain
pub mod Registry
pub mod Producer
pub mod Publication
pub mod Refusals
use go_service_template_rest.Base.{
  ℕ, zero, suc, ◌+◌, ◌*◌, ◌/◌, ◌^◌, Bool, true, false, ◌||◌, ◌&&◌, not, List, [], ◌∷◌, Option, none,
  some, Bytes, codes, if◌then◌else◌, ◌==◌, leb, ltb, length, eq_bytes,
}
use go_service_template_rest.Base.Int.{ℤ, pos, pos_part, ltb_ℤ, leb_ℤ, add64}
use go_service_template_rest.Base.GoError.{
  Err, Errs, leaf, wrapped, joined, op_error, permanent, status, nil, cons, sentinel, errorf,
}

abbrev pub rejected_id : ℕ
rejected_id = 401

abbrev pub terminal_id : ℕ
terminal_id = 404

abbrev pub err_rejected : Err
err_rejected = sentinel rejected_id

abbrev pub err_ambiguous : Err
err_ambiguous = sentinel 402

abbrev pub err_terminal : Err
err_terminal = sentinel terminal_id

-- A refusal or a fault is a sentinel with a text.
abbrev pub rejected : Err
rejected = errorf err_rejected

abbrev pub terminal : Err
terminal = errorf err_terminal

-- `IsPermanent`: some error of the tree is a `permanentError`.
unfoldable mutual
  pub is_permanent : Err → Bool
  is_permanent (leaf ty i) = false
  is_permanent (wrapped ty e) = is_permanent e
  is_permanent (joined ty es) = any_permanent es
  is_permanent (op_error name e) = is_permanent e
  is_permanent (permanent e) = true
  is_permanent (status owned s) = false

  pub any_permanent : Errs → Bool
  any_permanent nil = false
  any_permanent (cons e es) = is_permanent e || any_permanent es

-- strings.Split by ".": the first token and the ones behind it.
abbrev pub dot : ℕ
dot = 46

unfoldable pub split_dots : Bytes → Bytes × List Bytes
split_dots [] = ([], [])
split_dots (c ∷ s) =
    let (part, rest) = split_dots s in if c == dot then ([], part ∷ rest) else (c ∷ part, rest)

unfoldable pub split : Bytes → List Bytes
unfolding split_dots
split s = let (part, rest) = split_dots s in part ∷ rest

abbrev pub any_token : Bytes
any_token = codes "*"

abbrev pub all_tokens : Bytes
all_tokens = codes ">"

unfoldable pub mem_byte : Bytes → ℕ → Bool
mem_byte [] c = false
mem_byte (x ∷ xs) c = x == c || mem_byte xs c

-- strings.ContainsAny.
unfoldable pub contains_any : Bytes → Bytes → Bool
unfolding mem_byte
contains_any [] chars = false
contains_any (c ∷ s) chars = mem_byte chars c || contains_any s chars

-- `ValidStreamOrConsumerName` of internal/messagingconfig.
unfoldable pub valid_stream_or_consumer_name : Bytes → Bool
unfolding contains_any
valid_stream_or_consumer_name s =
    not (length s == 0) && not (contains_any s (codes " .*\\/>\t\r\n"))

-- The loop of `validFilterSubject` over the tokens.
unfoldable pub valid_tokens : List Bytes → Bool
unfolding contains_any eq_bytes
valid_tokens [] = true
valid_tokens (part ∷ rest) =
    if length part == 0
    then false
    else if eq_bytes part all_tokens
    then length rest == 0 && valid_tokens rest
    else (eq_bytes part any_token || not (contains_any part (codes "*>"))) && valid_tokens rest

abbrev starts_with_dot : Bytes → Bool
starts_with_dot [] = false
starts_with_dot (c ∷ s) = c == dot

unfoldable pub ends_with_dot : Bytes → Bool
ends_with_dot [] = false
ends_with_dot (c ∷ s) = (c == dot && length s == 0) || ends_with_dot s

-- `validFilterSubject`.
unfoldable pub valid_filter_subject : Bytes → Bool
unfolding valid_tokens split contains_any ends_with_dot
valid_filter_subject s =
    if length s == 0 || starts_with_dot s || ends_with_dot s || contains_any s (codes " \t\r\n")
    then false
    else valid_tokens (split s)

unfoldable pub has_wildcard : List Bytes → Bool
unfolding eq_bytes
has_wildcard [] = false
has_wildcard (part ∷ rest) =
    eq_bytes part any_token || eq_bytes part all_tokens || has_wildcard rest

-- `validPublishSubject`.
unfoldable pub valid_publish_subject : Bytes → Bool
unfolding valid_filter_subject has_wildcard
valid_publish_subject s = valid_filter_subject s && not (has_wildcard (split s))

-- The loop of `subjectMatches`, on the tokens that are left.
unfoldable pub tokens_match : List Bytes → List Bytes → Bool
unfolding eq_bytes
tokens_match [] [] = true
tokens_match [] (s ∷ subject) = false
tokens_match (part ∷ filter) [] = eq_bytes part all_tokens
tokens_match (part ∷ filter) (s ∷ subject) =
    eq_bytes part all_tokens
    || ((eq_bytes part any_token || eq_bytes part s) && tokens_match filter subject)

-- `subjectMatches`.
unfoldable pub subject_matches : Bytes → Bytes → Bool
unfolding tokens_match split
subject_matches filter subject = tokens_match (split filter) (split subject)

abbrev pub header_limit_bytes : ℕ
header_limit_bytes = 8 * 2 ^ 10

abbrev pub resident_delivery_limit : ℕ
resident_delivery_limit = 64 * 2 ^ 20

abbrev pub max_retry_delays : ℕ
max_retry_delays = 9

pub record WorkerConfig : Type 0 where
  pub consumer : Bytes
  pub filter_subject : Bytes
  pub dead_letter_subject : Bytes
  pub max_concurrency : ℤ
  pub max_delivery_bytes : ℤ
  pub handler_timeout : ℤ
  pub retry_delays : List ℤ
  pub dead_letter_retry_delay : ℤ

abbrev pub second : ℕ
second = 10 ^ 9

-- `DefaultWorkerConfig`.
unfoldable pub default_worker_config : Bytes → Bytes → Bytes → ℤ → ℤ → WorkerConfig
default_worker_config consumer filter_subject dead_letter_subject concurrency max_payload_bytes =
    record {
      consumer = consumer;
      filter_subject = filter_subject;
      dead_letter_subject = dead_letter_subject;
      max_concurrency = concurrency;
      max_delivery_bytes = add64 max_payload_bytes (pos header_limit_bytes);
      handler_timeout = pos (30 * second);
      retry_delays = pos second ∷ pos (5 * second) ∷ pos (30 * second) ∷ pos (120 * second) ∷ [];
      dead_letter_retry_delay = pos (30 * second);
    }

unfoldable pub all_positive : List ℤ → Bool
all_positive [] = true
all_positive (delay ∷ delays) = not (leb_ℤ delay (pos 0)) && all_positive delays

-- The faults that `ValidateWorkerConfig` looks for, in its order. The quotient is taken where the
-- divisor is positive.
unfoldable pub config_faults : WorkerConfig → ℤ → List Bool
unfolding valid_stream_or_consumer_name valid_filter_subject valid_publish_subject subject_matches
    all_positive
config_faults cfg max_payload_bytes =
    not (valid_stream_or_consumer_name cfg.consumer)
    ∷ not (valid_filter_subject cfg.filter_subject)
    ∷ not (valid_publish_subject cfg.dead_letter_subject)
    ∷ subject_matches cfg.filter_subject cfg.dead_letter_subject
    ∷ leb_ℤ cfg.max_concurrency (pos 0)
    ∷ leb_ℤ cfg.max_delivery_bytes (pos 0)
    ∷ ltb_ℤ cfg.max_delivery_bytes (add64 max_payload_bytes (pos header_limit_bytes))
    ∷ ltb_ℤ (pos (resident_delivery_limit / pos_part cfg.max_delivery_bytes)) cfg.max_concurrency
    ∷ leb_ℤ cfg.handler_timeout (pos 0)
    ∷ (ltb (length cfg.retry_delays) 1 || ltb max_retry_delays (length cfg.retry_delays))
    ∷ not (all_positive cfg.retry_delays)
    ∷ leb_ℤ cfg.dead_letter_retry_delay (pos 0)
    ∷ []

unfoldable pub first_fault : List Bool → Option Err
first_fault [] = none
first_fault (fault ∷ faults) = if fault then some rejected else first_fault faults

-- `ValidateWorkerConfig`, whose refusals all wrap `ErrRejected`.
unfoldable pub validate_worker_config : WorkerConfig → ℤ → Option Err
unfolding config_faults first_fault
validate_worker_config cfg max_payload_bytes = first_fault (config_faults cfg max_payload_bytes)
