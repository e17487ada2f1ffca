-- ===== src/Webhook/Retry.antt =====
-- internal/infra/postgreswebhook/retry.go: when a delivery is tried again. Times are nanoseconds since
-- the epoch; the job's metadata is read and written by encoding/json, which is a parameter, as is
-- http.ParseTime.
pub mod Deadline
use go_service_template_rest.Base.{
  ℕ, zero, suc, ◌+◌, ◌-◌, ◌*◌, ◌/◌, ◌%◌, ◌^◌, ◌≡◌, Bool, true, false, ◌||◌, ◌&&◌, not, List, [],
  ◌∷◌, ◌++◌, Option, none, some, Bytes, codes, if◌then◌else◌, ◌==◌, leb, ltb, length, eq_bytes,
  is_none, min,
}
use go_service_template_rest.Base.Int.{
  ℤ, pos, negsuc, leb_ℤ, ltb_ℤ, add64, mul64, quot64, min_ℤ, time_sub, max_ℤ,
}
use go_service_template_rest.Base.Decimal.{value_from}
use go_service_template_rest.Base.GoError.{Err, Result, ok, err, ◌>>=◌, errorf}
use go_service_template_rest.Failure.Chain.{trim_space}
use go_service_template_rest.Webhook.{err_config}

abbrev pub second : ℕ
second = 10 ^ 9

abbrev pub initial_backoff : ℕ
initial_backoff = 5 * second

abbrev pub max_backoff : ℕ
max_backoff = 24 * 3600 * second

abbrev pub max_elapsed : ℕ
max_elapsed = 4 * max_backoff

-- A delivery job, as far as its retries read it.
pub record Job : Type 0 where
  pub delivery_id : Bytes
  pub attempt : ℤ
  pub created_at : Option ℕ
  pub metadata : Bytes

abbrev pub Metadata : Type 0
Metadata = List (Bytes × Bytes)

-- `digest_word` is the first eight bytes of the SHA-256 of a text, as a number.
pub record Clockwork : Type 0 where
  pub digest_word : Bytes → ℕ
  pub parse_time : Bytes → Option ℕ
  pub decode_metadata : Bytes → Result Metadata
  pub encode_metadata : Metadata → Result Bytes
  pub decode_time : Bytes → Option ℕ
  pub encode_time : ℕ → Result Bytes

abbrev pub retry_after_key : Bytes
retry_after_key = codes "webhook_retry_after_at"

unfoldable pub is_number : Bytes → Bool
is_number [] = true
is_number (c ∷ s) = leb b'0' c && leb c b'9' && is_number s

-- The seconds of a Retry-After that is a number, by `ParseUint` of 63 bits.
unfoldable pub seconds_hint : ℕ → ℕ → ℕ
seconds_hint seconds max_delay =
    if leb (2 ^ 63) seconds || ltb ((2 ^ 63 - 1) / second) seconds
    then max_delay
    else min (seconds * second) max_delay

-- The delay up to a date, in front of `base`.
abbrev pub date_hint : ℕ → ℕ → ℕ → Option ℕ
date_hint date base max_delay = if leb date base then none else some (min (date - base) max_delay)

abbrev pub or_time : Option ℕ → ℕ → ℕ
or_time none t = t
or_time (some d) t = d

-- The loop of `webhookBackoff`, with the rounds that are left.
unfoldable pub doubled : ℕ → ℕ → ℕ
doubled zero delay = delay
doubled (suc rounds) delay =
    let rest = doubled rounds (min (2 * delay) max_backoff) in
    if ltb delay max_backoff then rest else delay

-- uint64 in eight bytes.
unfoldable pub word_bytes : ℕ → ℕ → Bytes
word_bytes zero n = []
word_bytes (suc k) n = word_bytes k (n / 256) ++ (n % 256) ∷ []

abbrev pub as_nat : ℤ → ℕ
as_nat (pos n) = n
as_nat (negsuc n) = 0

-- `max(attempt, 1)`.
abbrev pub attempt_number : ℤ → ℕ
attempt_number a = as_nat (max_ℤ a (pos 1))

-- Time.Add.
abbrev pub time_add : ℕ → ℤ → ℕ
time_add t (pos n) = t + n
time_add t (negsuc n) = t - suc n

unfoldable pub get_metadata : Metadata → Bytes → Option Bytes
unfolding eq_bytes
get_metadata [] key = none
get_metadata ((k, v) ∷ rest) key = if eq_bytes k key then some v else get_metadata rest key

unfoldable pub set_metadata : Metadata → Bytes → Bytes → Metadata
unfolding eq_bytes
set_metadata [] key value = (key, value) ∷ []
set_metadata ((k, v) ∷ rest) key value =
    if eq_bytes k key then (key, value) ∷ rest else (k, v) ∷ set_metadata rest key value

-- The later of a time and a hint that may be missing.
abbrev pub or_later : ℕ → Option ℕ → ℕ
or_later due none = due
or_later due (some hint) = if ltb due hint then hint else due

-- The end of `webhookNextRetry`: within four days of the job's creation.
unfoldable pub within_deadline : ℕ → ℕ → Option ℕ → ℕ
within_deadline now due none = due
within_deadline now due (some created) =
    let deadline = created + max_elapsed in
    if leb deadline now then now + second else if ltb deadline due then deadline else due

-- `webhookDeliveryExpired`.
unfoldable pub delivery_expired : Job → ℕ → Bool
delivery_expired job now = elim job.created_at [
  | none ↦ false
  | some created ↦ leb (created + max_elapsed) now
]

module _ (clock : Clockwork) where
  open clock use {
    digest_word, parse_time, decode_metadata, encode_metadata, decode_time, encode_time,
  }

  -- `parseRetryAfter`, on texts as code points; a delay is not negative.
  unfoldable pub parse_retry_after : Bytes → Bytes → ℕ → ℕ → Option ℕ
  unfolding trim_space is_number seconds_hint value_from
  parse_retry_after raw date attempted_at max_delay =
      let text = trim_space raw in
      if max_delay == 0
      then none
      else if not (length text == 0) && is_number text
      then some (seconds_hint (value_from 0 text) max_delay)
      else elim (parse_time text) [
        | none ↦ none
        | some time ↦ date_hint time (or_time (parse_time date) attempted_at) max_delay
      ]

  -- The jitter of `webhookBackoff`, per mille.
  abbrev pub jitter : Bytes → ℕ → ℤ
  jitter delivery_id attempt =
      add64 (pos (digest_word (delivery_id ++ word_bytes 8 attempt) % 201)) (negsuc 99)

  unfoldable pub backoff : Bytes → ℤ → ℤ
  unfolding doubled word_bytes add64 mul64 quot64
  backoff delivery_id attempt =
      let n = attempt_number attempt in
      let delay = pos (doubled (n - 1) initial_backoff) in
      min_ℤ (add64 delay (quot64 (mul64 delay (jitter delivery_id n)) 1000)) (pos max_backoff)

  -- What the metadata of a job says of Retry-After.
  unfoldable pub stored_hint : Bytes → Option ℕ
  unfolding get_metadata
  stored_hint metadata = elim (decode_metadata metadata) [
    | err e ↦ none
    | ok fields ↦ elim (get_metadata fields retry_after_key) [
      | none ↦ none
      | some value ↦ decode_time value
    ]
  ]

  -- `webhookNextRetry`.
  unfoldable pub next_retry : Job → ℕ → ℕ
  unfolding backoff stored_hint within_deadline
  next_retry job now =
      let due = time_add now (backoff job.delivery_id job.attempt) in
      within_deadline now (or_later due (stored_hint job.metadata)) job.created_at

  abbrev pub wrap_error {ℓ} : {A : Type ℓ} → Result A → Result A
  wrap_error (err e) = err (errorf e)
  wrap_error (ok a) = ok a

  abbrev pub metadata_fields : Bytes → Result Metadata
  metadata_fields [] = ok []
  metadata_fields (c ∷ raw) = wrap_error (decode_metadata (c ∷ raw))

  -- `mergeRetryAfterMetadata`.
  unfoldable pub merge_retry_after : Bytes → ℕ → Result Bytes
  unfolding set_metadata
  merge_retry_after raw retry_at = metadata_fields raw >>= λ fields.
      wrap_error (encode_time retry_at) >>= λ value.
      wrap_error (encode_metadata (set_metadata fields retry_after_key value))

  -- `rememberRetryAfter`, with what river.MetadataSet answers.
  unfoldable pub remember_retry_after : Option Err → Job → ℕ → Result Job
  unfolding merge_retry_after
  remember_retry_after set_error job retry_at =
      merge_retry_after job.metadata retry_at >>= λ metadata. elim set_error [
        | some e ↦ err (errorf e)
        | none ↦ ok (record job { metadata = metadata })
      ]
