-- ===== src/Idempotency/Codec.antt =====
-- The stored result of a request: `Codec` of internal/httpidempotency. encoding/json is a parameter:
-- how a response and a stored result are written and read, what value a decoder with UseNumber reads
-- first, and so is reflect.DeepEqual on such values.
use go_service_template_rest.Base.{
  ℕ, ◌^◌, Bool, false, Option, none, some, ◌||◌, ◌&&◌, not, Bytes, if◌then◌else◌, ◌==◌, ltb, length,
}
use go_service_template_rest.Base.Int.{ℤ, pos, leb_ℤ}
use go_service_template_rest.Base.GoError.{Result, ok, err, ◌>>=◌, errorf, errorf_two}
use go_service_template_rest.Idempotency.{err_invalid_result, eq_ℤ}

abbrev pub max_result_bytes : ℕ
max_result_bytes = 2 ^ 20

abbrev pub result_schema_version : ℤ
result_schema_version = pos 1

pub record StoredResult : Type 0 where
  pub schema_version : ℤ
  pub status : ℤ
  pub body : Bytes

pub record Json (Response : Type 0) : Type 1 where
  pub Value : Type 0
  pub marshal : Response → Result Bytes
  pub unmarshal : Bytes → Result Response
  pub marshal_stored : StoredResult → Result Bytes
  pub unmarshal_stored : Bytes → Result StoredResult
  pub decode_value : Bytes → Option Value
  pub deep_equal : Value → Value → Bool

-- `%w` around a failure of encoding/json.
abbrev pub or_invalid : {A : Type 0} → Result A → Result A
or_invalid (ok a) = ok a
or_invalid (err e) = err (errorf_two err_invalid_result e)

abbrev pub reject : {A : Type 0} → Result A
reject = err (errorf err_invalid_result)

-- `Codec.Valid`.
abbrev pub valid_status : ℤ → Bool
valid_status status = leb_ℤ (pos 200) status && not (leb_ℤ (pos 300) status)

module _ {Response : Type 0} (json : Json Response) where
  open json use {marshal, unmarshal, marshal_stored, unmarshal_stored, decode_value, deep_equal}

  -- `sameJSON`.
  unfoldable pub same_json : Bytes → Bytes → Bool
  same_json left right = elim (decode_value left) [
    | none ↦ false
    | some left_value ↦ elim (decode_value right) [
      | none ↦ false
      | some right_value ↦ deep_equal left_value right_value
    ]
  ]

  -- `decodeResponse`.
  unfoldable pub decode_response : Bytes → Result Response
  unfolding same_json
  decode_response body = do
    response ← or_invalid (unmarshal body)
    round_trip ← or_invalid (marshal response)
    if same_json body round_trip then ok response else reject

  -- `Encode` of a codec for `status`.
  unfoldable pub encode : ℤ → Response → Result Bytes
  unfolding decode_response
  encode status response = if not (valid_status status) then reject else do
    body ← or_invalid (marshal response)
    checked ← decode_response body
    encoded ← or_invalid (
        marshal_stored
          (record { schema_version = result_schema_version; status = status; body = body }))
    if ltb max_result_bytes (length encoded) then reject else ok encoded

  unfoldable pub decode_stored : ℤ → StoredResult → Result Response
  unfolding decode_response
  decode_stored status stored =
      if not (eq_ℤ stored.schema_version result_schema_version)
      then reject
      else if not (eq_ℤ stored.status status)
      then reject
      else decode_response stored.body

  -- `Decode`.
  unfoldable pub decode : ℤ → Bytes → Result Response
  unfolding decode_stored
  decode status encoded =
      if not (valid_status status) || length encoded == 0 || ltb max_result_bytes (length encoded)
      then err err_invalid_result
      else do stored ← or_invalid (unmarshal_stored encoded); decode_stored status stored
