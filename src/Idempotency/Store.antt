-- ===== src/Idempotency/Store.antt =====
-- internal/infra/postgresidempotency and the transaction of internal/infra/postgres: one mutation and
-- its replay evidence in one transaction. The queries are those of
-- internal/infra/postgres/queries/postgres_http_idempotency.sql over a table as a function of the
-- identity; what the database and the clock do in a call is in its environment.
pub mod Execute
pub mod Atomic
pub mod Once
pub mod First
pub mod Executor
pub mod Cleanup
mod Tests
use go_service_template_rest.Base.{
  ℕ, ◌+◌, ◌*◌, ◌/◌, ◌%◌, Bool, true, false, ◌||◌, ◌&&◌, not, List, [], ◌∷◌, Option, none, some,
  Bytes, if◌then◌else◌, ◌==◌, leb, ltb, eq_bytes, is_none,
}
use go_service_template_rest.Base.Int.{ℤ}
use go_service_template_rest.Base.GoError.{
  Err, Result, ok, err, ◌>>=◌, sentinel, errorf, errorf_two, is,
}
use go_service_template_rest.Idempotency.{
  Request, valid_request, matches_fingerprint, err_mismatch, err_unavailable, err_outcome_unknown,
  err_integrity,
}

-- A row of postgres_http_idempotency; `expires_at` is in nanoseconds.
pub record Row : Type 0 where
  pub fingerprint_version : ℤ
  pub fingerprint : Bytes
  pub result : Option Bytes
  pub expires_at : Option ℕ

abbrev pub Table : Type 0
Table = Bytes → Option Row

abbrev pub put : Table → Bytes → Row → Table
put table key row j = if eq_bytes j key then some row else table j

-- `expires_at <= clock_timestamp()`, which is not true of NULL.
abbrev pub has_expired : Row → ℕ → Bool
has_expired row now = elim row.expires_at [ none ↦ false | some t ↦ leb t now ]

abbrev pub fresh_row : Request → Row
fresh_row r = record {
  fingerprint_version = r.fingerprint_version;
  fingerprint = r.fingerprint;
  result = none;
  expires_at = none;
}

unfoldable pub claim_row : Table → Request → ℕ → Option Row → Bool × Table
claim_row table r now none = (true, put table r.identity (fresh_row r))
claim_row table r now (some row) =
    if has_expired row now then (true, put table r.identity (fresh_row r)) else (false, table)

-- ClaimHTTPIdempotency: whether a row came back, and the table. `writer` says that the session is on
-- a primary and may write.
unfoldable pub claim_query : Table → Bool → Request → ℕ → Bool × Table
unfolding claim_row
claim_query table writer r now =
    if writer then claim_row table r now (table r.identity) else (false, table)

-- ReadHTTPIdempotencyRow.
pub record ReadRow : Type 0 where
  pub row_exists : Bool
  pub writer_primary : Bool
  pub live : Bool
  pub fingerprint_version : Option ℤ
  pub fingerprint : Bytes
  pub result : Bytes

abbrev pub bytes_or_nil : Option Bytes → Bytes
bytes_or_nil none = []
bytes_or_nil (some b) = b

abbrev pub is_live : Row → ℕ → Bool
is_live row now = elim row.expires_at [ none ↦ false | some t ↦ ltb now t ]

-- ReadHTTPIdempotency, on what the table holds for the identity.
unfoldable pub read_query : Bool → ℕ → Option Row → ReadRow
read_query writer now none = record {
  row_exists = false;
  writer_primary = writer;
  live = false;
  fingerprint_version = none;
  fingerprint = [];
  result = [];
}
read_query writer now (some row) = record {
  row_exists = true;
  writer_primary = writer;
  live = is_live row now;
  fingerprint_version = some row.fingerprint_version;
  fingerprint = row.fingerprint;
  result = bytes_or_nil row.result;
}

unfoldable pub complete_row : Table → Request → Bytes → ℕ → Option Row → Option Bytes × Table
complete_row table r encoded expiry none = (none, table)
complete_row table r encoded expiry (some row) =
    if is_none row.result
    then (
      some encoded,
      put table r.identity (record row { result = some encoded; expires_at = some expiry }),
    )
    else (none, table)

-- `durationMicros`, which rounds up.
unfoldable pub duration_micros : ℕ → ℕ
duration_micros nanos = if nanos % 1000 == 0 then nanos / 1000 else nanos / 1000 + 1

-- CompleteHTTPIdempotency: the result that came back, and the table.
unfoldable pub complete_query : Table → Request → Bytes → ℕ → ℕ → Option Bytes × Table
unfolding complete_row
complete_query table r encoded retention_micros now =
    complete_row table r encoded (now + retention_micros * 1000) (table r.identity)

-- A query that fails: its error, and the context's if it is done.
pub record Fault : Type 0 where
  pub cause : Err
  pub ctx_err : Option Err

-- `storageFailure`.
unfoldable pub storage_failure : Fault → Err
storage_failure f = elim f.ctx_err [ some e ↦ errorf e | none ↦ errorf_two err_unavailable f.cause ]

unfoldable pub stored_result : Bytes → Result (Option Bytes)
stored_result [] = err err_integrity
stored_result (c ∷ result) = ok (some (c ∷ result))

unfoldable pub same_fingerprint : Request → ReadRow → Bool
unfolding matches_fingerprint
same_fingerprint r row = elim row.fingerprint_version [
  | none ↦ false
  | some version ↦ matches_fingerprint r version row.fingerprint
]

-- `storedEvidence`; `none` is `found == false`.
unfoldable pub stored_evidence : Request → ReadRow → Result (Option Bytes)
unfolding same_fingerprint stored_result
stored_evidence r row =
    if not row.writer_primary
    then err err_unavailable
    else if not row.row_exists || not row.live
    then ok none
    else if not (same_fingerprint r row)
    then err err_mismatch
    else stored_result row.result
