-- ===== src/Idempotency/Store/Cleanup.antt =====
-- `Cleanup`, `Maintain` and `NewStore` of internal/infra/postgresidempotency/store.go, with
-- CleanupHTTPIdempotency: expired evidence goes, in batches.
pub mod Expired
pub mod Ends
use go_service_template_rest.Base.{
  ℕ, zero, suc, ◌+◌, Bool, true, false, ◌||◌, List, [], ◌∷◌, Option, none, some, Bytes,
  if◌then◌else◌, ltb, length, take, eq_bytes, is_some,
}
use go_service_template_rest.Base.Int.{ℤ, pos, negsuc}
use go_service_template_rest.Base.GoError.{Err, Result, ok, err, errorf}
use go_service_template_rest.Idempotency.Store.Execute.{err_config}
use go_service_template_rest.Idempotency.Store.{Table, Row, has_expired, Fault, storage_failure}

abbrev pub cleanup_batch_size : ℕ
cleanup_batch_size = 500

-- What a batch meets: the clock, the failures of its connection and of its query, and the identities,
-- each once, whose rows no transaction holds, in the order of the query.
pub record Batch : Type 0 where
  pub now : ℕ
  pub acquire_fault : Option Fault
  pub query_fault : Option Fault
  pub unlocked : List Bytes

abbrev pub row_expired : Option Row → ℕ → Bool
row_expired none now = false
row_expired (some row) now = has_expired row now

unfoldable pub expired_among : Table → ℕ → List Bytes → List Bytes
expired_among table now [] = []
expired_among table now (id ∷ ids) =
    let rest = expired_among table now ids in if row_expired (table id) now then id ∷ rest else rest

unfoldable pub has_identity : List Bytes → Bytes → Bool
has_identity [] id = false
has_identity (other ∷ ids) id = eq_bytes other id || has_identity ids id

unfoldable pub delete_rows : Table → List Bytes → Table
delete_rows table ids id = if has_identity ids id then none else table id

-- CleanupHTTPIdempotency: the number of the rows that were deleted, and the table.
unfoldable pub cleanup_query : Table → Batch → ℕ × Table
cleanup_query table batch =
    let chosen = take cleanup_batch_size (expired_among table batch.now batch.unlocked) in
    (length chosen, delete_rows table chosen)

-- What `Cleanup` gives: the number of the rows, the error, and the table.
pub record Swept : Type 0 where
  pub total : ℕ
  pub failure : Option Err
  pub table : Table

abbrev pub swept_none : ℕ → Table → Fault → Swept
swept_none total table fault = record {
  total = total;
  failure = some (storage_failure fault);
  table = table;
}

unfoldable pub queried : ℕ → Table → Batch → Option Fault → Swept
queried total table batch (some fault) = swept_none total table fault
queried total table batch none =
    let (rows, rest) = cleanup_query table batch in
    record { total = total + rows; failure = none; table = rest }

-- `cleanupBatch`, added to a total.
unfoldable pub cleanup_batch : ℕ → Table → Batch → Option Fault → Swept
cleanup_batch total table batch (some fault) = swept_none total table fault
cleanup_batch total table batch none = queried total table batch batch.query_fault

-- The loop of `Cleanup`, at most as many batches as the fuel. It ends behind a batch that fails or is not
-- full.
unfoldable pub cleanup_from : ℕ → (ℕ → Batch) → ℕ → ℕ → Table → Option Swept
cleanup_from zero batches i total table = none
cleanup_from (suc fuel) batches i total table =
    let batch = batches i in
    let swept = cleanup_batch total table batch batch.acquire_fault in
    let rest = cleanup_from fuel batches (suc i) swept.total swept.table in
    if is_some swept.failure || ltb swept.total (total + cleanup_batch_size)
    then some swept
    else rest

-- `Cleanup`.
unfoldable pub cleanup : ℕ → (ℕ → Batch) → Table → Option Swept
cleanup fuel batches table = cleanup_from fuel batches 0 0 table

-- What wakes `Maintain`: its ticker, with what a cleanup then meets, or the end of its context.
pub data Wake : Type 0 where
  ticked : (ℕ → Batch) → Wake
  ended : Err → Wake

abbrev pub table_of : Table → Option Swept → Table
table_of table none = table
table_of table (some swept) = swept.table

-- `Maintain`: its error once the context has ended, and the table. The error of a cleanup is logged.
unfoldable pub maintain : ℕ → List Wake → Table → Option Err × Table
maintain fuel [] table = (none, table)
maintain fuel (ended e ∷ wakes) table = (some (errorf e), table)
maintain fuel (ticked batches ∷ wakes) table =
    maintain fuel wakes (table_of table (cleanup fuel batches table))

-- The retention that `NewStore` accepts.
unfoldable pub new_store : ℤ → Result ℕ
new_store (pos zero) = err (errorf err_config)
new_store (pos (suc n)) = ok (suc n)
new_store (negsuc n) = err (errorf err_config)
