-- ===== src/Idempotency/Store/Tests.antt =====
-- The theorems about internal/infra/postgresidempotency at concrete inputs.
use go_service_template_rest.Base.{
  ℕ, ◌+◌, ◌<◌, ◌≡◌, refl, Bool, true, false, [], ◌∷◌, none, some, Bytes, codes, arith, eq_bytes,
}
use go_service_template_rest.Base.Int.{pos}
use go_service_template_rest.Base.GoError.{Err, Result, ok, err, sentinel, is}
use go_service_template_rest.Idempotency.{Request, valid_request, matches_fingerprint}
use go_service_template_rest.Idempotency.Codec.{same_json}
use go_service_template_rest.Idempotency.Tests.{json, stored_reads, stored_filled, encode_created}
use go_service_template_rest.Idempotency.Store.{
  Table, fresh_row, claim_query, complete_query, duration_micros, put,
}
use go_service_template_rest.Idempotency.Store.Cleanup.{
  Batch, cleanup, cleanup_from, cleanup_batch, queried, cleanup_query, expired_among,
}
use go_service_template_rest.Idempotency.Store.Cleanup.Ends.{Ends, cleanup-Ends}
use go_service_template_rest.Idempotency.Store.Execute.{
  Env, Round, World, committed, unanswered, run_round, execute,
}
use go_service_template_rest.Idempotency.Store.Atomic.{Atomic, execute-Atomic}
use go_service_template_rest.Idempotency.Store.Once.{
  Reads, row_of, execute-replays, execute-mismatch,
}
use go_service_template_rest.Idempotency.Store.First.{
  Runs, done_world, execute_twice, execute_unanswered,
}
use go_service_template_rest.Idempotency.Store.Executor.{executor, responded, executor_twice}

-- The work counts its runs and answers "ok".
abbrev work : ℕ → Result Bytes × ℕ
work n = (ok (codes "ok"), n + 1)

abbrev request : Request
request = record { identity = codes "id"; fingerprint_version = pos 1; fingerprint = codes "fp" }

abbrev round : Round
round = record { claim_at = 10; claim_fault = none; read_at = 11; read_fault = none }

abbrev env : Env
env = record {
  writer = true;
  begin_fault = none;
  first = round;
  second = round;
  complete_at = 20;
  complete_fault = none;
  extra = none;
  commit = committed;
  later_writer = true;
  later_at = 30;
  later_fault = none;
}

-- The answer of COMMIT is lost.
abbrev lost : Bool → Env
lost landed = record env { commit = unanswered (sentinel 9) landed }

abbrev empty : World ℕ
empty = record { table = λ key. none; business = 0 }

abbrev held : World ℕ
held = record {
  table = put (λ key. none) (codes "id") (row_of request (codes "ok") 1020);
  business = 1;
}

valid : valid_request request ≡ true
unfolding valid_request
valid = refl

runs : Runs env
runs = record { primary = refl; begun = refl; claims = refl; completes = refl }

reads : (expiry : ℕ) → 11 < expiry → Reads env expiry
reads expiry h = record {
  primary = refl;
  begun = refl;
  claims = refl;
  reads = refl;
  claims_before = omega arith;
  reads_before = h;
}

first_call : (execute work 1000 env request empty).0 ≡ ok (codes "ok", false)
unfolding execute eq_bytes valid_request run_round claim_query complete_query duration_micros
first_call = refl

execute-Atomic_example :
    Atomic work 1000 request empty (execute work 1000 (lost true) request empty).1
execute-Atomic_example = execute-Atomic work 1000 (lost true) request empty

execute_twice_example :
    let w' = done_world work 1000 env request empty (codes "ok") in
    (execute work 1000 env request empty ≡ (ok (codes "ok", false), w'))
    × (execute work 1000 env request w' ≡ (ok (codes "ok", true), w'))
unfolding duration_micros
execute_twice_example =
    execute_twice work 1000 env env request empty b'o' (codes "k") valid runs refl refl refl
      (reads (20 + 1000) (omega arith))

execute-replays_example :
    execute work 1000 (lost false) request held ≡ (ok (codes "ok", true), held)
unfolding eq_bytes matches_fingerprint
execute-replays_example =
    execute-replays work 1000 (lost false) request held 1020 (row_of request (codes "ok") 1020) b'o'
      (codes "k") valid
      (record {
        primary = refl;
        begun = refl;
        claims = refl;
        reads = refl;
        claims_before = omega arith;
        reads_before = omega arith;
      })
      refl refl refl refl

abbrev other : Request
other = record request { fingerprint = codes "other" }

other-valid : valid_request other ≡ true
unfolding valid_request
other-valid = refl

execute-mismatch_example :
    (e : Err) × (execute work 1000 env other held ≡ (err e, held)) × (is e 305 ≡ true)
unfolding eq_bytes matches_fingerprint
execute-mismatch_example =
    execute-mismatch work 1000 env other held 1020 (row_of request (codes "ok") 1020) other-valid
      (reads 1020 (omega arith)) refl refl refl refl

execute_unanswered_example :
    (failure : Err) × (is failure 307 ≡ true)
    × (execute work 1000 (lost false) request empty ≡ (err failure, empty))
unfolding duration_micros
execute_unanswered_example =
    execute_unanswered work 1000 (lost false) request empty b'o' (codes "k") (sentinel 9) false
      valid (record { primary = refl; begun = refl; claims = refl; completes = refl }) refl
      (record { primary = refl; reads = refl; reads_before = omega arith }) refl refl

abbrev respond : ℕ → Result Bytes × ℕ
respond n = (ok (codes "{}"), n + 1)

executor_twice_example :
    let once = executor json (pos 201) respond 1000 env request empty in
    let twice = executor json (pos 201) respond 1000 env request once.1 in
    (body : Bytes) × (given : Bytes) × (again : Bytes) × (ok (codes "{}") ≡ ok body)
    × (ok given ≡ ok again)
    × (same_json json body again ≡ true)
    × (once.0 ≡ responded given false)
    × (twice.0 ≡ responded given true)
    × (once.1.business ≡ 1)
    × (twice.1.business ≡ 1)
unfolding duration_micros
executor_twice_example =
    executor_twice json (pos 201) stored_reads stored_filled respond 1000 env env request empty
      (codes "{}") 0 (1 ∷ 0 ∷ 201 ∷ codes "{}") valid runs refl refl refl encode_created
      (reads (20 + 1000) (omega arith))

-- One row that has expired, one that lives and one that is claimed; the second tick finds nothing.
abbrev rows : Table
rows =
    put
      (put (put (λ id. none) (codes "old") (row_of request (codes "ok") 10)) (codes "new")
        (row_of request (codes "ok") 90))
      (codes "held") (fresh_row request)

abbrev batches : ℕ → Batch
batches i = record {
  now = 50;
  acquire_fault = none;
  query_fault = none;
  unlocked = codes "old" ∷ codes "new" ∷ codes "held" ∷ [];
}

one_deleted : elim (cleanup 4 batches rows) as (λ s. ℕ) [ none ↦ 0 | some swept ↦ swept.total ] ≡ 1
unfolding cleanup cleanup_from cleanup_batch queried cleanup_query expired_among eq_bytes
one_deleted = refl

cleanup-Ends_example :
    Ends batches (batches 0).unlocked (codes "old") (λ i. refl) rows (cleanup 4 batches rows)
cleanup-Ends_example =
    cleanup-Ends batches (batches 0).unlocked (codes "old") (λ i. refl) 4 rows (omega arith)
