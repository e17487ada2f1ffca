-- ===== src/Idempotency/Store/Once.antt =====
-- A request that was answered is answered again from its evidence, and never run again.
use go_service_template_rest.Base.{
  ℕ, ◌<◌, ◌≡◌, refl, ◌∙◌, true, false, ◌∷◌, Option, none, some, Bytes, if◌then◌else◌, arith,
  if_cases,
}
use go_service_template_rest.Base.GoError.{Err, Result, ok, err, is, errorf, errorf_two}
use go_service_template_rest.Idempotency.{Request, valid_request, matches_fingerprint, err_mismatch}
use go_service_template_rest.Idempotency.Store.{
  Row, Table, claim_query, claim_row, read_query, stored_evidence, stored_result, same_fingerprint,
  has_expired, is_live, bytes_or_nil,
}
use go_service_template_rest.Idempotency.Store.Execute.{
  Env, Attempt, World, failed, execute_transaction, run_round, claimed, read_round, evidence,
  or_next, in_tx, report, conclude, transact, execute, settle_failure, err_transaction,
}

-- The first round of a call meets a writable primary and no failure, and reads before `expiry`.
pub record Reads (env : Env) (expiry : ℕ) : Type 0 where
  pub primary : env.writer ≡ true
  pub begun : env.begin_fault ≡ none
  pub claims : env.first.claim_fault ≡ none
  pub reads : env.first.read_fault ≡ none
  pub claims_before : env.first.claim_at < expiry
  pub reads_before : env.first.read_at < expiry

-- A completed row that lives until `expiry`.
abbrev pub row_of : Request → Bytes → ℕ → Row
row_of r result expiry = record {
  fingerprint_version = r.fingerprint_version;
  fingerprint = r.fingerprint;
  result = some result;
  expires_at = some expiry;
}

has_expired-false :
    (row : Row) (now expiry : ℕ)
    → row.expires_at ≡ some expiry
    → now < expiry
    → has_expired row now ≡ false
has_expired-false row now expiry lives before = ground arith

is_live-true :
    (row : Row) (now expiry : ℕ)
    → row.expires_at ≡ some expiry
    → now < expiry
    → is_live row now ≡ true
is_live-true row now expiry lives before = ground arith

claim_query-live :
    (table : Table) (r : Request) (now expiry : ℕ) (row : Row)
    → table r.identity ≡ some row
    → row.expires_at ≡ some expiry
    → now < expiry
    → claim_query table true r now ≡ (false, table)
unfolding claim_query claim_row
claim_query-live table r now expiry row held lives before =
    rw (held, claim_row) (rw (has_expired-false row now expiry lives before))

-- The answer of `storedEvidence` on a live row that a primary reads.
abbrev pub answer_of : Request → Row → Result (Option Bytes)
answer_of r row =
    if matches_fingerprint r row.fingerprint_version row.fingerprint
    then stored_result (bytes_or_nil row.result)
    else err err_mismatch

pub stored_evidence-live :
    (r : Request) (now expiry : ℕ) (row : Row)
    → row.expires_at ≡ some expiry
    → now < expiry
    → stored_evidence r (read_query true now (some row)) ≡ answer_of r row
unfolding stored_evidence read_query same_fingerprint
stored_evidence-live r now expiry row lives before =
    rw (is_live-true row now expiry lives before) (ground arith)

module _ {B : Type 0} (work : B → Result Bytes × B) (retention : ℕ) where
  -- On a live row the transaction does what the stored evidence says, in its first round.
  run_round-live :
      (env : Env) (r : Request) (w : World B) (expiry : ℕ) (row : Row)
      → Reads env expiry
      → w.table r.identity ≡ some row
      → row.expires_at ≡ some expiry
      → run_round work retention env r w env.first ≡ evidence work retention w (answer_of r row)
  unfolding run_round claimed read_round
  run_round-live env r w expiry row h held lives = rw (
    h.claims,
    run_round,
    h.primary,
    claim_query-live w.table r env.first.claim_at expiry row held lives h.claims_before,
    claimed,
    h.reads,
    read_round,
    held,
    h.primary,
    stored_evidence-live r env.first.read_at expiry row lives h.reads_before,
  )

  transaction-live :
      (env : Env) (r : Request) (w : World B) (expiry : ℕ) (row : Row) (out : Attempt)
      → Reads env expiry
      → w.table r.identity ≡ some row
      → row.expires_at ≡ some expiry
      → evidence work retention w (answer_of r row) ≡ some (out, w)
      → execute_transaction work retention env r w ≡ (out, w)
  unfolding execute_transaction or_next
  transaction-live env r w expiry row out h held lives e =
      rw (run_round-live env r w expiry row h held lives ∙ e, or_next)

  pub answer_of-match :
      (r : Request) (row : Row) (c : ℕ) (result : Bytes)
      → row.result ≡ some (c ∷ result)
      → matches_fingerprint r row.fingerprint_version row.fingerprint ≡ true
      → answer_of r row ≡ ok (some (c ∷ result))
  unfolding stored_result
  answer_of-match r row c result kept same = rw (same, kept)

  in_tx-replay : (env : Env) (w : World B) (a : Attempt) → (in_tx env w (a, w)).1 ≡ w
  unfolding in_tx
  in_tx-replay env w a = if_cases (λ v. v ≡ w) (settle_failure env a).1 w w (λ _. refl) (λ _. refl)

  conclude-replayed :
      (env : Env) (r : Request) (w : World B) (a : Attempt) (e : Option Err)
      → a.replayed ≡ true
      → conclude env r w a e ≡ ok (a.result, true)
  unfolding conclude
  conclude-replayed env r w a none h = rw h
  conclude-replayed env r w a (some e) h = rw h

  report-replayed :
      (env : Env) (r : Request) (w : World B) (a : Attempt)
      → a.replayed ≡ true
      → report env r (in_tx env w (a, w)) ≡ (ok (a.result, true), w)
  unfolding report in_tx
  report-replayed env r w a h =
      rw (in_tx-replay env w a)
        (rw (conclude-replayed env r w (record a { failure = (settle_failure env a).0 }) _ h))

  pub execute-transact :
      (env : Env) (r : Request) (w : World B) (out : Attempt)
      → valid_request r ≡ true
      → env.begin_fault ≡ none
      → execute_transaction work retention env r w ≡ (out, w)
      → execute work retention env r w ≡ report env r (in_tx env w (out, w))
  unfolding execute transact
  execute-transact env r w out valid begun e = rw (valid, begun, transact, e)

  -- While the evidence lives, a request with its fingerprint is answered with the stored result and
  -- changes nothing: the work does not run, and whatever COMMIT does, the answer is the same.
  pub execute-replays :
      (env : Env) (r : Request) (w : World B) (expiry : ℕ) (row : Row) (c : ℕ) (result : Bytes)
      → valid_request r ≡ true
      → Reads env expiry
      → w.table r.identity ≡ some row
      → row.expires_at ≡ some expiry
      → row.result ≡ some (c ∷ result)
      → matches_fingerprint r row.fingerprint_version row.fingerprint ≡ true
      → execute work retention env r w ≡ (ok (c ∷ result, true), w)
  execute-replays env r w expiry row c result valid h held lives kept same =
      execute-transact env r w replayed valid h.begun (
        transaction-live env r w expiry row replayed h held lives
          (unfold evidence in rw (answer_of-match r row c result kept same, evidence)))
      ∙ report-replayed env r w replayed refl
    where
      replayed : Attempt
      replayed = record { result = c ∷ result; replayed = true; failure = none }

  is-mismatch : is (errorf (errorf_two err_transaction err_mismatch)) 305 ≡ true
  unfolding is
  is-mismatch = refl

  report-mismatch :
      (env : Env) (r : Request) (w : World B)
      → env.extra ≡ none
      → report env r (in_tx env w (failed err_mismatch, w))
        ≡ (err (errorf (errorf_two err_transaction err_mismatch)), w)
  unfolding report in_tx conclude is
  report-mismatch env r w clean = rw clean

  -- While the evidence lives, a request with another fingerprint is refused with `ErrMismatch` and
  -- changes nothing, where the rollback adds no error.
  pub execute-mismatch :
      (env : Env) (r : Request) (w : World B) (expiry : ℕ) (row : Row)
      → valid_request r ≡ true
      → Reads env expiry
      → env.extra ≡ none
      → w.table r.identity ≡ some row
      → row.expires_at ≡ some expiry
      → matches_fingerprint r row.fingerprint_version row.fingerprint ≡ false
      → (e : Err) × (execute work retention env r w ≡ (err e, w)) × (is e 305 ≡ true)
  execute-mismatch env r w expiry row valid h clean held lives other = (
    errorf (errorf_two err_transaction err_mismatch),
    execute-transact env r w (failed err_mismatch) valid h.begun (
          transaction-live env r w expiry row (failed err_mismatch) h held lives
            (unfold evidence in rw (other, evidence)))
        ∙ report-mismatch env r w clean,
    is-mismatch,
  )
