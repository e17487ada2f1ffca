-- ===== src/Idempotency/Store/First.antt =====
-- The first call of a request: its answer, its evidence, and what a lost COMMIT makes of them.
use go_service_template_rest.Base.{
  ℕ, ◌+◌, ◌*◌, ◌<◌, ◌≡◌, refl, ◌∙◌, Bool, true, false, ◌∷◌, Option, none, some, Bytes,
  if◌then◌else◌, arith, eq_bytes_refl,
}
use go_service_template_rest.Base.GoError.{Err, Result, ok, err, is, errorf_two}
use go_service_template_rest.Idempotency.{
  Request, valid_request, matches_fingerprint, err_outcome_unknown,
}
use go_service_template_rest.Idempotency.Store.{
  Table, put, fresh_row, claim_query, claim_row, complete_query, complete_row, read_query,
  stored_evidence, duration_micros,
}
use go_service_template_rest.Idempotency.Store.Execute.{
  Env, Attempt, World, committed, unanswered, execute_transaction, run_round, claimed, or_next,
  execute_work, after_work, complete_work, finish_work, in_tx, report, conclude, reconcile, read,
  found, transact, execute, err_transaction, err_commit_unknown, with_extra, commit_unknown_id,
}
use go_service_template_rest.Idempotency.Store.Once.{
  Reads, row_of, execute-replays, stored_evidence-live, answer_of-match,
}

-- The call meets a writable primary and no failure before COMMIT.
pub record Runs (env : Env) : Type 0 where
  pub primary : env.writer ≡ true
  pub begun : env.begin_fault ≡ none
  pub claims : env.first.claim_fault ≡ none
  pub completes : env.complete_fault ≡ none

claim_query-empty :
    (table : Table) (r : Request) (now : ℕ)
    → table r.identity ≡ none
    → claim_query table true r now ≡ (true, put table r.identity (fresh_row r))
unfolding claim_query claim_row
claim_query-empty table r now empty = rw (empty, claim_row)

-- The table behind the claim and the update of a call.
abbrev claimed_table : Table → Request → Table
claimed_table table r = put table r.identity (fresh_row r)

abbrev pub completed_table : Table → Request → Bytes → ℕ → Table
completed_table table r encoded expiry =
    put (claimed_table table r) r.identity (row_of r encoded expiry)

complete_query-claimed :
    (table : Table) (r : Request) (encoded : Bytes) (micros now : ℕ)
    → complete_query (claimed_table table r) r encoded micros now
      ≡ (some encoded, completed_table table r encoded (now + micros * 1000))
unfolding complete_query complete_row
complete_query-claimed table r encoded micros now = rw (eq_bytes_refl r.identity, complete_row)

module _ {B : Type 0} (work : B → Result Bytes × B) (retention : ℕ) where
  -- When the evidence of a call ends.
  abbrev pub expiry_of : Env → ℕ
  expiry_of env = env.complete_at + duration_micros retention * 1000

  -- The world that a committed call leaves.
  abbrev pub done_world : Env → Request → World B → Bytes → World B
  done_world env r w encoded = record {
    table = completed_table w.table r encoded (expiry_of env);
    business = (work w.business).1;
  }

  abbrev answered : Bytes → Attempt
  answered encoded = record { result = encoded; replayed = false; failure = none }

  run_round-first :
      (env : Env) (r : Request) (w : World B) (c : ℕ) (encoded : Bytes)
      → Runs env
      → w.table r.identity ≡ none
      → (work w.business).0 ≡ ok (c ∷ encoded)
      → run_round work retention env r w env.first
        ≡ some (answered (c ∷ encoded), done_world env r w (c ∷ encoded))
  unfolding run_round claimed execute_work finish_work
  run_round-first env r w c encoded h empty worked = rw (
    h.claims,
    run_round,
    h.primary,
    claim_query-empty w.table r env.first.claim_at empty,
    claimed,
    worked,
    after_work,
    h.completes,
    complete_work,
    complete_query-claimed w.table r (c ∷ encoded) (duration_micros retention) env.complete_at,
    finish_work,
  )

  transaction-first :
      (env : Env) (r : Request) (w : World B) (c : ℕ) (encoded : Bytes)
      → Runs env
      → w.table r.identity ≡ none
      → (work w.business).0 ≡ ok (c ∷ encoded)
      → execute_transaction work retention env r w
        ≡ (answered (c ∷ encoded), done_world env r w (c ∷ encoded))
  unfolding execute_transaction or_next
  transaction-first env r w c encoded h empty worked =
      rw (run_round-first env r w c encoded h empty worked, or_next)

  done_world-row :
      (env : Env) (r : Request) (w : World B) (encoded : Bytes)
      → (done_world env r w encoded).table r.identity ≡ some (row_of r encoded (expiry_of env))
  done_world-row env r w encoded = rw (eq_bytes_refl r.identity)

  eq_self : (r : Request) → matches_fingerprint r r.fingerprint_version r.fingerprint ≡ true
  unfolding matches_fingerprint
  eq_self r = ground (arith, eq_bytes_refl r.fingerprint)

  execute-done :
      (env : Env) (r : Request) (w : World B) (c : ℕ) (encoded : Bytes)
      → valid_request r ≡ true
      → Runs env
      → w.table r.identity ≡ none
      → (work w.business).0 ≡ ok (c ∷ encoded)
      → execute work retention env r w
        ≡ report env r (in_tx env w (answered (c ∷ encoded), done_world env r w (c ∷ encoded)))
  unfolding execute transact
  execute-done env r w c encoded valid h empty worked =
      rw (valid, h.begun, transact, transaction-first env r w c encoded h empty worked)

  report-committed :
      (env : Env) (r : Request) (w v : World B) (encoded : Bytes)
      → env.commit ≡ committed
      → report env r (in_tx env w (answered encoded, v)) ≡ (ok (encoded, false), v)
  unfolding report in_tx conclude
  report-committed env r w v encoded e = rw e

  -- A call on an identity without a row runs the work once, answers its result and commits the
  -- effect with the evidence. Every later call of the request that reads before the evidence ends is
  -- answered with that result and changes nothing, whatever its own COMMIT does.
  pub execute_twice :
      (env later : Env) (r : Request) (w : World B) (c : ℕ) (encoded : Bytes)
      → valid_request r ≡ true
      → Runs env
      → env.commit ≡ committed
      → w.table r.identity ≡ none
      → (work w.business).0 ≡ ok (c ∷ encoded)
      → Reads later (expiry_of env)
      → let w' = done_world env r w (c ∷ encoded) in
        (execute work retention env r w ≡ (ok (c ∷ encoded, false), w'))
        × (execute work retention later r w' ≡ (ok (c ∷ encoded, true), w'))
  execute_twice env later r w c encoded valid h landed empty worked reads = (
    execute-done env r w c encoded valid h empty worked
        ∙ report-committed env r w (done_world env r w (c ∷ encoded)) (c ∷ encoded) landed,
    execute-replays work retention later r (done_world env r w (c ∷ encoded)) (expiry_of env)
        (row_of r (c ∷ encoded) (expiry_of env)) c encoded valid reads
        (done_world-row env r w (c ∷ encoded)) refl refl (eq_self r),
  )

  -- The read outside the transaction meets a writable primary and no failure before `expiry`.
  pub record Reconciles (env : Env) (expiry : ℕ) : Type 0 where
    pub primary : env.later_writer ≡ true
    pub reads : env.later_fault ≡ none
    pub reads_before : env.later_at < expiry

  read-done :
      (env : Env) (r : Request) (w : World B) (c : ℕ) (encoded : Bytes)
      → Reconciles env (expiry_of env)
      → read env r (done_world env r w (c ∷ encoded)) ≡ ok (c ∷ encoded)
  unfolding read
  read-done env r w c encoded h = rw (
    h.reads,
    done_world-row env r w (c ∷ encoded),
    h.primary,
    stored_evidence-live r env.later_at (expiry_of env) (row_of r (c ∷ encoded) (expiry_of env))
        refl h.reads_before,
    answer_of-match work retention r (row_of r (c ∷ encoded) (expiry_of env)) c encoded refl
        (eq_self r),
    found,
  )

  read-empty :
      (env : Env) (r : Request) (w : World B)
      → Reconciles env (expiry_of env)
      → w.table r.identity ≡ none
      → read env r w ≡ err err_outcome_unknown
  unfolding read read_query stored_evidence
  read-empty env r w h empty = rw (h.reads, empty, read_query, h.primary, found)

  abbrev unanswered_error : Env → Err → Err
  unanswered_error env e =
      errorf_two err_transaction (with_extra env.extra (errorf_two err_commit_unknown e))

  is-unanswered :
      (extra : Option Err) (e : Err)
      → is
          (errorf_two err_transaction (with_extra extra (errorf_two err_commit_unknown e)))
          commit_unknown_id
        ≡ true
  unfolding is
  is-unanswered none e = refl
  is-unanswered (some x) e = refl

  report-unanswered :
      (env : Env) (r : Request) (w v : World B) (encoded : Bytes) (e : Err) (landed : Bool)
      → env.commit ≡ unanswered e landed
      → report env r (in_tx env w (answered encoded, v)) ≡ (
          let u = if landed then v else w in (reconcile (unanswered_error env e) (read env r u), u))
  unfolding report in_tx conclude
  report-unanswered env r w v encoded e landed h = rw h (rw (is-unanswered env.extra e))

  is-outcome_unknown : (e : Err) → is (errorf_two err_outcome_unknown e) 307 ≡ true
  unfolding is
  is-outcome_unknown e = refl

  -- A call on an identity without a row meets no failure until the answer of COMMIT is lost, and
  -- the read outside the transaction meets no failure and a writable primary, before the evidence
  -- ends. If the transaction took effect, the call answers the committed result as a replay; if
  -- not, it answers `ErrOutcomeUnknown` and nothing changed. In neither case does the work run
  -- again.
  pub execute_unanswered :
      (env : Env) (r : Request) (w : World B) (c : ℕ) (encoded : Bytes) (e : Err) (landed : Bool)
      → valid_request r ≡ true
      → Runs env
      → env.commit ≡ unanswered e landed
      → Reconciles env (expiry_of env)
      → w.table r.identity ≡ none
      → (work w.business).0 ≡ ok (c ∷ encoded)
      → (lost : Err) × (is lost 307 ≡ true)
        × (execute work retention env r w ≡ (
            if landed
            then (ok (c ∷ encoded, true), done_world env r w (c ∷ encoded))
            else (err lost, w)))
  unfolding reconcile
  execute_unanswered env r w c encoded e true valid h unknown later empty worked = (
    errorf_two err_outcome_unknown (unanswered_error env e),
    is-outcome_unknown (unanswered_error env e),
    execute-done env r w c encoded valid h empty worked
        ∙ report-unanswered env r w (done_world env r w (c ∷ encoded)) (c ∷ encoded) e true unknown
        ∙ rw (read-done env r w c encoded later),
  )
  execute_unanswered env r w c encoded e false valid h unknown later empty worked = (
    errorf_two err_outcome_unknown (unanswered_error env e),
    is-outcome_unknown (unanswered_error env e),
    execute-done env r w c encoded valid h empty worked
        ∙ report-unanswered env r w (done_world env r w (c ∷ encoded)) (c ∷ encoded) e false unknown
        ∙ rw (read-empty env r w later empty),
  )
