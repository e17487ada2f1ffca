-- ===== src/Idempotency/Store/Execute.antt =====
-- `execute` and what it calls. The business state is what the work changes in the transaction.
use go_service_template_rest.Base.{
  ℕ, Bool, true, false, not, [], ◌∷◌, Option, none, some, Bytes, if◌then◌else◌,
}
use go_service_template_rest.Base.GoError.{Err, Result, ok, err, sentinel, errorf, errorf_two, is}
use go_service_template_rest.Idempotency.{
  Request, valid_request, err_unavailable, err_outcome_unknown, err_integrity,
}
use go_service_template_rest.Idempotency.Store.{
  Table, Fault, claim_query, read_query, complete_query, duration_micros, storage_failure,
  stored_evidence,
}

abbrev pub err_config : Err
err_config = sentinel 311

abbrev pub err_transaction : Err
err_transaction = sentinel 312

abbrev pub commit_unknown_id : ℕ
commit_unknown_id = 313

abbrev pub err_commit_unknown : Err
err_commit_unknown = sentinel commit_unknown_id

-- One round of the claim loop: the clock at the two queries, and their failures.
pub record Round : Type 0 where
  pub claim_at : ℕ
  pub claim_fault : Option Fault
  pub read_at : ℕ
  pub read_fault : Option Fault

-- What COMMIT does: it succeeds, it definitely fails, or its answer is lost; the flag says whether
-- the transaction then took effect.
pub data Commit : Type 0 where
  committed : Commit
  refused : Err → Commit
  unanswered : Err → Bool → Commit

-- The environment of a call: `begin_fault` for the connection and BEGIN, `extra` for the errors of
-- the rollback and of a canceled context, `later_*` for the read outside the transaction.
pub record Env : Type 0 where
  pub writer : Bool
  pub begin_fault : Option Err
  pub first : Round
  pub second : Round
  pub complete_at : ℕ
  pub complete_fault : Option Fault
  pub extra : Option Err
  pub commit : Commit
  pub later_writer : Bool
  pub later_at : ℕ
  pub later_fault : Option Fault

-- The variables that the transaction's function assigns, and its error.
pub record Attempt : Type 0 where
  pub result : Bytes
  pub replayed : Bool
  pub failure : Option Err

abbrev pub failed : Err → Attempt
failed e = record { result = []; replayed = false; failure = some e }

pub record World (B : Type 0) : Type 0 where
  pub table : Table
  pub business : B

module _ {B : Type 0} (work : B → Result Bytes × B) (retention : ℕ) where
  unfoldable pub finish_work : World B → Option Bytes → Bytes → Table → Attempt × World B
  finish_work w none encoded table = (failed err_integrity, w)
  finish_work w (some []) encoded table = (failed err_integrity, w)
  finish_work w (some (c ∷ completed)) encoded table =
      (record { result = encoded; replayed = false; failure = none }, record w { table = table })

  unfoldable pub complete_work : Env → Request → World B → Bytes → Attempt × World B
  unfolding finish_work
  complete_work env r w encoded = elim env.complete_fault [
    | some f ↦ (failed (storage_failure f), w)
    | none ↦
        let (completed, table) =
          complete_query w.table r encoded (duration_micros retention) env.complete_at in
        finish_work w completed encoded table
  ]

  unfoldable pub after_work : Env → Request → World B → Result Bytes → Attempt × World B
  unfolding complete_work
  after_work env r w (err e) = (failed e, w)
  after_work env r w (ok encoded) = complete_work env r w encoded

  -- `executeWork`, in a table that holds the claim.
  unfoldable pub execute_work : Env → Request → World B → Attempt × World B
  unfolding after_work
  execute_work env r w =
      let (answer, business) = work w.business in
      after_work env r (record w { business = business }) answer

  -- What a round does with the stored evidence; `none` goes on to the next round.
  unfoldable pub evidence : World B → Result (Option Bytes) → Option (Attempt × World B)
  evidence w (err e) = some (failed e, w)
  evidence w (ok (some result)) =
      some (record { result = result; replayed = true; failure = none }, w)
  evidence w (ok none) = none

  unfoldable pub read_round : Env → Request → World B → Round → Option (Attempt × World B)
  unfolding evidence
  read_round env r w round = elim round.read_fault [
    | some f ↦ some (failed (storage_failure f), w)
    | none ↦
        evidence w (stored_evidence r (read_query env.writer round.read_at (w.table r.identity)))
  ]

  unfoldable pub claimed :
      Env → Request → World B → Round → Bool × Table → Option (Attempt × World B)
  unfolding execute_work read_round
  claimed env r w round (true, table) = some (execute_work env r (record w { table = table }))
  claimed env r w round (false, table) = read_round env r (record w { table = table }) round

  -- One round of the loop of `executeTransaction`.
  unfoldable pub run_round : Env → Request → World B → Round → Option (Attempt × World B)
  unfolding claimed
  run_round env r w round = elim round.claim_fault [
    | some f ↦ some (failed (storage_failure f), w)
    | none ↦ claimed env r w round (claim_query w.table env.writer r round.claim_at)
  ]

  unfoldable pub or_next : Option (Attempt × World B) → Attempt × World B → Attempt × World B
  or_next none next = next
  or_next (some this) next = this

  -- `executeTransaction`. A round that goes on has changed nothing.
  unfoldable pub execute_transaction : Env → Request → World B → Attempt × World B
  unfolding or_next
  execute_transaction env r w =
      or_next (run_round env r w env.first)
        (or_next (run_round env r w env.second) (failed err_unavailable, w))

abbrev pub with_extra : Option Err → Err → Err
with_extra none e = e
with_extra (some x) e = errorf_two e x

-- What `InTx` returns, and whether the transaction took effect.
abbrev pub commit_result : Option Err → Commit → Option Err × Bool
commit_result extra committed = (none, true)
commit_result extra (refused e) = (some (errorf_two err_transaction (with_extra extra e)), false)
commit_result extra (unanswered e landed) =
    (some (errorf_two err_transaction (with_extra extra (errorf_two err_commit_unknown e))), landed)

abbrev pub settle_failure : Env → Attempt → Option Err × Bool
settle_failure env a = elim a.failure [
  | some e ↦ (some (errorf_two err_transaction (with_extra env.extra e)), false)
  | none ↦ commit_result env.extra env.commit
]

unfoldable pub found : Result (Option Bytes) → Result Bytes
found (err e) = err e
found (ok none) = err err_outcome_unknown
found (ok (some result)) = ok result

unfoldable pub reconcile : Err → Result Bytes → Result (Bytes × Bool)
reconcile e (ok stored) = ok (stored, true)
reconcile e (err lost) = err (errorf_two err_outcome_unknown e)

module _ {B : Type 0} where
  -- `InTx` on a function that has run: its error or COMMIT's, and the world that remains.
  unfoldable pub in_tx : Env → World B → Attempt × World B → Attempt × World B
  in_tx env w (a, inside) =
      let (failure, landed) = settle_failure env a in
      (record a { failure = failure }, if landed then inside else w)

  -- `read`, outside the transaction.
  unfoldable pub read : Env → Request → World B → Result Bytes
  unfolding found
  read env r w = elim env.later_fault [
    | some f ↦ err (storage_failure f)
    | none ↦
        found (stored_evidence r (read_query env.later_writer env.later_at (w.table r.identity)))
  ]

  unfoldable pub conclude : Env → Request → World B → Attempt → Option Err → Result (Bytes × Bool)
  unfolding reconcile read is
  conclude env r w a none = ok (a.result, a.replayed)
  conclude env r w a (some e) =
      if a.replayed
      then ok (a.result, true)
      else if not (is e commit_unknown_id)
      then err (errorf e)
      else reconcile e (read env r w)

  -- `execute` behind its call of `InTx`.
  unfoldable pub report : Env → Request → Attempt × World B → Result (Bytes × Bool) × World B
  unfolding conclude
  report env r (a, w) = (conclude env r w a a.failure, w)

module _ {B : Type 0} (work : B → Result Bytes × B) (retention : ℕ) where
  -- `InTx`: the transaction's function runs once the connection is there and BEGIN has succeeded.
  unfoldable pub transact : Env → Request → World B → Option Err → Attempt × World B
  unfolding execute_transaction in_tx
  transact env r w (some e) = (failed (errorf_two err_transaction e), w)
  transact env r w none = in_tx env w (execute_transaction work retention env r w)

  -- `execute` of a store with a pool.
  unfoldable pub execute : Env → Request → World B → Result (Bytes × Bool) × World B
  unfolding transact report
  execute env r w =
      if not (valid_request r)
      then (err (errorf err_config), w)
      else report env r (transact env r w env.begin_fault)
