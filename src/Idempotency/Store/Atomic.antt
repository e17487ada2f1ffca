-- ===== src/Idempotency/Store/Atomic.antt =====
-- The business effect and its evidence are committed together or not at all.
use go_service_template_rest.Base.{
  ℕ, ◌≡◌, refl, ◌⊎◌, inl, inr, Bool, true, false, not, [], ◌∷◌, Option, none, some, Bytes, is_some,
  is_none, arith, eq_bytes_refl, if_cases, Bool-cases,
}
use go_service_template_rest.Base.GoError.{Err, Result, ok, err}
use go_service_template_rest.Idempotency.{Request, valid_request}
use go_service_template_rest.Idempotency.Store.{
  Row, Table, put, claim_query, claim_row, complete_query, complete_row, Fault,
}
use go_service_template_rest.Idempotency.Store.Execute.{
  Env, Round, Attempt, World, execute_transaction, run_round, claimed, read_round, evidence,
  execute_work, after_work, complete_work, finish_work, or_next, in_tx, report, transact, execute,
  settle_failure,
}

put_self : (table : Table) (key : Bytes) (row : Row) → put table key row key ≡ some row
put_self table key row = ground (arith, eq_bytes_refl key)

-- The row that a completed update leaves.
record Completed (r : Request) (encoded : Bytes) (table : Table) : Type 0 where
  row : Row
  stored : table r.identity ≡ some row
  kept : row.result ≡ some encoded

complete_row-some :
    (table : Table) (r : Request) (encoded completed : Bytes) (expiry : ℕ) (o : Option Row)
    → (complete_row table r encoded expiry o).0 ≡ some completed
    → Completed r encoded (complete_row table r encoded expiry o).1
unfolding complete_row
complete_row-some table r encoded completed expiry none h = absurd (ground arith)
complete_row-some table r encoded completed expiry (some row) h =
    elim (Bool-cases (is_none row.result)) [
      | inl open_row ↦
          rw open_row (record { row = _; stored = put_self table r.identity _; kept = refl })
      | inr done_row ↦ absurd (ground arith)
    ]

module _ {B : Type 0} (work : B → Result Bytes × B) (retention : ℕ) where
  -- The work ran once on the state of `w`, and `w'` holds its effect and its result as evidence.
  pub record Done (r : Request) (w w' : World B) : Type 0 where
    pub encoded : Bytes
    pub answered : (work w.business).0 ≡ ok encoded
    pub effect : w'.business ≡ (work w.business).1
    pub row : Row
    pub stored : w'.table r.identity ≡ some row
    pub evidence_kept : row.result ≡ some encoded

  -- What a run of the transaction's function leaves: it failed, it replayed and changed nothing, or
  -- the work is done.
  data Left (r : Request) (w : World B) (a : Attempt) (w' : World B) : Type 0 where
    gave_up : is_some a.failure ≡ true → Left r w a w'
    replay : w' ≡ w → Left r w a w'
    did : Done r w w' → Left r w a w'

  -- `out` is an attempt and the world that it leaves.
  abbrev LeftBy : Request → World B → Attempt × World B → Type 0
  LeftBy r w out = Left r w out.0 out.1

  finish_work-LeftBy :
      (r : Request) (w v : World B) (encoded : Bytes) (o : Option Bytes) (table : Table)
      → (work w.business).0 ≡ ok encoded
      → v.business ≡ (work w.business).1
      → ((completed : Bytes) → o ≡ some completed → Completed r encoded table)
      → LeftBy r w (finish_work work retention v o encoded table)
  unfolding finish_work
  finish_work-LeftBy r w v encoded none table answered effect updated = gave_up refl
  finish_work-LeftBy r w v encoded (some []) table answered effect updated = gave_up refl
  finish_work-LeftBy r w v encoded (some (c ∷ cs)) table answered effect updated =
      let done = updated (c ∷ cs) refl in
      did (record {
        encoded = encoded;
        answered = answered;
        effect = effect;
        row = done.row;
        stored = done.stored;
        evidence_kept = done.kept;
      })

  complete_work-LeftBy :
      (env : Env) (r : Request) (w v : World B) (encoded : Bytes) (fault : Option Fault)
      → env.complete_fault ≡ fault
      → (work w.business).0 ≡ ok encoded
      → v.business ≡ (work w.business).1
      → LeftBy r w (complete_work work retention env r v encoded)
  unfolding complete_work complete_query
  complete_work-LeftBy env r w v encoded (some f) e answered effect =
      rw (e, complete_work) (gave_up refl)
  complete_work-LeftBy env r w v encoded none e answered effect =
      rw (e, complete_work)
        (finish_work-LeftBy r w v encoded _ _ answered effect
          λ completed. complete_row-some v.table r encoded completed _ (v.table r.identity))

  execute_work-LeftBy :
      (env : Env) (r : Request) (w v : World B) (answer : Result Bytes)
      → (work w.business).0 ≡ answer
      → v.business ≡ (work w.business).1
      → LeftBy r w (after_work work retention env r v answer)
  unfolding after_work
  execute_work-LeftBy env r w v (err e) answered effect = gave_up refl
  execute_work-LeftBy env r w v (ok encoded) answered effect =
      complete_work-LeftBy env r w v encoded env.complete_fault refl answered effect

  -- What a round leaves, if it ends the loop.
  abbrev RoundLeft : Request → World B → Option (Attempt × World B) → Type 0
  RoundLeft r w none = Unit {0}
  RoundLeft r w (some out) = LeftBy r w out

  evidence-RoundLeft :
      (r : Request) (w : World B) (found : Result (Option Bytes))
      → RoundLeft r w (evidence work retention w found)
  unfolding evidence
  evidence-RoundLeft r w (err e) = gave_up refl
  evidence-RoundLeft r w (ok none) = tt
  evidence-RoundLeft r w (ok (some result)) = replay refl

  read_round-RoundLeft :
      (env : Env) (r : Request) (w : World B) (round : Round) (fault : Option Fault)
      → round.read_fault ≡ fault
      → RoundLeft r w (read_round work retention env r w round)
  unfolding read_round
  read_round-RoundLeft env r w round (some f) e = rw (e, read_round) (gave_up refl)
  read_round-RoundLeft env r w round none e = rw (e, read_round) (evidence-RoundLeft r w _)

  claim_row-kept :
      (table : Table) (r : Request) (now : ℕ) (o : Option Row)
      → (claim_row table r now o).0 ≡ false
      → (claim_row table r now o).1 ≡ table
  unfolding claim_row
  claim_row-kept table r now none h = ground arith
  claim_row-kept table r now (some row) h = ground arith

  claim_query-kept :
      (table : Table) (writer : Bool) (r : Request) (now : ℕ)
      → (claim_query table writer r now).0 ≡ false
      → (claim_query table writer r now).1 ≡ table
  unfolding claim_query
  claim_query-kept table true r now h = claim_row-kept table r now (table r.identity) h
  claim_query-kept table false r now h = refl

  claimed-RoundLeft :
      (env : Env) (r : Request) (w : World B) (round : Round) (won : Bool) (table : Table)
      → (won ≡ false → table ≡ w.table)
      → RoundLeft r w (claimed work retention env r w round (won, table))
  unfolding claimed execute_work
  claimed-RoundLeft env r w round true table kept =
      execute_work-LeftBy env r w _ (work w.business).0 refl refl
  claimed-RoundLeft env r w round false table kept =
      rw (kept refl) (read_round-RoundLeft env r w round round.read_fault refl)

  run_round-RoundLeft :
      (env : Env) (r : Request) (w : World B) (round : Round) (fault : Option Fault)
      → round.claim_fault ≡ fault
      → RoundLeft r w (run_round work retention env r w round)
  unfolding run_round
  run_round-RoundLeft env r w round (some f) e = rw (e, run_round) (gave_up refl)
  run_round-RoundLeft env r w round none e =
      rw (e, run_round)
        (claimed-RoundLeft env r w round (claim_query w.table env.writer r round.claim_at).0 _
          (claim_query-kept w.table env.writer r round.claim_at))

  or_next-LeftBy :
      (r : Request) (w : World B) (o : Option (Attempt × World B)) (next : Attempt × World B)
      → RoundLeft r w o
      → LeftBy r w next
      → LeftBy r w (or_next work retention o next)
  unfolding or_next
  or_next-LeftBy r w none next this that = that
  or_next-LeftBy r w (some out) next this that = this

  execute_transaction-LeftBy :
      (env : Env) (r : Request) (w : World B)
      → LeftBy r w (execute_transaction work retention env r w)
  unfolding execute_transaction
  execute_transaction-LeftBy env r w =
      or_next-LeftBy r w _ _ (run_round-RoundLeft env r w env.first env.first.claim_fault refl) (
        or_next-LeftBy r w _ _ (run_round-RoundLeft env r w env.second env.second.claim_fault refl)
          (gave_up refl))

  -- Nothing changed, or the work is done with its evidence.
  abbrev pub Atomic : Request → World B → World B → Type 0
  Atomic r w w' = (w' ≡ w) ⊎ Done r w w'

  in_tx-Atomic :
      (env : Env) (r : Request) (w : World B) (a : Attempt) (inside : World B)
      → Left r w a inside
      → Atomic r w (in_tx env w (a, inside)).1
  unfolding in_tx
  in_tx-Atomic env r w a inside (gave_up h) = inl (ground arith)
  in_tx-Atomic env r w a inside (replay same) =
      inl (if_cases (λ v. v ≡ w) (settle_failure env a).1 inside w (λ _. same) (λ _. refl))
  in_tx-Atomic env r w a inside (did done) =
      if_cases (Atomic r w) (settle_failure env a).1 inside w (λ _. inr done) (λ _. inl refl)

  report-world : (env : Env) (r : Request) (out : Attempt × World B) → (report env r out).1 ≡ out.1
  unfolding report
  report-world env r (a, w) = refl

  transact-Atomic :
      (env : Env) (r : Request) (w : World B) (fault : Option Err)
      → Atomic r w (transact work retention env r w fault).1
  unfolding transact
  transact-Atomic env r w (some e) = inl refl
  transact-Atomic env r w none =
      let out = execute_transaction work retention env r w in
      in_tx-Atomic env r w out.0 out.1 (execute_transaction-LeftBy env r w)

  -- Whatever fails in a call, and wherever: afterwards the database is as it was, or the work has
  -- taken effect exactly once and the row of the request's identity holds the result that it gave.
  pub execute-Atomic :
      (env : Env) (r : Request) (w : World B) → Atomic r w (execute work retention env r w).1
  unfolding execute
  execute-Atomic env r w =
      if_cases (λ (out : Result (Bytes × Bool) × World B). Atomic r w out.1) (not (valid_request r))
        _ _ (λ _. inl refl) (λ _. rw report-world (transact-Atomic env r w env.begin_fault))
