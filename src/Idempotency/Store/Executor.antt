-- ===== src/Idempotency/Store/Executor.antt =====
-- The executor that `NewExecutor` returns: `execute` between the codec's two directions.
use go_service_template_rest.Base.{
  ℕ, ◌≡◌, ◌≢◌, refl, Bool, true, false, [], ◌∷◌, Option, none, some, Bytes,
}
use go_service_template_rest.Base.Int.{ℤ}
use go_service_template_rest.Base.GoError.{Err, Result, ok, err, ◌>>=◌, errorf}
use go_service_template_rest.Idempotency.{Request, valid_request, err_integrity}
use go_service_template_rest.Idempotency.Codec.{Json, StoredResult, same_json, encode, decode}
use go_service_template_rest.Idempotency.Replay.{decode-encode}
use go_service_template_rest.Idempotency.Store.Execute.{Env, World, committed, execute}
use go_service_template_rest.Idempotency.Store.Once.{Reads}
use go_service_template_rest.Idempotency.Store.First.{Runs, expiry_of, execute_twice}

-- The response, `replayed` and the error; the response is read where the error is nil.
pub record Answer (Response : Type 0) : Type 0 where
  pub response : Option Response
  pub replayed : Bool
  pub failure : Option Err

-- The answer of a call whose response was read.
abbrev pub responded : {Response : Type 0} → Response → Bool → Answer Response
responded response replayed = record {
  response = some response;
  replayed = replayed;
  failure = none;
}

module _ {Response : Type 0} (json : Json Response) (status : ℤ) where
  unfoldable pub decoded : Bool → Result Response → Answer Response
  decoded replayed (ok response) = record {
    response = some response;
    replayed = replayed;
    failure = none;
  }
  decoded true (err e) = record {
    response = none;
    replayed = true;
    failure = some (errorf err_integrity);
  }
  decoded false (err e) = record { response = none; replayed = false; failure = some (errorf e) }

  unfoldable pub answer : Result (Bytes × Bool) → Answer Response
  unfolding decoded
  answer (err e) = record { response = none; replayed = false; failure = some (errorf e) }
  answer (ok (result, replayed)) = decoded replayed (decode json status result)

module _ {B Response : Type 0} (json : Json Response) (status : ℤ) where
  -- The work as the store runs it: its response is encoded in the transaction.
  abbrev pub encoded_work : (B → Result Response × B) → B → Result Bytes × B
  encoded_work work b = let (response, after) = work b in (response >>= encode json status, after)

  unfoldable pub executor :
      (B → Result Response × B) → ℕ → Env → Request → World B → Answer Response × World B
  unfolding answer
  executor work retention env r w =
      let (out, w') = execute (encoded_work work) retention env r w in (answer json status out, w')

  -- Two calls of one request, the second while the evidence of the first lives. The work gives a
  -- response that the codec takes; encoding/json reads a stored result back from what it wrote,
  -- which is never empty. Then both calls answer with one and the same response, without an
  -- error, the second as a replay; its JSON is that of the response of the work; and the business
  -- state behind both is the one that a single run of the work leaves.
  pub executor_twice :
      ((s : StoredResult) (encoded : Bytes)
        → json.marshal_stored s ≡ ok encoded
        → json.unmarshal_stored encoded ≡ ok s)
      → ((s : StoredResult) (encoded : Bytes) → json.marshal_stored s ≡ ok encoded → encoded ≢ [])
      → (work : B → Result Response × B) (retention : ℕ) (env later : Env) (r : Request)
        (w : World B) (response : Response) (c : ℕ) (encoded : Bytes)
      → valid_request r ≡ true
      → Runs env
      → env.commit ≡ committed
      → w.table r.identity ≡ none
      → (work w.business).0 ≡ ok response
      → encode json status response ≡ ok (c ∷ encoded)
      → Reads later (expiry_of (encoded_work work) retention env)
      → let once = executor work retention env r w in
        let twice = executor work retention later r once.1 in
        (body : Bytes) × (given : Response) × (again : Bytes) × (json.marshal response ≡ ok body)
        × (json.marshal given ≡ ok again)
        × (same_json json body again ≡ true)
        × (once.0 ≡ responded given false)
        × (twice.0 ≡ responded given true)
        × (once.1.business ≡ (work w.business).1)
        × (twice.1.business ≡ (work w.business).1)
  unfolding executor answer decoded
  executor_twice restored filled work retention env later r w response c encoded valid h landed
        empty worked stored reads =
      let (first, second) =
        execute_twice (encoded_work work) retention env later r w c encoded valid h landed empty
          (rw worked stored) reads in
      let (body, given, again, written, decodes, rewritten, same) =
        decode-encode json restored filled status response (c ∷ encoded) stored in
      (
        body,
        given,
        again,
        written,
        rewritten,
        same,
        rw (first, decodes) refl,
        rw (first, second, decodes) refl,
        rw first refl,
        rw (first, second) refl,
      )
