-- ===== src/Inbound/Repeat.antt =====
-- A claim of an identity that has a receipt, through COMMIT to the answer: internal/infra/postgresinboundwebhook/receiver.go.
use go_service_template_rest.Base.{
  ◌≡◌, ◌≢◌, ◌⊎◌, inl, inr, refl, subst, Bool, true, false, List, ◌∷◌, Option, none, some, Bytes,
  if◌then◌else◌, eq_bytes, eq_bytes_refl, eq_bytes→eq, Bool-cases,
}
use go_service_template_rest.Base.GoError.{Err, Result, ok, err}
use go_service_template_rest.Idempotency.Store.Execute.{
  Commit, committed, refused, unanswered, commit_result,
}
use go_service_template_rest.Inbound.{Outcome, duplicate, conflict}
use go_service_template_rest.Inbound.Receiver.{
  Receipt, Database, ReceiveCall, Answer, find_receipt, existing_receipt, claim_receipt, accept_in,
  committed_as, close_tx, accept_begun, accept, received,
}

-- An error, or the comparison of the digest that was recorded with the one that came.
abbrev pub Compared : Bytes → Bytes → Result Outcome → Type 0
Compared recorded came result =
    ((e : Err) × (result ≡ err e))
    ⊎ (((result ≡ ok duplicate) × (recorded ≡ came)) ⊎ ((result ≡ ok conflict) × (recorded ≢ came)))

-- The database is left, and the answer is of that kind.
abbrev pub IsRepeat : Receipt → Receipt → Database → Answer → Type 0
IsRepeat existing r db answer =
    (answer.1 ≡ db) × Compared existing.body_sha256 r.body_sha256 answer.0

eq_bytes-apart : (s t : Bytes) → eq_bytes s t ≡ false → s ≢ t
eq_bytes-apart s t h e =
    let same : eq_bytes s t ≡ true = subst (λ x. eq_bytes s x ≡ true) e (eq_bytes_refl s) in cc

module _ (call : ReceiveCall) (r existing : Receipt) (db : Database) where
  existing_receipt-IsRepeat :
      (fault : Option Err) → IsRepeat existing r db (existing_receipt fault r existing db)
  unfolding existing_receipt
  existing_receipt-IsRepeat (some e) = (refl, inl (_, refl))
  existing_receipt-IsRepeat none = elim (Bool-cases (eq_bytes existing.body_sha256 r.body_sha256)) [
    | inl h ↦ (refl, inr (inl (rw h refl, eq_bytes→eq _ _ h)))
    | inr h ↦ (refl, inr (inr (rw h refl, eq_bytes-apart _ _ h)))
  ]

  accept_in-IsRepeat :
      find_receipt db.receipts r.endpoint_id r.delivery_id ≡ some existing
      → (fault : Option Err) → IsRepeat existing r db (accept_in call r db fault)
  unfolding accept_in claim_receipt
  accept_in-IsRepeat found (some e) = (refl, inl (_, refl))
  accept_in-IsRepeat found none = rw found (existing_receipt-IsRepeat call.read_fault)

  -- COMMIT keeps the answer or turns it into an error, and there is nothing to commit.
  committed-IsRepeat :
      (outcome : Outcome) (extra : Option Err) (commit : Commit)
      → Compared existing.body_sha256 r.body_sha256 (ok outcome)
      → Compared existing.body_sha256 r.body_sha256
          (committed_as outcome (commit_result extra commit).0)
  unfolding committed_as
  committed-IsRepeat outcome extra committed h = h
  committed-IsRepeat outcome extra (refused e) h = inl (_, refl)
  committed-IsRepeat outcome extra (unanswered e landed) h = inl (_, refl)

  same-database :
      (landed : Bool) (inside : Database) → inside ≡ db → (if landed then inside else db) ≡ db
  same-database true inside h = h
  same-database false inside h = refl

  close_tx-IsRepeat :
      (answer : Answer)
      → IsRepeat existing r db answer
      → IsRepeat existing r db (close_tx call db answer)
  unfolding close_tx
  close_tx-IsRepeat (err e, inside) h = (refl, inl (_, refl))
  close_tx-IsRepeat (ok outcome, inside) (same, h) = (
    same-database (commit_result call.extra call.commit).1 inside same,
    committed-IsRepeat outcome call.extra call.commit h,
  )

  accept_begun-IsRepeat :
      find_receipt db.receipts r.endpoint_id r.delivery_id ≡ some existing
      → (fault : Option Err) → IsRepeat existing r db (accept_begun call r db fault)
  unfolding accept_begun
  accept_begun-IsRepeat found (some e) = (refl, inl (_, refl))
  accept_begun-IsRepeat found none = close_tx-IsRepeat _ (accept_in-IsRepeat found call.claim_fault)

  received-IsRepeat :
      (answer : Answer) → IsRepeat existing r db answer → IsRepeat existing r db (received answer)
  unfolding received
  received-IsRepeat (err e, inside) (same, h) = (same, inl (_, refl))
  received-IsRepeat (ok outcome, inside) h = h

  pub accept-IsRepeat :
      find_receipt db.receipts r.endpoint_id r.delivery_id ≡ some existing
      → IsRepeat existing r db (received (accept call r db))
  unfolding accept
  accept-IsRepeat found = received-IsRepeat _ (accept_begun-IsRepeat found call.begin_fault)

-- The receipt that was just recorded is the one of its identity.
pub find_receipt-first :
    (r : Receipt) (receipts : List Receipt)
    → find_receipt (r ∷ receipts) r.endpoint_id r.delivery_id ≡ some r
unfolding find_receipt
find_receipt-first r receipts = rw (eq_bytes_refl r.endpoint_id, eq_bytes_refl r.delivery_id) refl
