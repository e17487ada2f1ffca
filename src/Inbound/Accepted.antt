-- ===== src/Inbound/Accepted.antt =====
-- What follows a delivery that was accepted: internal/infra/postgresinboundwebhook/receiver.go.
use go_service_template_rest.Base.{
  ◌≡◌, ◌≢◌, refl, sym, ap, Bool, true, false, ◌∷◌, Option, none, some, if◌then◌else◌, eq_bytes,
}
use go_service_template_rest.Base.Int.{ℤ}
use go_service_template_rest.Base.GoError.{Err, Result, ok, err}
use go_service_template_rest.Idempotency.Store.Execute.{
  Commit, committed, refused, unanswered, commit_result,
}
use go_service_template_rest.Inbound.{
  Delivery, Outcome, accepted, duplicate, conflict, EndpointSecrets, TrustManifest, Standard,
}
use go_service_template_rest.Inbound.Receiver.{
  Receipt, Database, ReceiveCall, Answer, find_receipt, claimed_receipt, existing_receipt,
  claim_receipt, accept_in, committed_as, close_tx, accept_begun, accept, received, verify_delivery,
  receipt_of, receive_verified, receive_known,
}

-- A database with the receipt and its job.
abbrev pub with_receipt : Receipt → Database → Database
with_receipt r db = record { receipts = r ∷ db.receipts; jobs = r.receipt_id ∷ db.jobs }

claimed_receipt-accepted :
    (fault : Option Err) (r : Receipt) (db inside : Database)
    → claimed_receipt fault r db ≡ (ok accepted, inside)
    → inside ≡ with_receipt r db
unfolding claimed_receipt
claimed_receipt-accepted (some e) r db inside h = cc
claimed_receipt-accepted none r db inside h = sym (ap (λ a. a.1) h)

not-accepted :
    (b : Bool) → ◌≢◌ {A = Result Outcome} (ok (if b then duplicate else conflict)) (ok accepted)
not-accepted true h = cc
not-accepted false h = cc

-- A claim that found the identity accepts nothing and changes nothing.
existing_receipt-kept :
    (fault : Option Err) (r existing : Receipt) (db : Database)
    → (existing_receipt fault r existing db).1 ≡ db
unfolding existing_receipt
existing_receipt-kept (some e) r existing db = refl
existing_receipt-kept none r existing db = refl

existing_receipt-not_accepted :
    (fault : Option Err) (r existing : Receipt) (db : Database)
    → (existing_receipt fault r existing db).0 ≢ ok accepted
unfolding existing_receipt
existing_receipt-not_accepted (some e) r existing db h = cc
existing_receipt-not_accepted none r existing db h =
    not-accepted (eq_bytes existing.body_sha256 r.body_sha256) h

claim_receipt-accepted :
    (call : ReceiveCall) (r : Receipt) (db inside : Database) (found : Option Receipt)
    → claim_receipt call r db found ≡ (ok accepted, inside)
    → inside ≡ with_receipt r db
unfolding claim_receipt
claim_receipt-accepted call r db inside none h =
    claimed_receipt-accepted call.insert_fault r db inside h
claim_receipt-accepted call r db inside (some existing) h =
    absurd (existing_receipt-not_accepted call.read_fault r existing db (ap (λ a. a.0) h))

accept_in-accepted :
    (call : ReceiveCall) (r : Receipt) (db inside : Database) (fault : Option Err)
    → accept_in call r db fault ≡ (ok accepted, inside)
    → inside ≡ with_receipt r db
unfolding accept_in
accept_in-accepted call r db inside (some e) h = cc
accept_in-accepted call r db inside none h =
    claim_receipt-accepted call r db inside (find_receipt db.receipts r.endpoint_id r.delivery_id) h

-- What COMMIT leaves, by how it ended.
abbrev committed_answer : Outcome → Option Err × Bool → Database → Database → Answer
committed_answer outcome (failure, landed) inside db =
    (committed_as outcome failure, if landed then inside else db)

committed_answer-accepted :
    (outcome : Outcome) (extra : Option Err) (commit : Commit) (inside db after : Database)
    → committed_answer outcome (commit_result extra commit) inside db ≡ (ok accepted, after)
    → ◌≡◌ {A = Answer} (ok outcome, inside) (ok accepted, after)
unfolding committed_as
committed_answer-accepted outcome extra committed inside db after h = h
committed_answer-accepted outcome extra (refused e) inside db after h = cc
committed_answer-accepted outcome extra (unanswered e landed) inside db after h = cc

close_tx-accepted :
    (call : ReceiveCall) (db after : Database) (answer : Answer)
    → close_tx call db answer ≡ (ok accepted, after)
    → answer ≡ (ok accepted, after)
unfolding close_tx
close_tx-accepted call db after (err e, inside) h = cc
close_tx-accepted call db after (ok outcome, inside) h =
    committed_answer-accepted outcome call.extra call.commit inside db after h

accept_begun-accepted :
    (call : ReceiveCall) (r : Receipt) (db after : Database) (fault : Option Err)
    → accept_begun call r db fault ≡ (ok accepted, after)
    → after ≡ with_receipt r db
unfolding accept_begun
accept_begun-accepted call r db after (some e) h = cc
accept_begun-accepted call r db after none h =
    accept_in-accepted call r db after call.claim_fault
      (close_tx-accepted call db after (accept_in call r db call.claim_fault) h)

received-accepted :
    (answer : Answer) (after : Database)
    → received answer ≡ (ok accepted, after)
    → answer ≡ (ok accepted, after)
unfolding received
received-accepted (err e, db) after h = cc
received-accepted (ok outcome, db) after h = h

module _ (standard : Standard) (trust : TrustManifest) (call : ReceiveCall) (d : Delivery)
    (db after : Database) where
  receive_verified-accepted :
      (verdict : Option ℤ)
      → receive_verified standard trust call d db verdict ≡ (ok accepted, after)
      → (signed_at : ℤ) × (verdict ≡ some signed_at)
        × (after ≡ with_receipt (receipt_of standard trust call d signed_at) db)
  unfolding receive_verified accept
  receive_verified-accepted none h = cc
  receive_verified-accepted (some signed_at) h =
      let r = receipt_of standard trust call d signed_at in
      (
        signed_at,
        refl,
        accept_begun-accepted call r db after call.begin_fault
            (received-accepted (accept call r db) after h),
      )

  pub receive_known-accepted :
      (known : Option EndpointSecrets)
      → receive_known standard trust call d db known ≡ (ok accepted, after)
      → (secrets : EndpointSecrets) × (known ≡ some secrets)
        × (signed_at : ℤ) × (verify_delivery standard trust secrets d call.now ≡ some signed_at)
        × (after ≡ with_receipt (receipt_of standard trust call d signed_at) db)
  unfolding receive_known
  receive_known-accepted none h = cc
  receive_known-accepted (some secrets) h =
      let (signed_at, verified, recorded) =
        receive_verified-accepted (verify_delivery standard trust secrets d call.now) h in
      (secrets, refl, signed_at, verified, recorded)
