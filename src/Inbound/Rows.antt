-- ===== src/Inbound/Rows.antt =====
-- The receipts of internal/infra/postgresinboundwebhook/worker.go behind an UPDATE.
use go_service_template_rest.Base.{
  some-injective, ◌≡◌, inl, inr, refl, sym, ap, ◌∙◌, subst, true, false, List, [], ◌∷◌, some, Bytes,
  eq_bytes, Bool-cases,
}
use go_service_template_rest.Inbound.Worker.{
  State, pending, handled, quarantined, failed, StoredReceipt, is_pending, load_by_id, settled_as,
  mark_rows,
}

load_by_id-here :
    (x : StoredReceipt) (rows : List StoredReceipt) (id : Bytes)
    → eq_bytes x.receipt_id id ≡ true
    → load_by_id (x ∷ rows) id ≡ some x
unfolding load_by_id
load_by_id-here x rows id h = rw h refl

load_by_id-there :
    (x : StoredReceipt) (rows : List StoredReceipt) (id : Bytes)
    → eq_bytes x.receipt_id id ≡ false
    → load_by_id (x ∷ rows) id ≡ load_by_id rows id
unfolding load_by_id
load_by_id-there x rows id h = rw h refl

settled_as-receipt_id :
    (new : State) (r : StoredReceipt) → (settled_as new r).receipt_id ≡ r.receipt_id
unfolding settled_as
settled_as-receipt_id pending r = refl
settled_as-receipt_id handled r = refl
settled_as-receipt_id quarantined r = refl
settled_as-receipt_id failed r = refl

mark_rows-here :
    (new : State) (x : StoredReceipt) (rows : List StoredReceipt) (id : Bytes)
    → eq_bytes x.receipt_id id ≡ true
    → is_pending x.state ≡ true
    → mark_rows new (x ∷ rows) id ≡ settled_as new x ∷ mark_rows new rows id
unfolding mark_rows
mark_rows-here new x rows id e waiting = rw (e, waiting) refl

mark_rows-there :
    (new : State) (x : StoredReceipt) (rows : List StoredReceipt) (id : Bytes)
    → eq_bytes x.receipt_id id ≡ false
    → mark_rows new (x ∷ rows) id ≡ x ∷ mark_rows new rows id
unfolding mark_rows
mark_rows-there new x rows id e = rw e refl

-- A marked receipt is read back as it was settled.
pub load_by_id-mark_rows :
    (new : State) (rows : List StoredReceipt) (id : Bytes) (r : StoredReceipt)
    → load_by_id rows id ≡ some r
    → is_pending r.state ≡ true
    → load_by_id (mark_rows new rows id) id ≡ some (settled_as new r)
unfolding load_by_id mark_rows
load_by_id-mark_rows new [] id r h waiting = cc
load_by_id-mark_rows new (x ∷ rows) id r h waiting = elim (Bool-cases (eq_bytes x.receipt_id id)) [
  | inl e ↦
      let same : x ≡ r = some-injective x r (sym (load_by_id-here x rows id e) ∙ h) in
      let waits : is_pending x.state ≡ true =
        subst (λ y. is_pending y.state ≡ true) (sym same) waiting in
      ap (λ marks. load_by_id marks id) (mark_rows-here new x rows id e waits)
      ∙ load_by_id-here (settled_as new x) (mark_rows new rows id) id
          (ap (λ name. eq_bytes name id) (settled_as-receipt_id new x) ∙ e)
      ∙ ap (λ y. some (settled_as new y)) same
  | inr e ↦
      ap (λ marks. load_by_id marks id) (mark_rows-there new x rows id e)
      ∙ load_by_id-there x (mark_rows new rows id) id e
      ∙ load_by_id-mark_rows new rows id r (sym (load_by_id-there x rows id e) ∙ h) waiting
]
