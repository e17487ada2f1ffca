-- ===== src/Idempotency/Store/Cleanup/Ends.antt =====
-- That `Cleanup` ends, and what it then has done: internal/infra/postgresidempotency/store.go.
use go_service_template_rest.Base.{
  ℕ, zero, suc, ◌+◌, ◌≤◌, ◌<◌, ◌≡◌, ◌⊎◌, inl, inr, refl, ◌∙◌, subst, true, false, ◌&&◌, List, [],
  ◌∷◌, Option, none, some, Bytes, ltb, length, Bool-cases, arith, ltb→lt,
}
use go_service_template_rest.Base.GoError.{Err}
use go_service_template_rest.Idempotency.Store.{Table, Fault, storage_failure}
use go_service_template_rest.Idempotency.Store.Cleanup.{
  Batch, row_expired, has_identity, delete_rows, cleanup_query, cleanup_batch_size, Swept, queried,
  cleanup_batch, cleanup_from, cleanup,
}
use go_service_template_rest.Idempotency.Store.Cleanup.Expired.{
  present, chosen, Left, fewer-present, delete_rows-Left, delete_rows_complete,
}

-- A batch failed and changed nothing, or deleted what it chose.
abbrev BatchOf : ℕ → Table → Batch → Swept → Type 0
BatchOf total table batch swept =
    ((e : Err) × (swept ≡ record { total = total; failure = some e; table = table }))
    ⊎ (swept ≡ record {
      total = total + length (chosen table batch);
      failure = none;
      table = delete_rows table (chosen table batch);
    })

queried-BatchOf :
    (total : ℕ) (table : Table) (batch : Batch) (fault : Option Fault)
    → BatchOf total table batch (queried total table batch fault)
unfolding queried cleanup_query
queried-BatchOf total table batch (some fault) = inl (storage_failure fault, refl)
queried-BatchOf total table batch none = inr refl

cleanup_batch-BatchOf :
    (total : ℕ) (table : Table) (batch : Batch) (fault : Option Fault)
    → BatchOf total table batch (cleanup_batch total table batch fault)
unfolding cleanup_batch
cleanup_batch-BatchOf total table batch (some fault) = inl (storage_failure fault, refl)
cleanup_batch-BatchOf total table batch none = queried-BatchOf total table batch batch.query_fault

below : (total count size : ℕ) → ltb (total + count) (total + size) ≡ true → count < size
below total count size h = omega (arith, ltb→lt (total + count) (total + size) h)

module _ (batches : ℕ → Batch) (ids : List Bytes) (id : Bytes) where
  -- The row of the identity is as it was, or had expired at a batch and is gone.
  abbrev pub IsKept : Table → Table → Type 0
  IsKept table after =
      (after id ≡ table id)
      ⊎ ((after id ≡ none) × (i : ℕ) × (row_expired (table id) (batches i).now ≡ true))

  -- It failed, or at the last batch the identity had no expired row that was not held.
  abbrev pub IsSwept : Swept → Type 0
  IsSwept swept =
      ((e : Err) × (swept.failure ≡ some e))
      ⊎ ((swept.failure ≡ none)
          × (i : ℕ) × ((has_identity ids id && row_expired (swept.table id) (batches i).now)
              ≡ false))

  IsKept-compose :
      (table middle after : Table) → IsKept table middle → IsKept middle after → IsKept table after
  IsKept-compose table middle after (inl same) (inl rest) = inl (rest ∙ same)
  IsKept-compose table middle after (inl same) (inr (gone, i, expired)) =
      inr (gone, i, subst (λ row. row_expired row (batches i).now ≡ true) same expired)
  IsKept-compose table middle after (inr (gone, i, expired)) (inl rest) =
      inr (rest ∙ gone, i, expired)
  IsKept-compose table middle after (inr (gone, i, expired)) (inr (out, j, later)) =
      inr (out, i, expired)

  Left-IsKept : (i : ℕ) (table after : Table) → Left table (batches i) after id → IsKept table after
  Left-IsKept i table after (inl same) = inl same
  Left-IsKept i table after (inr (gone, expired)) = inr (gone, i, expired)

  module _ (same_ids : (i : ℕ) → (batches i).unlocked ≡ ids) where
    -- The loop ends, from any total.
    abbrev pub Ends : Table → Option Swept → Type 0
    Ends table out = (swept : Swept) × (out ≡ some swept) × IsKept table swept.table × IsSwept swept

    full-fewer :
        (i total : ℕ) (table : Table)
        → ltb (total + length (chosen table (batches i))) (total + cleanup_batch_size) ≡ false
        → present (delete_rows table (chosen table (batches i))) ids < present table ids
    full-fewer i total table full =
        subst (λ us. present (delete_rows table (chosen table (batches i))) us < present table us)
          (same_ids i)
          (fewer-present table (batches i) (chosen table (batches i)) refl (ground arith))

    short-swept :
        (i total : ℕ) (table : Table)
        → ltb (total + length (chosen table (batches i))) (total + cleanup_batch_size) ≡ true
        → (has_identity ids id
            && row_expired (delete_rows table (chosen table (batches i)) id) (batches i).now)
          ≡ false
    short-swept i total table short =
        subst
          (λ us.
            (has_identity us id
              && row_expired (delete_rows table (chosen table (batches i)) id) (batches i).now)
            ≡ false)
          (same_ids i)
          (delete_rows_complete table (batches i) id
            (below total (length (chosen table (batches i))) cleanup_batch_size short))

    cleanup_from-Ends :
        (fuel i total : ℕ) (table : Table)
        → present table ids < fuel
        → Ends table (cleanup_from fuel batches i total table)
    unfolding cleanup_from
    cleanup_from-Ends zero i total table h = absurd (omega arith)
    cleanup_from-Ends (suc fuel) i total table h =
        let after = delete_rows table (chosen table (batches i)) in
        let kept = Left-IsKept i table after (delete_rows-Left table (batches i) id) in
        let count = length (chosen table (batches i)) in
        elim (cleanup_batch-BatchOf total table (batches i) (batches i).acquire_fault) [
          | inl (e, failed) ↦ rw failed (_, refl, inl refl, inl (e, refl))
          | inr deleted ↦
              rw deleted (elim (Bool-cases (ltb (total + count) (total + cleanup_batch_size))) [
                | inl short ↦
                    rw short (_, refl, kept, inr (refl, i, short-swept i total table short))
                | inr full ↦
                    let fewer = full-fewer i total table full in
                    let (swept, ends, rest, done) =
                      cleanup_from-Ends fuel (suc i) (total + count) after
                        (omega (arith, fewer, h)) in
                    rw full (swept, ends, IsKept-compose table after swept.table kept rest, done)
              ])
        ]

    present-le : (table : Table) (us : List Bytes) → present table us ≤ length us
    unfolding present
    present-le table [] = omega arith
    present-le table (x ∷ us) = ground (arith, present-le table us)

    -- While no transaction takes or frees a row, `Cleanup` ends within as many batches as there are
    -- identities whose rows are not held, and one. What it does to the row of an identity: the row is
    -- left as it was, unless it had expired at the clock of some batch. If no batch failed, then at the
    -- clock of one of them the identity is left with no expired row that is not held.
    pub cleanup-Ends :
        (fuel : ℕ) (table : Table) → length ids < fuel → Ends table (cleanup fuel batches table)
    unfolding cleanup
    cleanup-Ends fuel table h =
        cleanup_from-Ends fuel 0 0 table (omega (arith, present-le table ids, h))
