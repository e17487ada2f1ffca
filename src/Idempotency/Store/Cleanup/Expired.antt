-- ===== src/Idempotency/Store/Cleanup/Expired.antt =====
-- What `Cleanup` leaves: of internal/infra/postgresidempotency/store.go.
use go_service_template_rest.Base.{
  ℕ, zero, suc, ◌≤◌, ◌<◌, ◌≡◌, ◌≢◌, ◌⊎◌, inl, inr, refl, sym, ap, ◌∙◌, subst, Bool, true, false,
  ◌&&◌, List, [], ◌∷◌, Option, none, some, Bytes, if◌then◌else◌, length, take, eq_bytes,
  eq_bytes→eq, eq_bytes_refl, is_some, Bool-cases, arith,
}
use go_service_template_rest.Idempotency.Store.{Table, Row}
use go_service_template_rest.Idempotency.Store.Cleanup.{
  Batch, row_expired, expired_among, has_identity, delete_rows, cleanup_batch_size,
}

has_identity-take :
    (n : ℕ) (ids : List Bytes) (id : Bytes)
    → has_identity (take n ids) id ≡ true
    → has_identity ids id ≡ true
unfolding has_identity
has_identity-take zero ids id h = cc
has_identity-take (suc n) [] id h = cc
has_identity-take (suc n) (x ∷ ids) id h = ground (arith, has_identity-take n ids id)

-- What a batch deletes has expired.
has_identity-expired_among :
    (table : Table) (now : ℕ) (ids : List Bytes) (id : Bytes)
    → has_identity (expired_among table now ids) id ≡ true
    → row_expired (table id) now ≡ true
unfolding expired_among has_identity
has_identity-expired_among table now [] id h = cc
has_identity-expired_among table now (x ∷ ids) id h =
    elim (Bool-cases (row_expired (table x) now)) [
      | inl e ↦ elim (Bool-cases (eq_bytes x id)) [
        | inl same ↦ subst (λ y. row_expired (table y) now ≡ true) (eq_bytes→eq x id same) e
        | inr other ↦ has_identity-expired_among table now ids id (rw (e, other) at h)
      ]
      | inr e ↦ has_identity-expired_among table now ids id (rw e at h)
    ]

-- What has expired and is not held is among the rows that a batch may delete.
expired_among_complete :
    (table : Table) (now : ℕ) (ids : List Bytes) (id : Bytes)
    → has_identity ids id ≡ true
    → row_expired (table id) now ≡ true
    → has_identity (expired_among table now ids) id ≡ true
unfolding expired_among has_identity
expired_among_complete table now [] id h expired = cc
expired_among_complete table now (x ∷ ids) id h expired = elim (Bool-cases (eq_bytes x id)) [
  | inl same ↦
      let here : row_expired (table x) now ≡ true =
        subst (λ y. row_expired (table y) now ≡ true) (sym (eq_bytes→eq x id same)) expired in
      rw here (ground arith)
  | inr other ↦
      let later = expired_among_complete table now ids id (rw other at h) expired in
      elim (Bool-cases (row_expired (table x) now)) [
        | inl e ↦ rw e (ground arith)
        | inr e ↦ rw e later
      ]
]

take-all : (n : ℕ) (ids : List Bytes) → length (take n ids) < n → take n ids ≡ ids
take-all zero ids h = absurd (omega arith)
take-all (suc n) [] h = refl
take-all (suc n) (x ∷ ids) h = ap (λ rest. x ∷ rest) (take-all n ids (omega arith))

-- The rows that are there.
unfoldable pub present : Table → List Bytes → ℕ
present table [] = 0
present table (id ∷ ids) =
    let rest = present table ids in if is_some (table id) then suc rest else rest

present-delete_rows :
    (table : Table) (chosen ids : List Bytes)
    → present (delete_rows table chosen) ids ≤ present table ids
unfolding present delete_rows
present-delete_rows table chosen [] = omega arith
present-delete_rows table chosen (x ∷ ids) =
    let rest = present-delete_rows table chosen ids in
    elim (Bool-cases (has_identity chosen x)) [
      | inl gone ↦ rw gone (ground arith)
      | inr kept ↦ rw kept (ground arith)
    ]

-- Deleting a row that is there leaves fewer.
present-lt :
    (table : Table) (chosen ids : List Bytes) (id : Bytes)
    → has_identity ids id ≡ true
    → has_identity chosen id ≡ true
    → is_some (table id) ≡ true
    → present (delete_rows table chosen) ids < present table ids
unfolding present delete_rows has_identity
present-lt table chosen [] id listed gone there = cc
present-lt table chosen (x ∷ ids) id listed gone there = elim (Bool-cases (eq_bytes x id)) [
  | inl same ↦
      let equal = sym (eq_bytes→eq x id same) in
      let out : has_identity chosen x ≡ true =
        subst (λ y. has_identity chosen y ≡ true) equal gone in
      let here : is_some (table x) ≡ true = subst (λ y. is_some (table y) ≡ true) equal there in
      let fewer = present-delete_rows table chosen ids in rw (out, here) (omega (arith, fewer))
  | inr other ↦
      let fewer = present-lt table chosen ids id (rw other at listed) gone there in
      elim (Bool-cases (has_identity chosen x)) [
        | inl out ↦ rw out (ground (arith, fewer))
        | inr kept ↦ rw kept (ground (arith, fewer))
      ]
]

expired-is_some : (row : Option Row) (now : ℕ) → row_expired row now ≡ true → is_some row ≡ true
expired-is_some none now h = cc
expired-is_some (some row) now h = refl

expired_among-listed :
    (table : Table) (now : ℕ) (ids : List Bytes) (id : Bytes)
    → has_identity (expired_among table now ids) id ≡ true
    → has_identity ids id ≡ true
unfolding expired_among has_identity
expired_among-listed table now [] id h = cc
expired_among-listed table now (x ∷ ids) id h = elim (Bool-cases (eq_bytes x id)) [
  | inl same ↦ rw same refl
  | inr other ↦ rw other (elim (Bool-cases (row_expired (table x) now)) [
    | inl e ↦ expired_among-listed table now ids id (rw (e, other) at h)
    | inr e ↦ expired_among-listed table now ids id (rw e at h)
  ])
]

and-false : (b : Bool) → (b && false) ≡ false
and-false true = refl
and-false false = refl

true-ne-false : ◌≢◌ true false
true-ne-false h = cc

not-both : (a b : Bool) → (a ≡ true → b ≡ true → ⊥) → (a && b) ≡ false
not-both true true h = absurd (h refl refl)
not-both true false h = refl
not-both false b h = refl

module _ (table : Table) (batch : Batch) where
  abbrev pub chosen : List Bytes
  chosen = take cleanup_batch_size (expired_among table batch.now batch.unlocked)

  chosen-expired :
      (id : Bytes) → has_identity chosen id ≡ true → row_expired (table id) batch.now ≡ true
  chosen-expired id h =
      has_identity-expired_among table batch.now batch.unlocked id
        (has_identity-take cleanup_batch_size (expired_among table batch.now batch.unlocked) id h)

  -- A batch that deletes something leaves fewer rows.
  pub fewer-present :
      (xs : List Bytes)
      → chosen ≡ xs
      → 1 ≤ length xs
      → present (delete_rows table chosen) batch.unlocked < present table batch.unlocked
  unfolding has_identity
  fewer-present [] same h = absurd (omega arith)
  fewer-present (x ∷ xs) same h =
      let first : has_identity chosen x ≡ true =
        subst (λ l. has_identity l x ≡ true) (sym same) (rw (eq_bytes_refl x) refl) in
      let expired = chosen-expired x first in
      present-lt table chosen batch.unlocked x
        (expired_among-listed table batch.now batch.unlocked x (
          has_identity-take cleanup_batch_size (expired_among table batch.now batch.unlocked) x
            first))
        first (expired-is_some (table x) batch.now expired)

  -- A row is left alone, or was deleted and had expired.
  abbrev pub Left : Table → Bytes → Type 0
  Left after id =
      (after id ≡ table id) ⊎ ((after id ≡ none) × (row_expired (table id) batch.now ≡ true))

  pub delete_rows-Left : (id : Bytes) → Left (delete_rows table chosen) id
  unfolding delete_rows
  delete_rows-Left id = elim (Bool-cases (has_identity chosen id)) [
    | inl gone ↦ inr (rw gone refl, chosen-expired id gone)
    | inr kept ↦ inl (rw kept refl)
  ]

  -- A batch that is not full leaves no expired row that it could have deleted.
  pub delete_rows_complete :
      (id : Bytes)
      → length chosen < cleanup_batch_size
      → (has_identity batch.unlocked id && row_expired (delete_rows table chosen id) batch.now)
        ≡ false
  unfolding delete_rows
  delete_rows_complete id short = elim (Bool-cases (has_identity chosen id)) [
    | inl gone ↦ rw gone (and-false (has_identity batch.unlocked id))
    | inr kept ↦ rw kept (
        not-both (has_identity batch.unlocked id) (row_expired (table id) batch.now)
          λ listed expired.
            let all =
              take-all cleanup_batch_size (expired_among table batch.now batch.unlocked) short in
            let among = expired_among_complete table batch.now batch.unlocked id listed expired in
            let gone : has_identity chosen id ≡ true =
              subst (λ l. has_identity l id ≡ true) (sym all) among in
            true-ne-false (sym gone ∙ kept))
  ]
