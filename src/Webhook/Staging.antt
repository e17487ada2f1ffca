-- ===== src/Webhook/Staging.antt =====
-- A fan-out is staged as a whole or not at all.
use go_service_template_rest.Base.{
  ℕ, suc, ◌+◌, ◌≤◌, ◌≡◌, ◌≢◌, refl, sym, ap, ◌∙◌, subst, Bool, true, false, List, [], ◌∷◌, Option,
  none, some, Bytes, length, Bool-cases, inl, inr, ◌⊎◌, arith, All, eq_bytes, eq_bytes→eq,
  eq_bytes_refl, &&-true,
}
use go_service_template_rest.Base.GoError.{Result, ok, err, ◌>>=◌, >>=-ok}
use go_service_template_rest.Webhook.{DeliveryArgs, Library}
use go_service_template_rest.Webhook.Dispatcher.{
  Jobs, Inserted, fresh, duplicate, matches_fanout, encoded_matches_fanout, counted_insert,
  wrap_insert, stage_all, staged, stage,
}

module _ (lib : Library) {Table : Type 0} (jobs : Jobs Table) where
  open lib use {decode_args}
  open jobs use {encode, stored, insert_tx, inserts, skips}

  -- There is no job for the delivery, there is its own, and there is one of the same fan-out.
  abbrev pub Absent : Table → DeliveryArgs → Type 0
  Absent t d = stored t d.acceptance_id ≡ none

  abbrev pub Present : Table → DeliveryArgs → Type 0
  Present t d = stored t d.acceptance_id ≡ some (encode d)

  abbrev pub Replayed : Table → DeliveryArgs → Type 0
  Replayed t d =
      (job : Bytes) × (got : DeliveryArgs) × (stored t d.acceptance_id ≡ some job)
      × (decode_args job ≡ some got)
      × (got.delivery_id ≡ d.delivery_id)
      × (got.fanout_fingerprint ≡ d.fanout_fingerprint)

  abbrev Run : DeliveryArgs → List DeliveryArgs → Table → ℕ → ℕ → Table × ℕ × ℕ → Type 0
  Run d ds t a f r =
      ((v : Table) × (insert_tx t d ≡ ok (v, fresh)) × (stage_all lib jobs ds v (suc a) f ≡ ok r))
      ⊎ ((v : Table) × (job : Option Bytes) × (insert_tx t d ≡ ok (v, duplicate job))
          × (encoded_matches_fanout lib job d ≡ true)
          × (stage_all lib jobs ds v a (suc f) ≡ ok r))

  inserted-cases :
      (d : DeliveryArgs) (ds : List DeliveryArgs) (t : Table) (a f : ℕ) (r : Table × ℕ × ℕ)
      (o : Result (Table × Inserted))
      → insert_tx t d ≡ o
      → (wrap_insert lib jobs o >>= counted_insert lib jobs d (stage_all lib jobs ds) a f) ≡ ok r
      → Run d ds t a f r
  inserted-cases d ds t a f r (err e) same h = cc
  inserted-cases d ds t a f r (ok (v, fresh)) same h = inl (v, same, h)
  inserted-cases d ds t a f r (ok (v, duplicate job)) same h =
      elim (Bool-cases (encoded_matches_fanout lib job d)) [
        | inl e ↦ inr (v, job, same, e, rw e at h)
        | inr e ↦ let broken = rw e at h in cc broken
      ]

  run-cases :
      (d : DeliveryArgs) (ds : List DeliveryArgs) (t : Table) (a f : ℕ) (r : Table × ℕ × ℕ)
      → stage_all lib jobs (d ∷ ds) t a f ≡ ok r
      → Run d ds t a f r
  unfolding stage_all
  run-cases d ds t a f r h = inserted-cases d ds t a f r (insert_tx t d) refl h

  counts :
      (ds : List DeliveryArgs) (t u : Table) (a f b g : ℕ)
      → stage_all lib jobs ds t a f ≡ ok (u, b, g)
      → (a ≤ b) × (f ≤ g) × (b + g ≡ a + f + length ds)
  unfolding stage_all
  counts [] t u a f b g h = ground arith
  counts (d ∷ ds) t u a f b g h = elim (run-cases d ds t a f (u, b, g) h) [
    | inl (v, e, rest) ↦ omega (arith, counts ds v u (suc a) f b g rest)
    | inr (v, job, e, m, rest) ↦ omega (arith, counts ds v u a (suc f) b g rest)
  ]

  -- An insertion leaves what is there.
  inserted-keeps :
      (t v : Table) (d : DeliveryArgs) (key job : Bytes)
      → insert_tx t d ≡ ok (v, fresh)
      → stored t key ≡ some job
      → stored v key ≡ some job
  inserted-keeps t v d key job e h =
      let (absent, after) = inserts t v d e in
      elim (Bool-cases (eq_bytes key d.acceptance_id)) [
        | inl same ↦
            let k = eq_bytes→eq key d.acceptance_id same in
            let gone : stored t key ≡ none = ap (stored t) k ∙ absent in cc
        | inr other ↦ after key ∙ rw other h
      ]

  inserted-frame :
      (t v : Table) (d : DeliveryArgs) (key : Bytes)
      → insert_tx t d ≡ ok (v, fresh)
      → eq_bytes key d.acceptance_id ≡ false
      → stored v key ≡ stored t key
  inserted-frame t v d key e other = (inserts t v d e).1 key ∙ rw other refl

  inserted-Present : (t v : Table) (d : DeliveryArgs) → insert_tx t d ≡ ok (v, fresh) → Present v d
  inserted-Present t v d e =
      (inserts t v d e).1 d.acceptance_id ∙ rw (eq_bytes_refl d.acceptance_id) refl

  -- What was absent behind an insertion was absent in front of it.
  inserted-Absent :
      (t v : Table) (d c : DeliveryArgs) → insert_tx t d ≡ ok (v, fresh) → Absent v c → Absent t c
  inserted-Absent t v d c e h = go (stored t c.acceptance_id) refl
    where
      go : (o : Option Bytes) → stored t c.acceptance_id ≡ o → Absent t c
      go none same = same
      go (some job) same = let kept = inserted-keeps t v d c.acceptance_id job e same in cc

  skipped-Replayed :
      (t v : Table) (d : DeliveryArgs) (job : Option Bytes)
      → insert_tx t d ≡ ok (v, duplicate job)
      → encoded_matches_fanout lib job d ≡ true
      → Replayed t d
  unfolding encoded_matches_fanout matches_fanout
  skipped-Replayed t v d none e m = cc
  skipped-Replayed t v d (some job) e m = go (decode_args job) refl
    where
      absurd_of : false ≡ true → Replayed t d
      absurd_of broken = cc

      go : (o : Option DeliveryArgs) → decode_args job ≡ o → Replayed t d
      go none same = absurd_of (rw (same, encoded_matches_fanout) at m)
      go (some got) same =
          let (ids, prints) =
            &&-true (eq_bytes got.delivery_id d.delivery_id)
              (eq_bytes got.fanout_fingerprint d.fanout_fingerprint)
              (rw (same, encoded_matches_fanout) at m) in
          (
            job,
            got,
            sym (skips t v d (some job) e).1,
            same,
            eq_bytes→eq got.delivery_id d.delivery_id ids,
            eq_bytes→eq got.fanout_fingerprint d.fanout_fingerprint prints,
          )

  all_fresh :
      (ds : List DeliveryArgs) (t u : Table) (a b f : ℕ)
      → stage_all lib jobs ds t a f ≡ ok (u, b, f)
      → All (Absent t) ds
        × All (Present u) ds
        × ((key job : Bytes) → stored t key ≡ some job → stored u key ≡ some job)
        × ((key : Bytes)
            → All (λ d. eq_bytes key d.acceptance_id ≡ false) ds
            → stored u key ≡ stored t key)
  unfolding stage_all
  all_fresh [] t u a b f h =
      let same : u ≡ t = ground arith in
      (tt, tt, (λ key job present. rw same present), (λ key others. ap (λ x. stored x key) same))
  all_fresh (d ∷ ds) t u a b f h = elim (run-cases d ds t a f (u, b, f) h) [
    | inl (v, e, rest) ↦
        let (absent, present, keeps, frame) = all_fresh ds v u (suc a) b f rest in
        (
          ((inserts t v d e).0, All-Absent t v d ds e absent),
          (keeps d.acceptance_id (encode d) (inserted-Present t v d e), present),
          (λ key job there. keeps key job (inserted-keeps t v d key job e there)),
          (λ key others. frame key others.1 ∙ inserted-frame t v d key e others.0),
        )
    | inr (v, job, e, m, rest) ↦ absurd (omega (arith, counts ds v u a (suc f) b f rest))
  ]
    where
      All-Absent :
          (t v : Table) (d : DeliveryArgs) (ds : List DeliveryArgs)
          → insert_tx t d ≡ ok (v, fresh)
          → All (Absent v) ds
          → All (Absent t) ds
      All-Absent t v d [] e h = tt
      All-Absent t v d (c ∷ cs) e (first, rest) =
          (inserted-Absent t v d c e first, All-Absent t v d cs e rest)

  all-Replayed :
      (ds : List DeliveryArgs) (t u : Table) (a f g : ℕ)
      → stage_all lib jobs ds t a f ≡ ok (u, a, g)
      → (u ≡ t) × All (Replayed t) ds
  unfolding stage_all
  all-Replayed [] t u a f g h = (ground arith, tt)
  all-Replayed (d ∷ ds) t u a f g h = elim (run-cases d ds t a f (u, a, g) h) [
    | inl (v, e, rest) ↦ absurd (omega (arith, counts ds v u (suc a) f a g rest))
    | inr (v, job, e, m, rest) ↦
        let same = (skips t v d job e).0 in
        let (unchanged, replayed) = all-Replayed ds v u a (suc f) g rest in
        (
          unchanged ∙ same,
          (skipped-Replayed t v d job e m, subst (λ x. All (Replayed x) ds) same replayed),
        )
  ]

  -- Staged as new, and found as it was staged.
  abbrev pub StagedNew : List DeliveryArgs → Table → Table → Type 0
  StagedNew ds t u =
      All (Absent t) ds
      × All (Present u) ds
      × ((key : Bytes)
          → All (λ d. eq_bytes key d.acceptance_id ≡ false) ds
          → stored u key ≡ stored t key)

  abbrev pub FoundWhole : List DeliveryArgs → Table → Table → Type 0
  FoundWhole ds t u = (u ≡ t) × All (Replayed t) ds

  staged-cases :
      (b g : ℕ) (u v : Table) (inserted : Bool)
      → staged lib jobs (u, b, g) ≡ ok (v, inserted)
      → (v ≡ u) × (((b ≡ 0) × (inserted ≡ false)) ⊎ ((g ≡ 0) × (b ≢ 0) × (inserted ≡ true)))
  staged-cases b g u v inserted h = ground arith

  -- `Stage` succeeds in two ways. It inserts the whole fan-out, of which nothing was there, and leaves
  -- all other jobs as they are; or it inserts nothing, and every delivery has a job with its delivery
  -- id and the fingerprint of the whole fan-out. A part of a fan-out is never staged.
  pub stage_whole :
      (ds : List DeliveryArgs) (t u : Table) (inserted : Bool)
      → stage lib jobs ds t ≡ ok (u, inserted)
      → ((inserted ≡ true) × StagedNew ds t u) ⊎ ((inserted ≡ false) × FoundWhole ds t u)
  unfolding stage
  stage_whole [] t u inserted h = cc
  stage_whole (d ∷ ds) t u inserted h =
      let (r, run, last) = >>=-ok (stage_all lib jobs (d ∷ ds) t 0 0) _ h in
      let (same, how) = staged-cases r.1 r.2 r.0 u inserted last in
      elim how [
        | inl (none_added, old) ↦
            let found : stage_all lib jobs (d ∷ ds) t 0 0 ≡ ok (r.0, 0, r.2) =
              run ∙ ap (λ x. ok (r.0, x, r.2)) none_added in
            let (unchanged, replayed) = all-Replayed (d ∷ ds) t r.0 0 0 r.2 found in
            inr (old, (same ∙ unchanged, replayed))
        | inr (none_found, _, new) ↦
            let added : stage_all lib jobs (d ∷ ds) t 0 0 ≡ ok (r.0, r.1, 0) =
              run ∙ ap (λ x. ok (r.0, r.1, x)) none_found in
            let (absent, present, _, frame) = all_fresh (d ∷ ds) t r.0 0 r.1 0 added in
            inl (new, subst (StagedNew (d ∷ ds) t) (sym same) (absent, present, frame))
      ]

  module _ (decodes : (d : DeliveryArgs) → decode_args (encode d) ≡ some d)
      (answers : (t : Table) (d : DeliveryArgs)
        → (r : Table × Inserted) × (insert_tx t d ≡ ok r)) where
    -- A job that is there answers as a duplicate.
    Present-skips :
        (u : Table) (d : DeliveryArgs)
        → Present u d
        → insert_tx u d ≡ ok (u, duplicate (some (encode d)))
    Present-skips u d there = go (answers u d).0 (answers u d).1
      where
        go :
            (r : Table × Inserted)
            → insert_tx u d ≡ ok r
            → insert_tx u d ≡ ok (u, duplicate (some (encode d)))
        go (v, fresh) e = let absent = (inserts u v d e).0 in cc
        go (v, duplicate job) e =
            let (same, found) = skips u v d job e in
            e ∙ (λ i. ok (same i, duplicate ((found ∙ there) i)))

    own_matches : (d : DeliveryArgs) → encoded_matches_fanout lib (some (encode d)) d ≡ true
    unfolding encoded_matches_fanout matches_fanout
    own_matches d =
        rw
          (
            decodes d,
            encoded_matches_fanout,
            eq_bytes_refl d.delivery_id,
            eq_bytes_refl d.fanout_fingerprint,
          )
          refl

    Present-run :
        (ds : List DeliveryArgs) (u : Table) (f : ℕ)
        → All (Present u) ds
        → stage_all lib jobs ds u 0 f ≡ ok (u, 0, f + length ds)
    unfolding stage_all
    Present-run [] u f h = ap (λ x. ok (u, 0, x)) (omega arith)
    Present-run (d ∷ ds) u f (first, rest) =
        rw (Present-skips u d first, own_matches d)
          (Present-run ds u (suc f) rest ∙ ap (λ x. ok (u, 0, x)) (omega arith))

    -- Where River answers every insertion and arguments are read back as they were written, a fan-out
    -- that was staged as new is found whole when it is staged again, and nothing changes.
    pub stage_again :
        (ds : List DeliveryArgs) (t u : Table)
        → stage lib jobs ds t ≡ ok (u, true)
        → stage lib jobs ds u ≡ ok (u, false)
    unfolding stage
    stage_again [] t u h = cc
    stage_again (d ∷ ds) t u h = elim (stage_whole (d ∷ ds) t u true h) [
      | inl (_, new) ↦ rw (Present-run (d ∷ ds) u 0 new.1) (ground arith)
      | inr (broken, _) ↦ cc
    ]
