-- ===== src/Grpc/Admission/Quiet.antt =====
-- What still runs once the channel of the drain is closed.
use go_service_template_rest.Base.{
  ℕ, zero, suc, ◌≡◌, ◌≢◌, refl, sym, ap, ◌∙◌, subst, Bool, true, false, List, [], ◌∷◌, ◌++◌, Option,
  none, some, Bytes, inl, inr, ◌⊎◌, arith, Bool-cases, All, eq_bytes→eq,
}
use go_service_template_rest.Base.Semaphore.{Semaphore}
use go_service_template_rest.Grpc.{
  is_health_check, is_health_method, health_check_method, has_prefix,
}
use go_service_template_rest.Grpc.Admission.{
  Drain, track, release, start, tag_rpc, handle_end, close_if, Limiter, Server, ServerLoad, Call,
  Stage, tagged, checked, running, returned, Budget, unlimited, health, business, route,
  acquired_with, acquire, acquire_at, take_slot, leave, leave_at, finish, enter_at, enter,
  check_draining, begin, end_call, new_server, Step, begins, enters, acquires, returns, ends_early,
  ends, shuts_down, Reach, here, next,
}
use go_service_template_rest.Grpc.Admission.Drained.{counted, live, closed_times, start-draining}
use go_service_template_rest.Grpc.Admission.Closed.{Reach-closed_times}

-- A call that is past the test for draining, or in its handler.
abbrev pub is_busy : Stage → Bool
is_busy tagged = false
is_busy checked = true
is_busy running = true
is_busy (returned e) = false

-- The drain waits for the call, or the call belongs to the health service, or it will be turned away.
abbrev Fits : Bool → Call → Type 0
Fits draining c =
    (is_health_method c.method ≡ true)
    ⊎ (c.tracked ≡ true)
    ⊎ ((draining ≡ true) × (is_busy c.stage ≡ false))

module _ (P : Call → Type 0) where
  All-split :
      (before : List Call) (c : Call) (after : List Call)
      → All P (before ++ c ∷ after)
      → P c × All P (before ++ after)
  All-split [] c after h = h
  All-split (d ∷ before) c after (first, rest) =
      let (of_c, others) = All-split before c after rest in (of_c, (first, others))

  All-join :
      (before : List Call) (c : Call) (after : List Call)
      → P c
      → All P (before ++ after)
      → All P (before ++ c ∷ after)
  All-join [] c after of_c others = (of_c, others)
  All-join (d ∷ before) c after of_c (first, others) = (first, All-join before c after of_c others)

All-map :
    (P Q : Call → Type 0) (calls : List Call) → ((c : Call) → P c → Q c) → All P calls → All Q calls
All-map P Q [] f h = tt
All-map P Q (c ∷ calls) f (first, rest) = (f c first, All-map P Q calls f rest)

health_check-is_health_method :
    (method : Bytes) → is_health_check method ≡ true → is_health_method method ≡ true
unfolding is_health_check is_health_method has_prefix
health_check-is_health_method method h = rw (eq_bytes→eq method health_check_method h) refl

-- The route of a method of the health service, and of another.
route-cases :
    (method : Bytes)
    → (is_health_method method ≡ true)
      ⊎ ((is_health_method method ≡ false) × (route method ≡ business))
unfolding route
route-cases method = elim (Bool-cases (is_health_method method)) [
  | inl e ↦ inl e
  | inr e ↦ elim (Bool-cases (is_health_check method)) [
    | inl f ↦ inl (health_check-is_health_method method f)
    | inr f ↦ inr (e, rw (e, f) refl)
  ]
]

check_draining-busy :
    (draining : Bool) → (draining ≡ true) → is_busy (check_draining true draining) ≡ false
unfolding check_draining
check_draining-busy true h = refl
check_draining-busy false h = cc

Fits-tagged :
    (d : Drain) (method : Bytes)
    → Fits
        (tag_rpc d method).0.draining
        (record { method = method; tracked = (tag_rpc d method).1; stage = tagged })
unfolding tag_rpc track
Fits-tagged d method = elim (Bool-cases (is_health_method method)) [
  | inl e ↦ inl e
  | inr e ↦ elim (Bool-cases d.draining) [
    | inl f ↦ inr (inr (rw (e, f) refl, refl))
    | inr f ↦ inr (inl (rw (e, f) refl))
  ]
]

tag_rpc-draining : (d : Drain) (method : Bytes) → (tag_rpc d method).0.draining ≡ d.draining
unfolding tag_rpc track
tag_rpc-draining d method = elim (Bool-cases (is_health_method method)) [
  | inl e ↦ rw e refl
  | inr e ↦ elim (Bool-cases d.draining) [ inl f ↦ rw (e, f) refl | inr f ↦ rw (e, f) refl ]
]

close_if-draining : (b : Bool) (d : Drain) → (close_if b d).draining ≡ d.draining
close_if-draining true d = refl
close_if-draining false d = refl

handle_end-draining : (d : Drain) (tracked : Bool) → (handle_end d tracked).draining ≡ d.draining
unfolding handle_end release
handle_end-draining d true = close_if-draining _ _
handle_end-draining d false = refl

-- A call that came past the test goes on as it likes.
Fits-busy :
    (draining : Bool) (c : Call) (stage : Stage)
    → is_busy c.stage ≡ true
    → Fits draining c
    → Fits draining (record c { stage = stage })
Fits-busy draining c stage busy (inl h) = inl h
Fits-busy draining c stage busy (inr (inl h)) = inr (inl h)
Fits-busy draining c stage busy (inr (inr (d, idle))) = cc

Fits-start : (d : Drain) (c : Call) → Fits d.draining c → Fits (start d).draining c
Fits-start d c (inl h) = inl h
Fits-start d c (inr (inl h)) = inr (inl h)
Fits-start d c (inr (inr (draining, idle))) = inr (inr (start-draining d, idle))

closed-live : (draining : Bool) (n : ℕ) → closed_times draining n ≢ 0 → n ≡ 0
closed-live true zero h = refl
closed-live true (suc n) h = absurd (h refl)
closed-live false n h = absurd (h refl)

counted-zero : (b : Bool) (n : ℕ) → counted b n ≡ 0 → (b ≡ false) × (n ≡ 0)
counted-zero true n h = absurd (ground arith)
counted-zero false n h = (refl, h)

Fits-untracked :
    (draining : Bool) (c : Call)
    → c.tracked ≡ false
    → Fits draining c
    → is_busy c.stage ≡ true
    → is_health_method c.method ≡ true
Fits-untracked draining c free (inl h) busy = h
Fits-untracked draining c free (inr (inl h)) busy = cc
Fits-untracked draining c free (inr (inr (d, idle))) busy = cc

quiet :
    (draining : Bool) (calls : List Call)
    → live calls ≡ 0
    → All (Fits draining) calls
    → All (λ c. is_busy c.stage ≡ true → is_health_method c.method ≡ true) calls
unfolding live
quiet draining [] none_live h = tt
quiet draining (c ∷ calls) none_live (first, rest) =
    let (free, others) = counted-zero c.tracked (live calls) none_live in
    (Fits-untracked draining c free first, quiet draining calls others rest)

module _ {Sem : Type 0} (sems : Semaphore Sem) where
  -- Only the business budget looks at the drain, and no call but those of the health service goes by it.
  abbrev Guarded : Server Sem → Type 0
  Guarded s = (s.business.drains ≡ true) × All (Fits s.drain.draining) s.calls

  Fits-enter :
      (s : Server Sem) (c : Call)
      → s.business.drains ≡ true
      → Fits s.drain.draining c
      → Fits s.drain.draining (record c { stage = enter_at s (route c.method) })
  unfolding enter_at
  Fits-enter s c guard (inl h) = inl h
  Fits-enter s c guard (inr (inl h)) = inr (inl h)
  Fits-enter s c guard (inr (inr (d, idle))) = elim (route-cases c.method) [
    | inl h ↦ inl h
    | inr (other, r) ↦ inr (inr (d, rw (r, guard) (check_draining-busy s.drain.draining d)))
  ]

  moved :
      (draining : Bool) (s : Server Sem) (before : List Call) (c : Call) (after : List Call)
      (stage : Stage)
      → s.calls ≡ before ++ c ∷ after
      → (Fits draining c → Fits draining (record c { stage = stage }))
      → All (Fits draining) s.calls
      → All (Fits draining) (before ++ record c { stage = stage } ∷ after)
  moved draining s before c after stage e f h =
      let (first, rest) =
        All-split (Fits draining) before c after (subst (All (Fits draining)) e h) in
      All-join (Fits draining) before (record c { stage = stage }) after (f first) rest

  gone :
      (s : Server Sem) (before : List Call) (c : Call) (after : List Call)
      → s.calls ≡ before ++ c ∷ after
      → All (Fits s.drain.draining) s.calls
      → All (Fits (handle_end s.drain c.tracked).draining) (before ++ after)
  gone s before c after e h =
      subst (λ d. All (Fits d) (before ++ after)) (sym (handle_end-draining s.drain c.tracked))
        (All-split (Fits s.drain.draining) before c after
          (subst (All (Fits s.drain.draining)) e h)).1

  acquired_with-drains :
      (l : Limiter Sem) (o : Option Sem) → (acquired_with sems l o).0.drains ≡ l.drains
  unfolding acquired_with
  acquired_with-drains l none = refl
  acquired_with-drains l (some sem) = refl

  acquire-drains : (l : Limiter Sem) → (acquire sems l).0.drains ≡ l.drains
  unfolding acquire
  acquire-drains l = acquired_with-drains l (sems.try_acquire l.sem)

  leave_at-same :
      (s : Server Sem) (r : Budget)
      → ((leave_at sems s r).drain ≡ s.drain)
        × ((leave_at sems s r).business.drains ≡ s.business.drains)
  unfolding leave_at leave
  leave_at-same s unlimited = (refl, refl)
  leave_at-same s health = (refl, refl)
  leave_at-same s business = (refl, refl)

  acquire_at-same :
      (s : Server Sem) (r : Budget)
      → ((acquire_at sems s r).0.drain ≡ s.drain)
        × ((acquire_at sems s r).0.business.drains ≡ s.business.drains)
  unfolding acquire_at
  acquire_at-same s unlimited = (refl, refl)
  acquire_at-same s health = (refl, refl)
  acquire_at-same s business = (refl, acquire-drains s.business)

  Guarded-moved :
      (s t : Server Sem) (before : List Call) (c : Call) (after : List Call) (stage : Stage)
      → (t.drain ≡ s.drain) × (t.business.drains ≡ s.business.drains)
      → s.calls ≡ before ++ c ∷ after
      → is_busy c.stage ≡ true
      → Guarded s
      → Guarded (record t { calls = before ++ record c { stage = stage } ∷ after })
  Guarded-moved s t before c after stage (drain, drains) e busy (guard, h) = (
    drains ∙ guard,
    subst (λ d. All (Fits d.draining) (before ++ record c { stage = stage } ∷ after)) (sym drain)
        (moved s.drain.draining s before c after stage e (Fits-busy s.drain.draining c stage busy)
          h),
  )

  Step-Guarded : {s t : Server Sem} → Step sems s t → Guarded s → Guarded t
  unfolding begin enter take_slot finish end_call
  Step-Guarded (begins s method) (guard, h) = (
    guard,
    (
      Fits-tagged s.drain method,
      subst (λ d. All (Fits d) s.calls) (sym (tag_rpc-draining s.drain method)) h,
    ),
  )
  Step-Guarded (enters s before c after e at) (guard, h) = (
    guard,
    moved s.drain.draining s before c after (enter_at s (route c.method)) e (Fits-enter s c guard)
        h,
  )
  Step-Guarded (acquires s before c after e at) h =
      Guarded-moved s (acquire_at sems s (route c.method)).0 before c after _
        (acquire_at-same s (route c.method)) e (ap is_busy at) h
  Step-Guarded (returns s before c after e same at) h =
      Guarded-moved s (leave_at sems s (route c.method)) before c after (returned e)
        (leave_at-same s (route c.method)) same (ap is_busy at) h
  Step-Guarded (ends_early s before c after e at) (guard, h) = (guard, gone s before c after e h)
  Step-Guarded (ends s before c after e same at) (guard, h) = (guard, gone s before c after same h)
  Step-Guarded (shuts_down s) (guard, h) = (guard, All-map _ _ s.calls (Fits-start s.drain) h)

  Reach-Guarded : {s t : Server Sem} → Reach sems s t → Guarded s → Guarded t
  Reach-Guarded here h = h
  Reach-Guarded (next r step) h = Step-Guarded step (Reach-Guarded r h)

  -- Once the channel of the drain is closed, in whatever order calls began, went on and ended, no call
  -- is in its handler or on the way to it but those of the health service.
  pub Reach-quiet :
      (business_limit health_limit : ℕ) (load : ServerLoad) {s : Server Sem}
      → Reach sems (new_server sems business_limit health_limit load) s
      → s.drain.closed ≢ 0
      → All (λ c. is_busy c.stage ≡ true → is_health_method c.method ≡ true) s.calls
  unfolding new_server
  Reach-quiet bl hl load {s} r closed =
      quiet s.drain.draining s.calls
        (closed-live s.drain.draining (live s.calls)
          (λ e. closed (Reach-closed_times sems bl hl load r ∙ e)))
        (Reach-Guarded r (refl, tt)).1
