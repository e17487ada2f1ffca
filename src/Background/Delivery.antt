-- ===== src/Background/Delivery.antt =====
-- When a failure is recorded, and what no later step changes.
use go_service_template_rest.Base.{
  ◌≤◌, ◌≡◌, ◌⊎◌, inl, inr, refl, sym, subst, ◌∙◌, ap, Bool, true, false, ◌||◌, List, [], ◌∷◌, ◌++◌,
  Option, none, some, Bytes, is_some, arith, length, length-append, All, if_cases,
}
use go_service_template_rest.Base.GoError.{Err}
use go_service_template_rest.Background.{
  Supervisor, TaskFailure, Outcome, returned, panicked, run_task, stop_cause, go, settle,
  record_stop, record_failure, leave_group, publish_failure, begin_shutdown, cancel_tasks, check,
  name_or, err_run_is_nil, task_failure_error,
}
use go_service_template_rest.Background.Lifecycle.{
  Step, start, finish, record_end, publish, parent_done, shutdown, cancel, join, give_up, Reach,
  here, next,
}

run_task-living : (o : Outcome) → (e : Err) × (run_task none o ≡ some e)
unfolding run_task stop_cause
run_task-living panicked = (_, refl)
run_task-living (returned none) = (_, refl)
run_task-living (returned (some e)) = (_, refl)

publish_failure-recorded :
    (s : Supervisor) (r : Option TaskFailure) (f : TaskFailure)
    → s.recorded_failure ≡ r
    → is_some (publish_failure s r f).recorded_failure ≡ true
unfolding publish_failure
publish_failure-recorded s none f e = refl
publish_failure-recorded s (some first) f e = ground arith

record_failure-recorded :
    (s : Supervisor) (before : List (TaskFailure × Bool)) (f : TaskFailure) (in_group : Bool)
    (after : List (TaskFailure × Bool))
    → is_some (record_failure s before (f, in_group) after).recorded_failure ≡ true
unfolding record_failure
record_failure-recorded s before f true after =
    publish_failure-recorded (record s { failing = before ++ after }) s.recorded_failure f refl
record_failure-recorded s before f false after =
    publish_failure-recorded (record s { failing = before ++ after }) s.recorded_failure f refl

is_some-check : (s : Supervisor) → is_some (check s) ≡ is_some s.recorded_failure
unfolding check
is_some-check s = ground arith

settle-failing :
    (s : Supervisor) (name : Bytes) (e : Err)
    → s.stopping ≡ false
    → s.canceled ≡ none
    → (settle s name (some e)).failing ≡ (record { task = name; cause = e }, true) ∷ s.failing
unfolding settle record_stop
settle-failing s name e serving living = rw (serving, living) refl

-- A task that ends while the supervisor serves and its context lives is about to be reported, however it
-- ended, and once it is, `Check` fails.
pub ended_while_serving :
    (s : Supervisor) (name : Bytes) (o : Outcome)
    → s.stopping ≡ false
    → s.canceled ≡ none
    → (e : Err) × (let t = settle s name (run_task s.canceled o) in
        let f : TaskFailure = record { task = name; cause = e } in
        (t.failing ≡ (f, true) ∷ s.failing)
        × (is_some (check (record_failure t [] (f, true) s.failing)) ≡ true))
ended_while_serving s name o serving living =
    let (e, failed) = run_task-living o in
    (
      e,
      (
        simp (living, failed) (settle-failing s name e serving living),
        is_some-check _ ∙ record_failure-recorded _ [] _ true s.failing,
      ),
    )

-- A failure is in a list.
abbrev pub Listed : TaskFailure × Bool → List (TaskFailure × Bool) → Type 0
Listed f [] = ⊥
Listed f (g ∷ rest) = (g ≡ f) ⊎ Listed f rest

-- What is recorded and sent in `t` is what was in `s`, or nothing was and it is one failure that had
-- passed the test of `recordStop` in `s`.
abbrev pub Reported : Supervisor → Supervisor → Type 0
Reported s t =
    ((t.recorded_failure ≡ s.recorded_failure) × (t.sent ≡ s.sent))
    ⊎ ((f : TaskFailure) × (in_group : Bool) × (s.recorded_failure ≡ none)
        × Listed (f, in_group) s.failing
        × (t.recorded_failure ≡ some f)
        × (t.sent ≡ s.sent ++ task_failure_error f ∷ []))

-- From `s` to `t` no task starts and nothing comes to `recordStop` to pass its test.
record Kept (s t : Supervisor) : Type 0 where
  reported : Reported s t
  closed : t.stopping ≡ true
  fewer : length t.active ≤ length s.active
  left : All (λ f. Listed f s.failing) t.failing

module _ (P : TaskFailure × Bool → Type 0) where
  All-remove :
      (before : List (TaskFailure × Bool)) (f : TaskFailure × Bool)
      (after : List (TaskFailure × Bool))
      → All P (before ++ f ∷ after)
      → P f × All P (before ++ after)
  All-remove [] f after h = h
  All-remove (g ∷ before) f after (first, rest) =
      let (this, others) = All-remove before f after rest in (this, (first, others))

  All-weaken :
      (Q : TaskFailure × Bool → Type 0) (fs : List (TaskFailure × Bool))
      → ((f : TaskFailure × Bool) → P f → Q f)
      → All P fs
      → All Q fs
  All-weaken Q [] h all = tt
  All-weaken Q (f ∷ fs) h (first, rest) = (h f first, All-weaken Q fs h rest)

All-Listed : (fs : List (TaskFailure × Bool)) → All (λ f. Listed f fs) fs
All-Listed [] = tt
All-Listed (f ∷ fs) =
    (inl refl, All-weaken (λ g. Listed g fs) _ fs (λ g there. inr there) (All-Listed fs))

Kept-refl : (s : Supervisor) → s.stopping ≡ true → Kept s s
Kept-refl s h = record {
  reported = inl (refl, refl);
  closed = h;
  fewer = omega arith;
  left = All-Listed s.failing;
}

-- A step that leaves all of it as it is.
Kept-same :
    {s t : Supervisor} (u : Supervisor)
    → Kept s t
    → (u.recorded_failure ≡ t.recorded_failure)
    → (u.sent ≡ t.sent)
    → (u.stopping ≡ true)
    → (length u.active ≤ length t.active)
    → (u.failing ≡ t.failing)
    → Kept s u
Kept-same {s} {t} u k recorded sent closed fewer failing = record {
  reported = elim k.reported [
    | inl (r, n) ↦ inl (recorded ∙ r, sent ∙ n)
    | inr (f, g, unset, there, r, n) ↦ inr (f, g, unset, there, recorded ∙ r, sent ∙ n)
  ];
  closed = closed;
  fewer = omega (arith, fewer, k.fewer);
  left = subst (All (λ f. Listed f s.failing)) (sym failing) k.left;
}

leave_group-Kept :
    {s : Supervisor} (t : Supervisor) (in_group : Bool) (e : Option Err)
    → Kept s t
    → Kept s (leave_group in_group e t)
leave_group-Kept t true e k = Kept-same _ k refl refl k.closed (omega arith) refl
leave_group-Kept t false e k = k

record_stop-Kept :
    {s : Supervisor} (t : Supervisor) (name : Bytes) (e : Option Err) (in_group : Bool)
    → Kept s t
    → Kept s (record_stop t name e in_group)
unfolding record_stop
record_stop-Kept t name none in_group k = leave_group-Kept t in_group none k
record_stop-Kept {s} t name (some e) in_group k =
    if_cases (Kept s) (t.stopping || is_some t.canceled) _ _
      (λ _. leave_group-Kept t in_group (some e) k) (λ serving. absurd (ground (arith, k.closed)))

publish_failure-Kept :
    {s : Supervisor} (t : Supervisor) (r : Option TaskFailure) (f : TaskFailure) (in_group : Bool)
    → t.recorded_failure ≡ r
    → Listed (f, in_group) s.failing
    → Kept s t
    → Kept s (publish_failure t r f)
unfolding publish_failure
publish_failure-Kept t (some first) f in_group same there k = k
publish_failure-Kept {s} t none f in_group same there k = record {
  reported = elim k.reported [
    | inl (r, n) ↦
        inr (f, in_group, sym r ∙ same, there, refl, ap (λ l. l ++ task_failure_error f ∷ []) n)
    | inr (g, _, _, _, r, _) ↦ absurd (none-ne-some (sym same ∙ r))
  ];
  closed = k.closed;
  fewer = k.fewer;
  left = k.left;
}
  where
    none-ne-some : {g : TaskFailure} → none ≡ some g → ⊥
    none-ne-some h = cc

record_failure-Kept :
    {s : Supervisor} (t : Supervisor) (before : List (TaskFailure × Bool)) (f : TaskFailure)
    (in_group : Bool) (after : List (TaskFailure × Bool))
    → t.failing ≡ before ++ (f, in_group) ∷ after
    → Kept s t
    → Kept s (record_failure t before (f, in_group) after)
unfolding record_failure
record_failure-Kept {s} t before f in_group after e k =
    let (there, others) =
      All-remove (λ g. Listed g s.failing) before (f, in_group) after
        (subst (All (λ g. Listed g s.failing)) e k.left) in
    leave_group-Kept _ in_group (some f.cause) (
      publish_failure-Kept (record t { failing = before ++ after }) t.recorded_failure f in_group
        refl there
        (record { reported = k.reported; closed = k.closed; fewer = k.fewer; left = others }))

go-Kept :
    {s : Supervisor} (t : Supervisor) (task : Bytes) (has_run : Bool)
    → Kept s t
    → Kept s (go t task has_run)
unfolding go
go-Kept {s} t task true k =
    if_cases (Kept s) t.stopping t _ (λ _. k) (λ serving. absurd (ground (arith, k.closed)))
go-Kept t task false k = record_stop-Kept t (name_or task) (some err_run_is_nil) false k

length-remove :
    (before : List Bytes) (name : Bytes) (after active : List Bytes)
    → active ≡ before ++ name ∷ after
    → length (before ++ after) ≤ length active
length-remove before name after active e =
    rw e (omega (arith, length-append before after, length-append before (name ∷ after)))

Step-Kept : {s t u : Supervisor} → Kept s t → Step t u → Kept s u
unfolding begin_shutdown cancel_tasks settle
Step-Kept k (start t task has_run) = go-Kept t task has_run k
Step-Kept k (finish t before name after o e) =
    Kept-same _ k refl refl k.closed (length-remove before name after t.active e) refl
Step-Kept k (record_end t before name e after p) =
    record_stop-Kept (record t { ended = before ++ after }) name e true
      (Kept-same _ k refl refl k.closed (omega arith) refl)
Step-Kept k (publish t before (f, in_group) after e) =
    record_failure-Kept t before f in_group after e k
Step-Kept k (parent_done t reason e) = Kept-same _ k refl refl k.closed (omega arith) refl
Step-Kept k (shutdown t) = Kept-same _ k refl refl refl (omega arith) refl
Step-Kept k (cancel t stopped) = Kept-same _ k refl refl k.closed (omega arith) refl
Step-Kept k (join t stopped unset idle settled out canceled) =
    Kept-same _ k refl refl k.closed (omega arith) refl
Step-Kept k (give_up t ctx_err stopped unset) = Kept-same _ k refl refl k.closed (omega arith) refl

Reach-Kept : {s t : Supervisor} → s.stopping ≡ true → Reach s t → Kept s t
Reach-Kept {s} h here = Kept-refl s h
Reach-Kept h (next r st) = Step-Kept (Reach-Kept h r) st

-- After `Shutdown` has begun no task starts, and what is recorded and sent to `FirstFailure`
-- stays as it is, in every interleaving, with one exception: where no failure was recorded, one
-- may still be that had passed the test of `recordStop` before, and exactly that one is then
-- recorded and sent. A task that comes to `recordStop` during the drain has stopped in the
-- ordinary way.
pub Reach-after_shutdown :
    (s : Supervisor) {t : Supervisor}
    → Reach (begin_shutdown s) t
    → Reported s t × (length t.active ≤ length s.active)
unfolding begin_shutdown
Reach-after_shutdown s r = let k = Reach-Kept refl r in (k.reported, k.fewer)
