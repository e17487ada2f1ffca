-- ===== src/Background/Lifecycle.antt =====
-- The life of a supervisor as a relation: tasks are started, end and are recorded in any order, the
-- parent context may end, and `Shutdown` begins, joins or gives up.
use go_service_template_rest.Base.{
  ℕ, ◌≡◌, refl, ◌⊎◌, inl, inr, Bool, true, false, ◌||◌, List, [], ◌∷◌, ◌++◌, Option, none, some,
  Bytes, is_some, arith, if_cases,
}
use go_service_template_rest.Base.GoError.{Err, errorf}
use go_service_template_rest.Background.{
  Supervisor, TaskFailure, Outcome, run_task, go, settle, record_stop, publish_failure,
  record_failure, group_is_out, begin_shutdown, cancel_tasks, check, task_failure_error, new,
  name_or, err_run_is_nil,
}

-- `before` and `after` split a list at one of its tasks: goroutines go on in any order, and what passed
-- the test of `recordStop` may be published any time later.
pub data Step : Supervisor → Supervisor → Type 0 where
  start : (s : Supervisor) (task : Bytes) (has_run : Bool) → Step s (go s task has_run)
  finish :
      (s : Supervisor) (before : List Bytes) (name : Bytes) (after : List Bytes) (o : Outcome)
      → s.active ≡ before ++ name ∷ after
      → Step s
          (record s { active = before ++ after; ended = (name, run_task s.canceled o) ∷ s.ended })
  record_end :
      (s : Supervisor) (before : List (Bytes × Option Err)) (name : Bytes) (e : Option Err)
      (after : List (Bytes × Option Err))
      → s.ended ≡ before ++ (name, e) ∷ after
      → Step s (settle (record s { ended = before ++ after }) name e)
  parent_done :
      (s : Supervisor) (reason : ℕ)
      → s.canceled ≡ none
      → Step s (record s { canceled = some reason })
  publish :
      (s : Supervisor) (before : List (TaskFailure × Bool)) (f : TaskFailure × Bool)
      (after : List (TaskFailure × Bool))
      → s.failing ≡ before ++ f ∷ after
      → Step s (record_failure s before f after)
  shutdown : (s : Supervisor) → Step s (begin_shutdown s)
  cancel : (s : Supervisor) → s.stopping ≡ true → Step s (cancel_tasks s)
  join :
      (s : Supervisor)
      → s.stopping ≡ true
      → s.stop_err ≡ none
      → s.active ≡ []
      → s.ended ≡ []
      → group_is_out s.failing ≡ true
      → is_some s.canceled ≡ true
      → Step s (record s { stop_err = some s.group_err })
  give_up :
      (s : Supervisor) (ctx_err : Err)
      → s.stopping ≡ true
      → s.stop_err ≡ none
      → Step s (record s { stop_err = some (some (errorf ctx_err)) })

pub data Reach (s : Supervisor) : Supervisor → Type 0 where
  here : Reach s s
  next : {t u : Supervisor} → Reach s t → Step t u → Reach s u

-- What went into the channel of `FirstFailure` is the recorded failure, once: the send never finds
-- the channel of capacity one full.
abbrev pub IsDelivered : Option TaskFailure → List Err → Type 0
IsDelivered none sent = sent ≡ []
IsDelivered (some f) sent = sent ≡ task_failure_error f ∷ []

publish_failure-IsDelivered :
    (s : Supervisor) (r : Option TaskFailure) (f : TaskFailure)
    → s.recorded_failure ≡ r
    → IsDelivered s.recorded_failure s.sent
    → IsDelivered (publish_failure s r f).recorded_failure (publish_failure s r f).sent
unfolding publish_failure
publish_failure-IsDelivered s none f e h = ground arith
publish_failure-IsDelivered s (some first) f e h = h

record_stop-IsDelivered :
    (s : Supervisor) (name : Bytes) (e : Option Err) (in_group : Bool)
    → IsDelivered s.recorded_failure s.sent
    → let t = record_stop s name e in_group in IsDelivered t.recorded_failure t.sent
unfolding record_stop
record_stop-IsDelivered s name none true h = h
record_stop-IsDelivered s name none false h = h
record_stop-IsDelivered s name (some e) true h =
    if_cases (λ (t : Supervisor). IsDelivered t.recorded_failure t.sent)
      (s.stopping || is_some s.canceled) _ _ (λ _. h) (λ _. h)
record_stop-IsDelivered s name (some e) false h =
    if_cases (λ (t : Supervisor). IsDelivered t.recorded_failure t.sent)
      (s.stopping || is_some s.canceled) _ _ (λ _. h) (λ _. h)

record_failure-IsDelivered :
    (s : Supervisor) (before : List (TaskFailure × Bool)) (f : TaskFailure × Bool)
    (after : List (TaskFailure × Bool))
    → IsDelivered s.recorded_failure s.sent
    → let t = record_failure s before f after in IsDelivered t.recorded_failure t.sent
unfolding record_failure
record_failure-IsDelivered s before (f, true) after h =
    publish_failure-IsDelivered (record s { failing = before ++ after }) s.recorded_failure f refl h
record_failure-IsDelivered s before (f, false) after h =
    publish_failure-IsDelivered (record s { failing = before ++ after }) s.recorded_failure f refl h

go-IsDelivered :
    (s : Supervisor) (task : Bytes) (has_run : Bool)
    → IsDelivered s.recorded_failure s.sent
    → IsDelivered (go s task has_run).recorded_failure (go s task has_run).sent
unfolding go
go-IsDelivered s task true h =
    if_cases (λ t. IsDelivered t.recorded_failure t.sent) s.stopping s _ (λ _. h) (λ _. h)
go-IsDelivered s task false h =
    record_stop-IsDelivered s (name_or task) (some err_run_is_nil) false h

Step-IsDelivered :
    {s t : Supervisor}
    → Step s t
    → IsDelivered s.recorded_failure s.sent
    → IsDelivered t.recorded_failure t.sent
unfolding settle begin_shutdown cancel_tasks
Step-IsDelivered (start s task has_run) h = go-IsDelivered s task has_run h
Step-IsDelivered (finish s before name after o e) h = h
Step-IsDelivered (record_end s before name e after p) h =
    record_stop-IsDelivered (record s { ended = before ++ after }) name e true h
Step-IsDelivered (publish s before f after p) h = record_failure-IsDelivered s before f after h
Step-IsDelivered (parent_done s reason e) h = h
Step-IsDelivered (shutdown s) h = h
Step-IsDelivered (cancel s stopped) h = h
Step-IsDelivered (join s stopped unset idle settled out canceled) h = h
Step-IsDelivered (give_up s ctx_err stopped unset) h = h

Reach-IsDelivered :
    {s t : Supervisor}
    → IsDelivered s.recorded_failure s.sent
    → Reach s t
    → IsDelivered t.recorded_failure t.sent
Reach-IsDelivered h here = h
Reach-IsDelivered h (next r st) = Step-IsDelivered st (Reach-IsDelivered h r)

-- The three views of a failure agree.
abbrev pub AgreeOn : Supervisor → Type 0
AgreeOn s =
    ((check s ≡ none) × (s.sent ≡ []))
    ⊎ ((f : TaskFailure) × (s.recorded_failure ≡ some f)
        × (check s ≡ some (task_failure_error f))
        × (s.sent ≡ task_failure_error f ∷ []))

agree :
    (s : Supervisor) (r : Option TaskFailure)
    → s.recorded_failure ≡ r
    → IsDelivered s.recorded_failure s.sent
    → AgreeOn s
unfolding check
agree s none e h = inl (ground arith, ground arith)
agree s (some f) e h = inr (f, e, ground arith, ground arith)

-- In every state that a new supervisor reaches, either no failure was recorded, `Check` passes and
-- nothing was sent to `FirstFailure`, or one was, `Check` reports it and exactly it was sent: the
-- channel of capacity one never blocks the task.
pub Reach-AgreeOn : {s : Supervisor} → Reach new s → AgreeOn s
Reach-AgreeOn {s} r = agree s s.recorded_failure refl (Reach-IsDelivered refl r)
