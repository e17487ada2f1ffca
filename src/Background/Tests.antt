-- ===== src/Background/Tests.antt =====
-- The theorems about internal/background at concrete inputs.
use go_service_template_rest.Base.{
  ◌≤◌, ◌≡◌, ◌↔◌, refl, true, false, [], ◌∷◌, none, some, codes, length,
}
use go_service_template_rest.Base.GoError.{Err, leaf, sentinel, errorf, errorf_two}
use go_service_template_rest.Background.{
  Supervisor, TaskFailure, returned, panicked, run_task, go, settle, record_failure, begin_shutdown,
  check, matches_only, new, canceled_id, task_failure_error, err_panic,
}
use go_service_template_rest.Background.Causes.{StoppedAsAsked, run_task_lem}
use go_service_template_rest.Background.Lifecycle.{
  start, finish, record_end, publish, Reach, here, next, AgreeOn, Reach-AgreeOn,
}
use go_service_template_rest.Background.Delivery.{Reported, Reach-after_shutdown}

abbrev canceled : Err
canceled = leaf (codes "*errors.errorString") canceled_id

-- A cleanup that failed beside the cancellation.
abbrev dirty : Err
dirty = errorf (errorf_two canceled (sentinel 9))

dirty_is_no_cancellation : matches_only 9 dirty canceled_id ≡ false
unfolding matches_only
dirty_is_no_cancellation = refl

run_task_lem_example :
    (run_task (some canceled_id) (returned (some dirty)) ≡ none)
    ↔ StoppedAsAsked (some canceled_id) (returned (some dirty))
run_task_lem_example = run_task_lem (some canceled_id) (returned (some dirty))

-- One task is started, panics and is recorded.
abbrev started : Supervisor
started = record new { active = codes "sync" ∷ [] }

abbrev over : Supervisor
over = record new { ended = (codes "sync", some (errorf err_panic)) ∷ [] }

abbrev panic : TaskFailure
panic = record { task = codes "sync"; cause = errorf err_panic }

-- The task has passed the test of recordStop.
abbrev tested : Supervisor
tested = record new { failing = (panic, true) ∷ [] }

abbrev failed : Supervisor
failed = record_failure tested [] (panic, true) []

tested-Reach : Reach new tested
unfolding go run_task settle
tested-Reach =
    next {t = over}
      (next {t = started} (next here (start new (codes "sync") true))
        (finish started [] (codes "sync") [] panicked refl))
      (record_end over [] (codes "sync") (some (errorf err_panic)) [] refl)

failed-Reach : Reach new failed
failed-Reach = next tested-Reach (publish tested [] (panic, true) [] refl)

failed-check : check failed ≡ some (task_failure_error panic)
unfolding check record_failure
failed-check = refl

Reach-AgreeOn_example : AgreeOn failed
Reach-AgreeOn_example = Reach-AgreeOn failed-Reach

-- `Shutdown` begins while the task is between the test and the compare-and-swap.
abbrev late : Supervisor
late = record_failure (begin_shutdown tested) [] (panic, true) []

late-Reach : Reach (begin_shutdown tested) late
unfolding begin_shutdown
late-Reach = next here (publish (begin_shutdown tested) [] (panic, true) [] refl)

late-sent : late.sent ≡ task_failure_error panic ∷ []
unfolding record_failure begin_shutdown
late-sent = refl

Reach-after_shutdown_example : Reported tested late × (length late.active ≤ 0)
Reach-after_shutdown_example = Reach-after_shutdown tested late-Reach
