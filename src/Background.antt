-- ===== src/Background.antt =====
-- internal/background: the supervisor of long-lived tasks. Log records are left out.
pub mod Causes
pub mod Lifecycle
pub mod Delivery
mod Tests
use go_service_template_rest.Base.{
  ℕ, zero, suc, ◌+◌, ◌≡◌, Bool, true, false, ◌||◌, ◌&&◌, not, List, [], ◌∷◌, ◌++◌, Option, none,
  some, Bytes, codes, if◌then◌else◌, is_some,
}
use go_service_template_rest.Base.GoError.{
  Err, Errs, leaf, wrapped, joined, op_error, permanent, status, nil, cons, is, unwrap, sentinel,
  errorf, errorf_two,
}

abbrev pub err_panic : Err
err_panic = sentinel 201

abbrev pub err_task_failed : Err
err_task_failed = sentinel 202

abbrev pub err_task_stopped : Err
err_task_stopped = sentinel 203

abbrev pub err_run_is_nil : Err
err_run_is_nil = sentinel 204

-- `context.Canceled`.
abbrev pub canceled_id : ℕ
canceled_id = 1

-- The causes that `errors.AsType[multiCauseError]` finds: of the first join in the chain.
unfoldable pub find_multi : Err → Option Errs
find_multi (leaf ty i) = none
find_multi (wrapped ty e) = find_multi e
find_multi (joined ty es) = some es
find_multi (op_error name e) = find_multi e
find_multi (permanent e) = find_multi e
find_multi (status owned s) = none

unfoldable pub all_errs : (Err → Bool) → Errs → Bool
all_errs p nil = true
all_errs p (cons e es) = p e && all_errs p es

-- The rest of `matchesOnly` behind its first test: the causes of a join, then a single cause.
unfoldable pub match_causes : (Err → Bool) → Option Errs → Option Err → Bool
unfolding all_errs
match_causes p (some es) cause = all_errs p es
match_causes p none (some cause) = p cause
match_causes p none none = true

-- `matchesOnly`, on fuel: each call goes to a proper part of the error.
unfoldable pub matches_only : ℕ → Err → ℕ → Bool
unfolding match_causes find_multi is unwrap
matches_only zero e target = false
matches_only (suc fuel) e target =
    let deeper = match_causes (λ c. matches_only fuel c target) (find_multi e) (unwrap e) in
    if is e target then deeper else false

-- The depth of an error bounds the calls.
unfoldable mutual
  pub height : Err → ℕ
  height (leaf ty i) = 1
  height (wrapped ty e) = suc (height e)
  height (joined ty es) = suc (height_all es)
  height (op_error name e) = suc (height e)
  height (permanent e) = suc (height e)
  height (status owned s) = 1

  pub height_all : Errs → ℕ
  height_all nil = 0
  height_all (cons e es) = height e + height_all es

-- What a task's `Run` does in the end.
pub data Outcome : Type 0 where
  returned : Option Err → Outcome
  panicked : Outcome

-- What a returned error becomes under the context's terminal error.
unfoldable pub stop_cause : Option ℕ → Err → Option Err
stop_cause none e = some (errorf e)
stop_cause (some reason) e = if matches_only (height e) e reason then none else some (errorf e)

-- `runTask`; the first argument is the identity of `taskCtx.Err()`.
unfoldable pub run_task : Option ℕ → Outcome → Option Err
run_task ctx_err panicked = some (errorf err_panic)
run_task ctx_err (returned (some e)) = stop_cause ctx_err e
run_task none (returned none) = some (errorf err_task_stopped)
run_task (some reason) (returned none) = none

pub record TaskFailure : Type 0 where
  pub task : Bytes
  pub cause : Err

-- The supervisor: `canceled` is the identity of the task context's error, `sent` what went into the
-- channel of `FirstFailure`, `active` the tasks that run, `ended` those whose `runTask` is over and
-- whose end is not recorded yet, `failing` the failures that have passed the test of `recordStop` and
-- not come to its compare-and-swap, with whether a goroutine of the errgroup is there, `group_err` the
-- error that the errgroup keeps and `stop_err` what `Shutdown` returned, once it has.
pub record Supervisor : Type 0 where
  pub stopping : Bool
  pub canceled : Option ℕ
  pub recorded_failure : Option TaskFailure
  pub sent : List Err
  pub active : List Bytes
  pub ended : List (Bytes × Option Err)
  pub failing : List (TaskFailure × Bool)
  pub group_err : Option Err
  pub stop_err : Option (Option Err)

-- `New`, on a parent context that is not done.
abbrev pub new : Supervisor
new = record {
  stopping = false;
  canceled = none;
  recorded_failure = none;
  sent = [];
  active = [];
  ended = [];
  failing = [];
  group_err = none;
  stop_err = none;
}

-- `taskFailureError`.
abbrev pub task_failure_error : TaskFailure → Err
task_failure_error f = errorf_two err_task_failed f.cause

-- The compare-and-swap of `recordStop` and the send that follows it.
unfoldable pub publish_failure : Supervisor → Option TaskFailure → TaskFailure → Supervisor
publish_failure s (some first) f = s
publish_failure s none f = record s {
  recorded_failure = some f;
  sent = s.sent ++ task_failure_error f ∷ [];
}

abbrev pub keep_first : Option Err → Option Err → Option Err
keep_first none e = e
keep_first (some first) e = some first

-- A goroutine of the errgroup returns its error.
abbrev pub leave_group : Bool → Option Err → Supervisor → Supervisor
leave_group in_group e s = if in_group then record s { group_err = keep_first s.group_err e } else s

-- `recordStop` up to its test, and the return where it ends there.
unfoldable pub record_stop : Supervisor → Bytes → Option Err → Bool → Supervisor
record_stop s name none in_group = leave_group in_group none s
record_stop s name (some e) in_group =
    if s.stopping || is_some s.canceled
    then leave_group in_group (some e) s
    else record s { failing = (record { task = name; cause = e }, in_group) ∷ s.failing }

-- The rest of `recordStop`, for one of the failures that passed its test.
unfoldable pub record_failure :
    Supervisor
    → List (TaskFailure × Bool)
    → TaskFailure × Bool
    → List (TaskFailure × Bool)
    → Supervisor
unfolding publish_failure
record_failure s before (f, in_group) after =
    leave_group in_group (some f.cause)
      (publish_failure (record s { failing = before ++ after }) s.recorded_failure f)

-- `cmp.Or(task.Name, "unnamed")`.
abbrev pub name_or : Bytes → Bytes
name_or [] = codes "unnamed"
name_or (c ∷ name) = c ∷ name

-- `Go`; the flag says whether the task has a `Run`.
unfoldable pub go : Supervisor → Bytes → Bool → Supervisor
unfolding record_stop
go s task has_run =
    let name = name_or task in
    if not has_run
    then record_stop s name (some err_run_is_nil) false
    else if s.stopping
    then s
    else record s { active = name ∷ s.active }

-- `Check`.
unfoldable pub check : Supervisor → Option Err
check s = elim s.recorded_failure [ none ↦ none | some f ↦ some (task_failure_error f) ]

-- The end of a task's goroutine behind `runTask`.
unfoldable pub settle : Supervisor → Bytes → Option Err → Supervisor
unfolding record_stop
settle s name e = record_stop s name e true

-- No goroutine of the errgroup is in `recordStop`.
unfoldable pub group_is_out : List (TaskFailure × Bool) → Bool
group_is_out [] = true
group_is_out ((f, in_group) ∷ failing) = not in_group && group_is_out failing

-- `Shutdown` refuses new tasks, and then cancels every task.
unfoldable pub begin_shutdown : Supervisor → Supervisor
begin_shutdown s = record s { stopping = true }

unfoldable pub cancel_tasks : Supervisor → Supervisor
cancel_tasks s = record s { canceled = first_reason s.canceled }
  where
    first_reason : Option ℕ → Option ℕ
    first_reason none = some canceled_id
    first_reason (some reason) = some reason
