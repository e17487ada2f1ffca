-- ===== src/Health.antt =====
-- internal/health: readiness is refreshed by a loop and served from the last verdict.
-- A time is a number of nanoseconds since Go's zero time, which is 0 and `IsZero`.
pub mod Streak
pub mod Watch
pub mod Staleness
pub mod Transitions
pub mod Abandoned
pub mod Served
mod Tests
use go_service_template_rest.Base.{
  ℕ, suc, ◌+◌, ◌^◌, Bool, true, false, ◌||◌, ◌&&◌, List, [], ◌∷◌, Option, none, some, Bytes,
  if◌then◌else◌, ◌==◌, leb, ltb, is_none, is_some, differ, not,
}
use go_service_template_rest.Base.Int.{
  ℤ, pos, negsuc, pos_part, neg_part, sub_ℕ, ltb_ℤ, leb_ℤ, max_ℤ, add64, sub64, scale64, wrap64,
  time_sub,
}
use go_service_template_rest.Base.GoError.{Err, Result, ok, err, sentinel, errorf, is}

-- A probe is known by its name; what its `Check` answers is an argument of each evaluation.
abbrev pub Probe : Type 0
Probe = Bytes

abbrev pub Check : Type 0
Check = Probe → Option Err

abbrev pub draining_id : ℕ
draining_id = 101

abbrev pub stale_id : ℕ
stale_id = 103

abbrev pub err_draining : Err
err_draining = sentinel draining_id

abbrev pub err_not_evaluated : Err
err_not_evaluated = sentinel 102

abbrev pub err_stale : Err
err_stale = sentinel stale_id

pub record Policy : Type 0 where
  pub probe_budget : ℤ
  pub failure_threshold : ℤ

pub record ReadinessState : Type 0 where
  pub verdict_err : Option Err
  pub consecutive_failures : ℕ
  pub evaluated_at : ℕ

-- A stored `*readinessState`. Each store allocates, so pointers are equal when versions are.
pub record Snapshot : Type 0 where
  pub version : ℕ
  pub value : ReadinessState

pub record Service : Type 0 where
  pub probes : List Probe
  pub policy : Policy
  pub draining : Bool
  pub state : Option Snapshot
  pub stale_after : ℤ
  pub stores : ℕ

-- `staleBudget`, in time.Duration's int64.
unfoldable pub stale_budget : ℤ → ℤ → ℤ
stale_budget interval probe_budget = add64 probe_budget (scale64 3 (max_ℤ interval probe_budget))

-- `New`.
unfoldable pub new : Policy → List Probe → Result Service
new policy probes =
    if leb_ℤ policy.probe_budget (pos 0)
    then err (sentinel 104)
    else if ltb_ℤ policy.failure_threshold (pos 1)
    then err (sentinel 105)
    else ok (record {
      probes = probes;
      policy = policy;
      draining = false;
      state = none;
      stale_after = pos 0;
      stores = 0;
    })

-- `nextReadiness`.
unfoldable pub next_readiness : Option ReadinessState → Option Err → ℤ → ℕ → ReadinessState
next_readiness previous none threshold now = record {
  verdict_err = none;
  consecutive_failures = 0;
  evaluated_at = now;
}
next_readiness none (some e) threshold now = record {
  verdict_err = some e;
  consecutive_failures = 1;
  evaluated_at = now;
}
next_readiness (some p) (some e) threshold now =
    let failures = p.consecutive_failures + 1 in
    record {
      verdict_err =
          if is_none p.verdict_err && ltb_ℤ (pos failures) threshold then p.verdict_err else some e;
      consecutive_failures = failures;
      evaluated_at = now;
    }

-- `evaluate`: the first probe that fails decides.
unfoldable pub evaluate : Check → List Probe → Option Err
evaluate check [] = none
evaluate check (probe ∷ probes) = elim (check probe) [
  | none ↦ evaluate check probes
  | some e ↦ some (errorf e)
]

abbrev pub value_of : Option Snapshot → Option ReadinessState
value_of none = none
value_of (some s) = some s.value

-- The state that a refresh stores.
unfoldable pub refreshed : Service → Check → ℕ → Snapshot
unfolding next_readiness evaluate
refreshed s check now = record {
  version = s.stores;
  value =
      next_readiness (value_of s.state) (evaluate check s.probes) s.policy.failure_threshold now;
}

-- `Refresh`; `now` is the time at which the evaluation ends.
unfoldable pub refresh : Service → Check → ℕ → Service × Option Err
unfolding refreshed
refresh s check now = (
  record s { state = some (refreshed s check now); stores = suc s.stores },
  evaluate check s.probes,
)

-- `staleness`.
unfoldable pub staleness : Service → ReadinessState → ℕ → Option Err
unfolding time_sub
staleness s state now =
    if leb_ℤ s.stale_after (pos 0) || state.evaluated_at == 0
    then none
    else if leb_ℤ (time_sub now state.evaluated_at) s.stale_after
    then none
    else some (errorf err_stale)

abbrev or_else : Option Err → Option Err → Option Err
or_else none e = e
or_else (some d) e = some d

unfoldable pub cached_state : Service → Option Snapshot → ℕ → Option Err
unfolding staleness
cached_state s none now = some err_not_evaluated
cached_state s (some snap) now = or_else (staleness s snap.value now) snap.value.verdict_err

-- `Cached`.
unfoldable pub cached : Service → ℕ → Option Err
unfolding cached_state
cached s now = if s.draining then some err_draining else cached_state s s.state now

unfoldable pub start_drain : Service → Service
start_drain s = record s { draining = true }
