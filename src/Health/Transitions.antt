-- ===== src/Health/Transitions.antt =====
-- What the transition callback of `Watch` receives.
use go_service_template_rest.Base.{
  ℕ, ◌≡◌, refl, ◌⊎◌, inl, inr, Bool, true, false, ◌&&◌, not, List, [], ◌∷◌, Option, none, some,
  is_none, is_some, arith, if_cases,
}
use go_service_template_rest.Base.GoError.{Err}
use go_service_template_rest.Health.{Check, Snapshot, err_draining, start_drain, refresh, refreshed}
use go_service_template_rest.Health.Watch.{
  Watcher, Timer, Event, tick, report, fire, report_expiry, drain, done, step, run, publish_stale,
  publish, tick_loop, report_loop, report_stale, fire_timer,
}

not_some : (e : Option Err) → is_some e ≡ false → e ≡ none
not_some none h = refl
not_some (some e) h = cc

-- The health that the callback was last told of, or the health at the start.
abbrev pub last_told : Bool → List (Option Err) → Bool
last_told healthy [] = healthy
last_told healthy (e ∷ older) = is_none e

-- Each call of the callback reports another health than the one before it.
abbrev pub Alternates : Bool → List (Option Err) → Type 0
Alternates healthy [] = Unit {0}
Alternates healthy (e ∷ older) =
    (is_none e ≡ not (last_told healthy older)) × Alternates healthy older

pub record Told (healthy : Bool) (w : Watcher) : Type 0 where
  pub notified : w.notify ≡ true
  pub alternating : Alternates healthy w.sent
  pub current : last_told healthy w.sent ≡ is_none w.previous_err
  pub held : (w.expiring ≡ none) ⊎ (w.previous_err ≡ none)

publish-Told :
    (healthy : Bool) (w : Watcher) (e : Option Err)
    → w.expiring ≡ none
    → Told healthy w
    → Told healthy (publish w e)
unfolding publish
publish-Told healthy w e free t = ground arith

publish_stale-Told :
    (healthy : Bool) (w : Watcher) (armed : Snapshot) (now : ℕ)
    → Told healthy w
    → Told healthy (publish_stale w armed now)
unfolding publish_stale
publish_stale-Told healthy w armed now t = ground arith

fire_timer-Told :
    (healthy : Bool) (w : Watcher) (timer : Option Timer) (now : ℕ)
    → Told healthy w
    → Told healthy (fire_timer w timer now)
unfolding fire_timer
fire_timer-Told healthy w none now t = t
fire_timer-Told healthy w (some timer) now t = ground (
  arith,
  publish_stale-Told healthy (record w { timer = none }) timer.snapshot now
      (record {
        notified = t.notified;
        alternating = t.alternating;
        current = t.current;
        held = t.held;
      }),
)

report_stale-Told :
    (healthy : Bool) (w : Watcher) (e : Option Err)
    → w.expiring ≡ e
    → Told healthy w
    → Told healthy (report_stale w e)
unfolding report_stale
report_stale-Told healthy w none same t = t
report_stale-Told healthy w (some e) same t = ground arith

report_loop-Told :
    (healthy : Bool) (w : Watcher) (loaded : Option (Option Err × Snapshot)) (now : ℕ)
    → w.expiring ≡ none
    → Told healthy w
    → Told healthy (report_loop w loaded now)
unfolding report_loop publish
report_loop-Told healthy w none now free t = t
report_loop-Told healthy w (some (current, snap)) now free t = ground arith

tick_loop-Told :
    (healthy : Bool) (w : Watcher) (check : Check) (now : ℕ)
    → Told healthy w
    → Told healthy (tick_loop w check now)
unfolding tick_loop
tick_loop-Told healthy w check now t = ground arith

step-Told : (healthy : Bool) (w : Watcher) (e : Event) → Told healthy w → Told healthy (step w e)
unfolding step
step-Told healthy w (tick check now) t =
    if_cases (Told healthy) (w.running && is_none w.loaded) _ w
      (λ _. tick_loop-Told healthy w check now t) (λ _. t)
step-Told healthy w (report now) t =
    if_cases (Told healthy) (is_some w.expiring) w _ (λ _. t)
      (λ free. report_loop-Told healthy w w.loaded now (not_some w.expiring free) t)
step-Told healthy w (fire now) t =
    if_cases (Told healthy) (is_some w.expiring) w _ (λ _. t)
      (λ _. fire_timer-Told healthy w w.timer now t)
step-Told healthy w report_expiry t = report_stale-Told healthy w w.expiring refl t
step-Told healthy w drain t = ground arith
step-Told healthy w done t = ground arith

run-Told :
    (healthy : Bool) (w : Watcher) (es : List Event) → Told healthy w → Told healthy (run w es)
unfolding run
run-Told healthy w [] t = t
run-Told healthy w (e ∷ es) t = run-Told healthy (step w e) es (step-Told healthy w e t)

-- In every run of a watcher that has sent nothing yet and is not about to report an expiry, what
-- the callback receives alternates between healthy and unhealthy, beginning with a change of the
-- health that the loop began with, and the last report agrees with the verdict that the loop
-- compares with.
pub run-Alternates :
    (w : Watcher) (es : List Event)
    → w.notify ≡ true
    → w.sent ≡ []
    → w.expiring ≡ none
    → let healthy = is_none w.previous_err in
      Alternates healthy (run w es).sent
      × (last_told healthy (run w es).sent ≡ is_none (run w es).previous_err)
run-Alternates w es n e free =
    let t = run-Told (is_none w.previous_err) w es (record {
      notified = n;
      alternating = ground arith;
      current = ground arith;
      held = inl free;
    }) in
    (t.alternating, t.current)

-- From the moment the drain starts: nothing was sent since, or `ErrDraining` alone, and nothing else
-- is about to be.
pub record Drained (before : List (Option Err)) (w : Watcher) : Type 0 where
  pub draining : w.service.draining ≡ true
  pub about : (w.loaded ≡ none) ⊎ ((snap : Snapshot) × (w.loaded ≡ some (some err_draining, snap)))
  pub unexpired : w.expiring ≡ none
  pub quiet :
      ((w.previous_err ≡ none) × (w.sent ≡ before))
      ⊎ ((is_some w.previous_err ≡ true)
          × ((w.sent ≡ before) ⊎ (w.sent ≡ some err_draining ∷ before)))

tick_loop-Drained :
    (before : List (Option Err)) (w : Watcher) (check : Check) (now : ℕ)
    → Drained before w
    → Drained before (tick_loop w check now)
unfolding tick_loop refresh
tick_loop-Drained before w check now d = record {
  draining = d.draining;
  about = inr (refreshed w.service check now, rw d.draining refl);
  unexpired = d.unexpired;
  quiet = d.quiet;
}

report_loop-Drained :
    (before : List (Option Err)) (w : Watcher) (loaded : Option (Option Err × Snapshot)) (now : ℕ)
    → w.loaded ≡ loaded
    → Drained before w
    → Drained before (report_loop w loaded now)
unfolding report_loop publish
report_loop-Drained before w none now same d = d
report_loop-Drained before w (some (current, snap)) now same d = ground arith

fire_timer-Drained :
    (before : List (Option Err)) (w : Watcher) (timer : Option Timer) (now : ℕ)
    → Drained before w
    → Drained before (fire_timer w timer now)
unfolding fire_timer publish_stale
fire_timer-Drained before w none now d = d
fire_timer-Drained before w (some timer) now d = ground arith

step-Drained :
    (before : List (Option Err)) (w : Watcher) (e : Event)
    → Drained before w
    → Drained before (step w e)
unfolding step start_drain
step-Drained before w (tick check now) d =
    if_cases (Drained before) (w.running && is_none w.loaded) _ w
      (λ _. tick_loop-Drained before w check now d) (λ _. d)
step-Drained before w (report now) d =
    if_cases (Drained before) (is_some w.expiring) w _ (λ _. d)
      (λ _. report_loop-Drained before w w.loaded now refl d)
step-Drained before w (fire now) d =
    if_cases (Drained before) (is_some w.expiring) w _ (λ _. d)
      (λ _. fire_timer-Drained before w w.timer now d)
step-Drained before w report_expiry d = rw (d.unexpired, report_stale) d
step-Drained before w drain d = record {
  draining = refl;
  about = d.about;
  unexpired = d.unexpired;
  quiet = d.quiet;
}
step-Drained before w done d = ground arith

run-Drained :
    (before : List (Option Err)) (w : Watcher) (es : List Event)
    → Drained before w
    → Drained before (run w es)
unfolding run
run-Drained before w [] d = d
run-Drained before w (e ∷ es) d = run-Drained before (step w e) es (step-Drained before w e d)

Drained-sent :
    (before : List (Option Err)) (w : Watcher)
    → Drained before w
    → (w.sent ≡ before) ⊎ (w.sent ≡ some err_draining ∷ before)
Drained-sent before w d = elim d.quiet [ inl healthy ↦ inl healthy.1 | inr unhealthy ↦ unhealthy.1 ]

-- The drain starts while no report is under way: the loop is not between its look at the drain
-- and its report, and the timer's function has not found the verdict expired. From then on the
-- callback receives nothing but `ErrDraining`, at most once: the expiry of the verdict is not
-- reported.
pub run_after_drain :
    (w : Watcher) (es : List Event)
    → w.loaded ≡ none
    → w.expiring ≡ none
    → let after = (run (step w drain) es).sent in
      (after ≡ w.sent) ⊎ (after ≡ some err_draining ∷ w.sent)
unfolding step start_drain
run_after_drain w es between free = Drained-sent w.sent (run (step w drain) es) (
    run-Drained w.sent (step w drain) es (record {
      draining = refl;
      about = inl between;
      unexpired = free;
      quiet = quiet_start w.previous_err;
    }))
  where
    quiet_start :
        (e : Option Err)
        → ((e ≡ none) × (w.sent ≡ w.sent))
          ⊎ ((is_some e ≡ true) × ((w.sent ≡ w.sent) ⊎ (w.sent ≡ some err_draining ∷ w.sent)))
    quiet_start none = inl (refl, refl)
    quiet_start (some e) = inr (refl, inl refl)
