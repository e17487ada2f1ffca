-- ===== src/Health/Abandoned.antt =====
-- What becomes of a healthy verdict that nothing refreshes any more.
use go_service_template_rest.Base.{
  ℕ, ◌+◌, ◌-◌, ◌^◌, ◌<◌, ◌≡◌, refl, ap, ◌∙◌, true, false, [], ◌∷◌, Option, none, some, arith,
}
use go_service_template_rest.Base.Int.{ℤ, pos, add64-pos}
use go_service_template_rest.Base.GoError.{Err, is, errorf}
use go_service_template_rest.Health.{
  Check, Service, Snapshot, ReadinessState, next_readiness, refreshed, refresh, staleness, cached,
  cached_state, err_stale,
}
use go_service_template_rest.Health.Staleness.{staleness_beyond}
use go_service_template_rest.Health.Watch.{
  Watcher, Timer, tick, report, fire, report_expiry, done, step, run, publish, publish_stale,
  found_stale, report_stale, tick_loop, report_loop, fire_timer, arm_staleness, stale_delay,
}

next_readiness-evaluated_at :
    (previous : Option ReadinessState) (e : Option Err) (threshold : ℤ) (now : ℕ)
    → (next_readiness previous e threshold now).evaluated_at ≡ now
unfolding next_readiness
next_readiness-evaluated_at previous none threshold now = refl
next_readiness-evaluated_at none (some e) threshold now = refl
next_readiness-evaluated_at (some p) (some e) threshold now = refl

pub refreshed-evaluated_at :
    (s : Service) (check : Check) (now : ℕ) → (refreshed s check now).value.evaluated_at ≡ now
unfolding refreshed
refreshed-evaluated_at s check now = next_readiness-evaluated_at _ _ _ now

arm_staleness-healthy :
    (s : Service) (snap : Snapshot) (now allowed : ℕ)
    → s.draining ≡ false
    → snap.value.verdict_err ≡ none
    → snap.value.evaluated_at ≡ now
    → s.stale_after ≡ pos allowed
    → allowed + 1 < 2 ^ 63
    → arm_staleness s true snap now ≡ some (record { snapshot = snap; due = now + (allowed + 1) })
unfolding arm_staleness stale_delay
arm_staleness-healthy s snap now allowed serving healthy at armed fits =
    ground (arith, add64-pos allowed 1)

-- A healthy verdict stands, the loop is gone, and the timer waits for the verdict to expire.
record Waiting (w : Watcher) (snap : Snapshot) (now allowed : ℕ) : Type 0 where
  serving : w.service.draining ≡ false
  current : w.service.state ≡ some snap
  healthy : snap.value.verdict_err ≡ none
  at : snap.value.evaluated_at ≡ now
  told : w.previous_err ≡ none
  armed : w.service.stale_after ≡ pos allowed
  waiting : w.timer ≡ some (record { snapshot = snap; due = now + (allowed + 1) })
  free : w.expiring ≡ none
  between : w.loaded ≡ none

tick_loop-Waiting :
    (w : Watcher) (check : Check) (now allowed : ℕ)
    → w.notify ≡ true
    → w.expiring ≡ none
    → w.service.draining ≡ false
    → (refreshed w.service check now).value.verdict_err ≡ none
    → w.service.stale_after ≡ pos allowed
    → allowed + 1 < 2 ^ 63
    → let ticked = tick_loop w check now in
      Waiting (report_loop ticked ticked.loaded now) (refreshed w.service check now) now allowed
unfolding tick_loop report_loop publish refresh
tick_loop-Waiting w check now allowed notified free serving healthy armed fits = ground (
  arith,
  refreshed-evaluated_at w.service check now,
  arm_staleness-healthy (refresh w.service check now).0 (refreshed w.service check now) now allowed
      serving healthy (refreshed-evaluated_at w.service check now) armed fits,
)

step_done-Waiting :
    (w : Watcher) (snap : Snapshot) (now allowed : ℕ)
    → Waiting w snap now allowed
    → Waiting (step w done) snap now allowed
unfolding step
step_done-Waiting w snap now allowed h = ground arith

is-err_stale : is (errorf err_stale) 103 ≡ true
unfolding is
is-err_stale = refl

publish_stale-beyond :
    (w : Watcher) (snap : Snapshot) (later : ℕ)
    → w.service.draining ≡ false
    → w.service.state ≡ some snap
    → w.previous_err ≡ none
    → staleness w.service snap.value later ≡ some (errorf err_stale)
    → (publish_stale w snap later).expiring ≡ some (errorf err_stale)
unfolding publish_stale found_stale
publish_stale-beyond w snap later serving current told stale = ground (arith, is-err_stale)

fire_timer-Waiting :
    (w : Watcher) (timer : Option Timer) (snap : Snapshot) (now allowed later : ℕ)
    → Waiting w snap now allowed
    → w.timer ≡ timer
    → staleness w.service snap.value later ≡ some (errorf err_stale)
    → now + allowed < later
    → (fire_timer w timer later).expiring ≡ some (errorf err_stale)
unfolding fire_timer
fire_timer-Waiting w none snap now allowed later h e stale beyond = ground (arith, h.waiting)
fire_timer-Waiting w (some timer) snap now allowed later h e stale beyond = ground (
  arith,
  h.waiting,
  e,
  publish_stale-beyond (record w { timer = none }) snap later h.serving h.current h.told stale,
)

fire_timer-sent :
    (w : Watcher) (timer : Option Timer) (later : ℕ) → (fire_timer w timer later).sent ≡ w.sent
unfolding fire_timer publish_stale
fire_timer-sent w none later = refl
fire_timer-sent w (some timer) later = ground arith

report_stale-sent :
    (w : Watcher) (o : Option Err) (e : Err)
    → o ≡ some e
    → (report_stale w o).sent ≡ some e ∷ w.sent
unfolding report_stale
report_stale-sent w none e h = cc
report_stale-sent w (some d) e h = ground arith

-- If the loop ends before a drain, right after the report of a healthy evaluation, then once the
-- verdict is older than the guard allows the timer reports `ErrStale` to the callback, and
-- `Cached` refuses the verdict with `ErrStale`.
pub abandoned_is_reported :
    (w : Watcher) (check : Check) (now later allowed : ℕ)
    → w.running ≡ true
    → w.loaded ≡ none
    → w.expiring ≡ none
    → w.notify ≡ true
    → w.service.draining ≡ false
    → (refreshed w.service check now).value.verdict_err ≡ none
    → w.service.stale_after ≡ pos allowed
    → 0 < allowed
    → allowed + 1 < 2 ^ 63
    → 0 < now
    → now + allowed < later
    → later - now < 2 ^ 63
    → let gone = run w (tick check now ∷ report now ∷ done ∷ []) in
      ((run gone (fire later ∷ report_expiry ∷ [])).sent ≡ some (errorf err_stale) ∷ gone.sent)
      × (cached gone.service later ≡ some (errorf err_stale))
abandoned_is_reported w check now later allowed running between free notified serving healthy armed
      guard fits set beyond near =
    (
      unfold run step in
          rw h.free (
            report_stale-sent (fire_timer gone gone.timer later) _ (errorf err_stale)
              (fire_timer-Waiting gone gone.timer snap now allowed later h refl stale beyond)
            ∙ ap (λ l. some (errorf err_stale) ∷ l) (fire_timer-sent gone gone.timer later)),
      unfold cached cached_state in ground (arith, h.serving, h.current, stale),
    )
  where
    gone : Watcher
    gone = run w (tick check now ∷ report now ∷ done ∷ [])

    snap : Snapshot
    snap = refreshed w.service check now

    told : Watcher
    told = report_loop (tick_loop w check now) (tick_loop w check now).loaded now

    ticked : gone ≡ step told done
    ticked = unfold run step tick_loop in rw (running, between, free) refl

    h : Waiting gone snap now allowed
    h = rw ticked (
        step_done-Waiting told snap now allowed
          (tick_loop-Waiting w check now allowed notified free serving healthy armed fits))

    stale : staleness gone.service snap.value later ≡ some (errorf err_stale)
    stale =
        staleness_beyond gone.service snap.value later allowed h.armed guard (rw h.at near)
          (rw h.at set) (rw h.at beyond)
