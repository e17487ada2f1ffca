-- ===== src/Health/Served.antt =====
-- How long the first verdict of a refresher is served.
use go_service_template_rest.Base.{
  ℕ, ◌+◌, ◌-◌, ◌*◌, ◌^◌, ◌≤◌, ◌<◌, max, ◌≡◌, refl, Bool, false, none, some, arith,
}
use go_service_template_rest.Base.Int.{pos}
use go_service_template_rest.Base.GoError.{ok, errorf}
use go_service_template_rest.Health.{
  Check, Service, evaluate, refresh, refreshed, next_readiness, cached, cached_state, stale_budget,
  err_stale,
}
use go_service_template_rest.Health.Staleness.{staleness_within, staleness_beyond, stale_budget-pos}
use go_service_template_rest.Health.Abandoned.{refreshed-evaluated_at}
use go_service_template_rest.Health.Watch.{Watcher, watch, seed, begin}

next_readiness-passed :
    (s : Service) (check : Check) (now : ℕ)
    → evaluate check s.probes ≡ none
    → ((refreshed s check now).value.verdict_err ≡ none)
      × ((refreshed s check now).value.evaluated_at ≡ now)
unfolding refreshed next_readiness
next_readiness-passed s check now e = rw (e, next_readiness) (refl, refl)

cached-refresh :
    (s : Service) (check : Check) (now allowed later : ℕ)
    → s.draining ≡ false
    → evaluate check s.probes ≡ none
    → s.stale_after ≡ pos allowed
    → allowed < 2 ^ 63
    → now ≤ later
    → later ≤ now + allowed
    → cached (refresh s check now).0 later ≡ none
unfolding cached cached_state refresh
cached-refresh s check now allowed later serving passed armed fits after within =
    let (healthy, at) = next_readiness-passed s check now passed in
    ground (
      arith,
      healthy,
      serving,
      staleness_within (refresh s check now).0 (refreshed s check now).value later allowed armed
          fits (rw at after) (rw at within),
    )

cached-expired :
    (s : Service) (check : Check) (now allowed later : ℕ)
    → s.draining ≡ false
    → s.stale_after ≡ pos allowed
    → 0 < allowed
    → 0 < now
    → now + allowed < later
    → later - now < 2 ^ 63
    → cached (refresh s check now).0 later ≡ some (errorf err_stale)
unfolding cached cached_state refresh
cached-expired s check now allowed later serving armed guard set beyond near =
    let at = refreshed-evaluated_at s check now in
    ground (
      arith,
      serving,
      staleness_beyond (refresh s check now).0 (refreshed s check now).value later allowed armed
          guard (rw at near) (rw at set) (rw at beyond),
    )

-- `Watch` with a positive interval and probe budget, on a service without a verdict that is not
-- draining and whose probes pass, seeds a verdict that is served for the probe budget and three
-- periods, the period being the larger of the interval and the budget, and no longer: where
-- nothing refreshes it, `Cached` refuses it from then on with `ErrStale`. The clock is past Go's
-- zero time.
pub watch_serves :
    (s : Service) (interval budget now later expired : ℕ) (notify : Bool) (check : Check)
    → 0 < interval
    → s.policy.probe_budget ≡ pos budget
    → budget + 3 * max interval budget < 2 ^ 63
    → s.state ≡ none
    → s.draining ≡ false
    → evaluate check s.probes ≡ none
    → now ≤ later
    → later ≤ now + (budget + 3 * max interval budget)
    → 0 < now
    → now + (budget + 3 * max interval budget) < expired
    → expired - now < 2 ^ 63
    → (w : Watcher) × (watch s (pos interval) false notify check now ≡ ok (some w))
      × (cached w.service later ≡ none)
      × (cached w.service expired ≡ some (errorf err_stale))
unfolding watch begin seed
watch_serves s interval budget now later expired notify check positive e fits empty serving passed
      after within set beyond near =
    let armed : Service = record s {
      stale_after = stale_budget (pos interval) s.policy.probe_budget;
    } in
    (
      begin (seed armed check now none) notify now,
      ground (arith, empty),
      cached-refresh armed check now (budget + 3 * max interval budget) later serving passed
          (rw e (stale_budget-pos interval budget fits)) fits after within,
      cached-expired armed check now (budget + 3 * max interval budget) expired serving
          (rw e (stale_budget-pos interval budget fits)) (omega arith) set beyond near,
    )
