-- ===== src/Health/Tests.antt =====
-- The theorems about internal/health at concrete inputs.
use go_service_template_rest.Base.{
  ℕ, ◌≡◌, ◌⊎◌, ◌↔◌, refl, true, false, List, [], ◌∷◌, none, some, codes, arith, if◌then◌else◌,
  is_none,
}
use go_service_template_rest.Base.Int.{pos}
use go_service_template_rest.Base.GoError.{sentinel, errorf, ok}
use go_service_template_rest.Health.{
  Check, Policy, Service, ReadinessState, new, evaluate, refresh, refreshed, value_of, cached,
  start_drain, err_draining, err_stale, err_not_evaluated,
}
use go_service_template_rest.Health.Streak.{refresh_all, streak, promised, refresh_all_lem}
use go_service_template_rest.Health.Staleness.{IsReady, cached_lem}
use go_service_template_rest.Health.Watch.{
  Watcher, Event, tick, report, fire, report_expiry, drain, done, step, run, watch,
}
use go_service_template_rest.Health.Transitions.{
  Alternates, last_told, run-Alternates, run_after_drain,
}
use go_service_template_rest.Health.Abandoned.{abandoned_is_reported}
use go_service_template_rest.Health.Served.{watch_serves}

abbrev passes : Check
passes probe = none

abbrev fails : Check
fails probe = some (sentinel 900)

-- A probe budget of 20 and a threshold of 2.
abbrev policy : Policy
policy = record { probe_budget = pos 20; failure_threshold = pos 2 }

abbrev service : Service
service = record {
  probes = codes "db" ∷ [];
  policy = policy;
  draining = false;
  state = none;
  stale_after = pos 0;
  stores = 0;
}

new_service : new policy (codes "db" ∷ []) ≡ ok service
unfolding new
new_service = refl

blip :
    (refresh_all service ((fails, 20) ∷ (passes, 10) ∷ [])).state
    ≡ some (record {
      version = 1;
      value = record { verdict_err = none; consecutive_failures = 1; evaluated_at = 20 };
    })
unfolding refresh_all refresh
blip = refl

abbrev runs : List (Check × ℕ)
runs = (fails, 30) ∷ (fails, 20) ∷ (passes, 10) ∷ []

refresh_all_lem_example :
    (st : ReadinessState) × (value_of (refresh_all service runs).state ≡ some st)
    × (st.consecutive_failures ≡ streak service.probes runs)
    × (st.verdict_err
        ≡ (if promised service.probes (pos 2) runs then none else evaluate fails service.probes))
    × (st.evaluated_at ≡ 30)
refresh_all_lem_example = refresh_all_lem service fails 30 ((fails, 20) ∷ (passes, 10) ∷ []) refl

cached_lem_example :
    ((cached service 5 ≡ none) ↔ IsReady service 5)
    × (cached (start_drain service) 5 ≡ some err_draining)
cached_lem_example = cached_lem service 5

not_evaluated : cached service 5 ≡ some err_not_evaluated
unfolding cached
not_evaluated = refl

-- A watcher whose loop began with a healthy verdict.
abbrev watcher : Watcher
watcher = record {
  service = record service { stale_after = pos 80 };
  running = true;
  notify = true;
  previous_err = none;
  timer = none;
  sent = [];
  loaded = none;
  expiring = none;
}

-- The drain starts in the middle of the last but one iteration.
abbrev events : List Event
events =
    tick fails 10
    ∷ report 10
    ∷ tick fails 20
    ∷ report 20
    ∷ tick passes 30
    ∷ drain
    ∷ report 30
    ∷ tick passes 40
    ∷ report 40
    ∷ []

sent_events :
    (run watcher events).sent ≡ some err_draining ∷ none ∷ some (errorf (sentinel 900)) ∷ []
unfolding run refresh evaluate
sent_events = refl

run-Alternates_example :
    Alternates true (run watcher events).sent
    × (last_told true (run watcher events).sent ≡ is_none (run watcher events).previous_err)
run-Alternates_example = run-Alternates watcher events refl refl refl

run_after_drain_example :
    let after = (run (step watcher drain) events).sent in
    (after ≡ []) ⊎ (after ≡ some err_draining ∷ [])
run_after_drain_example = run_after_drain watcher events refl refl

abandoned_is_reported_example :
    let gone = run watcher (tick passes 10 ∷ report 10 ∷ done ∷ []) in
    ((run gone (fire 91 ∷ report_expiry ∷ [])).sent ≡ some (errorf err_stale) ∷ gone.sent)
    × (cached gone.service 91 ≡ some (errorf err_stale))
unfolding refreshed
abandoned_is_reported_example =
    abandoned_is_reported watcher passes 10 91 80 refl refl refl refl refl refl refl (omega arith)
      (omega arith) (omega arith) (omega arith) (omega arith)

watch_serves_example :
    (w : Watcher) × (watch service (pos 30) false true passes 10 ≡ ok (some w))
    × (cached w.service 120 ≡ none)
    × (cached w.service 121 ≡ some (errorf err_stale))
unfolding evaluate
watch_serves_example =
    watch_serves service 30 20 10 120 121 true passes (omega arith) refl (omega arith) refl refl
      refl (omega arith) (omega arith) (omega arith) (omega arith) (omega arith)
